-- ===== src/I18n/Told.antt =====
-- Texts that are messages of web/src/lib/i18n.ts: in the language of the page the message is there and
-- takes the arguments that it is given.
use ddsds.Common.{
  String, Bool, true, false, ◌&&◌, List, [], ◌∷◌, Option, none, some, ◌≡◌, refl, if◌then◌else◌,
}
use ddsds.I18n.Template.{Parameter, Argument, Message, Dictionary, lookup}
use ddsds.I18n.Ru.{ru}
use ddsds.I18n.En.{en}
use ddsds.I18n.State.{Locale, ru_locale, en_locale, dictionaries, find_message, Messages, translate}

-- As many arguments as parameters, of their types.
abbrev agree : List Parameter → List Argument → Bool
agree [] [] = true
agree (Parameter.string ∷ ps) (Argument.words s ∷ xs) = agree ps xs
agree (Parameter.number ∷ ps) (Argument.count n ∷ xs) = agree ps xs
agree _ _ = false

abbrev takes : Option Message → List Argument → Bool
takes none xs = false
takes (some m) xs = agree m.params xs

unfoldable pub is_asked_well : Dictionary → (section key : String) → List Argument → Bool
unfolding find_message lookup
is_asked_well d section key xs = takes (find_message d section key) xs

-- The text is what a message of the dictionary gives at arguments that it takes.
pub data IsTold (m : Messages) : String → Type 0 where
  told :
      (section key : String) (xs : List Argument)
      → is_asked_well m.t section key xs ≡ true
      → IsTold m (translate m section key xs)

unfoldable pub is_asked_in_both : (section key : String) → List Argument → Bool
unfolding is_asked_well ru en
is_asked_in_both section key xs = is_asked_well ru section key xs && is_asked_well en section key xs

and_true : (a b : Bool) → (a && b) ≡ true → (a ≡ true) × (b ≡ true)
and_true true b h = (refl, h)
and_true false b h = (h, cc)

asked_in :
    (l : Locale) (section key : String) (xs : List Argument)
    → is_asked_in_both section key xs ≡ true
    → is_asked_well (dictionaries l) section key xs ≡ true
unfolding dictionaries is_asked_in_both
asked_in ru_locale section key xs h =
    (and_true (is_asked_well ru section key xs) (is_asked_well en section key xs) h).0
asked_in en_locale section key xs h =
    (and_true (is_asked_well ru section key xs) (is_asked_well en section key xs) h).1

-- A message that both dictionaries have.
pub IsTold-translate :
    {m : Messages} (l : Locale)
    → m.t ≡ dictionaries l
    → (section key : String) (xs : List Argument) → is_asked_in_both section key xs ≡ true
    → IsTold m (translate m section key xs)
IsTold-translate {m} l e section key xs h = told section key xs (rw e (asked_in l section key xs h))

found_of :
    (o : Option Message) (xs : List Argument)
    → takes o xs ≡ true
    → (message : Message) × (o ≡ some message)
found_of none xs h = absurd (cc)
found_of (some message) xs h = (message, refl)

-- The message itself.
pub message_found :
    (m : Messages) (l : Locale)
    → m.t ≡ dictionaries l
    → (section key : String) (xs : List Argument) → is_asked_in_both section key xs ≡ true
    → (message : Message) × (find_message m.t section key ≡ some message)
unfolding is_asked_well
message_found m l e section key xs h =
    found_of (find_message m.t section key) xs (rw e (asked_in l section key xs h))

pub IsTold-if :
    {m : Messages} {s r : String} (b : Bool)
    → IsTold m s
    → IsTold m r
    → IsTold m (if b then s else r)
IsTold-if true h k = h
IsTold-if false h k = k

-- One test of a chain whose last text is of another kind.
pub if_told :
    {m : Messages} {P : String → Type 0} {s r : String} (b : Bool)
    → ((u : String) → IsTold m u → P u)
    → IsTold m s
    → (b ≡ false → P r)
    → P (if b then s else r)
if_told {m} {P} {s} {r} true given h k = given s h
if_told {m} {P} {s} {r} false given h k = k refl
