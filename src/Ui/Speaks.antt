-- ===== src/Ui/Speaks.antt =====
-- When what a component shows can be shown: the dictionaries of web/src/lib/i18n.ts have each
-- message with parameters of the types of the arguments, and web/src/components/ui/Badge.tsx has a
-- colour and a label for each badge.
use ddsds.Common.{
  String, Bool, true, false, ◌&&◌, List, [], ◌∷◌, ◌++◌, Option, none, some, ◌≡◌, refl, All, ◌⊎◌,
}
use ddsds.I18n.Template.{Parameter, Message, Dictionary, lookup}
use ddsds.I18n.Ru.{ru}
use ddsds.I18n.En.{en}
use ddsds.I18n.State.{Locale, ru_locale, en_locale, dictionaries, find_message, Messages}
use ddsds.I18n.Told.{IsTold}
use ddsds.Ui.{
  Value, Shown, text, term, message, status_badge, severity_badge, fact, told, named,
  severity_colors, status_colors, status_labels, severity_labels, card_body, shown_if, either_of,
}

-- The message is there and takes no arguments.
abbrev is_plain_message : Option Message → Bool
is_plain_message none = false
is_plain_message (some m) = elim m.params [ [] ↦ true | p ∷ ps ↦ false ]

abbrev fits_value : Dictionary → Parameter → Value → Bool
fits_value d Parameter.string (text s) = true
fits_value d Parameter.string (Value.number n) = false
fits_value d Parameter.string (term section key) = is_plain_message (find_message d section key)
fits_value d Parameter.number (text s) = false
fits_value d Parameter.number (Value.number n) = true
fits_value d Parameter.number (term section key) = false

abbrev fits_values : Dictionary → List Parameter → List Value → Bool
fits_values d [] [] = true
fits_values d [] (v ∷ vs) = false
fits_values d (p ∷ ps) [] = false
fits_values d (p ∷ ps) (v ∷ vs) = fits_value d p v && fits_values d ps vs

abbrev takes : Dictionary → Option Message → List Value → Bool
takes d none vs = false
takes d (some m) vs = fits_values d m.params vs

abbrev label_found : Dictionary → String → Option String → Bool
label_found d section none = false
label_found d section (some key) = is_plain_message (find_message d section key)

abbrev color_found : Option String → Bool
color_found none = false
color_found (some c) = true

unfoldable pub speaks : Dictionary → Shown → Bool
unfolding find_message lookup status_colors status_labels severity_colors severity_labels
speaks d (message section key vs) = takes d (find_message d section key) vs
speaks d (status_badge value) =
    color_found (lookup value status_colors) && label_found d "status" (lookup value status_labels)
speaks d (severity_badge value) =
    color_found (lookup value severity_colors)
    && label_found d "severity" (lookup value severity_labels)
speaks d (fact s) = true
-- these are not judged by a test, but by `Speaks`
speaks d (told m s) = false
speaks d (named m code s) = false

-- In both languages.
unfoldable pub speaks_both : Shown → Bool
unfolding speaks dictionaries ru en
speaks_both x = speaks ru x && speaks en x

pub data IsSaid : Shown → Type 0 where
  said : {x : Shown} → speaks_both x ≡ true → IsSaid x
  said_told : {m : Messages} {s : String} → IsTold m s → IsSaid (told m s)
  said_named : {m : Messages} {code s : String} → IsTold m s ⊎ (s ≡ code) → IsSaid (named m code s)

pub data IsSpoken : List Shown → Type 0 where
  spoken_nil : IsSpoken []
  spoken_cons : {x : Shown} {xs : List Shown} → IsSaid x → IsSpoken xs → IsSpoken (x ∷ xs)

-- What is shown can be shown; a text of a function is what a message of the dictionary gives at
-- arguments that it takes, or it is the code.
abbrev pub Speaks : Locale → Shown → Type 0
Speaks l (told m s) = IsTold m s
Speaks l (named m code s) = IsTold m s ⊎ (s ≡ code)
Speaks l (message section key vs) = speaks (dictionaries l) (message section key vs) ≡ true
Speaks l (status_badge value) = speaks (dictionaries l) (status_badge value) ≡ true
Speaks l (severity_badge value) = speaks (dictionaries l) (severity_badge value) ≡ true
Speaks l (fact s) = speaks (dictionaries l) (fact s) ≡ true

abbrev pub AllSpeak : Locale → List Shown → Type 0
AllSpeak l xs = All (Speaks l) xs

and_true : (a b : Bool) → (a && b) ≡ true → (a ≡ true) × (b ≡ true)
and_true true b h = (refl, h)
and_true false b h = (h, cc)

speaks_both-speaks :
    (l : Locale) (x : Shown) → speaks_both x ≡ true → speaks (dictionaries l) x ≡ true
unfolding dictionaries speaks_both
speaks_both-speaks ru_locale x h = (and_true (speaks ru x) (speaks en x) h).0
speaks_both-speaks en_locale x h = (and_true (speaks ru x) (speaks en x) h).1

speaks_both-Speaks : (l : Locale) (x : Shown) → speaks_both x ≡ true → Speaks l x
unfolding speaks_both speaks
speaks_both-Speaks l (told m s) h = absurd (cc)
speaks_both-Speaks l (named m code s) h = absurd (cc)
speaks_both-Speaks l (message section key vs) h = speaks_both-speaks l (message section key vs) h
speaks_both-Speaks l (status_badge value) h = speaks_both-speaks l (status_badge value) h
speaks_both-Speaks l (severity_badge value) h = speaks_both-speaks l (severity_badge value) h
speaks_both-Speaks l (fact s) h = speaks_both-speaks l (fact s) h

IsSaid-Speaks : (l : Locale) (x : Shown) → IsSaid x → Speaks l x
IsSaid-Speaks l x (said h) = speaks_both-Speaks l x h
IsSaid-Speaks l _ (said_told t) = t
IsSaid-Speaks l _ (said_named t) = t

pub IsSpoken-AllSpeak : (l : Locale) (xs : List Shown) → IsSpoken xs → AllSpeak l xs
IsSpoken-AllSpeak l _ spoken_nil = tt
IsSpoken-AllSpeak l _ (spoken_cons {x} {xs} h k) = (IsSaid-Speaks l x h, IsSpoken-AllSpeak l xs k)

pub IsSpoken-append : {xs ys : List Shown} → IsSpoken xs → IsSpoken ys → IsSpoken (xs ++ ys)
IsSpoken-append spoken_nil k = k
IsSpoken-append (spoken_cons h hs) k = spoken_cons h (IsSpoken-append hs k)

pub IsSpoken-shown_if : (b : Bool) {xs : List Shown} → IsSpoken xs → IsSpoken (shown_if b xs)
unfolding shown_if
IsSpoken-shown_if true h = h
IsSpoken-shown_if false h = spoken_nil

pub IsSaid-either_of : (b : Bool) {x y : Shown} → IsSaid x → IsSaid y → IsSaid (either_of b x y)
unfolding either_of
IsSaid-either_of true h k = h
IsSaid-either_of false h k = k

pub IsSpoken-card_body :
    (is_loading is_error : Bool) {on_error content : List Shown}
    → IsSpoken on_error
    → IsSpoken content
    → IsSpoken (card_body is_loading is_error on_error content)
unfolding card_body speaks_both
IsSpoken-card_body true is_error h k = spoken_cons (said refl) (spoken_cons (said refl) spoken_nil)
IsSpoken-card_body false true h k = h
IsSpoken-card_body false false h k = k

pub ruleset spoken = (
  said, said_told, said_named, spoken_nil, spoken_cons, IsSpoken-append, IsSpoken-shown_if,
  IsSaid-either_of, IsSpoken-card_body,
)
