-- ===== src/Format/Labels/Keys.antt =====
-- The tables of labels of web/src/lib/format.ts against the dictionaries.
use ddsds.Common.{String, Bool, true, false, [], ◌∷◌, Option, none, some, ◌≡◌, refl, all, arith}
use ddsds.I18n.Template.{Message, lookup}
use ddsds.I18n.Ru.{ru}
use ddsds.I18n.En.{en}
use ddsds.I18n.State.{Locale, ru_locale, en_locale, dictionaries, find_message}
use ddsds.Format.Labels.{Table, key_of, actions, signals, recommendations, explanations, headlines}

is_some {ℓ} : {A : Type ℓ} → Option A → Bool
is_some none = false
is_some (some a) = true

-- The message is there and takes no parameter.
is_plain : Option Message → Bool
is_plain none = false
is_plain (some m) = elim m.params [ [] ↦ true | p ∷ ps ↦ false ]

unfoldable pub has_plain : Locale → String → Bool
unfolding is_plain
has_plain l key = is_plain (find_message (dictionaries l) "security" key)

pub all-key_of :
    (p : String → Bool) (table : Table) (fallback value : String)
    → all (λ e. p e.1) table ≡ true
    → p fallback ≡ true
    → p (key_of table fallback value) ≡ true
unfolding key_of lookup
all-key_of p [] fallback value h k = k
all-key_of p ((c, key) ∷ table) fallback value h k =
    ground (arith, all-key_of p table fallback value)

tables_plain :
    (l : Locale)
    → (all (λ e. has_plain l e.1) actions ≡ true)
      × (all (λ e. has_plain l e.1) signals ≡ true)
      × (all (λ e. has_plain l e.1) recommendations ≡ true)
      × (all (λ e. has_plain l e.1) explanations ≡ true)
      × (all (λ e. has_plain l e.1) headlines ≡ true)
unfolding has_plain find_message dictionaries ru en lookup actions signals recommendations
    explanations headlines
tables_plain ru_locale = (refl, refl, refl, refl, refl)
tables_plain en_locale = (refl, refl, refl, refl, refl)

fallbacks_plain :
    (l : Locale)
    → (has_plain l "actionLogged" ≡ true)
      × (has_plain l "signalGeneric" ≡ true)
      × (has_plain l "recommendationGeneric" ≡ true)
      × (has_plain l "explanationGeneric" ≡ true)
      × (has_plain l "incidentResolutionOpen" ≡ true)
unfolding has_plain find_message dictionaries ru en lookup
fallbacks_plain ru_locale = (refl, refl, refl, refl, refl)
fallbacks_plain en_locale = (refl, refl, refl, refl, refl)

-- Whatever code the server sends, other than a name that every object inherits, in either language, the tables of actions, signals,
-- recommendations, explanations and headlines choose a message that the dictionary has and that
-- takes no parameter.
pub key_of-has_plain :
    (l : Locale) (value : String)
    → (has_plain l (key_of actions "actionLogged" value) ≡ true)
      × (has_plain l (key_of signals "signalGeneric" value) ≡ true)
      × (has_plain l (key_of recommendations "recommendationGeneric" value) ≡ true)
      × (has_plain l (key_of explanations "explanationGeneric" value) ≡ true)
      × (has_plain l (key_of headlines "incidentResolutionOpen" value) ≡ true)
key_of-has_plain l value =
    let t = tables_plain l in
    let f = fallbacks_plain l in
    (
      all-key_of (has_plain l) actions _ value t.0 f.0,
      all-key_of (has_plain l) signals _ value t.1 f.1,
      all-key_of (has_plain l) recommendations _ value t.2 f.2,
      all-key_of (has_plain l) explanations _ value t.3 f.3,
      all-key_of (has_plain l) headlines _ value t.4 f.4,
    )
