-- ===== src/I18n/Parity.antt =====
-- The two dictionaries of web/src/lib/i18n.ts against each other: the source casts the English one to
-- the type of the Russian one.
use ddsds.Common.{
  String, Option, none, some, List, [], ◌∷◌, ◌≡◌, refl, sym, ◌∙◌, map, Bool-cases, inl, inr, str_eq,
  ap,
}
use mathlib.Core.Option
use ddsds.I18n.Template.{Parameter, Section, Dictionary, lookup}
use ddsds.I18n.Ru.{ru}
use ddsds.I18n.En.{en}
use ddsds.I18n.State.{Locale, ru_locale, en_locale, dictionaries, find_message, ◌>>=◌}

-- What a caller relies on: the keys in order, each with the types of its parameters.
abbrev signature : Section → List (String × List Parameter)
signature = map (λ e. (e.0, e.1.params))

abbrev signatures : Dictionary → List (String × List (String × List Parameter))
signatures = map (λ e. (e.0, signature e.1))

lookup-map {ℓ κ} :
    {V : Type ℓ} {W : Type κ} (f : V → W) (k : String) (m : List (String × V))
    → lookup k (map (λ e. (e.0, f e.1)) m) ≡ Option.map f (lookup k m)
unfolding lookup
lookup-map f k [] = refl
lookup-map f k ((j, v) ∷ m) = elim (Bool-cases (str_eq j k)) [
  | inl e ↦ rw e refl
  | inr e ↦ rw e (lookup-map f k m)
]

signatures_agree : signatures ru ≡ signatures en
unfolding ru en
signatures_agree = refl

-- The types of the parameters of `t.section.key`, if it is there.
abbrev pub params_of : Dictionary → String → String → Option (List Parameter)
params_of d section key = Option.map (λ m. m.params) (find_message d section key)

at_signatures :
    List (String × List (String × List Parameter)) → String → String → Option (List Parameter)
at_signatures sigs section key = Option.bind (lookup section sigs) (lookup key)

params_of-signatures :
    (d : Dictionary) (section key : String)
    → params_of d section key ≡ at_signatures (signatures d) section key
unfolding find_message at_signatures Option.bind
params_of-signatures d section key = rw (lookup-map signature section d) (go (lookup section d))
  where
    go :
        (o : Option Section)
        → Option.map (λ m. m.params) (o >>= λ entries. lookup key entries)
          ≡ Option.bind (Option.map signature o) (lookup key)
    go none = refl
    go (some entries) = sym (lookup-map (λ m. m.params) key entries)

-- Whatever message is looked up, in either language it is there or missing alike, and takes
-- parameters of the same types in the same order.
pub params_of-dictionaries :
    (l l' : Locale) (section key : String)
    → params_of (dictionaries l) section key ≡ params_of (dictionaries l') section key
unfolding dictionaries
params_of-dictionaries ru_locale ru_locale section key = refl
params_of-dictionaries en_locale en_locale section key = refl
params_of-dictionaries ru_locale en_locale section key =
    params_of-signatures ru section key
    ∙ ap (λ s. at_signatures s section key) signatures_agree
    ∙ sym (params_of-signatures en section key)
params_of-dictionaries en_locale ru_locale section key =
    params_of-signatures en section key
    ∙ ap (λ s. at_signatures s section key) (sym signatures_agree)
    ∙ sym (params_of-signatures ru section key)
