-- ===== src/Text/Parts.antt =====
-- What `String.prototype.includes` decides.
use ddsds.Common.{
  ℕ, String, true, false, List, [], ◌∷◌, ◌++◌, ◌≡◌, refl, sym, ◌∙◌, ap, arith, Bool-cases, inl, inr,
}
use ddsds.Text.{is_prefix_of, contains, includes, codes}

-- The part stands somewhere in the text.
abbrev pub IsPart : List ℕ → List ℕ → Type 0
IsPart part s = (before : List ℕ) × (after : List ℕ) × (s ≡ before ++ (part ++ after))

prefix_rest : (p s : List ℕ) → is_prefix_of p s ≡ true → (after : List ℕ) × (s ≡ p ++ after)
unfolding is_prefix_of
prefix_rest [] s h = (s, refl)
prefix_rest (p ∷ ps) [] h = absurd (cc)
prefix_rest (p ∷ ps) (c ∷ s) h =
    let same : p ≡ c = ground arith in
    let rest = prefix_rest ps s (ground arith) in
    (rest.0, ap (◌∷◌ c) rest.1 ∙ ap (λ d. d ∷ (ps ++ rest.0)) (sym same))

is_prefix_of-append : (p after : List ℕ) → is_prefix_of p (p ++ after) ≡ true
unfolding is_prefix_of
is_prefix_of-append [] after = refl
is_prefix_of-append (p ∷ ps) after = ground (arith, is_prefix_of-append ps after)

contains-IsPart : (p s : List ℕ) → contains p s ≡ true → IsPart p s
unfolding contains
contains-IsPart p [] h = let rest = prefix_rest p [] h in ([], rest.0, rest.1)
contains-IsPart p (c ∷ s) h = elim (Bool-cases (is_prefix_of p (c ∷ s))) [
  | inl e ↦ let rest = prefix_rest p (c ∷ s) e in ([], rest.0, rest.1)
  | inr e ↦
      let later = contains-IsPart p s (ground arith) in (c ∷ later.0, later.1, ap (◌∷◌ c) later.2)
]

contains-append : (p before after : List ℕ) → contains p (before ++ (p ++ after)) ≡ true
unfolding contains
contains-append [] [] [] = is_prefix_of-append [] []
contains-append [] [] (a ∷ after) = ground (arith, is_prefix_of-append [] (a ∷ after))
contains-append (p ∷ ps) [] after = ground (arith, is_prefix_of-append (p ∷ ps) after)
contains-append p (c ∷ before) after = ground (arith, contains-append p before after)

pub includes-IsPart : (s part : String) → includes s part ≡ true → IsPart (codes part) (codes s)
unfolding includes
includes-IsPart s part h = contains-IsPart (codes part) (codes s) h

pub includes-not-IsPart :
    (s part : String) → includes s part ≡ false → ¬ IsPart (codes part) (codes s)
unfolding includes
includes-not-IsPart s part h w =
    let e = contains-append (codes part) w.0 w.1 in
    let at_text : contains (codes part) (codes s) ≡ true = rw w.2 e in cc
