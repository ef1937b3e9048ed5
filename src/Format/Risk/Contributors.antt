-- ===== src/Format/Risk/Contributors.antt =====
-- Which factors `formatRiskTopContributors` and `formatRiskExplanation` speak of.
use mathlib.Core.List.{Mem, Perm, mem-cons_self, mem-cons, not-mem-nil}
use mathlib.Core.List.Perm
use mathlib.Core.Logic.Or
use native.Mathlib.Bridge.{le_prop}
use ddsds.Common.{
  ℕ, ◌≤◌, ◌⊎◌, eq_iff, zero, suc, ◌≡◌, ◌≢◌, refl, ◌∙◌, ap, inl, inr, String, true, false, List, [],
  ◌∷◌, ◌++◌, map, take, drop, All, All-take, length, min, length-take, length-map, take-append-drop,
  arith, str_eq, Bool-cases,
}
use ddsds.Common.Sort.{
  sort_by, sort_by-perm, sort_by-IsSorted, IsSorted, length-sort_by, All-take-drop,
}
use ddsds.I18n.Template.{words}
use ddsds.I18n.State.{Messages}
use ddsds.Format.Risk.{
  RiskFactor, RiskLevel, high, critical, low, medium, heavier, Contributor, system,
  format_risk_factor, format_risk_top_contributors, explain, format_risk_explanation, is_severe,
}

sort-heavier : (xs : List RiskFactor) → IsSorted heavier (sort_by heavier xs)
sort-heavier = sort_by-IsSorted heavier (λ x y h. ground arith) (λ x y z h k. ground arith)

abbrev pub labelled : Messages → RiskFactor → Contributor
labelled m f = record { factor = f; label = format_risk_factor m f }

map-factor : (m : Messages) (xs : List RiskFactor) → map (λ c. c.factor) (map (labelled m) xs) ≡ xs
map-factor m [] = refl
map-factor m (x ∷ xs) = ap (◌∷◌ x) (map-factor m xs)

All-label :
    (m : Messages) (xs : List RiskFactor)
    → All (λ c. c.label ≡ format_risk_factor m c.factor) (map (labelled m) xs)
All-label m [] = tt
All-label m (x ∷ xs) = (refl, All-label m xs)

le_of_not-heavier :
    (x : RiskFactor) (ys : List RiskFactor)
    → All (λ y. heavier y x ≡ false) ys
    → All (λ y. y.weight ≤ x.weight) ys
le_of_not-heavier x [] h = tt
le_of_not-heavier x (y ∷ ys) h = (ground (arith, h.0), le_of_not-heavier x ys h.1)

All-heavier :
    (m : Messages) (xs ys : List RiskFactor)
    → All (λ x. All (λ y. heavier y x ≡ false) ys) xs
    → All (λ c. All (λ y. y.weight ≤ c.factor.weight) ys) (map (labelled m) xs)
All-heavier m [] ys h = tt
All-heavier m (x ∷ xs) ys h = (le_of_not-heavier x ys h.0, All-heavier m xs ys h.1)

-- What a list of contributors has to be, of the given factors and limit.
pub record IsTop (m : Messages) (factors : List RiskFactor) (limit : ℕ) (top : List Contributor)
    : Type 0 where
  pub left_out : List RiskFactor
  pub all_used : Perm (map (λ c. c.factor) top ++ left_out) factors
  pub heaviest : All (λ c. All (λ y. y.weight ≤ c.factor.weight) left_out) top
  pub ordered : IsSorted heavier (map (λ c. c.factor) top)
  pub bounded : length top ≡ min limit (length factors)
  pub labels : All (λ c. c.label ≡ format_risk_factor m c.factor) top

IsSorted-take : (n : ℕ) (xs : List RiskFactor) → IsSorted heavier xs → IsSorted heavier (take n xs)
IsSorted-take zero xs h = tt
IsSorted-take (suc n) [] h = tt
IsSorted-take (suc n) (x ∷ xs) h =
    (All-take (λ y. heavier y x ≡ false) n xs h.0, IsSorted-take n xs h.1)

-- The contributors are `limit` of the factors, or all of them if there are fewer, each under its
-- label; they stand by falling weight, and no factor that is left out is heavier than any of them.
pub format_risk_top_contributors-IsTop :
    (m : Messages) (factors : List RiskFactor) (limit : ℕ)
    → IsTop m factors limit (format_risk_top_contributors m factors limit)
unfolding format_risk_top_contributors
format_risk_top_contributors-IsTop m factors limit =
    let sorted = sort_by heavier factors in
    record {
      left_out = drop limit sorted;
      all_used =
          rw (map-factor m (take limit sorted), take-append-drop) (sort_by-perm heavier factors);
      heaviest =
          All-heavier m (take limit sorted) (drop limit sorted)
            (All-take-drop heavier limit sorted (sort-heavier factors));
      ordered =
          rw (map-factor m (take limit sorted)) (IsSorted-take limit sorted (sort-heavier factors));
      bounded =
          length-map (take limit sorted) (labelled m)
          ∙ length-take limit sorted
          ∙ ap (min limit) (length-sort_by heavier factors);
      labels = All-label m (take limit sorted);
    }

-- A heaviest of the factors.
pub record IsHeaviest (f : RiskFactor) (factors : List RiskFactor) : Type 0 where
  pub listed : Mem f factors
  pub dominates : (y : RiskFactor) → Mem y factors → y.weight ≤ f.weight

le_of_mem :
    (f y : RiskFactor) (ys : List RiskFactor)
    → All (λ y. heavier y f ≡ false) ys
    → Mem y ys
    → y.weight ≤ f.weight
le_of_mem f y [] h m = absurd (not-mem-nil m)
le_of_mem f y (z ∷ zs) h m =
    Or.elim le_prop (mem-cons.0 m) (λ e. rw e (ground (arith, h.0))) (le_of_mem f y zs h.1)

pub head-IsHeaviest :
    (factors : List RiskFactor) (f : RiskFactor) (rest : List RiskFactor)
    → sort_by heavier factors ≡ f ∷ rest
    → IsHeaviest f factors
head-IsHeaviest factors f rest e =
    let sorted : IsSorted heavier (f ∷ rest) = rw e at (sort-heavier factors) in
    let same : Perm (f ∷ rest) factors = rw e at (sort_by-perm heavier factors) in
    record {
      listed = (Perm.mem_iff same).0 mem-cons_self;
      dominates =
          λ y m. le_of_mem f y (f ∷ rest) (ground arith, sorted.0) ((Perm.mem_iff same).1 m);
    }

-- When only the first of the sorted factors is named: at the levels low and medium, if there is no
-- other factor, or if a heaviest one of the others has no label.
pub data NamesOne (m : Messages) (level : RiskLevel) (others : List RiskFactor) : Type 0 where
  mild : level ≢ high → level ≢ critical → NamesOne m level others
  alone : others ≡ [] → NamesOne m level others
  unnamed :
      (g : RiskFactor) (rest : List RiskFactor)
      → Perm (g ∷ rest) others
      → All (λ y. y.weight ≤ g.weight) rest
      → format_risk_factor m g ≡ ""
      → NamesOne m level others

-- The two shapes of the explanation of a risk that has factors.
pub data Explains (m : Messages) (level : RiskLevel) (factors : List RiskFactor) (s : String)
    : Type 0 where
  by_one :
      (f : RiskFactor) (others : List RiskFactor)
      → Perm (f ∷ others) factors
      → All (λ y. y.weight ≤ f.weight) others
      → NamesOne m level others
      → s ≡ system m "riskExplanationSingle" (words (format_risk_factor m f) ∷ [])
      → Explains m level factors s
  by_two :
      (f g : RiskFactor) (rest : List RiskFactor)
      → Perm (f ∷ g ∷ rest) factors
      → All (λ y. y.weight ≤ f.weight) (g ∷ rest)
      → All (λ y. y.weight ≤ g.weight) rest
      → (level ≡ high) ⊎ (level ≡ critical)
      → format_risk_factor m g ≢ ""
      → s
        ≡ system m "riskExplanationDouble"
            (words (format_risk_factor m f) ∷ words (format_risk_factor m g) ∷ [])
      → Explains m level factors s

is_severe-cases :
    (level : RiskLevel)
    → ((is_severe level ≡ true) × ((level ≡ high) ⊎ (level ≡ critical)))
      ⊎ ((is_severe level ≡ false) × ((level ≢ high) × (level ≢ critical)))
is_severe-cases low = inr (refl, (λ e. cc, λ e. cc))
is_severe-cases medium = inr (refl, (λ e. cc, λ e. cc))
is_severe-cases high = inl (refl, inl refl)
is_severe-cases critical = inl (refl, inr refl)

explain-Explains :
    (m : Messages) (level : RiskLevel) (factors : List RiskFactor) (xs : List RiskFactor)
    → Perm xs factors
    → IsSorted heavier xs
    → xs ≢ []
    → Explains m level factors (explain m level xs)
unfolding explain
explain-Explains m level factors [] same sorted ne = absurd (ne refl)
explain-Explains m level factors (f ∷ []) same sorted ne = by_one f [] same tt (alone refl) refl
explain-Explains m level factors (f ∷ g ∷ rest) same sorted ne =
    let first = le_of_not-heavier f (g ∷ rest) sorted.0 in
    let second = le_of_not-heavier g rest sorted.1.0 in
    elim (Bool-cases (str_eq (format_risk_factor m g) "")) [
      | inl empty ↦
          by_one f (g ∷ rest) same first
            (unnamed g rest (Perm.refl (g ∷ rest)) second
              ((eq_iff (format_risk_factor m g) "").0 empty))
            (rw empty refl)
      | inr full ↦ elim (is_severe-cases level) [
        | inl severe ↦
            by_two f g rest same first second severe.1
              (λ e. absurd (cc (full, ap (λ s. str_eq s "") e))) (rw (full, severe.0) refl)
        | inr gentle ↦
            by_one f (g ∷ rest) same first (mild gentle.1.0 gentle.1.1) (rw (full, gentle.0) refl)
      ]
    ]

-- A risk with factors is explained by a heaviest factor; and at the levels high and critical, if
-- there are more factors, also by a heaviest one of the others, unless that one has no label.
pub format_risk_explanation-Explains :
    (m : Messages) (level : RiskLevel) (factors : List RiskFactor)
    → factors ≢ []
    → Explains m level factors (format_risk_explanation m level factors)
unfolding format_risk_explanation
format_risk_explanation-Explains m level [] ne = absurd (ne refl)
format_risk_explanation-Explains m level (f ∷ fs) ne =
    explain-Explains m level (f ∷ fs) (sort_by heavier (f ∷ fs)) (sort_by-perm heavier (f ∷ fs))
      (sort-heavier (f ∷ fs))
      (λ e. absurd (omega (arith, length-sort_by heavier (f ∷ fs), ap length e)))
