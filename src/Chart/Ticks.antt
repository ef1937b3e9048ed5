-- ===== src/Chart/Ticks.antt =====
-- The ticks below the chart of web/src/components/metrics/MetricChart.tsx.
use ddsds.Common.{
  ℕ, zero, suc, ◌-◌, ◌≤◌, ◌<◌, Bool, true, false, List, [], ◌∷◌, Option, none, some, ◌≡◌, refl, All,
  length, get_elem?, ltb, arith,
}
use ddsds.Chart.{
  tick_index, at_least_one, indices_from, tick_count, tick_indices, read_points, x_ticks,
  cons_option,
}

-- From `a` strictly up to `b`.
abbrev pub IsRising : ℕ → List (Option ℕ) → ℕ → Type 0
IsRising a [] b = a ≡ b
IsRising a (none ∷ cs) b = ⊥
IsRising a (some c ∷ cs) b = (a < c) × IsRising c cs b

-- Every index is one, the first is 0 and the last is `b`.
abbrev pub IsSpanning : List (Option ℕ) → ℕ → Type 0
IsSpanning [] b = ⊥
IsSpanning (none ∷ cs) b = ⊥
IsSpanning (some a ∷ cs) b = (a ≡ 0) × IsRising a cs b

abbrev IsIndexBelow : ℕ → Option ℕ → Type 0
IsIndexBelow n none = ⊥
IsIndexBelow n (some i) = i < n

abbrev pub is_some {ℓ} : {A : Type ℓ} → Option A → Bool
is_some none = false
is_some (some a) = true

is_some-cons_option {ℓ} :
    {A : Type ℓ} (x : Option A) (xs : Option (List A))
    → is_some x ≡ true
    → is_some xs ≡ true
    → is_some (cons_option x xs) ≡ true
is_some-cons_option none xs h k = h
is_some-cons_option (some x) none h k = k
is_some-cons_option (some x) (some xs) h k = refl

IsRising-le : (a : ℕ) (cs : List (Option ℕ)) (b : ℕ) → IsRising a cs b → a ≤ b
IsRising-le a [] b h = omega arith
IsRising-le a (none ∷ cs) b h = absurd h
IsRising-le a (some c ∷ cs) b h = omega (arith, h.0, IsRising-le c cs b h.1)

IsRising-All :
    (a : ℕ) (cs : List (Option ℕ)) (b n : ℕ)
    → b < n
    → IsRising a cs b
    → All (IsIndexBelow n) (some a ∷ cs)
IsRising-All a [] b n e h = (omega arith, tt)
IsRising-All a (none ∷ cs) b n e h = absurd h
IsRising-All a (some c ∷ cs) b n e h =
    (omega (arith, h.0, IsRising-le c cs b h.1), IsRising-All c cs b n e h.1)

IsSpanning-All :
    (is : List (Option ℕ)) (b n : ℕ) → b < n → IsSpanning is b → All (IsIndexBelow n) is
IsSpanning-All [] b n e h = absurd h
IsSpanning-All (none ∷ cs) b n e h = absurd h
IsSpanning-All (some a ∷ cs) b n e h = IsRising-All a cs b n e h.1

get_elem?-some {ℓ} :
    {A : Type ℓ} (xs : List A) (i : ℕ) → i < length xs → is_some (get_elem? xs i) ≡ true
get_elem?-some [] i h = absurd (omega arith)
get_elem?-some (x ∷ xs) zero h = refl
get_elem?-some (x ∷ xs) (suc i) h = get_elem?-some xs i (omega arith)

-- Six points or more.
six_ticks : (last : ℕ) → 5 ≤ last → IsSpanning (indices_from 5 last 6 0) last
unfolding indices_from tick_index
six_ticks last h = (
  omega arith,
  (omega arith, (omega arith, (omega arith, (omega arith, (omega arith, omega arith))))),
)

many_indices : (n : ℕ) → 6 ≤ n → tick_indices n ≡ indices_from 5 (n - 1) 6 0
unfolding tick_indices tick_count at_least_one
many_indices n h = let many : ltb n 6 ≡ false = ground arith in rw many refl

tick_indices-IsSpanning : (n : ℕ) → 0 < n → IsSpanning (tick_indices n) (n - 1)
unfolding tick_indices indices_from tick_count tick_index at_least_one
tick_indices-IsSpanning zero h = absurd (omega arith)
tick_indices-IsSpanning (suc zero) h = (refl, refl)
tick_indices-IsSpanning (suc (suc zero)) h = (refl, (omega arith, refl))
tick_indices-IsSpanning (suc (suc (suc zero))) h = (refl, (omega arith, (omega arith, refl)))
tick_indices-IsSpanning (suc (suc (suc (suc zero)))) h =
    (refl, (omega arith, (omega arith, (omega arith, refl))))
tick_indices-IsSpanning (suc (suc (suc (suc (suc zero))))) h =
    (refl, (omega arith, (omega arith, (omega arith, (omega arith, refl)))))
tick_indices-IsSpanning (suc (suc (suc (suc (suc (suc n)))))) h =
    rw (many_indices (suc (suc (suc (suc (suc (suc n)))))) (omega arith))
      (six_ticks (suc (suc (suc (suc (suc (suc n))))) - 1) (omega arith))

is_some-read_points {ℓ} :
    {A : Type ℓ} (points : List A) (is : List (Option ℕ))
    → All (IsIndexBelow (length points)) is
    → is_some (read_points points is) ≡ true
unfolding read_points
is_some-read_points points [] h = refl
is_some-read_points points (none ∷ is) h = absurd h.0
is_some-read_points points (some i ∷ is) h =
    is_some-cons_option (get_elem? points i) (read_points points is) (get_elem?-some points i h.0)
      (is_some-read_points points is h.1)

-- If there are points, no tick reads past them, the first tick is at the first point and the last
-- tick at the last point, no point has two ticks, and they stand in the order of the points.
pub x_ticks-IsSpanning {ℓ} :
    {A : Type ℓ} (points : List A)
    → 0 < length points
    → (is_some (x_ticks points) ≡ true)
      × IsSpanning (tick_indices (length points)) (length points - 1)
unfolding x_ticks
x_ticks-IsSpanning points h =
    let spanning = tick_indices-IsSpanning (length points) h in
    (
      is_some-read_points points (tick_indices (length points)) (
          IsSpanning-All (tick_indices (length points)) (length points - 1) (length points)
            (omega arith) spanning),
      spanning,
    )
