-- ===== src/System/Sparkline.antt =====
-- The points of `buildRiskSparklinePath` of web/src/components/system/SystemCards.tsx.
use ddsds.Common.{
  ℕ, suc, ◌+◌, ◌-◌, ◌*◌, ◌≤◌, ◌<◌, List, [], ◌∷◌, ◌≡◌, refl, All, length, arith, ltb, false,
}
use ddsds.System.RiskCard.{
  Fraction, max_of, min_of, width, height, range_of, point_at, points_from, sparkline_points,
}

-- The points of the values in order, the first at `index`: they are `width / last` apart, and each
-- stands `value * height / range` above the bottom edge, within the frame.
unfoldable pub IsDrawn : (last range index : ℕ) → List ℕ → List (Fraction × Fraction) → Type 0
IsDrawn last range index [] [] = Unit
IsDrawn last range index [] (p ∷ ps) = ⊥
IsDrawn last range index (v ∷ vs) [] = ⊥
IsDrawn last range index (v ∷ vs) (p ∷ ps) =
    (p.0.top ≡ index * width)
    × (p.0.bottom ≡ last)
    × (index ≤ last)
    × (p.1.top + v * height ≡ height * range)
    × (p.1.bottom ≡ range)
    × IsDrawn last range (suc index) vs ps

min_of-le : (vs : List ℕ) (d : ℕ) → min_of vs d ≤ d
unfolding min_of
min_of-le [] d = omega arith
min_of-le (v ∷ vs) d = ground (arith, min_of-le vs d)

le-max_of : (vs : List ℕ) (d m : ℕ) → max_of vs d ≤ m → All (λ v. v ≤ m) vs
unfolding max_of
le-max_of [] d m h = tt
le-max_of (v ∷ vs) d m h = (ground arith, le-max_of vs d m (ground arith))

points_from-IsDrawn :
    (last low range index : ℕ) (vs : List ℕ)
    → low ≡ 0
    → All (λ v. v ≤ range) vs
    → index + length vs ≤ suc last
    → IsDrawn last range index vs (points_from last low range index vs)
unfolding IsDrawn points_from point_at
points_from-IsDrawn last low range index [] e h k = tt
points_from-IsDrawn last low range index (v ∷ vs) e h k = (
  refl,
  refl,
  omega arith,
  omega (arith, h.0),
  refl,
  points_from-IsDrawn last low range (suc index) vs e h.1 (omega arith),
)

range_of-max_of : (vs : List ℕ) → (1 ≤ range_of vs) × (max_of vs 1 ≤ range_of vs)
unfolding range_of max_of
range_of-max_of vs = (ground (arith, min_of-le vs 0), ground (arith, min_of-le vs 0))

-- From two scores on, the sparkline has one point for each score: the first is on the left edge and
-- the last on the right one, evenly spaced; the height of each above the bottom edge is in
-- proportion to its score, no point is outside the frame, and nothing is divided by zero.
pub sparkline_points-IsDrawn :
    (values : List ℕ)
    → 2 ≤ length values
    → (0 < length values - 1)
      × (0 < range_of values)
      × IsDrawn (length values - 1) (range_of values) 0 values (sparkline_points values)
unfolding sparkline_points
sparkline_points-IsDrawn values h =
    let many : ltb (length values) 2 ≡ false = ground arith in
    let low : min_of values 0 ≡ 0 = omega (arith, min_of-le values 0) in
    let range = range_of-max_of values in
    (
      omega arith,
      omega (arith, range.0),
      rw many (
          points_from-IsDrawn (length values - 1) (min_of values 0) (range_of values) 0 values low
            (le-max_of values 1 (range_of values) range.1) (omega arith)),
    )
