-- ===== src/Chart/Frame.antt =====
-- The points of the chart of web/src/components/metrics/MetricChart.tsx and its frame.
use ddsds.Common.{
  ℕ, zero, suc, ◌+◌, ◌-◌, ◌*◌, ◌≤◌, ◌<◌, false, List, [], ◌∷◌, ◌≡◌, refl, All, map, length, ◌==◌,
  arith,
}
use ddsds.Chart.{
  ChartPoint, Bounds, SvgPoint, Fraction, least, greatest, widened, bounds_of, range_of, x_at, y_at,
  points_from, svg_points, left, top, inner_height,
}

abbrev pub IsBetween : Fraction → (low high : ℕ) → Type 0
IsBetween p low high =
    (0 < p.denominator) × (low * p.denominator ≤ p.numerator) × (p.numerator ≤ high * p.denominator)

-- The value is within the bounds, and the point is within the frame.
abbrev pub IsInFrame : Bounds → ℕ → SvgPoint → Type 0
IsInFrame b width p =
    (b.min ≤ 100 * p.value)
    × (100 * p.value ≤ b.max)
    × IsBetween p.x left (left + width)
    × IsBetween p.y top (top + inner_height)
    × (p.y.numerator + (100 * p.value - b.min) * inner_height
        ≡ (top + inner_height) * p.y.denominator)

abbrev IsWithin : Bounds → ℕ → Type 0
IsWithin b v = (b.min ≤ 100 * v) × (100 * v ≤ b.max)

least-le : (v : ℕ) (vs : List ℕ) → (least v vs ≤ v) × (v ≤ greatest v vs)
unfolding least greatest
least-le v [] = (omega arith, omega arith)
least-le v (w ∷ vs) = let ih = least-le v vs in (ground (arith, ih), ground (arith, ih))

All-between :
    (v : ℕ) (vs : List ℕ) (low high : ℕ)
    → low ≤ least v vs
    → greatest v vs ≤ high
    → All (λ w. (low ≤ w) × (w ≤ high)) vs
unfolding least greatest
All-between v [] low high h k = tt
All-between v (w ∷ vs) low high h k =
    ((ground arith, ground arith), All-between v vs low high (ground arith) (ground arith))

widened-IsWithin : (low high v : ℕ) → low ≤ v → v ≤ high → IsWithin (widened low high) v
unfolding widened
widened-IsWithin low high v h k = (ground arith, ground arith)

All-widened :
    (low high : ℕ) (vs : List ℕ)
    → All (λ w. (low ≤ w) × (w ≤ high)) vs
    → All (IsWithin (widened low high)) vs
All-widened low high [] h = tt
All-widened low high (w ∷ vs) h =
    (widened-IsWithin low high w h.0.0 h.0.1, All-widened low high vs h.1)

bounds_of-IsWithin : (vs : List ℕ) → All (IsWithin (bounds_of vs)) vs
unfolding bounds_of
bounds_of-IsWithin [] = tt
bounds_of-IsWithin (v ∷ vs) =
    let own = least-le v vs in
    (
      widened-IsWithin (least v vs) (greatest v vs) v own.0 own.1,
      All-widened (least v vs) (greatest v vs) vs
          (All-between v vs (least v vs) (greatest v vs) (omega arith) (omega arith)),
    )

mul_mono : (i j w : ℕ) → i ≤ j → i * w ≤ j * w
mul_mono i j w h = grind arith

x_at-IsBetween :
    (width last index : ℕ) → index ≤ last → IsBetween (x_at width last index) left (left + width)
unfolding x_at
x_at-IsBetween width zero index h = (omega arith, omega arith, omega arith)
x_at-IsBetween width (suc last) index h =
    (omega arith, omega arith, omega (arith, mul_mono index (suc last) width h))

y_at-IsBetween :
    (b : Bounds) (v : ℕ)
    → IsWithin b v
    → IsBetween (y_at b v) top (top + inner_height)
      × ((y_at b v).numerator + (100 * v - b.min) * inner_height
          ≡ (top + inner_height) * (y_at b v).denominator)
unfolding y_at range_of
y_at-IsBetween b v h = ((ground arith, ground arith, ground arith), ground arith)

points_from-IsInFrame :
    (b : Bounds) (width last index : ℕ) (ps : List ChartPoint)
    → All (IsWithin b) (map (λ p. p.value) ps)
    → index + length ps ≤ suc last
    → All (IsInFrame b width) (points_from b width last index ps)
unfolding points_from
points_from-IsInFrame b width last index [] h k = tt
points_from-IsInFrame b width last index (p ∷ ps) h k =
    let y = y_at-IsBetween b p.value h.0 in
    (
      (h.0.0, h.0.1, x_at-IsBetween width last index (omega arith), y.0, y.1),
      points_from-IsInFrame b width last (suc index) ps h.1 (omega arith),
    )

length-points_from :
    (b : Bounds) (width last index : ℕ) (ps : List ChartPoint)
    → length (points_from b width last index ps) ≡ length ps
unfolding points_from
length-points_from b width last index [] = refl
length-points_from b width last index (p ∷ ps) =
    omega (arith, length-points_from b width last (suc index) ps)

-- If the chart has a width, every value has a point, each value is within the bounds, and each
-- point is inside the frame, at a height above the lower bound in proportion to the value's
-- distance from it; nothing is divided by zero.
pub svg_points-IsInFrame :
    (width : ℕ) (ps : List ChartPoint)
    → 0 < width
    → (length (svg_points width ps) ≡ length ps)
      × All (IsInFrame (bounds_of (map (λ p. p.value) ps)) width) (svg_points width ps)
unfolding svg_points
svg_points-IsInFrame width ps h =
    let wide : (width == 0) ≡ false = ground arith in
    let b = bounds_of (map (λ p. p.value) ps) in
    rw wide (
      length-points_from b width (length ps - 1) 0 ps,
      points_from-IsInFrame b width (length ps - 1) 0 ps
          (bounds_of-IsWithin (map (λ p. p.value) ps)) (omega arith),
    )
