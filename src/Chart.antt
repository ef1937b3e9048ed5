-- ===== src/Chart.antt =====
-- web/src/components/metrics/MetricChart.tsx: the points of a chart, its ticks, its paths and the
-- point under the pointer. Values and widths are natural numbers; the bounds are in hundredths, in
-- which the shares of 8 and 10 per cent are whole.
pub mod Ticks
pub mod Frame
use ddsds.Common.{
  ℕ, zero, suc, ◌+◌, ◌-◌, ◌*◌, ◌/◌, String, Bool, true, false, List, [], ◌∷◌, ◌++◌, Option, none,
  some, map, length, get_elem?, ltb, ◌==◌, if◌then◌else◌,
}
use ddsds.Text.{append, decimal}

pub record ChartPoint : Type 0 where
  pub timestamp : ℕ
  pub value : ℕ

abbrev pub chart_height : ℕ
chart_height = 192

-- `PADDING`
abbrev pub top : ℕ
top = 12

abbrev pub right : ℕ
right = 16

abbrev pub bottom : ℕ
bottom = 28

abbrev pub left : ℕ
left = 72

abbrev pub inner_width : ℕ → ℕ
inner_width width = width - left - right

abbrev pub inner_height : ℕ
inner_height = chart_height - top - bottom

-- `Math.min(...values)` and `Math.max(...values)` of the values `v ∷ vs`
unfoldable pub least : ℕ → List ℕ → ℕ
least v [] = v
least v (w ∷ vs) = if ltb w (least v vs) then w else least v vs

unfoldable pub greatest : ℕ → List ℕ → ℕ
greatest v [] = v
greatest v (w ∷ vs) = if ltb (greatest v vs) w then w else greatest v vs

-- In hundredths.
pub record Bounds : Type 0 where
  pub min : ℕ
  pub max : ℕ

unfoldable pub widened : (min max : ℕ) → Bounds
widened min max =
    let delta = if max == 0 then 100 else 10 * max in
    let padding = 8 * (max - min) in
    if min == max
    then record { min = 100 * min - delta; max = 100 * max + delta }
    else record { min = 100 * min - padding; max = 100 * max + padding }

unfoldable pub bounds_of : List ℕ → Bounds
unfolding widened least greatest
bounds_of [] = record { min = 0; max = 100 }
bounds_of (v ∷ vs) = widened (least v vs) (greatest v vs)

-- `Math.max(bounds.max - bounds.min, 1)`, in hundredths
unfoldable pub range_of : Bounds → ℕ
range_of b = if ltb (b.max - b.min) 100 then 100 else b.max - b.min

pub record Fraction : Type 0 where
  pub numerator : ℕ
  pub denominator : ℕ

pub record SvgPoint : Type 0 where
  pub timestamp : ℕ
  pub value : ℕ
  pub x : Fraction
  pub y : Fraction

-- The `x` of the point at `index`, of `last + 1` points.
unfoldable pub x_at : (width last index : ℕ) → Fraction
x_at width zero index = record { numerator = 2 * left + width; denominator = 2 }
x_at width (suc last) index = record {
  numerator = left * suc last + index * width;
  denominator = suc last;
}

unfoldable pub y_at : Bounds → ℕ → Fraction
unfolding range_of
y_at b value = record {
  numerator = (top + inner_height) * range_of b - (100 * value - b.min) * inner_height;
  denominator = range_of b;
}

unfoldable pub points_from : Bounds → (width last index : ℕ) → List ChartPoint → List SvgPoint
points_from b width last index [] = []
points_from b width last index (p ∷ ps) =
    record {
      timestamp = p.timestamp;
      value = p.value;
      x = x_at width last index;
      y = y_at b p.value;
    }
    ∷ points_from b width last (suc index) ps

-- `svgPoints`, of the inner width
unfoldable pub svg_points : ℕ → List ChartPoint → List SvgPoint
unfolding points_from bounds_of
svg_points width data_points =
    if width == 0
    then []
    else points_from (bounds_of (map (λ p. p.value) data_points)) width (length data_points - 1) 0
        data_points

-- `xTicks`: `Math.round` of `index / divisor * last`, with a half rounded up. Divided by zero it is
-- no index (`NaN` or infinite).
unfoldable pub tick_index : (divisor last index : ℕ) → Option ℕ
tick_index zero last index = none
tick_index (suc d) last index = some ((2 * (index * last) + suc d) / (2 * suc d))

unfoldable pub indices_from : (divisor last count index : ℕ) → List (Option ℕ)
indices_from divisor last zero index = []
indices_from divisor last (suc count) index =
    tick_index divisor last index ∷ indices_from divisor last count (suc index)

-- `Math.min(X_TICK_COUNT, svgPoints.length)`
unfoldable pub tick_count : ℕ → ℕ
tick_count n = if ltb n 6 then n else 6

-- `Math.max(n, 1)`
unfoldable pub at_least_one : ℕ → ℕ
at_least_one n = if ltb n 1 then 1 else n

unfoldable pub tick_indices : ℕ → List (Option ℕ)
unfolding indices_from tick_count tick_index at_least_one
tick_indices n = indices_from (at_least_one (tick_count n - 1)) (n - 1) (tick_count n) 0

abbrev pub cons_option {ℓ} : {A : Type ℓ} → Option A → Option (List A) → Option (List A)
cons_option none xs = none
cons_option (some x) none = none
cons_option (some x) (some xs) = some (x ∷ xs)

-- The points at the indices; reading a field of a point that is not there throws.
unfoldable pub read_points {ℓ} : {A : Type ℓ} → List A → List (Option ℕ) → Option (List A)
read_points points [] = some []
read_points points (none ∷ is) = none
read_points points (some i ∷ is) = cons_option (get_elem? points i) (read_points points is)

-- The points of the ticks below the chart.
unfoldable pub x_ticks {ℓ} : {A : Type ℓ} → List A → Option (List A)
unfolding read_points tick_indices
x_ticks points = read_points points (tick_indices (length points))

-- `buildPath`, of numbers as the language writes them.
unfoldable pub path_from : (Fraction → String) → String → List SvgPoint → String
path_from show command [] = ""
path_from show command (p ∷ ps) = append command (
    append " " (
      append (show p.x) (
        append " "
          (append (show p.y) (elim ps [ [] ↦ "" | q ∷ qs ↦ append " " (path_from show "L" ps) ])))))

unfoldable pub build_path : (Fraction → String) → List SvgPoint → String
unfolding path_from
build_path show points = path_from show "M" points

-- `hoverIndex`
pub data Pointer : Type 0 where
  enters leaves : ℕ → Pointer

unfoldable pub move : Pointer → Option ℕ → Option ℕ
move (enters i) hover = some i
move (leaves i) none = none
move (leaves i) (some j) = if j == i then none else some j

-- `hoveredPoint`: nothing if there is no index, or no point at it any more.
unfoldable pub hovered_point {ℓ} : {A : Type ℓ} → Option ℕ → List A → Option A
hovered_point none points = none
hovered_point (some i) points = get_elem? points i
