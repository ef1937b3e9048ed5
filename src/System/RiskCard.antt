-- ===== src/System/RiskCard.antt =====
-- `RiskCard` of web/src/components/system/SystemCards.tsx. Scores are natural numbers. Parameters
-- are `formatDateTime` and `toFixed(1)` of a fraction.
use ddsds.Common.{
  ◌*◌, ℕ, suc, ◌-◌, String, Bool, List, [], ◌∷◌, ◌++◌, Option, none, some, map, ltb, if◌then◌else◌,
  length, get_elem?,
}
use ddsds.Text.{append, decimal}
use ddsds.I18n.State.{Messages}
use ddsds.Format.Risk.{
  RiskLevel, RiskScore, RiskFactor, RiskHistoryPoint, format_risk_level, format_risk_factor,
  format_risk_explanation, format_risk_trend, format_risk_top_contributors,
  format_risk_change_summary, Contributor,
}
use ddsds.Ui.{Shown, fact, told, named, error_block, card_body}
use ddsds.System.{said}

-- `Math.max(...values, d)` and `Math.min(...values, d)`
unfoldable pub max_of : List ℕ → ℕ → ℕ
max_of [] d = d
max_of (v ∷ vs) d = if ltb (max_of vs d) v then v else max_of vs d

unfoldable pub min_of : List ℕ → ℕ → ℕ
min_of [] d = d
min_of (v ∷ vs) d = if ltb v (min_of vs d) then v else min_of vs d

-- A number of the path, before `toFixed`: `top / bottom`.
pub record Fraction : Type 0 where
  pub top : ℕ
  pub bottom : ℕ

abbrev pub width : ℕ
width = 220

abbrev pub height : ℕ
height = 56

-- `range`
unfoldable pub range_of : List ℕ → ℕ
unfolding max_of min_of
range_of values = max_of ((max_of values 1 - min_of values 0) ∷ []) 1

-- `x` and `y` of the point at `index` with the value `v`.
unfoldable pub point_at : (last low range index v : ℕ) → Fraction × Fraction
point_at last low range index v = (
  record { top = index * width; bottom = last },
  record { top = height * range - (v - low) * height; bottom = range },
)

unfoldable pub points_from : (last low range : ℕ) → ℕ → List ℕ → List (Fraction × Fraction)
unfolding point_at
points_from last low range index [] = []
points_from last low range index (v ∷ vs) =
    point_at last low range index v ∷ points_from last low range (suc index) vs

-- The points of `buildRiskSparklinePath`; fewer than two values have none.
unfoldable pub sparkline_points : List ℕ → List (Fraction × Fraction)
unfolding points_from range_of
sparkline_points values =
    if ltb (length values) 2
    then []
    else points_from (length values - 1) (min_of values 0) (range_of values) 0 values

-- The commands `M` and `L` with their numbers, joined by a space.
unfoldable pub path_from : (Fraction → String) → String → List (Fraction × Fraction) → String
path_from to_fixed command [] = ""
path_from to_fixed command (p ∷ ps) = append command (
    append " " (
      append (to_fixed p.0) (
        append " " (
          append (to_fixed p.1)
            (elim ps [ [] ↦ "" | q ∷ qs ↦ append " " (path_from to_fixed "L" ps) ])))))

unfoldable pub build_risk_sparkline_path : (Fraction → String) → List ℕ → String
unfolding path_from sparkline_points
build_risk_sparkline_path to_fixed values = path_from to_fixed "M" (sparkline_points values)

abbrev pub history_of : Option (List RiskHistoryPoint) → List RiskHistoryPoint
history_of none = []
history_of (some h) = h

abbrev pub factors_of : Option RiskScore → List RiskFactor
factors_of none = []
factors_of (some s) = s.factors

abbrev score_or_zero : Option RiskScore → ℕ
score_or_zero none = 0
score_or_zero (some s) = s.score

abbrev pub level_or_low : Option RiskScore → RiskLevel
level_or_low none = RiskLevel.low
level_or_low (some s) = s.level

-- The point before the last, or the last, at a distance from the end.
abbrev from_end : ℕ → List RiskHistoryPoint → Option RiskHistoryPoint
from_end k h = if ltb (length h) k then none else get_elem? h (length h - k)

-- `riskDelta > 0 ? +riskDelta : riskDelta`, from the score before to the score now.
unfoldable pub delta_text : ℕ → ℕ → String
delta_text before now =
    if ltb before now
    then append "+" (decimal (now - before))
    else if ltb now before
    then append "-" (decimal (before - now))
    else "0"

-- `riskDelta` is 0 if there is no score, or no point before the last.
unfoldable pub risk_delta : Option RiskScore → Option RiskHistoryPoint → String
unfolding delta_text
risk_delta (some s) (some p) = delta_text p.score s.score
risk_delta (some s) none = "0"
risk_delta none p = "0"

abbrev timestamp_text : (ℕ → String) → Option RiskHistoryPoint → String
timestamp_text format_date_time none = ""
timestamp_text format_date_time (some p) = format_date_time p.timestamp

unfoldable pub contributor_rows : Messages → List Contributor → List Shown
contributor_rows m [] = []
contributor_rows m (c ∷ cs) =
    named m c.factor.code c.label
    ∷ fact (append "+" (decimal c.factor.weight))
    ∷ contributor_rows m cs

unfoldable pub factor_rows : Messages → List RiskFactor → List Shown
factor_rows m [] = []
factor_rows m (f ∷ fs) =
    named m f.code (format_risk_factor m f)
    ∷ fact (append "+" (decimal f.weight))
    ∷ factor_rows m fs

-- The rows, or the name of the lowest level if there are none.
abbrev pub rows_or_low : Messages → List Shown → List Shown
rows_or_low m [] = told m (format_risk_level m RiskLevel.low) ∷ []
rows_or_low m (r ∷ rs) = r ∷ rs

unfoldable pub history_rows :
    (ℕ → String) → (Fraction → String) → Option RiskScore → List RiskHistoryPoint → List Shown
unfolding build_risk_sparkline_path risk_delta
history_rows format_date_time to_fixed s h =
    if ltb 1 (length h)
    then said "riskTrend"
      ∷ fact (build_risk_sparkline_path to_fixed (map (λ p. p.score) h))
      ∷ fact (risk_delta s (from_end 2 h))
      ∷ fact (timestamp_text format_date_time (from_end 1 h))
      ∷ []
    else said "riskHistoryEmpty" ∷ []

unfoldable pub risk_content :
    (ℕ → String)
    → (Fraction → String)
    → Messages
    → Option RiskScore
    → List RiskHistoryPoint
    → List Shown
unfolding history_rows contributor_rows factor_rows
risk_content format_date_time to_fixed m s h =
    said "riskSummary"
    ∷ fact (decimal (score_or_zero s))
    ∷ told m (format_risk_level m (level_or_low s))
    ∷ told m (format_risk_trend m h)
    ∷ (history_rows format_date_time to_fixed s h
        ++ told m (format_risk_explanation m (level_or_low s) (factors_of s))
          ∷ said "riskTopContributors"
          ∷ (rows_or_low m (contributor_rows m (format_risk_top_contributors m (factors_of s) 3))
              ++ said "riskChangeSummary"
                ∷ told m (format_risk_change_summary m (factors_of s) h (score_or_zero s))
                ∷ rows_or_low m (factor_rows m (factors_of s))))

unfoldable pub risk_card :
    (ℕ → String)
    → (Fraction → String)
    → Messages
    → Option RiskScore
    → Option (List RiskHistoryPoint)
    → (is_loading is_error : Bool) → List Shown
unfolding risk_content
risk_card format_date_time to_fixed m s h is_loading is_error =
    said "riskScore"
    ∷ card_body is_loading is_error error_block
        (risk_content format_date_time to_fixed m s (history_of h))
