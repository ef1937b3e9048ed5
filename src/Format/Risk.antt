-- ===== src/Format/Risk.antt =====
-- The risk texts of web/src/lib/format.ts, and its types from web/src/types/index.ts. Scores, weights
-- and counts are natural numbers, as the server makes them. A text is a message of the dictionary
-- that is current.
pub mod Contributors
pub mod Told
pub mod Change
use ddsds.Common.{
  ℕ, ◌-◌, ◌+◌, String, Bool, true, false, ◌&&◌, ◌||◌, List, [], ◌∷◌, map, Option, none, some, ltb,
  leb, ◌==◌, str_eq, if◌then◌else◌, take, length, get_elem?,
}
use ddsds.Common.Sort.{sort_by}
use ddsds.I18n.Template.{Argument, words, count, lookup}
use ddsds.I18n.State.{Messages, translate}

pub data RiskLevel : Type 0 where
  low medium high critical : RiskLevel

pub record RiskFactor : Type 0 where
  pub code : String
  pub weight : ℕ
  pub count : Option ℕ
  pub age_seconds : Option ℕ

pub record RiskScore : Type 0 where
  pub score : ℕ
  pub level : RiskLevel
  pub factors : List RiskFactor
  pub updated_at : ℕ

pub record RiskHistoryPoint : Type 0 where
  pub timestamp : ℕ
  pub score : ℕ
  pub level : RiskLevel
  pub factors : List RiskFactor

-- `n ?? 0`
abbrev or_zero : Option ℕ → ℕ
or_zero none = 0
or_zero (some n) = n

abbrev pub system : Messages → String → List Argument → String
system m = translate m "system"

unfoldable pub format_risk_level : Messages → RiskLevel → String
format_risk_level m low = system m "riskLow" []
format_risk_level m medium = system m "riskMedium" []
format_risk_level m high = system m "riskHigh" []
format_risk_level m critical = system m "riskCritical" []

unfoldable pub format_risk_factor : Messages → RiskFactor → String
format_risk_factor m f =
    if str_eq f.code "agent_disconnected"
    then system m "riskFactorAgent" []
    else if str_eq f.code "api_unhealthy"
    then system m "riskFactorApi" []
    else if str_eq f.code "db_unhealthy"
    then system m "riskFactorDb" []
    else if str_eq f.code "failed_services"
    then system m "riskFactorFailedServices" (Argument.count (or_zero f.count) ∷ [])
    else if str_eq f.code "stopped_services"
    then system m "riskFactorStoppedServices" (Argument.count (or_zero f.count) ∷ [])
    else if str_eq f.code "metrics_missing"
    then system m "riskFactorMetricsMissing" []
    else if str_eq f.code "metrics_stale"
    then system m "riskFactorMetricsStale" (Argument.count (or_zero f.age_seconds) ∷ [])
    else if str_eq f.code "metrics_aging"
    then system m "riskFactorMetricsAging" (Argument.count (or_zero f.age_seconds) ∷ [])
    else if str_eq f.code "recent_security_pressure"
    then system m "riskFactorSecurityPressure" (Argument.count (or_zero f.count) ∷ [])
    else f.code

-- `(left, right) => right.weight - left.weight` is negative.
abbrev pub heavier : RiskFactor → RiskFactor → Bool
heavier left right = ltb right.weight left.weight

abbrev is_severe : RiskLevel → Bool
is_severe high = true
is_severe critical = true
is_severe low = false
is_severe medium = false

-- The sentence for the sorted factors; an empty `secondary` counts as missing.
explain : Messages → RiskLevel → List RiskFactor → String
explain m level [] = system m "riskExplanationHealthy" []
explain m level (primary ∷ []) =
    system m "riskExplanationSingle" (words (format_risk_factor m primary) ∷ [])
explain m level (primary ∷ second ∷ rest) =
    if str_eq (format_risk_factor m second) ""
    then system m "riskExplanationSingle" (words (format_risk_factor m primary) ∷ [])
    else if is_severe level
    then system m "riskExplanationDouble"
        (words (format_risk_factor m primary) ∷ words (format_risk_factor m second) ∷ [])
    else system m "riskExplanationSingle" (words (format_risk_factor m primary) ∷ [])

unfoldable pub format_risk_explanation : Messages → RiskLevel → List RiskFactor → String
unfolding explain
format_risk_explanation m level factors = explain m level (sort_by heavier factors)

abbrev pub score_of : Option RiskHistoryPoint → ℕ
score_of none = 0
score_of (some p) = p.score

abbrev pub score_at : List RiskHistoryPoint → ℕ → ℕ
score_at history i = score_of (get_elem? history i)

-- With two points or more: the difference of the last two scores.
unfoldable pub format_risk_trend : Messages → List RiskHistoryPoint → String
format_risk_trend m history =
    let previous = score_at history (length history - 2) in
    let latest = score_at history (length history - 1) in
    if ltb (length history) 2
    then system m "riskTrendStable" []
    else if ltb previous latest
    then system m "riskTrendUp" (Argument.count (latest - previous) ∷ [])
    else if ltb latest previous
    then system m "riskTrendDown" (Argument.count (previous - latest) ∷ [])
    else system m "riskTrendStable" []

-- A factor with its label.
pub record Contributor : Type 0 where
  pub factor : RiskFactor
  pub label : String

unfoldable pub format_risk_top_contributors : Messages → List RiskFactor → ℕ → List Contributor
format_risk_top_contributors m factors limit =
    map (λ f. record { factor = f; label = format_risk_factor m f })
      (take limit (sort_by heavier factors))

-- `new Map(factors.map((factor) => [factor.code, factor.weight])).get(code) ?? 0`: of two factors
-- with one code the later one counts.
unfoldable pub weight_of : String → List RiskFactor → ℕ → ℕ
weight_of code [] found = found
weight_of code (f ∷ fs) found = weight_of code fs (if str_eq f.code code then f.weight else found)

-- The sentence about the heaviest factor `top`, against its weight in the point before.
unfoldable pub change_of : Messages → Contributor → ℕ → ℕ → ℕ → String
change_of m top previous_weight previous_score current_score =
    if previous_weight == 0
    then system m "riskChangeSummaryNewFactor" (words top.label ∷ [])
    else if ltb previous_score current_score && leb previous_weight top.factor.weight
    then system m "riskChangeSummaryIncrease" (words top.label ∷ [])
    else if ltb current_score previous_score
    then system m "riskChangeSummaryDecrease" (words top.label ∷ [])
    else system m "riskChangeSummaryStable" []

change_against : Messages → List Contributor → RiskHistoryPoint → ℕ → String
change_against m [] previous score = system m "riskChangeSummaryStable" []
change_against m (top ∷ rest) previous score =
    change_of m top (weight_of top.factor.code previous.factors 0) previous.score score

change_since : Messages → List RiskFactor → Option RiskHistoryPoint → ℕ → String
unfolding change_against
change_since m factors none score = system m "riskChangeSummaryStable" []
change_since m factors (some previous) score =
    change_against m (format_risk_top_contributors m factors 1) previous score

unfoldable pub format_risk_change_summary :
    Messages → List RiskFactor → List RiskHistoryPoint → ℕ → String
unfolding change_since
format_risk_change_summary m current_factors history current_score =
    if ltb (length history) 2 || length current_factors == 0
    then system m "riskChangeSummaryStable" []
    else change_since m current_factors (get_elem? history (length history - 2)) current_score
