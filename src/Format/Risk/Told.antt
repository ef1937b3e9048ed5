-- ===== src/Format/Risk/Told.antt =====
-- The messages that the risk texts of web/src/lib/format.ts ask for.
use ddsds.Common.{
  ℕ, ◌-◌, String, true, false, List, [], ◌∷◌, Option, none, some, ◌≡◌, ◌⊎◌, refl, inl, inr, any,
  str_eq, length, get_elem?,
}
use ddsds.Common.Sort.{sort_by}
use ddsds.I18n.Template.{Argument, words, count}
use ddsds.I18n.State.{Locale, dictionaries, Messages}
use ddsds.I18n.Told.{IsTold, IsTold-translate, IsTold-if, if_told, is_asked_in_both}
use ddsds.Format.Risk.{
  RiskFactor, RiskLevel, RiskHistoryPoint, low, medium, high, critical, system, heavier,
  format_risk_level, format_risk_factor, format_risk_explanation, explain, format_risk_trend,
  format_risk_change_summary, change_of, change_against, change_since, Contributor,
  format_risk_top_contributors,
}

-- The codes of factors that have a label.
abbrev pub factor_codes : List String
factor_codes =
    "agent_disconnected" ∷ "api_unhealthy" ∷ "db_unhealthy" ∷ "failed_services" ∷ "stopped_services"
    ∷ "metrics_missing" ∷ "metrics_stale" ∷ "metrics_aging" ∷ "recent_security_pressure" ∷ []

-- The label of a factor: a message, or the code itself if it is none of the known ones.
pub data IsLabel (m : Messages) (f : RiskFactor) : String → Type 0 where
  known : (s : String) → IsTold m s → IsLabel m f s
  unknown : any (str_eq f.code) factor_codes ≡ false → IsLabel m f f.code

module _ (m : Messages) (l : Locale) (e : m.t ≡ dictionaries l) where
  says :
      (key : String) (xs : List Argument)
      → is_asked_in_both "system" key xs ≡ true
      → IsTold m (system m key xs)
  says = IsTold-translate l e "system"

  pub level-IsTold : (level : RiskLevel) → IsTold m (format_risk_level m level)
  unfolding format_risk_level is_asked_in_both
  level-IsTold low = says "riskLow" [] refl
  level-IsTold medium = says "riskMedium" [] refl
  level-IsTold high = says "riskHigh" [] refl
  level-IsTold critical = says "riskCritical" [] refl

  factor-IsLabel : (f : RiskFactor) → IsLabel m f (format_risk_factor m f)
  unfolding format_risk_factor is_asked_in_both
  factor-IsLabel f =
      if_told {P = IsLabel m f} (str_eq f.code "agent_disconnected") known
        (says "riskFactorAgent" [] refl)
        λ h₁.
          if_told {P = IsLabel m f} (str_eq f.code "api_unhealthy") known
            (says "riskFactorApi" [] refl)
            λ h₂.
              if_told {P = IsLabel m f} (str_eq f.code "db_unhealthy") known
                (says "riskFactorDb" [] refl)
                λ h₃.
                  if_told {P = IsLabel m f} (str_eq f.code "failed_services") known
                    (says "riskFactorFailedServices" (count _ ∷ []) refl)
                    λ h₄.
                      if_told {P = IsLabel m f} (str_eq f.code "stopped_services") known
                        (says "riskFactorStoppedServices" (count _ ∷ []) refl)
                        λ h₅.
                          if_told {P = IsLabel m f} (str_eq f.code "metrics_missing") known
                            (says "riskFactorMetricsMissing" [] refl)
                            λ h₆.
                              if_told {P = IsLabel m f} (str_eq f.code "metrics_stale") known
                                (says "riskFactorMetricsStale" (count _ ∷ []) refl)
                                λ h₇.
                                  if_told {P = IsLabel m f} (str_eq f.code "metrics_aging") known
                                    (says "riskFactorMetricsAging" (count _ ∷ []) refl)
                                    λ h₈.
                                      if_told {P = IsLabel m f}
                                        (str_eq f.code "recent_security_pressure") known
                                        (says "riskFactorSecurityPressure" (count _ ∷ []) refl)
                                        λ h₉. unknown (rw (h₁, h₂, h₃, h₄, h₅, h₆, h₇, h₈, h₉) refl)

  explain-IsTold :
      (level : RiskLevel) (factors : List RiskFactor) → IsTold m (explain m level factors)
  unfolding explain is_asked_in_both
  explain-IsTold level [] = says "riskExplanationHealthy" [] refl
  explain-IsTold level (f ∷ []) = says "riskExplanationSingle" (words _ ∷ []) refl
  explain-IsTold level (f ∷ g ∷ rest) =
      IsTold-if _ (says "riskExplanationSingle" (words _ ∷ []) refl) (
        IsTold-if _ (says "riskExplanationDouble" (words _ ∷ words _ ∷ []) refl)
          (says "riskExplanationSingle" (words _ ∷ []) refl))

  pub explanation-IsTold :
      (level : RiskLevel) (factors : List RiskFactor)
      → IsTold m (format_risk_explanation m level factors)
  unfolding format_risk_explanation
  explanation-IsTold level factors = explain-IsTold level (sort_by heavier factors)

  pub factor-either :
      (f : RiskFactor) → IsTold m (format_risk_factor m f) ⊎ (format_risk_factor m f ≡ f.code)
  factor-either f = go (factor-IsLabel f)
    where
      go : {s : String} → IsLabel m f s → IsTold m s ⊎ (s ≡ f.code)
      go (known s t) = inl t
      go (unknown h) = inr refl

  pub trend-IsTold : (history : List RiskHistoryPoint) → IsTold m (format_risk_trend m history)
  unfolding format_risk_trend is_asked_in_both
  trend-IsTold history = IsTold-if _ (says "riskTrendStable" [] refl) (
      IsTold-if _ (says "riskTrendUp" (count _ ∷ []) refl)
        (IsTold-if _ (says "riskTrendDown" (count _ ∷ []) refl) (says "riskTrendStable" [] refl)))

  change_against-IsTold :
      (top : List Contributor) (previous : RiskHistoryPoint) (score : ℕ)
      → IsTold m (change_against m top previous score)
  unfolding change_against change_of is_asked_in_both
  change_against-IsTold [] previous score = says "riskChangeSummaryStable" [] refl
  change_against-IsTold (top ∷ rest) previous score =
      IsTold-if _ (says "riskChangeSummaryNewFactor" (words _ ∷ []) refl) (
        IsTold-if _ (says "riskChangeSummaryIncrease" (words _ ∷ []) refl) (
          IsTold-if _ (says "riskChangeSummaryDecrease" (words _ ∷ []) refl)
            (says "riskChangeSummaryStable" [] refl)))

  change_since-IsTold :
      (factors : List RiskFactor) (previous : Option RiskHistoryPoint) (score : ℕ)
      → IsTold m (change_since m factors previous score)
  unfolding change_since is_asked_in_both
  change_since-IsTold factors none score = says "riskChangeSummaryStable" [] refl
  change_since-IsTold factors (some previous) score =
      change_against-IsTold (format_risk_top_contributors m factors 1) previous score

  pub change_summary-IsTold :
      (factors : List RiskFactor) (history : List RiskHistoryPoint) (score : ℕ)
      → IsTold m (format_risk_change_summary m factors history score)
  unfolding format_risk_change_summary is_asked_in_both
  change_summary-IsTold factors history score =
      IsTold-if _ (says "riskChangeSummaryStable" [] refl)
        (change_since-IsTold factors (get_elem? history (length history - 2)) score)
