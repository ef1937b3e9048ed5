-- ===== src/Tests/Texts.antt =====
-- Texts of web/src/lib/format.ts and messages of web/src/lib/i18n.ts.
use ddsds.Common.{
  ℕ, ◌/◌, ◌-◌, ◌*◌, ◌^◌, ◌≤◌, ◌<◌, String, true, List, [], ◌∷◌, none, some, ◌≡◌, ◌≢◌, refl, ◌⊎◌,
  if◌then◌else◌, ltb, leb, false, ◌&&◌, arith,
}
use ddsds.I18n.Template.{Argument, count, words}
use ddsds.I18n.State.{
  Messages, ru_locale, en_locale, dictionaries, initial_messages, set_locale_messages,
}
use ddsds.I18n.Parity.{params_of, params_of-dictionaries}
use ddsds.Format.Risk.{
  RiskFactor, RiskHistoryPoint, low, critical, system, format_risk_factor,
  format_risk_top_contributors, format_risk_explanation, format_risk_trend,
  format_risk_change_summary,
}
use ddsds.Format.Risk.Contributors.{
  IsTop, Explains, IsHeaviest, format_risk_top_contributors-IsTop, format_risk_explanation-Explains,
}
use ddsds.Format.Risk.Change.{format_risk_trend_lem, format_risk_change_summary_new}
use ddsds.Format.Labels.{
  security, key_of, actions, signals, recommendations, explanations, headlines,
}
use ddsds.Format.Labels.Keys.{has_plain, key_of-has_plain}
use ddsds.Format.Bytes.{unit_loop, unit_index_of, unit_index_of_bounds, unit_loop_terminates}
use ddsds.Text.{decimal}
use ddsds.Format.Event.{format_blocked_reason}
use ddsds.Format.Event.Counts.{
  description_of, pattern_of, ssh_threshold, format_blocked_reason-description_of,
}
use ddsds.Format.Age.{IsAge, format_relative_age, format_relative_age-IsAge}

abbrev english : Messages
english = set_locale_messages en_locale initial_messages

params_of-dictionaries_example :
    params_of (dictionaries ru_locale) "system" "riskTrendUp"
    ≡ params_of (dictionaries en_locale) "system" "riskTrendUp"
params_of-dictionaries_example = params_of-dictionaries ru_locale en_locale "system" "riskTrendUp"

abbrev factor : String → ℕ → RiskFactor
factor code weight = record { code = code; weight = weight; count = some 2; age_seconds = none }

abbrev factors : List RiskFactor
factors =
    factor "stopped_services" 10 ∷ factor "failed_services" 25 ∷ factor "agent_disconnected" 40 ∷ []

factors-ne : factors ≢ []
factors-ne e = grind arith

abbrev point : ℕ → List RiskFactor → RiskHistoryPoint
point score factors = record { timestamp = 100; score = score; level = low; factors = factors }

format_risk_top_contributors-IsTop_example :
    IsTop english factors 2 (format_risk_top_contributors english factors 2)
format_risk_top_contributors-IsTop_example = format_risk_top_contributors-IsTop english factors 2

format_risk_explanation-Explains_example :
    Explains english critical factors (format_risk_explanation english critical factors)
format_risk_explanation-Explains_example =
    format_risk_explanation-Explains english critical factors factors-ne

format_risk_trend_lem_example :
    format_risk_trend english (point 5 [] ∷ point 30 [] ∷ point 12 [] ∷ []) ≡ (
      if ltb 30 12
      then system english "riskTrendUp" (Argument.count (12 - 30) ∷ [])
      else if ltb 12 30
      then system english "riskTrendDown" (Argument.count (30 - 12) ∷ [])
      else system english "riskTrendStable" [])
format_risk_trend_lem_example =
    format_risk_trend_lem english (point 5 [] ∷ []) (point 30 []) (point 12 [])

format_risk_change_summary_new_example :
    (top : RiskFactor) × IsHeaviest top factors
    × (format_risk_change_summary english factors (point 5 [] ∷ point 9 [] ∷ []) 75
        ≡ system english "riskChangeSummaryNewFactor" (words (format_risk_factor english top) ∷ []))
format_risk_change_summary_new_example =
    format_risk_change_summary_new english factors [] (point 5 []) (point 9 []) 75 factors-ne
      (λ f m. tt)

key_of-has_plain_example :
    (has_plain en_locale (key_of actions "actionLogged" "auto_block") ≡ true)
    × (has_plain en_locale (key_of signals "signalGeneric" "auto_block") ≡ true)
    × (has_plain en_locale (key_of recommendations "recommendationGeneric" "auto_block") ≡ true)
    × (has_plain en_locale (key_of explanations "explanationGeneric" "auto_block") ≡ true)
    × (has_plain en_locale (key_of headlines "incidentResolutionOpen" "auto_block") ≡ true)
key_of-has_plain_example = key_of-has_plain en_locale "auto_block"

unit_index_of_bounds_example :
    (unit_index_of 5000000 ≤ 3)
    × ((unit_index_of 5000000 ≡ 3) ⊎ (5000000 < 1024 * 1024 ^ unit_index_of 5000000))
    × ((unit_index_of 5000000 ≡ 0) ⊎ (1024 ^ unit_index_of 5000000 ≤ 5000000))
unit_index_of_bounds_example = unit_index_of_bounds 5000000

format_relative_age-IsAge_example :
    IsAge english
      (1700000125 - 1700000000)
      (format_relative_age english 1700000125 (some 1700000000))
format_relative_age-IsAge_example =
    format_relative_age-IsAge english 1700000125 1700000000 (omega arith)

unit_loop_terminates_example :
    (unit_loop 9 5000000 0 ≡ unit_index_of 5000000)
    × ((leb (1024 * 1024 ^ unit_index_of 5000000) 5000000 && ltb (unit_index_of 5000000) 3) ≡ false)
unit_loop_terminates_example = unit_loop_terminates 9 5000000 (omega arith)

-- A rounding to doubles, up to 2 ^ 54: odd numbers go down.
abbrev rounded : ℕ → ℕ
rounded n = if leb n 9007199254740992 then n else n / 2 * 2

format_blocked_reason-description_of_example :
    format_blocked_reason (λ s. s) rounded english (description_of (pattern_of ssh_threshold) 12 60)
    ≡ security english (pattern_of ssh_threshold).key (count 12 ∷ count 60 ∷ [])
format_blocked_reason-description_of_example =
    format_blocked_reason-description_of (λ s. s) rounded (λ i h. ground arith) english
      ssh_threshold 12 60 (omega arith) (omega arith)

abbrev blocked_reason : String
blocked_reason = "12+ failed SSH attempts in 60s"

same_reason : description_of (pattern_of ssh_threshold) 12 60 ≡ blocked_reason
unfolding decimal
same_reason = refl
