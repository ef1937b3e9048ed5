-- ===== src/System/Measured.antt =====
-- The messages and badges of `MlCard` and `RiskCard` of web/src/components/system/SystemCards.tsx.
use ddsds.Common.{
  ℕ, String, Bool, List, [], ◌∷◌, Option, none, some, refl, All, Bool-cases, inl, inr, str_eq, ltb,
  length, ◌≡◌, map, take,
}
use ddsds.I18n.Template.{lookup}
use ddsds.I18n.State.{Messages, Locale, dictionaries}
use ddsds.Ui.{Shown, Value, message, number, status_badge}
use ddsds.Ui.Speaks.{said, spoken_nil, spoken_cons, speaks_both, IsSaid, IsSpoken, spoken}
use ddsds.Format.Risk.{
  RiskScore, RiskFactor, RiskHistoryPoint, format_risk_top_contributors, heavier,
}
use ddsds.Common.Sort.{sort_by}
use ddsds.Format.Risk.Contributors.{labelled}
use ddsds.Format.Risk.Told.{
  factor-either, level-IsTold, trend-IsTold, explanation-IsTold, change_summary-IsTold,
}
use ddsds.System.{
  DetectorStatus, running, pending, training, insufficient_data, postponed, failed, Quality, Noise,
  clean, stressed, noisy, MlAnomalyDetectorStatus, MlStatus,
}
use ddsds.System.Detector.{
  get_host_profile_label, profile_keys, profile_or, reason_or, get_anomaly_reason_text, reasons,
  status_name, anomaly_status, detector_of, quality_term, noise_term, dataset_rows, next_attempt,
  ml_content, ml_card,
}
use ddsds.System.RiskCard.{
  Fraction, history_of, history_rows, contributor_rows, factor_rows, rows_or_low, factors_of,
  risk_content, risk_card,
}

lookup-All {ℓ κ} :
    {V : Type ℓ} (P : Option V → Type κ) (key : String) (table : List (String × V))
    → P none
    → All (λ e. P (some e.1)) table
    → P (lookup key table)
unfolding lookup
lookup-All P key [] h k = h
lookup-All P key ((j, v) ∷ table) h k = elim (Bool-cases (str_eq j key)) [
  | inl e ↦ rw e k.0
  | inr e ↦ rw e (lookup-All P key table h k.1)
]

reason-IsSpoken : (d : Option MlAnomalyDetectorStatus) → IsSpoken (get_anomaly_reason_text d)
unfolding get_anomaly_reason_text reasons speaks_both
reason-IsSpoken none = search spoken
reason-IsSpoken (some d) =
    let reason =
      lookup-All (λ o. IsSaid (reason_or o)) d.reason_code (reasons d) (said refl)
        (
          said refl,
          (
            said refl,
            (
              said refl,
              (
                said refl,
                (said refl, (said refl, (said refl, (said refl, (said refl, (said refl, tt)))))),
              ),
            ),
          ),
        ) in
    search (spoken, reason)

abbrev context : Value → (events seconds : ℕ) → Shown
context profile events seconds =
    message "system" "mlDatasetContext" (profile ∷ number events ∷ number seconds ∷ [])

profile-IsSaid :
    (profile : String) (events seconds : ℕ)
    → IsSaid (context (get_host_profile_label profile) events seconds)
unfolding get_host_profile_label profile_keys speaks_both
profile-IsSaid profile events seconds =
    lookup-All (λ o. IsSaid (context (profile_or o) events seconds)) profile profile_keys
      (said refl) (said refl, (said refl, (said refl, (said refl, (said refl, tt)))))

quality-IsSaid :
    (score clean_count discarded : ℕ) (q : Quality)
    → IsSaid (
        message "system" "mlDatasetQuality"
          (number score ∷ quality_term q ∷ number clean_count ∷ number discarded ∷ []))
unfolding quality_term speaks_both
quality-IsSaid score clean_count discarded Quality.high = said refl
quality-IsSaid score clean_count discarded Quality.medium = said refl
quality-IsSaid score clean_count discarded Quality.low = said refl

noise-IsSaid :
    (pressure excluded : ℕ) (q : Noise)
    → IsSaid (
        message "system" "mlDatasetPressure"
          (noise_term q ∷ number pressure ∷ number excluded ∷ []))
unfolding noise_term speaks_both
noise-IsSaid pressure excluded clean = said refl
noise-IsSaid pressure excluded stressed = said refl
noise-IsSaid pressure excluded noisy = said refl

dataset-IsSpoken : (d : Option MlAnomalyDetectorStatus) → IsSpoken (dataset_rows d)
unfolding dataset_rows
dataset-IsSpoken none = search spoken
dataset-IsSpoken (some d) = search (spoken, quality-IsSaid, noise-IsSaid, profile-IsSaid) depth 8

next_attempt-IsSpoken :
    (format_date_time : ℕ → String) (is_running : Bool) (n : Option ℕ)
    → IsSpoken (next_attempt format_date_time is_running n)
unfolding next_attempt speaks_both
next_attempt-IsSpoken format_date_time is_running none = search spoken
next_attempt-IsSpoken format_date_time is_running (some n) = search spoken

anomaly_status-IsSaid : (s : Option MlStatus) → IsSaid (status_badge (anomaly_status s))
unfolding speaks_both
anomaly_status-IsSaid none = said refl
anomaly_status-IsSaid (some s) = go s.anomaly_detector.status
  where
    go : (d : DetectorStatus) → IsSaid (status_badge (status_name d))
    go running = said refl
    go pending = said refl
    go training = said refl
    go insufficient_data = said refl
    go postponed = said refl
    go failed = said refl

pub ml-IsSpoken :
    (format_date_time : ℕ → String) (s : Option MlStatus) (is_loading is_error : Bool)
    → IsSpoken (ml_card format_date_time s is_loading is_error)
unfolding ml_card ml_content speaks_both
ml-IsSpoken format_date_time s is_loading is_error =
    search
      (
        spoken,
        anomaly_status-IsSaid s,
        reason-IsSpoken (detector_of s),
        dataset-IsSpoken (detector_of s),
        next_attempt-IsSpoken,
      )
      depth 24 fits 5000

module _ (m : Messages) (l : Locale) (e : m.t ≡ dictionaries l) where
  contributors-IsSpoken :
      (fs : List RiskFactor) → IsSpoken (contributor_rows m (map (labelled m) fs))
  unfolding contributor_rows speaks_both
  contributors-IsSpoken [] = search spoken
  contributors-IsSpoken (f ∷ fs) = search (spoken, factor-either m l e f, contributors-IsSpoken fs)

  factors-IsSpoken : (fs : List RiskFactor) → IsSpoken (factor_rows m fs)
  unfolding factor_rows speaks_both
  factors-IsSpoken [] = search spoken
  factors-IsSpoken (f ∷ fs) = search (spoken, factor-either m l e f, factors-IsSpoken fs)

  rows_or_low-IsSpoken : {rows : List Shown} → IsSpoken rows → IsSpoken (rows_or_low m rows)
  rows_or_low-IsSpoken spoken_nil = search (spoken, level-IsTold m l e)
  rows_or_low-IsSpoken (spoken_cons h k) = spoken_cons h k

  top-IsSpoken :
      (fs : List RiskFactor)
      → IsSpoken (rows_or_low m (contributor_rows m (format_risk_top_contributors m fs 3)))
  unfolding format_risk_top_contributors
  top-IsSpoken fs = rows_or_low-IsSpoken (contributors-IsSpoken (take 3 (sort_by heavier fs)))

history-IsSpoken :
    (format_date_time : ℕ → String) (to_fixed : Fraction → String) (s : Option RiskScore)
    (h : List RiskHistoryPoint)
    → IsSpoken (history_rows format_date_time to_fixed s h)
unfolding history_rows speaks_both
history-IsSpoken format_date_time to_fixed s h = elim (Bool-cases (ltb 1 (length h))) [
  | inl e ↦ rw e (search spoken depth 8)
  | inr e ↦ rw e (search spoken)
]

pub risk-IsSpoken :
    (m : Messages) (l : Locale)
    → m.t ≡ dictionaries l
    → (format_date_time : ℕ → String) (to_fixed : Fraction → String) (s : Option RiskScore)
      (h : Option (List RiskHistoryPoint)) (is_loading is_error : Bool)
    → IsSpoken (risk_card format_date_time to_fixed m s h is_loading is_error)
unfolding risk_card risk_content speaks_both
risk-IsSpoken m l e format_date_time to_fixed s h is_loading is_error =
    search
      (
        spoken,
        history-IsSpoken format_date_time to_fixed s (history_of h),
        top-IsSpoken m l e (factors_of s),
        rows_or_low-IsSpoken m l e (factors-IsSpoken m l e (factors_of s)),
        level-IsTold m l e,
        trend-IsTold m l e,
        explanation-IsTold m l e,
        change_summary-IsTold m l e,
      )
      depth 24 fits 5000
