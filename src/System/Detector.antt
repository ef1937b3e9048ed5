-- ===== src/System/Detector.antt =====
-- `MlCard` of web/src/components/system/SystemCards.tsx. `formatDateTime` is a parameter.
use ddsds.Common.{
  ℕ, String, Bool, false, ◌&&◌, ◌||◌, not, List, [], ◌∷◌, ◌++◌, Option, none, some, ltb, str_eq,
}
use ddsds.I18n.Template.{lookup}
use ddsds.Ui.{Value, Shown, Table, number, term, message, status_badge, fact, card_body, shown_if}
use ddsds.System.{
  DetectorStatus, running, pending, training, insufficient_data, postponed, failed, Quality, Noise,
  clean, stressed, noisy, MlAnomalyDetectorStatus, MlStatus, said, running_or,
}

-- `getHostProfileLabel`: the key of the label.
unfoldable pub profile_keys : Table
profile_keys =
    ("web", "mlProfileWeb")
    ∷ ("docker", "mlProfileDocker")
    ∷ ("database", "mlProfileDatabase")
    ∷ ("dev", "mlProfileDev")
    ∷ ("generic", "mlProfileGeneric")
    ∷ []

abbrev pub profile_or : Option String → Value
profile_or none = term "system" "mlProfileGeneric"
profile_or (some key) = term "system" key

unfoldable pub get_host_profile_label : String → Value
unfolding lookup profile_keys
get_host_profile_label profile = profile_or (lookup profile profile_keys)

-- The messages of `getAnomalyReasonText` by the code of the reason.
unfoldable pub reasons : MlAnomalyDetectorStatus → List (String × Shown)
reasons d =
    ("training_in_progress", said "mlReasonTraining")
    ∷ (
      "insufficient_data",
      message "system" "mlReasonInsufficientData"
          (number d.samples_count ∷ number d.required_samples ∷ []),
    )
    ∷ (
      "insufficient_clean_data",
      message "system" "mlReasonInsufficientCleanData" (
          number d.filtered_samples_count
          ∷ number d.required_samples
          ∷ number d.samples_count
          ∷ number d.filter_window_seconds
          ∷ []),
    )
    ∷ (
      "poisoned_baseline",
      message "system" "mlReasonPostponed" (number d.event_count ∷ number d.max_event_count ∷ []),
    )
    ∷ (
      "ready_filtered_baseline",
      message "system" "mlReasonFilteredBaseline" (
          number d.filtered_samples_count
          ∷ number d.samples_count
          ∷ number d.filter_window_seconds
          ∷ []),
    )
    ∷ (
      "ready_best_effort_baseline",
      message "system" "mlReasonBestEffortBaseline" (
          number d.filtered_samples_count
          ∷ number d.samples_count
          ∷ number d.weighted_event_pressure
          ∷ []),
    )
    ∷ ("ready", message "system" "mlReasonReady" (number d.samples_count ∷ []))
    ∷ ("training_failed", said "mlReasonFailed")
    ∷ ("model_load_failed", said "mlReasonLoadFailed")
    ∷ ("waiting_for_first_run", said "mlReasonWaiting")
    ∷ []

abbrev pub reason_or : Option Shown → Shown
reason_or none = said "mlReasonWaiting"
reason_or (some x) = x

unfoldable pub get_anomaly_reason_text : Option MlAnomalyDetectorStatus → List Shown
unfolding lookup reasons
get_anomaly_reason_text none = []
get_anomaly_reason_text (some d) = reason_or (lookup d.reason_code (reasons d)) ∷ []

abbrev pub status_name : DetectorStatus → String
status_name running = "running"
status_name pending = "pending"
status_name training = "training"
status_name insufficient_data = "insufficient_data"
status_name postponed = "postponed"
status_name failed = "failed"

abbrev pub detector_of : Option MlStatus → Option MlAnomalyDetectorStatus
detector_of none = none
detector_of (some s) = some s.anomaly_detector

-- `anomalyStatus`: without a detector, nothing is ready.
abbrev pub anomaly_status : Option MlStatus → String
anomaly_status none = "pending"
anomaly_status (some s) = status_name s.anomaly_detector.status

-- `mlStatus?.attack_classifier?.ready`
abbrev pub is_classifier_ready : Option MlStatus → Bool
is_classifier_ready none = false
is_classifier_ready (some s) = s.attack_classifier

unfoldable pub quality_term : Quality → Value
quality_term Quality.high = term "system" "mlQualityHigh"
quality_term Quality.medium = term "system" "mlQualityMedium"
quality_term Quality.low = term "system" "mlQualityLow"

unfoldable pub noise_term : Noise → Value
noise_term clean = term "system" "mlNoiseClean"
noise_term stressed = term "system" "mlNoiseStressed"
noise_term noisy = term "system" "mlNoiseNoisy"

unfoldable pub dataset_rows : Option MlAnomalyDetectorStatus → List Shown
unfolding quality_term noise_term get_host_profile_label
dataset_rows none = []
dataset_rows (some d) = shown_if (ltb 0 d.dataset_quality_score) (
    message "system" "mlDatasetQuality" (
      number d.dataset_quality_score
      ∷ quality_term d.dataset_quality_label
      ∷ number d.filtered_samples_count
      ∷ number d.discarded_samples_count
      ∷ [])
    ∷ message "system" "mlDatasetPressure" (
        noise_term d.dataset_noise_label
        ∷ number d.weighted_event_pressure
        ∷ number d.excluded_windows_count
        ∷ [])
    ∷ message "system" "mlDatasetContext" (
        get_host_profile_label d.host_profile
        ∷ number d.maintenance_event_count
        ∷ number d.maintenance_window_seconds
        ∷ [])
    ∷ [])

abbrev pub next_run_of : Option MlStatus → Option ℕ
next_run_of none = none
next_run_of (some s) = s.anomaly_detector.next_run_at

unfoldable pub next_attempt : (ℕ → String) → Bool → Option ℕ → List Shown
next_attempt format_date_time is_running none = []
next_attempt format_date_time is_running (some n) =
    shown_if (ltb 0 n && not is_running) (said "mlNextAttempt" ∷ fact (format_date_time n) ∷ [])

abbrev pub pending_block : List Shown
pending_block = said "mlPendingTitle" ∷ said "mlPendingDescription" ∷ []

unfoldable pub ml_content : (ℕ → String) → Option MlStatus → List Shown
unfolding get_anomaly_reason_text dataset_rows next_attempt
ml_content format_date_time s =
    let is_running = str_eq (anomaly_status s) "running" in
    said "anomalyDetector"
    ∷ status_badge (anomaly_status s)
    ∷ (get_anomaly_reason_text (detector_of s)
        ++ dataset_rows (detector_of s)
        ++ next_attempt format_date_time is_running (next_run_of s)
        ++ said "attackClassifier"
          ∷ running_or (is_classifier_ready s) "pending"
          ∷ said "mlNote"
          ∷ shown_if (not is_running || not (is_classifier_ready s)) pending_block)

abbrev pub ml_error : List Shown
ml_error =
    said "anomalyDetector"
    ∷ status_badge "stopped"
    ∷ said "attackClassifier"
    ∷ status_badge "stopped"
    ∷ said "mlNote"
    ∷ pending_block

unfoldable pub ml_card : (ℕ → String) → Option MlStatus → (is_loading is_error : Bool) → List Shown
unfolding ml_content
ml_card format_date_time s is_loading is_error =
    said "mlModule" ∷ card_body is_loading is_error ml_error (ml_content format_date_time s)
