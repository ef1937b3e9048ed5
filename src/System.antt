-- ===== src/System.antt =====
-- The cards of web/src/components/system/SystemCards.tsx, with the records of web/src/types/index.ts
-- they show. What a query has not given is `none`. Counts, weights and shares are natural numbers.
pub mod Cards
pub mod Detector
pub mod Measured
pub mod Spoken
pub mod RiskCard
pub mod Page
pub mod Sparkline
use ddsds.Common.{ℕ, String, Bool, List, Option}
use ddsds.Types.{Severity}
use ddsds.Ui.{Shown, words, status_badge, either_of}

pub record HealthStatus : Type 0 where
  pub status : String
  pub agent : String
  pub db : String

pub data DetectorStatus : Type 0 where
  running pending training insufficient_data postponed failed : DetectorStatus

pub data Quality : Type 0 where
  low medium high : Quality

pub data Noise : Type 0 where
  clean stressed noisy : Noise

pub record MlAnomalyDetectorStatus : Type 0 where
  pub ready : Bool
  pub status : DetectorStatus
  pub reason_code : String
  pub samples_count : ℕ
  pub filtered_samples_count : ℕ
  pub discarded_samples_count : ℕ
  pub required_samples : ℕ
  pub event_count : ℕ
  pub max_event_count : ℕ
  pub maintenance_event_count : ℕ
  pub host_profile : String
  pub filter_window_seconds : ℕ
  pub maintenance_window_seconds : ℕ
  pub dataset_quality_score : ℕ
  pub dataset_quality_label : Quality
  pub dataset_noise_label : Noise
  pub weighted_event_pressure : ℕ
  pub excluded_windows_count : ℕ
  pub updated_at : ℕ
  pub next_run_at : Option ℕ

-- `attack_classifier` is its only field, `ready`.
pub record MlStatus : Type 0 where
  pub anomaly_detector : MlAnomalyDetectorStatus
  pub attack_classifier : Bool

pub data CheckStatus : Type 0 where
  healthy warning failing : CheckStatus

pub record SelfProtectionCheck : Type 0 where
  pub code : String
  pub status : CheckStatus
  pub severity : Severity
  pub title : String
  pub description : String
  pub recommendation : String

pub record SelfProtectionStatus : Type 0 where
  pub level : Severity
  pub healthy_count : ℕ
  pub warning_count : ℕ
  pub failing_count : ℕ
  pub checks : List SelfProtectionCheck

pub data Role : Type 0 where
  primary standby : Role

pub record PrimaryLockInfo : Type 0 where
  pub path : String
  pub exists : Bool
  pub locked : Bool
  pub owner_node_name : String
  pub owner_pid : ℕ
  pub updated_at : ℕ

pub record Failover : Type 0 where
  pub enabled : Bool
  pub primary_api_url : String
  pub check_interval : ℕ
  pub failure_threshold : ℕ
  pub cooloff_seconds : ℕ

pub record DeploymentStatus : Type 0 where
  pub role : Role
  pub node_name : String
  pub primary_lock_path : String
  pub updated_at : ℕ
  pub background_tasks_enabled : Bool
  pub active_response_enabled : Bool
  pub promote_supported : Bool
  pub primary_lock_held : Bool
  pub primary_lock_info : PrimaryLockInfo
  pub failover : Failover

-- A message of the section `system`.
abbrev pub said : String → Shown
said = words "system"

-- A badge that is `running`, or else the given value.
abbrev pub running_or : Bool → String → Shown
running_or b value = either_of b (status_badge "running") (status_badge value)
