-- ===== src/Types.antt =====
-- The records of web/src/types/index.ts that the security page works with. Numbers are natural:
-- identifiers, counts, flags and timestamps in whole seconds.
use ddsds.Common.{ℕ, String, List, Option, none, some}

pub data Severity : Type 0 where
  low medium high critical : Severity

pub data Confidence : Type 0 where
  low medium high : Confidence

-- The texts of the values.
abbrev pub confidence_name : Option Confidence → Option String
confidence_name none = none
confidence_name (some Confidence.low) = some "low"
confidence_name (some Confidence.medium) = some "medium"
confidence_name (some Confidence.high) = some "high"

pub data IncidentStatus : Type 0 where
  new investigating resolved : IncidentStatus

pub record SecurityEvent : Type 0 where
  pub id : ℕ
  pub timestamp : ℕ
  pub type : String
  pub severity : Severity
  pub source_ip : String
  pub description : String
  pub raw_log : String
  pub action_taken : String
  pub resolved : ℕ
  pub signal_source : Option String
  pub explanation_code : Option String
  pub confidence : Option Confidence
  pub recommended_action : Option String
  pub trace_id : Option String

pub record BlockedIp : Type 0 where
  pub id : ℕ
  pub ip : String
  pub reason : String
  pub blocked_at : ℕ
  pub expires_at : Option ℕ
  pub auto : ℕ

pub record SecurityIncident : Type 0 where
  pub id : String
  pub title : String
  pub type : String
  pub source_ip : String
  pub severity : Severity
  pub status : IncidentStatus
  pub event_count : ℕ
  pub suppressed_count : ℕ
  pub repeat_count : ℕ
  pub first_seen : ℕ
  pub last_seen : ℕ
  pub latest_event_id : ℕ
  pub latest_trace_id : Option String
  pub latest_action_taken : Option String
  pub signal_source : Option String
  pub confidence : Option Confidence
  pub recommended_action : Option String
  pub evidence_types : List String
  pub summary : String
  pub note_count : ℕ
  pub status_updated_at : ℕ

pub record IncidentNote : Type 0 where
  pub id : ℕ
  pub incident_id : String
  pub incident_type : String
  pub source_ip : String
  pub note : String
  pub status_at_time : IncidentStatus
  pub created_at : ℕ
