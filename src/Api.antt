-- ===== src/Api.antt =====
-- web/src/lib/api.ts: the requests that the interface sends, and what it makes of the responses.
-- Parameters are the address of the server, `encodeURIComponent`, the text of a `URLSearchParams`,
-- `JSON.stringify`, and what the local storage holds under the token's key.
pub mod Addresses
pub mod Pieces
pub mod Templates
pub mod Roundtrip
use ddsds.Common.{
  ℕ, String, Bool, true, false, List, [], ◌∷◌, ◌++◌, Option, none, some, if◌then◌else◌,
}
use ddsds.Text.{append, truthy, decimal}
use ddsds.Json.{Json, Fields, num, str, boolean, object}
use ddsds.Types.{Severity, IncidentStatus}
use ddsds.Logs.{LogFilters, log_query}
use ddsds.Settings.{Delivery, OperationMode, observe, assist, auto_defend}
use ddsds.Ws.{get_ui_token}

pub data Method : Type 0 where
  get post : Method

pub record HttpRequest : Type 0 where
  pub method : Method
  pub url : String
  pub headers : List (String × String)
  pub body : Option String

-- `resp.ok`, `resp.status`, and what `resp.json()` gives: `none` where it throws.
pub record Response (A : Type 0) : Type 0 where
  pub ok : Bool
  pub status : ℕ
  pub json : Option A

pub data Outcome (A : Type 0) : Type 0 where
  value : A → Outcome A
  api_error : (status : ℕ) → Outcome A
  invalid_json : Outcome A

-- What `get` and `post` make of the response.
unfoldable pub outcome_of : {A : Type 0} → Response A → Outcome A
outcome_of r =
    if r.ok then (elim r.json [ none ↦ invalid_json | some a ↦ value a ]) else api_error r.status

-- `headers`
unfoldable pub headers_of : Option (Option String) → List (String × String)
unfolding get_ui_token
headers_of storage =
    ("Content-Type", "application/json")
    ∷ (if truthy (get_ui_token storage)
        then ("Authorization", append "Bearer " (get_ui_token storage)) ∷ []
        else [])

abbrev pub text_or_empty : Option String → String
text_or_empty none = ""
text_or_empty (some s) = s

abbrev severity_name : Severity → String
severity_name Severity.low = "low"
severity_name Severity.medium = "medium"
severity_name Severity.high = "high"
severity_name Severity.critical = "critical"

abbrev status_name : IncidentStatus → String
status_name IncidentStatus.new = "new"
status_name IncidentStatus.investigating = "investigating"
status_name IncidentStatus.resolved = "resolved"

abbrev mode_name : OperationMode → String
mode_name observe = "observe"
mode_name assist = "assist"
mode_name auto_defend = "auto_defend"

-- The bodies. A field that is undefined is not written.
abbrev duration_field : Option ℕ → Fields ℕ
duration_field none = Fields.end
duration_field (some d) = Fields.field "duration" (num d) Fields.end

abbrev delivery_fields : Delivery → Fields ℕ
delivery_fields d = Fields.field "notify_auto_block" (boolean d.notify_auto_block) (
    Fields.field "notify_high_severity" (boolean d.notify_high_severity) (
      Fields.field "notify_min_severity" (str (severity_name d.notify_min_severity)) (
        Fields.field "quiet_hours_start" (str d.quiet_hours_start)
          (Fields.field "quiet_hours_end" (str d.quiet_hours_end) Fields.end))))

-- The paths with arguments in them; `encode` is `encodeURIComponent`.
module _ (encode : String → String) where
  unfoldable pub metrics_history_path : String → String
  metrics_history_path period = append "/metrics/history?period=" (encode period)

  unfoldable pub security_events_path : Option String → Option String → ℕ → String
  security_events_path event_type source_ip limit = append "/security/events?event_type=" (
      append (encode (text_or_empty event_type)) (
        append "&source_ip="
          (append (encode (text_or_empty source_ip)) (append "&limit=" (decimal limit)))))

  unfoldable pub security_incidents_path : Option String → ℕ → String
  security_incidents_path event_type limit =
      append "/security/incidents?event_type="
        (append (encode (text_or_empty event_type)) (append "&limit=" (decimal limit)))

  unfoldable pub security_incident_detail_path : String → String
  security_incident_detail_path incident_id = append "/security/incidents/" (encode incident_id)

  unfoldable pub incident_notes_path : String → String
  incident_notes_path incident_id =
      append "/security/incidents/" (append (encode incident_id) "/notes")

  unfoldable pub incident_status_path : String → String
  incident_status_path incident_id =
      append "/security/incidents/" (append (encode incident_id) "/status")

  unfoldable pub list_notes_path : String → ℕ → String
  list_notes_path incident_id limit =
      append "/security/incidents/"
        (append (encode incident_id) (append "/notes?limit=" (decimal limit)))

  unfoldable pub security_audit_path : Option String → ℕ → String
  security_audit_path trace_id limit =
      append "/security/audit?trace_id="
        (append (encode (text_or_empty trace_id)) (append "&limit=" (decimal limit)))

-- `base` is the address of the server, `form` the text of a `URLSearchParams` with these entries,
-- and `stringify` is `JSON.stringify`.
module _ (base : String) (encode : String → String) (form : List (String × String) → String)
    (stringify : Json ℕ → String) (storage : Option (Option String)) where
  unfoldable pub get_request : String → HttpRequest
  get_request path = record {
    method = get;
    url = append base path;
    headers = headers_of storage;
    body = none;
  }

  unfoldable pub post_request : String → Option (Json ℕ) → HttpRequest
  post_request path body = record {
    method = post;
    url = append base path;
    headers = headers_of storage;
    body = elim body [ none ↦ none | some b ↦ some (stringify b) ];
  }

  unfoldable pub metrics_history : String → HttpRequest
  metrics_history period = get_request (metrics_history_path encode period)

  unfoldable pub terminate_process : ℕ → HttpRequest
  terminate_process pid =
      post_request "/processes/terminate" (some (object (Fields.field "pid" (num pid) Fields.end)))

  unfoldable pub force_kill_process : ℕ → HttpRequest
  force_kill_process pid =
      post_request "/processes/force-kill" (some (object (Fields.field "pid" (num pid) Fields.end)))

  unfoldable pub logs : LogFilters → HttpRequest
  logs f = get_request (append "/logs?" (form (log_query f)))

  unfoldable pub security_events : Option String → Option String → ℕ → HttpRequest
  security_events event_type source_ip limit =
      get_request (security_events_path encode event_type source_ip limit)

  unfoldable pub security_incidents : Option String → ℕ → HttpRequest
  security_incidents event_type limit =
      get_request (security_incidents_path encode event_type limit)

  unfoldable pub security_incident_detail : String → HttpRequest
  security_incident_detail id = get_request (security_incident_detail_path encode id)

  unfoldable pub security_incident_notes : String → ℕ → HttpRequest
  security_incident_notes id limit = get_request (list_notes_path encode id limit)

  unfoldable pub add_security_incident_note : (incident_id note : String) → HttpRequest
  add_security_incident_note id note =
      post_request (incident_notes_path encode id)
        (some (object (Fields.field "note" (str note) Fields.end)))

  unfoldable pub update_security_incident_status : String → IncidentStatus → HttpRequest
  update_security_incident_status id status =
      post_request (incident_status_path encode id)
        (some (object (Fields.field "status" (str (status_name status)) Fields.end)))

  unfoldable pub security_audit : Option String → ℕ → HttpRequest
  security_audit trace_id limit = get_request (security_audit_path encode trace_id limit)

  unfoldable pub block_ip : (ip reason : String) → Option ℕ → HttpRequest
  block_ip ip reason duration = post_request "/security/block" (
      some (
        object (
          Fields.field "ip" (str ip)
            (Fields.field "reason" (str reason) (duration_field duration)))))

  unfoldable pub unblock_ip : String → HttpRequest
  unblock_ip ip =
      post_request "/security/unblock" (some (object (Fields.field "ip" (str ip) Fields.end)))

  unfoldable pub save_security_mode : OperationMode → HttpRequest
  save_security_mode mode =
      post_request "/security/mode"
        (some (object (Fields.field "operation_mode" (str (mode_name mode)) Fields.end)))

  unfoldable pub risk_history : ℕ → HttpRequest
  risk_history points = get_request (append "/risk/history?points=" (decimal points))

  unfoldable pub save_telegram_settings : String → Delivery → HttpRequest
  save_telegram_settings token d =
      post_request "/integrations/telegram"
        (some (object (Fields.field "token" (str token) (delivery_fields d))))

  unfoldable pub send_telegram_test : HttpRequest
  send_telegram_test = post_request "/integrations/telegram/test" none

  unfoldable pub save_slack_settings : String → Delivery → HttpRequest
  save_slack_settings webhook_url d =
      post_request "/integrations/slack"
        (some (object (Fields.field "webhook_url" (str webhook_url) (delivery_fields d))))

  unfoldable pub send_slack_test : HttpRequest
  send_slack_test = post_request "/integrations/slack/test" none
