-- ===== src/Dashboard.antt =====
-- web/src/pages/Dashboard.tsx and the cards of web/src/components/metrics: what the page shows, in
-- order, over what its queries have given so far. Loads and bytes are natural numbers; the two charts
-- are those of Chart, and here only their labels. Parameters are the formats of dates and numbers,
-- `toFixed(1)` of a fraction, lower case, the rounding to doubles, the clock, and what
-- JSON.parse makes of the disks.
pub mod Spoken
use ddsds.Common.{
  ℕ, ◌*◌, ◌+◌, ◌-◌, String, Bool, true, false, ◌&&◌, ◌||◌, not, List, [], ◌∷◌, ◌++◌, Option, none,
  some, take, length, get_elem?, ltb, ◌==◌, if◌then◌else◌,
}
use ddsds.Text.{append, truthy, trim}
use ddsds.Types.{SecurityEvent, Severity, confidence_name}
use ddsds.I18n.State.{Messages}
use ddsds.Format.Bytes.{format_bytes}
use ddsds.Format.Age.{format_relative_age}
use ddsds.Format.Event.{format_event_description}
use ddsds.Format.Labels.{
  format_event_type, format_event_source, format_signal_source, format_confidence,
  format_event_explanation,
}
use ddsds.Ui.{Shown, words, status_badge, severity_badge, fact, told, named, shown_if, either_of}

pub record Metrics : Type 0 where
  pub id : ℕ
  pub timestamp : ℕ
  pub cpu_total : ℕ
  pub cpu_cores : String
  pub ram_used : ℕ
  pub ram_total : ℕ
  pub disk : String
  pub network_rx : ℕ
  pub network_tx : ℕ
  pub load_avg : String

pub data ServiceStatus : Type 0 where
  running stopped failed : ServiceStatus

pub record ServiceInfo : Type 0 where
  pub name : String
  pub status : ServiceStatus
  pub pid : ℕ
  pub uptime : ℕ
  pub updated_at : ℕ

pub record Disk : Type 0 where
  pub used : ℕ
  pub total : ℕ

pub record DashboardQueries : Type 0 where
  pub metrics : Option Metrics
  pub metrics_error : Bool
  pub history : Option (List Metrics)
  pub history_error : Bool
  pub services : Option (List ServiceInfo)
  pub services_error : Bool
  pub events : Option (List SecurityEvent)
  pub events_error : Bool

abbrev said : String → Shown
said = words "dashboard"

abbrev pub status_name : ServiceStatus → String
status_name running = "running"
status_name stopped = "stopped"
status_name failed = "failed"

abbrev pub severity_name : Severity → String
severity_name Severity.low = "low"
severity_name Severity.medium = "medium"
severity_name Severity.high = "high"
severity_name Severity.critical = "critical"

-- `rows ?? []`
abbrev pub rows_of {ℓ} : {A : Type ℓ} → Option (List A) → List A
rows_of none = []
rows_of (some rows) = rows

abbrev pub field_or {ℓ} : {A : Type 0} {B : Type ℓ} → (A → B) → B → Option A → B
field_or f d none = d
field_or f d (some a) = f a

unfoldable pub has_critical_issue : DashboardQueries → Bool
has_critical_issue q = q.metrics_error || (q.history_error || (q.services_error || q.events_error))

abbrev timestamp_of : Option Metrics → Option ℕ
timestamp_of none = none
timestamp_of (some m) = some m.timestamp

unfoldable pub last_metrics_timestamp : DashboardQueries → Option ℕ
last_metrics_timestamp q = elim q.metrics [
  | some m ↦ some m.timestamp
  | none ↦
      (let h = rows_of q.history in
        if length h == 0 then none else timestamp_of (get_elem? h (length h - 1)))
]

abbrev nonzero : Option ℕ → Bool
nonzero none = false
nonzero (some n) = ltb 0 n

-- A share in per cent is `100 * part / whole`; of a whole of zero it is zero.
pub record Percent : Type 0 where
  pub part : ℕ
  pub whole : ℕ

unfoldable pub percent_of : (part whole : ℕ) → Percent
percent_of part whole =
    if ltb 0 whole
    then record { part = 100 * part; whole = whole }
    else record { part = 0; whole = 1 }

-- The colour above 80, above 60, and else.
unfoldable pub gauge_color : Percent → String → String
gauge_color p base =
    if ltb (80 * p.whole) p.part
    then "var(--color-accent-red)"
    else if ltb (60 * p.whole) p.part
    then "var(--color-accent-yellow)"
    else base

-- The first disk of the list, if the text is a list of disks.
unfoldable pub disk_percent : Option (List Disk) → Percent
unfolding percent_of
disk_percent none = record { part = 0; whole = 1 }
disk_percent (some []) = record { part = 0; whole = 1 }
disk_percent (some (d ∷ ds)) = percent_of d.used d.total

-- The message of an error, if there is one.
abbrev pub error_if : Bool → List Shown
error_if e = shown_if e (words "common" "error" ∷ [])

abbrev is_empty {ℓ} : {A : Type ℓ} → List A → Bool
is_empty [] = true
is_empty (a ∷ rest) = false

unfoldable pub service_rows : List ServiceInfo → List Shown
service_rows [] = []
service_rows (s ∷ ss) = fact s.name ∷ status_badge (status_name s.status) ∷ service_rows ss

unfoldable pub services_card : DashboardQueries → List Shown
unfolding service_rows
services_card q =
    said "services"
    ∷ (error_if q.services_error
        ++ (service_rows (take 8 (rows_of q.services))
            ++ shown_if (is_empty (rows_of q.services) && not q.services_error)
                (said "noServices" ∷ words "common" "noDataHint" ∷ [])))

-- `format_date_time`, the number format of `formatBytes`, `toFixed(1)`, lower case, the rounding to
-- doubles, `JSON.parse` of the disks, the messages, and the current time in seconds.
module _ (format_date_time : ℕ → String) (number_format : String → ℕ → ℕ → ℕ → String)
    (to_fixed : Percent → String) (to_lower_case : String → String) (to_double : ℕ → ℕ)
    (parse_disks : String → Option (List Disk)) (m : Messages) (now : ℕ) where
  percent_text : Percent → String
  percent_text p = append (to_fixed p) "%"

  bytes_text : ℕ → Bool → String
  bytes_text n per_second = format_bytes number_format m n false per_second

  unfoldable pub cpu_card : ℕ → List Shown
  unfolding percent_text
  cpu_card value = said "cpu" ∷ fact (percent_text (record { part = value; whole = 1 })) ∷ []

  unfoldable pub ram_card : (used total : ℕ) → List Shown
  unfolding percent_text bytes_text
  ram_card used total =
      said "ram"
      ∷ fact (percent_text (percent_of used total))
      ∷ fact (append (bytes_text used false) (append " / " (bytes_text total false)))
      ∷ []

  unfoldable pub disk_card : String → List Shown
  unfolding percent_text
  disk_card disk =
      said "disk"
      ∷ fact (percent_text (disk_percent (parse_disks (if truthy disk then disk else "[]"))))
      ∷ []

  unfoldable pub network_card : (rx tx : ℕ) → List Shown
  unfolding bytes_text
  network_card rx tx =
      said "network"
      ∷ said "incomingTraffic"
      ∷ fact (bytes_text rx true)
      ∷ said "outgoingTraffic"
      ∷ fact (bytes_text tx true)
      ∷ []

  unfoldable pub event_row : SecurityEvent → List Shown
  event_row e =
      severity_badge (severity_name e.severity)
      ∷ fact (format_event_type m e.type)
      ∷ (shown_if (truthy e.description) (
            fact (format_event_description to_lower_case to_double m e.description (some e.type))
            ∷ [])
          ++ told m (format_event_explanation m e.explanation_code)
            ∷ told m (format_signal_source m e.signal_source)
            ∷ fact " • "
            ∷ named m "—" (format_confidence m (confidence_name e.confidence))
            ∷ named m (trim e.source_ip) (format_event_source m (some e.source_ip))
            ∷ named m "—" (format_relative_age m now (some e.timestamp))
            ∷ [])

  unfoldable pub event_rows : List SecurityEvent → List Shown
  unfolding event_row
  event_rows [] = []
  event_rows (e ∷ es) = event_row e ++ event_rows es

  unfoldable pub state_card : DashboardQueries → List Shown
  unfolding has_critical_issue last_metrics_timestamp
  state_card q =
      said "systemState"
      ∷ either_of (has_critical_issue q) (said "systemAttention") (said "systemHealthy")
      ∷ said "lastUpdate"
      ∷ fact (
          if nonzero (last_metrics_timestamp q)
          then field_or format_date_time "" (last_metrics_timestamp q)
          else "—")
      ∷ said "dataFreshness"
      ∷ named m "—" (format_relative_age m now (last_metrics_timestamp q))
      ∷ []

  unfoldable pub metric_cards : DashboardQueries → List Shown
  unfolding cpu_card ram_card disk_card network_card
  metric_cards q =
      error_if q.metrics_error
      ++ (cpu_card (field_or (λ x. x.cpu_total) 0 q.metrics)
          ++ (ram_card (field_or (λ x. x.ram_used) 0 q.metrics)
                (field_or (λ x. x.ram_total) 1 q.metrics)
              ++ (disk_card (field_or (λ x. x.disk) "[]" q.metrics)
                  ++ network_card (field_or (λ x. x.network_rx) 0 q.metrics)
                      (field_or (λ x. x.network_tx) 0 q.metrics))))

  unfoldable pub events_card : DashboardQueries → List Shown
  unfolding event_rows
  events_card q =
      said "recentEvents"
      ∷ (error_if q.events_error
          ++ (event_rows (take 5 (rows_of q.events))
              ++ shown_if (is_empty (rows_of q.events) && not q.events_error)
                  (said "noEvents" ∷ words "common" "noDataHint" ∷ [])))

  unfoldable pub dashboard : DashboardQueries → List Shown
  unfolding state_card metric_cards services_card events_card
  dashboard q =
      said "title"
      ∷ said "summary"
      ∷ (state_card q
          ++ (metric_cards q
              ++ (error_if q.history_error
                  ++ (said "cpuHistory" ∷ said "ramHistory" ∷ (services_card q ++ events_card q)))))
