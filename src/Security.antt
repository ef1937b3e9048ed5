-- ===== src/Security.antt =====
-- web/src/pages/Security.tsx: the selection of an incident, the pages of events, the requests that
-- the page sends, and its link to the logs. The query library's data are arguments: a list that is
-- not there yet is `none`.
pub mod Selection
pub mod Blocking
pub mod RelatedLogs
pub mod Queries
use ddsds.Common.{
  ℕ, ◌+◌, ◌-◌, String, Bool, true, false, ◌&&◌, ◌||◌, not, List, [], ◌∷◌, ◌++◌, Option, none, some,
  str_eq, if◌then◌else◌, any, find, length,
}
use ddsds.Text.{truthy, or_else, codes, trim}
use ddsds.Text.Regex.{Regex, seq, alt, sym_of, digit, in_range, one_to_three, plus, matches}
use ddsds.Types.{IncidentStatus, SecurityEvent, SecurityIncident, BlockedIp}
use ddsds.Logs.Address.{entry}
use ddsds.Paging.{total_pages, page_rows, previous_page, next_page, clamp_page}

-- What the page asks of the server.
pub data Request : Type 0 where
  block : (ip reason : String) → Request
  unblock : (ip : String) → Request
  update_status : (incident_id : String) → IncidentStatus → Request
  add_note : (incident_id note : String) → Request

pub record SecurityView : Type 0 where
  pub filter_type : String
  pub block_ip : String
  pub block_reason : String
  pub selected_trace_id : String
  pub selected_incident_id : String
  pub incident_note : String
  pub events_page : ℕ
  -- the newest first
  pub requests : List Request

unfoldable pub initial_view : SecurityView
initial_view = record {
  filter_type = "";
  block_ip = "";
  block_reason = "";
  selected_trace_id = "";
  selected_incident_id = "";
  incident_note = "";
  events_page = 1;
  requests = [];
}

is_dot : ℕ → Bool
is_dot = in_range b'.' b'.'

is_hex_or_colon : ℕ → Bool
is_hex_or_colon c =
    in_range b'0' b'9' c || (in_range b'a' b'f' c || (in_range b'A' b'F' c || in_range b':' b':' c))

octet : Regex
octet = one_to_three digit

-- `IP_RE`: `/^(\d{1,3}\.){3}\d{1,3}$|^[0-9a-fA-F:]+$/`
unfoldable pub ip_re : Regex
unfolding is_dot is_hex_or_colon octet
ip_re =
    alt
      (seq octet (
        seq (sym_of is_dot)
          (seq octet (seq (sym_of is_dot) (seq octet (seq (sym_of is_dot) octet))))))
      (plus (sym_of is_hex_or_colon))

unfoldable pub is_ip : String → Bool
unfolding ip_re matches
is_ip s = matches (codes s) ip_re

abbrev pub same_id : String → SecurityIncident → Bool
same_id id incident = str_eq incident.id id

abbrev first : List SecurityIncident → Option SecurityIncident
first [] = none
first (i ∷ is) = some i

abbrev or_first : Option SecurityIncident → List SecurityIncident → Option SecurityIncident
or_first (some i) is = some i
or_first none is = first is

abbrev list_or_empty {ℓ} : {A : Type ℓ} → Option (List A) → List A
list_or_empty none = []
list_or_empty (some xs) = xs

-- `selectedIncident`
unfoldable pub selected_incident :
    Option (List SecurityIncident) → SecurityView → Option SecurityIncident
selected_incident incidents v =
    or_first (find (same_id v.selected_incident_id) (list_or_empty incidents))
      (list_or_empty incidents)

-- `setSelectedIncidentId`, and the effect that empties the note when the identifier changes.
unfoldable pub set_selected_incident_id : String → SecurityView → SecurityView
set_selected_incident_id id v =
    if str_eq id v.selected_incident_id
    then v
    else record v { selected_incident_id = id; incident_note = "" }

unfoldable pub kept_or_first : List SecurityIncident → String → String
kept_or_first [] current = ""
kept_or_first (i ∷ is) current =
    if truthy current && any (same_id current) (i ∷ is) then current else i.id

-- The effect on a change of the incidents.
unfoldable pub on_incidents : Option (List SecurityIncident) → SecurityView → SecurityView
unfolding set_selected_incident_id kept_or_first
on_incidents incidents v =
    set_selected_incident_id (kept_or_first (list_or_empty incidents) v.selected_incident_id) v

-- The page of events goes back to the first on a change of the filter.
unfoldable pub set_filter_type : String → SecurityView → SecurityView
set_filter_type type v = record v { filter_type = type; events_page = 1 }

unfoldable pub total_event_pages : Option (List SecurityEvent) → ℕ
total_event_pages events = total_pages (length (list_or_empty events))

unfoldable pub paged_events : Option (List SecurityEvent) → SecurityView → List SecurityEvent
paged_events events v = page_rows v.events_page (list_or_empty events)

unfoldable pub previous_events : SecurityView → SecurityView
previous_events v = record v { events_page = previous_page v.events_page }

unfoldable pub next_events : ℕ → SecurityView → SecurityView
next_events total v = record v { events_page = next_page total v.events_page }

unfoldable pub clamp_events : ℕ → SecurityView → SecurityView
clamp_events total v = record v { events_page = clamp_page total v.events_page }

unfoldable pub selected_incident_blocked : Option (List BlockedIp) → Option SecurityIncident → Bool
selected_incident_blocked blocked none = false
selected_incident_blocked blocked (some i) =
    truthy i.source_ip && any (λ row. str_eq row.ip i.source_ip) (list_or_empty blocked)

abbrev pub request : Request → SecurityView → SecurityView
request r v = record v { requests = r ∷ v.requests }

-- `handleBlock`; `manual_block` is the text of the current language for a missing reason.
unfoldable pub handle_block : String → SecurityView → SecurityView
handle_block manual_block v =
    let ip = trim v.block_ip in
    if not (truthy ip) || not (is_ip ip) then v else record v {
      requests = block ip (or_else (trim v.block_reason) manual_block) ∷ v.requests;
      block_ip = "";
      block_reason = "";
    }

-- The button of the table of blocked addresses.
unfoldable pub handle_unblock : String → SecurityView → SecurityView
handle_unblock ip v = request (unblock ip) v

unfoldable pub handle_incident_status :
    Option SecurityIncident → IncidentStatus → SecurityView → SecurityView
handle_incident_status none status v = v
handle_incident_status (some i) status v = request (update_status i.id status) v

unfoldable pub handle_add_incident_note : Option SecurityIncident → SecurityView → SecurityView
handle_add_incident_note none v = v
handle_add_incident_note (some i) v =
    let note = trim v.incident_note in if truthy note then request (add_note i.id note) v else v

-- The button that blocks the source of the incident: it is there if the source is known and not
-- blocked.
unfoldable pub block_source :
    Option (List BlockedIp) → Option SecurityIncident → SecurityView → SecurityView
block_source blocked none v = v
block_source blocked (some i) v =
    if truthy i.source_ip && not (selected_incident_blocked blocked (some i))
    then request (block i.source_ip i.summary) v
    else v

-- The answer to a note that was added.
unfoldable pub on_note_added : SecurityView → SecurityView
on_note_added v = record v { incident_note = "" }

unfoldable pub set_block_ip : String → SecurityView → SecurityView
set_block_ip text v = record v { block_ip = text }

unfoldable pub set_block_reason : String → SecurityView → SecurityView
set_block_reason text v = record v { block_reason = text }

unfoldable pub set_incident_note : String → SecurityView → SecurityView
set_incident_note text v = record v { incident_note = text }

unfoldable pub set_selected_trace_id : String → SecurityView → SecurityView
set_selected_trace_id id v = record v { selected_trace_id = id }

-- The log source of an event type.
source_of : String → List (String × String)
source_of type =
    if str_eq type "ssh_brute_force"
    then ("source", "auth") ∷ []
    else if any (λ s. str_eq s type) ("sqli" ∷ "xss" ∷ "path_traversal" ∷ [])
    then ("source", "nginx") ∷ []
    else if str_eq type "port_scan"
    then ("source", "firewall") ∷ []
    else []

-- The address of `openRelatedLogs`; `utc_minutes t` is `new Date(t * 1000).toISOString()` cut to the
-- minutes.
unfoldable pub open_related_logs : (ℕ → String) → String → String → ℕ → List (String × String)
unfolding source_of
open_related_logs utc_minutes source_ip type timestamp =
    entry "ip" source_ip
    ++ (("event_type", type)
        ∷ ("from", utc_minutes (timestamp - 300))
        ∷ ("to", utc_minutes (timestamp + 300))
        ∷ source_of type)
