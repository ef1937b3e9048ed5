-- ===== src/Tests/Pages.antt =====
-- The pages of web/src/pages at concrete data.
use Prim.Native.Nat.{compare, Ordering}
use mathlib.Core.List.{Mem}
use ddsds.Common.{
  zero, suc, ℕ, ◌-◌, ◌+◌, ◌%◌, ◌*◌, ◌/◌, ◌≤◌, ◌<◌, String, true, false, ◌&&◌, List, [], ◌∷◌, none,
  some, ◌≡◌, refl, if◌then◌else◌, filter, length, All, arith, any,
}
use ddsds.Common.Sort.{sort_by}
use ddsds.Text.{codes, truthy}
use ddsds.Types.{IncidentStatus, Severity, SecurityIncident}
use ddsds.Paging.{per_page, total_pages, page_rows}
use ddsds.Paging.Cover.{pages_from, pages_from-total_pages, page_rows-pos}
use ddsds.Processes.{
  ProcessInfo, View, by_name, terminate, is_protected_process, goes_before, found, sorted,
  paged_processes, clamp, handle_sort, press_row, confirm,
}
use ddsds.Processes
use ddsds.Processes.Safety
use ddsds.Processes.Order.{IsTable, sorted-IsTable, compare-IsComparison, IsComparison}
use ddsds.Processes.Safety.{Event, Enabled, run, run-requests, presses, confirms, sorts, searches}
use ddsds.Processes.Pages.{paged_processes-pos}
use ddsds.Logs.{LogEntry, LogFilters, LiveLogs, last_entries, kept_logs, accepts, change_filters}
use ddsds.Logs.Window.{receive_all, receive_all-change_filters}
use ddsds.Logs.Address.{PageFilters, read_address, write_address, read_address-write_address}
use ddsds.Security.{SecurityView, same_id, selected_incident, on_incidents, handle_block}
use ddsds.Security
use ddsds.Security.Selection.{on_incidents-selected}
use ddsds.Security.Blocking.{Outcome, handle_block-Outcome}
use ddsds.Security.RelatedLogs.{in_linked_range, related_logs_utc, related_logs_behind}

abbrev rows : List ℕ
rows = 1 ∷ 2 ∷ 3 ∷ 4 ∷ 5 ∷ 6 ∷ 7 ∷ 8 ∷ 9 ∷ 10 ∷ 11 ∷ []

pages_from-total_pages_example :
    (pages_from 1 (total_pages (length rows)) rows ≡ rows)
    × ((page : ℕ) → length (page_rows (page + 1) rows) ≤ per_page)
pages_from-total_pages_example = pages_from-total_pages rows

two_pages : 2 ≤ total_pages (length rows)
unfolding total_pages
two_pages = omega arith

page_rows-pos_example : 0 < length (page_rows 2 rows)
page_rows-pos_example = page_rows-pos 2 rows (omega arith) (omega arith) two_pages

abbrev process : ℕ → String → ProcessInfo ℕ
process pid name = record { pid = pid; name = name; cpu = 5; ram = 2048; start_time = none }

abbrev processes : List (ProcessInfo ℕ)
processes = process 12 "sshd" ∷ process 80 "node" ∷ process 7 "bash" ∷ []

abbrev compare_lengths : String → String → Ordering
compare_lengths s t = compare (length (codes s)) (length (codes t))

compare_lengths-IsComparison : IsComparison compare_lengths
compare_lengths-IsComparison = record {
  flip = λ a b. compare-IsComparison.flip (length (codes a)) (length (codes b));
  trans =
      λ a b c. compare-IsComparison.trans (length (codes a)) (length (codes b)) (length (codes c));
}

abbrev same_text : String → String
same_text s = s

abbrev opened_page : View ℕ
opened_page = Processes.initial_view

abbrev searching : View ℕ
searching = record Processes.initial_view { search = "s" }

sorted-IsTable_example :
    IsTable compare compare_lengths same_text processes searching
      (sorted compare compare_lengths same_text (some processes) searching)
sorted-IsTable_example =
    sorted-IsTable compare-IsComparison compare_lengths-IsComparison same_text processes searching

abbrev inputs : List (Event ℕ)
inputs =
    sorts by_name
    ∷ presses terminate (process 12 "sshd")
    ∷ presses terminate (process 80 "node")
    ∷ confirms
    ∷ []

inputs-Enabled : All Enabled inputs
inputs-Enabled = (tt, (tt, (tt, (tt, tt))))

run-requests_example : All (λ r. is_protected_process r.1 ≡ false) (run inputs opened_page).requests
run-requests_example = run-requests inputs inputs-Enabled

some_found :
    0 < length (sorted compare compare_lengths same_text (some processes) (run inputs opened_page))
unfolding sorted run Processes.initial_view handle_sort press_row confirm Safety.apply found sort_by
    goes_before Processes.compare_by is_protected_process
some_found = omega arith

paged_processes-pos_example :
    0
    < length (
        paged_processes compare compare_lengths same_text (some processes) (
          clamp
            (total_pages (
              length (
                sorted compare compare_lengths same_text
                  (some processes)
                  (run inputs opened_page))))
            (run inputs opened_page)))
paged_processes-pos_example =
    paged_processes-pos compare compare_lengths same_text inputs (some processes) inputs-Enabled
      some_found

abbrev log : ℕ → String → LogEntry
log timestamp line = record {
  timestamp = timestamp;
  source = "auth";
  line = line;
  file = "/var/log/auth.log";
}

abbrev no_filters : LogFilters
no_filters = record {
  source = some "auth";
  limit = 200;
  from_ts = some 50;
  to_ts = none;
  query = none;
  ip = none;
  event_type = none;
}

abbrev live : LiveLogs
live = record { filters = no_filters; entries = log 1 "old" ∷ [] }

receive_all-change_filters_example :
    (receive_all same_text (log 60 "a" ∷ log 40 "b" ∷ []) (change_filters no_filters live)).entries
    ≡ last_entries kept_logs (filter (accepts same_text no_filters) (log 60 "a" ∷ log 40 "b" ∷ []))
receive_all-change_filters_example =
    receive_all-change_filters same_text no_filters live (log 60 "a" ∷ log 40 "b" ∷ [])

abbrev page_filters : PageFilters
page_filters = record {
  source = "nginx";
  search = "select";
  ip_filter = "";
  event_type_filter = "sqli";
  from_date_time = "2024-05-01T10:00";
  to_date_time = "";
}

read_address-write_address_example : read_address (write_address page_filters) ≡ page_filters
read_address-write_address_example = read_address-write_address page_filters

abbrev incident : String → SecurityIncident
incident id = record {
  id = id;
  title = "SQL injection";
  type = "sqli";
  source_ip = "10.0.0.7";
  severity = Severity.high;
  status = IncidentStatus.new;
  event_count = 3;
  suppressed_count = 0;
  repeat_count = 0;
  first_seen = 100;
  last_seen = 200;
  latest_event_id = 9;
  latest_trace_id = none;
  latest_action_taken = none;
  signal_source = none;
  confidence = none;
  recommended_action = none;
  evidence_types = [];
  summary = "";
  note_count = 0;
  status_updated_at = 0;
}

abbrev looking : SecurityView
looking = record Security.initial_view { selected_incident_id = "b" }

on_incidents-selected_example :
    (shown : SecurityIncident) × (selected_incident
        (some (incident "a" ∷ incident "b" ∷ []))
        (on_incidents (some (incident "a" ∷ incident "b" ∷ [])) looking)
      ≡ some shown)
    × ((on_incidents (some (incident "a" ∷ incident "b" ∷ [])) looking).selected_incident_id
        ≡ shown.id)
    × Mem shown (incident "a" ∷ incident "b" ∷ [])
    × ((on_incidents (some (incident "a" ∷ incident "b" ∷ [])) looking).selected_incident_id ≡ (
        if truthy looking.selected_incident_id
          && any (same_id looking.selected_incident_id) (incident "a" ∷ incident "b" ∷ [])
        then looking.selected_incident_id
        else "a"))
on_incidents-selected_example = on_incidents-selected (incident "a") (incident "b" ∷ []) looking

abbrev blocking : SecurityView
blocking = record Security.initial_view { block_ip = " 10.0.0.7 "; block_reason = "" }

handle_block-Outcome_example : Outcome "manual" blocking (handle_block "manual" blocking)
handle_block-Outcome_example = handle_block-Outcome "manual" blocking

-- A clock that writes the minutes since the start of time as that many marks.
abbrev marks : ℕ → String
marks zero = String.◌∷◌ "m" ""
marks (suc n) = String.◌∷◌ "m" (marks n)

marks-truthy : (n : ℕ) → truthy (marks n) ≡ true
marks-truthy zero = refl
marks-truthy (suc n) = refl

length-codes-marks : (n : ℕ) → length (codes (marks n)) ≡ n + 1
length-codes-marks zero = refl
length-codes-marks (suc n) = omega (arith, length-codes-marks n)

abbrev utc_marks : ℕ → String
utc_marks t = marks (t / 60)

abbrev marks_of : ℕ → String → ℕ
marks_of behind s = (length (codes s) - 1) * 60 + behind

zone_marks : (behind t : ℕ) → marks_of behind (utc_marks t) ≡ t - t % 60 + behind
zone_marks behind t = omega (arith, length-codes-marks (t / 60))

related_logs_utc_example :
    in_linked_range utc_marks (marks_of 0) (log 1000 "x") "10.0.0.7" "sqli" 1200 ≡ true
related_logs_utc_example =
    related_logs_utc utc_marks (marks_of 0) (λ t. marks-truthy (t / 60)) (zone_marks 0)
      (log 1000 "x") "10.0.0.7" "sqli" 1200 (omega arith) (omega arith)

related_logs_behind_example :
    in_linked_range utc_marks (marks_of 18000) (log 1200 "x") "10.0.0.7" "sqli" 1200 ≡ false
related_logs_behind_example =
    related_logs_behind utc_marks (marks_of 18000) 18000 (λ t. marks-truthy (t / 60))
      (zone_marks 18000) (log 1200 "x") "10.0.0.7" "sqli" 1200 (omega arith) refl
