-- ===== src/Security/RelatedLogs.antt =====
-- The link of web/src/pages/Security.tsx from an event to the logs around it, through the address, to
-- the range that web/src/pages/Logs.tsx asks for.
use ddsds.Common.{ℕ, ◌+◌, ◌-◌, ◌%◌, ◌≤◌, String, Bool, true, false, some, ◌≡◌, refl, ◌∙◌, arith}
use ddsds.Text.{truthy}
use ddsds.Logs.{LogEntry, is_log_in_range}
use ddsds.Logs.Address.{PageFilters, read_address, get_text-other, page_timestamp}
use ddsds.I18n.Template.{lookup}
use ddsds.Security.{open_related_logs}

module _ (utc_minutes : ℕ → String) (parse_local : String → ℕ) where
  -- The filters of the logs page at the address of the link.
  abbrev pub linked : String → String → ℕ → PageFilters
  linked source_ip type timestamp =
      read_address (open_related_logs utc_minutes source_ip type timestamp)

  abbrev pub in_linked_range : LogEntry → String → String → ℕ → Bool
  in_linked_range e source_ip type timestamp =
      is_log_in_range e
        (page_timestamp parse_local (linked source_ip type timestamp).from_date_time)
        (page_timestamp parse_local (linked source_ip type timestamp).to_date_time)

  linked-from :
      (source_ip type : String) (timestamp : ℕ)
      → (linked source_ip type timestamp).from_date_time ≡ utc_minutes (timestamp - 300)
  unfolding read_address open_related_logs lookup
  linked-from source_ip type timestamp = get_text-other "from" "ip" source_ip _ refl

  linked-to :
      (source_ip type : String) (timestamp : ℕ)
      → (linked source_ip type timestamp).to_date_time ≡ utc_minutes (timestamp + 300)
  unfolding read_address open_related_logs lookup
  linked-to source_ip type timestamp = get_text-other "to" "ip" source_ip _ refl

  module _ (behind : ℕ) (texts : (t : ℕ) → truthy (utc_minutes t) ≡ true)
      (zone : (t : ℕ) → parse_local (utc_minutes t) ≡ t - t % 60 + behind) where
    range_lem :
        (e : LogEntry) (source_ip type : String) (timestamp : ℕ)
        → in_linked_range e source_ip type timestamp
          ≡ is_log_in_range e
              (some (timestamp - 300 - (timestamp - 300) % 60 + behind))
              (some (timestamp + 300 - (timestamp + 300) % 60 + behind))
    range_lem e source_ip type timestamp =
        rw
          (
            linked-from source_ip type timestamp,
            linked-to source_ip type timestamp,
            texts (timestamp - 300),
            texts (timestamp + 300),
            zone (timestamp - 300),
            zone (timestamp + 300),
          )
          refl

-- In a browser whose time zone is UTC the time range of the link from an event to the logs holds the
-- timestamp of every log entry of the four minutes before and after the event. Only the range is
-- meant: the link also asks for the address and the type of the event.
pub related_logs_utc :
    (utc_minutes : ℕ → String) (parse_local : String → ℕ)
    (texts : (t : ℕ) → truthy (utc_minutes t) ≡ true)
    (zone : (t : ℕ) → parse_local (utc_minutes t) ≡ t - t % 60 + 0) (e : LogEntry)
    (source_ip type : String) (timestamp : ℕ)
    → timestamp ≤ e.timestamp + 240
    → e.timestamp ≤ timestamp + 240
    → in_linked_range utc_minutes parse_local e source_ip type timestamp ≡ true
unfolding is_log_in_range
related_logs_utc utc_minutes parse_local texts zone e source_ip type timestamp h k =
    range_lem utc_minutes parse_local 0 texts zone e source_ip type timestamp ∙ ground arith

-- In a browser whose time zone is six minutes or more behind UTC the link asks for a range that
-- leaves out the entries of the event's own second: the link writes the range in UTC, and the logs
-- page reads it in the zone of the browser.
pub related_logs_behind :
    (utc_minutes : ℕ → String) (parse_local : String → ℕ) (behind : ℕ)
    (texts : (t : ℕ) → truthy (utc_minutes t) ≡ true)
    (zone : (t : ℕ) → parse_local (utc_minutes t) ≡ t - t % 60 + behind) (e : LogEntry)
    (source_ip type : String) (timestamp : ℕ)
    → 360 ≤ behind
    → e.timestamp ≡ timestamp
    → in_linked_range utc_minutes parse_local e source_ip type timestamp ≡ false
unfolding is_log_in_range
related_logs_behind utc_minutes parse_local behind texts zone e source_ip type timestamp h k =
    range_lem utc_minutes parse_local behind texts zone e source_ip type timestamp ∙ ground arith
