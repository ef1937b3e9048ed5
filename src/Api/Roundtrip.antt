-- ===== src/Api/Roundtrip.antt =====
-- The paths with arguments of web/src/lib/api.ts, and what a server reads in them.
use ddsds.Common.{ℕ, String, true, List, [], ◌∷◌, Option, ◌≡◌, refl}
use ddsds.Text.{codes, decimal}
use ddsds.Api.{
  text_or_empty, metrics_history_path, security_events_path, security_incidents_path,
  security_incident_detail_path, incident_notes_path, incident_status_path, list_notes_path,
  security_audit_path,
}
use ddsds.Api.Addresses.{is_clean, read_address}
use ddsds.Api.Pieces.{Piece, word, number, IsRead, read_pieces}
use ddsds.Api.Templates.{
  is_plain, is_plain-is_clean, decimal-is_plain, history_address, events_address, incidents_address,
  detail_address, notes_address, status_address, list_notes_address, audit_address,
}

-- `encode` is `encodeURIComponent`, and `decode` is how a server reads a segment, name or value.
-- No escaped text has a mark, `decode` undoes the escapes, and it keeps a text without any.
module _ (encode : String → String) (decode : List ℕ → List ℕ)
    (clean : (s : String) → is_clean (codes (encode s)) ≡ true)
    (back : (s : String) → decode (codes (encode s)) ≡ codes s)
    (plain : (s : List ℕ) → is_plain s ≡ true → decode s ≡ s) where
  word-IsRead : (s : String) → is_plain (codes s) ≡ true → IsRead decode (word s)
  word-IsRead s h = (is_plain-is_clean (codes s) h, plain (codes s) h)

  abbrev escaped : String → Piece
  escaped s = (codes (encode s), codes s)

  escaped-IsRead : (s : String) → IsRead decode (escaped s)
  escaped-IsRead s = (clean s, back s)

  number-IsRead : (n : ℕ) → IsRead decode (number n)
  number-IsRead n = word-IsRead (decimal n) (decimal-is_plain n)

  read-history :
      (period : String)
      → read_address decode (codes (metrics_history_path encode period))
        ≡ (codes "metrics" ∷ codes "history" ∷ [], (codes "period", codes period) ∷ [])
  unfolding is_plain
  read-history period =
      read_pieces decode (codes (metrics_history_path encode period)) (word "metrics")
        (word "history" ∷ []) ((word "period", escaped period) ∷ []) (history_address encode period)
        (word-IsRead "metrics" refl, (word-IsRead "history" refl, tt))
        ((word-IsRead "period" refl, escaped-IsRead period), tt)

  read-events :
      (event_type source_ip : Option String) (limit : ℕ)
      → read_address decode (codes (security_events_path encode event_type source_ip limit)) ≡ (
        codes "security" ∷ codes "events" ∷ [],
        (codes "event_type", codes (text_or_empty event_type))
            ∷ (codes "source_ip", codes (text_or_empty source_ip))
            ∷ (codes "limit", codes (decimal limit))
            ∷ [],
      )
  unfolding is_plain
  read-events event_type source_ip limit =
      read_pieces decode (codes (security_events_path encode event_type source_ip limit))
        (word "security") (word "events" ∷ [])
        ((word "event_type", escaped (text_or_empty event_type))
          ∷ (word "source_ip", escaped (text_or_empty source_ip))
          ∷ (word "limit", number limit)
          ∷ [])
        (events_address encode event_type source_ip limit)
        (word-IsRead "security" refl, (word-IsRead "events" refl, tt))
        (
          (word-IsRead "event_type" refl, escaped-IsRead (text_or_empty event_type)),
          (
            (word-IsRead "source_ip" refl, escaped-IsRead (text_or_empty source_ip)),
            ((word-IsRead "limit" refl, number-IsRead limit), tt),
          ),
        )

  read-incidents :
      (event_type : Option String) (limit : ℕ)
      → read_address decode (codes (security_incidents_path encode event_type limit)) ≡ (
        codes "security" ∷ codes "incidents" ∷ [],
        (codes "event_type", codes (text_or_empty event_type))
            ∷ (codes "limit", codes (decimal limit))
            ∷ [],
      )
  unfolding is_plain
  read-incidents event_type limit =
      read_pieces decode (codes (security_incidents_path encode event_type limit)) (word "security")
        (word "incidents" ∷ [])
        ((word "event_type", escaped (text_or_empty event_type))
          ∷ (word "limit", number limit)
          ∷ [])
        (incidents_address encode event_type limit)
        (word-IsRead "security" refl, (word-IsRead "incidents" refl, tt))
        (
          (word-IsRead "event_type" refl, escaped-IsRead (text_or_empty event_type)),
          ((word-IsRead "limit" refl, number-IsRead limit), tt),
        )

  read-detail :
      (incident_id : String)
      → read_address decode (codes (security_incident_detail_path encode incident_id))
        ≡ (codes "security" ∷ codes "incidents" ∷ codes incident_id ∷ [], [])
  unfolding is_plain
  read-detail incident_id =
      read_pieces decode (codes (security_incident_detail_path encode incident_id))
        (word "security") (word "incidents" ∷ escaped incident_id ∷ []) ([])
        (detail_address encode incident_id)
        (
          word-IsRead "security" refl,
          (word-IsRead "incidents" refl, (escaped-IsRead incident_id, tt)),
        )
        tt

  read-notes :
      (incident_id : String)
      → read_address decode (codes (incident_notes_path encode incident_id))
        ≡ (codes "security" ∷ codes "incidents" ∷ codes incident_id ∷ codes "notes" ∷ [], [])
  unfolding is_plain
  read-notes incident_id =
      read_pieces decode (codes (incident_notes_path encode incident_id)) (word "security")
        (word "incidents" ∷ escaped incident_id ∷ word "notes" ∷ []) ([])
        (notes_address encode incident_id)
        (
          word-IsRead "security" refl,
          (
            word-IsRead "incidents" refl,
            (escaped-IsRead incident_id, (word-IsRead "notes" refl, tt)),
          ),
        )
        tt

  read-status :
      (incident_id : String)
      → read_address decode (codes (incident_status_path encode incident_id))
        ≡ (codes "security" ∷ codes "incidents" ∷ codes incident_id ∷ codes "status" ∷ [], [])
  unfolding is_plain
  read-status incident_id =
      read_pieces decode (codes (incident_status_path encode incident_id)) (word "security")
        (word "incidents" ∷ escaped incident_id ∷ word "status" ∷ []) ([])
        (status_address encode incident_id)
        (
          word-IsRead "security" refl,
          (
            word-IsRead "incidents" refl,
            (escaped-IsRead incident_id, (word-IsRead "status" refl, tt)),
          ),
        )
        tt

  read-list_notes :
      (incident_id : String) (limit : ℕ)
      → read_address decode (codes (list_notes_path encode incident_id limit)) ≡ (
        codes "security" ∷ codes "incidents" ∷ codes incident_id ∷ codes "notes" ∷ [],
        (codes "limit", codes (decimal limit)) ∷ [],
      )
  unfolding is_plain
  read-list_notes incident_id limit =
      read_pieces decode (codes (list_notes_path encode incident_id limit)) (word "security")
        (word "incidents" ∷ escaped incident_id ∷ word "notes" ∷ [])
        ((word "limit", number limit) ∷ []) (list_notes_address encode incident_id limit)
        (
          word-IsRead "security" refl,
          (
            word-IsRead "incidents" refl,
            (escaped-IsRead incident_id, (word-IsRead "notes" refl, tt)),
          ),
        )
        ((word-IsRead "limit" refl, number-IsRead limit), tt)

  read-audit :
      (trace_id : Option String) (limit : ℕ)
      → read_address decode (codes (security_audit_path encode trace_id limit)) ≡ (
        codes "security" ∷ codes "audit" ∷ [],
        (codes "trace_id", codes (text_or_empty trace_id))
            ∷ (codes "limit", codes (decimal limit))
            ∷ [],
      )
  unfolding is_plain
  read-audit trace_id limit =
      read_pieces decode (codes (security_audit_path encode trace_id limit)) (word "security")
        (word "audit" ∷ [])
        ((word "trace_id", escaped (text_or_empty trace_id)) ∷ (word "limit", number limit) ∷ [])
        (audit_address encode trace_id limit)
        (word-IsRead "security" refl, (word-IsRead "audit" refl, tt))
        (
          (word-IsRead "trace_id" refl, escaped-IsRead (text_or_empty trace_id)),
          ((word-IsRead "limit" refl, number-IsRead limit), tt),
        )

  -- If no escaped text has one of the marks of an address, if a server undoes the escapes, and if it
  -- reads a text of letters, digits, `_` and `-` as it stands, then whatever the period, the
  -- identifier, the filters and the limit are, a server reads in each of the eight paths with
  -- arguments the segments and the parameters of its template, with exactly these arguments.
  pub read_address-paths :
      (period incident_id : String) (event_type source_ip trace_id : Option String) (limit : ℕ)
      → (read_address decode (codes (metrics_history_path encode period))
          ≡ (codes "metrics" ∷ codes "history" ∷ [], (codes "period", codes period) ∷ []))
        × (read_address decode (codes (security_events_path encode event_type source_ip limit)) ≡ (
          codes "security" ∷ codes "events" ∷ [],
          (codes "event_type", codes (text_or_empty event_type))
              ∷ (codes "source_ip", codes (text_or_empty source_ip))
              ∷ (codes "limit", codes (decimal limit))
              ∷ [],
        ))
        × (read_address decode (codes (security_incidents_path encode event_type limit)) ≡ (
          codes "security" ∷ codes "incidents" ∷ [],
          (codes "event_type", codes (text_or_empty event_type))
              ∷ (codes "limit", codes (decimal limit))
              ∷ [],
        ))
        × (read_address decode (codes (security_incident_detail_path encode incident_id))
            ≡ (codes "security" ∷ codes "incidents" ∷ codes incident_id ∷ [], []))
        × (read_address decode (codes (incident_notes_path encode incident_id))
            ≡ (codes "security" ∷ codes "incidents" ∷ codes incident_id ∷ codes "notes" ∷ [], []))
        × (read_address decode (codes (incident_status_path encode incident_id))
            ≡ (codes "security" ∷ codes "incidents" ∷ codes incident_id ∷ codes "status" ∷ [], []))
        × (read_address decode (codes (list_notes_path encode incident_id limit)) ≡ (
          codes "security" ∷ codes "incidents" ∷ codes incident_id ∷ codes "notes" ∷ [],
          (codes "limit", codes (decimal limit)) ∷ [],
        ))
        × (read_address decode (codes (security_audit_path encode trace_id limit)) ≡ (
          codes "security" ∷ codes "audit" ∷ [],
          (codes "trace_id", codes (text_or_empty trace_id))
              ∷ (codes "limit", codes (decimal limit))
              ∷ [],
        ))
  read_address-paths period incident_id event_type source_ip trace_id limit = (
    read-history period,
    read-events event_type source_ip limit,
    read-incidents event_type limit,
    read-detail incident_id,
    read-notes incident_id,
    read-status incident_id,
    read-list_notes incident_id limit,
    read-audit trace_id limit,
  )
