-- ===== src/Api/Templates.antt =====
-- The paths with arguments of web/src/lib/api.ts, as segments and parameters.
use ddsds.Common.{
  ℕ, zero, suc, ◌/◌, ◌%◌, String, Bool, true, false, ◌&&◌, ◌||◌, List, [], ◌∷◌, ◌++◌, Option, ◌≡◌,
  refl, append-nil, sym, ap, ◌∙◌, append_assoc, all, arith, leb, ltb, ◌==◌, if◌then◌else◌,
}
use ddsds.Text.{codes-append, append, codes, digits, digit, decimal}
use ddsds.Api.{
  text_or_empty, metrics_history_path, security_events_path, security_incidents_path,
  security_incident_detail_path, incident_notes_path, incident_status_path, list_notes_path,
  security_audit_path,
}
use ddsds.Api.Addresses.{is_clean, print_segments, print_params, print_address}

-- The characters that `encodeURIComponent` keeps and a server reads as they are.
abbrev pub is_unreserved : ℕ → Bool
is_unreserved c =
    (leb b'0' c && leb c b'9') || ((leb b'a' c && leb c b'z') || (c == b'_' || c == b'-'))

unfoldable pub is_plain : List ℕ → Bool
is_plain = all is_unreserved

is_plain-append : (s t : List ℕ) → is_plain s ≡ true → is_plain t ≡ true → is_plain (s ++ t) ≡ true
unfolding is_plain
is_plain-append [] t h k = k
is_plain-append (c ∷ s) t h k = ground (arith, is_plain-append s t)

pub is_plain-is_clean : (s : List ℕ) → is_plain s ≡ true → is_clean s ≡ true
unfolding is_plain is_clean
is_plain-is_clean [] h = refl
is_plain-is_clean (c ∷ s) h = ground (arith, is_plain-is_clean s)

if-is_plain :
    (b : Bool) (s t : String)
    → is_plain (codes s) ≡ true
    → is_plain (codes t) ≡ true
    → is_plain (codes (if b then s else t)) ≡ true
if-is_plain true s t h k = h
if-is_plain false s t h k = k

digit-is_plain : (n : ℕ) → is_plain (codes (digit n)) ≡ true
unfolding digit is_plain
digit-is_plain n = if-is_plain (n == 0) "0" _ refl (
    if-is_plain (n == 1) "1" _ refl (
      if-is_plain (n == 2) "2" _ refl (
        if-is_plain (n == 3) "3" _ refl (
          if-is_plain (n == 4) "4" _ refl (
            if-is_plain (n == 5) "5" _ refl (
              if-is_plain (n == 6) "6" _ refl
                (if-is_plain (n == 7) "7" _ refl (if-is_plain (n == 8) "8" "9" refl refl))))))))

append-digit :
    (n : ℕ) (s : String) → is_plain (codes s) ≡ true → is_plain (codes (append (digit n) s)) ≡ true
append-digit n s h =
    rw (codes-append (digit n) s) (is_plain-append (codes (digit n)) (codes s) (digit-is_plain n) h)

digits-is_plain :
    (f n : ℕ) (s : String) → is_plain (codes s) ≡ true → is_plain (codes (digits f n s)) ≡ true
unfolding digits
digits-is_plain zero n s h = h
digits-is_plain (suc f) n s h =
    elim (ltb n 10)
      as (λ b.
        is_plain (
          codes (elim b as (λ _. String) [
            | true ↦ append (digit n) s
            | false ↦ digits f (n / 10) (append (digit (n % 10)) s)
          ]))
        ≡ true) [
          | true ↦ append-digit n s h
          | false ↦
              digits-is_plain f (n / 10) (append (digit (n % 10)) s) (append-digit (n % 10) s h)
        ]

pub decimal-is_plain : (n : ℕ) → is_plain (codes (decimal n)) ≡ true
unfolding decimal is_plain
decimal-is_plain n = digits-is_plain (suc n) n "" refl

module _ (encode : String → String) where
  pub history_address :
      (period : String)
      → codes (metrics_history_path encode period)
        ≡ print_address
            (codes "metrics" ∷ codes "history" ∷ [])
            ((codes "period", codes (encode period)) ∷ [])
  unfolding metrics_history_path print_address print_segments print_params
  history_address period =
      codes-append "/metrics/history?period=" (encode period)
      ∙ ap (λ u. codes "/metrics/history?period=" ++ u) (sym (append-nil (codes (encode period))))

  pub events_address :
      (event_type source_ip : Option String) (limit : ℕ)
      → codes (security_events_path encode event_type source_ip limit)
        ≡ print_address (codes "security" ∷ codes "events" ∷ []) (
            (codes "event_type", codes (encode (text_or_empty event_type)))
            ∷ (codes "source_ip", codes (encode (text_or_empty source_ip)))
            ∷ (codes "limit", codes (decimal limit))
            ∷ [])
  unfolding security_events_path print_address print_segments print_params
  events_address event_type source_ip limit = simp (codes-append, append-nil) refl

  pub incidents_address :
      (event_type : Option String) (limit : ℕ)
      → codes (security_incidents_path encode event_type limit)
        ≡ print_address (codes "security" ∷ codes "incidents" ∷ []) (
            (codes "event_type", codes (encode (text_or_empty event_type)))
            ∷ (codes "limit", codes (decimal limit))
            ∷ [])
  unfolding security_incidents_path print_address print_segments print_params
  incidents_address event_type limit = simp (codes-append, append-nil) refl

  pub detail_address :
      (incident_id : String)
      → codes (security_incident_detail_path encode incident_id)
        ≡ print_address
            (codes "security" ∷ codes "incidents" ∷ codes (encode incident_id) ∷ [])
            ([])
  unfolding security_incident_detail_path print_address print_segments print_params
  detail_address incident_id = simp (codes-append, append-nil) refl

  pub notes_address :
      (incident_id : String)
      → codes (incident_notes_path encode incident_id)
        ≡ print_address
            (codes "security" ∷ codes "incidents" ∷ codes (encode incident_id) ∷ codes "notes" ∷ [])
            ([])
  unfolding incident_notes_path print_address print_segments print_params
  notes_address incident_id = simp (codes-append, append-nil) refl

  pub status_address :
      (incident_id : String)
      → codes (incident_status_path encode incident_id)
        ≡ print_address
            (codes "security"
              ∷ codes "incidents"
              ∷ codes (encode incident_id)
              ∷ codes "status"
              ∷ [])
            ([])
  unfolding incident_status_path print_address print_segments print_params
  status_address incident_id = simp (codes-append, append-nil) refl

  pub list_notes_address :
      (incident_id : String) (limit : ℕ)
      → codes (list_notes_path encode incident_id limit)
        ≡ print_address
            (codes "security" ∷ codes "incidents" ∷ codes (encode incident_id) ∷ codes "notes" ∷ [])
            ((codes "limit", codes (decimal limit)) ∷ [])
  unfolding list_notes_path print_address print_segments print_params
  list_notes_address incident_id limit = simp (codes-append, append-nil, append_assoc) refl

  pub audit_address :
      (trace_id : Option String) (limit : ℕ)
      → codes (security_audit_path encode trace_id limit)
        ≡ print_address (codes "security" ∷ codes "audit" ∷ []) (
            (codes "trace_id", codes (encode (text_or_empty trace_id)))
            ∷ (codes "limit", codes (decimal limit))
            ∷ [])
  unfolding security_audit_path print_address print_segments print_params
  audit_address trace_id limit = simp (codes-append, append-nil) refl
