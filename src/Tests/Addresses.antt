-- ===== src/Tests/Addresses.antt =====
-- Paths of web/src/lib/api.ts, with a small escape: `%` and a letter for each mark and for `%`.
use Prim.Native.Char.{Char, code}
use ddsds.Common.{
  ℕ, String, Bool, true, false, List, [], ◌∷◌, ◌++◌, none, some, ◌≡◌, refl, ap, ◌∙◌, arith, ◌==◌,
  if◌then◌else◌,
}
use ddsds.Text.{codes-append, append, codes, decimal}
use ddsds.Api.{
  metrics_history_path, security_events_path, security_incidents_path,
  security_incident_detail_path, incident_notes_path, incident_status_path, list_notes_path,
  security_audit_path,
}
use ddsds.Api.Addresses.{is_clean, read_address}
use ddsds.Api.Roundtrip.{read_address-paths}
use ddsds.Api.Templates.{is_plain}

-- What stands for the character.
abbrev piece : Char → String
piece c =
    if code c == b'?'
    then "%q"
    else if code c == b'&'
    then "%a"
    else if code c == b'='
    then "%e"
    else if code c == b'/'
    then "%s"
    else if code c == b'%'
    then "%p"
    else String.◌∷◌ c ""

abbrev escape : String → String
escape String.[] = ""
escape (String.◌∷◌ c s) = append (piece c) (escape s)

abbrev original : ℕ → ℕ
original c =
    if c == b'q'
    then b'?'
    else if c == b'a'
    then b'&'
    else if c == b'e'
    then b'='
    else if c == b's'
    then b'/'
    else b'%'

-- After `%`, and elsewhere.
abbrev unescape : Bool → List ℕ → List ℕ
unescape b [] = []
unescape true (c ∷ t) = original c ∷ unescape false t
unescape false (c ∷ t) = elim (c == b'%') [ true ↦ unescape true t | false ↦ c ∷ unescape false t ]

codes-if : (b : Bool) (s t : String) → codes (if b then s else t) ≡ (if b then codes s else codes t)
codes-if true s t = refl
codes-if false s t = refl

unescape-piece :
    (c : Char) (t : List ℕ) → unescape false (codes (piece c) ++ t) ≡ code c ∷ unescape false t
unescape-piece c t = simp codes-if (ground arith)

is_clean-piece : (c : Char) → is_clean (codes (piece c)) ≡ true
unfolding is_clean
is_clean-piece c = simp codes-if (ground arith)

is_clean-append : (s t : List ℕ) → is_clean s ≡ true → is_clean t ≡ true → is_clean (s ++ t) ≡ true
unfolding is_clean
is_clean-append [] t h k = k
is_clean-append (c ∷ s) t h k = ground (arith, is_clean-append s t)

is_clean-escape : (s : String) → is_clean (codes (escape s)) ≡ true
unfolding is_clean
is_clean-escape String.[] = refl
is_clean-escape (String.◌∷◌ c s) =
    rw (codes-append (piece c) (escape s))
      (is_clean-append (codes (piece c)) (codes (escape s)) (is_clean-piece c) (is_clean-escape s))

unescape-escape : (s : String) → unescape false (codes (escape s)) ≡ codes s
unescape-escape String.[] = refl
unescape-escape (String.◌∷◌ c s) =
    ap (unescape false) (codes-append (piece c) (escape s))
    ∙ unescape-piece c (codes (escape s))
    ∙ ap (λ u. code c ∷ u) (unescape-escape s)

unescape-is_plain : (s : List ℕ) → is_plain s ≡ true → unescape false s ≡ s
unfolding is_plain
unescape-is_plain [] h = refl
unescape-is_plain (c ∷ s) h = ground (arith, unescape-is_plain s)

abbrev injected : String
injected = "x&limit=1000?/"

read_address-paths_example :
    (read_address (unescape false) (codes (metrics_history_path escape "1h"))
      ≡ (codes "metrics" ∷ codes "history" ∷ [], (codes "period", codes "1h") ∷ []))
    × (read_address (unescape false) (codes (security_events_path escape (some injected) none 50))
        ≡ (
          codes "security" ∷ codes "events" ∷ [],
          (codes "event_type", codes injected)
              ∷ (codes "source_ip", codes "")
              ∷ (codes "limit", codes (decimal 50))
              ∷ [],
        ))
    × (read_address (unescape false) (codes (security_incidents_path escape (some injected) 50)) ≡ (
      codes "security" ∷ codes "incidents" ∷ [],
      (codes "event_type", codes injected) ∷ (codes "limit", codes (decimal 50)) ∷ [],
    ))
    × (read_address (unescape false) (codes (security_incident_detail_path escape injected))
        ≡ (codes "security" ∷ codes "incidents" ∷ codes injected ∷ [], []))
    × (read_address (unescape false) (codes (incident_notes_path escape injected))
        ≡ (codes "security" ∷ codes "incidents" ∷ codes injected ∷ codes "notes" ∷ [], []))
    × (read_address (unescape false) (codes (incident_status_path escape injected))
        ≡ (codes "security" ∷ codes "incidents" ∷ codes injected ∷ codes "status" ∷ [], []))
    × (read_address (unescape false) (codes (list_notes_path escape injected 50)) ≡ (
      codes "security" ∷ codes "incidents" ∷ codes injected ∷ codes "notes" ∷ [],
      (codes "limit", codes (decimal 50)) ∷ [],
    ))
    × (read_address (unescape false) (codes (security_audit_path escape (some "%=") 50)) ≡ (
      codes "security" ∷ codes "audit" ∷ [],
      (codes "trace_id", codes "%=") ∷ (codes "limit", codes (decimal 50)) ∷ [],
    ))
read_address-paths_example =
    read_address-paths escape (unescape false) is_clean-escape unescape-escape unescape-is_plain
      "1h" injected (some injected) none (some "%=") 50
