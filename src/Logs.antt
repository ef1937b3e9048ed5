-- ===== src/Logs.antt =====
-- web/src/hooks/useLogs.ts, the query of `api.logs` in web/src/lib/api.ts, and the filters of
-- web/src/pages/Logs.tsx with their copy in the address. Timestamps are whole seconds.
pub mod Window
pub mod Address
pub mod Highlight
use ddsds.Common.{
  ℕ, ◌-◌, String, Bool, true, false, ◌&&◌, ◌||◌, not, List, [], ◌∷◌, ◌++◌, Option, none, some, ltb,
  leb, ◌==◌, str_eq, if◌then◌else◌, filter, length, drop,
}
use ddsds.Text.{truthy, or_else, decimal, includes, codes, trim, is_space}
use ddsds.Text.Regex.{Regex, seq, alt, star, sym_of, literal_i, any_char, plus, test}

pub record LogEntry : Type 0 where
  pub timestamp : ℕ
  pub source : String
  pub line : String
  pub file : String

pub record LogFilters : Type 0 where
  pub source : Option String
  pub limit : ℕ
  pub from_ts : Option ℕ
  pub to_ts : Option ℕ
  pub query : Option String
  pub ip : Option String
  pub event_type : Option String

unfoldable pub is_log_in_range : LogEntry → Option ℕ → Option ℕ → Bool
is_log_in_range entry from_ts to_ts =
    (elim from_ts [ none ↦ true | some t ↦ leb t entry.timestamp ])
    && (elim to_ts [ none ↦ true | some t ↦ leb entry.timestamp t ])

space : Regex
space = sym_of is_space

-- `/failed password/i`
ssh_pattern : Regex
ssh_pattern = literal_i (codes "failed password")

-- `/union\s+select|or\s+1\s*=\s*1|select\s+.*\s+from/i`
sqli_pattern : Regex
sqli_pattern =
    alt (seq (literal_i (codes "union")) (seq (plus space) (literal_i (codes "select")))) (
      alt
        (seq (literal_i (codes "or")) (
          seq (plus space) (
            seq (literal_i (codes "1")) (
              seq (star space)
                (seq (literal_i (codes "=")) (seq (star space) (literal_i (codes "1"))))))))
        (seq (literal_i (codes "select"))
          (seq (plus space) (seq (star any_char) (seq (plus space) (literal_i (codes "from")))))))

any_of : List String → Regex
any_of [] = Regex.nothing
any_of (s ∷ ss) = alt (literal_i (codes s)) (any_of ss)

-- `/<script|javascript:|onerror=|onload=/i`
xss_pattern : Regex
xss_pattern = any_of ("<script" ∷ "javascript:" ∷ "onerror=" ∷ "onload=" ∷ [])

-- `/\.\.\/|\.\.\\|%2e%2e/i`
traversal_pattern : Regex
traversal_pattern = any_of ("../" ∷ "..\\" ∷ "%2e%2e" ∷ [])

-- `/UFW BLOCK|UFW AUDIT|iptables|nftables|kernel:/i`
port_scan_pattern : Regex
port_scan_pattern = any_of ("UFW BLOCK" ∷ "UFW AUDIT" ∷ "iptables" ∷ "nftables" ∷ "kernel:" ∷ [])

-- The part of `matchesInvestigationQuery` for an event type that is given.
unfoldable pub matches_event_type : LogEntry → String → Bool
unfolding space ssh_pattern sqli_pattern xss_pattern traversal_pattern port_scan_pattern any_of
    literal_i test is_space
matches_event_type entry event_type =
    let line = codes entry.line in
    if str_eq event_type "ssh_brute_force"
    then str_eq entry.source "auth" && test ssh_pattern line
    else if str_eq event_type "sqli"
    then str_eq entry.source "nginx" && test sqli_pattern line
    else if str_eq event_type "xss"
    then str_eq entry.source "nginx" && test xss_pattern line
    else if str_eq event_type "path_traversal"
    then str_eq entry.source "nginx" && test traversal_pattern line
    else if str_eq event_type "port_scan"
    then test port_scan_pattern line
    else true

-- `if (v) params.set(key, v)` and `if (n != null) params.set(key, String(n))`
text_param : String → Option String → List (String × String)
text_param key none = []
text_param key (some v) = if truthy v then (key, v) ∷ [] else []

number_param : String → Option ℕ → List (String × String)
number_param key none = []
number_param key (some n) = (key, decimal n) ∷ []

-- The query of `api.logs`.
unfoldable pub log_query : LogFilters → List (String × String)
unfolding text_param number_param
log_query f =
    ("source", (elim f.source [ none ↦ "" | some s ↦ s ]))
    ∷ ("limit", decimal f.limit)
    ∷ (number_param "from_ts" f.from_ts
        ++ (number_param "to_ts" f.to_ts
            ++ (text_param "q" f.query
                ++ (text_param "ip" f.ip ++ text_param "event_type" f.event_type))))

-- A test that applies only if the text is given and not empty.
abbrev if_given : Option String → (String → Bool) → Bool
if_given none p = true
if_given (some s) p = if truthy s then p s else true

-- The hook's state: the filters it runs with, and the live entries.
pub record LiveLogs : Type 0 where
  pub filters : LogFilters
  pub entries : List LogEntry

-- `xs.slice(-500)`
abbrev pub last_entries : ℕ → List LogEntry → List LogEntry
last_entries n xs = drop (length xs - n) xs

abbrev pub kept_logs : ℕ
kept_logs = 500

-- A change of the filters clears the live entries; `limit` is not among what the effect watches.
unfoldable pub change_filters : LogFilters → LiveLogs → LiveLogs
change_filters f s = record { filters = f; entries = [] }

unfoldable pub clear_live : LiveLogs → LiveLogs
clear_live s = record s { entries = [] }

-- What the hook returns: the entries of the query, if it has any, and the live ones.
unfoldable pub all_logs : Option (List LogEntry) → LiveLogs → List LogEntry
all_logs none s = s.entries
all_logs (some loaded) s = loaded ++ s.entries

module _ (to_lower : String → String) where
  unfoldable pub matches_investigation_query :
      LogEntry → Option String → Option String → Option String → Bool
  matches_investigation_query entry query ip event_type =
      if_given query (λ q. includes (to_lower entry.line) (to_lower q))
      && (if_given ip (λ a. includes entry.line a)
          && if_given event_type (matches_event_type entry))

  -- What the live listener lets through.
  unfoldable pub accepts : LogFilters → LogEntry → Bool
  accepts f entry =
      if_given f.source (λ s. str_eq entry.source s)
      && (is_log_in_range entry f.from_ts f.to_ts
          && matches_investigation_query entry f.query f.ip f.event_type)

  -- The listener on a live message of the type `log` with this entry; it ignores other types.
  unfoldable pub receive : LogEntry → LiveLogs → LiveLogs
  receive entry s =
      if accepts s.filters entry
      then record s { entries = last_entries kept_logs (s.entries ++ entry ∷ []) }
      else s

  -- The list that the page shows.
  unfoldable pub filtered_logs : String → List LogEntry → List LogEntry
  filtered_logs search logs =
      let normalized = to_lower (trim search) in
      filter (λ log. not (truthy normalized) || includes (to_lower log.line) normalized) logs
