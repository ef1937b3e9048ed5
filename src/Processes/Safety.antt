-- ===== src/Processes/Safety.antt =====
-- Runs of web/src/pages/Processes.tsx, and the requests that they send.
use ddsds.Common.{ℕ, ◌≤◌, ◌≡◌, String, false, List, [], ◌∷◌, Option, none, some, All, arith}
use ddsds.Processes.{
  ProcessInfo, SortKey, KillAction, View, initial_view, is_protected_process, handle_sort,
  set_search, go_previous, go_next, clamp, press_row, confirm, cancel, on_success, on_error,
}
use ddsds.Paging.{previous_page, next_page, clamp_page}

-- What happens to the page: the operator's inputs, the effect on the number of pages, the answers.
pub data Event (N : Type 0) : Type 0 where
  sorts : SortKey → Event N
  searches : String → Event N
  previous : Event N
  next clamps : ℕ → Event N
  presses : KillAction → ProcessInfo N → Event N
  confirms cancels : Event N
  succeeds : (request : ℕ) → KillAction → String → Event N
  fails : (request : ℕ) → KillAction → Event N

module _ {N : Type 0} where
  -- There is at least one page.
  abbrev pub Enabled : Event N → Type 0
  Enabled (next total) = 1 ≤ total
  Enabled (clamps total) = 1 ≤ total
  Enabled e = Unit

  unfoldable pub apply : Event N → View N → View N
  apply (sorts key) v = handle_sort key v
  apply (searches s) v = set_search s v
  apply previous v = go_previous v
  apply (next total) v = go_next total v
  apply (clamps total) v = clamp total v
  apply (presses action p) v = press_row action p v
  apply confirms v = confirm v
  apply cancels v = cancel v
  apply (succeeds request action queued) v = on_success request action queued v
  apply (fails request action) v = on_error request action v

  unfoldable pub run : List (Event N) → View N → View N
  run [] v = v
  run (e ∷ es) v = run es (apply e v)

  abbrev IsAllowed : Option (ProcessInfo N) → Type 0
  IsAllowed none = Unit
  IsAllowed (some p) = is_protected_process p ≡ false

  record IsSafe (v : View N) : Type 0 where
    pub selected : IsAllowed v.selected_process
    pub sent : All (λ r. is_protected_process r.1 ≡ false) v.requests
    pub page : 1 ≤ v.page

  apply-IsSafe : (e : Event N) (v : View N) → Enabled e → IsSafe v → IsSafe (apply e v)
  unfolding apply handle_sort set_search go_previous go_next clamp press_row confirm cancel
      on_success on_error previous_page next_page clamp_page
  apply-IsSafe previous v en h = record {
    selected = h.selected;
    sent = h.sent;
    page = ground arith;
  }
  apply-IsSafe e v en h = record {
    selected = ground arith;
    sent = ground arith;
    page = ground arith;
  }

  run-IsSafe : (es : List (Event N)) (v : View N) → All Enabled es → IsSafe v → IsSafe (run es v)
  unfolding run
  run-IsSafe [] v en h = h
  run-IsSafe (e ∷ es) v en h = run-IsSafe es (apply e v) en.1 (apply-IsSafe e v en.0 h)

  initial_view-IsSafe : IsSafe initial_view
  unfolding initial_view
  initial_view-IsSafe = record { selected = tt; sent = tt; page = omega arith }

  -- Whatever the operator does with the controls that the page offers, and however the requests are
  -- answered, no request to end a protected process is sent.
  pub run-requests :
      (es : List (Event N))
      → All Enabled es
      → All (λ r. is_protected_process r.1 ≡ false) (run es initial_view).requests
  run-requests es en = (run-IsSafe es initial_view en initial_view-IsSafe).sent

  pub run-page-pos : (es : List (Event N)) → All Enabled es → 1 ≤ (run es initial_view).page
  run-page-pos es en = (run-IsSafe es initial_view en initial_view-IsSafe).page
