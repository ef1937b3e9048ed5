-- ===== src/Processes.antt =====
-- web/src/pages/Processes.tsx: the table of processes, its sorting, search and pages, and the two
-- actions on a process. `N` is the type of the CPU loads (doubles), compared by a parameter, as are
-- texts by `localeCompare`; the lower case of a text is a parameter too.
pub mod Order
pub mod Safety
pub mod Pages
use Prim.Native.Nat.{compare, Ordering}
use ddsds.Common.{
  ℕ, ◌*◌, String, Bool, true, false, ◌&&◌, ◌||◌, not, List, [], ◌∷◌, Option, none, some, ltb, ◌==◌,
  str_eq, if◌then◌else◌, filter, any, length,
}
use ddsds.Common.Sort.{sort_by}
use ddsds.Text.{truthy, decimal, includes}
use text.Mathlib.Text.{starts_with}
use ddsds.Paging.{total_pages, page_rows, previous_page, next_page, clamp_page}

pub record ProcessInfo (N : Type 0) : Type 0 where
  pub pid : ℕ
  pub name : String
  pub cpu : N
  pub ram : ℕ
  pub start_time : Option N

pub data SortKey : Type 0 where
  by_name by_cpu by_ram by_pid : SortKey

pub data SortDir : Type 0 where
  asc desc : SortDir

pub data KillAction : Type 0 where
  terminate force_kill : KillAction

-- The state of a mutation of the query library; a request that is pending is known by its number.
pub data Mutation : Type 0 where
  idle succeeded failed : Mutation
  pending : ℕ → Mutation

abbrev pub protected_process_names : List String
protected_process_names =
    "nullius-agent" ∷ "nullius-api" ∷ "sshd" ∷ "nginx" ∷ "systemd" ∷ "systemd-journald"
    ∷ "systemd-logind" ∷ []

unfoldable pub is_protected_process : {N : Type 0} → ProcessInfo N → Bool
is_protected_process p =
    any (λ n. str_eq n p.name) protected_process_names
    || (starts_with p.name "systemd-" || starts_with p.name "kworker")

pub record View (N : Type 0) : Type 0 where
  pub sort_key : SortKey
  pub sort_dir : SortDir
  pub search : String
  pub page : ℕ
  pub selected_process : Option (ProcessInfo N)
  pub selected_action : KillAction
  pub action_notice : String
  pub terminate_mutation : Mutation
  pub force_kill_mutation : Mutation
  -- the requests that were sent, the newest first
  pub requests : List (KillAction × ProcessInfo N)

unfoldable pub initial_view : {N : Type 0} → View N
initial_view = record {
  sort_key = by_cpu;
  sort_dir = desc;
  search = "";
  page = 1;
  selected_process = none;
  selected_action = terminate;
  action_notice = "";
  terminate_mutation = idle;
  force_kill_mutation = idle;
  requests = [];
}

abbrev pub is_pending : Mutation → Bool
is_pending (pending request) = true
is_pending idle = false
is_pending succeeded = false
is_pending failed = false

abbrev same_key : SortKey → SortKey → Bool
same_key by_name by_name = true
same_key by_cpu by_cpu = true
same_key by_ram by_ram = true
same_key by_pid by_pid = true
same_key _ _ = false

abbrev pub flip_dir : SortDir → SortDir
flip_dir asc = desc
flip_dir desc = asc

abbrev is_lt : Ordering → Bool
is_lt Ordering.lt = true
is_lt Ordering.eq = false
is_lt Ordering.gt = false

abbrev is_gt : Ordering → Bool
is_gt Ordering.lt = false
is_gt Ordering.eq = false
is_gt Ordering.gt = true

-- The state `m` that an answer leads to. A mutation follows its last request only, and after a reset
-- it follows none.
settle : (request : ℕ) → (m current : Mutation) → Mutation
settle request m (pending n) = if n == request then m else pending n
settle request m idle = idle
settle request m succeeded = succeeded
settle request m failed = failed

module _ {N : Type 0} where
  module _ (to_lower : String → String) where
    unfoldable pub matches_search : String → ProcessInfo N → Bool
    matches_search q p = includes (to_lower p.name) q || includes (decimal p.pid) q

    unfoldable pub found : String → List (ProcessInfo N) → List (ProcessInfo N)
    found search processes =
        if truthy search then filter (matches_search (to_lower search)) processes else processes

  module _ (compare_loads : N → N → Ordering) (locale_compare : String → String → Ordering) where
    -- The sign of the comparison by a key.
    unfoldable pub compare_by : SortKey → ProcessInfo N → ProcessInfo N → Ordering
    compare_by by_name a b = locale_compare a.name b.name
    compare_by by_cpu a b = compare_loads a.cpu b.cpu
    compare_by by_ram a b = compare a.ram b.ram
    compare_by by_pid a b = compare a.pid b.pid

    -- The comparison, negated for the falling order, is negative.
    unfoldable pub goes_before : SortKey → SortDir → ProcessInfo N → ProcessInfo N → Bool
    goes_before key asc a b = is_lt (compare_by key a b)
    goes_before key desc a b = is_gt (compare_by key a b)

    module _ (to_lower : String → String) where
      -- The memo `sorted`, of the processes that the query has, if it has any.
      unfoldable pub sorted : Option (List (ProcessInfo N)) → View N → List (ProcessInfo N)
      unfolding found
      sorted none v = sort_by (goes_before v.sort_key v.sort_dir) (found to_lower v.search [])
      sorted (some ps) v = sort_by (goes_before v.sort_key v.sort_dir) (found to_lower v.search ps)

      unfoldable pub paged_processes : Option (List (ProcessInfo N)) → View N → List (ProcessInfo N)
      paged_processes ps v = page_rows v.page (sorted ps v)

  -- The effect on a change of the search or of the order.
  reset_page : View N → View N
  reset_page v = record v { page = 1 }

  unfoldable pub handle_sort : SortKey → View N → View N
  unfolding reset_page
  handle_sort key v = reset_page (
      if same_key v.sort_key key
      then record v { sort_dir = flip_dir v.sort_dir }
      else record v { sort_key = key; sort_dir = desc })

  unfoldable pub set_search : String → View N → View N
  unfolding reset_page
  set_search s v = reset_page (record v { search = s })

  unfoldable pub go_previous : View N → View N
  go_previous v = record v { page = previous_page v.page }

  unfoldable pub go_next : ℕ → View N → View N
  go_next total v = record v { page = next_page total v.page }

  -- The effect on a change of the number of pages.
  unfoldable pub clamp : ℕ → View N → View N
  clamp total v = record v { page = clamp_page total v.page }

  -- The buttons of a row: they reset both mutations and ask for a confirmation.
  unfoldable pub select : KillAction → ProcessInfo N → View N → View N
  select action p v = record v {
    terminate_mutation = idle;
    force_kill_mutation = idle;
    action_notice = "";
    selected_action = action;
    selected_process = some p;
  }

  -- A row has the two buttons only if its process is not protected.
  unfoldable pub press_row : KillAction → ProcessInfo N → View N → View N
  unfolding select
  press_row action p v = if is_protected_process p then v else select action p v

  send : KillAction → ProcessInfo N → View N → View N
  send terminate p v = record v {
    terminate_mutation = pending (length v.requests);
    requests = (terminate, p) ∷ v.requests;
  }
  send force_kill p v = record v {
    force_kill_mutation = pending (length v.requests);
    requests = (force_kill, p) ∷ v.requests;
  }

  -- The button that confirms is there while a process is selected, and disabled while a mutation
  -- is pending.
  unfoldable pub confirm : View N → View N
  unfolding send
  confirm v =
      if is_pending v.terminate_mutation || is_pending v.force_kill_mutation
      then v
      else elim v.selected_process [ none ↦ v | some p ↦ send v.selected_action p v ]

  unfoldable pub cancel : View N → View N
  cancel v = record v {
    selected_process = none;
    terminate_mutation = idle;
    force_kill_mutation = idle;
  }

  set_mutation : ℕ → KillAction → Mutation → View N → View N
  unfolding settle
  set_mutation request terminate m v = record v {
    terminate_mutation = settle request m v.terminate_mutation;
  }
  set_mutation request force_kill m v = record v {
    force_kill_mutation = settle request m v.force_kill_mutation;
  }

  -- The answer to the request of this number. `onSuccess` runs for every answer, and `queued` is its
  -- notice in the current language.
  unfoldable pub on_success : (request : ℕ) → KillAction → String → View N → View N
  unfolding set_mutation settle
  on_success request action queued v =
      set_mutation request action succeeded
        (record v { action_notice = queued; selected_process = none })

  unfoldable pub on_error : (request : ℕ) → KillAction → View N → View N
  unfolding set_mutation settle
  on_error request action v = set_mutation request action failed v
