-- ===== src/Ws/Health.antt =====
-- Runs of web/src/lib/ws.ts in which the page connects only when no earlier socket is left and no
-- reconnection is due.
use ddsds.Common.{
  ◌↔◌, ℕ, suc, ◌-◌, Bool, Option, some, none, ◌≡◌, refl, ◌≢◌, ◌⊎◌, inl, inr, true, false, [], ◌∷◌,
  arith,
}
use ddsds.Ws.{
  Client, closed, opened, closing, is_live, phase_of, initial, connect_ws, disconnect_ws, on_open,
  on_close, on_message, beat, on_timeout, on_live_event, off_live_event, on_status_change,
  off_status_change,
}
use ddsds.Ws.Steps.{Event, Enabled, apply, connect, opens, closes, begins_closing, expires}

-- The last value that the status listeners were called with.
abbrev pub announced : {N : Type 0} → Client N → Option Bool
announced c = elim c.notices [ [] ↦ none | n ∷ rest ↦ some n.1 ]

abbrev pub is_beating : {N : Type 0} → Client N → Bool
is_beating c = elim c.heartbeat_interval [ none ↦ false | some t ↦ c.intervals t ]

pub record IsHealthy {N : Type 0} (c : Client N) : Type 0 where
  pub current : (i : ℕ) → is_live (c.ready_state i) ≡ true → c.socket ≡ some i
  pub told : (i : ℕ) → c.ready_state i ≡ opened → announced c ≡ some true
  pub beating : (i : ℕ) → c.ready_state i ≡ opened → is_beating c ≡ true
  pub no_leak : (t : ℕ) → c.intervals t ≡ true → c.heartbeat_interval ≡ some t
  pub last : (i : ℕ) → c.ready_state i ≢ closed → suc i ≡ c.next_socket
  pub beats_on :
      c.heartbeat_interval ≢ none
      → (c.ready_state (c.next_socket - 1) ≡ opened) ⊎ (c.ready_state (c.next_socket - 1) ≡ closing)
  pub waiting : (t i : ℕ) → c.timeouts t ≡ true → c.ready_state i ≡ closed
  pub due : (t : ℕ) → c.timeouts t ≡ true → c.reconnect_timeout ≡ some t

module _ {N : Type 0} where
  -- `connect` does nothing, or nothing is left of earlier connections.
  abbrev pub Orderly : Event N → Client N → Type 0
  Orderly connect c =
      (is_live (phase_of c c.socket) ≡ true)
      ⊎ (((i : ℕ) → c.ready_state i ≡ closed) × ((t : ℕ) → c.timeouts t ≡ false))
  Orderly e c = Unit

  apply-IsHealthy :
      (e : Event N) (c : Client N) → Enabled e c → Orderly e c → IsHealthy c → IsHealthy (apply e c)
  unfolding apply connect_ws disconnect_ws on_open on_close on_message beat on_timeout on_live_event
      off_live_event on_status_change off_status_change
  apply-IsHealthy connect c en (inl live) h = rw (live, connect_ws) h
  apply-IsHealthy connect c en (inr (none_left, none_due)) h = record {
    current = λ i. ground (arith, h.current i, h.last i, none_left i);
    told = λ i. ground (arith, h.current i, h.told i, h.last i, none_left i);
    beating = λ i. ground (arith, h.current i, h.beating i, h.last i, none_left i);
    no_leak = λ t. ground (arith, h.no_leak t, h.beats_on, none_left (c.next_socket - 1));
    last = λ i. ground (arith, h.last i, h.current i, none_left i);
    beats_on = ground (arith, h.beats_on, none_left (c.next_socket - 1));
    waiting = λ t i. ground (arith, h.waiting t i, h.last i, h.due t, none_left i, none_due t);
    due = λ t. ground (arith, h.due t, none_due t);
  }
  apply-IsHealthy (expires t') c en ok h = record {
    current = λ i. ground (arith, h.current i, h.last i, h.waiting t' i en);
    told = λ i. ground (arith, h.current i, h.told i, h.last i, h.waiting t' i en);
    beating = λ i. ground (arith, h.current i, h.beating i, h.last i, h.waiting t' i en);
    no_leak = λ t.
        ground (arith, h.no_leak t, h.beats_on, h.waiting t' (c.next_socket - 1) en, h.due t' en);
    last = λ i. ground (arith, h.last i, h.current i, h.waiting t' i en);
    beats_on = ground (arith, h.beats_on, h.waiting t' (c.next_socket - 1) en, h.due t' en);
    waiting =
        λ t i. ground (arith, h.waiting t i, h.last i, h.due t, h.waiting t' i en, h.due t' en);
    due = λ t. ground (arith, h.due t, h.due t' en);
  }
  apply-IsHealthy (opens storage j) c en ok h = record {
    current = λ i. ground (arith, h.current i, h.last i, h.last j, h.current j);
    told = λ i. ground (arith, h.current i, h.told i, h.last i, h.last j, h.current j);
    beating = λ i. ground (arith, h.current i, h.beating i, h.last i, h.last j, h.current j);
    no_leak = λ t. ground (arith, h.no_leak t, h.beats_on, h.last j, h.current j);
    last = λ i. ground (arith, h.last i, h.current i, h.last j, h.current j);
    beats_on = ground (arith, h.beats_on, h.last j, h.current j);
    waiting = λ t i. ground (arith, h.waiting t i, h.last i, h.due t, h.last j, h.waiting t j);
    due = λ t. ground (arith, h.due t, h.last j, h.current j);
  }
  apply-IsHealthy (closes j) c en ok h = record {
    current = λ i. ground (arith, h.current i, h.last i, h.last j, h.current j);
    told = λ i. ground (arith, h.current i, h.told i, h.last i, h.last j, h.current j);
    beating = λ i. ground (arith, h.current i, h.beating i, h.last i, h.last j, h.current j);
    no_leak = λ t. ground (arith, h.no_leak t, h.beats_on, h.last j, h.current j);
    last = λ i. ground (arith, h.last i, h.current i, h.last j, h.current j);
    beats_on = ground (arith, h.beats_on, h.last j, h.current j);
    waiting = λ t i. ground (arith, h.waiting t i, h.last i, h.due t, h.last j, h.waiting t j);
    due = λ t. ground (arith, h.due t, h.waiting t j);
  }
  apply-IsHealthy (begins_closing j) c en ok h = record {
    current = λ i. ground (arith, h.current i, h.last i, h.last j, h.current j, h.beats_on);
    told = λ i. ground (arith, h.current i, h.told i, h.last i, h.last j, h.current j, h.beats_on);
    beating =
        λ i. ground (arith, h.current i, h.beating i, h.last i, h.last j, h.current j, h.beats_on);
    no_leak = λ t. ground (arith, h.no_leak t, h.beats_on, h.last j, h.current j, h.beats_on);
    last = λ i. ground (arith, h.last i, h.current i, h.last j, h.current j, h.beats_on);
    beats_on = ground (arith, h.beats_on, h.last j, h.current j, h.beats_on);
    waiting = λ t i. ground (arith, h.waiting t i, h.last i, h.due t, h.last j, h.waiting t j);
    due = λ t. ground (arith, h.due t, h.last j, h.current j, h.beats_on);
  }
  apply-IsHealthy e c en ok h = record {
    current = λ i. ground (arith, h.current i, h.last i);
    told = λ i. ground (arith, h.current i, h.told i, h.last i);
    beating = λ i. ground (arith, h.current i, h.beating i, h.last i);
    no_leak = λ t. ground (arith, h.no_leak t, h.beats_on);
    last = λ i. ground (arith, h.last i, h.current i);
    beats_on = ground (arith, h.beats_on);
    waiting = λ t i. ground (arith, h.waiting t i, h.last i, h.due t);
    due = λ t. ground (arith, h.due t);
  }

initial-IsHealthy : {N : Type 0} → IsHealthy {N = N} initial
unfolding initial
initial-IsHealthy = record {
  current = λ i e. cc;
  told = λ i e. cc;
  beating = λ i e. cc;
  no_leak = λ t e. cc;
  last = λ i e. absurd (e refl);
  beats_on = λ e. absurd (e refl);
  waiting = λ t i e. refl;
  due = λ t e. cc;
}

pub data OrderlyReach {N : Type 0} : Client N → Type 0 where
  start : OrderlyReach initial
  next :
      {c : Client N}
      → OrderlyReach c
      → (e : Event N) → Enabled e c
      → Orderly e c
      → OrderlyReach (apply e c)

pub OrderlyReach-IsHealthy : {N : Type 0} {c : Client N} → OrderlyReach c → IsHealthy c
OrderlyReach-IsHealthy {N} start = initial-IsHealthy {N = N}
OrderlyReach-IsHealthy (next {c = c} r e en ok) =
    apply-IsHealthy e c en ok (OrderlyReach-IsHealthy r)

no_leak_iff :
    {N : Type 0} (c : Client N) (t : ℕ)
    → is_beating c ≡ true
    → (c.intervals t ≡ true → c.heartbeat_interval ≡ some t)
    → (c.intervals t ≡ true) ↔ (c.heartbeat_interval ≡ some t)
no_leak_iff c t b h = (h, λ e. rw e at b)

-- In every run in which the page connects only when no earlier socket is left and no reconnection
-- is due: an open socket is the module's `socket`, the status listeners were last told `true`, and
-- the one interval that is set is the module's heartbeat.
pub OrderlyReach-open :
    {N : Type 0} {c : Client N}
    → OrderlyReach c
    → (i : ℕ) → c.ready_state i ≡ opened
    → (c.socket ≡ some i)
      × (announced c ≡ some true)
      × (is_beating c ≡ true)
      × ((t : ℕ) → (c.intervals t ≡ true) ↔ (c.heartbeat_interval ≡ some t))
OrderlyReach-open {c = c} r i e =
    let h = OrderlyReach-IsHealthy r in
    (
      h.current i (rw e refl),
      h.told i e,
      h.beating i e,
      λ t. no_leak_iff c t (h.beating i e) (h.no_leak t),
    )
