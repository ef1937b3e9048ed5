-- ===== src/Ws/Single.antt =====
-- The sockets of web/src/lib/ws.ts in any run.
use ddsds.Common.{ℕ, some, ◌≡◌, refl, ◌≤◌, true, arith}
use ddsds.Ws.{
  Client, closed, is_live, initial, connect_ws, disconnect_ws, on_open, on_close, on_message, beat,
  on_timeout, on_live_event, off_live_event, on_status_change, off_status_change,
}
use ddsds.Ws.Steps.{Event, Enabled, apply, Reach, connect, start, next}

pub record IsSingle {N : Type 0} (c : Client N) : Type 0 where
  pub only : (i : ℕ) → is_live (c.ready_state i) ≡ true → c.socket ≡ some i
  pub fresh : (i : ℕ) → c.next_socket ≤ i → c.ready_state i ≡ closed

apply-IsSingle :
    {N : Type 0} (e : Event N) (c : Client N) → Enabled e c → IsSingle c → IsSingle (apply e c)
unfolding apply connect_ws disconnect_ws on_open on_close on_message beat on_timeout on_live_event
    off_live_event on_status_change off_status_change
apply-IsSingle connect c en h = record {
  only = λ i. ground (arith, h.only i, h.fresh i);
  fresh = λ i. ground (arith, h.fresh i);
}
apply-IsSingle e c en h = record {
  only = λ i. ground (arith, h.only i, h.fresh i);
  fresh = λ i. ground (arith, h.fresh i);
}

initial-IsSingle : {N : Type 0} → IsSingle {N = N} initial
unfolding initial
initial-IsSingle = record { only = λ i e. cc; fresh = λ i h. refl }

-- In every state that can be reached, however the page connects and disconnects and in whatever
-- order the browser's events come, each socket that is connecting or open is the module's `socket`:
-- there are never two connections at a time.
pub Reach-IsSingle : {N : Type 0} {c : Client N} → Reach c → IsSingle c
Reach-IsSingle {N} start = initial-IsSingle {N = N}
Reach-IsSingle (next {c = c} r e en) = apply-IsSingle e c en (Reach-IsSingle r)
