-- ===== src/Ws/Offline.antt =====
-- `disconnectWS` of web/src/lib/ws.ts for good, and the reconnection after a lost connection.
use ddsds.Common.{ℕ, some, ◌≡◌, refl, ap, ◌≢◌, true, false, arith}
use ddsds.Ws.{
  Client, connecting, is_live, connect_ws, disconnect_ws, on_open, on_close, on_message, beat,
  on_timeout, on_live_event, off_live_event, on_status_change, off_status_change,
}
use ddsds.Ws.Steps.{Event, Enabled, apply, connect, opens, begins_closing, expires}
use ddsds.Ws.Health.{IsHealthy, OrderlyReach, OrderlyReach-IsHealthy}

-- No connection, none on its way, and nothing that would make one.
pub record IsOffline {N : Type 0} (c : Client N) : Type 0 where
  pub unwanted : c.should_reconnect ≡ false
  pub none_live : (i : ℕ) → is_live (c.ready_state i) ≡ false
  pub none_due : (t : ℕ) → c.timeouts t ≡ false

disconnect_ws-IsOffline : {N : Type 0} (c : Client N) → IsHealthy c → IsOffline (disconnect_ws c)
unfolding disconnect_ws
disconnect_ws-IsOffline c h = record {
  unwanted = ground arith;
  none_live = λ i. ground (arith, h.current i);
  none_due = λ t. ground (arith, h.due t);
}

apply-IsOffline :
    {N : Type 0} (e : Event N) (c : Client N)
    → Enabled e c
    → e ≢ connect
    → IsOffline c
    → IsOffline (apply e c)
unfolding apply connect_ws disconnect_ws on_open on_close on_message beat on_timeout on_live_event
    off_live_event on_status_change off_status_change
apply-IsOffline connect c en ne h = absurd (ne refl)
apply-IsOffline (opens storage j) c en ne h = cc (h.none_live j, ap is_live en)
apply-IsOffline (expires t) c en ne h = cc (h.none_due t, en)
apply-IsOffline (begins_closing j) c en ne h = cc (h.none_live j, ap is_live en)
apply-IsOffline e c en ne h = record {
  unwanted = ground (arith, h.unwanted);
  none_live = λ i. ground (arith, h.none_live i, h.unwanted);
  none_due = λ t. ground (arith, h.none_due t, h.unwanted);
}

-- The states that follow without a call of `connectWS` by the page.
pub data After {N : Type 0} (c : Client N) : Client N → Type 0 where
  here : After c c
  next :
      {d : Client N} → After c d → (e : Event N) → Enabled e d → e ≢ connect → After c (apply e d)

After-IsOffline : {N : Type 0} {c d : Client N} → IsOffline c → After c d → IsOffline d
After-IsOffline h here = h
After-IsOffline h (next {d = d} a e en ne) = apply-IsOffline e d en ne (After-IsOffline h a)

-- After `disconnectWS` in an orderly run, whatever events of the browser follow, no socket is
-- connecting or open and no reconnection is due, until the page calls `connectWS` again.
pub After-disconnect_ws :
    {N : Type 0} {c d : Client N} → OrderlyReach c → After (disconnect_ws c) d → IsOffline d
After-disconnect_ws {c} r a =
    After-IsOffline (disconnect_ws-IsOffline c (OrderlyReach-IsHealthy r)) a

-- When the current socket closes and the page has not disconnected, a timeout is set, and when it
-- runs out a new socket is connecting and is the module's `socket`.
pub on_timeout-on_close :
    {N : Type 0} (c : Client N) (i : ℕ)
    → c.socket ≡ some i
    → c.should_reconnect ≡ true
    → i ≢ c.next_socket
    → ((on_close i c).timeouts c.next_timer ≡ true)
      × ((on_close i c).reconnect_timeout ≡ some c.next_timer)
      × ((on_timeout c.next_timer (on_close i c)).socket ≡ some c.next_socket)
      × ((on_timeout c.next_timer (on_close i c)).ready_state c.next_socket ≡ connecting)
unfolding on_close on_timeout
on_timeout-on_close c i e w ne = (ground arith, ground arith, ground arith, ground arith)
