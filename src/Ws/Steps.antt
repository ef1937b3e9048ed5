-- ===== src/Ws/Steps.antt =====
-- What can happen to the client of web/src/lib/ws.ts: calls of its functions by the page, and the
-- events of the browser.
-- The browser opens a socket that is connecting, closes one that is not closed, may begin to close
-- an open one for the other side, and runs the function of a timer that is set.
use ddsds.Common.{ℕ, String, Option, ◌≡◌, ◌≢◌, true}
use ddsds.Json.{Json}
use ddsds.Ws.{
  connecting, opened, closing, closed, Client, update, initial, connect_ws, disconnect_ws, on_open,
  on_close, on_message, beat, on_timeout, on_live_event, off_live_event, on_status_change,
  off_status_change,
}

pub data Event (N : Type 0) : Type 0 where
  connect disconnect : Event N
  opens : Option (Option String) → ℕ → Event N
  closes : ℕ → Event N
  begins_closing : ℕ → Event N
  message : Option (Json N) → Event N
  beats : ℕ → Event N
  expires : ℕ → Event N
  adds_listener removes_listener : ℕ → Event N
  adds_status_listener removes_status_listener : ℕ → Event N

module _ {N : Type 0} where
  abbrev pub Enabled : Event N → Client N → Type 0
  Enabled (opens storage i) c = c.ready_state i ≡ connecting
  Enabled (closes i) c = c.ready_state i ≢ closed
  Enabled (begins_closing i) c = c.ready_state i ≡ opened
  Enabled (beats t) c = c.intervals t ≡ true
  Enabled (expires t) c = c.timeouts t ≡ true
  Enabled e c = Unit

  unfoldable pub apply : Event N → Client N → Client N
  apply connect c = connect_ws c
  apply disconnect c = disconnect_ws c
  apply (opens storage i) c = on_open storage i c
  apply (closes i) c = on_close i c
  apply (begins_closing i) c = record c { ready_state = update c.ready_state i closing }
  apply (message v) c = on_message v c
  apply (beats t) c = beat c
  apply (expires t) c = on_timeout t c
  apply (adds_listener fn) c = on_live_event fn c
  apply (removes_listener fn) c = off_live_event fn c
  apply (adds_status_listener fn) c = on_status_change fn c
  apply (removes_status_listener fn) c = off_status_change fn c

-- The states that the client can get into.
pub data Reach {N : Type 0} : Client N → Type 0 where
  start : Reach initial
  next : {c : Client N} → Reach c → (e : Event N) → Enabled e c → Reach (apply e c)
