-- ===== src/Ws/Stale.antt =====
-- Sockets that `disconnectWS` of web/src/lib/ws.ts has left, and that close after the next one opens.
use ddsds.Common.{ℕ, some, none, ◌≡◌, ◌≢◌, false, arith}
use ddsds.Ws.{Client, opened, on_close, on_timeout}
use ddsds.Ws.Health.{announced}

-- The handlers name the module's variables and not the socket that they were made for: when a socket
-- `i` closes while another one `j` is current and open and the heartbeat is the interval `t`, `j`
-- stays open, but the interval is stopped and the listeners are told `false`; and the timeout that is
-- set, when it runs out, mends neither.
pub on_close_stale :
    {N : Type 0} (c : Client N) (i j t : ℕ)
    → c.socket ≡ some j
    → c.ready_state j ≡ opened
    → c.heartbeat_interval ≡ some t
    → i ≢ j
    → ((on_close i c).ready_state j ≡ opened)
      × ((on_close i c).heartbeat_interval ≡ none)
      × ((on_close i c).intervals t ≡ false)
      × (announced (on_close i c) ≡ some false)
      × ((k : ℕ)
          → ((on_timeout k (on_close i c)).heartbeat_interval ≡ none)
            × ((on_timeout k (on_close i c)).intervals t ≡ false)
            × (announced (on_timeout k (on_close i c)) ≡ some false))
unfolding on_close on_timeout
on_close_stale c i j t e o h ne = (
  ground arith,
  ground arith,
  ground arith,
  ground arith,
  λ k. (ground arith, ground arith, ground arith),
)
