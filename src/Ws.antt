-- ===== src/Ws.antt =====
-- web/src/lib/ws.ts: the WebSocket client, with the browser's sockets and timers as part of the
-- state. A socket is known by the number of its creation, as is a timer.
pub mod Steps
pub mod Single
pub mod Health
pub mod Offline
pub mod Stale
use ddsds.Common.{
  ℕ, suc, String, Bool, true, false, ◌&&◌, ◌||◌, not, List, [], ◌∷◌, ◌++◌, Option, none, some, ◌==◌,
  if◌then◌else◌, filter, any,
}
use ddsds.Text.{truthy, trim}
use ddsds.Json.{Json, null, get, is_text}

-- `readyState`; a number that no socket has yet counts as closed.
pub data Phase : Type 0 where
  connecting opened closing closed : Phase

pub data Frame : Type 0 where
  token : String → Frame
  ping : Frame

pub record Client (N : Type 0) : Type 0 where
  -- the module's variables
  pub socket : Option ℕ
  pub listeners : List ℕ
  pub status_listeners : List ℕ
  pub heartbeat_interval : Option ℕ
  pub reconnect_timeout : Option ℕ
  pub should_reconnect : Bool
  -- the browser: the state of each socket, the intervals and timeouts that are set
  pub ready_state : ℕ → Phase
  pub next_socket : ℕ
  pub intervals : ℕ → Bool
  pub timeouts : ℕ → Bool
  pub next_timer : ℕ
  -- what left the module, the newest first: frames with their socket, and each call of all the
  -- listeners with its receivers
  pub sent : List (ℕ × Frame)
  pub notices : List (List ℕ × Bool)
  pub delivered : List (List ℕ × Json N)

abbrev pub update {ℓ} : {A : Type ℓ} → (ℕ → A) → ℕ → A → ℕ → A
update f i v j = if j == i then v else f j

unfoldable pub initial : {N : Type 0} → Client N
initial = record {
  socket = none;
  listeners = [];
  status_listeners = [];
  heartbeat_interval = none;
  reconnect_timeout = none;
  should_reconnect = false;
  ready_state = λ i. closed;
  next_socket = 0;
  intervals = λ i. false;
  timeouts = λ i. false;
  next_timer = 0;
  sent = [];
  notices = [];
  delivered = [];
}

abbrev pub is_live : Phase → Bool
is_live connecting = true
is_live opened = true
is_live closing = false
is_live closed = false

abbrev pub is_open : Phase → Bool
is_open opened = true
is_open connecting = false
is_open closing = false
is_open closed = false

-- `getUiToken` of ws.ts and api.ts; reading the storage may throw (`none`).
unfoldable pub get_ui_token : Option (Option String) → String
get_ui_token none = ""
get_ui_token (some none) = ""
get_ui_token (some (some saved)) = trim saved

-- `add` and `delete` of a set that keeps the order of insertion.
unfoldable pub subscribe : ℕ → List ℕ → List ℕ
subscribe fn set = if any (λ g. g == fn) set then set else set ++ fn ∷ []

unfoldable pub unsubscribe : ℕ → List ℕ → List ℕ
unsubscribe fn set = filter (λ g. not (g == fn)) set

-- `clearInterval` and `clearTimeout`, where the variable may be null.
clear : (ℕ → Bool) → Option ℕ → ℕ → Bool
clear timers none = timers
clear timers (some i) = update timers i false

-- `socket.close()`
close_phase : Phase → Phase
close_phase closed = closed
close_phase p = closing

module _ {N : Type 0} where
  abbrev pub phase_of : Client N → Option ℕ → Phase
  phase_of c none = closed
  phase_of c (some i) = c.ready_state i

  new_socket : Client N → Client N
  new_socket c = record c {
    should_reconnect = true;
    socket = some c.next_socket;
    ready_state = update c.ready_state c.next_socket connecting;
    next_socket = suc c.next_socket;
  }

  unfoldable pub connect_ws : Client N → Client N
  unfolding new_socket
  connect_ws c = if is_live (phase_of c c.socket) then c else new_socket c

  notify_status : Bool → Client N → Client N
  notify_status v c = record c { notices = (c.status_listeners, v) ∷ c.notices }

  start_reconnect : Client N → Client N
  start_reconnect c = record c {
    reconnect_timeout = some c.next_timer;
    timeouts = update c.timeouts c.next_timer true;
    next_timer = suc c.next_timer;
  }

  stop_heartbeat : Client N → Client N
  stop_heartbeat c = record c {
    heartbeat_interval = none;
    intervals = clear c.intervals c.heartbeat_interval;
  }

  reconnect_if : Bool → Client N → Client N
  reconnect_if wanted c = if wanted then start_reconnect c else c

  -- Socket `i` closes, and its `onclose` runs.
  unfoldable pub on_close : ℕ → Client N → Client N
  unfolding clear notify_status start_reconnect stop_heartbeat reconnect_if
  on_close i c = reconnect_if c.should_reconnect (
      notify_status false
        (stop_heartbeat (record c { ready_state = update c.ready_state i closed })))

  send : Frame → Client N → Client N
  send f c = elim c.socket [ none ↦ c | some i ↦ record c { sent = (i, f) ∷ c.sent } ]

  send_token : String → Client N → Client N
  send_token t c = if truthy t then send (token t) c else c

  start_heartbeat : Client N → Client N
  start_heartbeat c = record c {
    heartbeat_interval = some c.next_timer;
    intervals = update c.intervals c.next_timer true;
    next_timer = suc c.next_timer;
  }

  -- Socket `i` opens, and its `onopen` runs; `storage` is what the local storage gives.
  unfoldable pub on_open : Option (Option String) → ℕ → Client N → Client N
  unfolding send_token send start_heartbeat notify_status get_ui_token
  on_open storage i c = start_heartbeat (
      notify_status true (
        send_token (get_ui_token storage)
          (record c { ready_state = update c.ready_state i opened })))

  -- The interval's function: a ping on the socket that is current.
  unfoldable pub beat : Client N → Client N
  unfolding send
  beat c = if is_open (phase_of c c.socket) then send ping c else c

  -- `onmessage`; the frame is what `JSON.parse` makes of its text, `none` where it throws.
  -- Reading the type of `null` throws, too.
  unfoldable pub on_message : Option (Json N) → Client N → Client N
  on_message none c = c
  on_message (some null) c = c
  on_message (some v) c =
      if is_text "pong" (get "type" v)
      then c
      else record c { delivered = (c.listeners, v) ∷ c.delivered }

  -- The timeout `t` runs out, and its function is `connectWS`.
  unfoldable pub on_timeout : ℕ → Client N → Client N
  unfolding connect_ws
  on_timeout t c = connect_ws (record c { timeouts = update c.timeouts t false })

  stop_reconnect : Client N → Client N
  stop_reconnect c = record c {
    reconnect_timeout = none;
    timeouts = clear c.timeouts c.reconnect_timeout;
  }

  close_socket : Client N → Client N
  close_socket c = elim c.socket [
    | none ↦ c
    | some i ↦ record c {
      socket = none;
      ready_state = update c.ready_state i (close_phase (c.ready_state i));
    }
  ]

  unfoldable pub disconnect_ws : Client N → Client N
  unfolding stop_reconnect stop_heartbeat close_socket close_phase clear
  disconnect_ws c =
      close_socket (stop_heartbeat (stop_reconnect (record c { should_reconnect = false })))

  unfoldable pub on_live_event : ℕ → Client N → Client N
  on_live_event fn c = record c { listeners = subscribe fn c.listeners }

  unfoldable pub off_live_event : ℕ → Client N → Client N
  off_live_event fn c = record c { listeners = unsubscribe fn c.listeners }

  unfoldable pub on_status_change : ℕ → Client N → Client N
  on_status_change fn c = record c { status_listeners = subscribe fn c.status_listeners }

  unfoldable pub off_status_change : ℕ → Client N → Client N
  off_status_change fn c = record c { status_listeners = unsubscribe fn c.status_listeners }
