-- ===== src/Tests/Connection.antt =====
-- Runs of the WebSocket client, of the live feed and of the store (web/src/lib/ws.ts,
-- web/src/hooks/useWebSocket.ts, web/src/stores/store.ts).
use mathlib.Core.List.{reverse}
use ddsds.Common.{
  ℕ, String, true, false, List, [], ◌∷◌, Option, none, some, ◌≡◌, ◌≢◌, ◌↔◌, refl, inr, take, arith,
}
use ddsds.I18n.State.{en_locale}
use ddsds.Json.{Json, Fields, num, str, object}
use ddsds.Ws.{
  Client, connecting, opened, initial, connect_ws, disconnect_ws, on_open, on_close, on_timeout,
}
use ddsds.Ws.Steps
use ddsds.Text.{trim}
use ddsds.Ws.Steps.{Event, Enabled, apply, Reach}
use ddsds.Ws.Single.{IsSingle, Reach-IsSingle}
use ddsds.Ws.Health.{OrderlyReach, OrderlyReach-open, announced, is_beating}
use ddsds.Ws.Health
use ddsds.Ws.Offline.{IsOffline, After, After-disconnect_ws, on_timeout-on_close}
use ddsds.Ws.Offline
use ddsds.Ws.Stale.{on_close_stale}
use ddsds.Store.{Browser, initial_store, kept_events}
use ddsds.Store.Session.{IsKept, acts, acts-IsKept, theme_toggled, locale_set, event_added, Action}
use ddsds.Live.Feed.{on_events, on_events_lem, payloads, event_payload, metrics_payload, last_or}

abbrev saved : Option (Option String)
saved = some (some " secret ")

abbrev dialled : Client ℕ
dialled = apply Steps.connect initial

abbrev online : Client ℕ
online = apply (Steps.opens saved 0) dialled

dialled-Reach : Reach dialled
dialled-Reach = Steps.next Steps.start Steps.connect tt

online-Reach : Reach online
unfolding Steps.apply initial connect_ws
online-Reach = Steps.next dialled-Reach (Steps.opens saved 0) refl

Reach-IsSingle_example : IsSingle online
Reach-IsSingle_example = Reach-IsSingle online-Reach

dialled-OrderlyReach : OrderlyReach dialled
unfolding initial
dialled-OrderlyReach = Health.next Health.start Steps.connect tt (inr (λ i. refl, λ t. refl))

online-OrderlyReach : OrderlyReach online
unfolding Steps.apply initial connect_ws
online-OrderlyReach = Health.next dialled-OrderlyReach (Steps.opens saved 0) refl tt

online_opened : online.ready_state 0 ≡ opened
unfolding Steps.apply initial connect_ws on_open trim
online_opened = refl

online_socket : online.socket ≡ some 0
unfolding Steps.apply initial connect_ws on_open trim
online_socket = refl

OrderlyReach-open_example :
    (online.socket ≡ some 0)
    × (announced online ≡ some true)
    × (is_beating online ≡ true)
    × ((t : ℕ) → (online.intervals t ≡ true) ↔ (online.heartbeat_interval ≡ some t))
OrderlyReach-open_example = OrderlyReach-open online-OrderlyReach 0 online_opened

-- After `disconnectWS` the socket closes.
abbrev offline : Client ℕ
offline = apply (Steps.closes 0) (disconnect_ws online)

offline-After : After (disconnect_ws online) offline
unfolding Steps.apply initial connect_ws on_open trim disconnect_ws
offline-After = Offline.next Offline.here (Steps.closes 0) (λ e. cc) (λ e. grind arith)

After-disconnect_ws_example : IsOffline offline
After-disconnect_ws_example = After-disconnect_ws online-OrderlyReach offline-After

online_wanted : online.should_reconnect ≡ true
unfolding Steps.apply initial connect_ws on_open trim
online_wanted = refl

zero_old : 0 ≢ online.next_socket
unfolding Steps.apply initial connect_ws on_open trim
zero_old e = omega arith

on_timeout-on_close_example :
    ((on_close 0 online).timeouts online.next_timer ≡ true)
    × ((on_close 0 online).reconnect_timeout ≡ some online.next_timer)
    × ((on_timeout online.next_timer (on_close 0 online)).socket ≡ some online.next_socket)
    × ((on_timeout online.next_timer (on_close 0 online)).ready_state online.next_socket
        ≡ connecting)
on_timeout-on_close_example = on_timeout-on_close online 0 online_socket online_wanted zero_old

-- The page disconnects and connects anew, and the new socket opens before the old one has closed.
abbrev renewed : Client ℕ
renewed = on_open none 1 (connect_ws (disconnect_ws online))

renewed_socket : renewed.socket ≡ some 1
unfolding Steps.apply initial connect_ws on_open trim disconnect_ws
renewed_socket = refl

renewed_opened : renewed.ready_state 1 ≡ opened
unfolding Steps.apply initial connect_ws on_open trim disconnect_ws
renewed_opened = refl

renewed_interval : renewed.heartbeat_interval ≡ some 1
unfolding Steps.apply initial connect_ws on_open trim disconnect_ws
renewed_interval = refl

on_close_stale_example :
    ((on_close 0 renewed).ready_state 1 ≡ opened)
    × ((on_close 0 renewed).heartbeat_interval ≡ none)
    × ((on_close 0 renewed).intervals 1 ≡ false)
    × (announced (on_close 0 renewed) ≡ some false)
    × ((k : ℕ)
        → ((on_timeout k (on_close 0 renewed)).heartbeat_interval ≡ none)
          × ((on_timeout k (on_close 0 renewed)).intervals 1 ≡ false)
          × (announced (on_timeout k (on_close 0 renewed)) ≡ some false))
on_close_stale_example =
    on_close_stale renewed 0 1 1 renewed_socket renewed_opened renewed_interval (λ e. omega arith)

abbrev browser : Browser
browser = record { saved_locale = some "de"; dataset_theme = none; language_is_ru = true }

abbrev session : List (Action ℕ String)
session = theme_toggled ∷ event_added "probe" ∷ locale_set en_locale ∷ []

acts-IsKept_example :
    IsKept
      (acts session (initial_store (some browser), browser)).0
      (acts session (initial_store (some browser), browser)).1
acts-IsKept_example = acts-IsKept session browser refl

abbrev event_message : Json ℕ
event_message = object (
    Fields.field "type" (str "security_event") (
      Fields.field "data"
        (object
          (Fields.field "severity" (str "high") (Fields.field "type" (str "sqli") Fields.end)))
        Fields.end))

abbrev broken_message : Json ℕ
broken_message = object (
    Fields.field "type" (str "security_event")
      (Fields.field "data" (object (Fields.field "severity" (num 3) Fields.end)) Fields.end))

abbrev feed : List (Json ℕ)
feed = event_message ∷ broken_message ∷ event_message ∷ []

on_events_lem_example :
    ((on_events feed (initial_store (some browser))).recent_events
      ≡ take kept_events (reverse (payloads event_payload feed)))
    × ((on_events feed (initial_store (some browser))).current_metrics
        ≡ last_or none (payloads metrics_payload feed))
on_events_lem_example = on_events_lem (some browser) feed
