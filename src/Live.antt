-- ===== src/Live.antt =====
-- web/src/hooks/useWebSocket.ts: live messages become changes of the store. The store keeps the value
-- of `event.data` as it came.
pub mod Feed
use ddsds.Common.{Bool, true, false, ◌&&◌, Option, none, some, List, [], ◌∷◌, if◌then◌else◌}
use ddsds.Json.{Json, get, is_object, is_number, is_string, is_text}
use ddsds.Store.{
  Store, connected, disconnected, set_live_status, set_current_metrics, add_security_event,
}

module _ {N : Type 0} where
  unfoldable pub is_metrics : Option (Json N) → Bool
  is_metrics none = false
  is_metrics (some d) =
      is_object d && (is_number (get "cpu_total" d) && is_number (get "ram_used" d))

  unfoldable pub is_security_event : Option (Json N) → Bool
  is_security_event none = false
  is_security_event (some d) =
      is_object d && (is_string (get "severity" d) && is_string (get "type" d))

  -- The listener of status changes.
  unfoldable pub on_status : Bool → Store (Json N) (Json N) → Store (Json N) (Json N)
  on_status is_connected = set_live_status (if is_connected then connected else disconnected)

  take_event : Option (Json N) → Store (Json N) (Json N) → Store (Json N) (Json N)
  take_event none s = s
  take_event (some d) s = add_security_event d s

  -- The listener of live events.
  unfoldable pub on_event : Json N → Store (Json N) (Json N) → Store (Json N) (Json N)
  unfolding take_event
  on_event event s =
      let payload = get "data" event in
      if is_text "metrics" (get "type" event) && is_metrics payload
      then set_current_metrics payload s
      else if is_text "security_event" (get "type" event) && is_security_event payload
      then take_event payload s
      else s
