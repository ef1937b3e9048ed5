-- ===== src/Live/Feed.antt =====
-- A whole feed of live messages through web/src/hooks/useWebSocket.ts against the lists of what it
-- brings.
use mathlib.Core.List.{reverse, reverse-cons}
use ddsds.Common.{
  true, false, ◌&&◌, Option, none, some, List, [], ◌∷◌, ◌++◌, ◌≡◌, refl, ap, ◌∙◌, arith, take,
  append_assoc, eq_iff, Option-cases, inl, inr, if◌then◌else◌, append-nil,
}
use ddsds.Json.{Json, str, get, is_text}
use ddsds.Store.{
  Store, Browser, kept_events, initial_store, add_security_event, set_current_metrics,
}
use ddsds.Store.History.{Shows, add_security_event-Shows}
use ddsds.Live.{is_metrics, is_security_event, on_event}

module _ {N : Type 0} where
  -- The payload of a message that is a well-formed security event, and of one with metrics.
  unfoldable pub event_payload : Json N → Option (Json N)
  event_payload m =
      if is_text "security_event" (get "type" m) && is_security_event (get "data" m)
      then get "data" m
      else none

  unfoldable pub metrics_payload : Json N → Option (Json N)
  metrics_payload m =
      if is_text "metrics" (get "type" m) && is_metrics (get "data" m) then get "data" m else none

  abbrev prepend : Option (Json N) → List (Json N) → List (Json N)
  prepend none h = h
  prepend (some d) h = d ∷ h

  -- The payloads of a feed, in the order of arrival.
  unfoldable pub payloads : (Json N → Option (Json N)) → List (Json N) → List (Json N)
  payloads f [] = []
  payloads f (m ∷ ms) = prepend (f m) (payloads f ms)

  unfoldable pub last_or : Option (Json N) → List (Json N) → Option (Json N)
  last_or d [] = d
  last_or d (x ∷ xs) = last_or (some x) xs

  pub on_events : List (Json N) → Store (Json N) (Json N) → Store (Json N) (Json N)
  on_events [] s = s
  on_events (m ∷ ms) s = on_events ms (on_event m s)

  is_text-ne :
      (o : Option (Json N)) → is_text "metrics" o ≡ true → is_text "security_event" o ≡ false
  unfolding is_text
  is_text-ne (some (str r)) h = let e : r ≡ "metrics" = (eq_iff r "metrics").0 h in rw e refl
  is_text-ne o h = cc

  on_event-events :
      (m : Json N) (s : Store (Json N) (Json N))
      → (on_event m s).recent_events ≡ (elim (event_payload m) [
        | none ↦ s.recent_events
        | some d ↦ take kept_events (d ∷ s.recent_events)
      ])
  unfolding on_event add_security_event set_current_metrics event_payload
  on_event-events m s = ground (arith, is_text-ne (get "type" m))

  on_event-metrics :
      (m : Json N) (s : Store (Json N) (Json N))
      → (on_event m s).current_metrics
        ≡ (elim (metrics_payload m) [ none ↦ s.current_metrics | some d ↦ some d ])
  unfolding on_event add_security_event set_current_metrics is_metrics metrics_payload
  on_event-metrics m s = ground arith

  on_event-Shows :
      (m : Json N) (s : Store (Json N) (Json N)) (h : List (Json N))
      → Shows s h
      → Shows (on_event m s) (prepend (event_payload m) h)
  unfolding add_security_event
  on_event-Shows m s h shows = elim (Option-cases (event_payload m)) [
    | inl e ↦ on_event-events m s ∙ rw e shows
    | inr (d, e) ↦ on_event-events m s ∙ rw e (add_security_event-Shows d s h shows)
  ]

  reverse-prepend :
      (o : Option (Json N)) (ds h : List (Json N))
      → reverse ds ++ prepend o h ≡ reverse (prepend o ds) ++ h
  reverse-prepend none ds h = refl
  reverse-prepend (some d) ds h = simp (reverse-cons, append_assoc)

  on_events-Shows :
      (ms : List (Json N)) (s : Store (Json N) (Json N)) (h : List (Json N))
      → Shows s h
      → Shows (on_events ms s) (reverse (payloads event_payload ms) ++ h)
  unfolding on_events payloads
  on_events-Shows [] s h shows = shows
  on_events-Shows (m ∷ ms) s h shows =
      rw (← reverse-prepend (event_payload m) (payloads event_payload ms) h) (
        on_events-Shows ms (on_event m s) (prepend (event_payload m) h)
          (on_event-Shows m s h shows))

  on_events-metrics :
      (ms : List (Json N)) (s : Store (Json N) (Json N))
      → (on_events ms s).current_metrics ≡ last_or s.current_metrics (payloads metrics_payload ms)
  unfolding on_events payloads last_or
  on_events-metrics [] s = refl
  on_events-metrics (m ∷ ms) s = elim (Option-cases (metrics_payload m)) [
    | inl e ↦ rw e (on_events-metrics ms (on_event m s) ∙ rw (on_event-metrics m s, e) refl)
    | inr (d, e) ↦ rw e (on_events-metrics ms (on_event m s) ∙ rw (on_event-metrics m s, e) refl)
  ]

  -- From the initial store, after any feed of live messages, the recent events are the fifty newest
  -- well-formed security events of the feed, the newest first, and the current metrics are those of
  -- the feed's last well-formed metrics message, or null if it has none.
  pub on_events_lem :
      (w : Option Browser) (ms : List (Json N))
      → ((on_events ms (initial_store w)).recent_events
          ≡ take kept_events (reverse (payloads event_payload ms)))
        × ((on_events ms (initial_store w)).current_metrics
            ≡ last_or none (payloads metrics_payload ms))
  unfolding initial_store
  on_events_lem w ms = (
    on_events-Shows ms (initial_store w) [] refl ∙ ap (take kept_events) (append-nil _),
    on_events-metrics ms (initial_store w),
  )
