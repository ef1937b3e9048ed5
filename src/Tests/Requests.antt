-- ===== src/Tests/Requests.antt =====
-- The requests of web/src/pages/Settings.tsx and the queries of web/src/hooks/useSecurity.ts.
use ddsds.Common.{
  String, Bool, true, false, ◌&&◌, List, [], ◌∷◌, ◌++◌, Option, none, some, any, ◌≡◌, refl, arith,
  ◌==◌, str_eq, eq_refl, eq_iff, ap, sym, ◌∙◌,
}
use ddsds.Types.{Severity, IncidentStatus}
use ddsds.Security.{update_status}
use ddsds.Security.Queries.{
  Part, name, text, number, Key, query_key, invalidated, security_incident_detail,
}
use ddsds.Security.Queries.Refetching.{fetched_again, invalidated-query_key}
use ddsds.Settings.{
  Delivery, Edit, TelegramIntegrationSettings, SlackIntegrationSettings, initial_view,
  set_notify_high_severity, set_quiet_hours_start, save_telegram_settings, save_slack_settings,
  save_telegram, save_slack, on_telegram_saved, on_slack_saved,
}
use ddsds.Settings.Saving.{edits, edits_telegram, edits_slack, save-saved}

abbrev delivery : Delivery
delivery = record {
  notify_auto_block = true;
  notify_high_severity = false;
  notify_min_severity = Severity.critical;
  quiet_hours_start = "22:00";
  quiet_hours_end = "07:00";
}

abbrev telegram_settings : TelegramIntegrationSettings
telegram_settings = record {
  configured = true;
  bot_username = "nullius_bot";
  bot_name = "Nullius";
  chat_bound = true;
  chat_title = "ops";
  delivery = delivery;
  last_error = "";
  updated_at = 1700000000;
}

abbrev slack_settings : SlackIntegrationSettings
slack_settings = record {
  configured = true;
  delivery = delivery;
  last_error = "";
  updated_at = 1700000000;
}

abbrev changes : List Edit
changes = set_notify_high_severity true ∷ set_quiet_hours_start "23:00" ∷ []

save-saved_example :
    ((save_telegram
        (edits_telegram changes (on_telegram_saved telegram_settings initial_view))).requests
      ≡ save_telegram_settings "" (edits changes delivery) ∷ initial_view.requests)
    × ((save_slack (edits_slack changes (on_slack_saved slack_settings initial_view))).requests
        ≡ save_slack_settings "" (edits changes delivery) ∷ initial_view.requests)
save-saved_example = save-saved telegram_settings slack_settings changes initial_view

abbrev same_text : Option String → Option String → Bool
same_text none none = true
same_text (some s) (some r) = str_eq s r
same_text _ _ = false

abbrev same_part : Part → Part → Bool
same_part (name s) (name r) = str_eq s r
same_part (text s) (text r) = same_text s r
same_part (number n) (number k) = n == k
same_part _ _ = false

abbrev begins_with : Key → Key → Bool
begins_with [] key = true
begins_with (p ∷ ps) [] = false
begins_with (p ∷ ps) (q ∷ qs) = same_part p q && begins_with ps qs

same_part_refl : (p : Part) → same_part p p ≡ true
same_part_refl (name s) = eq_refl s
same_part_refl (text none) = refl
same_part_refl (text (some s)) = eq_refl s
same_part_refl (number n) = ground arith

begins_with-append : (prefix rest : Key) → begins_with prefix (prefix ++ rest) ≡ true
begins_with-append [] rest = refl
begins_with-append (p ∷ ps) rest = ground (arith, same_part_refl p, begins_with-append ps rest)

same_part_eq : (p q : Part) → same_part p q ≡ true → p ≡ q
same_part_eq (name s) (name r) h = ap name ((eq_iff s r).0 h)
same_part_eq (text none) (text none) h = refl
same_part_eq (text (some s)) (text (some r)) h = ap (λ u. text (some u)) ((eq_iff s r).0 h)
same_part_eq (number n) (number k) h = ap number (ground arith)
same_part_eq _ _ h = absurd (cc)

begins_with-rest :
    (prefix key : Key) → begins_with prefix key ≡ true → (rest : Key) × (key ≡ prefix ++ rest)
begins_with-rest [] key h = (key, refl)
begins_with-rest (p ∷ ps) [] h = absurd (cc)
begins_with-rest (p ∷ ps) (q ∷ qs) h =
    let later = begins_with-rest ps qs (ground arith) in
    let same : p ≡ q = same_part_eq p q (ground arith) in
    (later.0, ap (◌∷◌ q) later.1 ∙ ap (λ r. r ∷ (ps ++ later.0)) (sym same))

invalidated-query_key_example :
    any
      (λ p. begins_with p (query_key (security_incident_detail (some "incident-1"))))
      (invalidated (update_status "incident-1" IncidentStatus.resolved))
    ≡ fetched_again
        (update_status "incident-1" IncidentStatus.resolved)
        (security_incident_detail (some "incident-1"))
invalidated-query_key_example =
    invalidated-query_key begins_with begins_with-append begins_with-rest
      (update_status "incident-1" IncidentStatus.resolved)
      (security_incident_detail (some "incident-1"))
