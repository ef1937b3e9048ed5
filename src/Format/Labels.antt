-- ===== src/Format/Labels.antt =====
-- The tables of web/src/lib/format.ts that turn codes of the server into messages of the interface. A
-- code is not one of the names that every object inherits, such as `constructor`.
pub mod Keys
pub mod Told
use ddsds.Common.{
  ℕ, String, Bool, true, false, List, [], ◌∷◌, Option, none, some, str_eq, if◌then◌else◌,
}
use ddsds.Text.{truthy, trim, or_else, spaced}
use ddsds.Types.{IncidentStatus, new, investigating, resolved}
use ddsds.I18n.Template.{Argument, lookup}
use ddsds.I18n.State.{Messages, Locale, ru_locale, en_locale, translate, find_message}

abbrev pub Table : Type 0
Table = List (String × String)

abbrev pub security : Messages → String → List Argument → String
security m = translate m "security"

abbrev found_or : Option String → String → String
found_or none d = d
found_or (some s) d = s

-- `map[value] ?? fallback`, of keys of messages.
unfoldable pub key_of : Table → String → String → String
unfolding lookup
key_of table fallback value = found_or (lookup value table) fallback

-- The names of event types, in both languages.
unfoldable pub event_types : Locale → Table
event_types ru_locale =
    ("ssh_brute_force", "Подбор пароля по SSH")
    ∷ ("ssh_user_enum", "Перебор пользователей SSH")
    ∷ ("sqli", "SQL injection")
    ∷ ("xss", "Cross-site scripting")
    ∷ ("path_traversal", "Обход путей")
    ∷ ("command_injection", "Command injection")
    ∷ ("sensitive_path_probe", "Разведка чувствительных путей")
    ∷ ("scanner_probe", "Сканирующий инструмент")
    ∷ ("web_login_bruteforce", "Подбор пароля в web-логине")
    ∷ ("port_scan", "Сканирование портов")
    ∷ ("recon_chain", "Коррелированная разведка")
    ∷ ("credential_attack_chain", "Коррелированная атака на учётные данные")
    ∷ ("web_attack_chain", "Коррелированная web-атака")
    ∷ ("anomaly", "Аномалия метрик")
    ∷ []
event_types en_locale =
    ("ssh_brute_force", "SSH brute force")
    ∷ ("ssh_user_enum", "SSH user enumeration")
    ∷ ("sqli", "SQL injection")
    ∷ ("xss", "Cross-site scripting")
    ∷ ("path_traversal", "Path traversal")
    ∷ ("command_injection", "Command injection")
    ∷ ("sensitive_path_probe", "Sensitive path probing")
    ∷ ("scanner_probe", "Scanner probe")
    ∷ ("web_login_bruteforce", "Web login brute force")
    ∷ ("port_scan", "Port scan")
    ∷ ("recon_chain", "Correlated reconnaissance")
    ∷ ("credential_attack_chain", "Correlated credential attack")
    ∷ ("web_attack_chain", "Correlated web attack")
    ∷ ("anomaly", "Metrics anomaly")
    ∷ []

unfoldable pub format_event_type : Messages → String → String
unfolding event_types lookup
format_event_type m value = found_or (lookup value (event_types m.current_locale)) (spaced value)

unfoldable pub actions : Table
actions =
    ("auto_block", "actionAutoBlocked")
    ∷ ("logged", "actionLogged")
    ∷ ("log", "actionLogged")
    ∷ ("review_required", "actionReviewRequired")
    ∷ ("ml_detection", "actionMlDetection")
    ∷ []

unfoldable pub format_action_taken : Messages → String → String
format_action_taken m value = security m (key_of actions "actionLogged" value) []

unfoldable pub format_event_source : Messages → Option String → String
format_event_source m none = security m "sourceHost" []
format_event_source m (some ip) = or_else (trim ip) (security m "sourceHost" [])

unfoldable pub signals : Table
signals =
    ("rule_auth_logs", "signalRuleAuthLogs")
    ∷ ("rule_web_logs", "signalRuleWebLogs")
    ∷ ("rule_firewall_logs", "signalRuleFirewallLogs")
    ∷ ("rule_plus_ml", "signalRulePlusMl")
    ∷ ("ml_log_classifier", "signalMlLogClassifier")
    ∷ ("ml_metrics_detector", "signalMlMetricsDetector")
    ∷ ("generic", "signalGeneric")
    ∷ []

unfoldable pub format_signal_source : Messages → Option String → String
format_signal_source m value =
    security m (key_of signals "signalGeneric" (found_or value "generic")) []

-- `t.severity[value] ?? value`
unfoldable pub severity_or_value : Messages → String → String
severity_or_value m value = elim (find_message m.t "severity" value) [
  | none ↦ value
  | some msg ↦ translate m "severity" value []
]

unfoldable pub format_confidence : Messages → Option String → String
unfolding severity_or_value
format_confidence m none = "—"
format_confidence m (some value) = if truthy value then severity_or_value m value else "—"

unfoldable pub recommendations : Table
recommendations =
    ("review_source_ip", "recommendationReviewIp")
    ∷ ("review_related_logs", "recommendationReviewLogs")
    ∷ ("review_host_metrics", "recommendationReviewMetrics")
    ∷ ("auto_block_applied", "recommendationAutoBlocked")
    ∷ ("monitor_only", "recommendationMonitorOnly")
    ∷ ("review_event", "recommendationGeneric")
    ∷ []

unfoldable pub format_recommended_action : Messages → Option String → String
format_recommended_action m value =
    security m (key_of recommendations "recommendationGeneric" (found_or value "review_event")) []

unfoldable pub explanations : Table
explanations =
    ("ssh_failed_attempts_threshold", "explanationSshThreshold")
    ∷ ("ssh_invalid_user_threshold", "explanationSshInvalidUserThreshold")
    ∷ ("web_attack_pattern", "explanationWebAttackPattern")
    ∷ ("sensitive_path_probe", "explanationSensitivePathProbe")
    ∷ ("scanner_tool_pattern", "explanationScannerToolPattern")
    ∷ ("web_login_threshold", "explanationWebLoginThreshold")
    ∷ ("rule_ml_confirmed", "explanationRuleMlConfirmed")
    ∷ ("unique_destination_ports_threshold", "explanationPortScanThreshold")
    ∷ ("ml_log_classifier", "explanationMlLogClassifier")
    ∷ ("metrics_anomaly", "explanationMetricsAnomaly")
    ∷ []

-- The `switch` on the event's explanation code; a missing code takes the default.
unfoldable pub format_event_explanation : Messages → Option String → String
format_event_explanation m none = security m "explanationGeneric" []
format_event_explanation m (some code) =
    security m (key_of explanations "explanationGeneric" code) []

unfoldable pub format_incident_status : Messages → IncidentStatus → String
format_incident_status m new = security m "incidentNew" []
format_incident_status m investigating = security m "incidentInvestigating" []
format_incident_status m resolved = security m "incidentResolved" []

unfoldable pub headlines : Table
headlines =
    ("incident_resolved", "incidentResolutionHeadlineIncidentResolved")
    ∷ ("source_blocked", "incidentResolutionHeadlineSourceBlocked")
    ∷ ("decision_recorded", "incidentResolutionHeadlineDecisionRecorded")
    ∷ ("investigation_open", "incidentResolutionHeadlineInvestigationOpen")
    ∷ ("review", "incidentResolutionHeadlineReview")
    ∷ ("contain", "incidentResolutionHeadlineContain")
    ∷ ("block", "incidentResolutionHeadlineBlock")
    ∷ []

unfoldable pub format_incident_resolution_headline : Messages → Option String → String
format_incident_resolution_headline m value =
    security m (key_of headlines "incidentResolutionOpen" (found_or value "")) []

-- `map[value] ?? value`, of messages.
unfoldable pub message_or_value : Messages → Table → String → String
message_or_value m table value = elim (lookup value table) [
  | none ↦ value
  | some key ↦ security m key []
]

unfoldable pub audit_stages : Table
audit_stages =
    ("detected", "auditStageDetected")
    ∷ ("decision", "auditStageDecision")
    ∷ ("command_dispatched", "auditStageDispatched")
    ∷ ("command_result", "auditStageResult")
    ∷ ("manual_action", "auditStageManual")
    ∷ []

unfoldable pub format_audit_stage : Messages → String → String
format_audit_stage m value = message_or_value m audit_stages value

unfoldable pub audit_statuses : Table
audit_statuses =
    ("event_created", "auditStatusRecorded")
    ∷ ("review", "actionReviewRequired")
    ∷ ("block", "actionAutoBlocked")
    ∷ ("queued", "auditStatusQueued")
    ∷ ("success", "auditStatusSuccess")
    ∷ ("error", "auditStatusError")
    ∷ ("failed", "auditStatusError")
    ∷ ("blocked", "auditStatusBlocked")
    ∷ ("unblocked", "auditStatusUnblocked")
    ∷ []

unfoldable pub format_audit_status : Messages → String → String
format_audit_status m value = message_or_value m audit_statuses value
