-- ===== src/Format/Audit.antt =====
-- `formatAuditSummary` of web/src/lib/format.ts. Of an entry's `details`, which the source types
-- as unknown values, the record holds the five texts and the count that the function reads; a detail
-- that is absent is `none`.
use ddsds.Common.{
  ℕ, String, Bool, true, false, List, [], ◌∷◌, Option, none, some, str_eq, if◌then◌else◌, ltb,
}
use ddsds.Text.{truthy, join}
use ddsds.I18n.Template.{Argument, lookup}
use ddsds.I18n.State.{Messages}
use ddsds.Format.Labels.{Table, security, format_event_type, format_event_source}

pub record AuditDetails : Type 0 where
  pub origin : Option String
  pub reason : Option String
  pub operation_mode : Option String
  pub policy_stage : Option String
  pub operator_priority : Option String
  pub recent_events_count : Option ℕ

pub record ResponseAuditEntry : Type 0 where
  pub id : ℕ
  pub timestamp : ℕ
  pub trace_id : String
  pub stage : String
  pub status : String
  pub event_type : String
  pub source_ip : String
  pub action : String
  pub command : String
  pub details : AuditDetails

-- `String(value ?? '')`
abbrev pub detail : Option String → String
detail none = ""
detail (some s) = s

-- `Number(value ?? 0)`
abbrev detail_count : Option ℕ → ℕ
detail_count none = 0
detail_count (some n) = n

-- `if (condition) parts.push(part)`
abbrev pub push_if : Bool → String → List String → List String
push_if true part parts = part ∷ parts
push_if false part parts = parts

stage_label_map : Messages → Table
stage_label_map m =
    ("observe", security m "auditPolicyStageObserve" [])
    ∷ ("review", security m "auditPolicyStageReview" [])
    ∷ ("contain", security m "auditPolicyStageContain" [])
    ∷ ("block", security m "auditPolicyStageBlock" [])
    ∷ []

priority_label_map : Messages → Table
priority_label_map m =
    ("low", security m "auditPriorityLow" [])
    ∷ ("normal", security m "auditPriorityNormal" [])
    ∷ ("high", security m "auditPriorityHigh" [])
    ∷ ("urgent", security m "auditPriorityUrgent" [])
    ∷ []

-- `map[value] ?? value`
label : Table → String → String
label table value = elim (lookup value table) [ none ↦ value | some s ↦ s ]

-- The reasons of a decision that have a message, in the order of the tests.
unfoldable pub reason_keys : Table
reason_keys =
    ("cooldown_active", "auditReasonCooldownActive")
    ∷ ("already_blocked_followup", "auditReasonAlreadyBlockedFollowup")
    ∷ ("recent_duplicate_event", "auditReasonRecentDuplicate")
    ∷ ("critical_severity", "auditReasonCriticalSeverity")
    ∷ ("high_severity_containment", "auditReasonHighSeverityContainment")
    ∷ ("active_attack_high_confidence", "auditReasonActiveAttackContainment")
    ∷ ("credential_attack_first_seen", "auditReasonCredentialFirstSeen")
    ∷ ("credential_attack_escalation", "auditReasonCredentialEscalation")
    ∷ ("reconnaissance_escalation", "auditReasonReconEscalation")
    ∷ ("reconnaissance_review", "auditReasonReconReview")
    ∷ ("manual_containment_required", "auditReasonManualContainment")
    ∷ ("standby_passive_node", "auditReasonStandbyPassiveNode")
    ∷ []

-- One test per reason, each on its own.
unfoldable pub reason_parts : Messages → Table → String → List String
reason_parts m [] reason = []
reason_parts m ((code, key) ∷ table) reason =
    push_if (str_eq reason code) (security m key []) (reason_parts m table reason)

unfoldable pub detected_parts : Messages → AuditDetails → List String
detected_parts m details =
    let recent_events_count = detail_count details.recent_events_count in
    push_if (ltb 0 recent_events_count)
      (security m "auditRecentEvents" (Argument.count recent_events_count ∷ [])) []

unfoldable pub decision_parts : Messages → AuditDetails → List String
unfolding reason_parts reason_keys label stage_label_map priority_label_map
decision_parts m details =
    let operation_mode = detail details.operation_mode in
    let policy_stage = detail details.policy_stage in
    let operator_priority = detail details.operator_priority in
    push_if (truthy operation_mode) (security m "auditMode" (Argument.words operation_mode ∷ [])) (
      push_if (truthy policy_stage)
        (security m "auditPolicyStage"
          (Argument.words (label (stage_label_map m) policy_stage) ∷ []))
        (push_if (truthy operator_priority)
          (security m "auditPriority"
            (Argument.words (label (priority_label_map m) operator_priority) ∷ []))
          (reason_parts m reason_keys (detail details.reason))))

unfoldable pub manual_parts : Messages → ResponseAuditEntry → List String
manual_parts m entry =
    (if str_eq (detail entry.details.origin) "telegram_bot"
      then security m "auditOriginTelegram" []
      else security m "auditOriginOperator" [])
    ∷ push_if (str_eq entry.action "incident_note") (security m "auditNoteAdded" []) (
        push_if (str_eq entry.action "incident_status_update")
          (security m "auditIncidentStatusUpdated" []) [])

unfoldable pub command_outcome : Messages → String → String
command_outcome m status =
    if str_eq status "success"
    then security m "auditCommandOutcomeSuccess" []
    else security m "auditCommandOutcomeError" []

-- The command, when there is one, and what became of it.
unfoldable pub command_parts : String → String → List String
command_parts command outcome = push_if (truthy command) command (outcome ∷ [])

-- What the stage adds after the type and the source.
unfoldable pub stage_parts : Messages → ResponseAuditEntry → List String
unfolding detected_parts decision_parts manual_parts command_outcome command_parts
stage_parts m entry =
    if str_eq entry.stage "detected"
    then detected_parts m entry.details
    else if str_eq entry.stage "decision"
    then decision_parts m entry.details
    else if str_eq entry.stage "command_dispatched"
    then command_parts entry.command (security m "auditCommandQueued" [])
    else if str_eq entry.stage "command_result"
    then command_parts entry.command (command_outcome m entry.status)
    else if str_eq entry.stage "manual_action"
    then manual_parts m entry
    else push_if (str_eq (detail entry.details.origin) "auto_response")
        (security m "auditOriginAutoResponse" []) []

unfoldable pub audit_parts : Messages → ResponseAuditEntry → List String
unfolding stage_parts
audit_parts m entry =
    (if truthy entry.event_type
      then format_event_type m entry.event_type
      else security m "auditGeneric" [])
    ∷ push_if (truthy entry.source_ip) (format_event_source m (some entry.source_ip))
        (stage_parts m entry)

unfoldable pub format_audit_summary : Messages → ResponseAuditEntry → String
unfolding audit_parts
format_audit_summary m entry = join " · " (audit_parts m entry)
