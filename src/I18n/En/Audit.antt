-- ===== src/I18n/En/Audit.antt =====
-- English messages of web/src/lib/i18n.ts: security.
use ddsds.Common.{[], ◌∷◌}
use ddsds.I18n.Template.{Section, message, plain, text, arg, end, string, number}

unfoldable pub en_security_audit : Section
en_security_audit =
    ("signalRuleAuthLogs", plain "Auth log rules")
    ∷ ("signalRuleWebLogs", plain "Web log rules")
    ∷ ("signalRuleFirewallLogs", plain "Firewall log rules")
    ∷ ("signalRulePlusMl", plain "Rule + ML confirmation")
    ∷ ("signalMlLogClassifier", plain "ML log classifier")
    ∷ ("signalMlMetricsDetector", plain "ML anomaly detector")
    ∷ ("signalGeneric", plain "Generic signal")
    ∷ (
      "explanationSshThreshold",
      plain
          "Too many failed SSH sign-in attempts were observed from the same source within a short window.",
    )
    ∷ (
      "explanationSshInvalidUserThreshold",
      plain
          "Too many attempts to sign in as non-existent SSH users were observed from the same source within a short window.",
    )
    ∷ (
      "explanationWebAttackPattern",
      plain "A signature-like pattern matching a known web attack was found in the log.",
    )
    ∷ (
      "explanationSensitivePathProbe",
      plain
          "The client tried to request a sensitive path or service endpoint commonly seen during reconnaissance.",
    )
    ∷ (
      "explanationScannerToolPattern",
      plain "The log line contains a signature of a scanner tool or other automated probe.",
    )
    ∷ (
      "explanationWebLoginThreshold",
      plain
          "Too many repeated attempts to sign in through a web login form were observed from the same source in a short window.",
    )
    ∷ (
      "explanationRuleMlConfirmed",
      plain "The signature detector and ML independently agreed on the same threat type.",
    )
    ∷ (
      "explanationPortScanThreshold",
      plain "A single IP touched too many different host ports within a short time window.",
    )
    ∷ (
      "explanationMlLogClassifier",
      plain "The local ML classifier recognized an attack-like pattern in the log line.",
    )
    ∷ (
      "explanationMetricsAnomaly",
      plain "The local anomaly model detected a deviation from the host baseline metrics.",
    )
    ∷ ("explanationGeneric", plain "This event needs additional operator review.")
    ∷ (
      "eventPortScanDescription",
      message (number ∷ number ∷ [])
          (arg 0 (text " different host ports were probed within " (arg 1 (text "s." end)))),
    )
    ∷ (
      "eventSshBruteforceDescription",
      message (number ∷ number ∷ []) (
          text "At least " (
            arg 0 (text " failed SSH sign-in attempts were seen within " (arg 1 (text "s." end))))),
    )
    ∷ (
      "eventSshUserEnumDescription",
      message (number ∷ number ∷ []) (
          text "At least " (
            arg 0 (
              text " attempts to sign in as non-existent SSH users were seen within "
                (arg 1 (text "s." end))))),
    )
    ∷ (
      "eventWebLoginBruteforceDescription",
      message (number ∷ number ∷ []) (
          text "At least " (
            arg 0 (text " repeated web login attempts were seen within " (arg 1 (text "s." end))))),
    )
    ∷ (
      "eventReconChainDescription",
      message (string ∷ []) (
          text "A short-window reconnaissance chain was observed from one source IP: "
            (arg 0 (text "." end))),
    )
    ∷ (
      "eventCredentialChainDescription",
      message (string ∷ []) (
          text "A credential attack chain was assembled from one source IP: "
            (arg 0 (text "." end))),
    )
    ∷ (
      "eventWebAttackChainDescription",
      message (string ∷ [])
          (text "A web attack chain was assembled from one source IP: " (arg 0 (text "." end))),
    )
    ∷ (
      "recommendationReviewIp",
      plain "Review the source IP, related logs, and block it if needed.",
    )
    ∷ ("recommendationReviewLogs", plain "Review the original log line and surrounding events.")
    ∷ (
      "recommendationReviewMetrics",
      plain "Check host charts, processes, and services around the anomaly window.",
    )
    ∷ (
      "recommendationAutoBlocked",
      plain
          "The system already applied an automatic block. Verify the result and any side effects.",
    )
    ∷ ("recommendationMonitorOnly", plain "Monitoring is enough for now unless the signal repeats.")
    ∷ (
      "recommendationGeneric",
      plain "Review the event and decide whether manual action is needed.",
    )
    ∷ ("responseTrail", plain "Response trail")
    ∷ ("auditRecent", plain "Showing recent response pipeline steps.")
    ∷ (
      "auditFiltered",
      message (string ∷ []) (text "Showing response trail for " (arg 0 (text "." end))),
    )
    ∷ ("auditReset", plain "Reset trail")
    ∷ ("auditEmpty", plain "No response steps yet")
    ∷ ("auditGeneric", plain "System action")
    ∷ ("auditStageDetected", plain "Signal detected")
    ∷ ("auditStageDecision", plain "Decision made")
    ∷ ("auditStageDispatched", plain "Command dispatched")
    ∷ ("auditStageResult", plain "Command result")
    ∷ ("auditStageManual", plain "Manual action")
    ∷ ("auditStatusRecorded", plain "recorded")
    ∷ ("auditStatusQueued", plain "queued")
    ∷ ("auditStatusSuccess", plain "completed")
    ∷ ("auditStatusError", plain "error")
    ∷ ("auditStatusBlocked", plain "blocked")
    ∷ ("auditStatusUnblocked", plain "unblocked")
    ∷ (
      "auditReasonCooldownActive",
      plain "Repeat auto-block was suppressed because cooldown is still active.",
    )
    ∷ (
      "auditReasonAlreadyBlockedFollowup",
      plain "Follow-up signal was suppressed because the source is already blocked.",
    )
    ∷ (
      "auditReasonRecentDuplicate",
      plain "A near-duplicate signal was suppressed to reduce noise.",
    )
    ∷ (
      "auditReasonCriticalSeverity",
      plain "A critical signal requires immediate automatic blocking.",
    )
    ∷ (
      "auditReasonHighSeverityContainment",
      plain "A strong signal was moved to automatic containment pending operator review.",
    )
    ∷ (
      "auditReasonActiveAttackContainment",
      plain "Signs of an active attack were escalated to immediate containment.",
    )
    ∷ (
      "auditReasonCredentialFirstSeen",
      plain "A confirmed credential attack is blocked on first sight.",
    )
    ∷ (
      "auditReasonCredentialEscalation",
      plain "Repeated credential attack signals were escalated to auto-block.",
    )
    ∷ (
      "auditReasonReconEscalation",
      plain "Repeated reconnaissance was escalated to automatic containment.",
    )
    ∷ ("auditReasonReconReview", plain "The reconnaissance signal requires operator review.")
    ∷ (
      "auditReasonManualContainment",
      plain
          "The signal is dangerous, but containment requires manual action instead of auto-response.",
    )
    ∷ (
      "auditReasonStandbyPassiveNode",
      plain "The node is running in standby mode, so active response is intentionally disabled.",
    )
    ∷ ("auditOriginAutoResponse", plain "Automatic system response")
    ∷ ("auditOriginOperator", plain "Manual operator action")
    ∷ ("auditOriginTelegram", plain "Telegram bot command")
    ∷ ("auditMode", message (string ∷ []) (text "Operation mode: " (arg 0 end)))
    ∷ ("auditPolicyStage", message (string ∷ []) (text "Response stage: " (arg 0 end)))
    ∷ ("auditPolicyStageObserve", plain "observe")
    ∷ ("auditPolicyStageReview", plain "review")
    ∷ ("auditPolicyStageContain", plain "containment")
    ∷ ("auditPolicyStageBlock", plain "blocking")
    ∷ ("auditPriority", message (string ∷ []) (text "Priority: " (arg 0 end)))
    ∷ ("auditPriorityLow", plain "low")
    ∷ ("auditPriorityNormal", plain "normal")
    ∷ ("auditPriorityHigh", plain "high")
    ∷ ("auditPriorityUrgent", plain "urgent")
    ∷ ("auditRecentEvents", message (number ∷ []) (text "Recent related events: " (arg 0 end)))
    ∷ ("auditCommandOutcomeSuccess", plain "Command completed successfully.")
    ∷ ("auditCommandOutcomeError", plain "Command finished with an error.")
    ∷ ("auditCommandQueued", plain "Command was queued for the agent.")
    ∷ ("auditNoteAdded", plain "The operator added an incident note.")
    ∷ ("auditIncidentStatusUpdated", plain "The operator updated the incident status.")
    ∷ (
      "eventsPage",
      message (number ∷ number ∷ []) (text "Page " (arg 0 (text " of " (arg 1 end)))),
    )
    ∷ ("previousPage", plain "Previous")
    ∷ ("nextPage", plain "Next")
    ∷ []
