-- ===== src/I18n/En/Incidents.antt =====
-- English messages of web/src/lib/i18n.ts: security.
use ddsds.Common.{[], ◌∷◌}
use ddsds.I18n.Template.{Section, message, plain, text, arg, end, number}

unfoldable pub en_security_incidents : Section
en_security_incidents =
    ("title", plain "Security")
    ∷ ("summary", plain "Security events, manual blocks, and the currently blocked IP list.")
    ∷ ("incidents", plain "Incidents")
    ∷ ("incidentDetails", plain "Incident details")
    ∷ ("incidentEvidence", plain "Context and evidence")
    ∷ ("incidentResponseContext", plain "Response context")
    ∷ ("incidentOperatorContext", plain "Operator context")
    ∷ ("incidentTimeline", plain "Timeline")
    ∷ ("incidentSignals", plain "Signals")
    ∷ ("incidentRelatedEvidence", plain "Key evidence")
    ∷ ("relatedEvents", plain "Related events")
    ∷ ("relatedEventsEmpty", plain "No separate related events are available for this incident yet")
    ∷ ("incidentNotes", plain "Operator notes")
    ∷ ("incidentNotesEmpty", plain "No notes have been added to this incident yet")
    ∷ ("incidentNotesCount", message (number ∷ []) (text "Notes: " (arg 0 end)))
    ∷ (
      "incidentNotePlaceholder",
      plain "Leave short context: what was checked, what was found, what happens next.",
    )
    ∷ ("incidentAddNote", plain "Add note")
    ∷ ("incidentMarkNew", plain "Mark new")
    ∷ ("incidentMarkInvestigating", plain "Start investigation")
    ∷ ("incidentMarkResolved", plain "Resolve")
    ∷ ("incidentWorkflowError", plain "Failed to update incident workflow")
    ∷ ("noIncidents", plain "No incidents yet")
    ∷ ("incidentNew", plain "new")
    ∷ ("incidentInvestigating", plain "investigating")
    ∷ ("incidentResolved", plain "resolved")
    ∷ ("incidentEventsCount", message (number ∷ []) (arg 0 (text " events" end)))
    ∷ ("incidentRepeatCount", message (number ∷ []) (text "Repeats: " (arg 0 end)))
    ∷ ("incidentSuppressedCount", message (number ∷ []) (text "Suppressed: " (arg 0 end)))
    ∷ ("incidentProgression", plain "Attack progression")
    ∷ ("incidentEvidenceSummary", plain "Evidence summary")
    ∷ ("incidentResolutionSummary", plain "Outcome and state")
    ∷ ("incidentResolutionState", plain "Current state")
    ∷ ("incidentResolutionOpen", plain "Investigation is still open")
    ∷ ("incidentNoResolutionNote", plain "No operator note has been recorded yet.")
    ∷ (
      "incidentResolutionHeadlineIncidentResolved",
      plain "The incident was resolved by the operator",
    )
    ∷ ("incidentResolutionHeadlineSourceBlocked", plain "The source is already blocked")
    ∷ (
      "incidentResolutionHeadlineDecisionRecorded",
      plain "The response decision has already been recorded",
    )
    ∷ (
      "incidentResolutionHeadlineInvestigationOpen",
      plain "The incident is still under investigation",
    )
    ∷ ("incidentResolutionHeadlineReview", plain "Manual review is required")
    ∷ ("incidentResolutionHeadlineContain", plain "The system moved the incident into containment")
    ∷ ("incidentResolutionHeadlineBlock", plain "The system applied a hard block")
    ∷ ("incidentBlockedState", plain "Block state")
    ∷ ("incidentBlockedUntil", plain "Blocked until")
    ∷ ("incidentRecommendedNextStep", plain "Next step")
    ∷ ("incidentTraceAvailable", plain "Trace")
    ∷ ("incidentTraceMissing", plain "not recorded yet")
    ∷ ("incidentLatestNote", plain "Latest note")
    ∷ ("incidentNoNotesYet", plain "none yet")
    ∷ ("incidentStatusUpdated", plain "Status updated")
    ∷ ("incidentFirstSeen", plain "First seen")
    ∷ ("incidentLastSeen", plain "Last seen")
    ∷ ("allTypes", plain "All types")
    ∷ ("events", plain "Security Events")
    ∷ ("blockIp", plain "Block IP")
    ∷ ("blockSourceIp", plain "Block source IP")
    ∷ ("blockedIps", plain "Blocked IPs")
    ∷ ("ipAddress", plain "IP Address")
    ∷ ("reason", plain "Reason")
    ∷ ("manualBlock", plain "Manual block")
    ∷ ("block", plain "Block")
    ∷ ("unblock", plain "Unblock")
    ∷ ("severity", plain "Severity")
    ∷ ("type", plain "Type")
    ∷ ("sourceIp", plain "Source IP")
    ∷ ("sourceHost", plain "On server")
    ∷ ("signalSource", plain "Signal source")
    ∷ ("confidence", plain "Confidence")
    ∷ ("recommendedAction", plain "Recommended action")
    ∷ ("description", plain "Description")
    ∷ ("action", plain "Action")
    ∷ ("time", plain "Time")
    ∷ ("blocked", plain "Blocked")
    ∷ ("expires", plain "Expires")
    ∷ ("auto", plain "Auto")
    ∷ ("never", plain "Never")
    ∷ ("invalidIp", plain "Enter a valid IPv4 or IPv6 address.")
    ∷ (
      "blockHint",
      plain
          "Manual block is useful when you need to cut access quickly before autodetection reacts.",
    )
    ∷ ("mutationError", plain "The operation failed. Check the IP and try again.")
    ∷ ("sourceAlreadyBlocked", plain "Source is already blocked")
    ∷ ("actionMlDetection", plain "Detected by ML")
    ∷ ("actionAutoBlocked", plain "Auto-blocked")
    ∷ ("actionLogged", plain "Logged only")
    ∷ ("actionReviewRequired", plain "Review required")
    ∷ []
