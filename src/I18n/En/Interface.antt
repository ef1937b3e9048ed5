-- ===== src/I18n/En/Interface.antt =====
-- English messages of web/src/lib/i18n.ts: common, nav, dashboard, processes, logs, header, status, severity, table, units, time.
use ddsds.Common.{[], ◌∷◌}
use ddsds.I18n.Template.{Section, message, plain, text, arg, end, string, number}

unfoldable pub en_common : Section
en_common =
    ("loading", plain "Loading...")
    ∷ ("loadingHint", plain "This usually takes a few seconds after opening the page.")
    ∷ ("error", plain "Failed to load data")
    ∷ ("errorHint", plain "Check API and agent status, then refresh the page.")
    ∷ ("retry", plain "Retry")
    ∷ ("noDataHint", plain "Data will appear automatically when the agent sends the next snapshot.")
    ∷ ("pageLoading", plain "Loading page...")
    ∷ ("language", plain "Language")
    ∷ ("now", plain "now")
    ∷ []

unfoldable pub en_nav : Section
en_nav =
    ("mainNavigation", plain "Main navigation")
    ∷ ("dashboard", plain "Overview")
    ∷ ("system", plain "System")
    ∷ ("security", plain "Security")
    ∷ ("processes", plain "Processes")
    ∷ ("logs", plain "Logs")
    ∷ ("settings", plain "Settings")
    ∷ []

unfoldable pub en_dashboard : Section
en_dashboard =
    ("title", plain "Server Overview")
    ∷ ("summary", plain "Host metrics, service status, and recent security events.")
    ∷ ("cpu", plain "CPU")
    ∷ ("ram", plain "Memory")
    ∷ ("disk", plain "Disk")
    ∷ ("network", plain "Network")
    ∷ ("cpuHistory", plain "CPU History")
    ∷ ("ramHistory", plain "RAM History")
    ∷ ("services", plain "Services")
    ∷ ("recentEvents", plain "Recent Events")
    ∷ ("noServices", plain "No services")
    ∷ ("noEvents", plain "No events")
    ∷ ("systemState", plain "Nullius Platform Status")
    ∷ ("systemHealthy", plain "Nullius is operating normally")
    ∷ ("systemAttention", plain "Nullius requires attention")
    ∷ ("systemStateHint", plain "")
    ∷ ("chartValue", plain "Value")
    ∷ ("incomingTraffic", plain "Incoming")
    ∷ ("outgoingTraffic", plain "Outgoing")
    ∷ ("lastUpdate", plain "Last update")
    ∷ ("dataFreshness", plain "Data freshness")
    ∷ ("justUpdated", plain "just now")
    ∷ []

unfoldable pub en_processes : Section
en_processes =
    ("title", plain "Processes")
    ∷ ("summary", plain "Current process snapshot sorted by CPU, RAM, and PID.")
    ∷ ("searchPlaceholder", plain "Search by name or PID...")
    ∷ ("processCount", message (number ∷ []) (arg 0 (text " processes" end)))
    ∷ ("noProcesses", plain "No processes")
    ∷ ("pid", plain "PID")
    ∷ ("name", plain "Name")
    ∷ ("cpuPercent", plain "CPU %")
    ∷ ("ramMb", plain "RAM (MB)")
    ∷ ("actions", plain "Actions")
    ∷ ("terminate", plain "Terminate")
    ∷ ("forceKill", plain "Kill")
    ∷ ("protected", plain "Protected")
    ∷ (
      "terminateHint",
      plain
          "Only regular user-space processes can be terminated. Critical system processes are protected.",
    )
    ∷ ("terminateConfirmTitle", plain "Terminate process?")
    ∷ (
      "terminateConfirmDescription",
      plain
          "A SIGTERM will be sent first. If the process does not exit, the agent will attempt a forced termination.",
    )
    ∷ ("forceKillConfirmTitle", plain "Force kill process?")
    ∷ (
      "forceKillConfirmDescription",
      plain
          "A SIGKILL will be sent immediately with no graceful shutdown period. Use only when normal termination does not help.",
    )
    ∷ (
      "terminateWarning",
      message (string ∷ number ∷ [])
          (text "Process: " (arg 0 (text " (PID " (arg 1 (text ")" end))))),
    )
    ∷ ("terminateQueued", plain "Command sent to agent")
    ∷ ("forceKillQueued", plain "Forced termination command sent to agent")
    ∷ ("terminateError", plain "Failed to send terminate command")
    ∷ ("forceKillError", plain "Failed to send force-kill command")
    ∷ ("cancel", plain "Cancel")
    ∷ ("page", message (number ∷ number ∷ []) (text "Page " (arg 0 (text " of " (arg 1 end)))))
    ∷ ("previousPage", plain "Previous")
    ∷ ("nextPage", plain "Next")
    ∷ []

unfoldable pub en_logs : Section
en_logs =
    ("title", plain "Logs")
    ∷ ("allSources", plain "All sources")
    ∷ ("searchPlaceholder", plain "Search logs...")
    ∷ ("ipPlaceholder", plain "Filter by IP...")
    ∷ ("from", plain "From")
    ∷ ("to", plain "To")
    ∷ ("fromPlaceholder", plain "Range start")
    ∷ ("toPlaceholder", plain "Range end")
    ∷ ("resetRange", plain "Reset range")
    ∷ ("resetInvestigation", plain "Reset investigation")
    ∷ ("autoScroll", plain "Auto-scroll")
    ∷ ("relatedLogs", plain "Related logs")
    ∷ ("investigatingEvent", message (string ∷ []) (text "Investigating: " (arg 0 end)))
    ∷ ("lineCount", message (number ∷ []) (arg 0 (text " lines" end)))
    ∷ ("noLogs", plain "No logs")
    ∷ []

unfoldable pub en_header : Section
en_header =
    ("statusLabel", plain "Control Plane Status")
    ∷ ("agentDisconnected", plain "Agent unavailable")
    ∷ ("liveDisconnected", plain "Realtime updates unavailable")
    ∷ ("currentTime", plain "Current time")
    ∷ ("switchToRu", plain "Русский")
    ∷ ("switchToEn", plain "English")
    ∷ []

unfoldable pub en_status : Section
en_status =
    ("running", plain "running")
    ∷ ("stopped", plain "stopped")
    ∷ ("failed", plain "failed")
    ∷ ("pending", plain "awaiting training")
    ∷ ("training", plain "training")
    ∷ ("insufficientData", plain "insufficient data")
    ∷ ("postponed", plain "training postponed")
    ∷ []

unfoldable pub en_severity : Section
en_severity =
    ("low", plain "low")
    ∷ ("medium", plain "medium")
    ∷ ("high", plain "high")
    ∷ ("critical", plain "critical")
    ∷ []

unfoldable pub en_table : Section
en_table =
    ("noData", plain "No data")
    ∷ ("noDataHint", plain "Try refreshing the page or wait for the next collection cycle.")
    ∷ []

unfoldable pub en_units : Section
en_units =
    ("bytesPerSecond", plain "/s")
    ∷ ("byte", plain "B")
    ∷ ("kilobyte", plain "KB")
    ∷ ("megabyte", plain "MB")
    ∷ ("gigabyte", plain "GB")
    ∷ []

unfoldable pub en_time : Section
en_time =
    ("secondsAgo", message (number ∷ []) (arg 0 (text "s ago" end)))
    ∷ ("minutesAgo", message (number ∷ []) (arg 0 (text "m ago" end)))
    ∷ ("hoursAgo", message (number ∷ []) (arg 0 (text "h ago" end)))
    ∷ []
