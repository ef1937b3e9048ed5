-- ===== src/I18n/En/Risk.antt =====
-- English messages of web/src/lib/i18n.ts: system.
use ddsds.Common.{[], ◌∷◌}
use ddsds.I18n.Template.{Section, message, plain, text, arg, end, string, number}

unfoldable pub en_system_risk : Section
en_system_risk =
    ("riskScore", plain "Host risk score")
    ∷ ("riskLow", plain "low risk")
    ∷ ("riskMedium", plain "moderate risk")
    ∷ ("riskHigh", plain "high risk")
    ∷ ("riskCritical", plain "critical risk")
    ∷ (
      "riskSummary",
      plain
          "A summary of host risk based on services, metrics freshness, and recent security event pressure.",
    )
    ∷ ("riskTrend", plain "Risk trend")
    ∷ ("riskTopContributors", plain "Top contributors right now")
    ∷ ("riskChangeSummary", plain "What changed")
    ∷ ("selfProtection", plain "Platform self-protection")
    ∷ (
      "selfProtectionSummary",
      plain
          "Checks for unsafe modes, secrets, transport boundaries, and sensitive file permissions of Nullius itself.",
    )
    ∷ (
      "selfProtectionCounters",
      message (number ∷ number ∷ number ∷ []) (
          text "Healthy: "
            (arg 0 (text " · Warnings: " (arg 1 (text " · Critical: " (arg 2 end)))))),
    )
    ∷ ("riskTrendStable", plain "no visible change over the latest window")
    ∷ (
      "riskTrendUp",
      message (number ∷ []) (text "up by " (arg 0 (text " over the latest window" end))),
    )
    ∷ (
      "riskTrendDown",
      message (number ∷ []) (text "down by " (arg 0 (text " over the latest window" end))),
    )
    ∷ ("riskHistoryEmpty", plain "Risk history has not accumulated yet")
    ∷ (
      "riskChangeSummaryStable",
      plain "The composition of risk factors has not changed in a meaningful way.",
    )
    ∷ (
      "riskChangeSummaryIncrease",
      message (string ∷ []) (text "Risk is rising mainly because of: " (arg 0 (text "." end))),
    )
    ∷ (
      "riskChangeSummaryDecrease",
      message (string ∷ [])
          (text "Risk pressure is easing, but " (arg 0 (text " is still noticeable." end))),
    )
    ∷ (
      "riskChangeSummaryNewFactor",
      message (string ∷ [])
          (text "A new visible factor appeared in the risk picture: " (arg 0 (text "." end))),
    )
    ∷ ("riskFactorAgent", plain "Agent unavailable")
    ∷ ("riskFactorApi", plain "API unavailable")
    ∷ ("riskFactorDb", plain "Database unavailable")
    ∷ ("riskFactorFailedServices", message (number ∷ []) (text "Failed services: " (arg 0 end)))
    ∷ (
      "riskFactorStoppedServices",
      message (number ∷ []) (text "Important stopped services: " (arg 0 end)),
    )
    ∷ ("riskFactorMetricsMissing", plain "No metrics received yet")
    ∷ (
      "riskFactorMetricsStale",
      message (number ∷ []) (text "Metrics are stale (" (arg 0 (text "s)" end))),
    )
    ∷ (
      "riskFactorMetricsAging",
      message (number ∷ []) (text "Metrics are aging (" (arg 0 (text "s)" end))),
    )
    ∷ (
      "riskFactorSecurityPressure",
      message (number ∷ []) (text "Recent security events: " (arg 0 end)),
    )
    ∷ (
      "riskExplanationHealthy",
      plain
          "The system does not currently see any significant factors materially increasing host risk.",
    )
    ∷ (
      "riskExplanationSingle",
      message (string ∷ [])
          (text "The current risk level is driven mainly by this factor: " (arg 0 (text "." end))),
    )
    ∷ (
      "riskExplanationDouble",
      message (string ∷ string ∷ []) (
          text "The current risk level is driven mainly by two factors: "
            (arg 0 (text " and " (arg 1 (text "." end))))),
    )
    ∷ []
