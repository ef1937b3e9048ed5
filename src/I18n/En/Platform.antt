-- ===== src/I18n/En/Platform.antt =====
-- English messages of web/src/lib/i18n.ts: system.
use ddsds.Common.{[], ◌∷◌}
use ddsds.I18n.Template.{Section, message, plain, text, arg, if_positive, end, string, number}

unfoldable pub en_system_platform : Section
en_system_platform =
    ("title", plain "System")
    ∷ ("summary", plain "Platform status, ML module, and information about the current deployment.")
    ∷ ("systemStatus", plain "System Status")
    ∷ ("apiServer", plain "API Server")
    ∷ ("agent", plain "Agent")
    ∷ ("database", plain "Database")
    ∷ ("mlModule", plain "ML Module")
    ∷ ("anomalyDetector", plain "Metrics anomaly detector")
    ∷ ("attackClassifier", plain "Log attack classifier")
    ∷ ("mlNote", plain "ML models train automatically when enough data has been collected.")
    ∷ ("about", plain "About")
    ∷ ("version", plain "Nullius v1.0.1-beta")
    ∷ ("subtitle", plain "Server immune system")
    ∷ ("releaseChannel", plain "Release channel")
    ∷ ("deploymentMode", plain "Deployment mode")
    ∷ ("deploymentRoleTitle", plain "Node role")
    ∷ (
      "deploymentRoleSummary",
      plain
          "A first step toward warm standby: you can see which node is active and which one stays passive without active response.",
    )
    ∷ ("deploymentRolePrimary", plain "Primary")
    ∷ ("deploymentRoleStandby", plain "Standby")
    ∷ ("deploymentRolePrimaryHint", plain "active node")
    ∷ ("deploymentRoleStandbyHint", plain "passive standby")
    ∷ ("deploymentBackgroundLoops", plain "Mutating background loops")
    ∷ ("deploymentActiveResponse", plain "Active response")
    ∷ ("deploymentPrimaryLock", plain "Primary lock")
    ∷ ("deploymentNodeName", message (string ∷ []) (text "Node name: " (arg 0 end)))
    ∷ (
      "deploymentLockOwner",
      message (string ∷ number ∷ [])
          (text "Lock owner: " (arg 0 (if_positive 1 (text " · PID " (arg 1 end)) end end))),
    )
    ∷ (
      "deploymentFailoverEnabled",
      message (string ∷ number ∷ []) (
          text "Failover orchestration enabled: primary "
            (arg 0 (text ", threshold " (arg 1 (text " consecutive failed checks." end))))),
    )
    ∷ ("deploymentFailoverDisabled", plain "Failover orchestration is disabled.")
    ∷ (
      "deploymentPrimaryNote",
      plain
          "The primary node runs auto-response, background loops, integrations, risk snapshots, and block expiry handling.",
    )
    ∷ (
      "deploymentStandbyNote",
      plain
          "The standby node stays available for read access and health checks, but does not execute block/kill/restart actions and does not run mutating background loops. Use nullius-promote-standby to promote it.",
    )
    ∷ ("uiLanguage", plain "Interface language")
    ∷ ("betaChannel", plain "Beta")
    ∷ ("selfHosted", plain "Self-hosted")
    ∷ (
      "aboutDescription",
      plain
          "Nullius combines host telemetry, security events, and guided response actions in one self-hosted control plane.",
    )
    ∷ (
      "systemStatusHint",
      plain "If a component is down, first check its systemd status and the health API.",
    )
    ∷ ("mlPendingTitle", plain "ML features are currently on standby")
    ∷ (
      "mlPendingDescription",
      plain
          "The models become useful after enough data has accumulated and background training completes.",
    )
    ∷ ("mlReasonWaiting", plain "Waiting for the first background training cycle.")
    ∷ ("mlReasonTraining", plain "Background training is currently running on collected metrics.")
    ∷ (
      "mlReasonInsufficientData",
      message (number ∷ number ∷ []) (
          text "Not enough data for training: "
            (arg 0 (text " of " (arg 1 (text " metric samples." end))))),
    )
    ∷ (
      "mlReasonInsufficientCleanData",
      message (number ∷ number ∷ number ∷ number ∷ []) (
          text "There is enough raw data (" (
            arg 2 (
              text "), but only " (
                arg 0 (
                  text " of " (
                    arg 1 (
                      text " metrics remain after filtering noisy segments. Current filter buffer: "
                        (arg 3 (text "s." end))))))))),
    )
    ∷ (
      "mlReasonPostponed",
      message (number ∷ number ∷ []) (
          text "Training postponed: too many security events in the training window ("
            (arg 0 (text " of " (arg 1 (text " allowed)." end))))),
    )
    ∷ (
      "mlReasonFilteredBaseline",
      message (number ∷ number ∷ number ∷ []) (
          text "Model trained on a cleaned baseline: " (
            arg 0 (
              text " of " (
                arg 1 (
                  text " metrics were used after excluding noisy regions around events ("
                    (arg 2 (text "s buffer)." end))))))),
    )
    ∷ (
      "mlReasonBestEffortBaseline",
      message (number ∷ number ∷ number ∷ []) (
          text
            "A perfectly clean window was not available, so the model trained on the least contaminated baseline: "
            (arg 0 (
              text " of " (
                arg 1 (
                  text " metric samples were used. Current noise pressure: "
                    (arg 2 (text "." end))))))),
    )
    ∷ (
      "mlReasonReady",
      message (number ∷ []) (
          if_positive 0 (text "Model trained on " (arg 0 (text " metric samples." end)))
            (text "Model is ready." end) end),
    )
    ∷ ("mlReasonFailed", plain "Model training could not be completed. Check server logs.")
    ∷ (
      "mlReasonLoadFailed",
      plain "The saved model could not be loaded. A new training attempt will be made.",
    )
    ∷ ("mlNextAttempt", plain "Next attempt")
    ∷ (
      "mlDatasetQuality",
      message (number ∷ string ∷ number ∷ number ∷ []) (
          text "Baseline quality: " (
            arg 1 (
              text " (" (
                arg 0 (
                  text "/100). Clean metrics: "
                    (arg 2 (text ", discarded as noise: " (arg 3 (text "." end))))))))),
    )
    ∷ ("mlQualityHigh", plain "high")
    ∷ ("mlQualityMedium", plain "medium")
    ∷ ("mlQualityLow", plain "low")
    ∷ ("mlNoiseClean", plain "clean")
    ∷ ("mlNoiseStressed", plain "stressed")
    ∷ ("mlNoiseNoisy", plain "noisy")
    ∷ (
      "mlDatasetPressure",
      message (string ∷ number ∷ number ∷ []) (
          text "Baseline noise: " (
            arg 0 (
              text ". Weighted event pressure: "
                (arg 1 (text ". Excluded windows: " (arg 2 (text "." end))))))),
    )
    ∷ (
      "mlDatasetContext",
      message (string ∷ number ∷ number ∷ []) (
          text "Host profile: " (
            arg 0 (
              text ". Maintenance/deploy windows in the training range: "
                (arg 1 (text ". Buffer around maintenance events: " (arg 2 (text "s." end))))))),
    )
    ∷ ("mlProfileGeneric", plain "generic")
    ∷ ("mlProfileWeb", plain "web")
    ∷ ("mlProfileDocker", plain "docker")
    ∷ ("mlProfileDatabase", plain "database")
    ∷ ("mlProfileDev", plain "dev")
    ∷ []
