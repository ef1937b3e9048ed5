-- ===== src/I18n/En/Settings.antt =====
-- English messages of web/src/lib/i18n.ts: settings.
use ddsds.Common.{[], ◌∷◌}
use ddsds.I18n.Template.{Section, plain}

unfoldable pub en_settings : Section
en_settings =
    ("title", plain "Settings")
    ∷ ("summary", plain "Interface settings and external integrations for the current session.")
    ∷ ("appearance", plain "Appearance")
    ∷ ("operationMode", plain "Operation mode")
    ∷ (
      "operationModeHint",
      plain "Choose how actively Nullius should respond to threats right now.",
    )
    ∷ ("operationModeObserve", plain "Observe")
    ∷ ("operationModeAssist", plain "Assist")
    ∷ ("operationModeAutoDefend", plain "Auto-defend")
    ∷ (
      "operationModeObserveDescription",
      plain "Observation only: the system records signals but does not escalate actions.",
    )
    ∷ (
      "operationModeAssistDescription",
      plain "The system highlights threats for operator review, but does not auto-block.",
    )
    ∷ (
      "operationModeAutoDefendDescription",
      plain "Full protection mode: Nullius may automatically block confirmed threats.",
    )
    ∷ ("operationModeSaved", plain "Operation mode updated")
    ∷ ("operationModeSaveError", plain "Failed to update operation mode")
    ∷ ("integrations", plain "Integrations")
    ∷ (
      "integrationsHint",
      plain
          "Connect external channels to receive notifications and quickly pull important context out of Nullius.",
    )
    ∷ ("integrationNotifications", plain "Notification types")
    ∷ ("integrationMinSeverity", plain "Minimum severity")
    ∷ ("integrationQuietHoursStart", plain "Quiet hours: from")
    ∷ ("integrationQuietHoursEnd", plain "to")
    ∷ (
      "integrationQuietHoursHint",
      plain "Quiet hours suppress routine alerts, but do not hide auto-block notifications.",
    )
    ∷ ("integrationSave", plain "Save")
    ∷ ("integrationSendTest", plain "Send test")
    ∷ ("integrationDisconnect", plain "Disconnect")
    ∷ ("integrationLastError", plain "Last error")
    ∷ ("notifyAutoBlock", plain "Auto-blocks")
    ∷ ("notifyHighSeverity", plain "Important security events")
    ∷ ("language", plain "Interface language")
    ∷ ("theme", plain "Theme")
    ∷ ("switchToLight", plain "Light theme")
    ∷ ("switchToDark", plain "Dark theme")
    ∷ (
      "appearanceHint",
      plain "Theme and language are stored locally in the browser and applied immediately.",
    )
    ∷ ("telegram", plain "Telegram")
    ∷ (
      "telegramHint",
      plain
          "Connect a Telegram bot to receive auto-block notifications and request basic Nullius status information.",
    )
    ∷ ("telegramToken", plain "Bot token")
    ∷ ("telegramTokenPlaceholder", plain "123456:ABCDEF...")
    ∷ ("telegramSave", plain "Save token")
    ∷ ("telegramSendTest", plain "Send test")
    ∷ ("telegramDisconnect", plain "Disconnect bot")
    ∷ ("telegramConfigured", plain "Bot connected")
    ∷ ("telegramNotConfigured", plain "Bot not connected")
    ∷ ("telegramChatBound", plain "Chat linked")
    ∷ ("telegramChatWaiting", plain "Waiting for /start")
    ∷ ("telegramChatLabel", plain "Chat")
    ∷ ("telegramCommands", plain "Commands")
    ∷ (
      "telegramCommandsList",
      plain
          "/start, /status, /risk, /incidents, /blocked, /mode, /block <ip> [reason], /unblock <ip>, /help",
    )
    ∷ (
      "telegramStartHint",
      plain "After saving the token, open your bot in Telegram and send /start.",
    )
    ∷ ("telegramLastError", plain "Last error")
    ∷ ("telegramSaved", plain "Telegram settings saved")
    ∷ ("telegramSaveError", plain "Failed to save Telegram settings")
    ∷ ("telegramTestSent", plain "Test message sent")
    ∷ ("telegramTestError", plain "Failed to send test message")
    ∷ ("slack", plain "Slack")
    ∷ (
      "slackHint",
      plain
          "Connect a Slack Incoming Webhook to receive Nullius notifications in a channel or workspace chat.",
    )
    ∷ ("slackWebhook", plain "Webhook URL")
    ∷ ("slackWebhookPlaceholder", plain "https://hooks.slack.com/services/...")
    ∷ ("slackSave", plain "Save webhook")
    ∷ ("slackSendTest", plain "Send test")
    ∷ ("slackDisconnect", plain "Disconnect Slack")
    ∷ ("slackConfigured", plain "Slack connected")
    ∷ ("slackNotConfigured", plain "Slack not connected")
    ∷ ("slackLastError", plain "Last error")
    ∷ ("slackSaved", plain "Slack settings saved")
    ∷ ("slackSaveError", plain "Failed to save Slack settings")
    ∷ ("slackTestSent", plain "Slack test message sent")
    ∷ ("slackTestError", plain "Failed to send Slack test message")
    ∷ []
