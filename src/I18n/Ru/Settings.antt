-- ===== src/I18n/Ru/Settings.antt =====
-- Russian messages of web/src/lib/i18n.ts: settings.
use ddsds.Common.{[], ◌∷◌}
use ddsds.I18n.Template.{Section, plain}

unfoldable pub ru_settings : Section
ru_settings =
    ("title", plain "Настройки")
    ∷ ("summary", plain "Настройки интерфейса и внешних интеграций текущей сессии.")
    ∷ ("appearance", plain "Внешний вид")
    ∷ ("operationMode", plain "Режим работы")
    ∷ (
      "operationModeHint",
      plain "Определи, насколько активно Nullius должна реагировать на угрозы прямо сейчас.",
    )
    ∷ ("operationModeObserve", plain "Observe")
    ∷ ("operationModeAssist", plain "Assist")
    ∷ ("operationModeAutoDefend", plain "Auto-defend")
    ∷ (
      "operationModeObserveDescription",
      plain "Только наблюдение: система фиксирует сигналы, но не эскалирует действия.",
    )
    ∷ (
      "operationModeAssistDescription",
      plain "Система подсказывает и помечает угрозы для проверки, но не блокирует автоматически.",
    )
    ∷ (
      "operationModeAutoDefendDescription",
      plain "Полный режим защиты: Nullius может автоматически блокировать подтверждённые угрозы.",
    )
    ∷ ("operationModeSaved", plain "Режим работы обновлён")
    ∷ ("operationModeSaveError", plain "Не удалось обновить режим работы")
    ∷ ("integrations", plain "Интеграции")
    ∷ (
      "integrationsHint",
      plain
          "Подключи внешние каналы для важных уведомлений и нескольких быстрых команд без замены веб-интерфейса.",
    )
    ∷ ("integrationNotifications", plain "Типы уведомлений")
    ∷ ("integrationMinSeverity", plain "Минимальный уровень")
    ∷ ("integrationQuietHoursStart", plain "Тихие часы: с")
    ∷ ("integrationQuietHoursEnd", plain "по")
    ∷ (
      "integrationQuietHoursHint",
      plain "Тихие часы приглушают обычные alert-уведомления, но не автоблокировки.",
    )
    ∷ ("integrationSave", plain "Сохранить")
    ∷ ("integrationSendTest", plain "Отправить тест")
    ∷ ("integrationDisconnect", plain "Отключить")
    ∷ ("integrationLastError", plain "Последняя ошибка")
    ∷ ("notifyAutoBlock", plain "Автоблокировки")
    ∷ ("notifyHighSeverity", plain "Важные security events")
    ∷ ("language", plain "Язык интерфейса")
    ∷ ("theme", plain "Тема")
    ∷ ("switchToLight", plain "Светлая тема")
    ∷ ("switchToDark", plain "Тёмная тема")
    ∷ ("appearanceHint", plain "Тема и язык сохраняются локально в браузере и применяются сразу.")
    ∷ ("telegram", plain "Telegram")
    ∷ (
      "telegramHint",
      plain
          "Подключи Telegram-бота для важных уведомлений, статуса и пары быстрых аварийных команд.",
    )
    ∷ ("telegramToken", plain "Токен бота")
    ∷ ("telegramTokenPlaceholder", plain "123456:ABCDEF...")
    ∷ ("telegramSave", plain "Сохранить токен")
    ∷ ("telegramSendTest", plain "Отправить тест")
    ∷ ("telegramDisconnect", plain "Отключить бота")
    ∷ ("telegramConfigured", plain "Бот подключён")
    ∷ ("telegramNotConfigured", plain "Бот не подключён")
    ∷ ("telegramChatBound", plain "Чат привязан")
    ∷ ("telegramChatWaiting", plain "Ожидает /start")
    ∷ ("telegramChatLabel", plain "Чат")
    ∷ ("telegramCommands", plain "Команды")
    ∷ (
      "telegramCommandsList",
      plain
          "/start, /status, /risk, /incidents, /blocked, /mode, /block <ip> [reason], /unblock <ip>, /help",
    )
    ∷ (
      "telegramStartHint",
      plain "После сохранения токена открой бота в Telegram и отправь /start.",
    )
    ∷ ("telegramLastError", plain "Последняя ошибка")
    ∷ ("telegramSaved", plain "Настройки Telegram сохранены")
    ∷ ("telegramSaveError", plain "Не удалось сохранить Telegram-настройки")
    ∷ ("telegramTestSent", plain "Тестовое сообщение отправлено")
    ∷ ("telegramTestError", plain "Не удалось отправить тестовое сообщение")
    ∷ ("slack", plain "Slack")
    ∷ (
      "slackHint",
      plain
          "Подключи входящий Slack webhook, чтобы получать уведомления Nullius в канал или рабочий чат.",
    )
    ∷ ("slackWebhook", plain "Webhook URL")
    ∷ ("slackWebhookPlaceholder", plain "https://hooks.slack.com/services/...")
    ∷ ("slackSave", plain "Сохранить webhook")
    ∷ ("slackSendTest", plain "Отправить тест")
    ∷ ("slackDisconnect", plain "Отключить Slack")
    ∷ ("slackConfigured", plain "Slack подключён")
    ∷ ("slackNotConfigured", plain "Slack не подключён")
    ∷ ("slackLastError", plain "Последняя ошибка")
    ∷ ("slackSaved", plain "Настройки Slack сохранены")
    ∷ ("slackSaveError", plain "Не удалось сохранить Slack-настройки")
    ∷ ("slackTestSent", plain "Тестовое сообщение в Slack отправлено")
    ∷ ("slackTestError", plain "Не удалось отправить тестовое сообщение в Slack")
    ∷ []
