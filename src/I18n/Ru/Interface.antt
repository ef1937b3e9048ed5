-- ===== src/I18n/Ru/Interface.antt =====
-- Russian messages of web/src/lib/i18n.ts: common, nav, dashboard, processes, logs, header, status, severity, table, units, time.
use ddsds.Common.{[], ◌∷◌}
use ddsds.I18n.Template.{Section, message, plain, text, arg, end, string, number}

unfoldable pub ru_common : Section
ru_common =
    ("loading", plain "Загрузка...")
    ∷ ("loadingHint", plain "Обычно это занимает несколько секунд после открытия страницы.")
    ∷ ("error", plain "Ошибка загрузки данных")
    ∷ ("errorHint", plain "Проверь статус API и агента, затем обнови страницу.")
    ∷ ("retry", plain "Повторить")
    ∷ ("noDataHint", plain "Данные появятся автоматически, когда агент отправит следующий снимок.")
    ∷ ("pageLoading", plain "Загрузка страницы...")
    ∷ ("language", plain "Язык")
    ∷ ("now", plain "сейчас")
    ∷ []

unfoldable pub ru_nav : Section
ru_nav =
    ("mainNavigation", plain "Основная навигация")
    ∷ ("dashboard", plain "Обзор")
    ∷ ("system", plain "Система")
    ∷ ("security", plain "Безопасность")
    ∷ ("processes", plain "Процессы")
    ∷ ("logs", plain "Логи")
    ∷ ("settings", plain "Настройки")
    ∷ []

unfoldable pub ru_dashboard : Section
ru_dashboard =
    ("title", plain "Обзор сервера")
    ∷ ("summary", plain "Метрики хоста, состояние сервисов и последние события безопасности.")
    ∷ ("cpu", plain "Процессор")
    ∷ ("ram", plain "Память")
    ∷ ("disk", plain "Диск")
    ∷ ("network", plain "Сеть")
    ∷ ("cpuHistory", plain "История CPU")
    ∷ ("ramHistory", plain "История RAM")
    ∷ ("services", plain "Сервисы")
    ∷ ("recentEvents", plain "Последние события")
    ∷ ("noServices", plain "Нет сервисов")
    ∷ ("noEvents", plain "Нет событий")
    ∷ ("systemState", plain "Состояние платформы Nullius")
    ∷ ("systemHealthy", plain "Nullius работает штатно")
    ∷ ("systemAttention", plain "Nullius требует внимания")
    ∷ ("systemStateHint", plain "")
    ∷ ("chartValue", plain "Значение")
    ∷ ("incomingTraffic", plain "Входящий")
    ∷ ("outgoingTraffic", plain "Исходящий")
    ∷ ("lastUpdate", plain "Последнее обновление")
    ∷ ("dataFreshness", plain "Свежесть данных")
    ∷ ("justUpdated", plain "только что")
    ∷ []

unfoldable pub ru_processes : Section
ru_processes =
    ("title", plain "Процессы")
    ∷ ("summary", plain "Текущий снимок активных процессов с сортировкой по CPU, RAM и PID.")
    ∷ ("searchPlaceholder", plain "Поиск по имени или PID...")
    ∷ ("processCount", message (number ∷ []) (arg 0 (text " процессов" end)))
    ∷ ("noProcesses", plain "Нет процессов")
    ∷ ("pid", plain "PID")
    ∷ ("name", plain "Имя")
    ∷ ("cpuPercent", plain "CPU %")
    ∷ ("ramMb", plain "RAM (МБ)")
    ∷ ("actions", plain "Действия")
    ∷ ("terminate", plain "Завершить")
    ∷ ("forceKill", plain "Убить")
    ∷ ("protected", plain "Защищён")
    ∷ (
      "terminateHint",
      plain
          "Можно завершать только обычные пользовательские процессы. Критичные системные процессы защищены.",
    )
    ∷ ("terminateConfirmTitle", plain "Завершить процесс?")
    ∷ (
      "terminateConfirmDescription",
      plain
          "Будет отправлен SIGTERM. Если процесс не завершится сам, агент попробует принудительное завершение.",
    )
    ∷ ("forceKillConfirmTitle", plain "Принудительно убить процесс?")
    ∷ (
      "forceKillConfirmDescription",
      plain
          "Будет сразу отправлен SIGKILL без ожидания graceful shutdown. Используй только если обычное завершение не помогает.",
    )
    ∷ (
      "terminateWarning",
      message (string ∷ number ∷ [])
          (text "Процесс: " (arg 0 (text " (PID " (arg 1 (text ")" end))))),
    )
    ∷ ("terminateQueued", plain "Команда отправлена агенту")
    ∷ ("forceKillQueued", plain "Команда принудительного завершения отправлена агенту")
    ∷ ("terminateError", plain "Не удалось отправить команду завершения")
    ∷ ("forceKillError", plain "Не удалось отправить команду принудительного завершения")
    ∷ ("cancel", plain "Отмена")
    ∷ ("page", message (number ∷ number ∷ []) (text "Страница " (arg 0 (text " из " (arg 1 end)))))
    ∷ ("previousPage", plain "Назад")
    ∷ ("nextPage", plain "Далее")
    ∷ []

unfoldable pub ru_logs : Section
ru_logs =
    ("title", plain "Логи")
    ∷ ("allSources", plain "Все источники")
    ∷ ("searchPlaceholder", plain "Поиск в логах...")
    ∷ ("ipPlaceholder", plain "Фильтр по IP...")
    ∷ ("from", plain "С")
    ∷ ("to", plain "По")
    ∷ ("fromPlaceholder", plain "Начало диапазона")
    ∷ ("toPlaceholder", plain "Конец диапазона")
    ∷ ("resetRange", plain "Сбросить диапазон")
    ∷ ("resetInvestigation", plain "Сбросить расследование")
    ∷ ("autoScroll", plain "Автопрокрутка")
    ∷ ("relatedLogs", plain "Связанные логи")
    ∷ ("investigatingEvent", message (string ∷ []) (text "Расследование: " (arg 0 end)))
    ∷ ("lineCount", message (number ∷ []) (arg 0 (text " строк" end)))
    ∷ ("noLogs", plain "Нет логов")
    ∷ []

unfoldable pub ru_header : Section
ru_header =
    ("statusLabel", plain "Статус контура")
    ∷ ("agentDisconnected", plain "Агент недоступен")
    ∷ ("liveDisconnected", plain "Realtime-обновления недоступны")
    ∷ ("currentTime", plain "Текущее время")
    ∷ ("switchToRu", plain "Русский")
    ∷ ("switchToEn", plain "English")
    ∷ []

unfoldable pub ru_status : Section
ru_status =
    ("running", plain "работает")
    ∷ ("stopped", plain "остановлен")
    ∷ ("failed", plain "ошибка")
    ∷ ("pending", plain "ожидает обучения")
    ∷ ("training", plain "обучается")
    ∷ ("insufficientData", plain "недостаточно данных")
    ∷ ("postponed", plain "обучение отложено")
    ∷ []

unfoldable pub ru_severity : Section
ru_severity =
    ("low", plain "низкий")
    ∷ ("medium", plain "средний")
    ∷ ("high", plain "высокий")
    ∷ ("critical", plain "критический")
    ∷ []

unfoldable pub ru_table : Section
ru_table =
    ("noData", plain "Нет данных")
    ∷ ("noDataHint", plain "Попробуй обновить страницу или подожди следующий цикл сбора.")
    ∷ []

unfoldable pub ru_units : Section
ru_units =
    ("bytesPerSecond", plain "/с")
    ∷ ("byte", plain "Б")
    ∷ ("kilobyte", plain "КБ")
    ∷ ("megabyte", plain "МБ")
    ∷ ("gigabyte", plain "ГБ")
    ∷ []

unfoldable pub ru_time : Section
ru_time =
    ("secondsAgo", message (number ∷ []) (arg 0 (text " сек назад" end)))
    ∷ ("minutesAgo", message (number ∷ []) (arg 0 (text " мин назад" end)))
    ∷ ("hoursAgo", message (number ∷ []) (arg 0 (text " ч назад" end)))
    ∷ []
