-- ===== src/I18n/Ru/Platform.antt =====
-- Russian messages of web/src/lib/i18n.ts: system.
use ddsds.Common.{[], ◌∷◌}
use ddsds.I18n.Template.{Section, message, plain, text, arg, if_positive, end, string, number}

unfoldable pub ru_system_platform : Section
ru_system_platform =
    ("title", plain "Система")
    ∷ ("summary", plain "Состояние платформы, ML-модуль и информация о текущем развёртывании.")
    ∷ ("systemStatus", plain "Статус системы")
    ∷ ("apiServer", plain "API Сервер")
    ∷ ("agent", plain "Агент")
    ∷ ("database", plain "База данных")
    ∷ ("mlModule", plain "ML Модуль")
    ∷ ("anomalyDetector", plain "Детектор аномалий метрик")
    ∷ ("attackClassifier", plain "Классификатор атак по логам")
    ∷ ("mlNote", plain "ML-модели обучаются автоматически при достаточном объёме данных.")
    ∷ ("about", plain "О системе")
    ∷ ("version", plain "Nullius v1.0.1-beta")
    ∷ ("subtitle", plain "Иммунная система сервера")
    ∷ ("releaseChannel", plain "Канал релиза")
    ∷ ("deploymentMode", plain "Режим развёртывания")
    ∷ ("deploymentRoleTitle", plain "Роль узла")
    ∷ (
      "deploymentRoleSummary",
      plain
          "Первый шаг к резервному standby-контуру: видно, какой узел активный, а какой работает как пассивный резерв без активной реакции.",
    )
    ∷ ("deploymentRolePrimary", plain "Основной узел")
    ∷ ("deploymentRoleStandby", plain "Резервный узел")
    ∷ ("deploymentRolePrimaryHint", plain "активный узел")
    ∷ ("deploymentRoleStandbyHint", plain "пассивный резерв")
    ∷ ("deploymentBackgroundLoops", plain "Фоновые изменяющие циклы")
    ∷ ("deploymentActiveResponse", plain "Активная реакция")
    ∷ ("deploymentPrimaryLock", plain "Блокировка primary")
    ∷ ("deploymentNodeName", message (string ∷ []) (text "Имя узла: " (arg 0 end)))
    ∷ (
      "deploymentLockOwner",
      message (string ∷ number ∷ [])
          (text "Lock-владелец: " (arg 0 (if_positive 1 (text " · PID " (arg 1 end)) end end))),
    )
    ∷ (
      "deploymentFailoverEnabled",
      message (string ∷ number ∷ []) (
          text "Автоматический failover включён: основной узел "
            (arg 0 (text ", порог " (arg 1 (text " подряд неудачных проверок." end))))),
    )
    ∷ ("deploymentFailoverDisabled", plain "Автоматический failover выключен.")
    ∷ (
      "deploymentPrimaryNote",
      plain
          "Основной узел выполняет автоответ, фоновые циклы, интеграции, снимки риска и обслуживание блокировок.",
    )
    ∷ (
      "deploymentStandbyNote",
      plain
          "Резервный узел остаётся доступным для чтения и проверки состояния, но не выполняет блокировки, завершение процессов и перезапуск сервисов. Для перевода в активную роль используй nullius-promote-standby.",
    )
    ∷ ("uiLanguage", plain "Язык интерфейса")
    ∷ ("betaChannel", plain "Beta")
    ∷ ("selfHosted", plain "Self-hosted")
    ∷ (
      "aboutDescription",
      plain
          "Nullius объединяет телеметрию хоста, события безопасности и управляемые ответные действия в одной self-hosted панели.",
    )
    ∷ (
      "systemStatusHint",
      plain "Если какой-то компонент не работает, сначала проверь его systemd-статус и health API.",
    )
    ∷ ("mlPendingTitle", plain "ML-функции пока в режиме ожидания")
    ∷ (
      "mlPendingDescription",
      plain
          "Модели начнут приносить пользу после накопления достаточного объёма данных и фонового обучения.",
    )
    ∷ ("mlReasonWaiting", plain "Ожидает первого цикла фонового обучения.")
    ∷ ("mlReasonTraining", plain "Сейчас идёт фоновое обучение на накопленных метриках.")
    ∷ (
      "mlReasonInsufficientData",
      message (number ∷ number ∷ []) (
          text "Недостаточно данных для обучения: "
            (arg 0 (text " из " (arg 1 (text " метрик." end))))),
    )
    ∷ (
      "mlReasonInsufficientCleanData",
      message (number ∷ number ∷ number ∷ number ∷ []) (
          text "Сырых данных хватает (" (
            arg 2 (
              text "), но после очистки шумных участков осталось только " (
                arg 0 (
                  text " из " (
                    arg 1
                      (text " метрик. Текущий буфер фильтрации: " (arg 3 (text " сек." end))))))))),
    )
    ∷ (
      "mlReasonPostponed",
      message (number ∷ number ∷ []) (
          text "Обучение отложено: в окне обучения слишком много событий безопасности ("
            (arg 0 (text " из допустимых " (arg 1 (text ")." end))))),
    )
    ∷ (
      "mlReasonFilteredBaseline",
      message (number ∷ number ∷ number ∷ []) (
          text "Модель обучена на очищенном окне: использовано " (
            arg 0 (
              text " из " (
                arg 1 (
                  text " метрик, загрязнённые участки вокруг событий были исключены (буфер "
                    (arg 2 (text " сек)." end))))))),
    )
    ∷ (
      "mlReasonBestEffortBaseline",
      message (number ∷ number ∷ number ∷ []) (
          text
            "Строго чистое окно не нашлось, поэтому модель обучена на наименее загрязнённом baseline: использовано "
            (arg 0 (
              text " из " (
                arg 1
                  (text " метрик. Текущий уровень шумовой нагрузки: " (arg 2 (text "." end))))))),
    )
    ∷ (
      "mlReasonReady",
      message (number ∷ []) (
          if_positive 0 (text "Модель обучена на " (arg 0 (text " записях метрик." end)))
            (text "Модель готова к работе." end) end),
    )
    ∷ ("mlReasonFailed", plain "Не удалось выполнить обучение модели. Проверь серверные логи.")
    ∷ (
      "mlReasonLoadFailed",
      plain "Не удалось загрузить сохранённую модель. Будет предпринята новая попытка обучения.",
    )
    ∷ ("mlNextAttempt", plain "Следующая попытка")
    ∷ (
      "mlDatasetQuality",
      message (number ∷ string ∷ number ∷ number ∷ []) (
          text "Качество baseline: " (
            arg 1 (
              text " (" (
                arg 0 (
                  text "/100). Чистых метрик: "
                    (arg 2 (text ", отброшено как шум: " (arg 3 (text "." end))))))))),
    )
    ∷ ("mlQualityHigh", plain "высокое")
    ∷ ("mlQualityMedium", plain "среднее")
    ∷ ("mlQualityLow", plain "низкое")
    ∷ ("mlNoiseClean", plain "чистый")
    ∷ ("mlNoiseStressed", plain "напряжённый")
    ∷ ("mlNoiseNoisy", plain "шумный")
    ∷ (
      "mlDatasetPressure",
      message (string ∷ number ∷ number ∷ []) (
          text "Шум baseline: " (
            arg 0 (
              text ". Взвешенное давление событий: "
                (arg 1 (text ". Исключённых окон: " (arg 2 (text "." end))))))),
    )
    ∷ (
      "mlDatasetContext",
      message (string ∷ number ∷ number ∷ []) (
          text "Профиль хоста: " (
            arg 0 (
              text ". Окон обслуживания/деплоя в обучающем окне: "
                (arg 1 (text ". Буфер вокруг maintenance-событий: " (arg 2 (text " сек." end))))))),
    )
    ∷ ("mlProfileGeneric", plain "универсальный")
    ∷ ("mlProfileWeb", plain "web")
    ∷ ("mlProfileDocker", plain "docker")
    ∷ ("mlProfileDatabase", plain "database")
    ∷ ("mlProfileDev", plain "dev")
    ∷ []
