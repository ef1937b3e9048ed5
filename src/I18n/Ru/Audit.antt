-- ===== src/I18n/Ru/Audit.antt =====
-- Russian messages of web/src/lib/i18n.ts: security.
use ddsds.Common.{[], ◌∷◌}
use ddsds.I18n.Template.{Section, message, plain, text, arg, end, string, number}

unfoldable pub ru_security_audit : Section
ru_security_audit =
    ("signalRuleAuthLogs", plain "Правила по auth-логам")
    ∷ ("signalRuleWebLogs", plain "Правила по web-логам")
    ∷ ("signalRuleFirewallLogs", plain "Правила по firewall-логам")
    ∷ ("signalRulePlusMl", plain "Rule + ML подтверждение")
    ∷ ("signalMlLogClassifier", plain "ML-классификатор логов")
    ∷ ("signalMlMetricsDetector", plain "ML-детектор аномалий")
    ∷ ("signalGeneric", plain "Общий сигнал")
    ∷ (
      "explanationSshThreshold",
      plain "За короткое окно зафиксировано слишком много неудачных SSH-входов с одного адреса.",
    )
    ∷ (
      "explanationSshInvalidUserThreshold",
      plain
          "С одного IP за короткое окно было слишком много попыток входа под несуществующими SSH-пользователями.",
    )
    ∷ (
      "explanationWebAttackPattern",
      plain "В логе найден сигнатурный паттерн, похожий на известную веб-атаку.",
    )
    ∷ (
      "explanationSensitivePathProbe",
      plain
          "Клиент пытался запросить чувствительный путь или служебную точку входа, типичную для разведки.",
    )
    ∷ (
      "explanationScannerToolPattern",
      plain
          "В строке лога заметен сигнатурный след сканирующего инструмента или автоматизированного пробера.",
    )
    ∷ (
      "explanationWebLoginThreshold",
      plain
          "С одного IP за короткое окно было слишком много повторных попыток входа в web-форму логина.",
    )
    ∷ (
      "explanationRuleMlConfirmed",
      plain "Сигнатурный детектор и ML независимо сошлись на одном типе угрозы.",
    )
    ∷ (
      "explanationPortScanThreshold",
      plain "С одного IP за короткое окно замечено слишком много обращений к разным портам хоста.",
    )
    ∷ (
      "explanationMlLogClassifier",
      plain "Локальный ML-классификатор распознал атакующий паттерн по содержимому строки лога.",
    )
    ∷ (
      "explanationMetricsAnomaly",
      plain "Локальная модель аномалий обнаружила отклонение метрик от обычного профиля хоста.",
    )
    ∷ ("explanationGeneric", plain "Событие требует дополнительной оценки оператором.")
    ∷ (
      "eventPortScanDescription",
      message (number ∷ number ∷ []) (
          text "За "
            (arg 1 (text " сек замечены обращения к " (arg 0 (text " разным портам хоста." end))))),
    )
    ∷ (
      "eventSshBruteforceDescription",
      message (number ∷ number ∷ []) (
          text "За " (
            arg 1
              (text " сек зафиксировано не менее " (arg 0 (text " неудачных SSH-входов." end))))),
    )
    ∷ (
      "eventSshUserEnumDescription",
      message (number ∷ number ∷ []) (
          text "За " (
            arg 1 (
              text " сек замечено не менее "
                (arg 0 (text " попыток входа под несуществующими SSH-пользователями." end))))),
    )
    ∷ (
      "eventWebLoginBruteforceDescription",
      message (number ∷ number ∷ []) (
          text "За " (
            arg 1 (
              text " сек зафиксировано не менее "
                (arg 0 (text " повторных попыток входа в web-логин." end))))),
    )
    ∷ (
      "eventReconChainDescription",
      message (string ∷ []) (
          text "С одного IP за короткое окно собралась цепочка разведочных сигналов: "
            (arg 0 (text "." end))),
    )
    ∷ (
      "eventCredentialChainDescription",
      message (string ∷ [])
          (text "С одного IP собрана цепочка атаки на учётные данные: " (arg 0 (text "." end))),
    )
    ∷ (
      "eventWebAttackChainDescription",
      message (string ∷ []) (text "С одного IP собрана web-цепочка атаки: " (arg 0 (text "." end))),
    )
    ∷ (
      "recommendationReviewIp",
      plain "Проверь IP, связанные логи и при необходимости заблокируй источник.",
    )
    ∷ (
      "recommendationReviewLogs",
      plain "Проверь исходную строку лога и соседние события вокруг неё.",
    )
    ∷ (
      "recommendationReviewMetrics",
      plain "Проверь графики хоста, процессы и сервисы в момент аномалии.",
    )
    ∷ (
      "recommendationAutoBlocked",
      plain
          "Система уже применила автоматическую блокировку. Проверь результат и возможные побочные эффекты.",
    )
    ∷ (
      "recommendationMonitorOnly",
      plain "Пока достаточно наблюдения. Эскалация не требуется, если сигнал не повторяется.",
    )
    ∷ ("recommendationGeneric", plain "Проверь событие и оцени, нужна ли ручная реакция.")
    ∷ ("responseTrail", plain "Трасса реакции")
    ∷ ("auditRecent", plain "Показываем последние шаги response pipeline.")
    ∷ (
      "auditFiltered",
      message (string ∷ []) (text "Показываем трассу реакции для " (arg 0 (text "." end))),
    )
    ∷ ("auditReset", plain "Сбросить трассу")
    ∷ ("auditEmpty", plain "Шагов реакции пока нет")
    ∷ ("auditGeneric", plain "Системное действие")
    ∷ ("auditStageDetected", plain "Сигнал обнаружен")
    ∷ ("auditStageDecision", plain "Принято решение")
    ∷ ("auditStageDispatched", plain "Команда отправлена")
    ∷ ("auditStageResult", plain "Результат команды")
    ∷ ("auditStageManual", plain "Ручное действие")
    ∷ ("auditStatusRecorded", plain "зафиксировано")
    ∷ ("auditStatusQueued", plain "в очереди")
    ∷ ("auditStatusSuccess", plain "выполнено")
    ∷ ("auditStatusError", plain "ошибка")
    ∷ ("auditStatusBlocked", plain "заблокировано")
    ∷ ("auditStatusUnblocked", plain "разблокировано")
    ∷ (
      "auditReasonCooldownActive",
      plain "Повторная автоблокировка подавлена, потому что ещё действует cooldown.",
    )
    ∷ (
      "auditReasonAlreadyBlockedFollowup",
      plain
          "Повторный сигнал подавлен, потому что источник уже находится под активной блокировкой.",
    )
    ∷ (
      "auditReasonRecentDuplicate",
      plain "Повторный однотипный сигнал подавлен как близкий дубликат.",
    )
    ∷ (
      "auditReasonCriticalSeverity",
      plain "Критический сигнал требует немедленной автоматической блокировки.",
    )
    ∷ (
      "auditReasonHighSeverityContainment",
      plain "Сильный сигнал ушёл в автоматическое сдерживание до ручной проверки.",
    )
    ∷ (
      "auditReasonActiveAttackContainment",
      plain "Признаки активной атаки переведены в немедленное сдерживание.",
    )
    ∷ (
      "auditReasonCredentialFirstSeen",
      plain "Подтверждённая атака на учётные данные блокируется с первого срабатывания.",
    )
    ∷ (
      "auditReasonCredentialEscalation",
      plain "Повторяющиеся сигналы атаки на учётные данные эскалированы до автоблокировки.",
    )
    ∷ (
      "auditReasonReconEscalation",
      plain "Повторяющаяся разведка эскалирована до автоматического сдерживания.",
    )
    ∷ (
      "auditReasonReconReview",
      plain "Разведывательный сигнал требует внимательной проверки оператора.",
    )
    ∷ (
      "auditReasonManualContainment",
      plain "Сигнал опасный, но требует ручного containment вместо автоматического действия.",
    )
    ∷ (
      "auditReasonStandbyPassiveNode",
      plain "Узел работает в standby-режиме, поэтому активная реакция намеренно отключена.",
    )
    ∷ ("auditOriginAutoResponse", plain "Автоматическая реакция системы")
    ∷ ("auditOriginOperator", plain "Ручное действие оператора")
    ∷ ("auditOriginTelegram", plain "Команда из Telegram-бота")
    ∷ ("auditMode", message (string ∷ []) (text "Режим работы: " (arg 0 end)))
    ∷ ("auditPolicyStage", message (string ∷ []) (text "Стадия реакции: " (arg 0 end)))
    ∷ ("auditPolicyStageObserve", plain "наблюдение")
    ∷ ("auditPolicyStageReview", plain "проверка")
    ∷ ("auditPolicyStageContain", plain "сдерживание")
    ∷ ("auditPolicyStageBlock", plain "блокировка")
    ∷ ("auditPriority", message (string ∷ []) (text "Приоритет: " (arg 0 end)))
    ∷ ("auditPriorityLow", plain "низкий")
    ∷ ("auditPriorityNormal", plain "обычный")
    ∷ ("auditPriorityHigh", plain "высокий")
    ∷ ("auditPriorityUrgent", plain "срочный")
    ∷ (
      "auditRecentEvents",
      message (number ∷ []) (text "Недавних родственных событий: " (arg 0 end)),
    )
    ∷ ("auditCommandOutcomeSuccess", plain "Команда выполнена успешно.")
    ∷ ("auditCommandOutcomeError", plain "Команда завершилась ошибкой.")
    ∷ ("auditCommandQueued", plain "Команда поставлена в очередь на выполнение агентом.")
    ∷ ("auditNoteAdded", plain "Оператор добавил заметку к инциденту.")
    ∷ ("auditIncidentStatusUpdated", plain "Оператор обновил статус инцидента.")
    ∷ (
      "eventsPage",
      message (number ∷ number ∷ []) (text "Страница " (arg 0 (text " из " (arg 1 end)))),
    )
    ∷ ("previousPage", plain "Назад")
    ∷ ("nextPage", plain "Далее")
    ∷ []
