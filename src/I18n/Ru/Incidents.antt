-- ===== src/I18n/Ru/Incidents.antt =====
-- Russian messages of web/src/lib/i18n.ts: security.
use ddsds.Common.{[], ◌∷◌}
use ddsds.I18n.Template.{Section, message, plain, text, arg, end, number}

unfoldable pub ru_security_incidents : Section
ru_security_incidents =
    ("title", plain "Безопасность")
    ∷ (
      "summary",
      plain "События безопасности, ручные блокировки и список уже заблокированных адресов.",
    )
    ∷ ("incidents", plain "Инциденты")
    ∷ ("incidentDetails", plain "Детали инцидента")
    ∷ ("incidentEvidence", plain "Контекст и evidence")
    ∷ ("incidentResponseContext", plain "Контекст реакции")
    ∷ ("incidentOperatorContext", plain "Контекст оператора")
    ∷ ("incidentTimeline", plain "Таймлайн")
    ∷ ("incidentSignals", plain "Сигналы")
    ∷ ("incidentRelatedEvidence", plain "Ключевые evidence")
    ∷ ("relatedEvents", plain "Связанные события")
    ∷ (
      "relatedEventsEmpty",
      plain "Для этого инцидента пока нет отдельного списка связанных событий",
    )
    ∷ ("incidentNotes", plain "Заметки оператора")
    ∷ ("incidentNotesEmpty", plain "Заметок по этому инциденту пока нет")
    ∷ ("incidentNotesCount", message (number ∷ []) (text "Заметок: " (arg 0 end)))
    ∷ (
      "incidentNotePlaceholder",
      plain "Зафиксируй краткий контекст: что проверили, что нашли, что решили делать дальше.",
    )
    ∷ ("incidentAddNote", plain "Добавить заметку")
    ∷ ("incidentMarkNew", plain "Вернуть в новое")
    ∷ ("incidentMarkInvestigating", plain "Взять в работу")
    ∷ ("incidentMarkResolved", plain "Закрыть")
    ∷ ("incidentWorkflowError", plain "Не удалось обновить workflow инцидента")
    ∷ ("noIncidents", plain "Инцидентов пока нет")
    ∷ ("incidentNew", plain "новый")
    ∷ ("incidentInvestigating", plain "в работе")
    ∷ ("incidentResolved", plain "закрыт")
    ∷ ("incidentEventsCount", message (number ∷ []) (arg 0 (text " событий" end)))
    ∷ ("incidentRepeatCount", message (number ∷ []) (text "Повторов: " (arg 0 end)))
    ∷ ("incidentSuppressedCount", message (number ∷ []) (text "Подавлено: " (arg 0 end)))
    ∷ ("incidentProgression", plain "Развитие атаки")
    ∷ ("incidentEvidenceSummary", plain "Сводка evidence")
    ∷ ("incidentResolutionSummary", plain "Итог и состояние")
    ∷ ("incidentResolutionState", plain "Текущее состояние")
    ∷ ("incidentResolutionOpen", plain "Расследование продолжается")
    ∷ ("incidentNoResolutionNote", plain "Пояснение пока не зафиксировано.")
    ∷ ("incidentResolutionHeadlineIncidentResolved", plain "Инцидент закрыт оператором")
    ∷ ("incidentResolutionHeadlineSourceBlocked", plain "Источник уже находится под блокировкой")
    ∷ ("incidentResolutionHeadlineDecisionRecorded", plain "Решение по реакции уже зафиксировано")
    ∷ ("incidentResolutionHeadlineInvestigationOpen", plain "Инцидент ещё в активном расследовании")
    ∷ ("incidentResolutionHeadlineReview", plain "Требуется ручная проверка")
    ∷ ("incidentResolutionHeadlineContain", plain "Система перевела инцидент в режим сдерживания")
    ∷ ("incidentResolutionHeadlineBlock", plain "Система применила жёсткую блокировку")
    ∷ ("incidentBlockedState", plain "Состояние блокировки")
    ∷ ("incidentBlockedUntil", plain "Блокировка действует до")
    ∷ ("incidentRecommendedNextStep", plain "Следующий шаг")
    ∷ ("incidentTraceAvailable", plain "Трасса реакции")
    ∷ ("incidentTraceMissing", plain "ещё не зафиксирован")
    ∷ ("incidentLatestNote", plain "Последняя заметка")
    ∷ ("incidentNoNotesYet", plain "ещё нет")
    ∷ ("incidentStatusUpdated", plain "Статус обновлён")
    ∷ ("incidentFirstSeen", plain "Первое событие")
    ∷ ("incidentLastSeen", plain "Последнее событие")
    ∷ ("allTypes", plain "Все типы")
    ∷ ("events", plain "События безопасности")
    ∷ ("blockIp", plain "Блокировка IP")
    ∷ ("blockSourceIp", plain "Заблокировать источник")
    ∷ ("blockedIps", plain "Заблокированные IP")
    ∷ ("ipAddress", plain "IP-адрес")
    ∷ ("reason", plain "Причина")
    ∷ ("manualBlock", plain "Ручная блокировка")
    ∷ ("block", plain "Заблокировать")
    ∷ ("unblock", plain "Разблокировать")
    ∷ ("severity", plain "Уровень")
    ∷ ("type", plain "Тип")
    ∷ ("sourceIp", plain "Источник IP")
    ∷ ("sourceHost", plain "На сервере")
    ∷ ("signalSource", plain "Источник сигнала")
    ∷ ("confidence", plain "Уверенность")
    ∷ ("recommendedAction", plain "Рекомендация")
    ∷ ("description", plain "Описание")
    ∷ ("action", plain "Действие")
    ∷ ("time", plain "Время")
    ∷ ("blocked", plain "Заблокирован")
    ∷ ("expires", plain "Истекает")
    ∷ ("auto", plain "Авто")
    ∷ ("never", plain "Никогда")
    ∷ ("invalidIp", plain "Укажи корректный IPv4 или IPv6 адрес.")
    ∷ (
      "blockHint",
      plain "Ручная блокировка полезна, когда нужно быстро перекрыть доступ до автодетекта.",
    )
    ∷ ("mutationError", plain "Операция не выполнилась. Проверь IP и повтори попытку.")
    ∷ ("sourceAlreadyBlocked", plain "Источник уже заблокирован")
    ∷ ("actionMlDetection", plain "Обнаружено ML")
    ∷ ("actionAutoBlocked", plain "Автоблокировка")
    ∷ ("actionLogged", plain "Только логирование")
    ∷ ("actionReviewRequired", plain "Требует проверки")
    ∷ []
