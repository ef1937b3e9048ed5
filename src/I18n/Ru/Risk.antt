-- ===== src/I18n/Ru/Risk.antt =====
-- Russian messages of web/src/lib/i18n.ts: system.
use ddsds.Common.{[], ◌∷◌}
use ddsds.I18n.Template.{Section, message, plain, text, arg, end, string, number}

unfoldable pub ru_system_risk : Section
ru_system_risk =
    ("riskScore", plain "Риск сервера")
    ∷ ("riskLow", plain "низкий риск")
    ∷ ("riskMedium", plain "умеренный риск")
    ∷ ("riskHigh", plain "высокий риск")
    ∷ ("riskCritical", plain "критический риск")
    ∷ (
      "riskSummary",
      plain
          "Сводная оценка состояния хоста по сервисам, свежести метрик и давлению security events.",
    )
    ∷ ("riskTrend", plain "Тренд риска")
    ∷ ("riskTopContributors", plain "Что сильнее всего влияет сейчас")
    ∷ ("riskChangeSummary", plain "Что изменилось")
    ∷ ("selfProtection", plain "Самозащита платформы")
    ∷ (
      "selfProtectionSummary",
      plain
          "Проверка небезопасных режимов, секретов, транспортного контура и чувствительных прав доступа самой Nullius.",
    )
    ∷ (
      "selfProtectionCounters",
      message (number ∷ number ∷ number ∷ []) (
          text "Норма: "
            (arg 0 (text " · Предупреждения: " (arg 1 (text " · Критично: " (arg 2 end)))))),
    )
    ∷ ("riskTrendStable", plain "без заметных изменений за последнее окно")
    ∷ (
      "riskTrendUp",
      message (number ∷ []) (text "рост на " (arg 0 (text " за последнее окно" end))),
    )
    ∷ (
      "riskTrendDown",
      message (number ∷ []) (text "снижение на " (arg 0 (text " за последнее окно" end))),
    )
    ∷ ("riskHistoryEmpty", plain "История риска ещё не накопилась")
    ∷ ("riskChangeSummaryStable", plain "Состав факторов риска заметно не изменился.")
    ∷ (
      "riskChangeSummaryIncrease",
      message (string ∷ [])
          (text "Риск растёт прежде всего из-за фактора: " (arg 0 (text "." end))),
    )
    ∷ (
      "riskChangeSummaryDecrease",
      message (string ∷ [])
          (text "Давление риска снижается, но фактор " (arg 0 (text " всё ещё заметен." end))),
    )
    ∷ (
      "riskChangeSummaryNewFactor",
      message (string ∷ [])
          (text "В картине риска появился новый заметный фактор: " (arg 0 (text "." end))),
    )
    ∷ ("riskFactorAgent", plain "Агент недоступен")
    ∷ ("riskFactorApi", plain "API недоступен")
    ∷ ("riskFactorDb", plain "База данных недоступна")
    ∷ (
      "riskFactorFailedServices",
      message (number ∷ []) (text "Неисправных сервисов: " (arg 0 end)),
    )
    ∷ (
      "riskFactorStoppedServices",
      message (number ∷ []) (text "Важных остановленных сервисов: " (arg 0 end)),
    )
    ∷ ("riskFactorMetricsMissing", plain "Метрики ещё не поступали")
    ∷ (
      "riskFactorMetricsStale",
      message (number ∷ []) (text "Метрики устарели (" (arg 0 (text " сек)" end))),
    )
    ∷ (
      "riskFactorMetricsAging",
      message (number ∷ []) (text "Метрики обновлялись давно (" (arg 0 (text " сек)" end))),
    )
    ∷ (
      "riskFactorSecurityPressure",
      message (number ∷ []) (text "Недавних security events: " (arg 0 end)),
    )
    ∷ (
      "riskExplanationHealthy",
      plain "Сейчас система не видит значимых факторов, которые заметно повышают риск хоста.",
    )
    ∷ (
      "riskExplanationSingle",
      message (string ∷ [])
          (text "Сейчас уровень риска в основном определяется фактором: " (arg 0 (text "." end))),
    )
    ∷ (
      "riskExplanationDouble",
      message (string ∷ string ∷ []) (
          text "Сейчас риск повышают прежде всего два фактора: "
            (arg 0 (text " и " (arg 1 (text "." end))))),
    )
    ∷ []
