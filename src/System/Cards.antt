-- ===== src/System/Cards.antt =====
-- What the cards of web/src/components/system/SystemCards.tsx show. `formatDateTime` is a parameter.
use ddsds.Common.{ℕ, String, Bool, true, false, List, [], ◌∷◌, ◌++◌, Option, none, some, str_eq}
use ddsds.Text.{truthy, or_else}
use ddsds.Types.{Severity}
use ddsds.I18n.State.{Locale, ru_locale, en_locale}
use ddsds.Ui.{
  Shown, text, number, message, severity_badge, fact, error_block, card_body, shown_if, either_of,
}
use ddsds.System.{
  HealthStatus, SelfProtectionStatus, SelfProtectionCheck, primary, standby, DeploymentStatus, said,
  running_or,
}

-- `health?.status === 'ok'`, `health?.agent === 'connected'`, `health?.db === 'ok'`
abbrev is_ok : Option HealthStatus → Bool
is_ok none = false
is_ok (some h) = str_eq h.status "ok"

abbrev is_agent_connected : Option HealthStatus → Bool
is_agent_connected none = false
is_agent_connected (some h) = str_eq h.agent "connected"

abbrev is_db_ok : Option HealthStatus → Bool
is_db_ok none = false
is_db_ok (some h) = str_eq h.db "ok"

unfoldable pub system_status_card : Option HealthStatus → (is_loading is_error : Bool) → List Shown
system_status_card health is_loading is_error =
    said "systemStatus"
    ∷ said "systemStatusHint"
    ∷ card_body is_loading is_error error_block (
        said "apiServer"
        ∷ running_or (is_ok health) "failed"
        ∷ said "agent"
        ∷ running_or (is_agent_connected health) "stopped"
        ∷ said "database"
        ∷ running_or (is_db_ok health) "failed"
        ∷ [])

abbrev is_standby : Option DeploymentStatus → Bool
is_standby none = false
is_standby (some s) = elim s.role [ primary ↦ false | standby ↦ true ]

-- `status?.flag`
abbrev flag : (DeploymentStatus → Bool) → Option DeploymentStatus → Bool
flag f none = false
flag f (some s) = f s

abbrev node_name_of : Option DeploymentStatus → String
node_name_of none = "unknown"
node_name_of (some s) = s.node_name

abbrev pub lock_owner : Option DeploymentStatus → List Shown
lock_owner none = []
lock_owner (some s) = shown_if (truthy s.primary_lock_info.owner_node_name) (
    message "system" "deploymentLockOwner"
      (text s.primary_lock_info.owner_node_name ∷ number s.primary_lock_info.owner_pid ∷ [])
    ∷ [])

abbrev pub failover_line : Option DeploymentStatus → Shown
failover_line none = said "deploymentFailoverDisabled"
failover_line (some s) =
    either_of s.failover.enabled
      (message "system" "deploymentFailoverEnabled" (
        text (or_else s.failover.primary_api_url "not-set")
        ∷ number s.failover.failure_threshold
        ∷ []))
      (said "deploymentFailoverDisabled")

unfoldable pub deployment_content : Option DeploymentStatus → List Shown
deployment_content status =
    said "deploymentRoleSummary"
    ∷ either_of (is_standby status) (said "deploymentRoleStandby") (said "deploymentRolePrimary")
    ∷ either_of (is_standby status) (said "deploymentRoleStandbyHint")
        (said "deploymentRolePrimaryHint")
    ∷ said "deploymentBackgroundLoops"
    ∷ running_or (flag (λ s. s.background_tasks_enabled) status) "stopped"
    ∷ said "deploymentActiveResponse"
    ∷ running_or (flag (λ s. s.active_response_enabled) status) "stopped"
    ∷ said "deploymentPrimaryLock"
    ∷ running_or (flag (λ s. s.primary_lock_held) status) "stopped"
    ∷ message "system" "deploymentNodeName" (text (node_name_of status) ∷ [])
    ∷ (lock_owner status
        ++ failover_line status
          ∷ either_of (is_standby status) (said "deploymentStandbyNote")
              (said "deploymentPrimaryNote")
          ∷ [])

unfoldable pub deployment_card : Option DeploymentStatus → (is_loading is_error : Bool) → List Shown
unfolding deployment_content
deployment_card status is_loading is_error =
    said "deploymentRoleTitle"
    ∷ card_body is_loading is_error error_block (deployment_content status)

abbrev pub level_name : Severity → String
level_name Severity.low = "low"
level_name Severity.medium = "medium"
level_name Severity.high = "high"
level_name Severity.critical = "critical"

abbrev pub level_of : Option SelfProtectionStatus → Severity
level_of none = Severity.low
level_of (some s) = s.level

-- `status?.count ?? 0`
abbrev count_of : (SelfProtectionStatus → ℕ) → Option SelfProtectionStatus → ℕ
count_of f none = 0
count_of f (some s) = f s

abbrev pub checks_of : Option SelfProtectionStatus → List SelfProtectionCheck
checks_of none = []
checks_of (some s) = s.checks

unfoldable pub check_rows : List SelfProtectionCheck → List Shown
check_rows [] = []
check_rows (c ∷ cs) =
    fact c.title
    ∷ fact c.description
    ∷ fact c.recommendation
    ∷ severity_badge (level_name c.severity)
    ∷ check_rows cs

unfoldable pub self_protection_card :
    Option SelfProtectionStatus → (is_loading is_error : Bool) → List Shown
unfolding check_rows
self_protection_card status is_loading is_error =
    said "selfProtection"
    ∷ card_body is_loading is_error error_block (
        said "selfProtectionSummary"
        ∷ severity_badge (level_name (level_of status))
        ∷ message "system" "selfProtectionCounters" (
            number (count_of (λ s. s.healthy_count) status)
            ∷ number (count_of (λ s. s.warning_count) status)
            ∷ number (count_of (λ s. s.failing_count) status)
            ∷ [])
        ∷ check_rows (checks_of status))

abbrev language_name : Locale → String
language_name ru_locale = "Русский"
language_name en_locale = "English"

unfoldable pub about_card : Locale → List Shown
about_card locale =
    said "about"
    ∷ said "version"
    ∷ said "subtitle"
    ∷ said "releaseChannel"
    ∷ said "betaChannel"
    ∷ said "deploymentMode"
    ∷ said "selfHosted"
    ∷ said "uiLanguage"
    ∷ fact (language_name locale)
    ∷ said "aboutDescription"
    ∷ []
