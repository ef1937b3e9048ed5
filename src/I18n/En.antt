-- ===== src/I18n/En.antt =====
-- The English dictionary of web/src/lib/i18n.ts, in the order of the source's sections.
pub mod Interface
pub mod Platform
pub mod Risk
pub mod Incidents
pub mod Audit
pub mod Settings
use ddsds.Common.{[], ◌∷◌, ◌++◌}
use ddsds.I18n.Template.{Dictionary}
use Interface.{
  en_common, en_nav, en_dashboard, en_processes, en_logs, en_header, en_status, en_severity,
  en_table, en_units, en_time,
}
use Platform.{en_system_platform}
use Risk.{en_system_risk}
use Incidents.{en_security_incidents}
use Audit.{en_security_audit}
use Settings.{en_settings}

unfoldable pub en : Dictionary
unfolding en_common en_nav en_dashboard en_processes en_logs en_header en_status en_severity
    en_table en_units en_time en_system_platform en_system_risk en_security_incidents
    en_security_audit en_settings
en =
    ("common", en_common)
    ∷ ("nav", en_nav)
    ∷ ("system", en_system_platform ++ en_system_risk)
    ∷ ("dashboard", en_dashboard)
    ∷ ("security", en_security_incidents ++ en_security_audit)
    ∷ ("processes", en_processes)
    ∷ ("logs", en_logs)
    ∷ ("settings", en_settings)
    ∷ ("header", en_header)
    ∷ ("status", en_status)
    ∷ ("severity", en_severity)
    ∷ ("table", en_table)
    ∷ ("units", en_units)
    ∷ ("time", en_time)
    ∷ []
