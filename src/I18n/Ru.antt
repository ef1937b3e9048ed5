-- ===== src/I18n/Ru.antt =====
-- The Russian dictionary of web/src/lib/i18n.ts, in the order of the source's sections.
pub mod Interface
pub mod Platform
pub mod Risk
pub mod Incidents
pub mod Audit
pub mod Settings
use ddsds.Common.{[], ◌∷◌, ◌++◌}
use ddsds.I18n.Template.{Dictionary}
use Interface.{
  ru_common, ru_nav, ru_dashboard, ru_processes, ru_logs, ru_header, ru_status, ru_severity,
  ru_table, ru_units, ru_time,
}
use Platform.{ru_system_platform}
use Risk.{ru_system_risk}
use Incidents.{ru_security_incidents}
use Audit.{ru_security_audit}
use Settings.{ru_settings}

unfoldable pub ru : Dictionary
unfolding ru_common ru_nav ru_dashboard ru_processes ru_logs ru_header ru_status ru_severity
    ru_table ru_units ru_time ru_system_platform ru_system_risk ru_security_incidents
    ru_security_audit ru_settings
ru =
    ("common", ru_common)
    ∷ ("nav", ru_nav)
    ∷ ("system", ru_system_platform ++ ru_system_risk)
    ∷ ("dashboard", ru_dashboard)
    ∷ ("security", ru_security_incidents ++ ru_security_audit)
    ∷ ("processes", ru_processes)
    ∷ ("logs", ru_logs)
    ∷ ("settings", ru_settings)
    ∷ ("header", ru_header)
    ∷ ("status", ru_status)
    ∷ ("severity", ru_severity)
    ∷ ("table", ru_table)
    ∷ ("units", ru_units)
    ∷ ("time", ru_time)
    ∷ []
