-- ===== src/System/Page.antt =====
-- web/src/pages/System.tsx: the page of the cards, over what its queries have given so far.
use ddsds.Common.{ℕ, String, Bool, List, ◌∷◌, ◌++◌, Option}
use ddsds.I18n.State.{Messages, Locale}
use ddsds.Format.Risk.{RiskScore, RiskHistoryPoint}
use ddsds.Ui.{Shown}
use ddsds.System.{HealthStatus, MlStatus, SelfProtectionStatus, DeploymentStatus, said}
use ddsds.System.Cards.{system_status_card, deployment_card, self_protection_card, about_card}
use ddsds.System.Detector.{ml_card}
use ddsds.System.RiskCard.{Fraction, risk_card}

-- What the page reads of a query.
pub record Query (A : Type 0) : Type 0 where
  pub «data» : Option A
  pub is_error : Bool
  pub is_loading : Bool

pub record SystemQueries : Type 0 where
  pub health : Query HealthStatus
  pub ml : Query MlStatus
  pub risk_score : Query RiskScore
  pub risk_history : Option (List RiskHistoryPoint)
  pub self_protection : Query SelfProtectionStatus
  pub deployment : Query DeploymentStatus

unfoldable pub system_page :
    (ℕ → String) → (Fraction → String) → Messages → SystemQueries → Locale → List Shown
system_page format_date_time to_fixed m q locale =
    said "title"
    ∷ said "summary"
    ∷ (system_status_card q.health.«data» q.health.is_loading q.health.is_error
        ++ deployment_card q.deployment.«data» q.deployment.is_loading q.deployment.is_error
        ++ risk_card format_date_time to_fixed m q.risk_score.«data» q.risk_history
            q.risk_score.is_loading q.risk_score.is_error
        ++ ml_card format_date_time q.ml.«data» q.ml.is_loading q.ml.is_error
        ++ self_protection_card q.self_protection.«data» q.self_protection.is_loading
            q.self_protection.is_error
        ++ about_card locale)
