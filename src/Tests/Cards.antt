-- ===== src/Tests/Cards.antt =====
-- The cards of web/src/components/system/SystemCards.tsx and the chart of
-- web/src/components/metrics/MetricChart.tsx.
use ddsds.Common.{
  ℕ, ◌-◌, ◌<◌, String, true, false, List, [], ◌∷◌, none, some, ◌≡◌, length, arith, All, map,
}
use ddsds.Text.{decimal}
use ddsds.Types.{Severity}
use ddsds.Format.Risk.{RiskLevel, RiskFactor, RiskHistoryPoint}
use ddsds.Chart.{ChartPoint, bounds_of, svg_points, x_ticks, tick_indices}
use ddsds.Chart.Ticks.{is_some, IsSpanning, x_ticks-IsSpanning}
use ddsds.Chart.Frame.{IsInFrame, svg_points-IsInFrame}
use ddsds.System.{
  postponed, Quality, stressed, MlAnomalyDetectorStatus, warning, standby, DeploymentStatus,
}
use ddsds.System.RiskCard.{Fraction, range_of, sparkline_points}
use ddsds.System.Sparkline.{IsDrawn, sparkline_points-IsDrawn}
use ddsds.System.Page.{SystemQueries, Query}

abbrev given : {A : Type 0} → A → Query A
given a = record { «data» = some a; is_error = false; is_loading = false }

abbrev detector : MlAnomalyDetectorStatus
detector = record {
  ready = false;
  status = postponed;
  reason_code = "poisoned_baseline";
  samples_count = 900;
  filtered_samples_count = 400;
  discarded_samples_count = 500;
  required_samples = 720;
  event_count = 40;
  max_event_count = 25;
  maintenance_event_count = 2;
  host_profile = "docker";
  filter_window_seconds = 600;
  maintenance_window_seconds = 300;
  dataset_quality_score = 61;
  dataset_quality_label = Quality.medium;
  dataset_noise_label = stressed;
  weighted_event_pressure = 12;
  excluded_windows_count = 3;
  updated_at = 1700000000;
  next_run_at = some 1700003600;
}

abbrev deployment : DeploymentStatus
deployment = record {
  role = standby;
  node_name = "node-b";
  primary_lock_path = "/run/nullius.lock";
  updated_at = 1700000000;
  background_tasks_enabled = false;
  active_response_enabled = false;
  promote_supported = true;
  primary_lock_held = false;
  primary_lock_info = record {
    path = "/run/nullius.lock";
    exists = true;
    locked = true;
    owner_node_name = "node-a";
    owner_pid = 812;
    updated_at = 1700000000;
  };
  failover = record {
    enabled = true;
    primary_api_url = "";
    check_interval = 10;
    failure_threshold = 3;
    cooloff_seconds = 60;
  };
}

abbrev risk_factor : RiskFactor
risk_factor = record { code = "unknown"; weight = 15; count = some 2; age_seconds = none }

abbrev history_point : ℕ → ℕ → RiskHistoryPoint
history_point at score = record {
  timestamp = at;
  score = score;
  level = RiskLevel.medium;
  factors = risk_factor ∷ [];
}

abbrev queries : SystemQueries
queries = record {
  health = given (record { status = "ok"; agent = "disconnected"; db = "ok" });
  ml = given (record { anomaly_detector = detector; attack_classifier = true });
  risk_score = given (record {
    score = 35;
    level = RiskLevel.medium;
    factors = risk_factor ∷ [];
    updated_at = 1700000000;
  });
  risk_history = some (history_point 1700000000 20 ∷ history_point 1700000300 35 ∷ []);
  self_protection = given (record {
    level = Severity.medium;
    healthy_count = 4;
    warning_count = 1;
    failing_count = 0;
    checks =
        record {
          code = "tls";
          status = warning;
          severity = Severity.medium;
          title = "TLS";
          description = "off";
          recommendation = "on";
        }
        ∷ [];
  });
  deployment = given deployment;
}

abbrev whole_part : Fraction → String
whole_part p = decimal p.top

abbrev scores : List ℕ
scores = 20 ∷ 35 ∷ 0 ∷ 100 ∷ []

sparkline_points-IsDrawn_example :
    (0 < length scores - 1)
    × (0 < range_of scores)
    × IsDrawn (length scores - 1) (range_of scores) 0 scores (sparkline_points scores)
sparkline_points-IsDrawn_example = sparkline_points-IsDrawn scores (omega arith)

abbrev chart_points : List ChartPoint
chart_points =
    record { timestamp = 1700000000; value = 12 }
    ∷ record { timestamp = 1700000060; value = 80 }
    ∷ record { timestamp = 1700000120; value = 33 }
    ∷ []

svg_points-IsInFrame_example :
    (length (svg_points 600 chart_points) ≡ length chart_points)
    × All
        (IsInFrame (bounds_of (map (λ p. p.value) chart_points)) 600)
        (svg_points 600 chart_points)
svg_points-IsInFrame_example = svg_points-IsInFrame 600 chart_points (omega arith)

abbrev nine : List ℕ
nine = 0 ∷ 1 ∷ 2 ∷ 3 ∷ 4 ∷ 5 ∷ 6 ∷ 7 ∷ 8 ∷ []

x_ticks-IsSpanning_example :
    (is_some (x_ticks nine) ≡ true) × IsSpanning (tick_indices (length nine)) (length nine - 1)
x_ticks-IsSpanning_example = x_ticks-IsSpanning nine (omega arith)
