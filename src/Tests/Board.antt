-- ===== src/Tests/Board.antt =====
-- The page of web/src/pages/Dashboard.tsx.
use ddsds.Common.{ℕ, String, true, false, [], ◌∷◌, none, some}
use ddsds.Text.{decimal}
use ddsds.Types.{Severity, Confidence, SecurityEvent}
use ddsds.Dashboard.{DashboardQueries, ServiceInfo, ServiceStatus, Metrics, Percent}

abbrev metrics : Metrics
metrics = record {
  id = 1;
  timestamp = 1700000000;
  cpu_total = 37;
  cpu_cores = "[]";
  ram_used = 3000000000;
  ram_total = 8000000000;
  disk = "[{}]";
  network_rx = 1500;
  network_tx = 20;
  load_avg = "[]";
}

abbrev event : SecurityEvent
event = record {
  id = 4;
  timestamp = 1699999990;
  type = "port_scan";
  severity = Severity.high;
  source_ip = "10.0.0.7";
  description = "40 unique destination ports probed in 60s";
  raw_log = "";
  action_taken = "logged";
  resolved = 0;
  signal_source = none;
  explanation_code = none;
  confidence = some Confidence.medium;
  recommended_action = none;
  trace_id = none;
}

abbrev service : ServiceInfo
service = record {
  name = "nginx";
  status = ServiceStatus.failed;
  pid = 0;
  uptime = 0;
  updated_at = 1700000000;
}

abbrev queries : DashboardQueries
queries = record {
  metrics = some metrics;
  metrics_error = false;
  history = none;
  history_error = true;
  services = some (service ∷ []);
  services_error = false;
  events = some (event ∷ []);
  events_error = false;
}

abbrev number_format : String → ℕ → ℕ → ℕ → String
number_format tag value divisor digits = decimal value

abbrev to_fixed : Percent → String
to_fixed p = decimal p.part
