-- ===== src/Format/Metric.antt =====
-- `formatMetricValue` and `formatMetricTick` of web/src/lib/format.ts, for whole numbers. The
-- format of numbers is the parameter of `formatBytes`.
use ddsds.Common.{ℕ, String, Bool, true, false, ◌||◌, str_eq, if◌then◌else◌}
use ddsds.Text.{append, includes}
use ddsds.I18n.State.{Messages, get_locale_tag}
use ddsds.Format.Bytes.{format_bytes}

unfoldable pub format_number : (String → ℕ → ℕ → ℕ → String) → Messages → ℕ → String
format_number number_format m value = number_format (get_locale_tag m.current_locale) value 1 1

-- The text of the value under a key; a tick is compact.
abbrev metric_text :
    (String → ℕ → ℕ → ℕ → String) → Messages → (compact : Bool) → String → ℕ → String
metric_text number_format m compact data_key value =
    if str_eq data_key "ram_used" || str_eq data_key "ram_total"
    then format_bytes number_format m value compact false
    else if str_eq data_key "network_rx" || str_eq data_key "network_tx"
    then format_bytes number_format m value compact true
    else if includes data_key "cpu"
    then append (format_number number_format m value) "%"
    else format_number number_format m value

unfoldable pub format_metric_value : (String → ℕ → ℕ → ℕ → String) → Messages → String → ℕ → String
format_metric_value number_format m data_key value =
    metric_text number_format m false data_key value

unfoldable pub format_metric_tick : (String → ℕ → ℕ → ℕ → String) → Messages → String → ℕ → String
format_metric_tick number_format m data_key value = metric_text number_format m true data_key value
