-- ===== src/Settings.antt =====
-- web/src/pages/Settings.tsx with the buttons of web/src/components/settings/SettingsSections.tsx: the
-- forms of the page, what they send, and what the answers make of them. The settings that the query
-- library has are arguments: `none` where there are none yet.
pub mod Saving
use ddsds.Common.{
  ℕ, String, Bool, true, false, ◌&&◌, List, [], ◌∷◌, Option, none, some, if◌then◌else◌,
}
use ddsds.Text.{trim}
use ddsds.Types.{Severity}

pub data OperationMode : Type 0 where
  observe assist auto_defend : OperationMode

pub record SecurityModeSettings : Type 0 where
  pub operation_mode : OperationMode
  pub updated_at : ℕ

-- The fields of an integration that say what is delivered and when.
pub record Delivery : Type 0 where
  pub notify_auto_block : Bool
  pub notify_high_severity : Bool
  pub notify_min_severity : Severity
  pub quiet_hours_start : String
  pub quiet_hours_end : String

pub record TelegramIntegrationSettings : Type 0 where
  pub configured : Bool
  pub bot_username : String
  pub bot_name : String
  pub chat_bound : Bool
  pub chat_title : String
  pub delivery : Delivery
  pub last_error : String
  pub updated_at : ℕ

pub record SlackIntegrationSettings : Type 0 where
  pub configured : Bool
  pub delivery : Delivery
  pub last_error : String
  pub updated_at : ℕ

-- What the page asks of the server.
pub data Request : Type 0 where
  save_security_mode : OperationMode → Request
  save_telegram_settings : (token : String) → Delivery → Request
  send_telegram_test : Request
  save_slack_settings : (webhook_url : String) → Delivery → Request
  send_slack_test : Request

pub record SettingsView : Type 0 where
  pub operation_mode : OperationMode
  pub telegram_token : String
  pub telegram : Delivery
  pub slack_webhook_url : String
  pub slack : Delivery
  -- the newest first
  pub requests : List Request

-- The values of the forms at first, and of a request to disconnect.
unfoldable pub default_delivery : Delivery
default_delivery = record {
  notify_auto_block = true;
  notify_high_severity = false;
  notify_min_severity = Severity.high;
  quiet_hours_start = "";
  quiet_hours_end = "";
}

unfoldable pub initial_view : SettingsView
initial_view = record {
  operation_mode = auto_defend;
  telegram_token = "";
  telegram = default_delivery;
  slack_webhook_url = "";
  slack = default_delivery;
  requests = [];
}

abbrev pub request : Request → SettingsView → SettingsView
request r v = record v { requests = r ∷ v.requests }

-- The effects on a change of the settings that the queries have.
unfoldable pub on_security_mode : Option SecurityModeSettings → SettingsView → SettingsView
on_security_mode none v = v
on_security_mode (some s) v = record v { operation_mode = s.operation_mode }

unfoldable pub on_telegram_settings :
    Option TelegramIntegrationSettings → SettingsView → SettingsView
on_telegram_settings none v = v
on_telegram_settings (some s) v = record v { telegram = s.delivery }

unfoldable pub on_slack_settings : Option SlackIntegrationSettings → SettingsView → SettingsView
on_slack_settings none v = v
on_slack_settings (some s) v = record v { slack = s.delivery }

-- A change of one field of a form.
pub data Edit : Type 0 where
  set_notify_auto_block set_notify_high_severity : Bool → Edit
  set_notify_min_severity : Severity → Edit
  set_quiet_hours_start set_quiet_hours_end : String → Edit

unfoldable pub edit : Edit → Delivery → Delivery
edit (set_notify_auto_block b) d = record d { notify_auto_block = b }
edit (set_notify_high_severity b) d = record d { notify_high_severity = b }
edit (set_notify_min_severity s) d = record d { notify_min_severity = s }
edit (set_quiet_hours_start s) d = record d { quiet_hours_start = s }
edit (set_quiet_hours_end s) d = record d { quiet_hours_end = s }

unfoldable pub edit_telegram : Edit → SettingsView → SettingsView
edit_telegram e v = record v { telegram = edit e v.telegram }

unfoldable pub edit_slack : Edit → SettingsView → SettingsView
edit_slack e v = record v { slack = edit e v.slack }

unfoldable pub set_telegram_token : String → SettingsView → SettingsView
set_telegram_token token v = record v { telegram_token = token }

unfoldable pub set_slack_webhook_url : String → SettingsView → SettingsView
set_slack_webhook_url url v = record v { slack_webhook_url = url }

unfoldable pub set_operation_mode : OperationMode → SettingsView → SettingsView
set_operation_mode mode v = record v { operation_mode = mode }

unfoldable pub save_mode : SettingsView → SettingsView
save_mode v = request (save_security_mode v.operation_mode) v

unfoldable pub on_mode_saved : SecurityModeSettings → SettingsView → SettingsView
on_mode_saved s v = record v { operation_mode = s.operation_mode }

unfoldable pub save_telegram : SettingsView → SettingsView
save_telegram v = request (save_telegram_settings (trim v.telegram_token) v.telegram) v

unfoldable pub on_telegram_saved : TelegramIntegrationSettings → SettingsView → SettingsView
on_telegram_saved s v = record v { telegram_token = ""; telegram = s.delivery }

-- The button is disabled unless a bot is configured and bound to a chat.
unfoldable pub test_telegram : Option TelegramIntegrationSettings → SettingsView → SettingsView
test_telegram none v = v
test_telegram (some s) v = if s.configured && s.chat_bound then request send_telegram_test v else v

-- The button is disabled unless a bot is configured.
unfoldable pub disconnect_telegram :
    Option TelegramIntegrationSettings → SettingsView → SettingsView
disconnect_telegram none v = v
disconnect_telegram (some s) v =
    if s.configured then request (save_telegram_settings "" default_delivery) v else v

unfoldable pub on_telegram_disconnected : SettingsView → SettingsView
on_telegram_disconnected v = record v { telegram_token = ""; telegram = default_delivery }

unfoldable pub save_slack : SettingsView → SettingsView
save_slack v = request (save_slack_settings (trim v.slack_webhook_url) v.slack) v

unfoldable pub on_slack_saved : SlackIntegrationSettings → SettingsView → SettingsView
on_slack_saved s v = record v { slack_webhook_url = ""; slack = s.delivery }

unfoldable pub test_slack : Option SlackIntegrationSettings → SettingsView → SettingsView
test_slack none v = v
test_slack (some s) v = if s.configured then request send_slack_test v else v

unfoldable pub disconnect_slack : Option SlackIntegrationSettings → SettingsView → SettingsView
disconnect_slack none v = v
disconnect_slack (some s) v =
    if s.configured then request (save_slack_settings "" default_delivery) v else v

unfoldable pub on_slack_disconnected : SettingsView → SettingsView
on_slack_disconnected v = record v { slack_webhook_url = ""; slack = default_delivery }
