-- ===== src/Settings/Saving.antt =====
-- Saves of web/src/pages/Settings.tsx one after another.
use ddsds.Common.{List, [], ◌∷◌, ◌≡◌, refl}
use ddsds.Text.{trim}
use ddsds.Settings.{
  SettingsView, Delivery, Edit, TelegramIntegrationSettings, SlackIntegrationSettings,
  save_telegram_settings, save_slack_settings, edit, edit_telegram, edit_slack, save_telegram,
  save_slack, on_telegram_saved, on_slack_saved,
}

-- Changes of the fields of a form, in the order in which they are made.
unfoldable pub edits : List Edit → Delivery → Delivery
edits [] d = d
edits (e ∷ es) d = edits es (edit e d)

unfoldable pub edits_telegram : List Edit → SettingsView → SettingsView
edits_telegram [] v = v
edits_telegram (e ∷ es) v = edits_telegram es (edit_telegram e v)

unfoldable pub edits_slack : List Edit → SettingsView → SettingsView
edits_slack [] v = v
edits_slack (e ∷ es) v = edits_slack es (edit_slack e v)

edits_telegram-edits :
    (es : List Edit) (v : SettingsView)
    → edits_telegram es v ≡ record v { telegram = edits es v.telegram }
unfolding edits edits_telegram edit_telegram
edits_telegram-edits [] v = refl
edits_telegram-edits (e ∷ es) v = edits_telegram-edits es (edit_telegram e v)

edits_slack-edits :
    (es : List Edit) (v : SettingsView) → edits_slack es v ≡ record v { slack = edits es v.slack }
unfolding edits edits_slack edit_slack
edits_slack-edits [] v = refl
edits_slack-edits (e ∷ es) v = edits_slack-edits es (edit_slack e v)

-- After the answer to a save, and after any changes of the other fields of the form, the next save
-- sends an empty token, or an empty address of the webhook, with the changed fields.
pub save-saved :
    (t : TelegramIntegrationSettings) (s : SlackIntegrationSettings) (es : List Edit)
    (v : SettingsView)
    → ((save_telegram (edits_telegram es (on_telegram_saved t v))).requests
        ≡ save_telegram_settings "" (edits es t.delivery) ∷ v.requests)
      × ((save_slack (edits_slack es (on_slack_saved s v))).requests
          ≡ save_slack_settings "" (edits es s.delivery) ∷ v.requests)
unfolding save_telegram save_slack on_telegram_saved on_slack_saved trim
save-saved t s es v = (
  rw (edits_telegram-edits es (on_telegram_saved t v)) refl,
  rw (edits_slack-edits es (on_slack_saved s v)) refl,
)
