-- ===== src/Store/Session.antt =====
-- Runs of the actions of web/src/stores/store.ts, and what the browser keeps of them.
use ddsds.Common.{List, [], ◌∷◌, ◌≡◌, refl, Option, none, some}
use ddsds.I18n.State.{Locale, ru_locale, en_locale}
use ddsds.Store.{
  Store, Browser, Theme, dark, Connection, parse_locale, initial_store, get_initial_locale,
  toggle_theme, toggle_locale, set_locale, set_agent_status, set_live_status, set_current_metrics,
  add_security_event, next_locale, save_locale,
}

-- The store's actions.
pub data Action (M E : Type 0) : Type 0 where
  theme_toggled locale_toggled : Action M E
  locale_set : Locale → Action M E
  agent_status_set live_status_set : Connection → Action M E
  metrics_set : Option M → Action M E
  event_added : E → Action M E

module _ {M E : Type 0} where
  pub act : Action M E → Store M E × Browser → Store M E × Browser
  act theme_toggled (s, b) = toggle_theme s b
  act locale_toggled (s, b) = toggle_locale s b
  act (locale_set l) (s, b) = set_locale l s b
  act (agent_status_set c) (s, b) = (set_agent_status c s, b)
  act (live_status_set c) (s, b) = (set_live_status c s, b)
  act (metrics_set m) (s, b) = (set_current_metrics m s, b)
  act (event_added e) (s, b) = (add_security_event e s, b)

  pub acts : List (Action M E) → Store M E × Browser → Store M E × Browser
  acts [] w = w
  acts (a ∷ rest) w = acts rest (act a w)

-- The theme that the page shows: dark until the attribute is set.
abbrev pub shown_theme : Browser → Theme
shown_theme b = elim b.dataset_theme [ none ↦ dark | some theme ↦ theme ]

-- A page that is opened anew has the session's language, and the page shows the session's theme.
pub record IsKept {M E : Type 0} (s : Store M E) (b : Browser) : Type 0 where
  pub language : get_initial_locale (some b) ≡ s.locale
  pub theme : shown_theme b ≡ s.theme

get_initial_locale-save_locale :
    (l : Locale) (b : Browser) → get_initial_locale (some (save_locale l b)) ≡ l
unfolding get_initial_locale save_locale parse_locale
get_initial_locale-save_locale ru_locale b = refl
get_initial_locale-save_locale en_locale b = refl

act-IsKept :
    {M E : Type 0} (a : Action M E) (s : Store M E) (b : Browser)
    → IsKept s b
    → IsKept (act a (s, b)).0 (act a (s, b)).1
unfolding act toggle_theme toggle_locale set_locale set_agent_status set_live_status
    set_current_metrics add_security_event get_initial_locale save_locale
act-IsKept theme_toggled s b h = record { language = h.language; theme = refl }
act-IsKept locale_toggled s b h = record {
  language = get_initial_locale-save_locale (next_locale s.locale) b;
  theme = h.theme;
}
act-IsKept (locale_set l) s b h = record {
  language = get_initial_locale-save_locale l b;
  theme = h.theme;
}
act-IsKept a s b h = record { language = h.language; theme = h.theme }

acts-IsKept_from :
    {M E : Type 0} (actions : List (Action M E)) (s : Store M E) (b : Browser)
    → IsKept s b
    → IsKept (acts actions (s, b)).0 (acts actions (s, b)).1
unfolding acts
acts-IsKept_from [] s b h = h
acts-IsKept_from (a ∷ rest) s b h =
    acts-IsKept_from rest (act a (s, b)).0 (act a (s, b)).1 (act-IsKept a s b h)

initial_store-IsKept :
    {M E : Type 0} (b : Browser)
    → b.dataset_theme ≡ none
    → IsKept {M = M} {E = E} (initial_store (some b)) b
unfolding initial_store
initial_store-IsKept b h = record { language = refl; theme = rw h refl }

-- From the initial store, in a document without a theme attribute, and after any actions: a page
-- that is opened anew has the session's language, and the document has the session's theme.
pub acts-IsKept :
    {M E : Type 0} (actions : List (Action M E)) (b : Browser)
    → b.dataset_theme ≡ none
    → IsKept
        (acts actions (initial_store (some b), b)).0
        (acts actions (initial_store (some b), b)).1
acts-IsKept {M} {E} actions b h =
    acts-IsKept_from actions (initial_store (some b)) b (initial_store-IsKept {M = M} {E = E} b h)
