-- ===== src/Store.antt =====
-- web/src/stores/store.ts: the application's global state. Metrics `M` and security events `E` are
-- only carried. The browser's storage and the document's theme attribute stand beside the state.
pub mod History
pub mod Session
use ddsds.Common.{
  ℕ, String, Bool, true, false, ◌||◌, List, [], ◌∷◌, Option, none, some, take, if◌then◌else◌,
  str_eq,
}
use ddsds.I18n.State.{Locale, ru_locale, en_locale, locale_name}

pub data Theme : Type 0 where
  dark light : Theme

pub data Connection : Type 0 where
  connected disconnected : Connection

pub record Store (M E : Type 0) : Type 0 where
  pub theme : Theme
  pub locale : Locale
  pub agent_status : Connection
  pub live_status : Connection
  pub current_metrics : Option M
  pub recent_events : List E

-- What the store reads and writes outside of itself: the item `nullius-locale` of the local storage,
-- `data-theme` of the document, and whether the browser's language begins with `ru`.
pub record Browser : Type 0 where
  pub saved_locale : Option String
  pub dataset_theme : Option Theme
  pub language_is_ru : Bool

unfoldable pub parse_locale : String → Option Locale
parse_locale s =
    if str_eq s "ru" then some ru_locale else if str_eq s "en" then some en_locale else none

by_language : Bool → Locale
by_language is_ru = if is_ru then ru_locale else en_locale

initial_of : Option Locale → Bool → Locale
initial_of (some l) is_ru = l
initial_of none is_ru = by_language is_ru

-- `getInitialLocale`; without a window (`none`) it is Russian.
unfoldable pub get_initial_locale : Option Browser → Locale
unfolding initial_of by_language
get_initial_locale none = ru_locale
get_initial_locale (some w) =
    initial_of (elim w.saved_locale [ none ↦ none | some s ↦ parse_locale s ]) w.language_is_ru

unfoldable pub initial_store : {M E : Type 0} → Option Browser → Store M E
initial_store window = record {
  theme = dark;
  locale = get_initial_locale window;
  agent_status = disconnected;
  live_status = disconnected;
  current_metrics = none;
  recent_events = [];
}

unfoldable pub next_theme : Theme → Theme
next_theme dark = light
next_theme light = dark

unfoldable pub next_locale : Locale → Locale
next_locale ru_locale = en_locale
next_locale en_locale = ru_locale

unfoldable pub save_locale : Locale → Browser → Browser
save_locale l b = record b { saved_locale = some (locale_name l) }

-- The number of events that `addSecurityEvent` keeps.
abbrev pub kept_events : ℕ
kept_events = 50

module _ {M E : Type 0} where
  unfoldable pub toggle_theme : Store M E → Browser → Store M E × Browser
  toggle_theme s b =
      let next = next_theme s.theme in
      (record s { theme = next }, record b { dataset_theme = some next })

  unfoldable pub toggle_locale : Store M E → Browser → Store M E × Browser
  toggle_locale s b =
      let next = next_locale s.locale in (record s { locale = next }, save_locale next b)

  unfoldable pub set_locale : Locale → Store M E → Browser → Store M E × Browser
  set_locale l s b = (record s { locale = l }, save_locale l b)

  unfoldable pub set_agent_status : Connection → Store M E → Store M E
  set_agent_status status s = record s { agent_status = status }

  -- `useSystemStatus`, when a health answer has come: its field `agent`, or no data yet.
  unfoldable pub on_health : Option String → Store M E → Store M E
  unfolding set_agent_status
  on_health none s = s
  on_health (some agent) s =
      set_agent_status (if str_eq agent "connected" then connected else disconnected) s

  unfoldable pub set_live_status : Connection → Store M E → Store M E
  set_live_status status s = record s { live_status = status }

  unfoldable pub set_current_metrics : Option M → Store M E → Store M E
  set_current_metrics metrics s = record s { current_metrics = metrics }

  unfoldable pub add_security_event : E → Store M E → Store M E
  add_security_event event s = record s {
    recent_events = take kept_events (event ∷ s.recent_events);
  }
