-- ===== src/I18n/State.antt =====
-- The state of web/src/lib/i18n.ts, and the lookup of a message in the dictionary that is current.
use ddsds.Common.{String, Option, none, some, List}
use ddsds.I18n.Template.{Argument, Message, Dictionary, lookup, render}
use ddsds.I18n.Ru.{ru}
use ddsds.I18n.En.{en}

pub data Locale : Type 0 where
  ru_locale en_locale : Locale

unfoldable pub dictionaries : Locale → Dictionary
dictionaries ru_locale = ru
dictionaries en_locale = en

-- The module's variables, and the `lang` of the document.
pub record Messages : Type 0 where
  pub current_locale : Locale
  pub t : Dictionary
  pub lang : String

unfoldable pub initial_messages : Messages
initial_messages = record { current_locale = ru_locale; t = ru; lang = "" }

abbrev pub locale_name : Locale → String
locale_name ru_locale = "ru"
locale_name en_locale = "en"

unfoldable pub get_locale_tag : Locale → String
get_locale_tag ru_locale = "ru-RU"
get_locale_tag en_locale = "en-US"

unfoldable pub set_locale_messages : Locale → Messages → Messages
set_locale_messages locale m = record {
  current_locale = locale;
  t = dictionaries locale;
  lang = locale_name locale;
}

infixl 5 ◌>>=◌
abbrev pub ◌>>=◌ {ℓ κ} : {A : Type ℓ} {B : Type κ} → Option A → (A → Option B) → Option B
none >>= k = none
some a >>= k = k a

-- The message under `t.section.key`.
unfoldable pub find_message : Dictionary → String → String → Option Message
find_message d section key = do entries ← lookup section d; lookup key entries

translated : Option Message → List Argument → String
translated none xs = "undefined"
translated (some m) xs = render m.body xs

-- `t.section.key`, and `t.section.key(…)` at its arguments.
unfoldable pub translate : Messages → String → String → List Argument → String
unfolding translated
translate m section key xs = translated (find_message m.t section key) xs
