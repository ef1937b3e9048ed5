-- ===== src/Ui.antt =====
-- web/src/components/ui/Badge.tsx, Card.tsx and StateBlock.tsx. Of what a component renders, a list
-- keeps in order what a reader sees: messages, badges and texts. Styles other than the colours of a
-- badge, and the test identifiers, are left out.
pub mod Speaks
use ddsds.Common.{ℕ, String, Bool, true, false, List, [], ◌∷◌, ◌++◌, Option, none, some}
use ddsds.Text.{or_else}
use ddsds.I18n.Template.{lookup}
use ddsds.I18n.State.{Messages, translate}

-- An argument of a message; `term` is a message without arguments.
pub data Value : Type 0 where
  text : String → Value
  number : ℕ → Value
  term : (section key : String) → Value

pub data Shown : Type 0 where
  message : (section key : String) → List Value → Shown
  status_badge : String → Shown
  severity_badge : String → Shown
  fact : String → Shown
  -- a text that a function of format.ts makes of the messages, and one that may also be `code`
  told : Messages → String → Shown
  named : Messages → (code s : String) → Shown

abbrev pub Table : Type 0
Table = List (String × String)

unfoldable pub severity_colors : Table
severity_colors =
    ("low", "bg-blue-500/15 text-blue-400")
    ∷ ("medium", "bg-yellow-500/15 text-yellow-400")
    ∷ ("high", "bg-red-500/15 text-red-400")
    ∷ ("critical", "bg-red-600/20 text-red-300 animate-pulse")
    ∷ []

unfoldable pub status_colors : Table
status_colors =
    ("running", "bg-green-500/15 text-green-400")
    ∷ ("stopped", "bg-gray-500/15 text-gray-400")
    ∷ ("failed", "bg-red-500/15 text-red-400")
    ∷ ("pending", "bg-yellow-500/15 text-yellow-300")
    ∷ ("training", "bg-blue-500/15 text-blue-300")
    ∷ ("insufficient_data", "bg-yellow-500/15 text-yellow-300")
    ∷ ("postponed", "bg-orange-500/15 text-orange-300")
    ∷ []

-- The keys of the labels, in the sections `status` and `severity`.
unfoldable pub status_labels : Table
status_labels =
    ("running", "running")
    ∷ ("stopped", "stopped")
    ∷ ("failed", "failed")
    ∷ ("pending", "pending")
    ∷ ("training", "training")
    ∷ ("insufficient_data", "insufficientData")
    ∷ ("postponed", "postponed")
    ∷ []

unfoldable pub severity_labels : Table
severity_labels =
    ("low", "low") ∷ ("medium", "medium") ∷ ("high", "high") ∷ ("critical", "critical") ∷ []

abbrev pub fallback_color : String
fallback_color = "bg-gray-500/15 text-gray-400"

-- `map[value] || fallback`
abbrev pub text_or : Option String → String → String
text_or none d = d
text_or (some s) d = or_else s d

unfoldable pub badge_color : Table → String → String
unfolding lookup
badge_color colors value = text_or (lookup value colors) fallback_color

abbrev label_at : Messages → String → Option String → String → String
label_at m section none value = value
label_at m section (some key) value = or_else (translate m section key []) value

unfoldable pub badge_label : Messages → String → Table → String → String
unfolding lookup
badge_label m section labels value = label_at m section (lookup value labels) value

-- A message without arguments.
abbrev pub words : (section key : String) → Shown
words section key = message section key []

-- `LoadingBlock` and `ErrorBlock`.
abbrev pub loading_block : List Shown
loading_block = words "common" "loading" ∷ words "common" "loadingHint" ∷ []

abbrev pub error_block : List Shown
error_block = words "common" "error" ∷ words "common" "errorHint" ∷ []

-- What a card shows while it loads, on an error, and else.
unfoldable pub card_body : (is_loading is_error : Bool) (on_error content : List Shown) → List Shown
card_body true is_error on_error content = loading_block
card_body false true on_error content = on_error
card_body false false on_error content = content

-- What is shown only under a condition.
unfoldable pub shown_if : Bool → List Shown → List Shown
shown_if true content = content
shown_if false content = []

-- `condition ? a : b`
unfoldable pub either_of : Bool → Shown → Shown → Shown
either_of true a b = a
either_of false a b = b
