-- ===== src/I18n/Template.antt =====
-- The values of a dictionary of web/src/lib/i18n.ts: a text, or an arrow function from its
-- parameters to a template literal. A template keeps the literal's pieces in order: fixed text, the
-- parameter at an index, and `${n > 0 ? `…` : `…`}`. A number argument is a natural number.
use ddsds.Common.{
  ℕ, String, Bool, false, Option, none, some, List, [], ◌∷◌, ltb, if◌then◌else◌, get_elem?, str_eq,
}
use ddsds.Text.{append, decimal}

pub data Parameter : Type 0 where
  string number : Parameter

pub data Argument : Type 0 where
  words : String → Argument
  count : ℕ → Argument

pub data Template : Type 0 where
  end : Template
  text : String → Template → Template
  arg : ℕ → Template → Template
  if_positive : ℕ → Template → Template → Template → Template

pub record Message : Type 0 where
  pub params : List Parameter
  pub body : Template

abbrev pub message : List Parameter → Template → Message
message ps b = record { params = ps; body = b }

abbrev pub plain : String → Message
plain s = record { params = []; body = text s end }

abbrev pub Section : Type 0
Section = List (String × Message)

abbrev pub Dictionary : Type 0
Dictionary = List (String × Section)

-- A property that an object lacks is `undefined`.
unfoldable pub lookup {ℓ} : {V : Type ℓ} → String → List (String × V) → Option V
lookup k [] = none
lookup k ((j, v) ∷ m) = if str_eq j k then some v else lookup k m

positive : Option Argument → Bool
positive (some (count n)) = ltb 0 n
positive _ = false

shown : Option Argument → String
shown none = "undefined"
shown (some (words s)) = s
shown (some (count n)) = decimal n

-- The text that a message gives at its arguments.
unfoldable pub render : Template → List Argument → String
unfolding positive shown
render end xs = ""
render (text s rest) xs = append s (render rest xs)
render (arg i rest) xs = append (shown (get_elem? xs i)) (render rest xs)
render (if_positive i yes_part no_part rest) xs =
    append (if positive (get_elem? xs i) then render yes_part xs else render no_part xs)
      (render rest xs)
