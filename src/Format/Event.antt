-- ===== src/Format/Event.antt =====
-- `formatEventDescription` and `formatBlockedReason` of web/src/lib/format.ts. Lower case is a
-- parameter. The patterns never need to go back on a choice: a digit is no space, and no space or
-- digit begins a word of a pattern. `Number` of a text of digits is a double, the nearest one to the
-- number that is read: that rounding is a parameter, `to_double`. A double from 10 ^ 21 on, which the
-- language writes with an exponent, has no text of its own here.
pub mod Digits
pub mod Counts
use Prim.Native.Char.{code}
use Prim.Native.String
use ddsds.Common.{
  ℕ, zero, suc, ◌+◌, ◌-◌, ◌*◌, String, Bool, true, false, ◌&&◌, ◌||◌, not, List, [], ◌∷◌, ◌++◌,
  Option, none, some, map, filter, all, leb, ◌==◌, if◌then◌else◌,
}
use ddsds.Text.{append, codes, truthy, trim, join, is_space, is_prefix_of}
use ddsds.I18n.Template.{Argument, count, words}
use ddsds.I18n.State.{Messages, Locale, ru_locale, en_locale, translate, ◌>>=◌}
use ddsds.Format.Labels.{security, format_event_type}

unfoldable pub is_digit : ℕ → Bool
is_digit c = leb b'0' c && leb c b'9'

abbrev lower_ascii : ℕ → ℕ
lower_ascii c = if leb b'A' c && leb c b'Z' then c + 32 else c

-- `\d+`: the number so far, and what follows the digits.
unfoldable pub read_digits : ℕ → List ℕ → ℕ × List ℕ
unfolding is_digit
read_digits n [] = (n, [])
read_digits n (c ∷ s) = elim (is_digit c) [
  | true ↦ read_digits (10 * n + (c - b'0')) s
  | false ↦ (n, c ∷ s)
]

unfoldable pub starts_digit : List ℕ → Bool
unfolding is_digit
starts_digit [] = false
starts_digit (c ∷ s) = is_digit c

unfoldable pub eat_digits : List ℕ → Option (ℕ × List ℕ)
unfolding read_digits starts_digit
eat_digits s = if starts_digit s then some (read_digits 0 s) else none

-- A text, with the flag `i`.
unfoldable pub eat_text : List ℕ → List ℕ → Option (List ℕ)
eat_text [] s = some s
eat_text (p ∷ ps) [] = none
eat_text (p ∷ ps) (c ∷ s) = elim (lower_ascii p == lower_ascii c) [
  | true ↦ eat_text ps s
  | false ↦ none
]

-- `\s+`
unfoldable pub skip_spaces : List ℕ → List ℕ
skip_spaces [] = []
skip_spaces (c ∷ s) = elim (is_space c) [ true ↦ skip_spaces s | false ↦ c ∷ s ]

unfoldable pub eat_spaces : List ℕ → Option (List ℕ)
unfolding skip_spaces is_space
eat_spaces [] = none
eat_spaces (c ∷ s) = if is_space c then some (skip_spaces s) else none

abbrev ended : ℕ → ℕ → List ℕ → Option (ℕ × ℕ)
ended n w [] = some (n, w)
ended n w (c ∷ s) = none

-- The seconds, at the end.
unfoldable pub finish : ℕ → ℕ × List ℕ → Option (ℕ × ℕ)
unfolding eat_text
finish n read = do s ← eat_text (b's' ∷ []) read.1; ended n read.0 s

-- What follows the first number.
unfoldable pub after_number : (mark text : List ℕ) → ℕ × List ℕ → Option (ℕ × ℕ)
unfolding eat_digits eat_text eat_spaces finish
after_number mark text read = do
  s₁ ← eat_text mark read.1
  s₂ ← eat_spaces s₁
  s₃ ← eat_text text s₂
  s₄ ← eat_spaces s₃
  seconds ← eat_digits s₄
  finish read.0 seconds

-- `^(\d+)MARK\s+TEXT\s+(\d+)s$`
unfoldable pub match_counts : (mark text : List ℕ) → List ℕ → Option (ℕ × ℕ)
unfolding eat_digits after_number
match_counts mark text s = do first ← eat_digits s; after_number mark text first

-- The patterns with two counts, in the order of the tests: the mark, the words, the message.
pub record CountPattern : Type 0 where
  pub mark : String
  pub words_between : String
  pub key : String

unfoldable pub count_patterns : List CountPattern
count_patterns =
    record {
      mark = "";
      words_between = "unique destination ports probed in";
      key = "eventPortScanDescription";
    }
    ∷ record {
      mark = "+";
      words_between = "failed SSH attempts in";
      key = "eventSshBruteforceDescription";
    }
    ∷ record {
      mark = "+";
      words_between = "invalid SSH users in";
      key = "eventSshUserEnumDescription";
    }
    ∷ record {
      mark = "+";
      words_between = "repeated web login attempts in";
      key = "eventWebLoginBruteforceDescription";
    }
    ∷ []

-- The first pattern that fits gives its message, and else `otherwise` is given.
unfoldable pub counted :
    (to_double : ℕ → ℕ) → Messages → List CountPattern → List ℕ → String → String
unfolding match_counts
counted to_double m [] s otherwise = otherwise
counted to_double m (p ∷ ps) s otherwise =
    elim (match_counts (codes p.mark) (codes p.words_between) s) [
      | none ↦ counted to_double m ps s otherwise
      | some nw ↦ security m p.key (count (to_double nw.0) ∷ count (to_double nw.1) ∷ [])
    ]

-- A text with the flag `i` at the beginning of a string.
unfoldable pub after_text : List ℕ → String → Option String
after_text [] s = some s
after_text (p ∷ ps) String.[] = none
after_text (p ∷ ps) (String.◌∷◌ c s) = elim (lower_ascii p == lower_ascii (code c)) [
  | true ↦ after_text ps s
  | false ↦ none
]

unfoldable pub after_spaces : String → String
unfolding is_space
after_spaces String.[] = ""
after_spaces (String.◌∷◌ c s) = elim (is_space (code c)) [
  | true ↦ after_spaces s
  | false ↦ String.◌∷◌ c s
]

abbrev is_line_end : ℕ → Bool
is_line_end c = c == 10 || c == 13 || c == 0x2028 || c == 0x2029

abbrev in_one_line : String → Option String
in_one_line s = if all (λ c. not (is_line_end c)) (codes s) then some s else none

abbrev last_of : String → String
last_of String.[] = ""
last_of (String.◌∷◌ c s) = elim s [ String.[] ↦ String.◌∷◌ c "" | String.◌∷◌ d r ↦ last_of s ]

-- `\s+(.+)$`: the line after the spaces, or the last of two spaces or more.
unfoldable pub capture : String → Option String
unfolding after_spaces
capture String.[] = none
capture (String.◌∷◌ c s) =
    let rest = after_spaces s in
    if not (is_space (code c))
    then none
    else if truthy rest
    then in_one_line rest
    else if truthy s
    then in_one_line (last_of s)
    else none

abbrev put_char : String → List String → List String
put_char c [] = c ∷ []
put_char c (p ∷ ps) = append c p ∷ ps

-- `s.split(',')`
unfoldable pub split_commas : String → List String
split_commas String.[] = "" ∷ []
split_commas (String.◌∷◌ c s) = elim (code c == b',') [
  | true ↦ "" ∷ split_commas s
  | false ↦ put_char (String.◌∷◌ c "") (split_commas s)
]

-- The names of the types in a list with commas.
unfoldable pub chain_labels : Messages → String → String
unfolding split_commas
chain_labels m captured =
    join ", " (map (format_event_type m) (filter truthy (map trim (split_commas captured))))

-- The patterns of chains, in the order of the tests, with their messages.
unfoldable pub chain_patterns : List (String × String)
chain_patterns =
    ("Correlated recon chain:", "eventReconChainDescription")
    ∷ ("Correlated credential chain:", "eventCredentialChainDescription")
    ∷ ("Correlated web attack chain:", "eventWebAttackChainDescription")
    ∷ []

unfoldable pub chained : Messages → List (String × String) → String → String
unfolding after_text capture chain_labels
chained m [] description = description
chained m ((prefix, key) ∷ ps) description =
    elim (do rest ← after_text (codes prefix) description; capture rest) [
      | none ↦ chained m ps description
      | some captured ↦ security m key (words (chain_labels m captured) ∷ [])
    ]

abbrev pub starts_with : String → String → Bool
starts_with s prefix = is_prefix_of (codes prefix) (codes s)

abbrev same_codes : List ℕ → List ℕ → Bool
same_codes [] [] = true
same_codes (c ∷ s) (d ∷ t) = c == d && same_codes s t
same_codes s t = false

unfoldable pub ends_with : List ℕ → List ℕ → Bool
ends_with [] suffix = same_codes [] suffix
ends_with (c ∷ s) suffix = same_codes (c ∷ s) suffix || ends_with s suffix

-- The string without its first characters, one for each of the prefix.
abbrev without : String → String → String
without String.[] s = s
without (String.◌∷◌ p ps) String.[] = ""
without (String.◌∷◌ p ps) (String.◌∷◌ c s) = without ps s

abbrev in_language : Messages → (russian english : String) → String
in_language m russian english = elim m.current_locale [ ru_locale ↦ russian | en_locale ↦ english ]

module _ (to_lower_case : String → String) (to_double : ℕ → ℕ) where
  -- A type that is absent, or empty, has no name.
  abbrev type_or_empty : Option String → String
  type_or_empty none = ""
  type_or_empty (some t) = t

  unfoldable pub format_event_description : Messages → String → Option String → String
  unfolding counted chained ends_with count_patterns chain_patterns is_prefix_of
  format_event_description m description type =
      let type_text = type_or_empty type in
      let name = if truthy type_text then format_event_type m type_text else "" in
      if starts_with description "ML-detected: "
      then append (translate m "system" "attackClassifier" [])
          (append ": " (format_event_type m (without "ML-detected: " description)))
      else if starts_with description "Rule+ML confirmed: "
      then append (in_language m "Rule + ML подтвердили: " "Rule + ML confirmed: ")
          (format_event_type m (without "Rule+ML confirmed: " description))
      else if starts_with description "ML anomaly detected"
      then append (translate m "system" "anomalyDetector" [])
          (in_language m ": обнаружена аномалия в метриках" ": anomaly detected in metrics")
      else if ends_with (codes description) (codes "pattern detected") && truthy type_text
      then in_language m (append "Обнаружен паттерн атаки: " (to_lower_case name))
          (append name " pattern detected")
      else counted to_double m count_patterns (codes description)
          (chained m chain_patterns description)

  unfoldable pub format_blocked_reason : Messages → String → String
  unfolding format_event_description
  format_blocked_reason m reason = format_event_description m reason none
