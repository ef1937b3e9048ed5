-- ===== src/Text.antt =====
-- Texts: what the source uses of the language's strings. A text is a sequence of code points.
-- Case mapping beyond ASCII is data of the runtime and is a parameter where the source needs it.
pub mod Regex
pub mod Parts
use Prim.Native.Char.{code}
use Prim.Native.String
use text.Mathlib.TextLemmas.{cons-append, nil-append}
use ddsds.Common.{
  ℕ, zero, suc, ◌/◌, ◌%◌, String, Bool, true, false, ◌&&◌, ◌||◌, not, List, [], ◌∷◌, ◌++◌, ◌≡◌, ap,
  ltb, leb, ◌==◌, if◌then◌else◌, refl,
}

abbrev pub append : String → String → String
append = String.◌++◌

-- The code points of a text.
abbrev pub codes : String → List ℕ
codes String.[] = []
codes (String.◌∷◌ c s) = code c ∷ codes s

pub codes-append : (s t : String) → codes (append s t) ≡ codes s ++ codes t
codes-append String.[] t = rw (nil-append t) refl
codes-append (String.◌∷◌ c s) t = rw (cons-append c s t) (ap (λ u. code c ∷ u) (codes-append s t))

-- `Boolean(s)`: every text but the empty one is truthy.
abbrev pub truthy : String → Bool
truthy String.[] = false
truthy (String.◌∷◌ c s) = true

-- `s || d`
abbrev pub or_else : String → String → String
or_else s d = if truthy s then s else d

unfoldable pub digit : ℕ → String
digit d =
    if d == 0
    then "0"
    else if d == 1
    then "1"
    else if d == 2
    then "2"
    else if d == 3
    then "3"
    else if d == 4
    then "4"
    else if d == 5
    then "5"
    else if d == 6
    then "6"
    else if d == 7
    then "7"
    else if d == 8
    then "8"
    else "9"

unfoldable pub digits : ℕ → ℕ → String → String
digits zero n acc = acc
digits (suc f) n acc = elim (ltb n 10) [
  | true ↦ append (digit n) acc
  | false ↦ digits f (n / 10) (append (digit (n % 10)) acc)
]

-- `String(n)`; a number has fewer digits than itself plus one.
unfoldable pub decimal : ℕ → String
unfolding digits digit
decimal n = digits (suc n) n ""

-- `parts.join(sep)`
unfoldable pub join : String → List String → String
join sep [] = ""
join sep (p ∷ ps) = elim ps [ [] ↦ p | _ ∷ _ ↦ append p (append sep (join sep ps)) ]

-- The white space and line ends that `trim` removes.
unfoldable pub is_space : ℕ → Bool
is_space c =
    (leb 9 c && leb c 13)
    || c == 32
    || c == 0xa0
    || c == 0x1680
    || (leb 0x2000 c && leb c 0x200a)
    || c == 0x2028
    || c == 0x2029
    || c == 0x202f
    || c == 0x205f
    || c == 0x3000
    || c == 0xfeff

trim_start : String → String
trim_start String.[] = ""
trim_start (String.◌∷◌ c s) =
    let rest = trim_start s in if is_space (code c) then rest else String.◌∷◌ c s

trim_end : String → String
trim_end String.[] = ""
trim_end (String.◌∷◌ c s) =
    let rest = trim_end s in
    if truthy rest || not (is_space (code c)) then String.◌∷◌ c rest else ""

unfoldable pub trim : String → String
unfolding trim_start trim_end is_space
trim s = trim_end (trim_start s)

-- `s.replace(/_/g, ' ')`
unfoldable pub spaced : String → String
spaced String.[] = ""
spaced (String.◌∷◌ c s) = String.◌∷◌ (if code c == b'_' then " " else c) (spaced s)

unfoldable pub is_prefix_of : List ℕ → List ℕ → Bool
is_prefix_of [] s = true
is_prefix_of (p ∷ ps) [] = false
is_prefix_of (p ∷ ps) (c ∷ s) = p == c && is_prefix_of ps s

unfoldable pub contains : List ℕ → List ℕ → Bool
contains pat [] = is_prefix_of pat []
contains pat (c ∷ s) = is_prefix_of pat (c ∷ s) || contains pat s

-- `s.includes(part)`
unfoldable pub includes : String → String → Bool
unfolding contains is_prefix_of
includes s part = contains (codes part) (codes s)
