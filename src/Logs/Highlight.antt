-- ===== src/Logs/Highlight.antt =====
-- `getSuspiciousFragments` and `renderHighlightedLine` of web/src/pages/Logs.tsx. A line is the list
-- of its code points; `fold` is what the flag `i` makes of a code point. The fragments are escaped,
-- so the pattern is the alternation of them as literal texts.
pub mod Parts
pub mod Marks
use ddsds.Common.{
  ℕ, zero, suc, ◌+◌, String, Bool, true, false, ◌&&◌, not, List, [], ◌∷◌, ◌++◌, Option, none, some,
  ◌==◌, if◌then◌else◌, length, take, drop, any, filter,
}
use ddsds.Text.{codes, trim, truthy}

abbrev pub Line : Type 0
Line = List ℕ

abbrev tested : Option ℕ → Bool × ℕ
tested none = (false, 0)
tested (some e) = (true, e)

unfoldable pub same_line : Line → Line → Bool
same_line [] [] = true
same_line (c ∷ t) (d ∷ u) = c == d && same_line t u
same_line t u = false

-- `fragments.add(f)`
unfoldable pub add_fragment : Line → List Line → List Line
unfolding same_line
add_fragment f fs = if any (same_line f) fs then fs else fs ++ f ∷ []

unfoldable pub add_fragments : List Line → List Line → List Line
unfolding add_fragment
add_fragments [] set = set
add_fragments (f ∷ fs) set = add_fragments fs (add_fragment f set)

-- The matches among the parts.
unfoldable pub matches_of : List Line → List Line
matches_of (p ∷ m ∷ rest) = m ∷ matches_of rest
matches_of ps = []

abbrev pub suspicious_texts : List Line
suspicious_texts =
    codes "failed password"
    ∷ codes "invalid user"
    ∷ codes "union select"
    ∷ codes "<script"
    ∷ codes "onerror="
    ∷ codes "onload="
    ∷ codes "../../"
    ∷ []

abbrev pub is_filled : Line → Bool
is_filled [] = false
is_filled (c ∷ t) = true

module _ (fold : ℕ → ℕ) where
  -- A literal text stands at the beginning of the line.
  unfoldable pub starts : Line → Line → Bool
  starts [] t = true
  starts (p ∷ ps) [] = false
  starts (p ∷ ps) (c ∷ t) = fold p == fold c && starts ps t

  -- The length of the first alternative that matches here.
  unfoldable pub match_at : List Line → Line → Option ℕ
  match_at [] t = none
  match_at (f ∷ fs) t = if starts f t then some (length f) else match_at fs t

  -- `line.split(pattern)` of a pattern in one group: what stands between the matches, and the
  -- matches. `plain` is what has been passed since the last match.
  unfoldable pub split : ℕ → List Line → Line → Line → List Line
  split zero fs plain t = plain ∷ []
  split (suc fuel) fs plain [] = plain ∷ []
  split (suc fuel) fs plain (c ∷ t) = elim (match_at fs (c ∷ t)) [
    | none ↦ split fuel fs (plain ++ c ∷ []) t
    | some n ↦ plain ∷ take n (c ∷ t) ∷ split fuel fs [] (drop n (c ∷ t))
  ]

  -- Each round passes one code point at least, since no fragment is empty.
  unfoldable pub parts_of : List Line → Line → List Line
  parts_of fs line = split (suc (length line)) fs [] line

  -- Where the first match at `i` or later ends.
  unfoldable pub search_from : List Line → Line → ℕ → Option ℕ
  search_from fs [] i = none
  search_from fs (c ∷ t) i = elim (match_at fs (c ∷ t)) [
    | none ↦ search_from fs t (i + 1)
    | some n ↦ some (i + n)
  ]

  -- `matcher.test(part)`; the flag `g` makes the next test start at `lastIndex`, the second part of
  -- the result.
  unfoldable pub test_global : List Line → ℕ → Line → Bool × ℕ
  test_global fs last_index part = tested (search_from fs (drop last_index part) last_index)

  -- The parts with the answers of `matcher.test`, one after the other.
  unfoldable pub render_parts : List Line → ℕ → List Line → List (Bool × Line)
  render_parts fs last_index [] = []
  render_parts fs last_index (p ∷ ps) =
      let (marked, next) = test_global fs last_index p in (marked, p) ∷ render_parts fs next ps

  -- The trimmed search, if there is one, and the suspicious texts as they stand in the line.
  unfoldable pub fragment_set : Line → String → List Line
  unfolding add_fragments matches_of parts_of
  fragment_set line search =
      let typed = codes (trim search) in
      add_fragments (matches_of (parts_of suspicious_texts line))
        (if is_filled typed then add_fragment typed [] else [])

  unfoldable pub get_suspicious_fragments : Line → String → List Line
  unfolding fragment_set
  get_suspicious_fragments line search = filter is_filled (fragment_set line search)

  -- The pieces of the line, each with whether it is marked.
  unfoldable pub render_highlighted_line : Line → String → List (Bool × Line)
  unfolding get_suspicious_fragments
  render_highlighted_line line search =
      let fragments = get_suspicious_fragments line search in
      if length fragments == 0
      then (false, line) ∷ []
      else render_parts fragments 0 (parts_of fragments line)

  -- `SUSPICIOUS_PATTERNS.test(log.line)`
  unfoldable pub is_suspicious : Line → Bool
  unfolding search_from
  is_suspicious line =
      (tested (
        search_from
          (codes "failed password"
            ∷ codes "invalid user"
            ∷ codes "union select"
            ∷ codes "<script"
            ∷ codes "../../"
            ∷ [])
          line 0)).0
