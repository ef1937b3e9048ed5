-- ===== src/Logs/Highlight/Marks.antt =====
-- Which pieces of a line `renderHighlightedLine` of web/src/pages/Logs.tsx marks, although the pattern
-- that it asks keeps the place where the last match has ended.
use ddsds.Common.{
  ℕ, zero, suc, ◌+◌, ◌≤◌, String, Bool, true, false, ◌&&◌, List, [], ◌∷◌, none, some, ◌≡◌, refl, ap,
  ◌∙◌, length, drop, any, map, filter, arith, append-nil, All, ◌==◌, if◌then◌else◌,
}
use ddsds.Logs.Highlight.{
  fragment_set, Line, starts, match_at, parts_of, search_from, test_global, render_parts, is_filled,
  get_suspicious_fragments, render_highlighted_line,
}
use ddsds.Logs.Highlight.Parts.{NoMatch, Alternates, join_parts, parts_of-Alternates}

All-filter : (fs : List Line) → All (λ f. 1 ≤ length f) (filter is_filled fs)
All-filter [] = tt
All-filter ([] ∷ fs) = All-filter fs
All-filter ((c ∷ f) ∷ fs) = (omega arith, All-filter fs)

module _ (fold : ℕ → ℕ) where
  -- The text is one of the fragments, up to case.
  unfoldable pub IsFragment : List Line → Line → Type 0
  IsFragment fs p = any (λ f. starts fold f p && length f == length p) fs ≡ true

  -- A marked piece is a fragment, and in one that is not marked no fragment begins.
  abbrev pub IsPiece : List Line → Bool × Line → Type 0
  IsPiece fs (true, p) = IsFragment fs p
  IsPiece fs (false, p) = NoMatch fold fs p

  match_at-IsFragment :
      (fs : List Line) (m : Line) → match_at fold fs m ≡ some (length m) → IsFragment fs m
  unfolding match_at IsFragment
  match_at-IsFragment [] m h = cc
  match_at-IsFragment (f ∷ fs) m h = ground (arith, match_at-IsFragment fs m)

  drop-NoMatch :
      (fs : List Line) (n : ℕ) (t : Line) → NoMatch fold fs t → NoMatch fold fs (drop n t)
  unfolding NoMatch
  drop-NoMatch fs zero t h = h
  drop-NoMatch fs (suc n) [] h = tt
  drop-NoMatch fs (suc n) (c ∷ t) h = drop-NoMatch fs n t h.1

  search_from-NoMatch :
      (fs : List Line) (t : Line) (i : ℕ) → NoMatch fold fs t → search_from fold fs t i ≡ none
  unfolding NoMatch search_from
  search_from-NoMatch fs [] i h = refl
  search_from-NoMatch fs (c ∷ t) i h = rw (h.0, search_from) (search_from-NoMatch fs t (i + 1) h.1)

  -- A text without a match is not marked, wherever the last test has ended, and the next one starts
  -- at the beginning.
  test_global-NoMatch :
      (fs : List Line) (l : ℕ) (p : Line) → NoMatch fold fs p → test_global fold fs l p ≡ (false, 0)
  unfolding test_global
  test_global-NoMatch fs l p h =
      rw (search_from-NoMatch fs (drop l p) l (drop-NoMatch fs l p h)) refl

  test_global-match :
      (fs : List Line) (m : Line)
      → match_at fold fs m ≡ some (length m)
      → 1 ≤ length m
      → test_global fold fs 0 m ≡ (true, length m)
  unfolding test_global search_from
  test_global-match fs [] h pos = absurd (omega arith)
  test_global-match fs (c ∷ t) h pos = ground arith

  render_parts-IsPiece :
      (fs ps : List Line) (l : ℕ)
      → Alternates fold fs ps
      → All (IsPiece fs) (render_parts fold fs l ps)
        × (map (λ piece. piece.1) (render_parts fold fs l ps) ≡ ps)
  unfolding Alternates render_parts
  render_parts-IsPiece fs [] l a = (tt, refl)
  render_parts-IsPiece fs (p ∷ []) l a = rw (test_global-NoMatch fs l p a) ((a, tt), refl)
  render_parts-IsPiece fs (p ∷ m ∷ rest) l a =
      let (pieces, texts) = render_parts-IsPiece fs rest (length m) a.3 in
      rw (test_global-NoMatch fs l p a.0, test_global-match fs m a.1 a.2)
        ((a.0, (match_at-IsFragment fs m a.1, pieces)), ap (λ u. p ∷ m ∷ u) texts)

  fragments-filled :
      (line : Line) (search : String)
      → All (λ f. 1 ≤ length f) (get_suspicious_fragments fold line search)
  unfolding get_suspicious_fragments
  fragments-filled line search = All-filter (fragment_set fold line search)

  NoMatch-nil : (line : Line) → NoMatch fold [] line
  unfolding NoMatch match_at
  NoMatch-nil [] = tt
  NoMatch-nil (c ∷ t) = (refl, NoMatch-nil t)

  -- The pieces of a line join to the line. A piece that is marked is one of the fragments, up to
  -- case, and inside one that is not marked no fragment begins.
  pub render_highlighted_line-IsPiece :
      (line : Line) (search : String)
      → All
          (IsPiece (get_suspicious_fragments fold line search))
          (render_highlighted_line fold line search)
        × (join_parts (map (λ piece. piece.1) (render_highlighted_line fold line search)) ≡ line)
  unfolding render_highlighted_line join_parts
  render_highlighted_line-IsPiece line search =
      go (get_suspicious_fragments fold line search) (fragments-filled line search)
    where
      go :
          (fs : List Line)
          → All (λ f. 1 ≤ length f) fs
          → All (IsPiece fs) (
              if length fs == 0
              then (false, line) ∷ []
              else render_parts fold fs 0 (parts_of fold fs line))
            × (join_parts (
                  map
                    (λ piece. piece.1)
                    (if length fs == 0
                      then (false, line) ∷ []
                      else render_parts fold fs 0 (parts_of fold fs line)))
                ≡ line)
      go [] a = ((NoMatch-nil line, tt), append-nil line)
      go (f ∷ fs) a =
          let (alternate, joined) = parts_of-Alternates fold (f ∷ fs) line a in
          let (pieces, texts) =
            render_parts-IsPiece (f ∷ fs) (parts_of fold (f ∷ fs) line) 0 alternate in
          let some_fragment : (suc (length fs) == 0) ≡ false = ground arith in
          rw some_fragment (pieces, ap join_parts texts ∙ joined)
