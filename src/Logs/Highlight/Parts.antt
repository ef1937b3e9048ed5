-- ===== src/Logs/Highlight/Parts.antt =====
-- What `split` of web/src/pages/Logs.tsx leaves: texts without a match and matches, in turn.
use ddsds.Common.{
  ℕ, zero, suc, ◌≤◌, ◌<◌, true, false, List, [], ◌∷◌, ◌++◌, none, some, ◌≡◌, refl, ap, ◌∙◌, length,
  take, drop, arith, append_assoc, take-append-drop, length-drop, length-take, Option-cases, inl,
  inr, All, Bool-cases,
}
use ddsds.Logs.Highlight.{Line, starts, match_at, split, parts_of}

unfoldable pub join_parts : List Line → Line
join_parts [] = []
join_parts (p ∷ ps) = p ++ join_parts ps

module _ (fold : ℕ → ℕ) where
  starts-append : (f s t : Line) → starts fold f s ≡ true → starts fold f (s ++ t) ≡ true
  unfolding starts
  starts-append [] s t h = refl
  starts-append (p ∷ ps) [] t h = cc
  starts-append (p ∷ ps) (c ∷ s) t h = ground (arith, starts-append ps s t)

  starts-take : (f t : Line) → starts fold f t ≡ true → starts fold f (take (length f) t) ≡ true
  unfolding starts
  starts-take [] t h = refl
  starts-take (p ∷ ps) [] h = cc
  starts-take (p ∷ ps) (c ∷ t) h = ground (arith, starts-take ps t)

  starts-length : (f t : Line) → starts fold f t ≡ true → length f ≤ length t
  unfolding starts
  starts-length [] t h = omega arith
  starts-length (p ∷ ps) [] h = cc
  starts-length (p ∷ ps) (c ∷ t) h = ground (arith, starts-length ps t)

  -- No match here with more text behind, so none without.
  pub match_at-append :
      (fs : List Line) (s t : Line) → match_at fold fs (s ++ t) ≡ none → match_at fold fs s ≡ none
  unfolding match_at
  match_at-append [] s t h = refl
  match_at-append (f ∷ fs) s t h = ground (arith, starts-append f s t, match_at-append fs s t)

  match_at-length : (fs : List Line) (t : Line) (n : ℕ) → match_at fold fs t ≡ some n → n ≤ length t
  unfolding match_at
  match_at-length [] t n h = cc
  match_at-length (f ∷ fs) t n h = ground (arith, starts-length f t, match_at-length fs t n)

  starts-take-false :
      (f t : Line) (n : ℕ) → starts fold f t ≡ false → starts fold f (take n t) ≡ false
  starts-take-false f t n h = elim (Bool-cases (starts fold f (take n t))) [
    | inl e ↦
        let back = starts-append f (take n t) (drop n t) e in
        cc (h, rw (take-append-drop n t) at back)
    | inr e ↦ e
  ]

  -- The text of a match is matched on its own, and whole.
  match_at-take :
      (fs : List Line) (t : Line) (n : ℕ)
      → match_at fold fs t ≡ some n
      → match_at fold fs (take n t) ≡ some n
  unfolding match_at
  match_at-take [] t n h = cc
  match_at-take (f ∷ fs) t n h = elim (Bool-cases (starts fold f t)) [
    | inl e ↦ let k : length f ≡ n = ground arith in rw (← k, starts-take f t e) refl
    | inr e ↦ rw (starts-take-false f t n e) (match_at-take fs t n (rw e at h))
  ]

  -- No match begins in the text.
  unfoldable pub NoMatch : List Line → Line → Type 0
  NoMatch fs [] = Unit
  NoMatch fs (c ∷ t) = (match_at fold fs (c ∷ t) ≡ none) × NoMatch fs t

  -- No match begins in `plain` when `t` follows.
  unfoldable NoMatchBefore : List Line → Line → Line → Type 0
  NoMatchBefore fs [] t = Unit
  NoMatchBefore fs (c ∷ plain) t =
      (match_at fold fs (c ∷ plain ++ t) ≡ none) × NoMatchBefore fs plain t

  NoMatchBefore-NoMatch :
      (fs : List Line) (plain t : Line) → NoMatchBefore fs plain t → NoMatch fs plain
  unfolding NoMatch NoMatchBefore
  NoMatchBefore-NoMatch fs [] t h = tt
  NoMatchBefore-NoMatch fs (c ∷ plain) t h =
      (match_at-append fs (c ∷ plain) t h.0, NoMatchBefore-NoMatch fs plain t h.1)

  NoMatchBefore-step :
      (fs : List Line) (plain : Line) (c : ℕ) (t : Line)
      → NoMatchBefore fs plain (c ∷ t)
      → match_at fold fs (c ∷ t) ≡ none
      → NoMatchBefore fs (plain ++ c ∷ []) t
  unfolding NoMatchBefore
  NoMatchBefore-step fs [] c t h e = (e, tt)
  NoMatchBefore-step fs (d ∷ plain) c t h e =
      (rw (append_assoc plain (c ∷ []) t) h.0, NoMatchBefore-step fs plain c t h.1 e)

  -- Texts without a match and whole matches, in turn.
  unfoldable pub Alternates : List Line → List Line → Type 0
  Alternates fs [] = Unit
  Alternates fs (p ∷ []) = NoMatch fs p
  Alternates fs (p ∷ m ∷ rest) =
      NoMatch fs p × (match_at fold fs m ≡ some (length m)) × (1 ≤ length m) × Alternates fs rest

  match_at-pos :
      (fs : List Line) (t : Line) (n : ℕ)
      → All (λ f. 1 ≤ length f) fs
      → match_at fold fs t ≡ some n
      → 1 ≤ n
  unfolding match_at
  match_at-pos [] t n a h = cc
  match_at-pos (f ∷ fs) t n a h = ground (arith, a.0, match_at-pos fs t n a.1)

  split-none :
      (fuel : ℕ) (fs : List Line) (plain : Line) (c : ℕ) (t : Line)
      → match_at fold fs (c ∷ t) ≡ none
      → split fold (suc fuel) fs plain (c ∷ t) ≡ split fold fuel fs (plain ++ c ∷ []) t
  unfolding split
  split-none fuel fs plain c t e = rw (e, split) refl

  split-some :
      (fuel : ℕ) (fs : List Line) (plain : Line) (c : ℕ) (t : Line) (n : ℕ)
      → match_at fold fs (c ∷ t) ≡ some n
      → split fold (suc fuel) fs plain (c ∷ t)
        ≡ plain ∷ take n (c ∷ t) ∷ split fold fuel fs [] (drop n (c ∷ t))
  unfolding split
  split-some fuel fs plain c t n e = rw (e, split) refl

  split-Alternates :
      (fuel : ℕ) (fs : List Line) (plain t : Line)
      → length t < fuel
      → All (λ f. 1 ≤ length f) fs
      → NoMatchBefore fs plain t
      → Alternates fs (split fold fuel fs plain t)
        × (join_parts (split fold fuel fs plain t) ≡ plain ++ t)
  unfolding split Alternates join_parts NoMatchBefore
  split-Alternates zero fs plain t l a h = absurd (omega arith)
  split-Alternates (suc fuel) fs plain [] l a h = (NoMatchBefore-NoMatch fs plain [] h, refl)
  split-Alternates (suc fuel) fs plain (c ∷ t) l a h =
      elim (Option-cases (match_at fold fs (c ∷ t))) [
        | inl e ↦
            let (alternate, joined) =
              split-Alternates fuel fs (plain ++ c ∷ []) t (omega arith) a
                (NoMatchBefore-step fs plain c t h e) in
            rw (split-none fuel fs plain c t e) (alternate, joined ∙ append_assoc plain (c ∷ []) t)
        | inr (n, e) ↦
            let pos : 1 ≤ n = match_at-pos fs (c ∷ t) n a e in
            let within : n ≤ length (c ∷ t) = match_at-length fs (c ∷ t) n e in
            let short : length (take n (c ∷ t)) ≡ n = omega (arith, length-take {0} n (c ∷ t)) in
            let (alternate, joined) =
              split-Alternates fuel fs [] (drop n (c ∷ t))
                (omega (arith, length-drop {0} n (c ∷ t))) a tt in
            rw (split-some fuel fs plain c t n e) (
              (
                NoMatchBefore-NoMatch fs plain (c ∷ t) h,
                rw short (match_at-take fs (c ∷ t) n e),
                rw short pos,
                alternate,
              ),
              ap (λ u. plain ++ (take n (c ∷ t) ++ u)) joined
                  ∙ ap (λ u. plain ++ u) (take-append-drop n (c ∷ t)),
            )
      ]

  -- The parts of a line join to the line, and are texts without a match and matches, in turn.
  pub parts_of-Alternates :
      (fs : List Line) (line : Line)
      → All (λ f. 1 ≤ length f) fs
      → Alternates fs (parts_of fold fs line) × (join_parts (parts_of fold fs line) ≡ line)
  unfolding parts_of NoMatchBefore
  parts_of-Alternates fs line a = split-Alternates (suc (length line)) fs [] line (omega arith) a tt
