-- ===== src/Text/Regex.antt =====
-- Regular expressions as the source uses them: a test of a text, by derivatives. The flag `i` without
-- `u` folds ASCII letters only, where the pattern is ASCII.
use ddsds.Common.{
  ℕ, ◌+◌, Bool, true, false, ◌&&◌, ◌||◌, not, List, [], ◌∷◌, ◌≡◌, refl, All, arith, leb, ◌==◌,
  if◌then◌else◌, Bool-cases, inl, inr,
}

pub data Regex : Type 0 where
  nothing empty : Regex
  sym_of : (ℕ → Bool) → Regex
  seq alt : Regex → Regex → Regex
  star : Regex → Regex

nullable : Regex → Bool
nullable nothing = false
nullable empty = true
nullable (sym_of p) = false
nullable (seq r s) = nullable r && nullable s
nullable (alt r s) = nullable r || nullable s
nullable (star r) = true

deriv : ℕ → Regex → Regex
deriv c nothing = nothing
deriv c empty = nothing
deriv c (sym_of p) = if p c then empty else nothing
deriv c (seq r s) = if nullable r then alt (seq (deriv c r) s) (deriv c s) else seq (deriv c r) s
deriv c (alt r s) = alt (deriv c r) (deriv c s)
deriv c (star r) = seq (deriv c r) (star r)

-- `^r$`
unfoldable pub matches : List ℕ → Regex → Bool
unfolding nullable deriv
matches [] r = nullable r
matches (c ∷ s) r = matches s (deriv c r)

abbrev anything : Regex
anything = star (sym_of (λ c. true))

-- `r.test(s)` with no anchors.
unfoldable pub test : Regex → List ℕ → Bool
test r s = matches s (seq anything (seq r anything))

-- Pieces of patterns: a range, `.`, `\s`, a text with the flag `i`, `r+`, `r{1,3}`.
abbrev pub in_range : ℕ → ℕ → ℕ → Bool
in_range lo hi c = leb lo c && leb c hi

abbrev pub digit : Regex
digit = sym_of (in_range b'0' b'9')

abbrev pub any_char : Regex
any_char = sym_of (λ c. not (c == 10 || c == 13 || c == 0x2028 || c == 0x2029))

abbrev pub lower_ascii : ℕ → ℕ
lower_ascii c = if in_range b'A' b'Z' c then c + 32 else c

unfoldable pub literal_i : List ℕ → Regex
literal_i [] = empty
literal_i (x ∷ xs) = seq (sym_of (λ c. lower_ascii c == lower_ascii x)) (literal_i xs)

abbrev pub plus : Regex → Regex
plus r = seq r (star r)

abbrev pub one_to_three : Regex → Regex
one_to_three r = seq r (alt empty (seq r (alt empty r)))

-- No text matches.
is_void : Regex → Bool
is_void nothing = true
is_void empty = false
is_void (sym_of p) = false
is_void (seq r s) = is_void r || is_void s
is_void (alt r s) = is_void r && is_void s
is_void (star r) = false

is_void-nullable : (r : Regex) → is_void r ≡ true → nullable r ≡ false
unfolding is_void nullable
is_void-nullable (seq r s) h = ground (arith, is_void-nullable r, is_void-nullable s)
is_void-nullable (alt r s) h = ground (arith, is_void-nullable r, is_void-nullable s)
is_void-nullable nothing h = refl
is_void-nullable r h = cc

is_void-deriv : (c : ℕ) (r : Regex) → is_void r ≡ true → is_void (deriv c r) ≡ true
unfolding is_void deriv
is_void-deriv c (seq r s) h =
    ground (arith, is_void-deriv c r, is_void-deriv c s, is_void-nullable r)
is_void-deriv c (alt r s) h = ground (arith, is_void-deriv c r, is_void-deriv c s)
is_void-deriv c nothing h = refl
is_void-deriv c r h = cc

is_void-matches : (s : List ℕ) (r : Regex) → is_void r ≡ true → matches s r ≡ false
unfolding matches
is_void-matches [] r h = is_void-nullable r h
is_void-matches (c ∷ s) r h = is_void-matches s (deriv c r) (is_void-deriv c r h)

-- Every character that the expression takes satisfies the test.
abbrev pub Alphabet : (ℕ → Bool) → Regex → Type 0
Alphabet p nothing = Unit
Alphabet p empty = Unit
Alphabet p (sym_of q) = (c : ℕ) → p c ≡ false → q c ≡ false
Alphabet p (seq r s) = Alphabet p r × Alphabet p s
Alphabet p (alt r s) = Alphabet p r × Alphabet p s
Alphabet p (star r) = Alphabet p r

Alphabet-deriv : (p : ℕ → Bool) (c : ℕ) (r : Regex) → Alphabet p r → Alphabet p (deriv c r)
unfolding deriv
Alphabet-deriv p c nothing h = tt
Alphabet-deriv p c empty h = tt
Alphabet-deriv p c (sym_of q) h = elim (Bool-cases (q c)) [
  | inl e ↦ rw (e, deriv) tt
  | inr e ↦ rw (e, deriv) tt
]
Alphabet-deriv p c (seq r s) h = elim (Bool-cases (nullable r)) [
  | inl e ↦ rw (e, deriv) ((Alphabet-deriv p c r h.0, h.1), Alphabet-deriv p c s h.1)
  | inr e ↦ rw (e, deriv) (Alphabet-deriv p c r h.0, h.1)
]
Alphabet-deriv p c (alt r s) h = (Alphabet-deriv p c r h.0, Alphabet-deriv p c s h.1)
Alphabet-deriv p c (star r) h = (Alphabet-deriv p c r h, h)

deriv-void :
    (p : ℕ → Bool) (c : ℕ) (r : Regex) → Alphabet p r → p c ≡ false → is_void (deriv c r) ≡ true
unfolding deriv is_void
deriv-void p c nothing h e = refl
deriv-void p c empty h e = refl
deriv-void p c (sym_of q) h e = rw (h c e) refl
deriv-void p c (seq r s) h e = ground (arith, deriv-void p c r h.0 e, deriv-void p c s h.1 e)
deriv-void p c (alt r s) h e = ground (arith, deriv-void p c r h.0 e, deriv-void p c s h.1 e)
deriv-void p c (star r) h e = ground (arith, deriv-void p c r h e)

-- A text that matches has only characters of the alphabet.
pub matches-Alphabet :
    (p : ℕ → Bool) (s : List ℕ) (r : Regex)
    → Alphabet p r
    → matches s r ≡ true
    → All (λ c. p c ≡ true) s
unfolding matches
matches-Alphabet p [] r a h = tt
matches-Alphabet p (c ∷ s) r a h = (
  elim (Bool-cases (p c)) [
    | inl e ↦ e
    | inr e ↦ cc (is_void-matches s (deriv c r) (deriv-void p c r a e), h)
  ],
  matches-Alphabet p s (deriv c r) (Alphabet-deriv p c r a) h,
)
