-- ===== src/Format/Event/Digits.antt =====
-- Numbers that are printed and read again, for the descriptions of web/src/lib/format.ts.
use ddsds.Common.{
  ℕ, zero, suc, ◌+◌, ◌*◌, ◌/◌, ◌%◌, ◌≤◌, ◌<◌, String, Bool, true, false, List, [], ◌∷◌, ◌++◌, some,
  ◌≡◌, refl, ap, ◌∙◌, arith, ltb, if◌then◌else◌, Bool-cases, inl, inr,
}
use ddsds.Text.{append, codes, digits, digit, decimal, codes-append}
use ddsds.Format.Event.{is_digit, read_digits, starts_digit, eat_digits}

codes-if : (b : Bool) (s t : String) → codes (if b then s else t) ≡ (if b then codes s else codes t)
codes-if true s t = refl
codes-if false s t = refl

codes-digit : (d : ℕ) → d < 10 → codes (digit d) ≡ (b'0' + d) ∷ []
unfolding digit
codes-digit d h = simp codes-if (ground arith)

-- One digit is read.
read_digit :
    (n d : ℕ) (s : List ℕ) → d < 10 → read_digits n ((b'0' + d) ∷ s) ≡ read_digits (10 * n + d) s
unfolding read_digits is_digit
read_digit n d s h = ground arith

codes-put_digit :
    (d : ℕ) (s : String) (t : List ℕ)
    → d < 10
    → codes (append (digit d) s) ++ t ≡ (b'0' + d) ∷ codes s ++ t
codes-put_digit d s t h =
    ap (λ u. u ++ t) (codes-append (digit d) s ∙ ap (λ u. u ++ codes s) (codes-digit d h))

digits_small : (f n : ℕ) (s : String) → n < 10 → digits (suc f) n s ≡ append (digit n) s
unfolding digits
digits_small f n s h = let small : ltb n 10 ≡ true = ground arith in rw (small, digits) refl

digits_large :
    (f n : ℕ) (s : String)
    → 10 ≤ n
    → digits (suc f) n s ≡ digits f (n / 10) (append (digit (n % 10)) s)
unfolding digits
digits_large f n s h = let large : ltb n 10 ≡ false = ground arith in rw (large, digits) refl

-- Reading the digits of a number in front of others.
read_digits-digits :
    (f n : ℕ) (s : String) (t : List ℕ)
    → n < f
    → read_digits 0 (codes (digits f n s) ++ t) ≡ read_digits n (codes s ++ t)
read_digits-digits zero n s t h = absurd (omega arith)
read_digits-digits (suc f) n s t h = elim (Bool-cases (ltb n 10)) [
  | inl e ↦
      let small : n < 10 = ground arith in
      ap (λ u. read_digits 0 (codes u ++ t)) (digits_small f n s small)
      ∙ ap (read_digits 0) (codes-put_digit n s t small)
      ∙ read_digit 0 n (codes s ++ t) small
      ∙ ap (λ k. read_digits k (codes s ++ t)) (omega arith)
  | inr e ↦
      let large : 10 ≤ n = ground arith in
      let last : n % 10 < 10 = omega arith in
      ap (λ u. read_digits 0 (codes u ++ t)) (digits_large f n s large)
      ∙ read_digits-digits f (n / 10) (append (digit (n % 10)) s) t (omega arith)
      ∙ ap (read_digits (n / 10)) (codes-put_digit (n % 10) s t last)
      ∙ read_digit (n / 10) (n % 10) (codes s ++ t) last
      ∙ ap (λ k. read_digits k (codes s ++ t)) (omega arith)
]

starts_put_digit :
    (d : ℕ) (s : String) (t : List ℕ)
    → d < 10
    → starts_digit (codes (append (digit d) s) ++ t) ≡ true
unfolding starts_digit is_digit
starts_put_digit d s t h = rw (codes-put_digit d s t h) (ground arith)

starts_digit-digits :
    (f n : ℕ) (s : String) (t : List ℕ)
    → starts_digit (codes s ++ t) ≡ true
    → starts_digit (codes (digits f n s) ++ t) ≡ true
unfolding digits
starts_digit-digits zero n s t h = h
starts_digit-digits (suc f) n s t h = elim (Bool-cases (ltb n 10)) [
  | inl e ↦ rw (digits_small f n s (ground arith)) (starts_put_digit n s t (ground arith))
  | inr e ↦ rw (digits_large f n s (ground arith)) (
      starts_digit-digits f (n / 10) (append (digit (n % 10)) s) t
        (starts_put_digit (n % 10) s t (omega arith)))
]

pub starts_digit-decimal : (n : ℕ) (t : List ℕ) → starts_digit (codes (decimal n) ++ t) ≡ true
unfolding decimal
starts_digit-decimal n t = elim (Bool-cases (ltb n 10)) [
  | inl e ↦ rw (digits_small n n "" (ground arith)) (starts_put_digit n "" t (ground arith))
  | inr e ↦ rw (digits_large n n "" (ground arith)) (
      starts_digit-digits n (n / 10) (append (digit (n % 10)) "") t
        (starts_put_digit (n % 10) "" t (omega arith)))
]

read_digits_end : (n : ℕ) (t : List ℕ) → starts_digit t ≡ false → read_digits n t ≡ (n, t)
unfolding read_digits starts_digit
read_digits_end n [] h = refl
read_digits_end n (c ∷ t) h = let e : is_digit c ≡ false = h in rw (e, read_digits) refl

-- The number that was printed is read back.
pub eat_digits-decimal :
    (n : ℕ) (t : List ℕ)
    → starts_digit t ≡ false
    → eat_digits (codes (decimal n) ++ t) ≡ some (n, t)
unfolding eat_digits decimal
eat_digits-decimal n t h =
    rw (starts_digit-decimal n t)
      (ap some (read_digits-digits (suc n) n "" t (omega arith) ∙ read_digits_end n t h))
