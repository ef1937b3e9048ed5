-- ===== src/Common/Sort.antt =====
-- `Array.prototype.sort`: a stable sort by a comparison, given as the test that it is negative.
-- For a consistent comparison the result of a stable sort is unique.
use mathlib.Core.Path.{◌≡◌, refl, ap, ◌∙◌}
use mathlib.Core.Bool.{Bool, true, false}
use mathlib.Core.List.{List, [], ◌∷◌, Perm}
use mathlib.Core.List.Perm
use mathlib.Core.Logic.{inl, inr}
use Prim.Native.Nat.{ℕ, zero, suc}
use ddsds.Common.Lists.{length, All, take, drop}
use ddsds.Common.Tests.{Bool-cases}

All-drop {ℓ κ} : {A : Type ℓ} (P : A → Type κ) (n : ℕ) (xs : List A) → All P xs → All P (drop n xs)
All-drop P zero xs h = h
All-drop P (suc n) [] h = tt
All-drop P (suc n) (x ∷ xs) h = All-drop P n xs h.1

module _ {ℓ} {A : Type ℓ} (before : A → A → Bool) where
  -- Into a sorted list, behind all that must stand before `x`, and before its equals.
  insert_sorted : A → List A → List A
  insert_sorted x [] = x ∷ []
  insert_sorted x (y ∷ ys) =
      let rest = insert_sorted x ys in elim (before y x) [ true ↦ y ∷ rest | false ↦ x ∷ y ∷ ys ]

  unfoldable pub sort_by : List A → List A
  unfolding insert_sorted
  sort_by [] = []
  sort_by (x ∷ xs) = insert_sorted x (sort_by xs)

  -- No element stands behind one that it must stand before.
  abbrev pub IsSorted : List A → Type 0
  IsSorted [] = Unit
  IsSorted (x ∷ xs) = All (λ y. before y x ≡ false) xs × IsSorted xs

  insert_sorted-perm : (x : A) (xs : List A) → Perm (insert_sorted x xs) (x ∷ xs)
  unfolding insert_sorted
  insert_sorted-perm x [] = Perm.refl (x ∷ [])
  insert_sorted-perm x (y ∷ ys) = elim (Bool-cases (before y x)) [
    | inl e ↦
        rw (e, insert_sorted)
          (Perm.trans (Perm.cons y (insert_sorted-perm x ys)) (Perm.swap x y ys))
    | inr e ↦ rw (e, insert_sorted) (Perm.refl (x ∷ y ∷ ys))
  ]

  length-insert_sorted : (x : A) (xs : List A) → length (insert_sorted x xs) ≡ suc (length xs)
  unfolding insert_sorted
  length-insert_sorted x [] = refl
  length-insert_sorted x (y ∷ ys) = elim (Bool-cases (before y x)) [
    | inl e ↦ rw (e, insert_sorted) (ap suc (length-insert_sorted x ys))
    | inr e ↦ rw (e, insert_sorted) refl
  ]

  pub sort_by-perm : (xs : List A) → Perm (sort_by xs) xs
  unfolding sort_by
  sort_by-perm [] = Perm.refl []
  sort_by-perm (x ∷ xs) =
      Perm.trans (insert_sorted-perm x (sort_by xs)) (Perm.cons x (sort_by-perm xs))

  All-insert_sorted {κ} :
      (P : A → Type κ) (x : A) (xs : List A) → P x → All P xs → All P (insert_sorted x xs)
  unfolding insert_sorted
  All-insert_sorted P x [] p ps = (p, tt)
  All-insert_sorted P x (y ∷ ys) p ps = elim (Bool-cases (before y x)) [
    | inl e ↦ rw (e, insert_sorted) (ps.0, All-insert_sorted P x ys p ps.1)
    | inr e ↦ rw (e, insert_sorted) (p, ps)
  ]

  -- What the comparison has to satisfy: it orders by a rank that is total.
  abbrev pub IsAsymmetric : Type ℓ
  IsAsymmetric = (x y : A) → before x y ≡ true → before y x ≡ false

  abbrev pub IsNegTransitive : Type ℓ
  IsNegTransitive = (x y z : A) → before y x ≡ false → before z y ≡ false → before z x ≡ false

  module _ (asym : IsAsymmetric) (trans : IsNegTransitive) where
    insert_sorted-IsSorted : (x : A) (xs : List A) → IsSorted xs → IsSorted (insert_sorted x xs)
    unfolding insert_sorted
    insert_sorted-IsSorted x [] h = (tt, tt)
    insert_sorted-IsSorted x (y ∷ ys) h = elim (Bool-cases (before y x)) [
      | inl e ↦
          rw (e, insert_sorted)
            (
              All-insert_sorted (λ z. before z y ≡ false) x ys (asym y x e) h.0,
              insert_sorted-IsSorted x ys h.1,
            )
      | inr e ↦ rw (e, insert_sorted) ((e, All-weaken ys h.0 e), h)
    ]
      where
        All-weaken :
            (zs : List A)
            → All (λ z. before z y ≡ false) zs
            → before y x ≡ false
            → All (λ z. before z x ≡ false) zs
        All-weaken [] hs e = tt
        All-weaken (z ∷ zs) hs e = (trans x y z e hs.0, All-weaken zs hs.1 e)

    pub sort_by-IsSorted : (xs : List A) → IsSorted (sort_by xs)
    unfolding sort_by
    sort_by-IsSorted [] = tt
    sort_by-IsSorted (x ∷ xs) = insert_sorted-IsSorted x (sort_by xs) (sort_by-IsSorted xs)

  pub length-sort_by : (xs : List A) → length (sort_by xs) ≡ length xs
  unfolding sort_by
  length-sort_by [] = refl
  length-sort_by (x ∷ xs) = length-insert_sorted x (sort_by xs) ∙ ap suc (length-sort_by xs)

  -- What a prefix of a sorted list leaves out never has to stand before what it keeps.
  pub All-take-drop :
      (n : ℕ) (xs : List A)
      → IsSorted xs
      → All (λ x. All (λ y. before y x ≡ false) (drop n xs)) (take n xs)
  All-take-drop zero xs h = tt
  All-take-drop (suc n) [] h = tt
  All-take-drop (suc n) (x ∷ xs) h =
      (All-drop (λ y. before y x ≡ false) n xs h.0, All-take-drop n xs h.1)
