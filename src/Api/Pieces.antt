-- ===== src/Api/Pieces.antt =====
-- Printed texts beside what they stand for, for the paths of web/src/lib/api.ts.
use mathlib.Core.Path.{ap₂}
use ddsds.Common.{ℕ, String, true, List, [], ◌∷◌, ◌≡◌, refl, ap, ◌∙◌, map, All}
use ddsds.Text.{codes, decimal}
use ddsds.Api.Addresses.{
  is_clean, print_address, read_address, read_address-print_address, IsCleanParam,
}

-- A printed text, and what it stands for.
abbrev pub Piece : Type 0
Piece = List ℕ × List ℕ

abbrev pub word : String → Piece
word s = (codes s, codes s)

abbrev pub number : ℕ → Piece
number n = (codes (decimal n), codes (decimal n))

-- A parameter: the printed texts of its name and value, and what they stand for.
abbrev pub printed : Piece × Piece → List ℕ × List ℕ
printed e = (e.0.0, e.1.0)

abbrev pub meant : Piece × Piece → List ℕ × List ℕ
meant e = (e.0.1, e.1.1)

module _ (decode : List ℕ → List ℕ) where
  abbrev pub decoded : List ℕ × List ℕ → List ℕ × List ℕ
  decoded e = (decode e.0, decode e.1)

  abbrev pub IsRead : Piece → Type 0
  IsRead p = (is_clean p.0 ≡ true) × (decode p.0 ≡ p.1)

  map-decode :
      (ps : List Piece) → All IsRead ps → map decode (map (λ p. p.0) ps) ≡ map (λ p. p.1) ps
  map-decode [] h = refl
  map-decode (p ∷ ps) h = ap₂ (λ u us. u ∷ us) h.0.1 (map-decode ps h.1)

  abbrev pub IsReadParam : Piece × Piece → Type 0
  IsReadParam e = IsRead e.0 × IsRead e.1

  map-decode_params :
      (ps : List (Piece × Piece)) → All IsReadParam ps → map decoded (map printed ps) ≡ map meant ps
  map-decode_params [] h = refl
  map-decode_params (p ∷ ps) h =
      ap₂ (λ u us. u ∷ us) (ap₂ {C = List ℕ × List ℕ} (λ k v. (k, v)) h.0.0.1 h.0.1.1)
        (map-decode_params ps h.1)

  map-is_clean :
      (ps : List Piece) → All IsRead ps → All (λ s. is_clean s ≡ true) (map (λ p. p.0) ps)
  map-is_clean [] h = tt
  map-is_clean (p ∷ ps) h = (h.0.0, map-is_clean ps h.1)

  map-IsCleanParam :
      (ps : List (Piece × Piece)) → All IsReadParam ps → All IsCleanParam (map printed ps)
  map-IsCleanParam [] h = tt
  map-IsCleanParam (p ∷ ps) h = ((h.0.0.0, h.0.1.0), map-IsCleanParam ps h.1)

  pub read_pieces :
      (text : List ℕ) (s : Piece) (ss : List Piece) (ps : List (Piece × Piece))
      → text ≡ print_address (map (λ p. p.0) (s ∷ ss)) (map printed ps)
      → All IsRead (s ∷ ss)
      → All IsReadParam ps
      → read_address decode text ≡ (map (λ p. p.1) (s ∷ ss), map meant ps)
  read_pieces text s ss ps e h k =
      ap (read_address decode) e
      ∙ read_address-print_address decode s.0 (map (λ p. p.0) ss) (map printed ps)
          (map-is_clean (s ∷ ss) h) (map-IsCleanParam ps k)
      ∙ ap₂ {C = List (List ℕ) × List (List ℕ × List ℕ)} (λ u w. (u, w)) (map-decode (s ∷ ss) h)
          (map-decode_params ps k)
