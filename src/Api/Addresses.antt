-- ===== src/Api/Addresses.antt =====
-- The addresses of web/src/lib/api.ts, read back: the segments of the path and the parameters of the
-- query.
use mathlib.Core.Path.{ap₂}
use ddsds.Common.{
  ℕ, Bool, true, false, ◌||◌, not, List, [], ◌∷◌, ◌++◌, ◌≡◌, refl, ap, ◌∙◌, append-nil, map, all,
  All, arith, ◌==◌, if◌then◌else◌,
}

abbrev put_first : ℕ → List (List ℕ) → List (List ℕ)
put_first c [] = (c ∷ []) ∷ []
put_first c (p ∷ ps) = (c ∷ p) ∷ ps

-- The pieces of a text between the marks `d`.
unfoldable pub split_on : ℕ → List ℕ → List (List ℕ)
split_on d [] = [] ∷ []
split_on d (c ∷ t) = if c == d then [] ∷ split_on d t else put_first c (split_on d t)

abbrev pub lacks : ℕ → List ℕ → Bool
lacks d = all (λ c. not (c == d))

split_on-lacks : (d : ℕ) (s : List ℕ) → lacks d s ≡ true → split_on d s ≡ s ∷ []
unfolding split_on
split_on-lacks d [] h = refl
split_on-lacks d (c ∷ s) h = ground (arith, split_on-lacks d s)

split_on-append :
    (d : ℕ) (s t : List ℕ) → lacks d s ≡ true → split_on d (s ++ d ∷ t) ≡ s ∷ split_on d t
unfolding split_on
split_on-append d [] t h = ground arith
split_on-append d (c ∷ s) t h = ground (arith, split_on-append d s t)

lacks-append :
    (d : ℕ) (s t : List ℕ) → lacks d s ≡ true → lacks d t ≡ true → lacks d (s ++ t) ≡ true
lacks-append d [] t h k = k
lacks-append d (c ∷ s) t h k = ground (arith, lacks-append d s t)

-- The marks of an address.
abbrev pub is_mark : ℕ → Bool
is_mark c = c == b'?' || (c == b'&' || (c == b'=' || c == b'/'))

-- A text with none of the marks.
unfoldable pub is_clean : List ℕ → Bool
is_clean = all (λ c. not (is_mark c))

is_clean-lacks :
    (s : List ℕ)
    → is_clean s ≡ true
    → (lacks b'?' s ≡ true) × (lacks b'&' s ≡ true) × (lacks b'=' s ≡ true) × (lacks b'/' s ≡ true)
unfolding is_clean
is_clean-lacks [] h = (refl, refl, refl, refl)
is_clean-lacks (c ∷ s) h =
    let ih = is_clean-lacks s in
    (ground (arith, ih), ground (arith, ih), ground (arith, ih), ground (arith, ih))

-- A printed address: the segments, and the parameters with their values.
unfoldable pub print_segments : List (List ℕ) → List ℕ
print_segments [] = []
print_segments (s ∷ ss) = b'/' ∷ s ++ print_segments ss

unfoldable pub print_params : List (List ℕ × List ℕ) → List ℕ
print_params [] = []
print_params ((k, v) ∷ ps) =
    k ++ b'=' ∷ v ++ (elim ps [ [] ↦ [] | q ∷ qs ↦ b'&' ∷ print_params ps ])

lacks-segments :
    (ss : List (List ℕ)) → All (λ s. is_clean s ≡ true) ss → lacks b'?' (print_segments ss) ≡ true
unfolding print_segments
lacks-segments [] h = refl
lacks-segments (s ∷ ss) h =
    ground (
      arith,
      lacks-append b'?' s (print_segments ss) (is_clean-lacks s h.0).0,
      lacks-segments ss h.1,
    )

split_on-segments :
    (ss : List (List ℕ)) (s : List ℕ)
    → All (λ s. is_clean s ≡ true) (s ∷ ss)
    → split_on b'/' (s ++ print_segments ss) ≡ s ∷ ss
unfolding print_segments
split_on-segments [] s h =
    ap (split_on b'/') (append-nil s) ∙ split_on-lacks b'/' s (is_clean-lacks s h.0).3
split_on-segments (r ∷ ss) s h =
    split_on-append b'/' s (r ++ print_segments ss) (is_clean-lacks s h.0).3
    ∙ ap (λ u. s ∷ u) (split_on-segments ss r h.1)

abbrev pub IsCleanParam : List ℕ × List ℕ → Type 0
IsCleanParam e = (is_clean e.0 ≡ true) × (is_clean e.1 ≡ true)

param_lacks :
    (d : ℕ) (k v : List ℕ)
    → lacks d k ≡ true
    → lacks d v ≡ true
    → (b'=' == d) ≡ false
    → lacks d (k ++ b'=' ∷ v) ≡ true
param_lacks d k v h i e = lacks-append d k (b'=' ∷ v) h (ground arith)

split_on-param : (k v : List ℕ) → IsCleanParam (k, v) → split_on b'=' (k ++ b'=' ∷ v) ≡ k ∷ v ∷ []
split_on-param k v h =
    split_on-append b'=' k v (is_clean-lacks k h.0).2
    ∙ ap (λ u. k ∷ u) (split_on-lacks b'=' v (is_clean-lacks v h.1).2)

lacks-params :
    (ps : List (List ℕ × List ℕ)) → All IsCleanParam ps → lacks b'?' (print_params ps) ≡ true
unfolding print_params
lacks-params [] h = refl
lacks-params ((k, v) ∷ []) h =
    rw (append-nil (k ++ b'=' ∷ v))
      (param_lacks b'?' k v (is_clean-lacks k h.0.0).0 (is_clean-lacks v h.0.1).0 refl)
lacks-params ((k, v) ∷ q ∷ qs) h =
    lacks-append b'?' (k ++ b'=' ∷ v) (b'&' ∷ print_params (q ∷ qs))
      (param_lacks b'?' k v (is_clean-lacks k h.0.0).0 (is_clean-lacks v h.0.1).0 refl)
      (lacks-params (q ∷ qs) h.1)

split_on-params :
    (e : List ℕ × List ℕ) (ps : List (List ℕ × List ℕ))
    → All IsCleanParam (e ∷ ps)
    → map (split_on b'=') (split_on b'&' (print_params (e ∷ ps)))
      ≡ map (λ e. e.0 ∷ e.1 ∷ []) (e ∷ ps)
unfolding print_params
split_on-params (k, v) [] h =
    ap (λ u. map (split_on b'=') (split_on b'&' u)) (append-nil (k ++ b'=' ∷ v))
    ∙ ap (map (split_on b'=')) (
        split_on-lacks b'&' (k ++ b'=' ∷ v)
          (param_lacks b'&' k v (is_clean-lacks k h.0.0).1 (is_clean-lacks v h.0.1).1 refl))
    ∙ ap (λ u. u ∷ []) (split_on-param k v h.0)
split_on-params (k, v) (q ∷ qs) h =
    ap (map (split_on b'=')) (
      split_on-append b'&' (k ++ b'=' ∷ v) (print_params (q ∷ qs))
        (param_lacks b'&' k v (is_clean-lacks k h.0.0).1 (is_clean-lacks v h.0.1).1 refl))
    ∙ ap₂ (λ u us. u ∷ us) (split_on-param k v h.0) (split_on-params q qs h.1)

-- An address: the segments, and the query if there are parameters.
unfoldable pub print_address : List (List ℕ) → List (List ℕ × List ℕ) → List ℕ
unfolding print_segments print_params
print_address ss ps =
    print_segments ss ++ (elim ps [ [] ↦ [] | q ∷ qs ↦ b'?' ∷ print_params (q ∷ qs) ])

-- How a server reads an address: `decode` undoes the escapes of one segment, name or value.
module _ (decode : List ℕ → List ℕ) where
  abbrev pub read_param : List (List ℕ) → List ℕ × List ℕ
  read_param (k ∷ v ∷ []) = (decode k, decode v)
  read_param _ = ([], [])

  abbrev pub rest_of : List (List ℕ) → List (List ℕ)
  rest_of [] = []
  rest_of (p ∷ ps) = ps

  abbrev pub read_parts : List (List ℕ) → List (List ℕ) × List (List ℕ × List ℕ)
  read_parts (path ∷ []) = (map decode (rest_of (split_on b'/' path)), [])
  read_parts (path ∷ query ∷ []) = (
    map decode (rest_of (split_on b'/' path)),
    map read_param (map (split_on b'=') (split_on b'&' query)),
  )
  read_parts _ = ([], [])

  unfoldable pub read_address : List ℕ → List (List ℕ) × List (List ℕ × List ℕ)
  unfolding split_on
  read_address s = read_parts (split_on b'?' s)

  map-read_param :
      (ps : List (List ℕ × List ℕ))
      → map read_param (map (λ e. e.0 ∷ e.1 ∷ []) ps) ≡ map (λ e. (decode e.0, decode e.1)) ps
  map-read_param [] = refl
  map-read_param (e ∷ ps) = ap (λ u. (decode e.0, decode e.1) ∷ u) (map-read_param ps)

  read_segments :
      (s : List ℕ) (ss : List (List ℕ))
      → All (λ s. is_clean s ≡ true) (s ∷ ss)
      → map decode (rest_of (split_on b'/' (print_segments (s ∷ ss)))) ≡ map decode (s ∷ ss)
  unfolding print_segments split_on
  read_segments s ss h = ap (map decode) (split_on-segments ss s h)

  pub read_address-print_address :
      (s : List ℕ) (ss : List (List ℕ)) (ps : List (List ℕ × List ℕ))
      → All (λ s. is_clean s ≡ true) (s ∷ ss)
      → All IsCleanParam ps
      → read_address (print_address (s ∷ ss) ps)
        ≡ (map decode (s ∷ ss), map (λ e. (decode e.0, decode e.1)) ps)
  unfolding read_address print_address
  read_address-print_address s ss [] h k =
      ap (λ u. read_parts (split_on b'?' u)) (append-nil (print_segments (s ∷ ss)))
      ∙ ap read_parts (split_on-lacks b'?' (print_segments (s ∷ ss)) (lacks-segments (s ∷ ss) h))
      ∙ ap (λ u. (u, [])) (read_segments s ss h)
  read_address-print_address s ss (p ∷ ps) h k =
      ap read_parts (
        split_on-append b'?' (print_segments (s ∷ ss)) (print_params (p ∷ ps))
          (lacks-segments (s ∷ ss) h)
        ∙ ap (λ u. print_segments (s ∷ ss) ∷ u)
            (split_on-lacks b'?' (print_params (p ∷ ps)) (lacks-params (p ∷ ps) k)))
      ∙ ap₂ (λ u w. (u, w)) (read_segments s ss h)
          (ap (map read_param) (split_on-params p ps k) ∙ map-read_param (p ∷ ps))
