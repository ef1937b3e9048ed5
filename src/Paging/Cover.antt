-- ===== src/Paging/Cover.antt =====
-- The pages of a table all together, and the page number, in web/src/pages/Processes.tsx and
-- web/src/pages/Security.tsx.
use ddsds.Common.{
  ℕ, zero, suc, ◌+◌, ◌-◌, ◌*◌, ◌≤◌, ◌<◌, min, ◌≡◌, refl, sym, ◌∙◌, ap, List, [], ◌++◌, take, drop,
  length, length-take, length-drop, drop-drop, take-append-drop, arith, drop_of_length-le,
}
use mathlib.Core.Path.{ap₂, ◌≡⟨◌⟩◌, ◌∎}
use ddsds.Paging.{per_page, total_pages, page_rows, previous_page, next_page, clamp_page}

-- The rows of the pages `first`, `first + 1`, … `n` pages long, one after the other.
unfoldable pub pages_from {ℓ} : {A : Type ℓ} → ℕ → ℕ → List A → List A
pages_from first zero rows = []
pages_from first (suc n) rows = page_rows first rows ++ pages_from (first + 1) n rows

page_rows-drop {ℓ} :
    {A : Type ℓ} (k : ℕ) (rows : List A)
    → page_rows (k + 1) rows ≡ take per_page (drop (k * per_page) rows)
unfolding page_rows
page_rows-drop k rows =
    let e : (k + 1 - 1) * per_page ≡ k * per_page = omega arith in
    let w : (k + 1) * per_page - k * per_page ≡ per_page = omega arith in rw (e, w) refl

pages_from-drop {ℓ} :
    {A : Type ℓ} (n k : ℕ) (rows : List A)
    → length rows ≤ (k + n) * per_page
    → pages_from (k + 1) n rows ≡ drop (k * per_page) rows
unfolding pages_from
pages_from-drop zero k rows h = sym (drop_of_length-le _ rows (omega arith))
pages_from-drop (suc n) k rows h =
    page_rows (k + 1) rows ++ pages_from (k + 1 + 1) n rows
    ≡⟨ ap₂ (λ xs ys. xs ++ ys) (page_rows-drop k rows)
        (pages_from-drop n (k + 1) rows (omega arith)) ⟩
      take per_page (drop (k * per_page) rows) ++ drop ((k + 1) * per_page) rows
    ≡⟨ ap (λ i. take per_page (drop (k * per_page) rows) ++ drop i rows) (omega arith) ⟩
      take per_page (drop (k * per_page) rows) ++ drop (k * per_page + per_page) rows
    ≡⟨ ap (λ ys. take per_page (drop (k * per_page) rows) ++ ys)
        (sym (drop-drop per_page (k * per_page) rows)) ⟩
      take per_page (drop (k * per_page) rows) ++ drop per_page (drop (k * per_page) rows)
    ≡⟨ take-append-drop per_page (drop (k * per_page) rows) ⟩ drop (k * per_page) rows ∎

length-page_rows :
    {A : Type 0} (page : ℕ) (rows : List A)
    → length (page_rows (page + 1) rows) ≡ min per_page (length rows - page * per_page)
length-page_rows page rows =
    ap length (page_rows-drop page rows)
    ∙ length-take per_page (drop (page * per_page) rows)
    ∙ ap (min per_page) (length-drop (page * per_page) rows)

-- The pages from the first to the last hold all rows, in order and each once, and no page has more
-- than ten rows.
pub pages_from-total_pages :
    {A : Type 0} (rows : List A)
    → (pages_from 1 (total_pages (length rows)) rows ≡ rows)
      × ((page : ℕ) → length (page_rows (page + 1) rows) ≤ per_page)
unfolding total_pages
pages_from-total_pages rows = (
  pages_from-drop (total_pages (length rows)) 0 rows (omega arith),
  λ page. omega (arith, length-page_rows page rows),
)

-- If there are rows, every page from the first to the last has one.
pub page_rows-pos :
    {A : Type 0} (page : ℕ) (rows : List A)
    → 0 < length rows
    → 1 ≤ page
    → page ≤ total_pages (length rows)
    → 0 < length (page_rows page rows)
unfolding total_pages
page_rows-pos zero rows h k l = absurd (omega arith)
page_rows-pos (suc page) rows h k l =
    let e : suc page ≡ page + 1 = omega arith in rw e (omega (arith, length-page_rows page rows))

-- A page number that is among the pages.
abbrev pub InRange : ℕ → ℕ → Type 0
InRange total page = (1 ≤ page) × (page ≤ total)

pub total_pages-pos : (n : ℕ) → 1 ≤ total_pages n
unfolding total_pages
total_pages-pos n = omega arith

pub previous_page-InRange :
    (total page : ℕ) → InRange total page → InRange total (previous_page page)
unfolding previous_page
previous_page-InRange total page h = omega arith

pub next_page-InRange : (total page : ℕ) → InRange total page → InRange total (next_page total page)
unfolding next_page
next_page-InRange total page h = omega arith

pub clamp_page-InRange :
    (total page : ℕ) → 1 ≤ total → 1 ≤ page → InRange total (clamp_page total page)
unfolding clamp_page
clamp_page-InRange total page h k = omega arith
