-- ===== src/Paging.antt =====
-- The pages of a table, as pages/Processes.tsx and pages/Security.tsx cut them: ten rows to a page,
-- pages counted from one.
pub mod Cover
use ddsds.Common.{ℕ, ◌+◌, ◌-◌, ◌*◌, ◌/◌, min, max, List, slice, length}

-- `PROCESSES_PER_PAGE` and `EVENTS_PER_PAGE`
abbrev pub per_page : ℕ
per_page = 10

-- `Math.max(1, Math.ceil(n / 10))`
unfoldable pub total_pages : ℕ → ℕ
total_pages n = max 1 ((n + (per_page - 1)) / per_page)

unfoldable pub page_rows {ℓ} : {A : Type ℓ} → ℕ → List A → List A
page_rows page rows = slice ((page - 1) * per_page) (page * per_page) rows

-- The buttons, and the effect that runs when the number of pages changes.
unfoldable pub previous_page : ℕ → ℕ
previous_page current = max 1 (current - 1)

unfoldable pub next_page : ℕ → ℕ → ℕ
next_page total current = min total (current + 1)

unfoldable pub clamp_page : ℕ → ℕ → ℕ
clamp_page total current = min current total
