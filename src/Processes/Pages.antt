-- ===== src/Processes/Pages.antt =====
-- The rows that web/src/pages/Processes.tsx shows.
use Prim.Native.Nat.{Ordering}
use ddsds.Common.{ℕ, ◌<◌, ◌≡◌, refl, String, List, Option, none, some, length, All}
use ddsds.Paging.{total_pages, clamp_page}
use ddsds.Paging.Cover.{page_rows-pos, total_pages-pos, clamp_page-InRange}
use ddsds.Processes.{ProcessInfo, View, initial_view, sorted, paged_processes, clamp}
use ddsds.Processes.Safety.{Event, Enabled, run, run-page-pos}

module _ {N : Type 0} (compare_loads : N → N → Ordering)
    (locale_compare : String → String → Ordering) (to_lower : String → String) where
  sorted-clamp :
      (total : ℕ) (ps : Option (List (ProcessInfo N))) (v : View N)
      → sorted compare_loads locale_compare to_lower ps (clamp total v)
        ≡ sorted compare_loads locale_compare to_lower ps v
  unfolding sorted clamp
  sorted-clamp total none v = refl
  sorted-clamp total (some ps) v = refl

  -- After any use of the page's controls, and once the effect on the number of pages has run, the
  -- page is not empty if the search has found a process.
  pub paged_processes-pos :
      (es : List (Event N)) (ps : Option (List (ProcessInfo N)))
      → All Enabled es
      → 0 < length (sorted compare_loads locale_compare to_lower ps (run es initial_view))
      → 0
        < length (
            paged_processes compare_loads locale_compare to_lower ps (
              clamp
                (total_pages
                  (length (sorted compare_loads locale_compare to_lower ps (run es initial_view))))
                (run es initial_view)))
  unfolding paged_processes clamp
  paged_processes-pos es ps en h =
      let v = run es initial_view in
      let rows = sorted compare_loads locale_compare to_lower ps v in
      let total = total_pages (length rows) in
      let in_range =
        clamp_page-InRange total v.page (total_pages-pos (length rows)) (run-page-pos es en) in
      rw (sorted-clamp total ps v)
        (page_rows-pos (clamp_page total v.page) rows h in_range.0 in_range.1)
