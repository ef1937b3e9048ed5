-- ===== src/Tests/Marks.antt =====
-- The marked lines of web/src/pages/Logs.tsx, with capitals of ASCII folded.
use ddsds.Common.{ℕ, ◌+◌, ◌&&◌, ◌≡◌, map, All, leb, if◌then◌else◌}
use ddsds.Text.{codes}
use ddsds.Logs.Highlight.{Line, get_suspicious_fragments, render_highlighted_line}
use ddsds.Logs.Highlight.Parts.{join_parts}
use ddsds.Logs.Highlight.Marks.{IsPiece, render_highlighted_line-IsPiece}

abbrev fold_ascii : ℕ → ℕ
fold_ascii c = if leb b'A' c && leb c b'Z' then c + 32 else c

abbrev line : Line
line = codes "Failed password for root from 10.0.0.7: FAILED LOGIN"

render_highlighted_line-IsPiece_example :
    All
      (IsPiece fold_ascii (get_suspicious_fragments fold_ascii line "root"))
      (render_highlighted_line fold_ascii line "root")
    × (join_parts (map (λ piece. piece.1) (render_highlighted_line fold_ascii line "root")) ≡ line)
render_highlighted_line-IsPiece_example = render_highlighted_line-IsPiece fold_ascii line "root"
