-- ===== src/LogsPage/Download.antt =====
-- The file that is downloaded holds the lines that are shown.
use edge_guardian.Base.{
  split_from, split_from-join, Without, ◌≡◌, ◌≢◌, refl, List, [], ◌∷◌, map, Text, All,
}
use edge_guardian.LogsPage.{LogLine, LogResponse, log_lines, join_lines, download_content}

abbrev pub NoBreak : Text → Type 0
NoBreak = Without 10

abbrev pub texts : LogResponse → List Text
texts response = map (λ (l : LogLine). l.line) (log_lines response)

join_lines-nonempty :
    (ls : List Text) → ls ≢ [] → All NoBreak ls → split_from 10 [] (join_lines ls) ≡ ls
unfolding join_lines
join_lines-nonempty [] ne h = absurd (ne refl)
join_lines-nonempty (l ∷ ls) ne h = split_from-join 10 l ls h

-- If there is a line, and none holds a line break, the file cut at its line breaks is the list of the
-- lines that are shown, in their order.
pub split_from-download_content :
    (response : LogResponse)
    → texts response ≢ []
    → All NoBreak (texts response)
    → split_from 10 [] (download_content response) ≡ texts response
unfolding download_content
split_from-download_content response ne h = join_lines-nonempty (texts response) ne h
