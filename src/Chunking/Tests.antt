-- ===== src/Chunking/Tests.antt =====
-- Concrete paragraphs, on which the theorem on chunk.py is applied.
use dikw_core.Prelude.{
  ℕ, Text, ◌≡◌, refl, Bool, true, false, ◌||◌, not, some, none, List, [], ◌∷◌, any, All, codes,
  arith, if◌then◌else◌, length,
}
use dikw_core.Chunking.{Para, MarkdownChunk, has_paras, spans_covered, chunk_windows}
use dikw_core.Chunking.Spans.{paragraph_spans, chunk_markdown, chunked}
use dikw_core.Chunking.Scanning.{Ordered, paragraph_spans-Ordered}
use dikw_core.Chunking.Runs.{Sublist, Ascending, holds}
use dikw_core.Chunking.Windows.{Stands, Fits}
use dikw_core.Chunking.Coverage.{chunk_windows-Fits}

abbrev para : ℕ → ℕ → ℕ → Para
para a b n = record { start = a; stop = b; tokens = n }

abbrev paras : List Para
paras = para 0 2 2 ∷ para 3 4 1 ∷ para 5 8 3 ∷ []

abbrev body_text : Text
body_text = codes "aa b ccc"

abbrev no_heading : Para → Bool
no_heading p = false

-- The second window repeats the short paragraph.
overlapping :
    chunk_windows body_text 4 1 no_heading paras []
    ≡ some (
        record { seq = 0; start = 0; stop = 4; text = codes "aa b" }
        ∷ record { seq = 1; start = 3; stop = 8; text = codes "b ccc" }
        ∷ [])
unfolding chunk_windows
overlapping = refl

split_span : chunk_windows body_text 4 1 no_heading paras ((1, 6) ∷ []) ≡ none
unfolding chunk_windows
split_span = refl

paras-Ascending : Ascending paras
paras-Ascending = (
  omega arith,
  (omega arith, (omega arith, tt)),
  (omega arith, (omega arith, tt), (omega arith, tt, tt)),
)

chunk_windows-Fits_example :
    (chunks : List MarkdownChunk) × (runs : List (List Para)) × (chunk_windows body_text 4 1
        no_heading paras
        ((0, 2) ∷ [])
      ≡ (if not (has_paras paras) || spans_covered body_text 4 1 ((0, 2) ∷ []) chunks
          then some chunks
          else none))
    × All (λ (p : Para). any (holds body_text 4 1 (omega arith) p.start p.stop) chunks ≡ true) paras
    × Stands body_text 4 1 (omega arith) 0 chunks runs
    × All (Fits body_text 4 1 (omega arith)) runs
    × All (λ (run : List Para). Sublist run paras) runs
    × ((q : Para → Bool) → not (any q paras) || any (any q) runs ≡ true)
chunk_windows-Fits_example =
    chunk_windows-Fits body_text 4 1 (omega arith) no_heading paras ((0, 2) ∷ []) paras-Ascending

-- A token is a character.
abbrev two_paras : Text
two_paras = codes "# a\n\n \nb c \n"

whole :
    chunk_markdown length two_paras 4 1 true []
    ≡ chunked (
        record { seq = 0; start = 0; stop = 3; text = codes "# a" }
        ∷ record { seq = 1; start = 7; stop = 10; text = codes "b c" }
        ∷ [])
unfolding chunk_markdown
whole = refl

paragraph_spans-Ordered_example :
    (spans : List Para) × (paragraph_spans length two_paras ≡ some spans)
    × Ordered 0 spans (length two_paras)
paragraph_spans-Ordered_example = paragraph_spans-Ordered length two_paras
