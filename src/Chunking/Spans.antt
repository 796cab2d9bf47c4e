-- ===== src/Chunking/Spans.antt =====
-- `_paragraph_spans` of src/dikw_core/domains/info/chunk.py and the whole of `chunk_markdown`. The
-- token counter is a parameter. The scanner keeps its position and the text from there on.
use dikw_core.Prelude.{
  ℕ, zero, suc, ◌+◌, ◌-◌, Text, Bool, false, ◌||◌, ◌&&◌, not, Option, none, some, List, [], ◌∷◌,
  ◌++◌, if◌then◌else◌, all, ltb, leb, ◌==◌, length, take, drop,
}
use dikw_core.Links.Normalize.{is_space}
use dikw_core.Links.Parse.{rstrip}
use dikw_core.Chunking.{Para, MarkdownChunk, chunk_windows}

-- `while pos < n and text[pos] in "\r\n": pos += 1`
unfoldable pub skip_breaks : ℕ → Text → ℕ × Text
skip_breaks pos [] = (pos, [])
skip_breaks pos (c ∷ s) = if c == 10 || c == 13 then skip_breaks (suc pos) s else (pos, c ∷ s)

-- The end of the last line break in the whitespace at the start
unfoldable pub last_break : Text → Option ℕ
last_break [] = none
last_break (c ∷ s) =
    if is_space c
    then elim (last_break s) [ some k ↦ some (suc k) | none ↦ if c == 10 then some 1 else none ]
    else none

-- How long the match of `\n\s*\n` at the start is
unfoldable pub separator_at : Text → Option ℕ
unfolding last_break
separator_at [] = none
separator_at (c ∷ s) =
    if c == 10 then elim (last_break s) [ none ↦ none | some k ↦ some (suc k) ] else none

-- `_PARA_SEP.search`: where the first match starts, and its length
unfoldable pub search_separator : Text → Option (ℕ × ℕ)
unfolding separator_at
search_separator [] = none
search_separator (c ∷ s) = elim (separator_at (c ∷ s)) [
  | some k ↦ some (0, k)
  | none ↦ elim (search_separator s) [ none ↦ none | some m ↦ some (suc m.0, m.1) ]
]

unfoldable pub prepend : List Para → Option (List Para) → Option (List Para)
prepend spans none = none
prepend spans (some more) = some (spans ++ more)

module _ (count_tokens : Text → ℕ) where
  -- The span of a paragraph that has text and tokens
  unfoldable pub span_at : ℕ → Text → List Para
  span_at start para_text =
      let stripped = length (rstrip para_text) in
      let tokens = count_tokens para_text in
      if stripped == 0 || tokens == 0
      then []
      else record { start = start; stop = start + stripped; tokens = tokens } ∷ []

  -- The paragraph at the position, and where the scan goes on
  unfoldable pub next_para : ℕ → Text → List Para × ℕ × Text
  unfolding search_separator span_at
  next_para start [] = ([], start, [])
  next_para start (c ∷ s) = elim (search_separator (c ∷ s)) [
    | none ↦ (span_at start (c ∷ s), start + length (c ∷ s), [])
    | some m ↦ (span_at start (take m.0 (c ∷ s)), start + (m.0 + m.1), drop (m.0 + m.1) (c ∷ s))
  ]

  -- The outer loop; `none` stands for a loop that needs more than the given number of rounds.
  unfoldable pub scan : ℕ → ℕ → Text → Option (List Para)
  unfolding skip_breaks next_para prepend
  scan fuel pos [] = some []
  scan zero pos (c ∷ s) = none
  scan (suc fuel) pos (c ∷ s) =
      let (start, rest) = skip_breaks pos (c ∷ s) in
      let (spans, pos1, rest1) = next_para start rest in prepend spans (scan fuel pos1 rest1)

  unfoldable pub paragraph_spans : Text → Option (List Para)
  unfolding scan
  paragraph_spans text = if all is_space text then some [] else scan (length text) 0 text

-- `_HEADING.match`: at most three characters of space, one to six `#`, and a space
unfoldable pub hashes_then_space : ℕ → Text → Bool
hashes_then_space n [] = false
hashes_then_space n (c ∷ s) =
    if c == 35 then hashes_then_space (suc n) s else is_space c && (ltb 0 n && leb n 6)

unfoldable pub heading_match : ℕ → Text → Bool
unfolding hashes_then_space
heading_match n [] = false
heading_match n (c ∷ s) =
    if is_space c then heading_match (suc n) s else leb n 3 && hashes_then_space 0 (c ∷ s)

pub data Chunked : Type 0 where
  chunked : List MarkdownChunk → Chunked
  value_error : Chunked
  stuck : Chunked

-- `max_overlap` is `int(max_tokens * overlap_ratio)`, and `in_range` the test of the ratio. `stuck`
-- stands for a scanner that does not end.
unfoldable pub chunk_markdown : (Text → ℕ) → Text → ℕ → ℕ → Bool → List (ℕ × ℕ) → Chunked
unfolding paragraph_spans heading_match chunk_windows
chunk_markdown count_tokens [] max_tokens max_overlap in_range spans = chunked []
chunk_markdown count_tokens (c ∷ s) max_tokens max_overlap in_range spans =
    if max_tokens == 0 || not in_range
    then value_error
    else elim (paragraph_spans count_tokens (c ∷ s)) [
      | none ↦ stuck
      | some paras ↦
          elim (chunk_windows (c ∷ s) max_tokens max_overlap
            (λ p. heading_match 0 (take (p.stop - p.start) (drop p.start (c ∷ s)))) paras spans) [
              | none ↦ value_error
              | some chunks ↦ chunked chunks
            ]
    ]
