-- ===== src/Chunking.antt =====
-- The windows of paragraphs of src/dikw_core/domains/info/chunk.py. The paragraphs, whether one is a
-- heading, and the overlap budget `int(max_tokens * overlap_ratio)` are arguments; Chunking/Spans.antt
-- has the scanner of paragraphs and the whole of `chunk_markdown`.
pub mod Windows
pub mod Runs
pub mod Coverage
pub mod Spans
pub mod Scanning
pub mod Tests
use dikw_core.Prelude.{
  ℕ, ◌+◌, ◌-◌, Text, Bool, true, false, ◌&&◌, not, Option, none, some, List, [], ◌∷◌, ◌++◌,
  if◌then◌else◌, any, all, ltb, leb, length, take, drop, last?,
}

pub record Para : Type 0 where
  pub start : ℕ
  pub stop : ℕ
  pub tokens : ℕ

-- `end` of the source is `stop`.
pub record MarkdownChunk : Type 0 where
  pub seq : ℕ
  pub start : ℕ
  pub stop : ℕ
  pub text : Text

abbrev pub has_paras : List Para → Bool
has_paras [] = false
has_paras (p ∷ ps) = true

-- `sum(c.tokens for c in ps)`
abbrev pub total : List Para → ℕ
total [] = 0
total (p ∷ ps) = p.tokens + total ps

-- `end` of the last paragraph
abbrev pub last_stop : Para → List Para → ℕ
last_stop p [] = p.stop
last_stop p (q ∷ ps) = last_stop q ps

-- `chunks`, `current` and `current_tokens`
pub record Window : Type 0 where
  pub chunks : List MarkdownChunk
  pub current : List Para
  pub current_tokens : ℕ

module _ (body : Text) (max_tokens max_overlap : ℕ) where
  -- Appends the chunk of the current paragraphs.
  unfoldable pub emit_chunk : List MarkdownChunk → List Para → List MarkdownChunk
  emit_chunk chunks [] = chunks
  emit_chunk chunks (p ∷ ps) =
      chunks
      ++ record {
        seq = length chunks;
        start = p.start;
        stop = last_stop p ps;
        text = take (last_stop p ps - p.start) (drop p.start body);
      }
        ∷ []

  -- The paragraphs carried forward, and whether the loop over the earlier ones, from the back, goes
  -- on: `false` stands for its `break`.
  unfoldable pub carry_back : List Para → List Para × Bool
  carry_back [] = ([], true)
  carry_back (p ∷ []) = (if ltb p.tokens max_tokens then p ∷ [] else [], true)
  carry_back (p ∷ q ∷ ps) =
      let (overlap, going) = carry_back (q ∷ ps) in
      if going && leb (total overlap + p.tokens) max_overlap
      then (p ∷ overlap, true)
      else (overlap, false)

  -- `_flush_and_overlap`, and the lines behind each call of it.
  unfoldable pub flush_and_overlap : Window → Window
  unfolding emit_chunk carry_back
  flush_and_overlap w = record {
    chunks = emit_chunk w.chunks w.current;
    current = (carry_back w.current).0;
    current_tokens = total (carry_back w.current).0;
  }

  abbrev pub overflows : Para → Window → Bool
  overflows p w = has_paras w.current && ltb max_tokens (w.current_tokens + p.tokens)

  -- Step 1: a heading closes the chunk.
  unfoldable pub close_at_heading : Bool → Window → Window
  unfolding flush_and_overlap
  close_at_heading heading w =
      if heading && (ltb max_overlap w.current_tokens && has_paras w.current)
      then flush_and_overlap w
      else w

  -- The guard on what is carried.
  unfoldable pub drop_carry : Para → Window → Window
  drop_carry p w = if overflows p w then record w { current = []; current_tokens = 0 } else w

  -- Step 2: the budget closes the chunk.
  unfoldable pub close_at_budget : Para → Window → Window
  unfolding flush_and_overlap drop_carry
  close_at_budget p w = if overflows p w then drop_carry p (flush_and_overlap w) else w

  abbrev pub append_para : Para → Window → Window
  append_para p w = record w {
    current = w.current ++ p ∷ [];
    current_tokens = w.current_tokens + p.tokens;
  }

  unfoldable pub chunk_paras : (Para → Bool) → List Para → Window → Window
  unfolding close_at_heading close_at_budget
  chunk_paras is_heading [] w = w
  chunk_paras is_heading (p ∷ ps) w =
      chunk_paras is_heading ps
        (append_para p (close_at_budget p (close_at_heading (is_heading p) w)))

  -- `_verify_atomic_spans`
  unfoldable pub spans_covered : List (ℕ × ℕ) → List MarkdownChunk → Bool
  spans_covered spans chunks = all (λ s. any (λ c. leb c.start s.0 && leb s.1 c.stop) chunks) spans

  -- The part of `chunk_markdown` behind `_paragraph_spans`; `none` is the ValueError for a span that
  -- would be split.
  unfoldable pub chunk_windows :
      (Para → Bool) → List Para → List (ℕ × ℕ) → Option (List MarkdownChunk)
  unfolding chunk_paras emit_chunk spans_covered
  chunk_windows is_heading paras atomic_spans =
      if not (has_paras paras)
      then some []
      else let w =
          chunk_paras is_heading paras (record { chunks = []; current = []; current_tokens = 0 }) in
        let chunks = emit_chunk w.chunks w.current in
        if spans_covered atomic_spans chunks then some chunks else none
