-- ===== src/Grouping.antt =====
-- The grouping of a source body for synthesis: src/dikw_core/domains/knowledge/grouping.py. The
-- regular expressions for headings and the token counter are parameters.
pub mod Runs
pub mod Sections
pub mod Tests
use dikw_core.Prelude.{
  ℕ, zero, suc, ◌+◌, ◌-◌, Text, same, Bool, true, false, ◌&&◌, not, Option, none, some, List, [],
  ◌∷◌, ◌++◌, map, if◌then◌else◌, any, ltb, leb, length, take, drop,
}
use dikw_core.Prelude.Sort.{sort}

pub record ChunkRecord : Type 0 where
  pub seq : ℕ
  pub start : ℕ
  pub stop : ℕ

-- `end` of the source is `stop`; `h1` is the property `starts_with_h1`.
pub record Section : Type 0 where
  pub start : ℕ
  pub stop : ℕ
  pub text : Text
  pub headings : List Text
  pub tokens : ℕ

pub record ChunkGroup : Type 0 where
  pub index : ℕ
  pub text : Text
  pub headings : List Text
  pub token_count : ℕ
  pub section_starts : List ℕ

-- `body[start:end]`
abbrev pub slice : Text → ℕ → ℕ → Text
slice body start stop = take (stop - start) (drop start body)

-- `"".join(texts)`
abbrev pub concat {ℓ} : {A : Type ℓ} → List (List A) → List A
concat [] = []
concat (t ∷ ts) = t ++ concat ts

abbrev pub seq_before : ChunkRecord → ChunkRecord → Bool
seq_before a b = ltb a.seq b.seq

module _ (extract_headings : Text → List Text) (count_tokens : Text → ℕ) (body : Text) where
  -- One round of the loop over `edges`: a degenerate pair is skipped.
  unfoldable pub cut_section : ℕ → ℕ → List Section → List Section
  cut_section start stop rest =
      let text = slice body start stop in
      if leb stop start
      then rest
      else record {
        start = start;
        stop = stop;
        text = text;
        headings = extract_headings text;
        tokens = count_tokens text;
      }
        ∷ rest

  unfoldable pub cut_sections : List ChunkRecord → List Section
  unfolding cut_section
  cut_sections [] = []
  cut_sections (c ∷ []) = cut_section c.start c.stop []
  cut_sections (c ∷ d ∷ cs) = cut_section c.start d.start (cut_sections (d ∷ cs))

  unfoldable pub derive_sections_from_chunks : List ChunkRecord → List Section
  unfolding cut_sections sort
  derive_sections_from_chunks chunks = cut_sections (sort seq_before chunks)

-- The headings of a group, each once.
unfoldable pub add_new : List Text → List Text → List Text
add_new [] headings = headings
add_new (h ∷ hs) headings =
    add_new hs (if any (λ g. same h g) headings then headings else headings ++ h ∷ [])

unfoldable pub group_headings : List Section → List Text → List Text
unfolding add_new
group_headings [] headings = headings
group_headings (s ∷ ss) headings = group_headings ss (add_new s.headings headings)

-- `groups`, `current` and `current_tokens`
pub record Packing : Type 0 where
  pub groups : List ChunkGroup
  pub current : List Section
  pub current_tokens : ℕ

-- `flush`
unfoldable pub flush : Packing → Packing
unfolding group_headings
flush p = elim p.current [
  | [] ↦ p
  | s ∷ ss ↦ record {
    groups =
        p.groups
        ++ record {
          index = length p.groups;
          text = concat (map (λ t. t.text) p.current);
          headings = group_headings p.current [];
          token_count = p.current_tokens;
          section_starts = map (λ t. t.start) p.current;
        }
          ∷ [];
    current = [];
    current_tokens = 0;
  }
]

abbrev pub any_left : List Section → Bool
any_left [] = false
any_left (s ∷ ss) = true

unfoldable pub flush_if : Bool → Packing → Packing
unfolding flush
flush_if true p = flush p
flush_if false p = p

module _ (starts_with_h1 : Text → Bool) (target_tokens : ℕ) where
  -- The two tests of a round, and what it does.
  abbrev pub at_h1 : Section → Packing → Bool
  at_h1 sec p = any_left p.current && starts_with_h1 sec.text

  abbrev pub overshoots : Section → Packing → Bool
  overshoots sec p = any_left p.current && ltb target_tokens (p.current_tokens + sec.tokens)

  abbrev pub append_section : Section → Packing → Packing
  append_section sec p = record p {
    current = p.current ++ sec ∷ [];
    current_tokens = p.current_tokens + sec.tokens;
  }

  unfoldable pub pack : Section → Packing → Packing
  unfolding flush_if
  pack sec p =
      let p1 = flush_if (at_h1 sec p) p in append_section sec (flush_if (overshoots sec p1) p1)

  unfoldable pub pack_all : List Section → Packing → Packing
  unfolding pack
  pack_all [] p = p
  pack_all (s ∷ ss) p = pack_all ss (pack s p)

  -- `none` is the ValueError for a target that is not positive.
  unfoldable pub group_sections : List Section → Option (List ChunkGroup)
  unfolding pack_all flush
  group_sections sections =
      if leb target_tokens 0
      then none
      else some
          (flush
            (pack_all sections (record { groups = []; current = []; current_tokens = 0 }))).groups
