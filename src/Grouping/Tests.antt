-- ===== src/Grouping/Tests.antt =====
-- Concrete chunks and sections, on which the theorems on grouping.py are applied. A token is a
-- character, and a section starts with an H1 if it starts with `#`.
use dikw_core.Prelude.{
  ℕ, Text, ◌≡◌, refl, Bool, false, some, List, [], ◌∷◌, map, ◌==◌, length, All, codes, arith,
}
use dikw_core.Prelude.Sort.{sort}
use dikw_core.Grouping.{
  seq_before, ChunkRecord, Section, slice, concat, derive_sections_from_chunks, group_sections,
}
use dikw_core.Grouping.Sections.{last_stop, derive_sections-span}
use dikw_core.Grouping.Runs.{groups_of, Fits, group_sections-Fits}

abbrev no_headings : Text → List Text
no_headings t = []

abbrev starts_with_hash : Text → Bool
starts_with_hash [] = false
starts_with_hash (c ∷ t) = c == 35

abbrev body_text : Text
body_text = codes "abcd#ef"

abbrev chunk_at : ℕ → ℕ → ℕ → ChunkRecord
chunk_at n a b = record { seq = n; start = a; stop = b }

-- The second chunk overlaps the first one.
abbrev chunks : List ChunkRecord
chunks = chunk_at 2 4 7 ∷ chunk_at 0 0 3 ∷ chunk_at 1 2 4 ∷ []

chunk_order : sort seq_before chunks ≡ chunk_at 0 0 3 ∷ chunk_at 1 2 4 ∷ chunk_at 2 4 7 ∷ []
unfolding sort
chunk_order = refl

derive_sections-span_example :
    concat (map (λ s. s.text) (derive_sections_from_chunks no_headings length body_text chunks))
    ≡ slice body_text 0 (last_stop (chunk_at 0 0 3) (chunk_at 1 2 4 ∷ chunk_at 2 4 7 ∷ []))
derive_sections-span_example =
    derive_sections-span no_headings length body_text chunks (chunk_at 0 0 3)
      (chunk_at 1 2 4 ∷ chunk_at 2 4 7 ∷ []) chunk_order (omega arith, (omega arith, omega arith))

abbrev sections : List Section
sections = derive_sections_from_chunks no_headings length body_text chunks

group_sections-Fits_example :
    (runs : List (List Section)) × (group_sections starts_with_hash 3 sections
      ≡ some (groups_of 0 runs))
    × (concat runs ≡ sections)
    × All (Fits starts_with_hash 3) runs
group_sections-Fits_example = group_sections-Fits starts_with_hash 3 sections (omega arith)
