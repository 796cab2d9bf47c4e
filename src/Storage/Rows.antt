-- ===== src/Storage/Rows.antt =====
-- Lemmas on the rows of storage/sqlite.py: which documents and chunks are there after a write.
use dikw_core.Prelude.{
  ℕ, suc, Text, same, same→eq, ◌≡◌, ap, Bool, true, false, not, List, [], ◌∷◌, ◌++◌, map,
  if◌then◌else◌, ◌==◌, any, select, All, All-map, arith, Bool-cases, inl, inr,
}
use dikw_core.Storage.{
  DocumentRecord, ChunkRow, NewChunk, has_document, upsert_row, chunk_ids_of, mem, number_chunks,
}

abbrev pub has_chunk : ℕ → List ChunkRow → Bool
has_chunk r cs = any (λ c. c.chunk_id == r) cs

pub All-kept :
    {A : Type 0} (P Q : A → Type 0) (p : A → Bool) (xs : List A)
    → ((x : A) → P x → p x ≡ true → Q x)
    → All P xs
    → All Q (select p xs)
All-kept P Q p [] f h = tt
All-kept P Q p (x ∷ xs) f h = elim (Bool-cases (p x)) [
  | inl e ↦ rw (select, e) (f x h.0 e, All-kept P Q p xs f h.1)
  | inr e ↦ rw (select, e) (All-kept P Q p xs f h.1)
]

pub has_document-other :
    (id other : Text) (ds : List DocumentRecord)
    → not (same other id) ≡ true
    → has_document other ds ≡ true
    → has_document other (select (λ d. not (same d.doc_id id)) ds) ≡ true
unfolding has_document
has_document-other id other [] n h = h
has_document-other id other (d ∷ ds) n h =
    ground (arith, n, h, has_document-other id other ds n, same→eq d.doc_id other)

-- A chunk that is not one of the document stays.
pub has_chunk-other :
    (id : Text) (r : ℕ) (cs : List ChunkRow)
    → not (mem r (chunk_ids_of id cs)) ≡ true
    → has_chunk r cs ≡ true
    → has_chunk r (select (λ c. not (same c.doc_id id)) cs) ≡ true
unfolding mem chunk_ids_of
has_chunk-other id r [] n h = h
has_chunk-other id r (c ∷ cs) n h = ground (arith, n, h, has_chunk-other id r cs)

pub has_document-upsert :
    (other : Text) (d : DocumentRecord) (ds : List DocumentRecord)
    → has_document other ds ≡ true
    → has_document other (upsert_row d ds) ≡ true
unfolding has_document upsert_row
has_document-upsert other d [] h = cc
has_document-upsert other d (e ∷ es) h = elim (Bool-cases (same e.doc_id d.doc_id)) [
  | inl k ↦
      let q : e.doc_id ≡ d.doc_id = same→eq e.doc_id d.doc_id k in
      rw (upsert_row, k) (ground (arith, h, ap (λ t. same t other) q))
  | inr k ↦ rw (upsert_row, k) (ground (arith, h, has_document-upsert other d es))
]

pub has_document-deactivate :
    (id other : Text) (ds : List DocumentRecord)
    → has_document other ds ≡ true
    → has_document other (map (λ d. if same d.doc_id id then record d { active = false } else d) ds)
      ≡ true
unfolding has_document
has_document-deactivate id other [] h = h
has_document-deactivate id other (d ∷ ds) h = elim (Bool-cases (same d.doc_id id)) [
  | inl k ↦ rw k (ground (arith, h, has_document-deactivate id other ds))
  | inr k ↦ rw k (ground (arith, h, has_document-deactivate id other ds))
]

pub has_chunk-left :
    (r : ℕ) (cs ds : List ChunkRow) → has_chunk r cs ≡ true → has_chunk r (cs ++ ds) ≡ true
has_chunk-left r [] ds h = cc
has_chunk-left r (c ∷ cs) ds h = ground (arith, h, has_chunk-left r cs ds)

pub has_chunk-right :
    (r : ℕ) (cs ds : List ChunkRow) → has_chunk r ds ≡ true → has_chunk r (cs ++ ds) ≡ true
has_chunk-right r [] ds h = h
has_chunk-right r (c ∷ cs) ds h = ground (arith, h, has_chunk-right r cs ds)

-- The rows themselves
pub ids_known : (cs : List ChunkRow) → All (λ r. has_chunk r cs ≡ true) (map (λ c. c.chunk_id) cs)
ids_known [] = tt
ids_known (c ∷ cs) = (
  ground arith,
  All-map (λ r. has_chunk r cs ≡ true) (λ r. has_chunk r (c ∷ cs) ≡ true) (λ r h. ground (arith, h))
      (map (λ d. d.chunk_id) cs) (ids_known cs),
)

pub number_chunks-document :
    (id : Text) (ds : List DocumentRecord) (next : ℕ) (cs : List NewChunk)
    → has_document id ds ≡ true
    → All (λ (c : ChunkRow). has_document c.doc_id ds ≡ true) (number_chunks id next cs)
unfolding number_chunks
number_chunks-document id ds next [] h = tt
number_chunks-document id ds next (c ∷ cs) h = (h, number_chunks-document id ds (suc next) cs h)
