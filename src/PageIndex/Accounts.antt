-- ===== src/PageIndex/Accounts.antt =====
-- The counts that the storing of a page returns.
use dikw_core.Prelude.{
  ℕ, suc, ◌+◌, Text, ◌≡◌, refl, sym, ◌∙◌, ap, subst, inl, inr, true, false, not, ◌||◌, Option, some,
  List, [], ◌∷◌, map, arith, length, Option-cases, Bool-cases,
}
use dikw_core.Links.Index.{Dict}
use dikw_core.Chunking.Spans.{Chunked, chunked, value_error, stuck, chunk_markdown}
use dikw_core.Storage.{
  Layer, source, same_layer, NewChunk, ChunkRow, Db, upsert_document, replace_chunks, number_chunks,
  rejects,
}
use dikw_core.Embedding.{EmbedConsumeResult, Consumed, drained, stopped, embed_and_store}
use dikw_core.Embedding.Totals.{embed_and_store-counts}
use dikw_core.Deletion.{doc_id_for}
use dikw_core.PageIndex.{
  Parsed, Embedder, Outside, KnowledgePersistResult, Persisted, persisted, raised, new_chunks,
  to_embed, persist_edges, embed_records, document_row, persist_chunks, persist_layered_page,
}

length-to_embed :
    (ids : List ℕ) (cs : List NewChunk)
    → length ids ≡ length cs
    → length (to_embed ids cs) ≡ length cs
length-to_embed [] [] h = refl
length-to_embed [] (c ∷ cs) h = absurd (omega arith)
length-to_embed (i ∷ ids) [] h = absurd (omega arith)
length-to_embed (i ∷ ids) (c ∷ cs) h = ap suc (length-to_embed ids cs (omega arith))

length-number_chunks :
    (id : Text) (next : ℕ) (cs : List NewChunk)
    → length (map (λ (c : ChunkRow). c.chunk_id) (number_chunks id next cs)) ≡ length cs
unfolding number_chunks
length-number_chunks id next [] = refl
length-number_chunks id next (c ∷ cs) = ap suc (length-number_chunks id (suc next) cs)

length-replace_chunks :
    (id : Text) (cs : List NewChunk) (db db1 : Db) (ids : List ℕ)
    → replace_chunks id cs db ≡ some (ids, db1)
    → length ids ≡ length cs
unfolding replace_chunks
length-replace_chunks id cs db db1 ids e = elim (Bool-cases (rejects id cs db)) [
  | inl t ↦ absurd (ground (arith, t, e))
  | inr t ↦
      let q : map (λ (c : ChunkRow). c.chunk_id) (number_chunks id db.next_chunk cs) ≡ ids =
        ground (arith, t, e) in
      ap length (sym q) ∙ length-number_chunks id db.next_chunk cs
]

-- A result accounts for each chunk of the page.
abbrev Accounted : Persisted → Type 0
Accounted (raised db) = Unit
Accounted (persisted r db) = r.chunks_embedded + r.chunks_pending_embedding ≡ length r.chunk_ids

abbrev Counted : ℕ → Consumed → Type 0
Counted k (stopped db) = Unit
Counted k (drained r db) = r.embedded + r.chunks_skipped ≡ k

module _ {V : Type 0} (o : Outside) (embedder : Option (Embedder V)) where
  embed_records-Counted :
      (ids : List ℕ) (cs : List NewChunk) (db : Db)
      → length ids ≡ length cs
      → Counted (length cs) (embed_records embedder ids cs db)
  unfolding embed_records
  embed_records-Counted ids [] db h = refl
  embed_records-Counted ids (c ∷ cs) db h = elim (Option-cases embedder) [
    | inl e ↦ rw (embed_records, e) (omega arith)
    | inr (b, e) ↦
        rw (embed_records, e)
          (settle
            (embed_and_store (record b.world { cancelled = λ n. false }) b.dim b.version_id true
              b.retries (λ n. false) 64 (to_embed ids (c ∷ cs)) db)
            (λ r db1 q.
              embed_and_store-counts (record b.world { cancelled = λ n. false }) b.dim b.version_id
                true b.retries (λ n. false) 64 (to_embed ids (c ∷ cs)) db db1 r q
              ∙ length-to_embed ids (c ∷ cs) h))
  ]
    where
      settle :
          (x : Consumed)
          → ((r : EmbedConsumeResult) (db1 : Db)
              → x ≡ drained r db1
              → r.embedded + r.chunks_skipped ≡ length (c ∷ cs))
          → Counted (length (c ∷ cs)) x
      settle (stopped db1) k = tt
      settle (drained r db1) k = k r db1 refl

  persist_chunks-Accounted :
      (doc_id : Text) (p : Parsed) (title : Option Text)
      (given : Option (Dict Text × Dict (List Text))) (records : List NewChunk) (db : Db)
      → Accounted (persist_chunks o embedder doc_id p title given records db)
  unfolding persist_chunks persist_edges
  persist_chunks-Accounted doc_id p title given records db =
      elim (Option-cases (replace_chunks doc_id records db)) [
        | inl e ↦ rw (persist_chunks, e) tt
        | inr ((ids, db1), e) ↦
            let size = length-replace_chunks doc_id records db db1 ids e in
            rw (persist_chunks, e)
              (settle ids size (embed_records embedder ids records db1)
                (embed_records-Counted ids records db1 size))
      ]
    where
      settle :
          (ids : List ℕ)
          → length ids ≡ length records
          → (c : Consumed) → Counted (length records) c
          → Accounted (elim c [
            | stopped db2 ↦ raised db2
            | drained r db2 ↦
                persist_edges o doc_id p title given ids r.embedded r.chunks_skipped db2
          ])
      settle ids size (stopped db2) h = tt
      settle ids size (drained r db2) h = h ∙ sym size

  chunked-Accounted :
      (doc_id : Text) (p : Parsed) (title : Option Text)
      (given : Option (Dict Text × Dict (List Text))) (db : Db) (c : Chunked)
      → Accounted (elim c [
        | value_error ↦ raised db
        | stuck ↦ raised db
        | chunked cs ↦ persist_chunks o embedder doc_id p title given (new_chunks cs) db
      ])
  chunked-Accounted doc_id p title given db value_error = tt
  chunked-Accounted doc_id p title given db stuck = tt
  chunked-Accounted doc_id p title given db (chunked cs) =
      persist_chunks-Accounted doc_id p title given (new_chunks cs) db

  page-Accounted :
      (path : Text) (layer : Layer) (title : Option Text)
      (given : Option (Dict Text × Dict (List Text))) (db : Db)
      → Accounted (persist_layered_page o embedder path layer title given db)
  unfolding persist_layered_page
  page-Accounted path layer title given db =
      elim (Bool-cases (same_layer layer source || not (o.inside path))) [
        | inl e ↦ rw (persist_layered_page, e) tt
        | inr e ↦ elim (Option-cases (o.parse_any path)) [
          | inl f ↦ rw (persist_layered_page, e, f) tt
          | inr (p, f) ↦
              let row = document_row o path layer title p in
              elim (Option-cases (upsert_document row db)) [
                | inl g ↦ rw (persist_layered_page, e, f, g) tt
                | inr (db1, g) ↦
                    rw (persist_layered_page, e, f, g)
                      (chunked-Accounted (doc_id_for o.normalize layer path) p row.title given db1 (
                        chunk_markdown o.count_tokens p.body o.max_tokens o.max_overlap
                          o.overlap_in_range []))
              ]
        ]
      ]

  -- When a page is stored, each of its chunks is counted once, as embedded or as pending, with an
  -- embedder or without, also where batches are skipped.
  pub persist_layered_page-counts :
      (path : Text) (layer : Layer) (title : Option Text)
      (given : Option (Dict Text × Dict (List Text))) (db db1 : Db) (r : KnowledgePersistResult)
      → persist_layered_page o embedder path layer title given db ≡ persisted r db1
      → r.chunks_embedded + r.chunks_pending_embedding ≡ length r.chunk_ids
  persist_layered_page-counts path layer title given db db1 r e =
      subst Accounted e (page-Accounted path layer title given db)
