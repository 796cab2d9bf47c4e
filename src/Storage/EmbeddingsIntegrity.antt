-- ===== src/Storage/EmbeddingsIntegrity.antt =====
-- `upsert_embeddings` of storage/sqlite.py leaves no embedding row of a chunk that is not there.
use dikw_core.Prelude.{
  ℕ, Bool, Option, none, select, all, ◌&&◌, ◌==◌, ◌≡◌, subst, not, some, List, [], ◌∷◌, All-select,
  All-append, Bool-cases, inl, inr, Option-cases,
}
use dikw_core.Storage.{Embedded, Db}
use dikw_core.Storage.Embeddings.{
  EmbeddingRow, upsert_embedded, first_seen, fetch_dim, ensure_vec_table, insert_batch,
  insert_batches, upsert_embeddings,
}
use dikw_core.Storage.Rows.{has_chunk}
use dikw_core.Storage.Integrity.{IsConsistent}

-- What a write on the embeddings may leave: no error and a consistent state, or an error.
abbrev Embeds : Option Db → Type 0
Embeds none = Unit
Embeds (some db) = IsConsistent db

insert_batch-Embeds :
    (rows : List EmbeddingRow) (db : Db) → IsConsistent db → Embeds (insert_batch rows db)
unfolding insert_batch upsert_embedded
insert_batch-Embeds [] db h = h
insert_batch-Embeds (r ∷ rs) db h = elim (Bool-cases (has_chunk r.chunk_id db.chunks)) [
  | inr e ↦ rw (insert_batch, e) tt
  | inl e ↦
      let m : Embedded = record { version = r.version_id; chunk_id = r.chunk_id } in
      let p : Embedded → Bool = λ n. not (n.chunk_id == m.chunk_id && n.version == m.version) in
      rw (insert_batch, e)
        (insert_batch-Embeds rs
          (record db {
            embed_meta = upsert_embedded m db.embed_meta;
            vectors = upsert_embedded m db.vectors;
          })
          (record {
            chunk_documents = h.chunk_documents;
            fts_chunks = h.fts_chunks;
            meta_chunks =
                All-append _ (select p db.embed_meta) (m ∷ [])
                  (All-select _ p db.embed_meta h.meta_chunks) (e, tt);
          }))
]

insert_batches-Embeds :
    (vs : List ℕ) (rows : List EmbeddingRow) (db : Db)
    → IsConsistent db
    → Embeds (insert_batches vs rows db)
unfolding insert_batches ensure_vec_table
insert_batches-Embeds [] rows db h = h
insert_batches-Embeds (v ∷ vs) rows db h = elim (Option-cases (fetch_dim v db.dims)) [
  | inl e ↦ rw (insert_batches, e) tt
  | inr (dim, e) ↦
      let batch = select (λ r. r.version_id == v) rows in
      elim (Bool-cases (all (λ r. r.dim == dim) batch)) [
        | inr k ↦ rw (insert_batches, e, k) tt
        | inl k ↦
            let start = ensure_vec_table v db in
            let first = insert_batch-Embeds batch start (record {
              chunk_documents = h.chunk_documents;
              fts_chunks = h.fts_chunks;
              meta_chunks = h.meta_chunks;
            }) in
            elim (Option-cases (insert_batch batch start)) [
              | inl n ↦ rw (insert_batches, e, k, n) tt
              | inr (db1, n) ↦
                  rw (insert_batches, e, k, n)
                    (insert_batches-Embeds vs rows db1 (subst Embeds n first))
            ]
      ]
]

pub upsert_embeddings-IsConsistent :
    (rows : List EmbeddingRow) (db db1 : Db)
    → IsConsistent db
    → upsert_embeddings rows db ≡ some db1
    → IsConsistent db1
unfolding upsert_embeddings
upsert_embeddings-IsConsistent rows db db1 h e =
    subst Embeds e (insert_batches-Embeds (first_seen rows []) rows db h)
