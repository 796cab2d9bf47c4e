-- ===== src/Storage/Consistent.antt =====
-- No write of storage/sqlite.py leaves a dangling row in chunks, documents_fts or chunk_embed_meta.
use dikw_core.Prelude.{
  ℕ, false, Text, same, ◌≡◌, subst, true, false, not, some, List, [], ◌∷◌, map, All, All-map,
  All-select, All-append, arith, Bool-cases, inl, inr, Option-cases,
}
use dikw_core.Storage.{
  DocumentRecord, ChunkRow, NewChunk, Embedded, Db, has_document, clamp_status, upsert_row,
  upsert_document, path_key_taken, deactivate_document, chunk_ids_of, mem, delete_chunks,
  delete_fts, delete_vectors, delete_edges, delete_document, number_chunks, insert_chunks,
  replace_chunks, rejects, replace_links_from, append_knowledge_log,
}
use dikw_core.Storage.Embeddings.{upsert_embeddings}
use dikw_core.Storage.Changes.{
  Change, upsert, deactivate, delete, chunk, link, attribute, embed, log, change, changes,
  replace_provenance_from,
}
use dikw_core.Storage.Rows.{
  All-kept, has_document-other, has_chunk-other, has_document-upsert, has_document-deactivate,
  has_chunk-left, has_chunk-right, ids_known, number_chunks-document,
}
use dikw_core.Storage.Integrity.{IsConsistent}
use dikw_core.Storage.EmbeddingsIntegrity.{upsert_embeddings-IsConsistent}

-- The rows of a document are taken away, in `documents_fts` first.
delete_rows-IsConsistent :
    (id : Text) (db : Db) → IsConsistent db → IsConsistent (delete_chunks id (delete_fts id db))
unfolding delete_chunks delete_fts
delete_rows-IsConsistent id db h = record {
  chunk_documents =
      All-select (λ (c : ChunkRow). has_document c.doc_id db.documents ≡ true) _ db.chunks
        h.chunk_documents;
  fts_chunks =
      All-kept _ _ (λ r. not (mem r (chunk_ids_of id db.chunks))) db.fts
        (λ r k n. has_chunk-other id r db.chunks n k) h.fts_chunks;
  meta_chunks =
      All-kept _ _ (λ (m : Embedded). not (mem m.chunk_id (chunk_ids_of id db.chunks)))
        db.embed_meta (λ m k n. has_chunk-other id m.chunk_id db.chunks n k) h.meta_chunks;
}

pub delete_document-IsConsistent :
    (id : Text) (db : Db) → IsConsistent db → IsConsistent (delete_document id db)
unfolding delete_document delete_edges delete_vectors delete_chunks delete_fts
delete_document-IsConsistent id db h =
    let k = delete_rows-IsConsistent id db h in
    record {
      chunk_documents =
          All-kept _ _ (λ (c : ChunkRow). not (same c.doc_id id)) db.chunks
            (λ c k n. has_document-other id c.doc_id db.documents n k) h.chunk_documents;
      fts_chunks = k.fts_chunks;
      meta_chunks = k.meta_chunks;
    }

insert_chunks-IsConsistent :
    (id : Text) (cs : List NewChunk) (db : Db)
    → IsConsistent db
    → All
        (λ (c : ChunkRow). has_document c.doc_id db.documents ≡ true)
        (number_chunks id db.next_chunk cs)
    → IsConsistent (insert_chunks id cs db)
unfolding insert_chunks
insert_chunks-IsConsistent id cs db h known =
    let rows = number_chunks id db.next_chunk cs in
    record {
      chunk_documents = All-append _ db.chunks rows h.chunk_documents known;
      fts_chunks =
          All-append _ db.fts (map (λ c. c.chunk_id) rows)
            (All-map _ _ (λ r k. has_chunk-left r db.chunks rows k) db.fts h.fts_chunks)
            (All-map _ _ (λ r k. has_chunk-right r db.chunks rows k) (map (λ c. c.chunk_id) rows)
              (ids_known rows));
      meta_chunks =
          All-map _ _ (λ (m : Embedded) k. has_chunk-left m.chunk_id db.chunks rows k) db.embed_meta
            h.meta_chunks;
    }

accepted :
    (id : Text) (cs : List NewChunk) (db : Db)
    → rejects id cs db ≡ false
    → All
        (λ (c : ChunkRow). has_document c.doc_id db.documents ≡ true)
        (number_chunks id db.next_chunk cs)
unfolding rejects number_chunks
accepted id [] db h = tt
accepted id (c ∷ cs) db h =
    number_chunks-document id db.documents db.next_chunk (c ∷ cs) (ground (arith, h))

pub replace_chunks-IsConsistent :
    (id : Text) (cs : List NewChunk) (db : Db) (ids : List ℕ) (db1 : Db)
    → IsConsistent db
    → replace_chunks id cs db ≡ some (ids, db1)
    → IsConsistent db1
unfolding replace_chunks delete_chunks delete_fts
replace_chunks-IsConsistent id cs db ids db1 h e = elim (Bool-cases (rejects id cs db)) [
  | inl t ↦ absurd (ground (arith, t, e))
  | inr t ↦
      let q : insert_chunks id cs (delete_chunks id (delete_fts id db)) ≡ db1 =
        ground (arith, t, e) in
      subst IsConsistent q (
        insert_chunks-IsConsistent id cs (delete_chunks id (delete_fts id db))
          (delete_rows-IsConsistent id db h) (accepted id cs db t))
]

pub upsert_document-IsConsistent :
    (d : DocumentRecord) (db db1 : Db)
    → IsConsistent db
    → upsert_document d db ≡ some db1
    → IsConsistent db1
unfolding upsert_document
upsert_document-IsConsistent d db db1 h e = elim (Bool-cases (path_key_taken d db.documents)) [
  | inl t ↦ absurd (ground (arith, t, e))
  | inr t ↦
      let q : record db { documents = upsert_row (clamp_status d) db.documents } ≡ db1 =
        ground (arith, t, e) in
      subst IsConsistent q record {
        chunk_documents =
            All-map _ _
              (λ (c : ChunkRow) k. has_document-upsert c.doc_id (clamp_status d) db.documents k)
              db.chunks h.chunk_documents;
        fts_chunks = h.fts_chunks;
        meta_chunks = h.meta_chunks;
      }
]

deactivate_document-IsConsistent :
    (id : Text) (db : Db) → IsConsistent db → IsConsistent (deactivate_document id db)
unfolding deactivate_document
deactivate_document-IsConsistent id db h = record {
  chunk_documents =
      All-map _ _ (λ (c : ChunkRow) k. has_document-deactivate id c.doc_id db.documents k) db.chunks
        h.chunk_documents;
  fts_chunks = h.fts_chunks;
  meta_chunks = h.meta_chunks;
}

module _ (normalize : Text → Text) where
  change-IsConsistent :
      (c : Change normalize) (db : Db) → IsConsistent db → IsConsistent (change normalize c db)
  unfolding change replace_links_from replace_provenance_from append_knowledge_log
  change-IsConsistent (upsert d) db h = elim (Option-cases (upsert_document d db)) [
    | inl e ↦ rw (change, e) h
    | inr (db1, e) ↦ rw (change, e) (upsert_document-IsConsistent d db db1 h e)
  ]
  change-IsConsistent (deactivate id) db h = deactivate_document-IsConsistent id db h
  change-IsConsistent (delete id) db h = delete_document-IsConsistent id db h
  change-IsConsistent (chunk id cs) db h = elim (Option-cases (replace_chunks id cs db)) [
    | inl e ↦ rw (change, e) h
    | inr (r, e) ↦ rw (change, e) (replace_chunks-IsConsistent id cs db r.0 r.1 h e)
  ]
  change-IsConsistent (link id ls) db h = record {
    chunk_documents = h.chunk_documents;
    fts_chunks = h.fts_chunks;
    meta_chunks = h.meta_chunks;
  }
  change-IsConsistent (attribute id raws) db h = record {
    chunk_documents = h.chunk_documents;
    fts_chunks = h.fts_chunks;
    meta_chunks = h.meta_chunks;
  }
  change-IsConsistent (embed rows) db h = elim (Option-cases (upsert_embeddings rows db)) [
    | inl e ↦ rw (change, e) h
    | inr (db1, e) ↦ rw (change, e) (upsert_embeddings-IsConsistent rows db db1 h e)
  ]
  change-IsConsistent (log e) db h = record {
    chunk_documents = h.chunk_documents;
    fts_chunks = h.fts_chunks;
    meta_chunks = h.meta_chunks;
  }

  -- Whatever writes follow each other, the ones that fail included: if at first every chunk belongs
  -- to a document, and every full-text row and every row of `chunk_embed_meta` to a chunk, then so
  -- they do at the end. Of the vectors in the tables `vec_chunks` nothing is claimed.
  pub changes-IsConsistent :
      (cs : List (Change normalize)) (db : Db)
      → IsConsistent db
      → IsConsistent (changes normalize cs db)
  unfolding changes
  changes-IsConsistent [] db h = h
  changes-IsConsistent (c ∷ cs) db h =
      changes-IsConsistent cs (change normalize c db) (change-IsConsistent c db h)
