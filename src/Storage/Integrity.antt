-- ===== src/Storage/Integrity.antt =====
-- No dangling row in the tables of storage/sqlite.py
use dikw_core.Prelude.{◌≡◌, true, All}
use dikw_core.Storage.{ChunkRow, Embedded, Db, has_document}
use dikw_core.Storage.Rows.{has_chunk}

-- Every chunk belongs to a document, and every full-text and embedding row to a chunk.
pub record IsConsistent (db : Db) : Type 0 where
  pub chunk_documents : All (λ (c : ChunkRow). has_document c.doc_id db.documents ≡ true) db.chunks
  pub fts_chunks : All (λ r. has_chunk r db.chunks ≡ true) db.fts
  pub meta_chunks : All (λ (m : Embedded). has_chunk m.chunk_id db.chunks ≡ true) db.embed_meta
