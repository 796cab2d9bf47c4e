-- ===== src/Storage/Tests.antt =====
-- Concrete tables, on which the theorems on storage/sqlite.py are applied.
use dikw_core.Prelude.{ℕ, String, Text, codes, same, ◌≡◌, refl, true, none, some, List, [], ◌∷◌}
use dikw_core.Storage.{
  Layer, knowledge, source, DocumentRecord, ChunkRow, NewChunk, Embedded, Db, replace_chunks,
  has_document,
}
use dikw_core.Links.Resolve.{wikilink}
use dikw_core.Storage.Embeddings.{EmbeddingRow, upsert_embeddings}
use dikw_core.Storage.Changes.{upsert, chunk, delete, embed, changes}
use dikw_core.Storage.Integrity.{IsConsistent}
use dikw_core.Storage.Consistent.{changes-IsConsistent}

abbrev pub document : String → Layer → DocumentRecord
document p l = record {
  doc_id = codes p;
  path = codes p;
  path_key = codes p;
  title = none;
  hash = codes "h";
  mtime = 0;
  layer = l;
  active = true;
  status = none;
}

abbrev pub row : ℕ → String → ℕ → ChunkRow
row id doc n = record { chunk_id = id; doc_id = codes doc; seq = n; text = codes "t" }

-- Two documents with a chunk each, and a link from the one to the other
abbrev pub two_documents : Db
two_documents = record {
  documents = document "a" knowledge ∷ document "b" source ∷ [];
  chunks = row 1 "a" 0 ∷ row 2 "b" 0 ∷ [];
  next_chunk = 3;
  fts = 1 ∷ 2 ∷ [];
  embed_meta = record { version = 7; chunk_id = 1 } ∷ [];
  text_versions = 7 ∷ [];
  dims = (7, 3) ∷ [];
  vec_tables = 7 ∷ [];
  vectors = record { version = 7; chunk_id = 1 } ∷ [];
  links =
      record {
        src_doc_id = codes "b";
        dst_path = codes "a";
        link_type = wikilink;
        anchor = none;
        line = 1;
      }
      ∷ [];
  provenance = [];
  knowledge_log = [];
}

abbrev fresh : NewChunk
fresh = record { seq = 0; text = codes "new" }

-- The chunk 1 is replaced, and its row in the vector table stays: `replace_chunks` deletes none.
abbrev vectors_after : List Embedded
unfolding replace_chunks
vectors_after = elim (replace_chunks (codes "a") (fresh ∷ []) two_documents) [
  | none ↦ []
  | some (ids, db) ↦ db.vectors
]

stale_vector : vectors_after ≡ record { version = 7; chunk_id = 1 } ∷ []
unfolding replace_chunks vectors_after same
stale_vector = refl

abbrev vector : ℕ → ℕ → EmbeddingRow
vector id n = record { chunk_id = id; version_id = 7; dim = n }

-- A row of the wrong length fails the whole call, the rows before it included.
wrong_dimension : upsert_embeddings (vector 1 3 ∷ vector 2 4 ∷ []) two_documents ≡ none
unfolding upsert_embeddings
wrong_dimension = refl

abbrev same_key : Text → Text
same_key t = t

changes-IsConsistent_example : IsConsistent (
    changes same_key
      (chunk (codes "a") (fresh ∷ fresh ∷ [])
        ∷ chunk (codes "a") (fresh ∷ [])
        ∷ embed (vector 2 3 ∷ [])
        ∷ upsert (document "c" knowledge)
        ∷ delete (codes "b")
        ∷ [])
      two_documents)
unfolding has_document same
changes-IsConsistent_example =
    changes-IsConsistent same_key
      (chunk (codes "a") (fresh ∷ fresh ∷ [])
        ∷ chunk (codes "a") (fresh ∷ [])
        ∷ embed (vector 2 3 ∷ [])
        ∷ upsert (document "c" knowledge)
        ∷ delete (codes "b")
        ∷ [])
      two_documents
      (record {
        chunk_documents = (refl, (refl, tt));
        fts_chunks = (refl, (refl, tt));
        meta_chunks = (refl, tt);
      })
