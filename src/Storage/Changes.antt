-- ===== src/Storage/Changes.antt =====
-- `replace_provenance_from` of storage/sqlite.py, and any sequence of the writes on the tables.
use dikw_core.Prelude.{
  Text, same, Bool, not, none, some, List, [], ◌∷◌, ◌++◌, if◌then◌else◌, any, select,
}
use dikw_core.Storage.Embeddings.{EmbeddingRow, upsert_embeddings}
use dikw_core.Storage.{
  DocumentRecord, NewChunk, LinkRecord, ProvenanceEdge, LogEntry, Db, upsert_document,
  deactivate_document, delete_document, replace_chunks, replace_links_from, append_knowledge_log,
}

-- `_normalize_path`, which is in Unicode tables of the standard library, is a parameter.
module _ (normalize : Text → Text) where
  unfoldable pub has_key : Text → List ProvenanceEdge → Bool
  has_key key es = any (λ e. same e.source_path_key key) es

  -- The dict `seen`: the first spelling of each key
  unfoldable pub seen_paths : Text → List Text → List ProvenanceEdge → List ProvenanceEdge
  unfolding has_key
  seen_paths id [] seen = seen
  seen_paths id (raw ∷ raws) seen =
      let next =
        if has_key (normalize raw) seen
        then seen
        else seen
          ++ record { src_doc_id = id; source_path = raw; source_path_key = normalize raw } ∷ [] in
      seen_paths id raws next

  unfoldable pub replace_provenance_from : Text → List Text → Db → Db
  unfolding seen_paths
  replace_provenance_from id raws db = record db {
    provenance = select (λ e. not (same e.src_doc_id id)) db.provenance ++ seen_paths id raws [];
  }

  -- The writes of the protocol that this module models
  pub data Change : Type 0 where
    upsert : DocumentRecord → Change
    deactivate : Text → Change
    delete : Text → Change
    chunk : Text → List NewChunk → Change
    link : Text → List LinkRecord → Change
    attribute : Text → List Text → Change
    embed : List EmbeddingRow → Change
    log : LogEntry → Change

  -- A write that fails is rolled back.
  unfoldable pub change : Change → Db → Db
  unfolding upsert_document deactivate_document delete_document replace_chunks replace_links_from
      replace_provenance_from append_knowledge_log upsert_embeddings
  change (upsert d) db = elim (upsert_document d db) [ none ↦ db | some db1 ↦ db1 ]
  change (deactivate id) db = deactivate_document id db
  change (delete id) db = delete_document id db
  change (chunk id cs) db = elim (replace_chunks id cs db) [ none ↦ db | some (ids, db1) ↦ db1 ]
  change (link id ls) db = replace_links_from id ls db
  change (attribute id raws) db = replace_provenance_from id raws db
  change (embed rows) db = elim (upsert_embeddings rows db) [ none ↦ db | some db1 ↦ db1 ]
  change (log e) db = append_knowledge_log e db

  unfoldable pub changes : List Change → Db → Db
  unfolding change
  changes [] db = db
  changes (c ∷ cs) db = changes cs (change c db)
