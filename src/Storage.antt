-- ===== src/Storage.antt =====
-- The document tables of src/dikw_core/storage/sqlite.py and the operations on them that write: the
-- documents, their chunks with the full-text and vector rows, the link and provenance edges and the
-- log. A table is the list of its rows in rowid order; a transaction is one step.
pub mod Changes
pub mod Rows
pub mod Embeddings
pub mod Integrity
pub mod EmbeddingsIntegrity
pub mod Consistent
pub mod Tests
use dikw_core.Prelude.{
  ℕ, suc, Text, same, Bool, true, false, not, ◌&&◌, ◌||◌, Option, none, some, List, [], ◌∷◌, ◌++◌,
  map, if◌then◌else◌, ◌==◌, any, select, length, leb, ◌+◌,
}
pub use dikw_core.Links.Resolve.{LinkRecord}

pub data Layer : Type 0 where
  source knowledge wisdom : Layer

unfoldable pub same_layer : Layer → Layer → Bool
same_layer source source = true
same_layer knowledge knowledge = true
same_layer wisdom wisdom = true
same_layer _ _ = false

pub data WisdomStatus : Type 0 where
  draft published favorite archived : WisdomStatus

pub record DocumentRecord : Type 0 where
  pub doc_id : Text
  pub path : Text
  pub path_key : Text
  pub title : Option Text
  pub hash : Text
  pub mtime : ℕ
  pub layer : Layer
  pub active : Bool
  pub status : Option WisdomStatus

-- A row of `chunks`, without its text offsets
pub record ChunkRow : Type 0 where
  pub chunk_id : ℕ
  pub doc_id : Text
  pub seq : ℕ
  pub text : Text

-- A chunk that is not stored yet
pub record NewChunk : Type 0 where
  pub seq : ℕ
  pub text : Text

pub record ProvenanceEdge : Type 0 where
  pub src_doc_id : Text
  pub source_path : Text
  pub source_path_key : Text

pub record LogEntry : Type 0 where
  pub ts : ℕ
  pub action : Text
  pub src : Text

-- A row of a table `vec_chunks_v<version>` or of `chunk_embed_meta`
pub record Embedded : Type 0 where
  pub version : ℕ
  pub chunk_id : ℕ

-- `fts` holds rowids of `documents_fts`, `text_versions` the versions of modality `text`,
-- `dims` the dimension of every version, `vec_tables` the versions whose vector table exists, and `next_chunk` the next AUTOINCREMENT id.
pub record Db : Type 0 where
  pub documents : List DocumentRecord
  pub chunks : List ChunkRow
  pub next_chunk : ℕ
  pub fts : List ℕ
  pub embed_meta : List Embedded
  pub text_versions : List ℕ
  pub dims : List (ℕ × ℕ)
  pub vec_tables : List ℕ
  pub vectors : List Embedded
  pub links : List LinkRecord
  pub provenance : List ProvenanceEdge
  pub knowledge_log : List LogEntry

unfoldable pub find_document : Text → List DocumentRecord → Option DocumentRecord
find_document id [] = none
find_document id (d ∷ ds) = if same d.doc_id id then some d else find_document id ds

unfoldable pub get_document : Text → Db → Option DocumentRecord
unfolding find_document
get_document id db = find_document id db.documents

-- `status` is kept for wisdom pages only.
unfoldable pub clamp_status : DocumentRecord → DocumentRecord
unfolding same_layer
clamp_status d = if same_layer d.layer wisdom then d else record d { status = none }

-- `INSERT ... ON CONFLICT(doc_id) DO UPDATE`
unfoldable pub upsert_row : DocumentRecord → List DocumentRecord → List DocumentRecord
upsert_row d [] = d ∷ []
upsert_row d (e ∷ es) = if same e.doc_id d.doc_id then d ∷ es else e ∷ upsert_row d es

unfoldable pub path_key_taken : DocumentRecord → List DocumentRecord → Bool
path_key_taken d ds = any (λ e. same e.path_key d.path_key && not (same e.doc_id d.doc_id)) ds

-- `none`: the column `path_key` is UNIQUE, and the statement fails.
unfoldable pub upsert_document : DocumentRecord → Db → Option Db
unfolding clamp_status upsert_row path_key_taken
upsert_document d db =
    if path_key_taken d db.documents
    then none
    else some (record db { documents = upsert_row (clamp_status d) db.documents })

unfoldable pub deactivate_document : Text → Db → Db
deactivate_document id db = record db {
  documents = map (λ d. if same d.doc_id id then record d { active = false } else d) db.documents;
}

unfoldable pub list_documents : Option Layer → Option Bool → Option ℕ → Db → List DocumentRecord
unfolding same_layer
list_documents layer active since_ts db =
    select
      (λ d.
        (elim layer [ none ↦ true | some l ↦ same_layer d.layer l ])
        && ((elim active [ none ↦ true | some a ↦ if a then d.active else not d.active ])
            && (elim since_ts [ none ↦ true | some ts ↦ leb ts d.mtime ])))
      db.documents

-- `SELECT chunk_id FROM chunks WHERE doc_id = ?`
unfoldable pub chunk_ids_of : Text → List ChunkRow → List ℕ
chunk_ids_of id cs = map (λ c. c.chunk_id) (select (λ c. same c.doc_id id) cs)

unfoldable pub mem : ℕ → List ℕ → Bool
mem x xs = any (λ y. y == x) xs

-- `DELETE FROM chunks WHERE doc_id = ?`, with the cascade to `chunk_embed_meta`
unfoldable pub delete_chunks : Text → Db → Db
unfolding chunk_ids_of mem
delete_chunks id db =
    let gone = chunk_ids_of id db.chunks in
    record db {
      chunks = select (λ c. not (same c.doc_id id)) db.chunks;
      embed_meta = select (λ m. not (mem m.chunk_id gone)) db.embed_meta;
    }

-- `DELETE FROM documents_fts WHERE rowid IN (...)`
unfoldable pub delete_fts : Text → Db → Db
unfolding chunk_ids_of mem
delete_fts id db =
    let gone = chunk_ids_of id db.chunks in
    record db { fts = select (λ r. not (mem r gone)) db.fts }

-- The rows of the chunks in the vector tables of the text versions, where a table exists
unfoldable pub delete_vectors : Text → Db → Db
unfolding chunk_ids_of mem
delete_vectors id db =
    let gone = chunk_ids_of id db.chunks in
    record db {
      vectors =
          select
            (λ v. not (
              mem v.chunk_id gone
              && (mem v.version db.text_versions && mem v.version db.vec_tables)))
            db.vectors;
    }

unfoldable pub delete_edges : Text → Db → Db
delete_edges id db = record db {
  links = select (λ l. not (same l.src_doc_id id)) db.links;
  provenance = select (λ e. not (same e.src_doc_id id)) db.provenance;
}

unfoldable pub delete_document : Text → Db → Db
unfolding delete_chunks delete_fts delete_vectors delete_edges
delete_document id db =
    let db1 = delete_edges id (delete_chunks id (delete_vectors id (delete_fts id db))) in
    record db1 { documents = select (λ d. not (same d.doc_id id)) db1.documents }

-- The rows of `chunks`, numbered from `next`
unfoldable pub number_chunks : Text → ℕ → List NewChunk → List ChunkRow
number_chunks id next [] = []
number_chunks id next (c ∷ cs) =
    record { chunk_id = next; doc_id = id; seq = c.seq; text = c.text }
    ∷ number_chunks id (suc next) cs

unfoldable pub has_document : Text → List DocumentRecord → Bool
has_document id ds = any (λ d. same d.doc_id id) ds

-- Two rows have one `seq`: `UNIQUE (doc_id, seq)`.
unfoldable pub seq_twice : List NewChunk → Bool
seq_twice [] = false
seq_twice (c ∷ cs) = if any (λ e. e.seq == c.seq) cs then true else seq_twice cs

-- An insertion fails: the document is not there (`REFERENCES documents`), or a `seq` is twice.
unfoldable pub rejects : Text → List NewChunk → Db → Bool
unfolding has_document seq_twice
rejects id [] db = false
rejects id (c ∷ cs) db = not (has_document id db.documents) || seq_twice (c ∷ cs)

-- The rows of `chunks` and of `documents_fts` for the new chunks
unfoldable pub insert_chunks : Text → List NewChunk → Db → Db
unfolding number_chunks
insert_chunks id cs db =
    let rows = number_chunks id db.next_chunk cs in
    record db {
      chunks = db.chunks ++ rows;
      next_chunk = db.next_chunk + length cs;
      fts = db.fts ++ map (λ c. c.chunk_id) rows;
    }

-- The full-text and the chunk rows of the document are replaced; its ids are returned. `none`: a
-- constraint fails, and the transaction is rolled back.
unfoldable pub replace_chunks : Text → List NewChunk → Db → Option (List ℕ × Db)
unfolding delete_chunks delete_fts number_chunks insert_chunks rejects
replace_chunks id cs db =
    if rejects id cs db
    then none
    else some (
      map (λ c. c.chunk_id) (number_chunks id db.next_chunk cs),
      insert_chunks id cs (delete_chunks id (delete_fts id db)),
    )

unfoldable pub links_from : Text → Db → List LinkRecord
links_from id db = select (λ l. same l.src_doc_id id) db.links

unfoldable pub links_to : Text → Db → List LinkRecord
links_to path db = select (λ l. same l.dst_path path) db.links

-- `a` and `b` have one primary key.
unfoldable pub same_link : LinkRecord → LinkRecord → Bool
same_link a b = same a.src_doc_id b.src_doc_id && (same a.dst_path b.dst_path && a.line == b.line)

-- `INSERT OR REPLACE INTO links`
unfoldable pub upsert_link : LinkRecord → List LinkRecord → List LinkRecord
unfolding same_link
upsert_link l ls = select (λ k. not (same_link k l)) ls ++ l ∷ []

unfoldable pub upsert_links : List LinkRecord → List LinkRecord → List LinkRecord
unfolding upsert_link
upsert_links [] ls = ls
upsert_links (n ∷ new) ls = upsert_links new (upsert_link n ls)

unfoldable pub replace_links_from : Text → List LinkRecord → Db → Db
unfolding upsert_links
replace_links_from id new db = record db {
  links = upsert_links new (select (λ l. not (same l.src_doc_id id)) db.links);
}

unfoldable pub append_knowledge_log : LogEntry → Db → Db
append_knowledge_log e db = record db { knowledge_log = db.knowledge_log ++ e ∷ [] }
