-- ===== src/Storage/Embeddings.antt =====
-- `upsert_embeddings` of storage/sqlite.py. The vectors themselves are left out, but for their length.
-- A call that fails is taken to leave no vector table behind that it made; SQLite keeps an empty one
-- which was created before the first row was inserted.
use dikw_core.Prelude.{
  ℕ, true, false, not, ◌&&◌, Option, none, some, List, [], ◌∷◌, ◌++◌, if◌then◌else◌, ◌==◌, all,
  select,
}
use dikw_core.Storage.{Embedded, Db, mem}
use dikw_core.Storage.Rows.{has_chunk}

pub record EmbeddingRow : Type 0 where
  pub chunk_id : ℕ
  pub version_id : ℕ
  pub dim : ℕ

-- `INSERT OR REPLACE` of a row whose key is all of it
unfoldable pub upsert_embedded : Embedded → List Embedded → List Embedded
upsert_embedded m ms =
    select (λ n. not (n.chunk_id == m.chunk_id && n.version == m.version)) ms ++ m ∷ []

-- The versions in the order in which `by_version` gets its keys
unfoldable pub first_seen : List EmbeddingRow → List ℕ → List ℕ
unfolding mem
first_seen [] seen = seen
first_seen (r ∷ rs) seen =
    first_seen rs (if mem r.version_id seen then seen else seen ++ r.version_id ∷ [])

-- `_fetch_version`, and the dimension of the version
unfoldable pub fetch_dim : ℕ → List (ℕ × ℕ) → Option ℕ
fetch_dim v [] = none
fetch_dim v ((w, dim) ∷ ds) = if w == v then some dim else fetch_dim v ds

-- `_ensure_vec_table`
unfoldable pub ensure_vec_table : ℕ → Db → Db
unfolding mem
ensure_vec_table v db = record db {
  vec_tables = if mem v db.vec_tables then db.vec_tables else db.vec_tables ++ v ∷ [];
}

-- The rows of one version; `chunk_embed_meta` refers to `chunks`.
unfoldable pub insert_batch : List EmbeddingRow → Db → Option Db
unfolding upsert_embedded
insert_batch [] db = some db
insert_batch (r ∷ rs) db =
    let m : Embedded = record { version = r.version_id; chunk_id = r.chunk_id } in
    elim (has_chunk r.chunk_id db.chunks) [
      | false ↦ none
      | true ↦ insert_batch rs (record db {
        embed_meta = upsert_embedded m db.embed_meta;
        vectors = upsert_embedded m db.vectors;
      })
    ]

unfoldable pub insert_batches : List ℕ → List EmbeddingRow → Db → Option Db
unfolding fetch_dim ensure_vec_table insert_batch
insert_batches [] rows db = some db
insert_batches (v ∷ vs) rows db =
    let batch = select (λ r. r.version_id == v) rows in
    elim (fetch_dim v db.dims) [
      | none ↦ none
      | some dim ↦
          if all (λ r. r.dim == dim) batch
          then elim (insert_batch batch (ensure_vec_table v db)) [
            | none ↦ none
            | some db1 ↦ insert_batches vs rows db1
          ]
          else none
    ]

-- `none`: an unknown version, a wrong dimension or a chunk that is not there, and nothing is written.
unfoldable pub upsert_embeddings : List EmbeddingRow → Db → Option Db
unfolding first_seen insert_batches
upsert_embeddings rows db = insert_batches (first_seen rows []) rows db
