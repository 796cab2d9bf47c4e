-- ===== src/Embedding.antt =====
-- The embedding of chunks in src/dikw_core/domains/info/embed.py: `embed_chunks` with its cache and
-- its retries, and `consume_embedding_stream` over the tables of Storage.antt.
pub mod Batches
pub mod Plain
pub mod Totals
pub mod Tests
use dikw_core.Prelude.{
  ℕ, suc, ◌+◌, Text, Bool, true, false, ◌||◌, Option, none, some, List, [], ◌∷◌, ◌++◌, map,
  if◌then◌else◌, ◌==◌, length, take, drop,
}
use dikw_core.Dicts.{update}
use dikw_core.Links.Index.{Dict, lookup, mem}
use dikw_core.Storage.{Db}
use dikw_core.Storage.Embeddings.{EmbeddingRow, upsert_embeddings}

pub record ChunkToEmbed : Type 0 where
  pub chunk_id : ℕ
  pub text : Text

-- What a call of the provider gives: vectors, a `TransientProviderError` with its message, or any
-- other exception.
pub data Reply (V : Type 0) : Type 0 where
  vectors : List V → Reply V
  transient : Text → Reply V
  refused : Reply V

-- The provider, the cache and the cancel token, at each attempt, counted from 0. The cache is none
-- where the lookup raises.
pub record World (V : Type 0) : Type 0 where
  pub content_hash : Text → Text
  pub embed : ℕ → List Text → Reply V
  pub get_cached_embeddings : ℕ → List Text → Option (Dict V)
  pub cancelled : ℕ → Bool

-- The outcome of one attempt; `raised` is an exception that no retry catches.
pub data Attempt (A : Type 0) : Type 0 where
  done : A → Attempt A
  failed : Text → Attempt A
  raised : Attempt A

-- A vector for a chunk
abbrev pub Row : Type 0 → Type 0
Row V = ℕ × V

-- `h in d`
abbrev pub has_key : {V : Type 0} → Text → Dict V → Bool
has_key h d = elim (lookup h d) [ none ↦ false | some v ↦ true ]

abbrev pub zip : {A B : Type 0} → List A → List B → List (A × B)
zip [] bs = []
zip (a ∷ as_) [] = []
zip (a ∷ as_) (b ∷ bs) = (a, b) ∷ zip as_ bs

pub record EmbedBatchResult (V : Type 0) : Type 0 where
  pub rows : List (Row V)
  pub skipped_chunk_ids : List ℕ
  pub error : Option Text
  pub attempts : ℕ

-- The two results of `_run_batch_with_retry`
abbrev pub embedded_batch : {V : Type 0} → List (Row V) → ℕ → EmbedBatchResult V
embedded_batch rows attempt = record {
  rows = rows;
  skipped_chunk_ids = [];
  error = none;
  attempts = attempt;
}

abbrev pub skipped_batch : {V : Type 0} → List ChunkToEmbed → Text → ℕ → EmbedBatchResult V
skipped_batch batch msg attempt = record {
  rows = [];
  skipped_chunk_ids = map (λ (c : ChunkToEmbed). c.chunk_id) batch;
  error = some msg;
  attempts = attempt;
}

module _ {V : Type 0} (w : World V) where
  -- `_safe_cache_lookup`, where there is a storage
  unfoldable pub safe_cache_lookup : Bool → ℕ → List Text → Dict V
  safe_cache_lookup false n hashes = []
  safe_cache_lookup true n hashes = elim (w.get_cached_embeddings n hashes) [
    | none ↦ []
    | some d ↦ d
  ]

  -- The loop that fills `miss_hashes` and `miss_chunks`: hash and text
  unfoldable pub find_misses : Dict V → List Text → List ChunkToEmbed → List (Text × Text)
  find_misses cached queued [] = []
  find_misses cached queued (c ∷ cs) =
      let h = w.content_hash c.text in
      elim (has_key h cached || mem h queued) [
        | true ↦ find_misses cached queued cs
        | false ↦ (h, c.text) ∷ find_misses cached (queued ++ h ∷ []) cs
      ]

  -- The comprehension of `rows`; `none` is the KeyError for a hash that is not there.
  unfoldable pub embedding_rows : Dict V → List ChunkToEmbed → Option (List (Row V))
  embedding_rows cached [] = some []
  embedding_rows cached (c ∷ cs) = elim (lookup (w.content_hash c.text) cached) [
    | none ↦ none
    | some v ↦ elim (embedding_rows cached cs) [
      | none ↦ none
      | some rs ↦ some ((c.chunk_id, v) ∷ rs)
    ]
  ]

  -- The call of the provider, if anything is missing; fewer or more vectors than texts raise.
  unfoldable pub embed_misses : ℕ → List Text → Attempt (List V)
  embed_misses n [] = done []
  embed_misses n (t ∷ ts) = elim (w.embed n (t ∷ ts)) [
    | vectors vs ↦ if length vs == length (t ∷ ts) then done vs else raised
    | transient msg ↦ failed msg
    | refused ↦ raised
  ]

  -- The rows, and the rows for the cache
  unfoldable pub embed_one_batch :
      Bool → ℕ → List ChunkToEmbed → Attempt (List (Row V) × List (Text × V))
  unfolding safe_cache_lookup find_misses embedding_rows embed_misses update
  embed_one_batch storage n batch =
      let cached =
        safe_cache_lookup storage n (map (λ (c : ChunkToEmbed). w.content_hash c.text) batch) in
      let misses = find_misses cached [] batch in
      elim (embed_misses n (map (λ (m : Text × Text). m.1) misses)) [
        | failed msg ↦ failed msg
        | raised ↦ raised
        | done new_vectors ↦
            let fresh = zip (map (λ (m : Text × Text). m.0) misses) new_vectors in
            elim (embedding_rows (update fresh cached) batch) [
              | none ↦ raised
              | some rows ↦ done (rows, fresh)
            ]
      ]

  -- `_run_batch_with_retry`: the retries left, the attempt of the whole call, and that of this batch.
  -- `none` is an exception, also that of the cancel token, which a reporter asks before a retry.
  unfoldable pub run_batch_with_retry :
      Bool → ℕ → ℕ → ℕ → List ChunkToEmbed → Option (EmbedBatchResult V)
  unfolding embed_one_batch
  run_batch_with_retry storage ℕ.zero n attempt batch = elim (embed_one_batch storage n batch) [
    | raised ↦ none
    | done r ↦ some (embedded_batch r.0 attempt)
    | failed msg ↦ some (skipped_batch batch msg attempt)
  ]
  run_batch_with_retry storage (suc retries) n attempt batch =
      elim (embed_one_batch storage n batch) [
        | raised ↦ none
        | done r ↦ some (embedded_batch r.0 attempt)
        | failed msg ↦ elim (w.cancelled n) [
          | true ↦ none
          | false ↦ run_batch_with_retry storage retries (suc n) (suc attempt) batch
        ]
      ]

-- `chunks[start : start + batch_size]` for each start; the fuel is the number of chunks.
unfoldable pub batches : ℕ → ℕ → List ChunkToEmbed → List (List ChunkToEmbed)
batches size fuel [] = []
batches size ℕ.zero (c ∷ cs) = []
batches size (suc fuel) (c ∷ cs) = take size (c ∷ cs) ∷ batches size fuel (drop size (c ∷ cs))

pub record EmbedConsumeResult : Type 0 where
  pub embedded : ℕ
  pub batches_skipped : ℕ
  pub chunks_skipped : ℕ
  pub errors : List Text

-- How the stream ends: drained, or by an exception; the rows of the batches before stay.
pub data Consumed : Type 0 where
  drained : EmbedConsumeResult → Db → Consumed
  stopped : Db → Consumed

-- What a batch adds to the totals.
unfoldable pub add_batch :
    {V : Type 0} → EmbedBatchResult V → EmbedConsumeResult → EmbedConsumeResult
add_batch b t = elim b.error [
  | none ↦ record t { embedded = t.embedded + length b.rows }
  | some msg ↦ record {
    embedded = t.embedded + length b.rows;
    batches_skipped = suc t.batches_skipped;
    chunks_skipped = t.chunks_skipped + length b.skipped_chunk_ids;
    errors = t.errors ++ msg ∷ [];
  }
]

module _ {V : Type 0} (w : World V) (dim : V → ℕ) (version_id : ℕ) where
  abbrev pub row_of : Row V → EmbeddingRow
  row_of (id, v) = record { chunk_id = id; version_id = version_id; dim = dim v }

  -- `if result.rows: await storage.upsert_embeddings(result.rows)`
  unfoldable pub store_rows : List (Row V) → Db → Option Db
  unfolding upsert_embeddings
  store_rows [] db = some db
  store_rows (r ∷ rs) db = upsert_embeddings (map row_of (r ∷ rs)) db

  -- `consume_embedding_stream` over `embed_chunks`: a batch is embedded when the loop asks for it.
  -- `stop` tells whether the reporter of the loop cancels behind the batch.
  unfoldable pub consume :
      Bool → ℕ → (ℕ → Bool) → ℕ → List (List ChunkToEmbed) → EmbedConsumeResult → Db → Consumed
  unfolding run_batch_with_retry store_rows add_batch
  consume storage retries stop n [] t db = drained t db
  consume storage retries stop n (batch ∷ bs) t db =
      elim (run_batch_with_retry w storage retries n 1 batch) [
        | none ↦ stopped db
        | some b ↦ elim (store_rows b.rows db) [
          | none ↦ stopped db
          | some db1 ↦ elim (stop n) [
            | true ↦ stopped db1
            | false ↦ consume storage retries stop (n + b.attempts) bs (add_batch b t) db1
          ]
        ]
      ]

  -- The whole call; a batch size of 0 is a ValueError.
  unfoldable pub embed_and_store : Bool → ℕ → (ℕ → Bool) → ℕ → List ChunkToEmbed → Db → Consumed
  unfolding consume batches
  embed_and_store storage retries stop batch_size chunks db =
      if batch_size == 0
      then stopped db
      else consume storage retries stop 0 (batches batch_size (length chunks) chunks)
          (record { embedded = 0; batches_skipped = 0; chunks_skipped = 0; errors = [] }) db
