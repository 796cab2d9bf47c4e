-- ===== src/Embedding/Totals.antt =====
-- The totals that `consume_embedding_stream` returns.
use dikw_core.Prelude.{
  ℕ, suc, ◌+◌, Text, ◌≡◌, refl, ap, subst, inl, inr, Bool, true, false, Option, none, some, List,
  [], ◌∷◌, map, arith, length, length-append, flatten, Option-cases, Bool-cases, ◌==◌,
}
use dikw_core.Dicts.{update}
use dikw_core.Links.Index.{Dict, lookup}
use dikw_core.Storage.{Db}
use dikw_core.Embedding.{
  ChunkToEmbed, World, Row, Attempt, done, failed, raised, embedding_rows, embed_misses,
  find_misses, safe_cache_lookup, zip, embed_one_batch, EmbedBatchResult, embedded_batch,
  skipped_batch, run_batch_with_retry, batches, EmbedConsumeResult, Consumed, drained, stopped,
  store_rows, add_batch, consume, embed_and_store,
}
use dikw_core.Embedding.Batches.{flatten-batches}

length-ids :
    (cs : List ChunkToEmbed) → length (map (λ (c : ChunkToEmbed). c.chunk_id) cs) ≡ length cs
length-ids [] = refl
length-ids (c ∷ cs) = ap suc (length-ids cs)

-- The chunks that a result accounts for.
abbrev accounted : EmbedConsumeResult → ℕ
accounted t = t.embedded + t.chunks_skipped

-- What the parts of a batch of this length may give.
abbrev RowsFit : {V : Type 0} → ℕ → Option (List (Row V)) → Type 0
RowsFit k none = Unit
RowsFit k (some rows) = length rows ≡ k

abbrev AttemptFits : {V : Type 0} → ℕ → Attempt (List (Row V) × List (Text × V)) → Type 0
AttemptFits k (done r) = length r.0 ≡ k
AttemptFits k (failed msg) = Unit
AttemptFits k raised = Unit

abbrev BatchFits : {V : Type 0} → ℕ → Option (EmbedBatchResult V) → Type 0
BatchFits k none = Unit
BatchFits k (some b) = (t : EmbedConsumeResult) → accounted (add_batch b t) ≡ accounted t + k

module _ {V : Type 0} (w : World V) where
  embedding_rows-fit :
      (d : Dict V) (cs : List ChunkToEmbed) → RowsFit (length cs) (embedding_rows w d cs)
  unfolding embedding_rows
  embedding_rows-fit d [] = refl
  embedding_rows-fit d (c ∷ cs) = elim (Option-cases (lookup (w.content_hash c.text) d)) [
    | inl e ↦ rw (embedding_rows, e) tt
    | inr (v, e) ↦
        let ih = embedding_rows-fit d cs in
        elim (Option-cases (embedding_rows w d cs)) [
          | inl f ↦ rw (embedding_rows, e, f) tt
          | inr (rs, f) ↦ rw (embedding_rows, e, f) (ap suc (subst (RowsFit (length cs)) f ih))
        ]
  ]

  rows_attempt :
      (k : ℕ) (fresh : List (Text × V)) (o : Option (List (Row V)))
      → RowsFit k o
      → AttemptFits k (elim o [ none ↦ raised | some rows ↦ done (rows, fresh) ])
  rows_attempt k fresh none h = tt
  rows_attempt k fresh (some rows) h = h

  embed_one_batch-fits :
      (storage : Bool) (n : ℕ) (cs : List ChunkToEmbed)
      → AttemptFits (length cs) (embed_one_batch w storage n cs)
  unfolding embed_one_batch
  embed_one_batch-fits storage n cs =
      let cached =
        safe_cache_lookup w storage n (map (λ (c : ChunkToEmbed). w.content_hash c.text) cs) in
      let misses = find_misses w cached [] cs in
      go cached misses (embed_misses w n (map (λ (m : Text × Text). m.1) misses))
    where
      go :
          (cached : Dict V) (misses : List (Text × Text)) (a : Attempt (List V))
          → AttemptFits (length cs) (elim a [
            | failed msg ↦ failed msg
            | raised ↦ raised
            | done new_vectors ↦
                let fresh = zip (map (λ (m : Text × Text). m.0) misses) new_vectors in
                elim (embedding_rows w (update fresh cached) cs) [
                  | none ↦ raised
                  | some rows ↦ done (rows, fresh)
                ]
          ])
      go cached misses (failed msg) = tt
      go cached misses raised = tt
      go cached misses (done vs) =
          rows_attempt (length cs) (zip (map (λ (m : Text × Text). m.0) misses) vs)
            (embedding_rows w (update (zip (map (λ (m : Text × Text). m.0) misses) vs) cached) cs)
            (embedding_rows-fit (update (zip (map (λ (m : Text × Text). m.0) misses) vs) cached) cs)

  embedded-fits :
      (k attempt : ℕ) (r : List (Row V))
      → length r ≡ k
      → BatchFits k (some (embedded_batch r attempt))
  unfolding add_batch
  embedded-fits k attempt r h t = omega (arith, h)

  skipped-fits :
      (cs : List ChunkToEmbed) (msg : Text) (attempt : ℕ)
      → BatchFits {V = V} (length cs) (some (skipped_batch cs msg attempt))
  unfolding add_batch
  skipped-fits cs msg attempt t = omega (arith, length-ids cs)

  run_batch_with_retry-fits :
      (storage : Bool) (retries n attempt : ℕ) (cs : List ChunkToEmbed)
      → BatchFits (length cs) (run_batch_with_retry w storage retries n attempt cs)
  unfolding run_batch_with_retry
  run_batch_with_retry-fits storage ℕ.zero n attempt cs =
      last (embed_one_batch w storage n cs) (embed_one_batch-fits storage n cs)
    where
      last :
          (a : Attempt (List (Row V) × List (Text × V)))
          → AttemptFits (length cs) a
          → BatchFits (length cs) (elim a [
            | raised ↦ none
            | done r ↦ some (embedded_batch r.0 attempt)
            | failed msg ↦ some (skipped_batch cs msg attempt)
          ])
      last raised h = tt
      last (done r) h = embedded-fits (length cs) attempt r.0 h
      last (failed msg) h = skipped-fits cs msg attempt
  run_batch_with_retry-fits storage (suc retries) n attempt cs =
      again (embed_one_batch w storage n cs) (embed_one_batch-fits storage n cs)
        (run_batch_with_retry-fits storage retries (suc n) (suc attempt) cs)
    where
      again :
          (a : Attempt (List (Row V) × List (Text × V)))
          → AttemptFits (length cs) a
          → BatchFits (length cs) (run_batch_with_retry w storage retries (suc n) (suc attempt) cs)
          → BatchFits (length cs) (elim a [
            | raised ↦ none
            | done r ↦ some (embedded_batch r.0 attempt)
            | failed msg ↦ elim (w.cancelled n) [
              | true ↦ none
              | false ↦ run_batch_with_retry w storage retries (suc n) (suc attempt) cs
            ]
          ])
      again raised h k = tt
      again (done r) h k = embedded-fits (length cs) attempt r.0 h
      again (failed msg) h k = elim (Bool-cases (w.cancelled n)) [
        | inl c ↦ rw c tt
        | inr c ↦ rw c k
      ]

module _ {V : Type 0} (w : World V) (dim : V → ℕ) (version_id : ℕ) where
  -- The totals of a stream that is drained grow by the chunks of its batches.
  abbrev Counts : ℕ → Consumed → Type 0
  Counts k (drained r db) = accounted r ≡ k
  Counts k (stopped db) = Unit

  consume-Counts :
      (storage : Bool) (retries : ℕ) (stop : ℕ → Bool) (n : ℕ) (bs : List (List ChunkToEmbed))
      (t : EmbedConsumeResult) (db : Db)
      → Counts
          (accounted t + length (flatten bs))
          (consume w dim version_id storage retries stop n bs t db)
  unfolding consume flatten
  consume-Counts storage retries stop n [] t db = omega arith
  consume-Counts storage retries stop n (batch ∷ bs) t db =
      let fits = run_batch_with_retry-fits w storage retries n 1 batch in
      elim (Option-cases (run_batch_with_retry w storage retries n 1 batch)) [
        | inl e ↦ rw (consume, e) tt
        | inr (b, e) ↦ elim (Option-cases (store_rows w dim version_id b.rows db)) [
          | inl f ↦ rw (consume, e, f) tt
          | inr (db1, f) ↦ elim (Bool-cases (stop n)) [
            | inl g ↦ rw (consume, e, f, g) tt
            | inr g ↦
                let ih =
                  consume-Counts storage retries stop (n + b.attempts) bs (add_batch b t) db1 in
                let more = subst (BatchFits (length batch)) e fits t in
                rw (consume, e, f, g)
                  (subst
                    (λ k. Counts k (
                      consume w dim version_id storage retries stop (n + b.attempts) bs
                        (add_batch b t) db1))
                    (omega (arith, more, length-append batch (flatten bs))) ih)
          ]
        ]
      ]

  -- Whatever the provider, the cache and the store reply: when the stream of the batches is drained,
  -- each chunk is counted once, as embedded or as skipped.
  pub embed_and_store-counts :
      (storage : Bool) (retries : ℕ) (stop : ℕ → Bool) (batch_size : ℕ) (chunks : List ChunkToEmbed)
      (db db1 : Db) (r : EmbedConsumeResult)
      → embed_and_store w dim version_id storage retries stop batch_size chunks db ≡ drained r db1
      → r.embedded + r.chunks_skipped ≡ length chunks
  unfolding embed_and_store
  embed_and_store-counts storage retries stop batch_size chunks db db1 r h =
      elim (Bool-cases (batch_size == 0)) [
        | inl e ↦ absurd (let k : stopped db ≡ drained r db1 = rw (embed_and_store, e) at h in cc)
        | inr e ↦
            let start : EmbedConsumeResult = record {
              embedded = 0;
              batches_skipped = 0;
              chunks_skipped = 0;
              errors = [];
            } in
            let bs = batches batch_size (length chunks) chunks in
            let whole =
              flatten-batches batch_size (length chunks) chunks (ground (arith, e)) (omega arith) in
            let run : consume w dim version_id storage retries stop 0 bs start db ≡ drained r db1 =
              rw (embed_and_store, e) at h in
            let c : r.embedded + r.chunks_skipped ≡ 0 + 0 + length (flatten bs) =
              subst (Counts (0 + 0 + length (flatten bs))) run
                (consume-Counts storage retries stop 0 bs start db) in
            omega (arith, c, ap length whole)
      ]
