-- ===== src/Search/Window.antt =====
-- `_apply_rerank` and the seeds of `_collect_graph_neighbors` of search.py. The storage call
-- `get_chunks`, the reranker and `neighbor_chunks_via_links` are parameters.
use dikw_core.Prelude.{
  ℕ, ◌+◌, max, String, Bool, true, false, ◌&&◌, ◌||◌, not, Option, none, some, List, [], ◌∷◌, ◌++◌,
  if◌then◌else◌, length, leb, any, map, select, take,
}
use dikw_core.Prelude.Sort.{sort}
use dikw_core.Search.Scores.{Num, Dict, lookup, store, has, mem}
use dikw_core.Search.Fusion.{scores_before}

pub record ChunkRecord : Type 0 where
  pub chunk_id : Option ℕ
  pub doc_id : String
  pub seq : ℕ
  pub text : String

-- What the reranker does; a permanent `ProviderError` propagates.
pub data Reply (S : Type 0) : Type 0 where
  scores : List S → Reply S
  transient_error : Reply S
  permanent_error : Reply S

pub data Reranked (S : Type 0) : Type 0 where
  -- `top` and `prefetched_chunks`
  top : List (ℕ × S) → Option (Dict ChunkRecord) → Reranked S
  length_mismatch : Reranked S
  provider_error : Reranked S

-- `{c.chunk_id: c for c in chunks if c.chunk_id is not None}`
unfoldable pub by_id : List ChunkRecord → Dict ChunkRecord → Dict ChunkRecord
by_id [] d = d
by_id (c ∷ cs) d = elim c.chunk_id [ none ↦ by_id cs d | some cid ↦ by_id cs (store cid c d) ]

-- `[prefetched[cid].text for cid in scored_ids]`
unfoldable pub texts : Dict ChunkRecord → List ℕ → List String
texts d [] = []
texts d (cid ∷ ids) = elim (lookup cid d) [ none ↦ texts d ids | some c ↦ c.text ∷ texts d ids ]

-- `zip(ids, scores, strict=True)`, or its ValueError
unfoldable pub zip_strict : {S : Type 0} → List ℕ → List S → Option (List (ℕ × S))
zip_strict [] [] = some []
zip_strict (i ∷ ids) (s ∷ ss) = elim (zip_strict ids ss) [
  | none ↦ none
  | some l ↦ some ((i, s) ∷ l)
]
zip_strict _ _ = none

module _ (num : Num) (get_chunks : List ℕ → List ChunkRecord)
    (rerank : String → List String → Reply num.Score) where
  open num use {Score}

  -- `active`: the mode is hybrid and a reranker with a model is configured and enabled.
  unfoldable pub apply_rerank : Bool → ℕ → String → List (ℕ × Score) → ℕ → Reranked Score
  unfolding by_id texts zip_strict sort
  apply_rerank active candidate_k q ranked limit =
      let window_ids = map (λ e. e.0) (take (max candidate_k limit) ranked) in
      let prefetched = by_id (get_chunks window_ids) [] in
      let scored_ids = select (λ cid. has cid prefetched) window_ids in
      elim (active && not (any (λ i. true) scored_ids)) [
        | true ↦ top (take limit ranked) none
        | false ↦ elim active [
          | false ↦ top (take limit ranked) none
          | true ↦ elim (rerank q (texts prefetched scored_ids)) [
            | transient_error ↦ top (take limit ranked) none
            | permanent_error ↦ provider_error
            | scores ss ↦ elim (zip_strict scored_ids ss) [
              | none ↦ length_mismatch
              | some scored ↦ top (take limit (sort (scores_before num) scored)) (some prefetched)
            ]
          ]
        ]
      ]

-- One candidate of the seed loop: `(seeds, full)`; `seen` holds the seeds.
unfoldable pub consider : ℕ → Option ℕ → List ℕ × Bool → List ℕ × Bool
consider k none (seeds, full) = (seeds, full)
consider k (some cid) (seeds, full) =
    if full || mem cid seeds then (seeds, full) else (seeds ++ cid ∷ [], leb k (length seeds + 1))

-- The rounds over `i`; both `break`s leave the loop, after which `full` stays set.
unfoldable pub seed_rounds : ℕ → List ℕ → List ℕ → List ℕ × Bool → List ℕ × Bool
unfolding consider
seed_rounds k [] [] st = st
seed_rounds k (v ∷ vs) [] st = seed_rounds k vs [] (consider k (some v) st)
seed_rounds k [] (f ∷ fs) st = seed_rounds k [] fs (consider k (some f) st)
seed_rounds k (v ∷ vs) (f ∷ fs) st =
    seed_rounds k vs fs (consider k (some f) (consider k (some v) st))

unfoldable pub graph_seeds : ℕ → List ℕ → List ℕ → List ℕ
unfolding seed_rounds
graph_seeds k vec_ranked fts_ranked =
    (seed_rounds k (take k vec_ranked) (take k fts_ranked) ([], false)).0

-- `_collect_graph_neighbors`; `neighbors` is `none` where the backend raises NotSupported.
unfoldable pub collect_graph_neighbors :
    {N : Type 0} → Bool → ℕ → (List ℕ → Option (List N)) → List ℕ → List ℕ → List N
unfolding graph_seeds
collect_graph_neighbors enabled k neighbors vec_ranked fts_ranked =
    let seeds = graph_seeds k vec_ranked fts_ranked in
    if not enabled || not (any (λ i. true) seeds)
    then []
    else elim (neighbors seeds) [ none ↦ [] | some ns ↦ ns ]
