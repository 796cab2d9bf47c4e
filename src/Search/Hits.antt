-- ===== src/Search/Hits.antt =====
-- `HybridSearcher.search` of search.py as a whole: the legs, the reranked list, and its hits.
use dikw_core.Prelude.{
  ℕ, String, codes, Bool, true, false, ◌&&◌, ◌||◌, not, Option, none, some, List, [], ◌∷◌, ◌++◌,
  if◌then◌else◌, str_eq, any, all, map, select,
}
use dikw_core.Prelude.Sort.{sort}
use dikw_core.Links.Normalize.{is_space}
use dikw_core.Search.Scores.{Num, Dict, lookup, mem}
use dikw_core.Search.Fusion.{apply_source_diversity_penalty, scores_before}
use dikw_core.Search.Window.{
  ChunkRecord, Reranked, top, length_mismatch, provider_error, by_id, apply_rerank,
  collect_graph_neighbors,
}
use dikw_core.Search.Searcher.{
  RetrievalMode, vector, rrf, bad_value, permanent_provider, FusionMode, Run, gives, raises,
  and_then, AssetVecHit, ChunkNeighbor, Document, Hit, Backend, Embedders, Settings, runs_vec,
  runs_fts, is_hybrid, query_vector, vector_leg,
}
use dikw_core.Search.Query.{
  find_document, distinct, Promoted, promote_assets, fts_ids, Legs, fuse, doc_id_by_chunk, snippets,
}

unfoldable pub is_rrf : FusionMode → Bool
is_rrf rrf = true
is_rrf _ = false

unfoldable pub present : {A : Type 0} → Option A → Bool
present none = false
present (some a) = true

-- `{cid for cids in chunks_by_asset.values() for cid in cids}`
unfoldable pub concat_ids : List (String × List ℕ) → List ℕ
concat_ids [] = []
concat_ids ((k, v) ∷ d) = let rest = concat_ids d in select (λ c. not (mem c rest)) v ++ rest

-- `{r.asset_id for refs in refs_by_chunk.values() for r in refs}`
unfoldable pub all_refs : Dict (List String) → List String
all_refs [] = []
all_refs ((k, v) ∷ d) = v ++ all_refs d

module _ (num : Num) {V : Type 0} (back : Backend num.Score V) (set : Settings num.Score) where
  open num use {Score}

  unfoldable pub promote : List (AssetVecHit Score) → Promoted num
  unfolding promote_assets by_id is_rrf concat_ids
  promote [] = record { ranked = []; docs = []; dists = [] }
  promote (h ∷ hs) =
      let by_asset = back.chunks_referencing_assets (map (λ a. a.asset_id) (h ∷ hs)) in
      let ids = concat_ids by_asset in
      promote_assets num (not (is_rrf set.fusion)) by_asset (by_id (back.get_chunks ids) [])
        (h ∷ hs) (record { ranked = []; docs = []; dists = [] })

  -- The graph leg runs in hybrid mode only.
  unfoldable pub graph_leg : RetrievalMode → List ℕ → List ℕ → List ChunkNeighbor
  unfolding collect_graph_neighbors is_hybrid
  graph_leg mode vec_ranked fts_ranked =
      if is_hybrid mode
      then collect_graph_neighbors (set.graph_enabled && not (num.equals set.graph_weight num.zero))
          set.graph_seed_top_k back.neighbors vec_ranked fts_ranked
      else []

  -- The legs are awaited in this order, and the first error is raised.
  unfoldable pub run_legs : RetrievalMode → String → Option V → Option V → Run (Legs num)
  unfolding and_then runs_fts vector_leg promote graph_leg fts_ids
  run_legs mode q v_text v_mm =
      and_then (if runs_fts mode then back.fts_search (back.sanitize_fts q) else gives []) (λ fts.
        and_then (vector_leg back.vec_search v_text) (λ vec.
          and_then (vector_leg back.vec_search_assets v_mm) (λ assets. gives (record {
            fts = fts;
            vec = vec;
            assets = promote assets;
            graph = graph_leg mode (map (λ h. h.chunk_id) vec) (fts_ids num fts);
          }))))

  -- `fused`, the penalty, and the order
  unfoldable pub ranking : Legs num → Run (List (ℕ × Score))
  unfolding and_then fuse doc_id_by_chunk apply_source_diversity_penalty sort
  ranking legs = and_then (fuse num set legs) (λ fused. gives (
      sort (scores_before num) (
        apply_source_diversity_penalty num fused (doc_id_by_chunk num legs)
          set.same_doc_penalty_alpha)))

  unfoldable pub hit_of :
      Dict ChunkRecord
      → List Document
      → Dict String
      → Dict (List String)
      → List String
      → ℕ
      → Score
      → Option (Hit Score)
  unfolding find_document
  hit_of chunks docs snips refs assets cid score = elim (lookup cid chunks) [
    | none ↦ none
    | some chunk ↦
        let doc = find_document chunk.doc_id docs in
        some record {
          doc_id = chunk.doc_id;
          chunk_id = cid;
          seq = chunk.seq;
          score = score;
          snippet = elim (lookup cid snips) [ none ↦ back.render_snippet chunk | some s ↦ s ];
          path = elim doc [ none ↦ none | some d ↦ some d.path ];
          title = elim doc [ none ↦ none | some d ↦ d.title ];
          asset_refs = elim (lookup cid refs) [
            | none ↦ []
            | some ids ↦ select (λ i. any (λ a. str_eq a i) assets) ids
          ];
          text = chunk.text;
        }
  ]

  -- A chunk that is gone by now is skipped.
  unfoldable pub collect_hits :
      (ℕ → Score → Option (Hit Score)) → List (ℕ × Score) → List (Hit Score)
  collect_hits f [] = []
  collect_hits f ((cid, score) ∷ rest) =
      let hits = collect_hits f rest in elim (f cid score) [ none ↦ hits | some h ↦ h ∷ hits ]

  unfoldable pub doc_ids : Dict ChunkRecord → List ℕ → List String
  doc_ids chunks [] = []
  doc_ids chunks (cid ∷ cids) = elim (lookup cid chunks) [
    | none ↦ doc_ids chunks cids
    | some c ↦ c.doc_id ∷ doc_ids chunks cids
  ]

  -- The chunks that the reranker has fetched, or those that the storage still has
  unfoldable pub chunks_of : Option (Dict ChunkRecord) → List ℕ → Dict ChunkRecord
  unfolding by_id
  chunks_of (some d) cids = select (λ e. mem e.0 cids) d
  chunks_of none cids = by_id (back.get_chunks cids) []

  unfoldable pub build_hits :
      Legs num → List (ℕ × Score) → Option (Dict ChunkRecord) → List (Hit Score)
  unfolding hit_of collect_hits doc_ids all_refs distinct snippets chunks_of
  build_hits legs items prefetched =
      let cids = map (λ e. e.0) items in
      let refs = back.chunk_asset_refs cids in
      let chunks = chunks_of prefetched cids in
      collect_hits
        (hit_of chunks (back.get_documents (distinct (doc_ids chunks cids) []))
          (snippets num legs.fts []) refs (back.get_assets (distinct (all_refs refs) [])))
        items

  unfoldable pub of_reranked : Legs num → Reranked Score → Run (List (Hit Score))
  unfolding build_hits
  of_reranked legs (top items prefetched) = gives (build_hits legs items prefetched)
  of_reranked legs length_mismatch = raises bad_value
  of_reranked legs provider_error = raises permanent_provider

  -- From the legs to the answer
  unfoldable pub answer : RetrievalMode → String → ℕ → Legs num → Run (List (Hit Score))
  unfolding and_then ranking apply_rerank is_hybrid of_reranked
  answer mode q limit legs = and_then (ranking legs) (λ ranked. of_reranked legs (
      apply_rerank num back.get_chunks back.rerank (set.rerank_active && is_hybrid mode)
        set.rerank_candidate_k q ranked limit))

  unfoldable pub is_vector : RetrievalMode → Bool
  is_vector vector = true
  is_vector _ = false

  unfoldable pub hybrid_search : Embedders V → RetrievalMode → String → ℕ → Run (List (Hit Score))
  unfolding and_then runs_vec is_hybrid query_vector run_legs answer is_vector present
  hybrid_search emb mode q limit =
      let tolerant = is_hybrid mode && set.degrade_on_transient in
      if all is_space (codes q)
      then gives []
      else if is_vector mode && not (present emb.embed_multimodal || present emb.embed_text)
      then raises bad_value
      else and_then (query_vector (runs_vec mode) tolerant emb.embed_text q) (λ v_text.
        and_then (query_vector (runs_vec mode) tolerant emb.embed_multimodal q)
          (λ v_mm. and_then (run_legs mode q v_text v_mm) (λ legs. answer mode q limit legs)))
