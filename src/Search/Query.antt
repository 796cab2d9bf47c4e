-- ===== src/Search/Query.antt =====
-- The body of `HybridSearcher.search` of search.py, from the query to the hits.
use dikw_core.Prelude.{
  ℕ, String, Bool, Option, none, some, List, [], ◌∷◌, ◌++◌, if◌then◌else◌, str_eq, any, map,
}
use dikw_core.Search.Scores.{Num, Dict, lookup, store, has}
use dikw_core.Search.Fusion.{
  Outcome, returns, value_error, key_error, reciprocal_rank_fusion, comb_sum_fusion,
  comb_mnz_fusion,
}
use dikw_core.Search.Window.{ChunkRecord}
use dikw_core.Search.Searcher.{
  FusionMode, rrf, combsum, combmnz, unknown_fusion, bad_value, missing_key, Run, gives, raises,
  FtsHit, VecHit, AssetVecHit, ChunkNeighbor, Document, Settings,
}

-- `d.get(key, [])` of a dict with texts as keys
unfoldable pub cids_of : String → List (String × List ℕ) → List ℕ
cids_of key [] = []
cids_of key ((k, v) ∷ d) = if str_eq key k then v else cids_of key d

unfoldable pub find_document : String → List Document → Option Document
find_document id [] = none
find_document id (d ∷ ds) = if str_eq d.doc_id id then some d else find_document id ds

-- `list({...})`, with the texts in the order of their first occurrence
unfoldable pub distinct : List String → List String → List String
distinct [] seen = seen
distinct (x ∷ xs) seen = distinct xs (if any (λ y. str_eq y x) seen then seen else seen ++ x ∷ [])

-- `d.setdefault(key, v)`
unfoldable pub set_default : ℕ → String → Dict String → Dict String
set_default key v d = if has key d then d else store key v d

module _ (num : Num) where
  open num use {Score, sub, of_nat, exceeds}

  -- `asset_chunk_ranked`, `asset_chunk_doc_ids` and `asset_dist_by_chunk`
  pub record Promoted : Type 0 where
    pub ranked : List ℕ
    pub docs : Dict String
    pub dists : Dict Score

  -- `prev is None or h.distance < prev`
  unfoldable pub note_distance : Score → ℕ → Dict Score → Dict Score
  note_distance distance cid dists = elim (lookup cid dists) [
    | none ↦ store cid distance dists
    | some prev ↦ if exceeds prev distance then store cid distance dists else dists
  ]

  -- The chunks of one asset hit
  unfoldable pub promote_chunks : Bool → Dict ChunkRecord → Score → List ℕ → Promoted → Promoted
  unfolding note_distance
  promote_chunks track chunks distance [] p = p
  promote_chunks track chunks distance (cid ∷ cids) p = elim (lookup cid chunks) [
    | none ↦ promote_chunks track chunks distance cids p
    | some chunk ↦
        let dists = if track then note_distance distance cid p.dists else p.dists in
        promote_chunks track chunks distance cids (
          if has cid p.docs then record p { dists = dists } else record {
            ranked = p.ranked ++ cid ∷ [];
            docs = store cid chunk.doc_id p.docs;
            dists = dists;
          })
  ]

  unfoldable pub promote_assets :
      Bool
      → List (String × List ℕ)
      → Dict ChunkRecord
      → List (AssetVecHit Score)
      → Promoted
      → Promoted
  unfolding promote_chunks cids_of
  promote_assets track by_asset chunks [] p = p
  promote_assets track by_asset chunks (h ∷ hs) p =
      promote_assets track by_asset chunks hs
        (promote_chunks track chunks h.distance (cids_of h.asset_id by_asset) p)

  -- `[h.chunk_id for h in fts_hits if h.chunk_id is not None]`
  unfoldable pub fts_ids : List (FtsHit Score) → List ℕ
  fts_ids [] = []
  fts_ids (h ∷ hs) = elim h.chunk_id [ none ↦ fts_ids hs | some cid ↦ cid ∷ fts_ids hs ]

  unfoldable pub fts_scored : List (FtsHit Score) → List (ℕ × Score)
  fts_scored [] = []
  fts_scored (h ∷ hs) = elim h.chunk_id [
    | none ↦ fts_scored hs
    | some cid ↦ (cid, h.score) ∷ fts_scored hs
  ]

  -- `-distance`
  abbrev pub negated : Score → Score
  negated d = sub num.zero d

  unfoldable pub asset_scored : Dict Score → List ℕ → List (ℕ × Score)
  asset_scored dists [] = []
  asset_scored dists (cid ∷ cids) = elim (lookup cid dists) [
    | none ↦ asset_scored dists cids
    | some d ↦ (cid, negated d) ∷ asset_scored dists cids
  ]

  -- What the legs found
  pub record Legs : Type 0 where
    pub fts : List (FtsHit Score)
    pub vec : List (VecHit Score)
    pub assets : Promoted
    pub graph : List ChunkNeighbor

  abbrev pub with_graph : {A : Type 0} → List ChunkNeighbor → List A → A → List A
  with_graph [] xs x = xs
  with_graph (n ∷ ns) xs x = xs ++ x ∷ []

  unfoldable pub of_outcome : Outcome (Dict Score) → Run (Dict Score)
  of_outcome (returns d) = gives d
  of_outcome value_error = raises bad_value
  of_outcome (key_error k) = raises (missing_key k)

  unfoldable pub scored_lists : Legs → List (List (ℕ × Score))
  unfolding fts_scored asset_scored
  scored_lists l =
      with_graph l.graph
        (fts_scored l.fts
          ∷ map (λ h. (h.chunk_id, negated h.distance)) l.vec
          ∷ asset_scored l.assets.dists l.assets.ranked
          ∷ [])
        (map (λ n. (n.chunk_id, of_nat n.edge_count)) l.graph)

  unfoldable pub ranked_lists : Legs → List (List ℕ)
  unfolding fts_ids
  ranked_lists l =
      with_graph l.graph (fts_ids l.fts ∷ map (λ h. h.chunk_id) l.vec ∷ l.assets.ranked ∷ [])
        (map (λ n. n.chunk_id) l.graph)

  -- The fusion by its mode; an unknown one is a `ValueError`.
  unfoldable pub fuse_by :
      FusionMode → ℕ → List Score → List (List ℕ) → List (List (ℕ × Score)) → Run (Dict Score)
  unfolding of_outcome reciprocal_rank_fusion comb_sum_fusion comb_mnz_fusion
  fuse_by rrf k weights ranked scored =
      of_outcome (reciprocal_rank_fusion num ranked k (some weights))
  fuse_by combsum k weights ranked scored = of_outcome (comb_sum_fusion num scored (some weights))
  fuse_by combmnz k weights ranked scored = of_outcome (comb_mnz_fusion num scored (some weights))
  fuse_by unknown_fusion k weights ranked scored = raises bad_value

  unfoldable pub fuse : Settings Score → Legs → Run (Dict Score)
  unfolding fuse_by scored_lists ranked_lists
  fuse set l =
      fuse_by set.fusion set.rrf_k
        (with_graph l.graph (set.bm25_weight ∷ set.vector_weight ∷ set.vector_weight ∷ [])
          set.graph_weight)
        (ranked_lists l) (scored_lists l)

  unfoldable pub set_docs :
      {H : Type 0} → (H → Option (ℕ × String)) → List H → Dict String → Dict String
  unfolding set_default
  set_docs f [] d = d
  set_docs f (h ∷ hs) d = elim (f h) [
    | none ↦ set_docs f hs d
    | some e ↦ set_docs f hs (set_default e.0 e.1 d)
  ]

  abbrev pub fts_doc : FtsHit Score → Option (ℕ × String)
  fts_doc h = elim h.chunk_id [ none ↦ none | some cid ↦ some (cid, h.doc_id) ]

  -- The first writer wins.
  unfoldable pub doc_id_by_chunk : Legs → Dict String
  unfolding set_docs
  doc_id_by_chunk l =
      set_docs (λ (n : ChunkNeighbor). some (n.chunk_id, n.doc_id)) l.graph
        (set_docs (λ (e : ℕ × String). some e) l.assets.docs
          (set_docs fts_doc l.fts
            (set_docs (λ (h : VecHit Score). some (h.chunk_id, h.doc_id)) l.vec [])))

  -- The dict comprehension over the hits with a text in `snippet`
  unfoldable pub snippets : List (FtsHit Score) → Dict String → Dict String
  snippets [] d = d
  snippets (h ∷ hs) d = elim h.chunk_id [
    | none ↦ snippets hs d
    | some cid ↦ elim h.snippet [
      | none ↦ snippets hs d
      | some s ↦ snippets hs (if str_eq s "" then d else store cid s d)
    ]
  ]
