-- ===== src/Search/Searcher.antt =====
-- `HybridSearcher.search` of search.py: the query embeddings, the legs, the promotion of asset hits,
-- the choice of the fusion and the hits that are built. The storage, the embedders, the reranker and
-- the query sanitizer are parameters; spans and logs are left out.
use dikw_core.Prelude.{
  ℕ, String, Bool, true, false, Option, none, some, List, [], ◌∷◌, if◌then◌else◌,
}
use dikw_core.Search.Scores.{Dict}
use dikw_core.Search.Window.{ChunkRecord, Reply}

pub data RetrievalMode : Type 0 where
  bm25 vector hybrid : RetrievalMode

pub data FusionMode : Type 0 where
  rrf combsum combmnz unknown_fusion : FusionMode

-- What is raised out of `search`
pub data Raised : Type 0 where
  bad_value transient_provider permanent_provider not_supported storage_error : Raised
  missing_key : ℕ → Raised

pub data Run (A : Type 0) : Type 0 where
  gives : A → Run A
  raises : Raised → Run A

unfoldable pub and_then : {A B : Type 0} → Run A → (A → Run B) → Run B
and_then (gives a) k = k a
and_then (raises e) k = raises e

pub record FtsHit (S : Type 0) : Type 0 where
  pub doc_id : String
  pub chunk_id : Option ℕ
  pub score : S
  pub snippet : Option String

pub record VecHit (S : Type 0) : Type 0 where
  pub doc_id : String
  pub chunk_id : ℕ
  pub distance : S

pub record AssetVecHit (S : Type 0) : Type 0 where
  pub asset_id : String
  pub distance : S

pub record ChunkNeighbor : Type 0 where
  pub doc_id : String
  pub chunk_id : ℕ
  pub edge_count : ℕ

pub record Document : Type 0 where
  pub doc_id : String
  pub path : String
  pub title : Option String

pub record Hit (S : Type 0) : Type 0 where
  pub doc_id : String
  pub chunk_id : ℕ
  pub seq : ℕ
  pub score : S
  pub snippet : String
  pub path : Option String
  pub title : Option String
  pub asset_refs : List String
  pub text : String

-- The embedders of queries, for texts and for assets, where they are configured; `V` is an embedding.
pub record Embedders (V : Type 0) : Type 0 where
  pub embed_text : Option (String → Run (List V))
  pub embed_multimodal : Option (String → Run (List V))

-- The calls of the storage, with the limit of a leg and the layer given, and of the reranker
pub record Backend (S V : Type 0) : Type 0 where
  pub fts_search : String → Run (List (FtsHit S))
  pub vec_search : V → Run (List (VecHit S))
  pub vec_search_assets : V → Run (List (AssetVecHit S))
  pub chunks_referencing_assets : List String → List (String × List ℕ)
  pub get_chunks : List ℕ → List ChunkRecord
  pub neighbors : List ℕ → Option (List ChunkNeighbor)
  pub chunk_asset_refs : List ℕ → Dict (List String)
  pub get_assets : List String → List String
  pub get_documents : List String → List Document
  pub rerank : String → List String → Reply S
  pub sanitize_fts : String → String
  pub render_snippet : ChunkRecord → String

pub record Settings (S : Type 0) : Type 0 where
  pub rrf_k : ℕ
  pub bm25_weight : S
  pub vector_weight : S
  pub graph_weight : S
  pub fusion : FusionMode
  pub same_doc_penalty_alpha : S
  pub graph_enabled : Bool
  pub graph_seed_top_k : ℕ
  pub rerank_active : Bool
  pub rerank_candidate_k : ℕ
  pub degrade_on_transient : Bool

-- `mode in ("vector", "hybrid")`, `mode in ("bm25", "hybrid")` and `mode == "hybrid"`
unfoldable pub runs_vec : RetrievalMode → Bool
runs_vec bm25 = false
runs_vec _ = true

unfoldable pub runs_fts : RetrievalMode → Bool
runs_fts vector = false
runs_fts _ = true

unfoldable pub is_hybrid : RetrievalMode → Bool
is_hybrid hybrid = true
is_hybrid _ = false

-- `vectors[0] if vectors else None`
unfoldable pub first_vector : {V : Type 0} → List V → Option V
first_vector [] = none
first_vector (v ∷ vs) = some v

-- `except TransientProviderError`: no vector, where it is let.
unfoldable pub degrade : {V : Type 0} → Bool → Run (List V) → Run (Option V)
unfolding first_vector
degrade tolerant (gives vs) = gives (first_vector vs)
degrade tolerant (raises transient_provider) =
    if tolerant then gives none else raises transient_provider
degrade tolerant (raises e) = raises e

-- The query vector for one modality
unfoldable pub query_vector :
    {V : Type 0} → Bool → Bool → Option (String → Run (List V)) → String → Run (Option V)
unfolding degrade
query_vector active tolerant none q = gives none
query_vector active tolerant (some embed) q =
    if active then degrade tolerant (embed q) else gives none

-- `graceful_notsupported` of `_traced_leg`
unfoldable pub graceful : {A : Type 0} → Run (List A) → Run (List A)
graceful (gives hits) = gives hits
graceful (raises not_supported) = gives []
graceful (raises e) = raises e

unfoldable pub vector_leg : {V A : Type 0} → (V → Run (List A)) → Option V → Run (List A)
unfolding graceful
vector_leg call none = gives []
vector_leg call (some v) = graceful (call v)
