-- ===== src/Search/QueryTests.antt =====
-- A concrete backend, on which the theorems on `HybridSearcher.search` are applied.
use dikw_core.Prelude.{
  ℕ, String, ◌≡◌, refl, true, false, none, some, List, [], ◌∷◌, map, codes, ◌&&◌, not, all,
  if◌then◌else◌,
}
use dikw_core.Links.Normalize.{is_space}
use dikw_core.Search.Tests.{whole}
use dikw_core.Search.Window.{ChunkRecord, scores}
use dikw_core.Search.Searcher.{
  Backend, Embedders, Settings, Hit, Run, gives, raises, transient_provider, hybrid, vector, rrf,
  bad_value, not_supported, runs_vec, is_hybrid,
}
use dikw_core.Search.Query.{Legs}
use dikw_core.Search.Hits.{answer, hybrid_search}
use dikw_core.Search.Answers.{Grounded, answer-Grounded}
use dikw_core.Search.Degraded.{no_embedders, hybrid_search-no_embedders}

abbrev stored : List ℕ → List ChunkRecord
stored ids = map (λ i. record { chunk_id = some i; doc_id = "d"; seq = i; text = "t" }) ids

-- The backend has no vector table.
abbrev back : Backend ℕ ℕ
back = record {
  fts_search = λ q. gives (
      record { doc_id = "d"; chunk_id = some 4; score = 9; snippet = some "s" }
      ∷ record { doc_id = "d"; chunk_id = some 5; score = 8; snippet = none }
      ∷ []);
  vec_search = λ v. raises not_supported;
  vec_search_assets = λ v. raises not_supported;
  chunks_referencing_assets = λ ids. [];
  get_chunks = stored;
  neighbors = λ seeds. some (record { doc_id = "e"; chunk_id = 6; edge_count = 2 } ∷ []);
  chunk_asset_refs = λ ids. [];
  get_assets = λ ids. ids;
  get_documents = λ ids. record { doc_id = "d"; path = "p"; title = none } ∷ [];
  rerank = λ q ts. scores [];
  sanitize_fts = λ q. q;
  render_snippet = λ c. c.text;
}

abbrev set : Settings ℕ
set = record {
  rrf_k = 1;
  bm25_weight = 60;
  vector_weight = 60;
  graph_weight = 60;
  fusion = rrf;
  same_doc_penalty_alpha = 0;
  graph_enabled = true;
  graph_seed_top_k = 3;
  rerank_active = false;
  rerank_candidate_k = 4;
  degrade_on_transient = true;
}

abbrev failing : String → Run (List ℕ)
failing q = raises transient_provider

abbrev emb : Embedders ℕ
emb = record { embed_text = some failing; embed_multimodal = some failing }

-- The chunk ids of an answer
abbrev ids_of : Run (List (Hit ℕ)) → List ℕ
ids_of (gives hits) = map (λ h. h.chunk_id) hits
ids_of (raises e) = []

found_ids : ids_of (hybrid_search whole back set emb hybrid "q" 2) ≡ 4 ∷ 6 ∷ []
unfolding hybrid_search
found_ids = refl

-- The single-leg mode has nothing to degrade to.
vector_fails : hybrid_search whole back set emb vector "q" 2 ≡ raises transient_provider
unfolding hybrid_search
vector_fails = refl

vector_without : hybrid_search whole back set no_embedders vector "q" 2 ≡ raises bad_value
unfolding hybrid_search
vector_without = refl

abbrev legs : Legs whole
legs = record {
  fts = record { doc_id = "d"; chunk_id = some 4; score = 9; snippet = none } ∷ [];
  vec = record { doc_id = "d"; chunk_id = 5; distance = 1 } ∷ [];
  assets = record { ranked = []; docs = []; dists = [] };
  graph = [];
}

answer-Grounded_example : Grounded whole back set 1 legs (answer whole back set hybrid "q" 1 legs)
answer-Grounded_example = answer-Grounded whole back set hybrid "q" 1 legs

hybrid_search-no_embedders_example : hybrid_search whole back set emb vector "q" 2 ≡ (
    if not (all is_space (codes "q")) && (runs_vec vector && not (is_hybrid vector && true))
    then raises transient_provider
    else hybrid_search whole back set no_embedders vector "q" 2)
hybrid_search-no_embedders_example =
    hybrid_search-no_embedders whole back set emb vector "q" 2 failing failing refl refl refl refl
