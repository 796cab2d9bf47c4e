-- ===== src/Search/Degraded.antt =====
-- What a failed embedding of the query means for `HybridSearcher.search`, in every mode.
use dikw_core.Prelude.{
  String, codes, ℕ, ◌≡◌, refl, Bool, true, false, ◌&&◌, not, Option, none, some, List, all,
  if◌then◌else◌, Bool-cases, inl, inr,
}
use dikw_core.Links.Normalize.{is_space}
use dikw_core.Search.Scores.{Num}
use dikw_core.Search.Searcher.{
  RetrievalMode, bm25, vector, hybrid, transient_provider, Run, gives, raises, Backend, Embedders,
  Settings, is_hybrid, runs_vec, query_vector, degrade, and_then,
}
use dikw_core.Search.Hits.{hybrid_search, is_vector, present}

abbrev pub no_embedders : {V : Type 0} → Embedders V
no_embedders = record { embed_text = none; embed_multimodal = none }

failed-vector :
    {V : Type 0} (embed : Option (String → Run (List V))) (f : String → Run (List V)) (q : String)
    (active tolerant : Bool)
    → embed ≡ some f
    → f q ≡ raises transient_provider
    → query_vector active tolerant embed q
      ≡ (if active && not tolerant then raises transient_provider else gives none)
unfolding query_vector degrade
failed-vector embed f q false tolerant e r = rw (e, query_vector) refl
failed-vector embed f q true true e r = rw (e, query_vector, r, degrade) refl
failed-vector embed f q true false e r = rw (e, query_vector, r, degrade) refl

-- Both embedders are configured and fail transiently on the query. In vector mode, and in hybrid mode
-- unless the settings let such a failure degrade the query, the search raises that failure, except
-- for a blank query. In BM25 mode, in hybrid mode where the settings let it, and for a blank query it
-- answers as a search without embedders does.
pub hybrid_search-no_embedders :
    (num : Num) {V : Type 0} (back : Backend num.Score V) (set : Settings num.Score)
    (emb : Embedders V) (mode : RetrievalMode) (q : String) (limit : ℕ)
    (text multimodal : String → Run (List V))
    → emb.embed_text ≡ some text
    → emb.embed_multimodal ≡ some multimodal
    → text q ≡ raises transient_provider
    → multimodal q ≡ raises transient_provider
    → hybrid_search num back set emb mode q limit ≡ (
        if not (all is_space (codes q))
          && (runs_vec mode && not (is_hybrid mode && set.degrade_on_transient))
        then raises transient_provider
        else hybrid_search num back set no_embedders mode q limit)
unfolding hybrid_search query_vector is_hybrid is_vector runs_vec present and_then
hybrid_search-no_embedders num back set emb bm25 q limit text multimodal t m ft fm =
    let no_text = failed-vector emb.embed_text text q false false t ft in
    let no_mm = failed-vector emb.embed_multimodal multimodal q false false m fm in
    elim (Bool-cases (all is_space (codes q))) [
      | inl e ↦ rw (hybrid_search, e) refl
      | inr e ↦ rw (hybrid_search, e, no_text, no_mm) refl
    ]
hybrid_search-no_embedders num back set emb vector q limit text multimodal t m ft fm =
    let no_text = failed-vector emb.embed_text text q true false t ft in
    elim (Bool-cases (all is_space (codes q))) [
      | inl e ↦ rw (hybrid_search, e) refl
      | inr e ↦ rw (hybrid_search, e, m, no_text) refl
    ]
hybrid_search-no_embedders num back set emb hybrid q limit text multimodal t m ft fm =
    let tolerant = set.degrade_on_transient in
    let no_text = failed-vector emb.embed_text text q true tolerant t ft in
    let no_mm = failed-vector emb.embed_multimodal multimodal q true tolerant m fm in
    elim (Bool-cases (all is_space (codes q))) [
      | inl e ↦ rw (hybrid_search, e) refl
      | inr e ↦ elim (Bool-cases tolerant) [
        | inl d ↦ rw (hybrid_search, e, no_text, no_mm, d) refl
        | inr d ↦ rw (hybrid_search, e, no_text, d) refl
      ]
    ]
