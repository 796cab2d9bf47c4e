-- ===== src/Search/Answers.antt =====
-- The hits of `HybridSearcher.search` come from the legs.
use dikw_core.Prelude.{
  ℕ, ◌≤◌, length, String, ◌≡◌, sym, subst, true, ◌&&◌, Option, some, List, [], ◌∷◌, map, arith,
  Option-cases, inl, inr, All, All-map,
}
use dikw_core.Prelude.Sort.{sort, sort-All}
use dikw_core.Search.Scores.{Num, Dict, lookup, mem}
use dikw_core.Search.Fusion.{apply_source_diversity_penalty, scores_before}
use dikw_core.Search.Window.{
  ChunkRecord, Reranked, top, length_mismatch, provider_error, apply_rerank,
}
use dikw_core.Search.Reranking.{Bounded, apply_rerank-Bounded}
use dikw_core.Search.Searcher.{
  RetrievalMode, Run, gives, raises, and_then, Document, Hit, Backend, Settings, is_hybrid,
}
use dikw_core.Search.Query.{Legs, fuse, doc_id_by_chunk}
use dikw_core.Search.Hits.{ranking, hit_of, collect_hits, build_hits, of_reranked, answer}
use dikw_core.Search.LegKeys.{All-has, All-mem, penalty-All, fuse-Known, Known, InLegs}

module _ (num : Num) {V : Type 0} (back : Backend num.Score V) (set : Settings num.Score) where
  open num use {Score}

  -- An answer has at most `limit` hits, and each is of a chunk that some leg has found.
  abbrev pub Grounded : ℕ → Legs num → Run (List (Hit Score)) → Type 0
  Grounded limit legs (gives hits) =
      (length hits ≤ limit) × All (λ (h : Hit Score). InLegs num legs h.chunk_id) hits
  Grounded limit legs (raises e) = Unit

  hit_of-known :
      (chunks : Dict ChunkRecord) (docs : List Document) (snips : Dict String)
      (refs : Dict (List String)) (assets : List String) (cid : ℕ) (score : Score) (h : Hit Score)
      → hit_of num back set chunks docs snips refs assets cid score ≡ some h
      → h.chunk_id ≡ cid
  unfolding hit_of
  hit_of-known chunks docs snips refs assets cid score h e =
      elim (Option-cases (lookup cid chunks)) [
        | inl n ↦ absurd (ground (arith, n, e))
        | inr (c, n) ↦ ground (arith, n, e)
      ]

  collect_hits-Grounded :
      (Q : ℕ → Type 0) (f : ℕ → Score → Option (Hit Score)) (items : List (ℕ × Score))
      → ((cid : ℕ) (s : Score) (h : Hit Score) → f cid s ≡ some h → h.chunk_id ≡ cid)
      → All (λ (e : ℕ × Score). Q e.0) items
      → (length (collect_hits num back set f items) ≤ length items)
        × All (λ (h : Hit Score). Q h.chunk_id) (collect_hits num back set f items)
  unfolding collect_hits
  collect_hits-Grounded Q f [] same a = (omega arith, tt)
  collect_hits-Grounded Q f ((c, s) ∷ items) same a =
      let rest = collect_hits-Grounded Q f items same a.1 in
      elim (Option-cases (f c s)) [
        | inl e ↦ rw (collect_hits, e) (omega (arith, rest.0), rest.1)
        | inr (h, e) ↦
            rw (collect_hits, e) (omega (arith, rest.0), (subst Q (sym (same c s h e)) a.0, rest.1))
      ]

  of_reranked-Grounded :
      (limit : ℕ) (legs : Legs num) (ids : List ℕ) (r : Reranked Score)
      → ((x : ℕ) → mem x ids ≡ true → InLegs num legs x)
      → Bounded limit ids r
      → Grounded limit legs (of_reranked num back set legs r)
  unfolding of_reranked build_hits
  of_reranked-Grounded limit legs ids (top items pre) known b =
      let g =
        collect_hits-Grounded (InLegs num legs) _ items
          (λ cid s h e. hit_of-known _ _ _ _ _ cid s h e)
          (All-map _ (λ (e : ℕ × Score). InLegs num legs e.0) (λ e k. known e.0 k) items b.1) in
      (omega (arith, g.0, b.0), g.1)
  of_reranked-Grounded limit legs ids length_mismatch known b = tt
  of_reranked-Grounded limit legs ids provider_error known b = tt

  -- The keys of the ranking are those of the fusion.
  Ordered : Legs num → Run (List (ℕ × Score)) → Type 0
  Ordered legs (gives ranked) = All (λ (e : ℕ × Score). InLegs num legs e.0) ranked
  Ordered legs (raises e) = Unit

  ranking-Ordered : (legs : Legs num) → Ordered legs (ranking num back set legs)
  unfolding ranking and_then Ordered Known
  ranking-Ordered legs = go (fuse num set legs) (fuse-Known num set legs)
    where
      go :
          (r : Run (Dict Score))
          → Known num legs r
          → Ordered legs (
              and_then r (λ fused. gives (
                sort (scores_before num) (
                  apply_source_diversity_penalty num fused
                    (doc_id_by_chunk num legs)
                    set.same_doc_penalty_alpha))))
      go (raises e) k = tt
      go (gives d) k =
          sort-All (scores_before num) (λ (e : ℕ × Score). InLegs num legs e.0) _
            (penalty-All num (InLegs num legs) d (doc_id_by_chunk num legs)
              set.same_doc_penalty_alpha (All-has (InLegs num legs) d k))

  -- Whatever the storage, the embedders and the reranker reply: an answer has at most `limit`
  -- hits, and each of them is of a chunk that the full-text, the vector, the asset or the graph leg
  -- has found.
  pub answer-Grounded :
      (mode : RetrievalMode) (q : String) (limit : ℕ) (legs : Legs num)
      → Grounded limit legs (answer num back set mode q limit legs)
  unfolding answer and_then Ordered
  answer-Grounded mode q limit legs = go (ranking num back set legs) (ranking-Ordered legs)
    where
      go :
          (r : Run (List (ℕ × Score)))
          → Ordered legs r
          → Grounded limit legs (
              and_then r (λ ranked. of_reranked num back set legs (
                apply_rerank num back.get_chunks back.rerank
                  (set.rerank_active && is_hybrid mode)
                  set.rerank_candidate_k
                  q
                  ranked
                  limit)))
      go (raises e) k = tt
      go (gives ranked) k =
          of_reranked-Grounded limit legs (map (λ e. e.0) ranked) _
            (λ x m. All-mem (InLegs num legs) x ranked k m)
            (apply_rerank-Bounded num back.get_chunks back.rerank limit ranked
              (set.rerank_active && is_hybrid mode) set.rerank_candidate_k q)
