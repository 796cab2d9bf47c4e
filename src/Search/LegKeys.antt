-- ===== src/Search/LegKeys.antt =====
-- The keys of the fused legs in `HybridSearcher.search` are chunks that some leg has found.
use dikw_core.Prelude.{
  ℕ, length, String, ◌≡◌, refl, sym, subst, ◌∙◌, true, List, [], ◌∷◌, any, map, arith, Bool-cases,
  Option-cases, inl, inr, All, ==_iff, ◌==◌,
}
use dikw_core.Prelude.Sort.{sort, sort-All}
use dikw_core.Search.Scores.{Num, Dict, lookup, has, mem}
use dikw_core.Search.Fusion.{apply_source_diversity_penalty, scores_before, demote, note_seen}
use dikw_core.Search.Keys.{reciprocal_rank_fusion-sums}
use dikw_core.Search.Consensus.{comb_sum_fusion-keys, comb_mnz_fusion-outcome}
use dikw_core.Search.Searcher.{
  rrf, combsum, combmnz, unknown_fusion, Run, gives, raises, FtsHit, VecHit, ChunkNeighbor,
  Settings, FusionMode,
}
use dikw_core.Search.Query.{
  Promoted, fts_ids, fts_scored, asset_scored, negated, Legs, with_graph, of_outcome, scored_lists,
  ranked_lists, fuse, fuse_by,
}

pub All-has :
    {S : Type 0} (Q : ℕ → Type 0) (d : Dict S)
    → ((x : ℕ) → has x d ≡ true → Q x)
    → All (λ (e : ℕ × S). Q e.0) d
All-has Q [] h = tt
All-has Q (e ∷ d) h = (h e.0 (ground arith), All-has Q d (λ x k. h x (ground (arith, k))))

pub All-mem :
    {S : Type 0} (Q : ℕ → Type 0) (x : ℕ) (l : List (ℕ × S))
    → All (λ (e : ℕ × S). Q e.0) l
    → mem x (map (λ e. e.0) l) ≡ true
    → Q x
All-mem Q x [] a h = cc
All-mem Q x (e ∷ l) a h = elim (Bool-cases (x == e.0)) [
  | inl k ↦ subst Q (sym ((==_iff x e.0).0 k)) a.0
  | inr k ↦ All-mem Q x l a.1 (ground (arith, k, h))
]

has-map :
    {A S : Type 0} (f : A → ℕ) (g : A → S) (x : ℕ) (l : List A)
    → has x (map (λ a. (f a, g a)) l) ≡ mem x (map f l)
has-map f g x [] = refl
has-map f g x (a ∷ l) = ground (arith, has-map f g x l)

module _ (num : Num) where
  open num use {Score}

  has-fts_scored :
      (x : ℕ) (hs : List (FtsHit Score)) → has x (fts_scored num hs) ≡ mem x (fts_ids num hs)
  unfolding fts_scored fts_ids
  has-fts_scored x [] = refl
  has-fts_scored x (h ∷ hs) = elim (Option-cases h.chunk_id) [
    | inl e ↦ rw (fts_scored, fts_ids, e) (has-fts_scored x hs)
    | inr (c, e) ↦ rw (fts_scored, fts_ids, e) (ground (arith, has-fts_scored x hs))
  ]

  has-asset_scored :
      (x : ℕ) (dists : Dict Score) (ids : List ℕ)
      → has x (asset_scored num dists ids) ≡ true
      → mem x ids ≡ true
  unfolding asset_scored
  has-asset_scored x dists [] h = h
  has-asset_scored x dists (i ∷ ids) h = elim (Option-cases (lookup i dists)) [
    | inl e ↦
        let q : asset_scored num dists (i ∷ ids) ≡ asset_scored num dists ids =
          rw (asset_scored, e) refl in
        let k = subst (λ l. has x l ≡ true) q h in ground (arith, has-asset_scored x dists ids k)
    | inr (d, e) ↦
        let q : asset_scored num dists (i ∷ ids) ≡ (i, negated num d) ∷ asset_scored num dists ids =
          rw (asset_scored, e) refl in
        let k = subst (λ l. has x l ≡ true) q h in ground (arith, k, has-asset_scored x dists ids)
  ]

  demote-All :
      (Q : ℕ → Type 0) (alpha : Score) (docs : Dict String) (counts : List (String × ℕ))
      (d : Dict Score)
      → All (λ (e : ℕ × Score). Q e.0) d
      → All (λ (e : ℕ × Score). Q e.0) (demote num alpha docs counts d)
  unfolding demote
  demote-All Q alpha docs counts [] h = tt
  demote-All Q alpha docs counts ((c, s) ∷ rest) h = elim (Option-cases (lookup c docs)) [
    | inl e ↦ rw (demote, e) (h.0, demote-All Q alpha docs counts rest h.1)
    | inr (doc, e) ↦
        rw (demote, e) (h.0, demote-All Q alpha docs (note_seen num doc counts) rest h.1)
  ]

  pub penalty-All :
      (Q : ℕ → Type 0) (fused : Dict Score) (docs : Dict String) (alpha : Score)
      → All (λ (e : ℕ × Score). Q e.0) fused
      → All (λ (e : ℕ × Score). Q e.0) (apply_source_diversity_penalty num fused docs alpha)
  unfolding apply_source_diversity_penalty
  penalty-All Q fused docs alpha h = elim (Bool-cases (num.equals alpha num.zero)) [
    | inl e ↦ rw (apply_source_diversity_penalty, e) h
    | inr e ↦
        rw (apply_source_diversity_penalty, e)
          (demote-All Q alpha docs [] (sort (scores_before num) fused)
            (sort-All (scores_before num) (λ (e : ℕ × Score). Q e.0) fused h))
  ]

  -- A chunk that some leg has found
  abbrev pub InLegs : Legs num → ℕ → Type 0
  InLegs legs x = any (mem x) (ranked_lists num legs) ≡ true

  with_graph-known :
      (x : ℕ) (fs : List (FtsHit Score)) (vs : List (VecHit Score)) (p : Promoted num)
      (ns : List ChunkNeighbor)
      → any (has x) (
          with_graph num ns
            (fts_scored num fs
              ∷ map (λ h. (h.chunk_id, negated num h.distance)) vs
              ∷ asset_scored num p.dists p.ranked
              ∷ [])
            (map (λ n. (n.chunk_id, num.of_nat n.edge_count)) ns))
        ≡ true
      → any (mem x) (
          with_graph num ns
            (fts_ids num fs ∷ map (λ h. h.chunk_id) vs ∷ p.ranked ∷ [])
            (map (λ n. n.chunk_id) ns))
        ≡ true
  with_graph-known x fs vs p [] h =
      let f = has-fts_scored x fs in
      let v = has-map (λ (h : VecHit Score). h.chunk_id) (λ h. negated num h.distance) x vs in
      let a = has-asset_scored x p.dists p.ranked in ground (arith, h, f, v, a)
  with_graph-known x fs vs p (n ∷ ns) h =
      let f = has-fts_scored x fs in
      let v = has-map (λ (h : VecHit Score). h.chunk_id) (λ h. negated num h.distance) x vs in
      let a = has-asset_scored x p.dists p.ranked in
      let g =
        has-map (λ (m : ChunkNeighbor). m.chunk_id) (λ m. num.of_nat m.edge_count) x (n ∷ ns) in
      ground (arith, h, f, v, a, g)

  scored-InLegs :
      (legs : Legs num) (x : ℕ) → any (has x) (scored_lists num legs) ≡ true → InLegs legs x
  unfolding scored_lists ranked_lists
  scored-InLegs legs x h = with_graph-known x legs.fts legs.vec legs.assets legs.graph h

  unfoldable pub Known : Legs num → Run (Dict Score) → Type 0
  Known legs (gives d) = (x : ℕ) → has x d ≡ true → InLegs legs x
  Known legs (raises e) = Unit

  abbrev weights_of : Settings Score → Legs num → List Score
  weights_of set legs =
      with_graph num legs.graph (set.bm25_weight ∷ set.vector_weight ∷ set.vector_weight ∷ [])
        set.graph_weight

  with_graph-length :
      {A B : Type 0} (ns : List ChunkNeighbor) (a b c d : A) (e f g h : B)
      → length (with_graph num ns (a ∷ b ∷ c ∷ []) d)
        ≡ length (with_graph num ns (e ∷ f ∷ g ∷ []) h)
  with_graph-length [] a b c d e f g h = refl
  with_graph-length (n ∷ ns) a b c d e f g h = refl

  fuse_by-Known :
      (m : FusionMode) (k : ℕ) (ws : List Score) (legs : Legs num)
      → length ws ≡ length (ranked_lists num legs)
      → length ws ≡ length (scored_lists num legs)
      → Known legs (fuse_by num m k ws (ranked_lists num legs) (scored_lists num legs))
  unfolding fuse_by of_outcome Known
  fuse_by-Known rrf k ws legs lr ls =
      let (d, e, keys, sums) = reciprocal_rank_fusion-sums num (ranked_lists num legs) k ws lr in
      rw e (λ x h. sym (keys x) ∙ h)
  fuse_by-Known combsum k ws legs lr ls =
      let (d, e, keys) = comb_sum_fusion-keys num (scored_lists num legs) ws ls in
      rw e (λ x h. scored-InLegs legs x (sym (keys x) ∙ h))
  fuse_by-Known combmnz k ws legs lr ls =
      elim (comb_mnz_fusion-outcome num (scored_lists num legs) ws ls) [
        | inl (d, e, keys, counted) ↦ rw e (λ x h. scored-InLegs legs x (sym (keys x) ∙ h))
        | inr (j, e, there, weightless) ↦ rw e tt
      ]
  fuse_by-Known unknown_fusion k ws legs lr ls = tt

  pub fuse-Known : (set : Settings Score) (legs : Legs num) → Known legs (fuse num set legs)
  unfolding fuse scored_lists ranked_lists
  fuse-Known set legs =
      fuse_by-Known set.fusion set.rrf_k (weights_of set legs) legs
        (with_graph-length legs.graph _ _ _ _ _ _ _ _)
        (with_graph-length legs.graph _ _ _ _ _ _ _ _)
