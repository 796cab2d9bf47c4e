-- ===== src/Search/Tests.antt =====
-- Concrete legs, on which the theorems on search.py are applied; the scores are natural numbers.
use dikw_core.Prelude.{
  ℕ, ◌+◌, ◌-◌, ◌*◌, ◌/◌, ◌≤◌, String, ◌≡◌, ◌⊎◌, ◌||◌, not, refl, true, false, ltb, ◌==◌, some, List,
  [], ◌∷◌, map, any, all, leb, length,
}
use mathlib.Core.List.{Perm}
use dikw_core.Prelude.Sort.{sort}
use dikw_core.Search.Scores.{Num, Dict, get_or, has, mem}
use dikw_core.Search.Fusion.{
  returns, key_error, reciprocal_rank_fusion, comb_mnz_fusion, scores_before,
  apply_source_diversity_penalty,
}
use dikw_core.Search.Keys.{rank_sums, reciprocal_rank_fusion-sums, weighted}
use dikw_core.Search.Consensus.{comb_mnz_fusion-outcome}
use dikw_core.Search.Diversity.{factored_all, apply_source_diversity_penalty-factored}
use dikw_core.Search.Window.{ChunkRecord, Reply, scores, graph_seeds}
use dikw_core.Search.Seeds.{Distinct, graph_seeds-Distinct}

abbrev pub whole : Num
whole = record {
  Score = ℕ;
  zero = 0;
  one = 1;
  add = λ a b. a + b;
  sub = λ a b. a - b;
  mul = λ a b. a * b;
  div = λ a b. a / b;
  of_nat = λ n. n;
  exceeds = λ a b. ltb b a;
  equals = λ a b. a == b;
}

abbrev ranks : List (List ℕ)
ranks = (7 ∷ 8 ∷ []) ∷ (8 ∷ []) ∷ []

abbrev legs : List (List (ℕ × ℕ))
legs = ((7, 5) ∷ (8, 3) ∷ []) ∷ ((8, 2) ∷ []) ∷ []

abbrev docs : Dict String
docs = (7, "a") ∷ (8, "a") ∷ []

reciprocal_rank_fusion-sums_example :
    (d : Dict ℕ) × (reciprocal_rank_fusion whole ranks 0 (some (6 ∷ 6 ∷ [])) ≡ returns d)
    × ((x : ℕ) → has x d ≡ any (mem x) ranks)
    × ((x : ℕ) → get_or 0 x d ≡ rank_sums whole 0 x ranks (6 ∷ 6 ∷ []) 0)
reciprocal_rank_fusion-sums_example = reciprocal_rank_fusion-sums whole ranks 0 (6 ∷ 6 ∷ []) refl

fused_ranks :
    reciprocal_rank_fusion whole ranks 0 (some (6 ∷ 6 ∷ [])) ≡ returns ((7, 6) ∷ (8, 9) ∷ [])
unfolding reciprocal_rank_fusion
fused_ranks = refl

-- A key that only a leg of weight 0 holds.
weightless_key : comb_mnz_fusion whole legs (some (0 ∷ 1 ∷ [])) ≡ key_error 7
unfolding comb_mnz_fusion
weightless_key = refl

comb_mnz_fusion-outcome_example :
    ((d : Dict ℕ) × (comb_mnz_fusion whole legs (some (1 ∷ 1 ∷ [])) ≡ returns d)
      × ((x : ℕ) → has x d ≡ any (has x) legs)
      × ((x : ℕ) → not (any (has x) legs) || weighted whole x legs (1 ∷ 1 ∷ []) ≡ true))
    ⊎ ((j : ℕ) × (comb_mnz_fusion whole legs (some (1 ∷ 1 ∷ [])) ≡ key_error j)
        × (any (has j) legs ≡ true)
        × (weighted whole j legs (1 ∷ 1 ∷ []) ≡ false))
comb_mnz_fusion-outcome_example = comb_mnz_fusion-outcome whole legs (1 ∷ 1 ∷ []) refl

apply_source_diversity_penalty-factored_example :
    (apply_source_diversity_penalty whole ((7, 4) ∷ (8, 9) ∷ []) docs 1
      ≡ factored_all whole docs 1 [] (sort (scores_before whole) ((7, 4) ∷ (8, 9) ∷ [])))
    × Perm
        (map (λ e. e.0) (apply_source_diversity_penalty whole ((7, 4) ∷ (8, 9) ∷ []) docs 1))
        (map (λ (e : ℕ × ℕ). e.0) ((7, 4) ∷ (8, 9) ∷ []))
apply_source_diversity_penalty-factored_example =
    apply_source_diversity_penalty-factored whole docs ((7, 4) ∷ (8, 9) ∷ []) 1 refl

demoted : apply_source_diversity_penalty whole ((7, 4) ∷ (8, 9) ∷ []) docs 1 ≡ (8, 9) ∷ (7, 2) ∷ []
unfolding apply_source_diversity_penalty
demoted = refl

abbrev chunks : List ℕ → List ChunkRecord
chunks ids = map (λ i. record { chunk_id = some i; doc_id = "a"; seq = i; text = "t" }) ids

abbrev by_place : String → List String → Reply ℕ
by_place q texts = scores (1 ∷ 2 ∷ [])

abbrev hits : Dict ℕ
hits = (7, 9) ∷ (8, 4) ∷ []

graph_seeds-Distinct_example :
    Distinct (graph_seeds 2 (7 ∷ 8 ∷ []) (7 ∷ 9 ∷ []))
    × (length (graph_seeds 2 (7 ∷ 8 ∷ []) (7 ∷ 9 ∷ [])) ≤ 2)
    × (all (leb 7) (graph_seeds 2 (7 ∷ 8 ∷ []) (7 ∷ 9 ∷ [])) ≡ true)
graph_seeds-Distinct_example = graph_seeds-Distinct 2 (leb 7) (7 ∷ 8 ∷ []) (7 ∷ 9 ∷ []) refl refl
