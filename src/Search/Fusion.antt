-- ===== src/Search/Fusion.antt =====
-- The fusion of ranked lists in search.py: reciprocal rank fusion, CombSUM, CombMNZ and the
-- source-diversity penalty. A raised `ValueError` or `KeyError` is a result.
use dikw_core.Prelude.{
  ℕ, suc, ◌+◌, String, Bool, true, Option, none, some, List, [], ◌∷◌, map, str_eq, if◌then◌else◌,
  length, ◌==◌,
}
use dikw_core.Prelude.Sort.{sort}
use dikw_core.Search.Scores.{Num, Dict, lookup, get_or, store}

pub data Outcome (A : Type 0) : Type 0 where
  returns : A → Outcome A
  value_error : Outcome A
  key_error : ℕ → Outcome A

-- `[1.0] * n`
abbrev pub ones : (num : Num) → ℕ → List num.Score
ones num ℕ.zero = []
ones num (suc n) = num.one ∷ ones num n

-- `weights if weights is not None else [1.0] * n`
abbrev pub weights_or : (num : Num) → Option (List num.Score) → ℕ → List num.Score
weights_or num none n = ones num n
weights_or num (some ws) n = ws

module _ (num : Num) where
  open num use {Score, add, sub, mul, div, of_nat, exceeds, equals}

  -- The inner loop of `reciprocal_rank_fusion`, from `rank` on.
  unfoldable pub add_ranks : ℕ → Score → ℕ → List ℕ → Dict Score → Dict Score
  add_ranks k w rank [] scores = scores
  add_ranks k w rank (key ∷ lst) scores =
      add_ranks k w (suc rank) lst
        (store key (add (get_or num.zero key scores) (div w (of_nat (k + rank + 1)))) scores)

  unfoldable pub add_lists : ℕ → List (List ℕ) → List Score → Dict Score → Dict Score
  unfolding add_ranks
  add_lists k (lst ∷ lists) (w ∷ ws) scores = add_lists k lists ws (add_ranks k w 0 lst scores)
  add_lists k _ _ scores = scores

  unfoldable pub reciprocal_rank_fusion :
      List (List ℕ) → ℕ → Option (List Score) → Outcome (Dict Score)
  unfolding add_lists
  reciprocal_rank_fusion rank_lists k weights =
      let ws = weights_or num weights (length rank_lists) in
      if length ws == length rank_lists then returns (add_lists k rank_lists ws []) else value_error

  -- `prev is None or score > prev`
  abbrev pub improves : Option Score → Score → Bool
  improves none score = true
  improves (some prev) score = exceeds score prev

  unfoldable pub best_scores : List (ℕ × Score) → Dict Score → Dict Score
  best_scores [] best = best
  best_scores ((key, score) ∷ scored) best =
      best_scores scored (if improves (lookup key best) score then store key score best else best)

  -- `min(best.values())` and `max(best.values())`; the first of equal values wins.
  unfoldable pub lowest : Score → Dict Score → Score
  lowest lo [] = lo
  lowest lo ((k, s) ∷ d) = lowest (if exceeds lo s then s else lo) d

  unfoldable pub highest : Score → Dict Score → Score
  highest hi [] = hi
  highest hi ((k, s) ∷ d) = highest (if exceeds s hi then s else hi) d

  unfoldable pub rescale : Dict Score → Dict Score
  unfolding lowest highest
  rescale [] = []
  rescale ((k, s) ∷ d) =
      let lo = lowest s d in
      let span = sub (highest s d) lo in
      if equals span num.zero
      then map (λ e. (e.0, num.one)) ((k, s) ∷ d)
      else map (λ e. (e.0, div (sub e.1 lo) span)) ((k, s) ∷ d)

  unfoldable pub normalise_per_leg : List (ℕ × Score) → Dict Score
  unfolding best_scores rescale
  normalise_per_leg scored = rescale (best_scores scored [])

  unfoldable pub add_leg : Score → Dict Score → Dict Score → Dict Score
  add_leg w [] fused = fused
  add_leg w ((key, score) ∷ leg) fused =
      add_leg w leg (store key (add (get_or num.zero key fused) (mul w score)) fused)

  unfoldable pub add_legs : List (List (ℕ × Score)) → List Score → Dict Score → Dict Score
  unfolding add_leg normalise_per_leg
  add_legs (leg ∷ legs) (w ∷ ws) fused = add_legs legs ws (add_leg w (normalise_per_leg leg) fused)
  add_legs _ _ fused = fused

  unfoldable pub comb_sum_fusion :
      List (List (ℕ × Score)) → Option (List Score) → Outcome (Dict Score)
  unfolding add_legs
  comb_sum_fusion scored_lists weights =
      let ws = weights_or num weights (length scored_lists) in
      if length ws == length scored_lists
      then returns (add_legs scored_lists ws [])
      else value_error

  unfoldable pub count_leg : Dict Score → Dict ℕ → Dict ℕ
  count_leg [] counts = counts
  count_leg ((key, s) ∷ leg) counts = count_leg leg (store key (get_or 0 key counts + 1) counts)

  -- `if w == 0.0: continue`
  unfoldable pub count_legs : List (List (ℕ × Score)) → List Score → Dict ℕ → Dict ℕ
  unfolding count_leg normalise_per_leg
  count_legs (leg ∷ legs) (w ∷ ws) counts =
      count_legs legs ws
        (if equals w num.zero then counts else count_leg (normalise_per_leg leg) counts)
  count_legs _ _ counts = counts

  -- `{k: s * leg_count[k] for k, s in fused.items()}`
  unfoldable pub multiply : Dict ℕ → Dict Score → Outcome (Dict Score)
  multiply counts [] = returns []
  multiply counts ((k, s) ∷ fused) = elim (lookup k counts) [
    | none ↦ key_error k
    | some n ↦ elim (multiply counts fused) [
      | returns d ↦ returns ((k, mul s (of_nat n)) ∷ d)
      | value_error ↦ value_error
      | key_error j ↦ key_error j
    ]
  ]

  unfoldable pub comb_mnz_fusion :
      List (List (ℕ × Score)) → Option (List Score) → Outcome (Dict Score)
  unfolding comb_sum_fusion count_legs multiply
  comb_mnz_fusion scored_lists weights = elim (comb_sum_fusion scored_lists weights) [
    | returns fused ↦
        multiply (count_legs scored_lists (weights_or num weights (length scored_lists)) []) fused
    | value_error ↦ value_error
    | key_error j ↦ key_error j
  ]

  -- `per_doc_seen.get(doc_id, 0)` and its increment
  abbrev pub seen : String → List (String × ℕ) → ℕ
  seen doc [] = 0
  seen doc ((d, n) ∷ ds) = if str_eq doc d then n else seen doc ds

  abbrev pub note_seen : String → List (String × ℕ) → List (String × ℕ)
  note_seen doc [] = (doc, 1) ∷ []
  note_seen doc ((d, n) ∷ ds) = if str_eq doc d then (d, n + 1) ∷ ds else (d, n) ∷ note_seen doc ds

  unfoldable pub demote : Score → Dict String → List (String × ℕ) → Dict Score → Dict Score
  demote alpha docs counts [] = []
  demote alpha docs counts ((chunk_id, score) ∷ rest) = elim (lookup chunk_id docs) [
    | none ↦ (chunk_id, score) ∷ demote alpha docs counts rest
    | some doc ↦
        (chunk_id, div score (add num.one (mul alpha (of_nat (seen doc counts)))))
        ∷ demote alpha docs (note_seen doc counts) rest
  ]

  -- `sorted(items, key=lambda kv: kv[1], reverse=True)` is stable.
  abbrev pub scores_before : ℕ × Score → ℕ × Score → Bool
  scores_before a b = exceeds a.1 b.1

  unfoldable pub apply_source_diversity_penalty : Dict Score → Dict String → Score → Dict Score
  unfolding demote sort
  apply_source_diversity_penalty fused docs alpha =
      if equals alpha num.zero then fused else demote alpha docs [] (sort scores_before fused)
