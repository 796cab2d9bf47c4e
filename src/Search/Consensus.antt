-- ===== src/Search/Consensus.antt =====
-- CombSUM and CombMNZ of search.py: the keys of their results, and when CombMNZ fails.
use dikw_core.Prelude.{
  not, ◌||◌, ℕ, ◌≡◌, refl, true, false, none, some, List, [], ◌∷◌, arith, length, ◌==◌, ==_iff, any,
  Bool-cases, Option-cases, inl, inr, ◌⊎◌, ◌∙◌, sym,
}
use dikw_core.Search.Scores.{Num, Dict, lookup, has}
use dikw_core.Search.Fusion.{
  Outcome, returns, key_error, add_legs, comb_sum_fusion, count_legs, multiply, comb_mnz_fusion,
}
use dikw_core.Search.Keys.{weighted, has-add_legs, has-count_legs}

module _ (num : Num) where
  open num use {Score, mul, of_nat}

  -- With as many weights as legs, CombSUM returns a dict whose keys are those of the legs.
  pub comb_sum_fusion-keys :
      (legs : List (List (ℕ × Score))) (ws : List Score)
      → length ws ≡ length legs
      → (d : Dict Score) × (comb_sum_fusion num legs (some ws) ≡ returns d)
        × ((x : ℕ) → has x d ≡ any (has x) legs)
  unfolding comb_sum_fusion
  comb_sum_fusion-keys legs ws h = (
    add_legs num legs ws [],
    rw ((==_iff (length ws) (length legs)).1 h) refl,
    λ x. has-add_legs num x legs ws [] h,
  )

  has_of_lookup : {V : Type 0} (x : ℕ) (d : Dict V) → lookup x d ≡ none → has x d ≡ false
  has_of_lookup x [] h = refl
  has_of_lookup x ((k, w) ∷ d) h = ground (arith, has_of_lookup x d)

  lookup_of_has : {V : Type 0} (x : ℕ) (v : V) (d : Dict V) → lookup x d ≡ some v → has x d ≡ true
  lookup_of_has x v [] h = cc
  lookup_of_has x v ((k, w) ∷ d) h = ground (arith, lookup_of_has x v d)

  -- What `multiply` does: every key is counted, or it fails on one that is not.
  abbrev Multiplied : Dict ℕ → Dict Score → Outcome (Dict Score) → Type 0
  Multiplied counts fused out =
      ((d : Dict Score) × (out ≡ returns d)
        × ((x : ℕ) → has x d ≡ has x fused)
        × ((x : ℕ) → has x fused ≡ true → has x counts ≡ true))
      ⊎ ((j : ℕ) × (out ≡ key_error j) × (has j fused ≡ true) × (has j counts ≡ false))

  multiply-Multiplied :
      (counts : Dict ℕ) (fused : Dict Score) → Multiplied counts fused (multiply num counts fused)
  unfolding multiply
  multiply-Multiplied counts [] = inl ([], refl, λ x. refl, λ x h. cc)
  multiply-Multiplied counts ((k, s) ∷ fused) = elim (Option-cases (lookup k counts)) [
    | inl e ↦ inr (k, rw (multiply, e) refl, ground arith, has_of_lookup k counts e)
    | inr (n, e) ↦ elim (multiply-Multiplied counts fused) [
      | inl (d, out, same, counted) ↦ inl (
        (k, mul s (of_nat n)) ∷ d,
        rw (multiply, e, out) refl,
        λ x. ground (arith, same x),
        λ x h. elim (Bool-cases (x == k)) [
          | inl q ↦ rw ((==_iff x k).0 q) (lookup_of_has k n counts e)
          | inr q ↦ counted x (ground (arith, q, h))
        ],
      )
      | inr (j, out, known, missing) ↦
          inr (j, rw (multiply, e, out) refl, ground (arith, known), missing)
    ]
  ]

  -- With as many weights as legs, CombMNZ returns a dict with the keys of all legs, and then each of
  -- them is in a leg whose weight is not 0; or it raises a KeyError on a key that is in a leg, but
  -- in none whose weight is not 0.
  pub comb_mnz_fusion-outcome :
      (legs : List (List (ℕ × Score))) (ws : List Score)
      → length ws ≡ length legs
      → ((d : Dict Score) × (comb_mnz_fusion num legs (some ws) ≡ returns d)
          × ((x : ℕ) → has x d ≡ any (has x) legs)
          × ((x : ℕ) → not (any (has x) legs) || weighted num x legs ws ≡ true))
        ⊎ ((j : ℕ) × (comb_mnz_fusion num legs (some ws) ≡ key_error j)
            × (any (has j) legs ≡ true)
            × (weighted num j legs ws ≡ false))
  unfolding comb_mnz_fusion comb_sum_fusion
  comb_mnz_fusion-outcome legs ws h =
      let keys : (x : ℕ) → has x (add_legs num legs ws []) ≡ any (has x) legs =
        λ x. has-add_legs num x legs ws [] h in
      let counts : (x : ℕ) → has x (count_legs num legs ws []) ≡ weighted num x legs ws =
        λ x. has-count_legs num x legs ws [] in
      let even = (==_iff (length ws) (length legs)).1 h in
      elim (multiply-Multiplied (count_legs num legs ws []) (add_legs num legs ws [])) [
        | inl (d, out, same, counted) ↦ inl (
          d,
          rw (comb_mnz_fusion, comb_sum_fusion, even) out,
          λ x. same x ∙ keys x,
          λ x. ground (arith, counted x, keys x, counts x),
        )
        | inr (j, out, known, missing) ↦ inr (
          j,
          rw (comb_mnz_fusion, comb_sum_fusion, even) out,
          sym (keys j) ∙ known,
          sym (counts j) ∙ missing,
        )
      ]
