-- ===== src/Search/Keys.antt =====
-- What search.py's fusions hold: the keys of the legs, with the sums that define them.
use dikw_core.Prelude.{
  ℕ, suc, ◌+◌, ◌≡◌, refl, Bool, true, false, ◌&&◌, ◌||◌, not, some, List, [], ◌∷◌, arith, map,
  if◌then◌else◌, length, ◌==◌, ==_iff, any, Bool-cases, Option-cases, inl, inr, ◌∙◌, ap,
}
use dikw_core.Search.Scores.{
  Num, Dict, lookup, get_or, store, has, mem, has-store, lookup-store_self, lookup-store_other,
}
use dikw_core.Search.Fusion.{
  returns, add_ranks, add_lists, reciprocal_rank_fusion, improves, best_scores, lowest, highest,
  rescale, normalise_per_leg, add_leg, add_legs, count_leg, count_legs,
}

module _ (num : Num) where
  open num use {Score, add, div, of_nat, equals}

  -- The sum, from `acc` on, of w / (k + rank + 1) over the ranks at which `x` stands.
  abbrev pub rank_sum : ℕ → Score → ℕ → ℕ → List ℕ → Score → Score
  rank_sum k w x rank [] acc = acc
  rank_sum k w x rank (key ∷ lst) acc =
      rank_sum k w x (suc rank) lst
        (if x == key then add acc (div w (of_nat (k + rank + 1))) else acc)

  abbrev pub rank_sums : ℕ → ℕ → List (List ℕ) → List Score → Score → Score
  rank_sums k x (lst ∷ lists) (w ∷ ws) acc = rank_sums k x lists ws (rank_sum k w x 0 lst acc)
  rank_sums k x _ _ acc = acc

  get_or-store :
      (x key : ℕ) (f : Score → Score) (d : Dict Score)
      → get_or num.zero x (store key (f (get_or num.zero key d)) d)
        ≡ (if x == key then f (get_or num.zero x d) else get_or num.zero x d)
  get_or-store x key f d = elim (Bool-cases (x == key)) [
    | inl e ↦
        let same = (==_iff x key).0 e in
        rw e (rw same (rw (get_or, lookup-store_self key (f (get_or num.zero key d)) d) refl))
    | inr e ↦ rw e (rw (get_or, lookup-store_other x key (f (get_or num.zero key d)) d e) refl)
  ]

  add_ranks-sum :
      (k x : ℕ) (w : Score) (rank : ℕ) (lst : List ℕ) (d : Dict Score)
      → get_or num.zero x (add_ranks num k w rank lst d)
        ≡ rank_sum k w x rank lst (get_or num.zero x d)
  unfolding add_ranks
  add_ranks-sum k x w rank [] d = refl
  add_ranks-sum k x w rank (key ∷ lst) d =
      add_ranks-sum k x w (suc rank) lst
        (store key (add (get_or num.zero key d) (div w (of_nat (k + rank + 1)))) d)
      ∙ ap (rank_sum k w x (suc rank) lst)
          (get_or-store x key (λ s. add s (div w (of_nat (k + rank + 1)))) d)

  has-add_ranks :
      (k x : ℕ) (w : Score) (rank : ℕ) (lst : List ℕ) (d : Dict Score)
      → has x (add_ranks num k w rank lst d) ≡ has x d || mem x lst
  unfolding add_ranks
  has-add_ranks k x w rank [] d = ground arith
  has-add_ranks k x w rank (key ∷ lst) d =
      let d' = store key (add (get_or num.zero key d) (div w (of_nat (k + rank + 1)))) d in
      has-add_ranks k x w (suc rank) lst d'
      ∙ (rw (has-store x key (add (get_or num.zero key d) (div w (of_nat (k + rank + 1)))) d)
          (ground arith))

  add_lists-lem :
      (k x : ℕ) (lists : List (List ℕ)) (ws : List Score) (d : Dict Score)
      → length ws ≡ length lists
      → (has x (add_lists num k lists ws d) ≡ has x d || any (mem x) lists)
        × (get_or num.zero x (add_lists num k lists ws d)
            ≡ rank_sums k x lists ws (get_or num.zero x d))
  unfolding add_lists
  add_lists-lem k x [] [] d h = (ground arith, refl)
  add_lists-lem k x [] (w ∷ ws) d h = absurd (omega (arith, h))
  add_lists-lem k x (lst ∷ lists) [] d h = absurd (omega (arith, h))
  add_lists-lem k x (lst ∷ lists) (w ∷ ws) d h =
      let (keys, sums) =
        add_lists-lem k x lists ws (add_ranks num k w 0 lst d) (omega (arith, h)) in
      (
        keys ∙ (rw (has-add_ranks k x w 0 lst d) (ground arith)),
        sums ∙ ap (rank_sums k x lists ws) (add_ranks-sum k x w 0 lst d),
      )

  -- With as many weights as lists, reciprocal rank fusion returns a dict whose keys are those of the
  -- lists, and the score of a key is the sum of w / (k + rank + 1) over its places in the lists.
  pub reciprocal_rank_fusion-sums :
      (rank_lists : List (List ℕ)) (k : ℕ) (ws : List Score)
      → length ws ≡ length rank_lists
      → (d : Dict Score) × (reciprocal_rank_fusion num rank_lists k (some ws) ≡ returns d)
        × ((x : ℕ) → has x d ≡ any (mem x) rank_lists)
        × ((x : ℕ) → get_or num.zero x d ≡ rank_sums k x rank_lists ws num.zero)
  unfolding reciprocal_rank_fusion
  reciprocal_rank_fusion-sums lists k ws h = (
    add_lists num k lists ws [],
    rw ((==_iff (length ws) (length lists)).1 h) refl,
    λ x. (add_lists-lem k x lists ws [] h).0,
    λ x. (add_lists-lem k x lists ws [] h).1,
  )

  has_of_some : {V : Type 0} (x : ℕ) (v : V) (d : Dict V) → lookup x d ≡ some v → has x d ≡ true
  has_of_some x v [] h = cc
  has_of_some x v ((k, w) ∷ d) h = ground (arith, has_of_some x v d)

  has-best_scores :
      (x : ℕ) (leg : List (ℕ × Score)) (d : Dict Score)
      → has x (best_scores num leg d) ≡ has x d || has x leg
  unfolding best_scores
  has-best_scores x [] d = ground arith
  has-best_scores x ((k, s) ∷ leg) d = elim (Option-cases (lookup k d)) [
    | inl e ↦ rw e (has-best_scores x leg (store k s d) ∙ rw (has-store x k s d) (ground arith))
    | inr (v, e) ↦
        let known = has_of_some k v d e in
        elim (Bool-cases (improves num (some v) s)) [
          | inl b ↦
              rw (e, b)
                (has-best_scores x leg (store k s d) ∙ rw (has-store x k s d) (ground arith))
          | inr b ↦ rw (e, b) (has-best_scores x leg d ∙ already (has x leg) known)
        ]
  ]
    where
      already : (b : Bool) → has k d ≡ true → has x d || b ≡ has x d || (if x == k then true else b)
      already b known = elim (Bool-cases (x == k)) [
        | inl e ↦ rw ((==_iff x k).0 e) (ground (arith, known))
        | inr e ↦ rw e (ground arith)
      ]

  has-map :
      {V W : Type 0} (x : ℕ) (f : V → W) (d : Dict V) → has x (map (λ e. (e.0, f e.1)) d) ≡ has x d
  has-map x f [] = refl
  has-map x f ((k, v) ∷ d) = rw (has-map x f d) refl

  has-choice :
      (x : ℕ) (b : Bool) (f g : Score → Score) (d : Dict Score)
      → has x (if b then map (λ e. (e.0, f e.1)) d else map (λ e. (e.0, g e.1)) d) ≡ has x d
  has-choice x true f g d = has-map x f d
  has-choice x false f g d = has-map x g d

  has-rescale : (x : ℕ) (d : Dict Score) → has x (rescale num d) ≡ has x d
  unfolding rescale
  has-rescale x [] = refl
  has-rescale x ((k, s) ∷ d) =
      let lo = lowest num s d in
      let span = num.sub (highest num s d) lo in
      has-choice x (equals span num.zero) (λ e. num.one) (λ e. div (num.sub e lo) span) ((k, s) ∷ d)

  has-normalise_per_leg :
      (x : ℕ) (leg : List (ℕ × Score)) → has x (normalise_per_leg num leg) ≡ has x leg
  unfolding normalise_per_leg
  has-normalise_per_leg x leg = has-rescale x (best_scores num leg []) ∙ has-best_scores x leg []

  has-add_leg :
      (x : ℕ) (w : Score) (leg d : Dict Score) → has x (add_leg num w leg d) ≡ has x d || has x leg
  unfolding add_leg
  has-add_leg x w [] d = ground arith
  has-add_leg x w ((k, s) ∷ leg) d =
      let v = add (get_or num.zero k d) (num.mul w s) in
      has-add_leg x w leg (store k v d) ∙ rw (has-store x k v d) (ground arith)

  pub has-add_legs :
      (x : ℕ) (legs : List (List (ℕ × Score))) (ws : List Score) (d : Dict Score)
      → length ws ≡ length legs
      → has x (add_legs num legs ws d) ≡ has x d || any (has x) legs
  unfolding add_legs
  has-add_legs x [] ws d h = ground arith
  has-add_legs x (leg ∷ legs) [] d h = absurd (omega (arith, h))
  has-add_legs x (leg ∷ legs) (w ∷ ws) d h =
      has-add_legs x legs ws (add_leg num w (normalise_per_leg num leg) d) (omega (arith, h))
      ∙ rw (has-add_leg x w (normalise_per_leg num leg) d)
          (rw (has-normalise_per_leg x leg) (ground arith))

  has-count_leg :
      (x : ℕ) (leg : Dict Score) (c : Dict ℕ) → has x (count_leg num leg c) ≡ has x c || has x leg
  unfolding count_leg
  has-count_leg x [] c = ground arith
  has-count_leg x ((k, s) ∷ leg) c =
      has-count_leg x leg (store k (get_or 0 k c + 1) c)
      ∙ rw (has-store x k (get_or 0 k c + 1) c) (ground arith)

  -- Whether a leg with a weight other than 0 holds `x`.
  abbrev pub weighted : ℕ → List (List (ℕ × Score)) → List Score → Bool
  weighted x (leg ∷ legs) (w ∷ ws) = (not (equals w num.zero) && has x leg) || weighted x legs ws
  weighted x _ _ = false

  pub has-count_legs :
      (x : ℕ) (legs : List (List (ℕ × Score))) (ws : List Score) (c : Dict ℕ)
      → has x (count_legs num legs ws c) ≡ has x c || weighted x legs ws
  unfolding count_legs
  has-count_legs x [] [] c = ground arith
  has-count_legs x [] (w ∷ ws) c = ground arith
  has-count_legs x (leg ∷ legs) [] c = ground arith
  has-count_legs x (leg ∷ legs) (w ∷ ws) c = elim (Bool-cases (equals w num.zero)) [
    | inl e ↦ rw e (has-count_legs x legs ws c)
    | inr e ↦ rw e (
        has-count_legs x legs ws (count_leg num (normalise_per_leg num leg) c)
        ∙ rw (has-count_leg x (normalise_per_leg num leg) c)
            (rw (has-normalise_per_leg x leg) (ground arith)))
  ]
