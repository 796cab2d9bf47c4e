-- ===== src/Search/Reranking.antt =====
-- What `_apply_rerank` of search.py returns.
use Prim.Native.Nat.{max}
use dikw_core.Prelude.{
  ℕ, ◌≤◌, String, ◌≡◌, Bool, true, false, not, Option, none, some, List, [], ◌∷◌, arith, length,
  any, map, select, take, length-take, Bool-cases, Option-cases, inl, inr, All, All-map, All-select,
  All-take, subst,
}
use dikw_core.Prelude.Sort.{sort, sort-All}
use dikw_core.Search.Scores.{Num, Dict, has, mem}
use dikw_core.Search.Fusion.{scores_before}
use dikw_core.Search.Window.{
  ChunkRecord, Reply, scores, transient_error, permanent_error, Reranked, top, length_mismatch,
  provider_error, by_id, texts, zip_strict, apply_rerank,
}

-- Every item is one whose id stands in `ids`.
abbrev pub Within : {S : Type 0} → List ℕ → List (ℕ × S) → Type 0
Within ids items = All (λ e. mem e.0 ids ≡ true) items

zip-Within :
    {S : Type 0} (P : ℕ → Type 0) (ids : List ℕ) (ss : List S) (l : List (ℕ × S))
    → All P ids
    → zip_strict ids ss ≡ some l
    → All (λ (e : ℕ × S). P e.0) l
unfolding zip_strict
zip-Within P [] [] [] a h = tt
zip-Within P [] [] (x ∷ l) a h = cc
zip-Within P [] (s ∷ ss) l a h = cc
zip-Within P (i ∷ ids) [] l a h = cc
zip-Within {S} P (i ∷ ids) (s ∷ ss) l a h = elim (Option-cases (zip_strict ids ss)) [
  | inl e ↦ cc
  | inr (m, e) ↦
      let same : (i, s) ∷ m ≡ l = ground (arith, e, h) in
      subst (λ k. All (λ (e : ℕ × S). P e.0) k) same (a.0, zip-Within P ids ss m a.1 e)
]

self-Within : {S : Type 0} (items : List (ℕ × S)) → Within (map (λ e. e.0) items) items
self-Within [] = tt
self-Within (e ∷ items) = (
  ground arith,
  All-map (λ f. mem f.0 (map (λ g. g.0) items) ≡ true) _ (λ f h. ground (arith, h)) items
      (self-Within items),
)

All-ids :
    {S : Type 0} (P : ℕ → Type 0) (items : List (ℕ × S))
    → All (λ e. P e.0) items
    → All P (map (λ e. e.0) items)
All-ids P [] h = tt
All-ids P (e ∷ items) h = (h.0, All-ids P items h.1)

-- The outcome is a list of at most `limit` items with ids from `ids`, or an error.
abbrev pub Bounded : {S : Type 0} → ℕ → List ℕ → Reranked S → Type 0
Bounded limit ids (top out pre) = (length out ≤ limit) × Within ids out
Bounded limit ids length_mismatch = Unit
Bounded limit ids provider_error = Unit

module _ (num : Num) (get_chunks : List ℕ → List ChunkRecord)
    (rerank : String → List String → Reply num.Score) (limit : ℕ)
    (ranked : List (ℕ × num.Score)) where
  abbrev ids : List ℕ
  ids = map (λ e. e.0) ranked

  take-Bounded : Bounded limit ids (top (take limit ranked) none)
  take-Bounded = (
    omega (arith, length-take limit ranked),
    All-take (λ (e : ℕ × num.Score). mem e.0 ids ≡ true) limit ranked (self-Within ranked),
  )

  scored-Bounded :
      (n : ℕ) (p : ℕ → Bool) (ss : List num.Score) (l : List (ℕ × num.Score))
      (pre : Option (Dict ChunkRecord))
      → zip_strict (select p (map (λ e. e.0) (take n ranked))) ss ≡ some l
      → Bounded limit ids (top (take limit (sort (scores_before num) l)) pre)
  scored-Bounded n p ss l pre h =
      let known : All (λ i. mem i ids ≡ true) (map (λ e. e.0) (take n ranked)) =
        All-ids (λ i. mem i ids ≡ true) (take n ranked)
          (All-take (λ (e : ℕ × num.Score). mem e.0 ids ≡ true) n ranked (self-Within ranked)) in
      (
        omega (arith, length-take limit (sort (scores_before num) l)),
        All-take (λ (e : ℕ × num.Score). mem e.0 ids ≡ true) limit _
            (sort-All (scores_before num) (λ (e : ℕ × num.Score). mem e.0 ids ≡ true) l
              (zip-Within (λ i. mem i ids ≡ true) _ ss l (All-select _ p _ known) h)),
      )

  -- Whatever storage and the reranker answer, `_apply_rerank` returns at most `limit` items, all of
  -- them with ids of `ranked`, unless it raises.
  pub apply_rerank-Bounded :
      (active : Bool) (candidate_k : ℕ) (q : String)
      → Bounded limit ids (apply_rerank num get_chunks rerank active candidate_k q ranked limit)
  unfolding apply_rerank
  apply_rerank-Bounded false k q = take-Bounded
  apply_rerank-Bounded true k q =
      let window = map (λ e. e.0) (take (max k limit) ranked) in
      let prefetched = by_id (get_chunks window) [] in
      let p : ℕ → Bool = λ cid. has cid prefetched in
      elim (Bool-cases (not (any (λ i. true) (select p window)))) [
        | inl e ↦ rw (apply_rerank, e) take-Bounded
        | inr e ↦
            rw (apply_rerank, e)
              (replied p prefetched (rerank q (texts prefetched (select p window))))
      ]
    where
      replied :
          (p : ℕ → Bool) (prefetched : Dict ChunkRecord) (r : Reply num.Score)
          → Bounded limit ids (elim r [
            | transient_error ↦ top (take limit ranked) none
            | permanent_error ↦ provider_error
            | scores ss ↦
                elim (zip_strict (select p (map (λ e. e.0) (take (max k limit) ranked))) ss) [
                  | none ↦ length_mismatch
                  | some scored ↦
                      top (take limit (sort (scores_before num) scored)) (some prefetched)
                ]
          ])
      replied p prefetched transient_error = take-Bounded
      replied p prefetched permanent_error = tt
      replied p prefetched (scores ss) =
          elim (Option-cases
            (zip_strict (select p (map (λ e. e.0) (take (max k limit) ranked))) ss)) [
              | inl e ↦ rw e tt
              | inr (l, e) ↦ rw e (scored-Bounded (max k limit) p ss l (some prefetched) e)
            ]
