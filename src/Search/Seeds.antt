-- ===== src/Search/Seeds.antt =====
-- The seeds of the graph leg of search.py: distinct, within the budget, and from the two rankings.
use dikw_core.Prelude.{
  ℕ, suc, ◌≤◌, ◌≡◌, refl, Bool, true, false, ◌||◌, some, List, [], ◌∷◌, ◌++◌, arith, length, ◌==◌,
  all, take, length-append, Bool-cases, inl, inr,
}
use dikw_core.Search.Scores.{mem}
use dikw_core.Search.Window.{consider, seed_rounds, graph_seeds}

-- No id stands twice.
abbrev pub Distinct : List ℕ → Type 0
Distinct [] = Unit
Distinct (x ∷ xs) = (mem x xs ≡ false) × Distinct xs

mem-snoc : (x y : ℕ) (xs : List ℕ) → mem x (xs ++ y ∷ []) ≡ mem x xs || (x == y)
mem-snoc x y [] = ground arith
mem-snoc x y (z ∷ xs) = ground (arith, mem-snoc x y xs)

Distinct-snoc : (y : ℕ) (xs : List ℕ) → mem y xs ≡ false → Distinct xs → Distinct (xs ++ y ∷ [])
Distinct-snoc y [] m d = (refl, tt)
Distinct-snoc y (x ∷ xs) m d =
    (ground (arith, mem-snoc x y xs, d.0, m), Distinct-snoc y xs (ground (arith, m)) d.1)

-- The seeds so far: distinct, within the budget, and from the two lists.
abbrev Sound : ℕ → (ℕ → Bool) → List ℕ × Bool → Type 0
Sound k ok st =
    Distinct st.0
    × (length st.0 ≤ k)
    × (st.1 ≡ false → suc (length st.0) ≤ k)
    × (all ok st.0 ≡ true)

all-snoc :
    (p : ℕ → Bool) (x : ℕ) (xs : List ℕ)
    → all p xs ≡ true
    → p x ≡ true
    → all p (xs ++ x ∷ []) ≡ true
all-snoc p x [] h e = rw e refl
all-snoc p x (y ∷ xs) h e = ground (arith, all-snoc p x xs)

consider-Sound :
    (k x : ℕ) (ok : ℕ → Bool) (st : List ℕ × Bool)
    → ok x ≡ true
    → Sound k ok st
    → Sound k ok (consider k (some x) st)
unfolding consider
consider-Sound k x ok (seeds, full) e h = elim (Bool-cases (full || mem x seeds)) [
  | inl b ↦ rw (consider, b) h
  | inr b ↦
      let open_yet : full ≡ false = ground arith in
      let new : mem x seeds ≡ false = ground arith in
      let room : suc (length seeds) ≤ k = h.2 open_yet in
      rw (consider, b)
        (
          Distinct-snoc x seeds new h.0,
          omega (arith, length-append seeds (x ∷ []), room),
          λ q. ground (arith, length-append seeds (x ∷ []), q),
          all-snoc ok x seeds h.3 e,
        )
]

seed_rounds-Sound :
    (k : ℕ) (ok : ℕ → Bool) (vs fs : List ℕ) (st : List ℕ × Bool)
    → all ok vs ≡ true
    → all ok fs ≡ true
    → Sound k ok st
    → Sound k ok (seed_rounds k vs fs st)
unfolding seed_rounds
seed_rounds-Sound k ok [] [] st hv hf h = h
seed_rounds-Sound k ok (v ∷ vs) [] st hv hf h = elim (Bool-cases (ok v)) [
  | inl e ↦
      seed_rounds-Sound k ok vs [] (consider k (some v) st) (rw e at hv) hf
        (consider-Sound k v ok st e h)
  | inr e ↦ ground (arith, e)
]
seed_rounds-Sound k ok [] (f ∷ fs) st hv hf h = elim (Bool-cases (ok f)) [
  | inl e ↦
      seed_rounds-Sound k ok [] fs (consider k (some f) st) hv (rw e at hf)
        (consider-Sound k f ok st e h)
  | inr e ↦ ground (arith, e)
]
seed_rounds-Sound k ok (v ∷ vs) (f ∷ fs) st hv hf h = elim (Bool-cases (ok v)) [
  | inl e ↦ elim (Bool-cases (ok f)) [
    | inl g ↦
        seed_rounds-Sound k ok vs fs _ (rw e at hv) (rw g at hf)
          (consider-Sound k f ok _ g (consider-Sound k v ok st e h))
    | inr g ↦ ground (arith, g)
  ]
  | inr e ↦ ground (arith, e)
]

all-take : (p : ℕ → Bool) (n : ℕ) (xs : List ℕ) → all p xs ≡ true → all p (take n xs) ≡ true
all-take p ℕ.zero xs h = refl
all-take p (suc n) [] h = refl
all-take p (suc n) (x ∷ xs) h = ground (arith, all-take p n xs)

room-Sound : (k : ℕ) (ok : ℕ → Bool) → suc 0 ≤ k → Sound k ok ([], false)
room-Sound k ok h = (tt, omega arith, λ q. h, refl)

-- The seeds are distinct and at most `k`, and a property of all ids in the two rankings holds of
-- all seeds.
pub graph_seeds-Distinct :
    (k : ℕ) (ok : ℕ → Bool) (vec_ranked fts_ranked : List ℕ)
    → all ok vec_ranked ≡ true
    → all ok fts_ranked ≡ true
    → Distinct (graph_seeds k vec_ranked fts_ranked)
      × (length (graph_seeds k vec_ranked fts_ranked) ≤ k)
      × (all ok (graph_seeds k vec_ranked fts_ranked) ≡ true)
unfolding graph_seeds seed_rounds
graph_seeds-Distinct ℕ.zero ok vs fs hv hf = (tt, omega arith, refl)
graph_seeds-Distinct (suc k) ok vs fs hv hf =
    let (d, l, _, a) =
      seed_rounds-Sound (suc k) ok (take (suc k) vs) (take (suc k) fs) ([], false)
        (all-take ok (suc k) vs hv) (all-take ok (suc k) fs hf)
        (room-Sound (suc k) ok (omega arith)) in
    (d, l, a)
