-- ===== src/Search/Scores.antt =====
-- Scores and the dicts from keys to scores of search.py. A score is a Python float, of which the
-- code uses these operations; they are a parameter of all definitions. A key is a chunk id.
use dikw_core.Prelude.{
  ℕ, ◌≡◌, Bool, false, ◌||◌, Option, none, some, List, [], ◌∷◌, arith, ◌==◌, ==_iff, if◌then◌else◌,
  any, Bool-cases, inl, inr,
}

pub record Num : Type 1 where
  pub Score : Type 0
  pub zero : Score
  pub one : Score
  pub add : Score → Score → Score
  pub sub : Score → Score → Score
  pub mul : Score → Score → Score
  pub div : Score → Score → Score
  pub of_nat : ℕ → Score
  pub exceeds : Score → Score → Bool
  pub equals : Score → Score → Bool

-- A dict is the list of its items in insertion order.
abbrev pub Dict : Type 0 → Type 0
Dict V = List (ℕ × V)

abbrev pub lookup : {V : Type 0} → ℕ → Dict V → Option V
lookup key [] = none
lookup key ((k, v) ∷ d) = if key == k then some v else lookup key d

-- `d.get(key, default)`
abbrev pub get_or : {V : Type 0} → V → ℕ → Dict V → V
get_or default key d = elim (lookup key d) [ none ↦ default | some v ↦ v ]

-- `d[key] = v`
abbrev pub store : {V : Type 0} → ℕ → V → Dict V → Dict V
store key v [] = (key, v) ∷ []
store key v ((k, w) ∷ d) = if key == k then (k, v) ∷ d else (k, w) ∷ store key v d

-- `key in d` and `key in xs`
abbrev pub has : {V : Type 0} → ℕ → Dict V → Bool
has key d = any (λ e. key == e.0) d

abbrev pub mem : ℕ → List ℕ → Bool
mem key xs = any (λ x. key == x) xs

pub has-store :
    {V : Type 0} (x key : ℕ) (v : V) (d : Dict V) → has x (store key v d) ≡ has x d || (x == key)
has-store x key v [] = ground arith
has-store x key v ((k, w) ∷ d) = elim (Bool-cases (key == k)) [
  | inl e ↦ let same = (==_iff key k).0 e in rw e (rw same (ground arith))
  | inr e ↦ rw e (ground (arith, has-store x key v d))
]

pub lookup-store_self :
    {V : Type 0} (key : ℕ) (v : V) (d : Dict V) → lookup key (store key v d) ≡ some v
lookup-store_self key v [] = ground arith
lookup-store_self key v ((k, w) ∷ d) = elim (Bool-cases (key == k)) [
  | inl e ↦ rw e (rw e)
  | inr e ↦ rw e (rw e (lookup-store_self key v d))
]

pub lookup-store_other :
    {V : Type 0} (x key : ℕ) (v : V) (d : Dict V)
    → (x == key) ≡ false
    → lookup x (store key v d) ≡ lookup x d
lookup-store_other x key v [] n = rw n
lookup-store_other x key v ((k, w) ∷ d) n = elim (Bool-cases (key == k)) [
  | inl e ↦ let same = (==_iff key k).0 e in rw e (ground (arith, n))
  | inr e ↦ rw e (ground (arith, lookup-store_other x key v d n))
]
