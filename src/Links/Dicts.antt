-- ===== src/Links/Dicts.antt =====
-- What the dictionaries of Links/Index.antt hold: their keys are distinct, and their buckets hold
-- the paths of the pages they index.
use dikw_core.Prelude.{
  Text, same, same→eq, same_sym, ◌≡◌, refl, Bool, false, ◌&&◌, ◌||◌, not, none, some, List, [], ◌∷◌,
  arith, Bool-cases, inl, inr, ◌∙◌,
}
use dikw_core.Links.Normalize.{is_empty, normalize_base}
use dikw_core.Links.Index.{
  Dict, mem, lookup, add_paths, gather, unique_titles, fuzzy_titles, carries, mem-push_all,
}

abbrev pub Distinct : {V : Type 0} → Dict V → Type 0
Distinct [] = Unit
Distinct ((k, v) ∷ d) = (lookup k d ≡ none) × Distinct d

lookup-add_paths :
    (t key : Text) (ps : List Text) (d : Dict (List Text))
    → same t key ≡ false
    → lookup t d ≡ none
    → lookup t (add_paths key ps d) ≡ none
unfolding add_paths
lookup-add_paths t key ps [] n h = rw n
lookup-add_paths t key ps ((k, b) ∷ d) n h = ground (arith, lookup-add_paths t key ps d n)

Distinct-add_paths :
    (key : Text) (ps : List Text) (d : Dict (List Text))
    → Distinct d
    → Distinct (add_paths key ps d)
unfolding add_paths
Distinct-add_paths key ps [] h = (refl, tt)
Distinct-add_paths key ps ((k, b) ∷ d) h = elim (Bool-cases (same key k)) [
  | inl e ↦ rw e h
  | inr e ↦
      rw e (lookup-add_paths k key ps d (same_sym k key ∙ e) h.0, Distinct-add_paths key ps d h.1)
]

pub Distinct-gather :
    (docs : List (Text × Text)) (d : Dict (List Text)) → Distinct d → Distinct (gather docs d)
unfolding gather
Distinct-gather [] d h = h
Distinct-gather ((t, p) ∷ docs) d h = elim (Bool-cases (is_empty t)) [
  | inl e ↦ rw e (Distinct-gather docs d h)
  | inr e ↦ rw e (Distinct-gather docs (add_paths t (p ∷ []) d) (Distinct-add_paths t (p ∷ []) d h))
]

carries-absent :
    (t x : Text) (d : Dict (List Text)) → lookup t d ≡ none → carries (same t) x d ≡ false
carries-absent t x [] h = refl
carries-absent t x ((k, b) ∷ d) h = ground (arith, carries-absent t x d)

absent-unique_titles :
    (t : Text) (d : Dict (List Text)) → lookup t d ≡ none → lookup t (unique_titles d) ≡ none
unfolding unique_titles
absent-unique_titles t [] h = refl
absent-unique_titles t ((k, []) ∷ d) h = ground (arith, absent-unique_titles t d)
absent-unique_titles t ((k, p ∷ []) ∷ d) h = ground (arith, absent-unique_titles t d)
absent-unique_titles t ((k, p ∷ q ∷ ps) ∷ d) h = ground (arith, absent-unique_titles t d)

-- A title of the exact index has one path.
pub lookup-unique_titles :
    (t q : Text) (d : Dict (List Text))
    → Distinct d
    → lookup t (unique_titles d) ≡ some q
    → (x : Text) → carries (same t) x d ≡ same x q
unfolding unique_titles
lookup-unique_titles t q [] h g x = cc
lookup-unique_titles t q ((k, []) ∷ d) h g x = elim (Bool-cases (same t k)) [
  | inl e ↦
      let gone : lookup t d ≡ none = rw (same→eq t k e) h.0 in
      let none_left : lookup t (unique_titles d) ≡ none = absent-unique_titles t d gone in cc
  | inr e ↦ rw e (lookup-unique_titles t q d h.1 g x)
]
lookup-unique_titles t q ((k, p ∷ []) ∷ d) h g x = elim (Bool-cases (same t k)) [
  | inl e ↦
      let gone : lookup t d ≡ none = rw (same→eq t k e) h.0 in
      rw e (ground (arith, carries-absent t x d gone, e, g))
  | inr e ↦ rw e (lookup-unique_titles t q d h.1 (rw e at g) x)
]
lookup-unique_titles t q ((k, p ∷ r ∷ ps) ∷ d) h g x = elim (Bool-cases (same t k)) [
  | inl e ↦
      let gone : lookup t d ≡ none = rw (same→eq t k e) h.0 in
      let none_left : lookup t (unique_titles d) ≡ none = absent-unique_titles t d gone in cc
  | inr e ↦ rw e (lookup-unique_titles t q d h.1 g x)
]

-- `d.get(key, [])`
abbrev pub bucket : Text → Dict (List Text) → List Text
bucket key d = elim (lookup key d) [ none ↦ [] | some b ↦ b ]

mem-bucket-add_paths :
    (x key k : Text) (ps : List Text) (d : Dict (List Text))
    → mem x (bucket key (add_paths k ps d)) ≡ mem x (bucket key d) || (same key k && mem x ps)
unfolding add_paths
mem-bucket-add_paths x key k ps [] = ground (arith, mem-push_all x ps [])
mem-bucket-add_paths x key k ps ((j, b) ∷ d) = elim (Bool-cases (same k j)) [
  | inl e ↦ rw e (rw (same→eq k j e) (ground (arith, mem-push_all x ps b)))
  | inr e ↦ elim (Bool-cases (same key j)) [
    | inl f ↦
        let apart : same key k ≡ false = rw (same→eq key j f) (same_sym j k ∙ e) in
        ground (arith, apart, e, f)
    | inr f ↦ ground (arith, mem-bucket-add_paths x key k ps d, e, f)
  ]
]

module _ (nfkc casefold : Text → Text) where
  -- The titles that the fuzzy index puts under `key`.
  abbrev pub under : Text → Text → Bool
  under key title =
      not (is_empty (normalize_base nfkc casefold title))
      && same key (normalize_base nfkc casefold title)

  pub mem-bucket-fuzzy_titles :
      (x key : Text) (d f : Dict (List Text))
      → mem x (bucket key (fuzzy_titles nfkc casefold d f))
        ≡ mem x (bucket key f) || carries (under key) x d
  unfolding fuzzy_titles
  mem-bucket-fuzzy_titles x key [] f = ground arith
  mem-bucket-fuzzy_titles x key ((t, ps) ∷ d) f =
      let k = normalize_base nfkc casefold t in
      elim (Bool-cases (is_empty k)) [
        | inl e ↦ rw e (mem-bucket-fuzzy_titles x key d f)
        | inr e ↦ rw e (
            mem-bucket-fuzzy_titles x key d (add_paths k ps f)
            ∙ ground (arith, mem-bucket-add_paths x key k ps f, e))
      ]
