-- ===== src/Dicts.antt =====
-- The dicts that the parts share: the list of the items, in insertion order.
use dikw_core.Prelude.{
  Text, same, same→eq, same_sym, ◌≡◌, refl, ◌∙◌, Bool-cases, inl, inr, false, some, List, [], ◌∷◌,
  arith, if◌then◌else◌,
}
use dikw_core.Links.Index.{Dict, lookup}

-- `d[key] = v`
unfoldable pub set_item : {V : Type 0} → Text → V → Dict V → Dict V
set_item key v [] = (key, v) ∷ []
set_item key v ((k, w) ∷ d) = if same key k then (k, v) ∷ d else (k, w) ∷ set_item key v d

-- `d.update(items)`
unfoldable pub update : {V : Type 0} → List (Text × V) → Dict V → Dict V
unfolding set_item
update [] d = d
update ((k, v) ∷ items) d = update items (set_item k v d)

pub lookup-set_item :
    {V : Type 0} (key k : Text) (v : V) (d : Dict V)
    → lookup k (set_item key v d) ≡ (if same k key then some v else lookup k d)
unfolding set_item
lookup-set_item key k v [] = refl
lookup-set_item key k v ((j, w) ∷ d) = elim (Bool-cases (same key j)) [
  | inl e ↦ rw e (rw (same→eq key j e) (ground arith))
  | inr e ↦ rw e (elim (Bool-cases (same k j)) [
    | inl f ↦ let g : same k key ≡ false = rw (same→eq k j f) (same_sym j key ∙ e) in rw (f, g) refl
    | inr f ↦ rw f (lookup-set_item key k v d)
  ])
]
