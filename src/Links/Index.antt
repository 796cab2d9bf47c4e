-- ===== src/Links/Index.antt =====
-- The dictionaries of links.py: `build_title_indexes` and `build_fuzzy_index`. A dict is the list of
-- its items in insertion order.
use dikw_core.Prelude.{
  Text, same, same→eq, ◌≡◌, refl, Bool, true, ◌&&◌, ◌||◌, not, Option, none, some, List, [], ◌∷◌,
  ◌++◌, arith, if◌then◌else◌, any, Bool-cases, inl, inr,
}
use dikw_core.Links.Normalize.{is_empty, normalize_base}

abbrev pub Dict : Type 0 → Type 0
Dict V = List (Text × V)

-- `x in xs`
abbrev pub mem : Text → List Text → Bool
mem x xs = any (λ y. same x y) xs

-- `d.get(key)`
abbrev pub lookup : {V : Type 0} → Text → Dict V → Option V
lookup key [] = none
lookup key ((k, v) ∷ d) = if same key k then some v else lookup key d

-- `if path not in bucket: bucket.append(path)`, and its loop over `paths`
unfoldable pub push : Text → List Text → List Text
push path bucket = if mem path bucket then bucket else bucket ++ path ∷ []

unfoldable pub push_all : List Text → List Text → List Text
unfolding push
push_all [] bucket = bucket
push_all (p ∷ ps) bucket = push_all ps (push p bucket)

-- `bucket = d.setdefault(key, [])`, then pushes `paths`.
unfoldable pub add_paths : Text → List Text → Dict (List Text) → Dict (List Text)
unfolding push_all
add_paths key paths [] = (key, push_all paths []) ∷ []
add_paths key paths ((k, bucket) ∷ d) =
    if same key k then (k, push_all paths bucket) ∷ d else (k, bucket) ∷ add_paths key paths d

-- The first loop of `build_title_indexes`: `title_to_paths`.
unfoldable pub gather : List (Text × Text) → Dict (List Text) → Dict (List Text)
unfolding add_paths
gather [] d = d
gather ((title, path) ∷ docs) d =
    if is_empty title then gather docs d else gather docs (add_paths title (path ∷ []) d)

-- The dict comprehension over the titles with one path.
unfoldable pub unique_titles : Dict (List Text) → Dict Text
unique_titles [] = []
unique_titles ((title, p ∷ []) ∷ d) = (title, p) ∷ unique_titles d
unique_titles ((title, _) ∷ d) = unique_titles d

module _ (nfkc casefold : Text → Text) where
  -- The second loop.
  unfoldable pub fuzzy_titles : Dict (List Text) → Dict (List Text) → Dict (List Text)
  unfolding add_paths
  fuzzy_titles [] fuzzy = fuzzy
  fuzzy_titles ((title, paths) ∷ d) fuzzy =
      let key = normalize_base nfkc casefold title in
      if is_empty key then fuzzy_titles d fuzzy else fuzzy_titles d (add_paths key paths fuzzy)

  unfoldable pub build_title_indexes : List (Text × Text) → Dict Text × Dict (List Text)
  unfolding gather unique_titles fuzzy_titles
  build_title_indexes docs =
      let title_to_paths = gather docs [] in
      (unique_titles title_to_paths, fuzzy_titles title_to_paths [])

  unfoldable pub build_fuzzy_index : Dict Text → Dict (List Text) → Dict (List Text)
  unfolding add_paths
  build_fuzzy_index [] index = index
  build_fuzzy_index ((title, path) ∷ d) index =
      let key = normalize_base nfkc casefold title in
      if is_empty key
      then build_fuzzy_index d index
      else build_fuzzy_index d (add_paths key (path ∷ []) index)

pub mem-snoc : (x p : Text) (ps : List Text) → mem x (ps ++ p ∷ []) ≡ mem x ps || same x p
mem-snoc x p [] = ground arith
mem-snoc x p (q ∷ ps) = ground (arith, mem-snoc x p ps)

mem_of_same : (x p : Text) (ps : List Text) → same x p ≡ true → mem x ps ≡ mem p ps
mem_of_same x p ps h = rw (same→eq x p h) refl

mem-push : (x p : Text) (ps : List Text) → mem x (push p ps) ≡ mem x ps || same x p
unfolding push
mem-push x p ps = elim (Bool-cases (mem p ps)) [
  | inl e ↦ rw e (ground (arith, mem_of_same x p ps))
  | inr e ↦ rw e (mem-snoc x p ps)
]

pub mem-push_all : (x : Text) (ps b : List Text) → mem x (push_all ps b) ≡ mem x b || mem x ps
unfolding push_all
mem-push_all x [] b = ground arith
mem-push_all x (p ∷ ps) b = ground (arith, mem-push_all x ps (push p b), mem-push x p b)

-- Whether some key that fits has `x` in its bucket.
abbrev pub carries : (Text → Bool) → Text → Dict (List Text) → Bool
carries test x d = any (λ e. test e.0 && mem x e.1) d

carries-add_paths :
    (test : Text → Bool) (x key : Text) (ps : List Text) (d : Dict (List Text))
    → carries test x (add_paths key ps d) ≡ carries test x d || (test key && mem x ps)
unfolding add_paths
carries-add_paths test x key ps [] = ground (arith, mem-push_all x ps [])
carries-add_paths test x key ps ((k, b) ∷ d) = elim (Bool-cases (same key k)) [
  | inl e ↦ rw e (rw (same→eq key k e) (ground (arith, mem-push_all x ps b)))
  | inr e ↦ rw e (ground (arith, carries-add_paths test x key ps d))
]

-- Whether some page with a title that fits has path `x`.
abbrev pub titled : (Text → Bool) → Text → List (Text × Text) → Bool
titled test x docs = any (λ d. (not (is_empty d.0) && test d.0) && same x d.1) docs

pub carries-gather :
    (test : Text → Bool) (x : Text) (docs : List (Text × Text)) (d : Dict (List Text))
    → carries test x (gather docs d) ≡ carries test x d || titled test x docs
unfolding gather
carries-gather test x [] d = ground arith
carries-gather test x ((t, p) ∷ docs) d = ground (
  arith,
  carries-gather test x docs d,
  carries-gather test x docs (add_paths t (p ∷ []) d),
  carries-add_paths test x t (p ∷ []) d,
)
