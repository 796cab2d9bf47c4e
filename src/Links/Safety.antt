-- ===== src/Links/Safety.antt =====
-- A wikilink is resolved only where its target names one page.
use dikw_core.Prelude.{
  ◌+◌, Text, same, ◌≡◌, Bool, Option, none, some, List, [], ◌∷◌, arith, Bool-cases, Option-cases,
  inl, inr, ◌⊎◌, ◌∙◌, sym, length,
}
use dikw_core.Links.Normalize.{is_empty, normalize_for_match}
use dikw_core.Links.Index.{
  Dict, lookup, gather, unique_titles, fuzzy_titles, build_title_indexes, carries-gather, titled,
}
use dikw_core.Links.Dicts.{
  lookup-unique_titles, Distinct-gather, bucket, under, mem-bucket-fuzzy_titles,
}
use dikw_core.Links.Resolve.{ParsedLink, only_one, target_path, resolve_links}

-- The pages with a title that fits have `q`, and no other path.
abbrev pub OnlyPath : (Text → Bool) → Text → List (Text × Text) → Type 0
OnlyPath test q docs = (x : Text) → titled test x docs ≡ same x q

module _ (nfkc casefold : Text → Text) (docs : List (Text × Text)) where
  unfoldable pub resolved_path : Text → Option Text
  unfolding target_path build_title_indexes
  resolved_path target =
      let (exact, fuzzy) = build_title_indexes nfkc casefold docs in
      target_path nfkc casefold exact fuzzy target

  exact-OnlyPath :
      (target q : Text)
      → lookup target (unique_titles (gather docs [])) ≡ some q
      → OnlyPath (same target) q docs
  exact-OnlyPath target q h x =
      sym (carries-gather (same target) x docs [])
      ∙ lookup-unique_titles target q (gather docs []) (Distinct-gather docs [] tt) h x

  fuzzy-OnlyPath :
      (key q : Text)
      → lookup key (fuzzy_titles nfkc casefold (gather docs []) []) ≡ some (q ∷ [])
      → OnlyPath (under nfkc casefold key) q docs
  fuzzy-OnlyPath key q h x =
      sym (carries-gather (under nfkc casefold key) x docs [])
      ∙ (sym (mem-bucket-fuzzy_titles nfkc casefold x key (gather docs []) [])
          ∙ rw (bucket, h) (ground arith))

  -- With the indexes that `build_title_indexes` makes of the pages, a wikilink is resolved to a path
  -- only if every page with just that title has this path and there is one, or if every page whose
  -- normalised title is the normalised and stemmed target has this path and there is one.
  pub resolved_path-OnlyPath :
      (target q : Text)
      → resolved_path target ≡ some q
      → OnlyPath (same target) q docs
        ⊎ OnlyPath (under nfkc casefold (normalize_for_match nfkc casefold target)) q docs
  unfolding resolved_path target_path build_title_indexes
  resolved_path-OnlyPath target q h =
      let exact = unique_titles (gather docs []) in
      let key = normalize_for_match nfkc casefold target in
      let fuzzy = fuzzy_titles nfkc casefold (gather docs []) [] in
      elim (Option-cases (lookup target exact)) [
        | inr (p, e) ↦ inl (exact-OnlyPath target q (ground (arith, e, h)))
        | inl e ↦ elim (Bool-cases (is_empty key)) [
          | inl n ↦ ground (arith, e, n, h)
          | inr n ↦ inr (fuzzy-OnlyPath key q (one (lookup key fuzzy) (ground (arith, e, n, h))))
        ]
      ]
    where
      one : (o : Option (List Text)) → only_one nfkc casefold [] [] o ≡ some q → o ≡ some (q ∷ [])
      one none g = cc
      one (some []) g = cc
      one (some (p ∷ [])) g = ground arith
      one (some (p ∷ r ∷ ps)) g = cc

module _ (nfkc casefold : Text → Text) (exact : Dict Text) (fuzzy : Dict (List Text)) where
  -- `resolve_links` drops no link: each becomes one record, resolved or unresolved.
  pub length-resolve_links :
      (src : Text) (links : List ParsedLink)
      → length (resolve_links nfkc casefold exact fuzzy src links).0
          + length (resolve_links nfkc casefold exact fuzzy src links).1
        ≡ length links
  unfolding resolve_links
  length-resolve_links src [] = omega arith
  length-resolve_links src (l ∷ links) = ground (arith, length-resolve_links src links)
