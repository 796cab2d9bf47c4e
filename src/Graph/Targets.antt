-- ===== src/Graph/Targets.antt =====
-- Which links of a page the loop of `list_graph` in api_graph.py counts for another, and which as broken.
use dikw_core.Prelude.{
  Text, same, ◌≡◌, refl, ap, fun_ext, map, Bool, true, false, ◌&&◌, Option, none, some, List, [],
  arith, Bool-cases, Option-cases, inl, inr,
}
use dikw_core.Links.Resolve.{LinkType, wikilink, markdown, url, ParsedLink}
use dikw_core.Graph.{
  GraphDoc, Graph, Fate, walk_docs, mem_text, to_node, fate, fate_by, wikilink_target, get_path,
}
use dikw_core.Graph.Weights.{
  weight_between, unresolved_from, links_at, goes_to, is_broken, walk_docs-weight,
  walk_docs-unresolved,
}

links_at-cong :
    (q r : ParsedLink → Bool) (s : Text) (docs : List GraphDoc)
    → ((l : ParsedLink) → q l ≡ r l)
    → links_at q s docs ≡ links_at r s docs
links_at-cong q r s docs h = ap (λ (t : ParsedLink → Bool). links_at t s docs) (fun_ext h)

abbrev pub absent : Option Text → Bool
absent none = true
absent (some p) = false

-- The path that was found, if it is one of a node, is this one.
abbrev pub hits : List (Text × Text) → Text → Option Text → Bool
hits keys t none = false
hits keys t (some p) = same p t && mem_text p (map (λ e. e.1) keys)

module _ (normalize_base normalize_for_match normalize_path : Text → Text)
    (titles fuzzy : List (Text × List Text)) (keys : List (Text × Text)) where
  -- A wikilink whose title, or a Markdown link whose path, belongs to the page at `t`
  abbrev pub leads_to : Text → LinkType → Text → Bool
  leads_to t url text = false
  leads_to t wikilink text =
      hits keys t
        (wikilink_target normalize_base normalize_for_match normalize_path titles fuzzy text)
  leads_to t markdown text = hits keys t (get_path (normalize_path text) keys)

  -- A wikilink whose title belongs to no page, or to several
  abbrev pub leads_nowhere : LinkType → Text → Bool
  leads_nowhere wikilink text =
      absent (wikilink_target normalize_base normalize_for_match normalize_path titles fuzzy text)
  leads_nowhere _ text = false

  goes_to-node : (t p : Text) → goes_to t (to_node keys p) ≡ hits keys t (some p)
  unfolding to_node
  goes_to-node t p = elim (Bool-cases (mem_text p (map (λ e. e.1) keys))) [
    | inl e ↦ rw (to_node, e) (ground arith)
    | inr e ↦ rw (to_node, e) (ground arith)
  ]

  broken-node : (p : Text) → is_broken (to_node keys p) ≡ false
  unfolding to_node
  broken-node p = elim (Bool-cases (mem_text p (map (λ e. e.1) keys))) [
    | inl e ↦ rw (to_node, e) refl
    | inr e ↦ rw (to_node, e) refl
  ]

  abbrev fate_of : LinkType → Text → Fate
  fate_of = fate_by normalize_base normalize_for_match normalize_path titles fuzzy keys

  goes_to-fate :
      (t : Text) (k : LinkType) (text : Text) → goes_to t (fate_of k text) ≡ leads_to t k text
  unfolding fate_by
  goes_to-fate t url text = refl
  goes_to-fate t wikilink text =
      elim (Option-cases
        (wikilink_target normalize_base normalize_for_match normalize_path titles fuzzy text)) [
          | inl e ↦ rw (fate_by, e) refl
          | inr (p, e) ↦ rw (fate_by, e) (goes_to-node t p)
        ]
  goes_to-fate t markdown text = elim (Option-cases (get_path (normalize_path text) keys)) [
    | inl e ↦ rw (fate_by, e) refl
    | inr (p, e) ↦ rw (fate_by, e) (goes_to-node t p)
  ]

  broken-fate : (k : LinkType) (text : Text) → is_broken (fate_of k text) ≡ leads_nowhere k text
  unfolding fate_by
  broken-fate url text = refl
  broken-fate wikilink text =
      elim (Option-cases
        (wikilink_target normalize_base normalize_for_match normalize_path titles fuzzy text)) [
          | inl e ↦ rw (fate_by, e) refl
          | inr (p, e) ↦ rw (fate_by, e) (broken-node p)
        ]
  broken-fate markdown text = elim (Option-cases (get_path (normalize_path text) keys)) [
    | inl e ↦ rw (fate_by, e) refl
    | inr (p, e) ↦ rw (fate_by, e) (broken-node p)
  ]

  abbrev fate_for : ParsedLink → Fate
  fate_for = fate normalize_base normalize_for_match normalize_path titles fuzzy keys

  abbrev start : Graph
  start = record { edges = []; unresolved = []; hops = [] }

  pub walk-weight :
      (s t : Text) (docs : List GraphDoc)
      → weight_between s t (walk_docs fate_for docs start).edges
        ≡ links_at (λ l. leads_to t l.kind l.target) s docs
  unfolding fate
  walk-weight s t docs = omega (
    arith,
    walk_docs-weight fate_for s t docs start,
    links_at-cong (λ l. goes_to t (fate_for l)) (λ l. leads_to t l.kind l.target) s docs
        (λ l. goes_to-fate t l.kind l.target),
  )

  pub walk-unresolved :
      (s : Text) (docs : List GraphDoc)
      → unresolved_from s (walk_docs fate_for docs start).unresolved
        ≡ links_at (λ l. leads_nowhere l.kind l.target) s docs
  unfolding fate
  walk-unresolved s docs = omega (
    arith,
    walk_docs-unresolved fate_for s docs start,
    links_at-cong (λ l. is_broken (fate_for l)) (λ l. leads_nowhere l.kind l.target) s docs
        (λ l. broken-fate l.kind l.target),
  )
