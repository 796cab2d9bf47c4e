-- ===== src/Graph/Edges.antt =====
-- The edges and the counts of `list_graph` in api_graph.py.
use dikw_core.Prelude.{
  ℕ, suc, ◌+◌, Text, same, same_refl, ◌≡◌, refl, subst, Bool, true, false, ◌||◌, not, none, some,
  List, [], ◌∷◌, ◌++◌, map, select, All, All-map, arith, Bool-cases, Option-cases, inl, inr,
}
use dikw_core.Links.Resolve.{LinkType, wikilink, markdown, url, ParsedLink}
use dikw_core.Graph.Weights.{weight_between, unresolved_from, links_at}
use dikw_core.Graph.Targets.{leads_to, leads_nowhere, walk-weight, walk-unresolved}
use dikw_core.Graph.{
  GraphDoc, GraphEdge, GraphUnresolved, Graph, mem_text, title_to_paths, path_key_to_path,
  same_edge, add_edge, same_unresolved, add_unresolved, Fate, edge_to, broken, dropped, fuzzy_index,
  to_node, fate, fate_by, wikilink_target, get_path, enter, walk_links, walk_docs, list_graph,
}

-- `sum` of the weights and of the counts
abbrev pub total_weight : List GraphEdge → ℕ
total_weight [] = 0
total_weight (e ∷ es) = e.weight + total_weight es

abbrev pub total_count : List GraphUnresolved → ℕ
total_count [] = 0
total_count (u ∷ us) = u.count + total_count us

abbrev pub is_kept : Fate → ℕ
is_kept (edge_to p) = 1
is_kept broken = 1
is_kept dropped = 0

-- The links that are not dropped
abbrev pub kept_links : (ParsedLink → Fate) → List ParsedLink → ℕ
kept_links f [] = 0
kept_links f (l ∷ ls) = is_kept (f l) + kept_links f ls

abbrev pub kept : (ParsedLink → Fate) → List GraphDoc → ℕ
kept f [] = 0
kept f (d ∷ ds) = (elim d.links [ none ↦ 0 | some ls ↦ kept_links f ls ]) + kept f ds

-- The ends of an edge are nodes.
abbrev pub Joins : List Text → GraphEdge → Type 0
Joins nodes e = (mem_text e.source nodes ≡ true) × (mem_text e.target nodes ≡ true)

total-add_edge :
    (e : GraphEdge) (es : List GraphEdge)
    → e.weight ≡ 1
    → total_weight (add_edge e es) ≡ suc (total_weight es)
unfolding add_edge
total-add_edge e [] h = omega (arith, h)
total-add_edge e (f ∷ es) h = elim (Bool-cases (same_edge f e)) [
  | inl k ↦ rw (add_edge, k) (omega arith)
  | inr k ↦ rw (add_edge, k) (omega (arith, total-add_edge e es h))
]

total-add_unresolved :
    (u : GraphUnresolved) (us : List GraphUnresolved)
    → u.count ≡ 1
    → total_count (add_unresolved u us) ≡ suc (total_count us)
unfolding add_unresolved
total-add_unresolved u [] h = omega (arith, h)
total-add_unresolved u (v ∷ us) h = elim (Bool-cases (same_unresolved v u)) [
  | inl k ↦ rw (add_unresolved, k) (omega arith)
  | inr k ↦ rw (add_unresolved, k) (omega (arith, total-add_unresolved u us h))
]

add_edge-Joins :
    (nodes : List Text) (e : GraphEdge) (es : List GraphEdge)
    → Joins nodes e
    → All (Joins nodes) es
    → All (Joins nodes) (add_edge e es)
unfolding add_edge
add_edge-Joins nodes e [] h a = (h, tt)
add_edge-Joins nodes e (f ∷ es) h a = elim (Bool-cases (same_edge f e)) [
  | inl k ↦ rw (add_edge, k) (a.0, a.1)
  | inr k ↦ rw (add_edge, k) (a.0, add_edge-Joins nodes e es h a.1)
]

-- What a fate leads to is a node.
abbrev Arrives : List Text → Fate → Type 0
Arrives nodes (edge_to p) = mem_text p nodes ≡ true
Arrives nodes broken = Unit
Arrives nodes dropped = Unit

-- The entries that count what was kept, and the edges between nodes
abbrev Counted : List Text → ℕ → Graph → Type 0
Counted nodes n g =
    All (Joins nodes) g.edges × (total_weight g.edges + total_count g.unresolved ≡ n)

enter-Counted :
    (nodes : List Text) (source : Text) (l : ParsedLink) (f : Fate) (n : ℕ) (g : Graph)
    → mem_text source nodes ≡ true
    → Arrives nodes f
    → Counted nodes n g
    → Counted nodes (n + is_kept f) (enter source l f g)
unfolding enter
enter-Counted nodes source l (edge_to p) n g s a c =
    (add_edge-Joins nodes _ g.edges (s, a) c.0, omega (arith, total-add_edge _ g.edges refl, c.1))
enter-Counted nodes source l broken n g s a c =
    (c.0, omega (arith, total-add_unresolved _ g.unresolved refl, c.1))
enter-Counted nodes source l dropped n g s a c = (c.0, omega (arith, c.1))

module _ (f : ParsedLink → Fate) (nodes : List Text)
    (arrives : (l : ParsedLink) → Arrives nodes (f l)) where
  walk_links-Counted :
      (source : Text) (ls : List ParsedLink) (n : ℕ) (g : Graph)
      → mem_text source nodes ≡ true
      → Counted nodes n g
      → Counted nodes (n + kept_links f ls) (walk_links f source ls g)
  unfolding walk_links
  walk_links-Counted source [] n g s c = (c.0, omega (arith, c.1))
  walk_links-Counted source (l ∷ ls) n g s c =
      let r =
        walk_links-Counted source ls (n + is_kept (f l)) (enter source l (f l) g) s
          (enter-Counted nodes source l (f l) n g s (arrives l) c) in
      (r.0, omega (arith, r.1))

  walk_docs-Counted :
      (docs : List GraphDoc) (n : ℕ) (g : Graph)
      → All (λ (d : GraphDoc). mem_text d.path nodes ≡ true) docs
      → Counted nodes n g
      → Counted nodes (n + kept f docs) (walk_docs f docs g)
  unfolding walk_docs
  walk_docs-Counted [] n g a c = (c.0, omega (arith, c.1))
  walk_docs-Counted (d ∷ ds) n g a c = elim (Option-cases d.links) [
    | inl e ↦
        let r = walk_docs-Counted ds n g a.1 c in rw (walk_docs, kept, e) (r.0, omega (arith, r.1))
    | inr (ls, e) ↦
        let r =
          walk_docs-Counted ds (n + kept_links f ls) (walk_links f d.path ls g) a.1
            (walk_links-Counted d.path ls n g a.0 c) in
        rw (walk_docs, kept, e) (r.0, omega (arith, r.1))
  ]

select-true :
    {A : Type 0} (q : A → Bool) (x : A) (xs : List A)
    → q x ≡ true
    → select q (x ∷ xs) ≡ x ∷ select q xs
select-true q x xs h = ground (arith, h)

select-false :
    {A : Type 0} (q : A → Bool) (x : A) (xs : List A)
    → q x ≡ false
    → select q (x ∷ xs) ≡ select q xs
select-false q x xs h = ground (arith, h)

mem-kept :
    (p : Text) (q : Text × Text → Bool) (path : Text) (key : Text) (acc : List (Text × Text))
    → mem_text p (map (λ e. e.1) (select q acc ++ (key, path) ∷ [])) ≡ true
    → same path p || mem_text p (map (λ e. e.1) acc) ≡ true
unfolding mem_text
mem-kept p q path key [] h = ground (arith, h)
mem-kept p q path key (e ∷ acc) h = elim (Bool-cases (q e)) [
  | inl k ↦
      let m =
        subst (λ l. mem_text p (map (λ e. e.1) (l ++ (key, path) ∷ [])) ≡ true)
          (select-true q e acc k) h in
      ground (arith, m, mem-kept p q path key acc)
  | inr k ↦
      let m =
        subst (λ l. mem_text p (map (λ e. e.1) (l ++ (key, path) ∷ [])) ≡ true)
          (select-false q e acc k) h in
      ground (arith, mem-kept p q path key acc m)
]

-- Every path in the index is one of a document.
keys-paths :
    (p : Text) (docs : List GraphDoc) (acc : List (Text × Text))
    → mem_text p (map (λ e. e.1) (path_key_to_path docs acc)) ≡ true
    → mem_text p (map (λ d. d.path) docs) || mem_text p (map (λ e. e.1) acc) ≡ true
unfolding path_key_to_path mem_text
keys-paths p [] acc h = h
keys-paths p (d ∷ ds) acc h =
    let q : Text × Text → Bool = λ e. not (same e.0 d.path_key) in
    let k = keys-paths p ds (select q acc ++ (d.path_key, d.path) ∷ []) h in
    ground (arith, k, mem-kept p q d.path d.path_key acc)

to_node-Arrives :
    (nodes : List Text) (keys : List (Text × Text)) (p : Text)
    → ((x : Text) → mem_text x (map (λ e. e.1) keys) ≡ true → mem_text x nodes ≡ true)
    → Arrives nodes (to_node keys p)
unfolding to_node
to_node-Arrives nodes keys p h = elim (Bool-cases (mem_text p (map (λ e. e.1) keys))) [
  | inl k ↦ rw (to_node, k) (h p k)
  | inr k ↦ rw (to_node, k) tt
]

own_paths :
    (docs : List GraphDoc)
    → All (λ (d : GraphDoc). mem_text d.path (map (λ d. d.path) docs) ≡ true) docs
unfolding mem_text
own_paths [] = tt
own_paths (d ∷ ds) = (
  rw (same_refl d.path) refl,
  All-map _ _ (λ (e : GraphDoc) k. ground (arith, k)) ds (own_paths ds),
)

module _ (normalize_base normalize_for_match normalize_path : Text → Text) where
  fate_by-Arrives :
      (titles fuzzy : List (Text × List Text)) (keys : List (Text × Text)) (nodes : List Text)
      → ((x : Text) → mem_text x (map (λ e. e.1) keys) ≡ true → mem_text x nodes ≡ true)
      → (k : LinkType) (t : Text)
      → Arrives nodes
          (fate_by normalize_base normalize_for_match normalize_path titles fuzzy keys k t)
  unfolding fate_by
  fate_by-Arrives titles fuzzy keys nodes h url t = tt
  fate_by-Arrives titles fuzzy keys nodes h wikilink t =
      elim (Option-cases
        (wikilink_target normalize_base normalize_for_match normalize_path titles fuzzy t)) [
          | inl e ↦ rw (fate_by, e) tt
          | inr (p, e) ↦ rw (fate_by, e) (to_node-Arrives nodes keys p h)
        ]
  fate_by-Arrives titles fuzzy keys nodes h markdown t =
      elim (Option-cases (get_path (normalize_path t) keys)) [
        | inl e ↦ rw (fate_by, e) tt
        | inr (p, e) ↦ rw (fate_by, e) (to_node-Arrives nodes keys p h)
      ]

  fate-Arrives :
      (titles fuzzy : List (Text × List Text)) (keys : List (Text × Text)) (nodes : List Text)
      → ((x : Text) → mem_text x (map (λ e. e.1) keys) ≡ true → mem_text x nodes ≡ true)
      → (l : ParsedLink)
      → Arrives nodes (fate normalize_base normalize_for_match normalize_path titles fuzzy keys l)
  unfolding fate
  fate-Arrives titles fuzzy keys nodes h l =
      fate_by-Arrives titles fuzzy keys nodes h l.kind l.target

  -- Both ends of every edge of the graph are paths of documents. The weight of the edges from one
  -- path to another is the number of the links in the document at the first which lead to the second:
  -- wikilinks whose title has that page for its target, and Markdown links to its path. The
  -- unresolved links counted for a path are the wikilinks in its document whose title has no target.
  -- All weights and counts together are the number of the links that are not dropped.
  pub list_graph-Counted :
      (docs : List GraphDoc)
      → let g = list_graph normalize_base normalize_for_match normalize_path docs in
        let titles = title_to_paths docs [] in
        let fuzzy = fuzzy_index normalize_base normalize_for_match normalize_path titles [] in
        let keys = path_key_to_path docs [] in
        All (Joins (map (λ d. d.path) docs)) g.edges
        × ((s t : Text)
            → weight_between s t g.edges
              ≡ links_at
                  (λ l.
                    leads_to normalize_base normalize_for_match normalize_path titles fuzzy keys t
                      l.kind l.target)
                  s
                  docs)
        × ((s : Text)
            → unresolved_from s g.unresolved
              ≡ links_at
                  (λ l.
                    leads_nowhere normalize_base normalize_for_match normalize_path titles fuzzy
                      keys l.kind l.target)
                  s
                  docs)
        × (total_weight g.edges + total_count g.unresolved
            ≡ kept (fate normalize_base normalize_for_match normalize_path titles fuzzy keys) docs)
  unfolding list_graph
  list_graph-Counted docs =
      let titles = title_to_paths docs [] in
      let fuzzy = fuzzy_index normalize_base normalize_for_match normalize_path titles [] in
      let keys = path_key_to_path docs [] in
      let r =
        walk_docs-Counted _ (map (λ d. d.path) docs)
          (fate-Arrives titles fuzzy keys (map (λ d. d.path) docs)
            (λ x h. ground (arith, keys-paths x docs [] h)))
          docs 0 (record { edges = []; unresolved = []; hops = [] }) (own_paths docs) (tt, refl) in
      (
        r.0,
        λ s t.
            walk-weight normalize_base normalize_for_match normalize_path titles fuzzy keys s t
              docs,
        λ s.
            walk-unresolved normalize_base normalize_for_match normalize_path titles fuzzy keys s
              docs,
        omega (arith, r.1),
      )
