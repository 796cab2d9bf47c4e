-- ===== src/Graph/Weights.antt =====
-- How much the graph of api_graph.py says of each pair of pages, and of the broken links of each page.
use dikw_core.Prelude.{
  ℕ, ◌+◌, Text, same, same→eq, ◌≡◌, refl, ◌∙◌, Bool, true, false, ◌&&◌, none, some, List, [], ◌∷◌,
  arith, if◌then◌else◌, Bool-cases, Option-cases, inl, inr,
}
use dikw_core.Links.Resolve.{ParsedLink}
use dikw_core.Graph.{
  GraphDoc, GraphEdge, GraphUnresolved, Graph, same_edge, add_edge, same_unresolved, add_unresolved,
  Fate, edge_to, broken, dropped, enter, walk_links, walk_docs,
}

abbrev pub one_if : Bool → ℕ
one_if b = if b then 1 else 0

-- The weight of the edges from one page to another
abbrev pub weight_between : Text → Text → List GraphEdge → ℕ
weight_between s t [] = 0
weight_between s t (e ∷ es) =
    (if same e.source s && same e.target t then e.weight else 0) + weight_between s t es

-- The unresolved links of a page
abbrev pub unresolved_from : Text → List GraphUnresolved → ℕ
unresolved_from s [] = 0
unresolved_from s (u ∷ us) = (if same u.source s then u.count else 0) + unresolved_from s us

-- The number of links that pass a test
abbrev pub passing_links : (ParsedLink → Bool) → List ParsedLink → ℕ
passing_links q [] = 0
passing_links q (l ∷ ls) = one_if (q l) + passing_links q ls

-- Likewise, in the documents at a path
abbrev pub links_at : (ParsedLink → Bool) → Text → List GraphDoc → ℕ
links_at q s [] = 0
links_at q s (d ∷ ds) =
    (if same d.path s then (elim d.links [ none ↦ 0 | some ls ↦ passing_links q ls ]) else 0)
    + links_at q s ds

abbrev pub goes_to : Text → Fate → Bool
goes_to t (edge_to p) = same p t
goes_to t _ = false

abbrev pub is_broken : Fate → Bool
is_broken broken = true
is_broken _ = false

weight-add_edge :
    (s t : Text) (e : GraphEdge) (es : List GraphEdge)
    → e.weight ≡ 1
    → weight_between s t (add_edge e es)
      ≡ weight_between s t es + one_if (same e.source s && same e.target t)
unfolding add_edge same_edge
weight-add_edge s t e [] h = rw h (omega arith)
weight-add_edge s t e (f ∷ es) h = elim (Bool-cases (same_edge f e)) [
  | inl k ↦
      let a : f.source ≡ e.source = ground (arith, k, same→eq f.source e.source) in
      let b : f.target ≡ e.target = ground (arith, k, same→eq f.target e.target) in
      rw (add_edge, k, a, b)
        elim (Bool-cases (same e.source s && same e.target t)) [
          | inl z ↦ rw z (omega arith)
          | inr z ↦ rw z (omega arith)
        ]
  | inr k ↦ rw (add_edge, k) (omega (arith, weight-add_edge s t e es h))
]

count-add_unresolved :
    (s : Text) (u : GraphUnresolved) (us : List GraphUnresolved)
    → u.count ≡ 1
    → unresolved_from s (add_unresolved u us) ≡ unresolved_from s us + one_if (same u.source s)
unfolding add_unresolved same_unresolved
count-add_unresolved s u [] h = rw h (omega arith)
count-add_unresolved s u (v ∷ us) h = elim (Bool-cases (same_unresolved v u)) [
  | inl k ↦
      let a : v.source ≡ u.source = ground (arith, k, same→eq v.source u.source) in
      rw (add_unresolved, k, a)
        elim (Bool-cases (same u.source s)) [
          | inl z ↦ rw z (omega arith)
          | inr z ↦ rw z (omega arith)
        ]
  | inr k ↦ rw (add_unresolved, k) (omega (arith, count-add_unresolved s u us h))
]

module _ (s t : Text) where
  enter-weight :
      (source : Text) (l : ParsedLink) (f : Fate) (g : Graph)
      → weight_between s t (enter source l f g).edges
        ≡ weight_between s t g.edges + (if same source s then one_if (goes_to t f) else 0)
  unfolding enter
  enter-weight source l (edge_to p) g =
      weight-add_edge s t _ g.edges refl
      ∙ elim (Bool-cases (same source s)) [ inl z ↦ rw z refl | inr z ↦ rw z refl ]
  enter-weight source l broken g = elim (Bool-cases (same source s)) [
    | inl z ↦ rw z (omega arith)
    | inr z ↦ rw z (omega arith)
  ]
  enter-weight source l dropped g = elim (Bool-cases (same source s)) [
    | inl z ↦ rw z (omega arith)
    | inr z ↦ rw z (omega arith)
  ]

  enter-unresolved :
      (source : Text) (l : ParsedLink) (f : Fate) (g : Graph)
      → unresolved_from s (enter source l f g).unresolved
        ≡ unresolved_from s g.unresolved + (if same source s then one_if (is_broken f) else 0)
  unfolding enter
  enter-unresolved source l broken g = count-add_unresolved s _ g.unresolved refl
  enter-unresolved source l (edge_to p) g = elim (Bool-cases (same source s)) [
    | inl z ↦ rw z (omega arith)
    | inr z ↦ rw z (omega arith)
  ]
  enter-unresolved source l dropped g = elim (Bool-cases (same source s)) [
    | inl z ↦ rw z (omega arith)
    | inr z ↦ rw z (omega arith)
  ]

-- A measure of the graph that each link raises by its test: then the whole walk raises it by the
-- number of links that pass.
module _ (f : ParsedLink → Fate) (measure : Graph → ℕ) (test : ParsedLink → Bool) (s : Text)
    (each : (source : Text) (l : ParsedLink) (g : Graph)
      → measure (enter source l (f l) g)
        ≡ measure g + (if same source s then one_if (test l) else 0)) where
  walk_links-measure :
      (source : Text) (ls : List ParsedLink) (g : Graph)
      → measure (walk_links f source ls g)
        ≡ measure g + (if same source s then passing_links test ls else 0)
  unfolding walk_links
  walk_links-measure source [] g = elim (Bool-cases (same source s)) [
    | inl z ↦ rw z (omega arith)
    | inr z ↦ rw z (omega arith)
  ]
  walk_links-measure source (l ∷ ls) g =
      let rest = walk_links-measure source ls (enter source l (f l) g) in
      let first = each source l g in
      elim (Bool-cases (same source s)) [
        | inl z ↦ ground (arith, rest, first, z)
        | inr z ↦ ground (arith, rest, first, z)
      ]

  pub walk_docs-measure :
      (docs : List GraphDoc) (g : Graph)
      → measure (walk_docs f docs g) ≡ measure g + links_at test s docs
  unfolding walk_docs
  walk_docs-measure [] g = omega arith
  walk_docs-measure (d ∷ ds) g = elim (Option-cases d.links) [
    | inl e ↦
        rw (walk_docs, e)
          elim (Bool-cases (same d.path s)) [
            | inl z ↦ rw z (omega (arith, walk_docs-measure ds g))
            | inr z ↦ rw z (omega (arith, walk_docs-measure ds g))
          ]
    | inr (ls, e) ↦
        rw (walk_docs, e)
          (omega (
            arith,
            walk_docs-measure ds (walk_links f d.path ls g),
            walk_links-measure d.path ls g,
          ))
  ]

pub walk_docs-weight :
    (f : ParsedLink → Fate) (s t : Text) (docs : List GraphDoc) (g : Graph)
    → weight_between s t (walk_docs f docs g).edges
      ≡ weight_between s t g.edges + links_at (λ l. goes_to t (f l)) s docs
walk_docs-weight f s t =
    walk_docs-measure f (λ g. weight_between s t g.edges) (λ l. goes_to t (f l)) s
      (λ source l g. enter-weight s t source l (f l) g)

pub walk_docs-unresolved :
    (f : ParsedLink → Fate) (s : Text) (docs : List GraphDoc) (g : Graph)
    → unresolved_from s (walk_docs f docs g).unresolved
      ≡ unresolved_from s g.unresolved + links_at (λ l. is_broken (f l)) s docs
walk_docs-unresolved f s =
    walk_docs-measure f (λ g. unresolved_from s g.unresolved) (λ l. is_broken (f l)) s
      (λ source l g. enter-unresolved s s source l (f l) g)
