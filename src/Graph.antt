-- ===== src/Graph.antt =====
-- The graph of a base in src/dikw_core/api_graph.py: the indexes and the loop of `list_graph`. The
-- documents are those under the base, in the order of their paths, each with the links of its body;
-- `normalize_base`, `normalize_for_match` and `normalize_path` are parameters. The final sort of the
-- edges, the layers and times of the nodes and the revision hash are left out.
pub mod Weights
pub mod Targets
pub mod Edges
pub mod Tests
use dikw_core.Prelude.{
  ℕ, suc, ◌+◌, Text, same, Bool, true, false, ◌&&◌, not, Option, none, some, List, [], ◌∷◌, ◌++◌,
  map, if◌then◌else◌, any, select, length,
}
use dikw_core.Links.Resolve.{LinkType, wikilink, markdown, url, ParsedLink}

-- A document; `links` is `none` where the body cannot be read.
pub record GraphDoc : Type 0 where
  pub path : Text
  pub path_key : Text
  pub title : Option Text
  pub links : Option (List ParsedLink)

pub record GraphEdge : Type 0 where
  pub source : Text
  pub target : Text
  pub target_text : Text
  pub anchor : Option Text
  pub kind : LinkType
  pub weight : ℕ

pub record GraphUnresolved : Type 0 where
  pub source : Text
  pub target_text : Text
  pub anchor : Option Text
  pub count : ℕ

-- `edge_acc`, `unresolved_acc`, and the pairs of `outbound` and `inbound`
pub record Graph : Type 0 where
  pub edges : List GraphEdge
  pub unresolved : List GraphUnresolved
  pub hops : List (Text × Text)

unfoldable pub mem_text : Text → List Text → Bool
mem_text x xs = any (λ y. same y x) xs

unfoldable pub same_anchor : Option Text → Option Text → Bool
same_anchor none none = true
same_anchor (some a) (some b) = same a b
same_anchor _ _ = false

-- `d.get(key, [])`
unfoldable pub paths_of : Text → List (Text × List Text) → List Text
paths_of key [] = []
paths_of key ((k, ps) ∷ d) = if same k key then ps else paths_of key d

-- `if p not in d[key]: d[key].append(p)`
unfoldable pub add_path : Text → Text → List (Text × List Text) → List (Text × List Text)
unfolding mem_text
add_path key p [] = (key, p ∷ []) ∷ []
add_path key p ((k, ps) ∷ d) =
    if same k key
    then (k, if mem_text p ps then ps else ps ++ p ∷ []) ∷ d
    else (k, ps) ∷ add_path key p d

unfoldable pub is_empty : Text → Bool
is_empty [] = true
is_empty (c ∷ s) = false

unfoldable pub title_to_paths : List GraphDoc → List (Text × List Text) → List (Text × List Text)
unfolding add_path is_empty
title_to_paths [] acc = acc
title_to_paths (d ∷ ds) acc = elim d.title [
  | none ↦ title_to_paths ds acc
  | some t ↦ title_to_paths ds (if is_empty t then acc else add_path t d.path acc)
]

-- `{d.path_key: d.path for d in docs}`
unfoldable pub path_key_to_path : List GraphDoc → List (Text × Text) → List (Text × Text)
path_key_to_path [] acc = acc
path_key_to_path (d ∷ ds) acc =
    path_key_to_path ds (select (λ e. not (same e.0 d.path_key)) acc ++ (d.path_key, d.path) ∷ [])

unfoldable pub get_path : Text → List (Text × Text) → Option Text
get_path key [] = none
get_path key ((k, p) ∷ d) = if same k key then some p else get_path key d

unfoldable pub same_edge : GraphEdge → GraphEdge → Bool
unfolding same_anchor
same_edge a b =
    same a.source b.source
    && (same a.target b.target
        && (same a.target_text b.target_text && same_anchor a.anchor b.anchor))

-- A new entry, or one more on the weight of the entry with the same key
unfoldable pub add_edge : GraphEdge → List GraphEdge → List GraphEdge
unfolding same_edge
add_edge e [] = e ∷ []
add_edge e (f ∷ es) =
    if same_edge f e then record f { weight = f.weight + 1 } ∷ es else f ∷ add_edge e es

unfoldable pub same_unresolved : GraphUnresolved → GraphUnresolved → Bool
unfolding same_anchor
same_unresolved a b =
    same a.source b.source && (same a.target_text b.target_text && same_anchor a.anchor b.anchor)

unfoldable pub add_unresolved : GraphUnresolved → List GraphUnresolved → List GraphUnresolved
unfolding same_unresolved
add_unresolved u [] = u ∷ []
add_unresolved u (v ∷ us) =
    if same_unresolved v u then record v { count = v.count + 1 } ∷ us else v ∷ add_unresolved u us

-- `outbound[source].add(target)` and `inbound[target].add(source)`
unfoldable pub add_hop : Text → Text → List (Text × Text) → List (Text × Text)
add_hop source target hops =
    if any (λ h. same h.0 source && same h.1 target) hops
    then hops
    else hops ++ (source, target) ∷ []

-- What becomes of a link
pub data Fate : Type 0 where
  edge_to : Text → Fate
  broken : Fate
  dropped : Fate

-- The one candidate, if there is just one
unfoldable pub only_path : List Text → Option Text
only_path (p ∷ []) = some p
only_path _ = none

unfoldable pub fuzzy_paths : Text → List Text → List (Text × List Text) → List (Text × List Text)
unfolding add_path
fuzzy_paths key [] acc = acc
fuzzy_paths key (p ∷ ps) acc = fuzzy_paths key ps (add_path key p acc)

-- The edge goes to a node, or the link is dropped.
unfoldable pub to_node : List (Text × Text) → Text → Fate
unfolding mem_text
to_node keys p = if mem_text p (map (λ e. e.1) keys) then edge_to p else dropped

unfoldable pub enter : Text → ParsedLink → Fate → Graph → Graph
unfolding add_edge add_unresolved add_hop
enter source link dropped g = g
enter source link broken g = record g {
  unresolved =
      add_unresolved
        (record { source = source; target_text = link.target; anchor = link.anchor; count = 1 })
        g.unresolved;
}
enter source link (edge_to p) g = record {
  edges =
      add_edge
        (record {
          source = source;
          target = p;
          target_text = link.target;
          anchor = link.anchor;
          kind = link.kind;
          weight = 1;
        })
        g.edges;
  unresolved = g.unresolved;
  hops = add_hop source p g.hops;
}

unfoldable pub walk_links : (ParsedLink → Fate) → Text → List ParsedLink → Graph → Graph
unfolding enter
walk_links f source [] g = g
walk_links f source (l ∷ ls) g = walk_links f source ls (enter source l (f l) g)

unfoldable pub walk_docs : (ParsedLink → Fate) → List GraphDoc → Graph → Graph
unfolding walk_links
walk_docs f [] g = g
walk_docs f (d ∷ ds) g =
    walk_docs f ds (elim d.links [ none ↦ g | some ls ↦ walk_links f d.path ls g ])

module _ (normalize_base normalize_for_match normalize_path : Text → Text) where
  unfoldable pub fuzzy_index :
      List (Text × List Text) → List (Text × List Text) → List (Text × List Text)
  unfolding fuzzy_paths is_empty
  fuzzy_index [] acc = acc
  fuzzy_index ((title, paths) ∷ d) acc = fuzzy_index d (
      if is_empty (normalize_base title) then acc else fuzzy_paths (normalize_base title) paths acc)

  -- The exact title, where it is not ambiguous, and then the fuzzy key
  unfoldable pub wikilink_target :
      List (Text × List Text) → List (Text × List Text) → Text → Option Text
  unfolding paths_of only_path is_empty
  wikilink_target titles fuzzy target = elim (paths_of target titles) [
    | p ∷ ps ↦ only_path (p ∷ ps)
    | [] ↦
        if is_empty (normalize_for_match target)
        then none
        else only_path (paths_of (normalize_for_match target) fuzzy)
  ]

  unfoldable pub fate_by :
      List (Text × List Text)
      → List (Text × List Text)
      → List (Text × Text)
      → LinkType
      → Text
      → Fate
  unfolding wikilink_target to_node get_path
  fate_by titles fuzzy keys url target = dropped
  fate_by titles fuzzy keys wikilink target = elim (wikilink_target titles fuzzy target) [
    | none ↦ broken
    | some p ↦ to_node keys p
  ]
  fate_by titles fuzzy keys markdown target = elim (get_path (normalize_path target) keys) [
    | none ↦ dropped
    | some p ↦ to_node keys p
  ]

  unfoldable pub fate :
      List (Text × List Text) → List (Text × List Text) → List (Text × Text) → ParsedLink → Fate
  unfolding fate_by
  fate titles fuzzy keys link = fate_by titles fuzzy keys link.kind link.target

  unfoldable pub list_graph : List GraphDoc → Graph
  unfolding walk_docs fate title_to_paths fuzzy_index path_key_to_path
  list_graph docs =
      let titles = title_to_paths docs [] in
      walk_docs (fate titles (fuzzy_index titles []) (path_key_to_path docs [])) docs
        (record { edges = []; unresolved = []; hops = [] })
