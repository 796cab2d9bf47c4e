-- ===== src/Graph/Tests.antt =====
-- Two pages with a common title and a page that links to them, on which the theorem on api_graph.py is
-- applied.
use dikw_core.Prelude.{
  ℕ, String, Text, codes, same, ◌≡◌, refl, none, some, List, [], ◌∷◌, map, All, ◌+◌,
}
use dikw_core.Links.Resolve.{LinkType, wikilink, markdown, url, ParsedLink}
use dikw_core.Graph.{
  GraphDoc, GraphEdge, GraphUnresolved, list_graph, fate, title_to_paths, fuzzy_index,
  path_key_to_path,
}
use dikw_core.Graph.Weights.{weight_between, unresolved_from, links_at}
use dikw_core.Graph.Targets.{leads_to, leads_nowhere}
use dikw_core.Graph.Edges.{Joins, total_weight, total_count, kept, list_graph-Counted}

abbrev link : LinkType → String → ParsedLink
link k t = record { kind = k; target = codes t; anchor = none; line = 1; raw = [] }

abbrev doc : String → String → List ParsedLink → GraphDoc
doc p t ls = record { path = codes p; path_key = codes p; title = some (codes t); links = some ls }

abbrev docs : List GraphDoc
docs =
    doc "a" "Ann" (
      link wikilink "Bob"
      ∷ link wikilink "Bob"
      ∷ link wikilink "Cy"
      ∷ link wikilink "Dan"
      ∷ link markdown "c"
      ∷ link url "u"
      ∷ [])
    ∷ doc "b" "Bob" []
    ∷ doc "c" "Cy" []
    ∷ doc "d" "Cy" []
    ∷ []

abbrev itself : Text → Text
itself t = t

abbrev edge : String → String → LinkType → ℕ → GraphEdge
edge p t k n = record {
  source = codes "a";
  target = codes p;
  target_text = codes t;
  anchor = none;
  kind = k;
  weight = n;
}

abbrev lost : String → GraphUnresolved
lost t = record { source = codes "a"; target_text = codes t; anchor = none; count = 1 }

-- The ambiguous and the unknown title are unresolved.
edges_found :
    (list_graph itself itself itself docs).edges
    ≡ edge "b" "Bob" wikilink 2 ∷ edge "c" "c" markdown 1 ∷ []
unfolding list_graph same
edges_found = refl

unresolved_found : (list_graph itself itself itself docs).unresolved ≡ lost "Cy" ∷ lost "Dan" ∷ []
unfolding list_graph same
unresolved_found = refl

abbrev titles : List (Text × List Text)
titles = title_to_paths docs []

abbrev fuzzy : List (Text × List Text)
fuzzy = fuzzy_index itself itself itself titles []

abbrev keys : List (Text × Text)
keys = path_key_to_path docs []

list_graph-Counted_example :
    All (Joins (map (λ d. d.path) docs)) (list_graph itself itself itself docs).edges
    × ((s t : Text)
        → weight_between s t (list_graph itself itself itself docs).edges
          ≡ links_at
              (λ l. leads_to itself itself itself titles fuzzy keys t l.kind l.target)
              s
              docs)
    × ((s : Text)
        → unresolved_from s (list_graph itself itself itself docs).unresolved
          ≡ links_at
              (λ l. leads_nowhere itself itself itself titles fuzzy keys l.kind l.target)
              s
              docs)
    × (total_weight (list_graph itself itself itself docs).edges
          + total_count (list_graph itself itself itself docs).unresolved
        ≡ kept (fate itself itself itself titles fuzzy keys) docs)
list_graph-Counted_example = list_graph-Counted itself itself itself docs
