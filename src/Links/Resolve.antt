-- ===== src/Links/Resolve.antt =====
-- `resolve_links` of links.py, and the lines that links are reported on.
use dikw_core.Prelude.{
  ℕ, suc, ◌-◌, Text, Option, none, some, List, [], ◌∷◌, if◌then◌else◌, ltb, ◌==◌,
}
use dikw_core.Links.Normalize.{is_empty, normalize_for_match}
use dikw_core.Links.Index.{Dict, lookup}

pub data LinkType : Type 0 where
  wikilink markdown url : LinkType

pub record ParsedLink : Type 0 where
  pub kind : LinkType
  pub target : Text
  pub anchor : Option Text
  pub line : ℕ
  pub raw : Text

pub record LinkRecord : Type 0 where
  pub src_doc_id : Text
  pub dst_path : Text
  pub link_type : LinkType
  pub anchor : Option Text
  pub line : ℕ

pub record UnresolvedLink : Type 0 where
  pub src_doc_id : Text
  pub target_text : Text
  pub line : ℕ

-- `_split_anchor`: `head, _, anchor = s.partition("#")`
unfoldable pub partition_hash : Text → Text × Option Text
partition_hash [] = ([], none)
partition_hash (c ∷ s) =
    let (head, anchor) = partition_hash s in if c == 35 then ([], some s) else (c ∷ head, anchor)

unfoldable pub split_anchor : Text → Text × Option Text
unfolding partition_hash
split_anchor s =
    let (head, anchor) = partition_hash s in
    (head, elim anchor [ none ↦ none | some a ↦ if is_empty a then none else some a ])

-- `_line_starts`; `i` is the index of the next character.
abbrev pub newlines : ℕ → Text → List ℕ
newlines i [] = []
newlines i (c ∷ s) = if c == 10 then suc i ∷ newlines (suc i) s else newlines (suc i) s

unfoldable pub line_starts : Text → List ℕ
line_starts body = 0 ∷ newlines 0 body

-- The loop of `_offset_to_line`; behind the last start it has counted them all.
unfoldable pub line_loop : ℕ → ℕ → List ℕ → ℕ
line_loop offset line [] = line - 1
line_loop offset line (start ∷ starts) =
    if ltb offset start then line - 1 else line_loop offset (suc line) starts

unfoldable pub offset_to_line : ℕ → List ℕ → ℕ
unfolding line_loop
offset_to_line offset starts = line_loop offset 1 starts

module _ (nfkc casefold : Text → Text) (title_to_path : Dict Text) (fuzzy : Dict (List Text)) where
  -- The one candidate, where there is exactly one.
  abbrev pub only_one : Option (List Text) → Option Text
  only_one (some (p ∷ [])) = some p
  only_one _ = none

  unfoldable pub target_path : Text → Option Text
  unfolding normalize_for_match
  target_path target = elim (lookup target title_to_path) [
    | some p ↦ some p
    | none ↦
        let key = normalize_for_match nfkc casefold target in
        if is_empty key then none else only_one (lookup key fuzzy)
  ]

  unfoldable pub resolve_links : Text → List ParsedLink → List LinkRecord × List UnresolvedLink
  unfolding target_path
  resolve_links src [] = ([], [])
  resolve_links src (l ∷ links) =
      let (resolved, unresolved) = resolve_links src links in
      let to : Text → LinkRecord = λ path. record {
        src_doc_id = src;
        dst_path = path;
        link_type = l.kind;
        anchor = l.anchor;
        line = l.line;
      } in
      elim l.kind [
        | wikilink ↦ elim (target_path l.target) [
          | none ↦ (
            resolved,
            record { src_doc_id = src; target_text = l.raw; line = l.line } ∷ unresolved,
          )
          | some path ↦ (to path ∷ resolved, unresolved)
        ]
        | markdown ↦ (to l.target ∷ resolved, unresolved)
        | url ↦ (to l.target ∷ resolved, unresolved)
      ]
