-- ===== src/Links/Parse.antt =====
-- `parse_links` of links.py. The matches that the three regular expressions find in the body are
-- arguments: where a match starts, its text, and the group that the source reads.
use dikw_core.Prelude.{
  ℕ, suc, ◌≤◌, Text, ◌≡◌, Bool, true, false, ◌||◌, Option, none, some, List, [], ◌∷◌, ◌++◌, map,
  arith, ltb, ◌==◌, if◌then◌else◌, codes, take, Option-cases, inl, inr,
}
use dikw_core.Prelude.Sort.{sort, IsSorted, sort-IsSorted}
use dikw_core.Links.Normalize.{is_space}
use dikw_core.Links.Resolve.{
  LinkType, wikilink, markdown, url, ParsedLink, split_anchor, line_starts, offset_to_line,
}
use dikw_core.Links.Lines.{line_ends, offset_to_line-line_starts}

-- `m.start()`, `m.group(0)`, and `m.group(1)` or `m.group(2)`
pub record Match : Type 0 where
  pub start : ℕ
  pub whole : Text
  pub group : Text

-- `s.strip()`
abbrev pub lstrip : Text → Text
lstrip [] = []
lstrip (c ∷ s) = if is_space c then lstrip s else c ∷ s

abbrev pub rstrip : Text → Text
rstrip [] = []
rstrip (c ∷ s) = elim (rstrip s) [ [] ↦ if is_space c then [] else c ∷ [] | d ∷ t ↦ c ∷ d ∷ t ]

-- `s.startswith(prefix)`
abbrev pub starts_with : Text → Text → Bool
starts_with [] s = true
starts_with (c ∷ p) [] = false
starts_with (c ∷ p) (d ∷ s) = if c == d then starts_with p s else false

abbrev pub parsed : LinkType → Text → ℕ → Text → ParsedLink
parsed kind href line raw =
    let (target, anchor) = split_anchor href in
    record { kind = kind; target = target; anchor = anchor; line = line; raw = raw }

-- What a Markdown link is; one to a pseudo-scheme or a fragment is skipped.
unfoldable pub href_kind : Text → Option LinkType
href_kind href =
    if starts_with (codes "mailto:") href
      || (starts_with (codes "tel:") href || starts_with (codes "#") href)
    then none
    else if starts_with (codes "http://") href || starts_with (codes "https://") href
    then some url
    else some markdown

-- The body of the loop.
unfoldable pub parse_match : List ℕ → LinkType × Match → Option ParsedLink
unfolding split_anchor offset_to_line href_kind
parse_match starts (wikilink, m) =
    some (parsed wikilink (rstrip (lstrip m.group)) (offset_to_line m.start starts) m.whole)
parse_match starts (markdown, m) =
    let href = rstrip (lstrip m.group) in
    elim (href_kind href) [
      | none ↦ none
      | some kind ↦ some (parsed kind href (offset_to_line m.start starts) m.whole)
    ]
parse_match starts (url, m) = some (parsed url m.group (offset_to_line m.start starts) m.whole)

abbrev pub starts_before : LinkType × Match → LinkType × Match → Bool
starts_before a b = ltb a.1.start b.1.start

unfoldable pub parse_matches : List ℕ → List (LinkType × Match) → List ParsedLink
unfolding parse_match
parse_matches starts [] = []
parse_matches starts (m ∷ ms) = elim (parse_match starts m) [
  | none ↦ parse_matches starts ms
  | some l ↦ l ∷ parse_matches starts ms
]

-- The matches in source order.
unfoldable pub all_matches : List Match → List Match → List Match → List (LinkType × Match)
unfolding sort
all_matches wikis mds urls =
    sort starts_before
      (map (λ m. (wikilink, m)) wikis ++ (map (λ m. (markdown, m)) mds ++ map (λ m. (url, m)) urls))

unfoldable pub parse_links : List Match → List Match → List Match → Text → List ParsedLink
unfolding parse_matches line_starts all_matches
parse_links wikis mds urls body = parse_matches (line_starts body) (all_matches wikis mds urls)

-- Each link stands on no later line than the next one.
abbrev pub InOrder : List ParsedLink → Type 0
InOrder [] = Unit
InOrder (l ∷ []) = Unit
InOrder (l ∷ m ∷ links) = (l.line ≤ m.line) × InOrder (m ∷ links)

line_ends-take : (a b : ℕ) (s : Text) → a ≤ b → line_ends (take a s) ≤ line_ends (take b s)
line_ends-take ℕ.zero b s h = omega arith
line_ends-take (suc a) ℕ.zero s h = absurd (omega arith)
line_ends-take (suc a) (suc b) [] h = omega arith
line_ends-take (suc a) (suc b) (c ∷ s) h = ground (arith, line_ends-take a b s)

module _ (body : Text) where
  -- The line of what a match becomes.
  line-parse_match :
      (m : LinkType × Match) (l : ParsedLink)
      → parse_match (line_starts body) m ≡ some l
      → l.line ≡ suc (line_ends (take m.1.start body))
  unfolding parse_match
  line-parse_match (wikilink, m) l h = ground (arith, offset_to_line-line_starts m.start body)
  line-parse_match (markdown, m) l h = elim (Option-cases (href_kind (rstrip (lstrip m.group)))) [
    | inl e ↦ cc
    | inr (k, e) ↦ ground (arith, offset_to_line-line_starts m.start body, e)
  ]
  line-parse_match (url, m) l h = ground (arith, offset_to_line-line_starts m.start body)

  -- A lower bound of the lines of a list of links.
  abbrev AtLeast : ℕ → List ParsedLink → Type 0
  AtLeast n [] = Unit
  AtLeast n (l ∷ links) = n ≤ l.line

  InOrder-cons :
      (l : ParsedLink) (links : List ParsedLink)
      → AtLeast l.line links
      → InOrder links
      → InOrder (l ∷ links)
  InOrder-cons l [] a h = tt
  InOrder-cons l (m ∷ links) a h = (a, h)

  abbrev Behind : ℕ → List (LinkType × Match) → Type 0
  Behind n [] = Unit
  Behind n (m ∷ ms) = n ≤ m.1.start

  tail-Behind :
      (m : LinkType × Match) (ms : List (LinkType × Match))
      → IsSorted starts_before (m ∷ ms)
      → Behind m.1.start ms × IsSorted starts_before ms
  tail-Behind m [] h = (tt, tt)
  tail-Behind m (k ∷ ms) h = (ground (arith, h.0), h.1)

  parse_matches-AtLeast :
      (n : ℕ) (ms : List (LinkType × Match))
      → IsSorted starts_before ms
      → Behind n ms
      → AtLeast (suc (line_ends (take n body))) (parse_matches (line_starts body) ms)
  unfolding parse_matches
  parse_matches-AtLeast n [] h b = tt
  parse_matches-AtLeast n (m ∷ ms) h b = elim (Option-cases (parse_match (line_starts body) m)) [
    | inl e ↦
        rw (AtLeast, parse_matches, e)
          (parse_matches-AtLeast n ms (tail-Behind m ms h).1 (further ms (tail-Behind m ms h).0))
    | inr (l, e) ↦
        rw (AtLeast, parse_matches, e)
          (omega (arith, line-parse_match m l e, line_ends-take n m.1.start body b))
  ]
    where
      further : (ms : List (LinkType × Match)) → Behind m.1.start ms → Behind n ms
      further [] g = tt
      further (k ∷ ms) g = omega arith

  parse_matches-InOrder :
      (ms : List (LinkType × Match))
      → IsSorted starts_before ms
      → InOrder (parse_matches (line_starts body) ms)
  unfolding parse_matches
  parse_matches-InOrder [] h = tt
  parse_matches-InOrder (m ∷ ms) h = elim (Option-cases (parse_match (line_starts body) m)) [
    | inl e ↦ rw (InOrder, parse_matches, e) (parse_matches-InOrder ms (tail-Behind m ms h).1)
    | inr (l, e) ↦
        let (behind, sorted) = tail-Behind m ms h in
        let low = parse_matches-AtLeast m.1.start ms sorted behind in
        rw (parse_matches, e)
          (InOrder-cons l (parse_matches (line_starts body) ms) (rw (line-parse_match m l e) low)
            (parse_matches-InOrder ms sorted))
  ]

-- Whatever the regular expressions match, `parse_links` returns the links in the order of their
-- lines.
pub parse_links-InOrder :
    (wikis mds urls : List Match) (body : Text) → InOrder (parse_links wikis mds urls body)
unfolding parse_links all_matches
parse_links-InOrder wikis mds urls body = parse_matches-InOrder body (all_matches wikis mds urls) (
    sort-IsSorted starts_before (λ a b h. ground arith)
      (map (λ m. (wikilink, m)) wikis
        ++ (map (λ m. (markdown, m)) mds ++ map (λ m. (url, m)) urls)))
