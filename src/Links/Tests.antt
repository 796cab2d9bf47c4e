-- ===== src/Links/Tests.antt =====
-- Concrete pages and links, on which the theorems on links.py are applied. The Unicode tables are
-- those of texts that have no compatibility characters and no capitals but the ASCII ones.
use dikw_core.Prelude.{
  ◌+◌, ◌++◌, Text, ◌≡◌, ◌⊎◌, refl, none, some, List, [], ◌∷◌, map, if◌then◌else◌, leb, ◌&&◌, codes,
}
use dikw_core.Prelude.Codes.{same}
use dikw_core.Links.Normalize.{normalize_for_match}
use dikw_core.Links.Dicts.{under}
use dikw_core.Links.Resolve.{wikilink, ParsedLink}
use dikw_core.Links.Safety.{OnlyPath, resolved_path, resolved_path-OnlyPath}
use dikw_core.Links.Parse.{Match, parse_links, InOrder, parse_links-InOrder}

abbrev same_text : Text → Text
same_text t = t

abbrev lower : Text → Text
lower t = map (λ c. if leb 65 c && leb c 90 then c + 32 else c) t

abbrev pages : List (Text × Text)
pages =
    (codes "Car", codes "k/car.md")
    ∷ (codes "Cars", codes "k/cars.md")
    ∷ (codes "Cars", codes "w/cars.md")
    ∷ (codes "Network", codes "k/n.md")
    ∷ []

abbrev link : ParsedLink
link = record {
  kind = wikilink;
  target = codes "networks.";
  anchor = none;
  line = 1;
  raw = codes "[[networks.]]";
}

resolves : resolved_path same_text lower pages (codes "Networks.") ≡ some (codes "k/n.md")
unfolding resolved_path same
resolves = refl

-- A title that two pages share is dropped from the exact index, and its stem may then name a page
-- with another title.
stemmed_collision : resolved_path same_text lower pages (codes "Cars") ≡ some (codes "k/car.md")
unfolding resolved_path same
stemmed_collision = refl

resolved_path-OnlyPath_example :
    OnlyPath (same (codes "Networks.")) (codes "k/n.md") pages
    ⊎ OnlyPath
        (under same_text lower (normalize_for_match same_text lower (codes "Networks.")))
        (codes "k/n.md")
        pages
resolved_path-OnlyPath_example =
    resolved_path-OnlyPath same_text lower pages (codes "Networks.") (codes "k/n.md") resolves

-- A link with an anchor on the first line and a URL on the second.
abbrev wiki_match : Match
wiki_match = record { start = 0; whole = codes "[[A#b]]"; group = codes "A#b" }

abbrev url_match : Match
url_match = record { start = 8; whole = codes "http://x"; group = codes "http://x" }

abbrev body_text : Text
body_text = codes "[[A#b]]" ++ 10 ∷ codes "http://x"

parse_links-InOrder_example : InOrder (parse_links (wiki_match ∷ []) [] (url_match ∷ []) body_text)
parse_links-InOrder_example = parse_links-InOrder (wiki_match ∷ []) [] (url_match ∷ []) body_text

lines_of_links :
    map (λ l. l.line) (parse_links (wiki_match ∷ []) [] (url_match ∷ []) body_text) ≡ 1 ∷ 2 ∷ []
unfolding parse_links
lines_of_links = refl
