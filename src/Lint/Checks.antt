-- ===== src/Lint/Checks.antt =====
-- `check_atomicity` and `check_title_slug_quality` of lint.py, and the order and sets of texts.
use dikw_core.Prelude.{
  ℕ, Text, same, Bool, true, false, not, ◌&&◌, ◌||◌, Option, none, some, List, [], ◌∷◌, ◌++◌, map,
  ◌==◌, ltb, leb, any, select, length, codes, if◌then◌else◌,
}
use dikw_core.Prelude.Sort.{sort}
use dikw_core.Links.Normalize.{is_empty}
use dikw_core.Links.Index.{mem}
use dikw_core.Links.Resolve.{LinkType, wikilink, markdown, url}
use dikw_core.Links.Parse.{lstrip, rstrip, parse_links}
use dikw_core.Lint.{
  body_chars, h1_sections, h2_sections, distinct_wikilinks, tag_domains, AtomicityVerdict,
  TitleViolation, no_heading, punctuation_only, title_drift, fallback_slug, Outside,
}

-- `a < b` on texts
unfoldable pub text_lt : Text → Text → Bool
text_lt s [] = false
text_lt [] (b ∷ t) = true
text_lt (a ∷ s) (b ∷ t) = if a == b then text_lt s t else ltb a b

-- The items of `set(texts)`
unfoldable pub distinct : List Text → List Text
distinct [] = []
distinct (t ∷ ts) = let rest = distinct ts in if mem t rest then rest else t ∷ rest

unfoldable pub sorted : List Text → List Text
unfolding text_lt sort
sorted ts = sort text_lt ts

abbrev pub strip : Text → Text
strip t = rstrip (lstrip t)

abbrev pub is_wikilink : LinkType → Bool
is_wikilink wikilink = true
is_wikilink markdown = false
is_wikilink url = false

-- `t.split("/", 1)[0]`
unfoldable pub before_slash : Text → Text
before_slash [] = []
before_slash (c ∷ s) = if c == 47 then [] else c ∷ before_slash s

-- What is reported under a test
unfoldable pub when {ℓ} : {A : Type ℓ} → Bool → A → List A
when b x = if b then x ∷ [] else []

unfoldable pub check_atomicity : Outside → Text → List Text → AtomicityVerdict
unfolding distinct sorted before_slash same parse_links when
check_atomicity o body tags =
    let prose = o.strip_fences body in
    let h1 = o.h1_count prose in
    let h2 = o.h2_count prose in
    let links = parse_links (o.wikis body) (o.mds body) (o.urls body) body in
    let targets = distinct (map (λ l. l.target) (select (λ l. is_wikilink l.kind) links)) in
    let namespaced = select (λ t. any (λ c. c == 47) t) tags in
    let domains = sorted (distinct (map (λ t. strip (before_slash t)) namespaced)) in
    let violations =
      when (ltb 2500 (length body)) (body_chars (length body))
      ++ (when (ltb 1 h1) (h1_sections h1)
          ++ (when (ltb 3 h2) (h2_sections h2)
              ++ (when (ltb 15 (length targets)) (distinct_wikilinks (length targets))
                  ++ when (ltb 1 (length domains)) (tag_domains domains)))) in
    record { atomic = is_empty violations; violations = violations }

-- `[A-Za-z0-9]`
abbrev pub is_sluggable : ℕ → Bool
is_sluggable c = (leb 65 c && leb c 90) || ((leb 97 c && leb c 122) || (leb 48 c && leb c 57))

-- The heading without spaces round it, if anything is left.
abbrev pub usable : Option Text → Option Text
usable none = none
usable (some h) = if is_empty (strip h) then none else some (strip h)

abbrev pub or_empty : Option Text → Text
or_empty none = []
or_empty (some t) = t

abbrev pub heading_faults : Outside → Option Text → List TitleViolation
unfolding when
heading_faults o none = no_heading ∷ []
heading_faults o (some h) = when (not (o.has_word h)) (punctuation_only h)

abbrev pub drift_faults : Text → Option Text → List TitleViolation
unfolding same when
drift_faults fm none = []
drift_faults fm (some h) = when (not (is_empty fm) && not (same fm h)) (title_drift fm h)

unfoldable pub check_title_slug_quality : Outside → Text → Option Text → Text → List TitleViolation
unfolding same when
check_title_slug_quality o body frontmatter_title stem =
    let h1 = usable (o.first_h1 (o.strip_fences body)) in
    let fm = strip (or_empty frontmatter_title) in
    let title = if is_empty fm then or_empty h1 else fm in
    heading_faults o h1
    ++ (drift_faults fm h1
        ++ when (same stem (codes "untitled") && not (any is_sluggable title)) (fallback_slug stem))
