-- ===== src/Lint/Pages.antt =====
-- The loop of `run_lint` over the live pages: what it reports of one page, and what it keeps. The
-- tables are those of one moment.
use dikw_core.Prelude.{
  ℕ, suc, Text, same, Bool, true, false, not, ◌&&◌, ◌||◌, Option, none, some, List, [], ◌∷◌, ◌++◌,
  map, ◌==◌, all, select, length, codes, flatten, if◌then◌else◌,
}
use dikw_core.Prelude.Sort.{sort}
use dikw_core.Links.Normalize.{is_empty}
use dikw_core.Dicts.{set_item, update}
use dikw_core.Links.Index.{Dict, mem, lookup}
use dikw_core.Links.Resolve.{UnresolvedLink, resolve_links}
use dikw_core.Links.Parse.{parse_links}
use dikw_core.Storage.{
  knowledge, wisdom, same_layer, DocumentRecord, ProvenanceEdge, LinkRecord, Db, links_from,
}
use dikw_core.Lint.{
  LintKind, broken_wikilink, non_atomic_page, missing_provenance, invalid_wisdom_status,
  title_slug_quality, stale_index, dangling_provenance, mem_kind, Detail, Value, null, str, Post,
  nothing, source_counts, source_gone, unmatched, glued, title_faults, bad_status, LintIssue,
  PageMeta, Outside,
}
use dikw_core.Lint.Frontmatter.{get_field, read_lint_skip, frontmatter_str_list}
use dikw_core.Lint.Checks.{
  text_lt, strip, when, is_wikilink, check_atomicity, check_title_slug_quality,
}

-- `a == b` on dicts
unfoldable pub dict_eq : Dict Text → Dict Text → Bool
dict_eq a b =
    length a == length b
    && all (λ (kv : Text × Text). elim (lookup kv.0 b) [ none ↦ false | some v ↦ same v kv.1 ]) a

abbrev pub key_lt : ProvenanceEdge → ProvenanceEdge → Bool
key_lt a b = text_lt a.source_path_key b.source_path_key

unfoldable pub provenance_from : Text → Db → List ProvenanceEdge
unfolding sort text_lt
provenance_from id db = sort key_lt (select (λ e. same e.src_doc_id id) db.provenance)

-- `s.replace("\\", "/")`
abbrev pub slashes : Text → Text
slashes t = map (λ c. if c == 92 then 47 else c) t

-- An issue that names no line
abbrev pub page_issue : LintKind → Text → Detail → LintIssue
page_issue k path d = record { kind = k; path = path; detail = d; line = none }

-- An issue of a kind that the page has not opted out of
abbrev pub wanted : List LintKind → LintKind → Bool
wanted skip_kinds k = not (mem_kind k skip_kinds)

-- The metadata title, if it is a text
abbrev pub text_of : Option Value → Option Text
text_of (some (str t)) = some t
text_of _ = none

-- The status is neither null nor one that is known.
abbrev pub is_bad_status : Option Value → Bool
unfolding same
is_bad_status none = false
is_bad_status (some null) = false
is_bad_status (some (str s)) =
    not (mem s (codes "draft" ∷ codes "published" ∷ codes "favorite" ∷ codes "archived" ∷ []))
is_bad_status (some _) = true

-- What the loop keeps: `issues`, `suppressions`, `page_meta` and `inbound`
pub record Scan : Type 0 where
  pub issues : List LintIssue
  pub suppressions : Dict (List LintKind)
  pub page_meta : Dict PageMeta
  pub inbound : Dict ℕ

-- `inbound[path]`
unfoldable pub count : Text → Dict ℕ → ℕ
count path d = elim (lookup path d) [ none ↦ 0 | some n ↦ n ]

unfoldable pub count_links : List LinkRecord → Dict ℕ → Dict ℕ
unfolding count set_item
count_links [] d = d
count_links (l ∷ ls) d =
    count_links ls
      (if is_wikilink l.link_type then set_item l.dst_path (suc (count l.dst_path d)) d else d)

unfoldable pub broken_wikilinks : Text → List UnresolvedLink → List LintIssue
broken_wikilinks path us =
    map
      (λ (u : UnresolvedLink). record {
        kind = broken_wikilink;
        path = path;
        detail = unmatched u.target_text;
        line = some u.line;
      })
      us

module _ (o : Outside) where
  -- `existing_map` and `expected_map`
  unfoldable pub provenance_differs : List ProvenanceEdge → List Text → Bool
  unfolding update dict_eq
  provenance_differs edges sources = not (
      dict_eq (update (map (λ (e : ProvenanceEdge). (e.source_path_key, e.source_path)) edges) [])
        (update (map (λ s. (o.normalize s, s)) sources) []))

  unfoldable pub is_present : List Text → Text → Bool
  unfolding same
  is_present present_source_keys source_path =
      let rel = slashes source_path in
      (o.inside rel && o.is_file rel) || mem (o.normalize rel) present_source_keys

  unfoldable pub dangling : List Text → Text → List ProvenanceEdge → List LintIssue
  unfolding is_present
  dangling present_source_keys path [] = []
  dangling present_source_keys path (e ∷ es) =
      when (not (is_present present_source_keys e.source_path)) (record {
        kind = dangling_provenance;
        path = path;
        detail = source_gone e.source_path;
        line = none;
      })
      ++ dangling present_source_keys path es

  -- The links of a body that resolve to no page
  unfoldable pub unresolved_links : Dict Text × Dict (List Text) → Text → Text → List UnresolvedLink
  unfolding resolve_links parse_links
  unresolved_links (title_to_path, fuzzy_index) doc_id body =
      let links = parse_links (o.wikis body) (o.mds body) (o.urls body) body in
      let (resolved, unresolved) =
        resolve_links o.nfkc o.casefold title_to_path fuzzy_index doc_id links in
      unresolved

  module _ (db : Db) (present_source_keys : List Text)
      (indexes : Dict Text × Dict (List Text)) where
    unfoldable pub stale_issues : DocumentRecord → Post → List LintIssue
    unfolding read_lint_skip mem_kind same when
    stale_issues doc post =
        when
          (wanted (read_lint_skip post.metadata) stale_index
            && not (same (o.content_hash post.content) doc.hash))
          (page_issue stale_index doc.path nothing)

    unfoldable pub provenance_issues : DocumentRecord → Post → List LintIssue
    unfolding read_lint_skip mem_kind same when provenance_differs provenance_from
        frontmatter_str_list
    provenance_issues doc post =
        let sources = frontmatter_str_list post.metadata (codes "sources") in
        let existing = provenance_from doc.doc_id db in
        when
          (wanted (read_lint_skip post.metadata) missing_provenance
            && provenance_differs existing sources)
          (page_issue missing_provenance doc.path
            (source_counts (length sources) (length existing)))

    unfoldable pub dangling_issues : DocumentRecord → Post → List LintIssue
    unfolding read_lint_skip mem_kind same provenance_from dangling
    dangling_issues doc post =
        if wanted (read_lint_skip post.metadata) dangling_provenance
        then dangling present_source_keys doc.path (provenance_from doc.doc_id db)
        else []

    unfoldable pub broken_issues : DocumentRecord → Post → List LintIssue
    unfolding read_lint_skip mem_kind same unresolved_links broken_wikilinks
    broken_issues doc post =
        if wanted (read_lint_skip post.metadata) broken_wikilink
        then broken_wikilinks doc.path (unresolved_links indexes doc.doc_id post.content)
        else []

    unfoldable pub atomicity_issues : DocumentRecord → Post → List LintIssue
    unfolding read_lint_skip mem_kind same when check_atomicity frontmatter_str_list
    atomicity_issues doc post =
        let tags = frontmatter_str_list post.metadata (codes "tags") in
        let verdict =
          check_atomicity o post.content (select (λ t. not (is_empty (strip t))) tags) in
        when (wanted (read_lint_skip post.metadata) non_atomic_page && not verdict.atomic)
          (page_issue non_atomic_page doc.path (glued verdict.violations))

    unfoldable pub title_issues : DocumentRecord → Post → List LintIssue
    unfolding read_lint_skip mem_kind same same_layer when check_title_slug_quality get_field
    title_issues doc post =
        let faults =
          check_title_slug_quality o post.content
            (text_of (get_field (codes "title") post.metadata)) (o.stem doc.path) in
        when
          (wanted (read_lint_skip post.metadata) title_slug_quality
            && (same_layer doc.layer knowledge && not (is_empty faults)))
          (page_issue title_slug_quality doc.path (title_faults faults))

    unfoldable pub status_issues : DocumentRecord → Post → List LintIssue
    unfolding read_lint_skip mem_kind same same_layer when get_field
    status_issues doc post =
        let status = get_field (codes "status") post.metadata in
        when
          (wanted (read_lint_skip post.metadata) invalid_wisdom_status
            && (same_layer doc.layer wisdom && is_bad_status status))
          (page_issue invalid_wisdom_status doc.path
            (bad_status (elim status [ none ↦ null | some v ↦ v ])))

    -- The issues of one page that could be read, in the order of the source
    unfoldable pub page_issues : DocumentRecord → Post → List LintIssue
    unfolding flatten stale_issues provenance_issues dangling_issues broken_issues atomicity_issues
        title_issues status_issues
    page_issues doc post = flatten (
        stale_issues doc post
        ∷ provenance_issues doc post
        ∷ dangling_issues doc post
        ∷ broken_issues doc post
        ∷ atomicity_issues doc post
        ∷ title_issues doc post
        ∷ status_issues doc post
        ∷ [])

    -- The body of the loop; a page that cannot be read is passed over.
    unfoldable pub scan_page : DocumentRecord → Scan → Scan
    unfolding page_issues count_links set_item read_lint_skip frontmatter_str_list links_from
    scan_page doc s = elim (o.load doc.path) [
      | none ↦ s
      | some post ↦
          let skips = read_lint_skip post.metadata in
          record {
            issues = s.issues ++ page_issues doc post;
            suppressions =
                if is_empty skips then s.suppressions else set_item doc.path skips s.suppressions;
            page_meta =
                set_item doc.path
                  (record {
                    sources = frontmatter_str_list post.metadata (codes "sources");
                    tags = frontmatter_str_list post.metadata (codes "tags");
                  })
                  s.page_meta;
            inbound = count_links (links_from doc.doc_id db) s.inbound;
          }
    ]

    unfoldable pub scan_pages : List DocumentRecord → Scan → Scan
    unfolding scan_page
    scan_pages [] s = s
    scan_pages (d ∷ ds) s = scan_pages ds (scan_page d s)
