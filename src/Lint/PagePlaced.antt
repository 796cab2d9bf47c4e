-- ===== src/Lint/PagePlaced.antt =====
-- The issues of one page in `run_lint` are placed well.
use dikw_core.Prelude.{
  Text, same, ◌≡◌, refl, ◌∙◌, ap, inl, inr, Bool, true, false, not, ◌&&◌, none, some, List, [], ◌∷◌,
  All, All-append, All-flatten, length, select, Bool-cases, codes,
}
use dikw_core.Links.Normalize.{is_empty}
use dikw_core.Links.Index.{Dict}
use dikw_core.Links.Resolve.{UnresolvedLink}
use dikw_core.Storage.{same_layer, knowledge, wisdom, DocumentRecord, ProvenanceEdge, Db}
use dikw_core.Lint.{
  LintKind, broken_wikilink, non_atomic_page, missing_provenance, invalid_wisdom_status,
  title_slug_quality, stale_index, dangling_provenance, mem_kind, nothing, source_counts, glued,
  title_faults, bad_status, null, LintIssue, Post, Outside,
}
use dikw_core.Lint.Frontmatter.{read_lint_skip, frontmatter_str_list, get_field}
use dikw_core.Lint.Checks.{check_atomicity, check_title_slug_quality, strip, when}
use dikw_core.Lint.Pages.{
  stale_issues, provenance_issues, dangling_issues, broken_issues, atomicity_issues, title_issues,
  status_issues, page_issues, dangling, broken_wikilinks, page_issue, wanted, provenance_from,
  provenance_differs, text_of, is_bad_status, unresolved_links,
}
use dikw_core.Lint.Skips.{opted_out, opted_out_read}
use dikw_core.Lint.Live.{IsLive, Placed, IsPlaced}

pub All-when :
    (P : LintIssue → Type 0) (b : Bool) (i : LintIssue) → (b ≡ true → P i) → All P (when b i)
unfolding when
All-when P true i h = (h refl, tt)
All-when P false i h = tt

module _ (o : Outside) where
  module _ (db : Db) where
    dangling-placed :
        (keys : List Text) (p : Text) (es : List ProvenanceEdge)
        → Placed o db dangling_provenance p
        → All (IsPlaced o db) (dangling o keys p es)
    unfolding dangling
    dangling-placed keys p [] h = tt
    dangling-placed keys p (e ∷ es) h =
        All-append (IsPlaced o db) (when _ _) _ (All-when _ _ _ (λ k. h))
          (dangling-placed keys p es h)

    broken-placed :
        (p : Text) (us : List UnresolvedLink)
        → Placed o db broken_wikilink p
        → All (IsPlaced o db) (broken_wikilinks p us)
    unfolding broken_wikilinks
    broken-placed p [] h = tt
    broken-placed p (u ∷ us) h = (h, broken-placed p us h)

    module _ (keys : List Text) (idx : Dict Text × Dict (List Text)) (d : DocumentRecord)
        (post : Post) (h : IsLive o db d.path) (e : o.load d.path ≡ some post) where
      -- A kind that the page asks to skip is not reported.
      wanted-placed :
          (k : LintKind) (c : Bool) (i : LintIssue)
          → (mem_kind k (opted_out o d.path) ≡ false → IsPlaced o db i)
          → All (IsPlaced o db) (when (wanted (read_lint_skip post.metadata) k && c) i)
      wanted-placed k c i f = elim (Bool-cases (mem_kind k (read_lint_skip post.metadata))) [
        | inl n ↦ rw n (All-when (IsPlaced o db) (false && c) i (λ m. cc))
        | inr n ↦ rw n (
            All-when (IsPlaced o db) (true && c) i
              (λ m. f (ap (mem_kind k) (opted_out_read o d.path post e) ∙ n)))
      ]

      stale-placed : All (IsPlaced o db) (stale_issues o db keys idx d post)
      unfolding stale_issues
      stale-placed =
          wanted-placed stale_index (not (same (o.content_hash post.content) d.hash))
            (page_issue stale_index d.path nothing) (λ n. (h, n))

      provenance-placed : All (IsPlaced o db) (provenance_issues o db keys idx d post)
      unfolding provenance_issues
      provenance-placed =
          let sources = frontmatter_str_list post.metadata (codes "sources") in
          let existing = provenance_from d.doc_id db in
          wanted-placed missing_provenance (provenance_differs o existing sources)
            (page_issue missing_provenance d.path
              (source_counts (length sources) (length existing)))
            (λ n. (h, n))

      atomicity-placed : All (IsPlaced o db) (atomicity_issues o db keys idx d post)
      unfolding atomicity_issues
      atomicity-placed =
          let tags = frontmatter_str_list post.metadata (codes "tags") in
          let verdict =
            check_atomicity o post.content (select (λ t. not (is_empty (strip t))) tags) in
          wanted-placed non_atomic_page (not verdict.atomic)
            (page_issue non_atomic_page d.path (glued verdict.violations)) (λ n. (h, n))

      title-placed : All (IsPlaced o db) (title_issues o db keys idx d post)
      unfolding title_issues
      title-placed =
          let faults =
            check_title_slug_quality o post.content
              (text_of (get_field (codes "title") post.metadata)) (o.stem d.path) in
          wanted-placed title_slug_quality (same_layer d.layer knowledge && not (is_empty faults))
            (page_issue title_slug_quality d.path (title_faults faults)) (λ n. (h, n))

      status-placed : All (IsPlaced o db) (status_issues o db keys idx d post)
      unfolding status_issues
      status-placed =
          let status = get_field (codes "status") post.metadata in
          wanted-placed invalid_wisdom_status (same_layer d.layer wisdom && is_bad_status status)
            (page_issue invalid_wisdom_status d.path
              (bad_status (elim status [ none ↦ null | some v ↦ v ])))
            (λ n. (h, n))

      dangling_issues-placed : All (IsPlaced o db) (dangling_issues o db keys idx d post)
      unfolding dangling_issues
      dangling_issues-placed =
          elim (Bool-cases (mem_kind dangling_provenance (read_lint_skip post.metadata))) [
            | inl n ↦ rw n tt
            | inr n ↦ rw n (
                dangling-placed keys d.path (provenance_from d.doc_id db)
                  (h, ap (mem_kind dangling_provenance) (opted_out_read o d.path post e) ∙ n))
          ]

      broken_issues-placed : All (IsPlaced o db) (broken_issues o db keys idx d post)
      unfolding broken_issues
      broken_issues-placed =
          elim (Bool-cases (mem_kind broken_wikilink (read_lint_skip post.metadata))) [
            | inl n ↦ rw n tt
            | inr n ↦ rw n (
                broken-placed d.path (unresolved_links o idx d.doc_id post.content)
                  (h, ap (mem_kind broken_wikilink) (opted_out_read o d.path post e) ∙ n))
          ]

      pub page_issues-placed : All (IsPlaced o db) (page_issues o db keys idx d post)
      unfolding page_issues
      page_issues-placed =
          All-flatten (IsPlaced o db)
            (stale_issues o db keys idx d post
              ∷ provenance_issues o db keys idx d post
              ∷ dangling_issues o db keys idx d post
              ∷ broken_issues o db keys idx d post
              ∷ atomicity_issues o db keys idx d post
              ∷ title_issues o db keys idx d post
              ∷ status_issues o db keys idx d post
              ∷ [])
            (
              stale-placed,
              (
                provenance-placed,
                (
                  dangling_issues-placed,
                  (broken_issues-placed, (atomicity-placed, (title-placed, (status-placed, tt)))),
                ),
              ),
            )
