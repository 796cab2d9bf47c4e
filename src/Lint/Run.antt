-- ===== src/Lint/Run.antt =====
-- `run_lint` of lint.py: the missing files, the loop over the live pages, and the passes behind it.
use dikw_core.Prelude.{
  ℕ, Text, same, Bool, true, not, ◌&&◌, Option, none, some, List, [], ◌∷◌, ◌++◌, map, flatten, ◌==◌,
  any, select, codes, if◌then◌else◌,
}
use dikw_core.Prelude.Sort.{sort}
use dikw_core.Links.Normalize.{is_empty}
use dikw_core.Links.Index.{Dict, mem, lookup, build_title_indexes}
use dikw_core.Links.Parse.{starts_with}
use dikw_core.Storage.{source, knowledge, wisdom, DocumentRecord, Db, list_documents}
use dikw_core.Lint.{
  LintKind, orphan_page, duplicate_title, uncategorized, missing_file, untracked_file, mem_kind,
  nothing, category, shared_title, LintIssue, LintReport, DiskFile, Outside,
}
use dikw_core.Lint.Frontmatter.{split_slash, category_from_path}
use dikw_core.Lint.Checks.{text_lt, distinct, sorted, when}
use dikw_core.Lint.Pages.{slashes, page_issue, Scan, count, scan_pages}

unfoldable pub page_docs : Db → List DocumentRecord
unfolding list_documents
page_docs db =
    list_documents (some knowledge) (some true) none db
    ++ list_documents (some wisdom) (some true) none db

unfoldable pub source_docs : Db → List DocumentRecord
unfolding list_documents
source_docs db = list_documents (some source) (some true) none db

abbrev pub path_lt : DocumentRecord → DocumentRecord → Bool
path_lt a b = text_lt a.path b.path

-- `title_to_paths[title].append(path)`
unfoldable pub append_path : Text → Text → Dict (List Text) → Dict (List Text)
append_path title path [] = (title, path ∷ []) ∷ []
append_path title path ((t, ps) ∷ d) =
    if same title t then (t, ps ++ path ∷ []) ∷ d else (t, ps) ∷ append_path title path d

-- `suppressions.get(path, set())`
abbrev pub skips_of : Dict (List LintKind) → Text → List LintKind
skips_of d path = elim (lookup path d) [ none ↦ [] | some ks ↦ ks ]

unfoldable pub missing_issues : List Text → List LintIssue
missing_issues paths = map (λ p. page_issue missing_file p nothing) paths

-- The pages that no page links to
unfoldable pub orphans : Dict (List LintKind) → Dict ℕ → List DocumentRecord → List LintIssue
unfolding mem_kind count when
orphans skips inbound [] = []
orphans skips inbound (d ∷ ds) =
    when (not (mem_kind orphan_page (skips_of skips d.path)) && count d.path inbound == 0)
      (page_issue orphan_page d.path nothing)
    ++ orphans skips inbound ds

unfoldable pub uncategorized_pages :
    Text → Dict (List LintKind) → List DocumentRecord → List LintIssue
unfolding mem_kind category_from_path same when
uncategorized_pages fallback skips [] = []
uncategorized_pages fallback skips (d ∷ ds) =
    when
      (not (mem_kind uncategorized (skips_of skips d.path))
        && same (category_from_path d.path) fallback)
      (page_issue uncategorized d.path (category fallback))
    ++ uncategorized_pages fallback skips ds

-- The paths of a title behind the first
unfoldable pub extra_paths : Text → Text → Dict (List LintKind) → List Text → List LintIssue
unfolding mem_kind when
extra_paths title primary skips [] = []
extra_paths title primary skips (p ∷ ps) =
    when (not (mem_kind duplicate_title (skips_of skips p)))
      (page_issue duplicate_title p (shared_title title primary))
    ++ extra_paths title primary skips ps

unfoldable pub duplicates : Dict (List LintKind) → Dict (List Text) → List LintIssue
unfolding extra_paths
duplicates skips [] = []
duplicates skips ((title, []) ∷ d) = duplicates skips d
duplicates skips ((title, p ∷ ps) ∷ d) = extra_paths title p skips ps ++ duplicates skips d

module _ (o : Outside) where
  -- `missing_paths`
  unfoldable pub missing_paths : Db → List Text
  unfolding source_docs page_docs distinct
  missing_paths db = distinct (
      map (λ (d : DocumentRecord). d.path)
        (select (λ d. not (o.is_file d.path)) (source_docs db ++ page_docs db)))

  unfoldable pub live_page_docs : Db → List DocumentRecord
  unfolding page_docs missing_paths sort
  live_page_docs db =
      sort path_lt (select (λ d. not (mem d.path (missing_paths db))) (page_docs db))

  unfoldable pub present_source_keys : Db → List Text
  unfolding source_docs missing_paths
  present_source_keys db =
      map (λ (d : DocumentRecord). o.normalize d.path)
        (select (λ d. not (mem d.path (missing_paths db))) (source_docs db))

  -- `doc.title or Path(doc.path).stem`
  unfoldable pub title_of : DocumentRecord → Text
  title_of d = elim d.title [
    | none ↦ o.stem d.path
    | some t ↦ if is_empty t then o.stem d.path else t
  ]

  unfoldable pub title_to_paths : List DocumentRecord → Dict (List Text) → Dict (List Text)
  unfolding append_path title_of
  title_to_paths [] d = d
  title_to_paths (doc ∷ docs) d = title_to_paths docs (append_path (title_of doc) doc.path d)

  unfoldable pub indexes : List DocumentRecord → Dict Text × Dict (List Text)
  unfolding title_of build_title_indexes
  indexes docs = build_title_indexes o.nfkc o.casefold (map (λ d. (title_of d, d.path)) docs)

  unfoldable pub scan_live : Db → List DocumentRecord → Scan
  unfolding present_source_keys indexes scan_pages
  scan_live db docs =
      scan_pages o db (present_source_keys db) (indexes docs) docs
        (record { issues = []; suppressions = []; page_meta = []; inbound = [] })

  -- A Markdown file of the layer that lies under the base and in no hidden folder
  unfoldable pub is_page_file : DiskFile → Bool
  unfolding split_slash same
  is_page_file f =
      f.regular
      && (mem f.suffix o.supported_extensions
          && (f.inside && not (any (λ p. starts_with (codes ".") p) (split_slash [] f.rel))))

  unfoldable pub untracked_files : List Text → List DiskFile → List LintIssue
  unfolding is_page_file same when
  untracked_files tracked [] = []
  untracked_files tracked (f ∷ fs) =
      let rel = slashes f.rel in
      when (is_page_file f && not (mem (o.normalize rel) tracked))
        (page_issue untracked_file rel nothing)
      ++ untracked_files tracked fs

  -- One layer directory, if it is there
  unfoldable pub untracked_layer : List Text → Option (List DiskFile) → List LintIssue
  unfolding untracked_files
  untracked_layer tracked none = []
  untracked_layer tracked (some fs) = untracked_files tracked fs

  unfoldable pub tracked_keys : Db → List Text
  unfolding page_docs
  tracked_keys db = map (λ (d : DocumentRecord). o.normalize d.path) (page_docs db)

  unfoldable pub run_lint : Text → Db → LintReport
  unfolding flatten missing_issues missing_paths sorted live_page_docs scan_live orphans
      uncategorized_pages duplicates title_to_paths untracked_layer tracked_keys
  run_lint fallback db =
      let docs = live_page_docs db in
      let s = scan_live db docs in
      let tracked = tracked_keys db in
      record {
        issues = flatten (
            missing_issues (sorted (missing_paths db))
            ∷ s.issues
            ∷ orphans s.suppressions s.inbound docs
            ∷ uncategorized_pages fallback s.suppressions docs
            ∷ duplicates s.suppressions (title_to_paths docs [])
            ∷ untracked_layer tracked (o.walk (codes "knowledge"))
            ∷ untracked_layer tracked (o.walk (codes "wisdom"))
            ∷ []);
        acknowledged_leaves = sorted (map (λ kv. kv.0) s.suppressions);
        page_meta = s.page_meta;
      }
