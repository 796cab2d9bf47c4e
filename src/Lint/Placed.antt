-- ===== src/Lint/Placed.antt =====
-- The issues of `run_lint`: where they may be reported.
use dikw_core.Prelude.{
  ℕ, Text, same, ◌≡◌, refl, sym, ◌∙◌, ap, inl, inr, Bool, true, false, not, ◌&&◌, Option, none,
  some, List, [], ◌∷◌, All, All-append, All-flatten, arith, Bool-cases, Option-cases, codes, ◌==◌,
}
use dikw_core.Links.Index.{Dict, mem}
use dikw_core.Storage.{DocumentRecord, Db}
use dikw_core.Lint.{
  LintKind, orphan_page, duplicate_title, uncategorized, untracked_file, mem_kind, nothing,
  category, shared_title, LintIssue, DiskFile, Outside,
}
use dikw_core.Lint.Frontmatter.{category_from_path}
use dikw_core.Lint.Checks.{when, sorted}
use dikw_core.Lint.Pages.{Scan, count, page_issues, scan_page, scan_pages, slashes, page_issue}
use dikw_core.Lint.Run.{
  missing_paths, missing_issues, live_page_docs, skips_of, orphans, uncategorized_pages,
  extra_paths, duplicates, append_path, title_to_paths, title_of, scan_live, indexes,
  present_source_keys, is_page_file, untracked_files, untracked_layer, tracked_keys, run_lint,
}
use dikw_core.Lint.Skips.{opted_out, skips-scan_pages}
use dikw_core.Lint.Live.{IsLive, IsPlaced, live_page_docs-IsLive, missing-placed}
use dikw_core.Lint.PagePlaced.{All-when, page_issues-placed}

false_of_not : (b : Bool) → not b ≡ true → b ≡ false
false_of_not b h = ground arith

not_right : (b c : Bool) → (b && not c) ≡ true → c ≡ false
not_right b c h = ground arith

All-both :
    (P Q : DocumentRecord → Type 0) (docs : List DocumentRecord)
    → All P docs
    → All Q docs
    → All (λ d. P d × Q d) docs
All-both P Q [] p q = tt
All-both P Q (d ∷ ds) p q = ((p.0, q.0), All-both P Q ds p.1 q.1)

module _ (o : Outside) (db : Db) where
  scan_pages-placed :
      (keys : List Text) (idx : Dict Text × Dict (List Text)) (docs : List DocumentRecord)
      (s : Scan)
      → All (λ (d : DocumentRecord). IsLive o db d.path) docs
      → All (IsPlaced o db) s.issues
      → All (IsPlaced o db) (scan_pages o db keys idx docs s).issues
  unfolding scan_pages scan_page
  scan_pages-placed keys idx [] s h k = k
  scan_pages-placed keys idx (d ∷ ds) s h k = elim (Option-cases (o.load d.path)) [
    | inl e ↦ scan_pages-placed keys idx ds (scan_page o db keys idx d s) h.1 (rw (scan_page, e) k)
    | inr (post, e) ↦ scan_pages-placed keys idx ds (scan_page o db keys idx d s) h.1 (
        rw (scan_page, e)
          (All-append (IsPlaced o db) s.issues (page_issues o db keys idx d post) k
            (page_issues-placed o db keys idx d post h.0 e)))
  ]

  -- The later passes, with the opt-outs that the scan has gathered
  module _ (skips : Dict (List LintKind)) where
    abbrev Fits : Text → Type 0
    Fits p = IsLive o db p × (skips_of skips p ≡ opted_out o p)

    late :
        (k : LintKind) (c : Bool) (i : LintIssue)
        → (mem_kind k (opted_out o i.path) ≡ false → IsPlaced o db i)
        → skips_of skips i.path ≡ opted_out o i.path
        → All (IsPlaced o db) (when (not (mem_kind k (skips_of skips i.path)) && c) i)
    late k c i f e = rw e (elim (Bool-cases (mem_kind k (opted_out o i.path))) [
      | inl n ↦ rw n (All-when (IsPlaced o db) (false && c) i (λ m. cc))
      | inr n ↦ rw n (All-when (IsPlaced o db) (true && c) i (λ m. f n))
    ])

    orphans-placed :
        (inbound : Dict ℕ) (docs : List DocumentRecord)
        → All (λ (d : DocumentRecord). Fits d.path) docs
        → All (IsPlaced o db) (orphans skips inbound docs)
    unfolding orphans
    orphans-placed inbound [] h = tt
    orphans-placed inbound (d ∷ ds) h =
        All-append (IsPlaced o db) (when _ (page_issue orphan_page d.path nothing)) _
          (late orphan_page (count d.path inbound == 0) (page_issue orphan_page d.path nothing)
            (λ n. (h.0.0, n)) h.0.1)
          (orphans-placed inbound ds h.1)

    uncategorized-placed :
        (fallback : Text) (docs : List DocumentRecord)
        → All (λ (d : DocumentRecord). Fits d.path) docs
        → All (IsPlaced o db) (uncategorized_pages fallback skips docs)
    unfolding uncategorized_pages
    uncategorized-placed fallback [] h = tt
    uncategorized-placed fallback (d ∷ ds) h =
        All-append (IsPlaced o db) (when _ (page_issue uncategorized d.path (category fallback))) _
          (late uncategorized (same (category_from_path d.path) fallback)
            (page_issue uncategorized d.path (category fallback)) (λ n. (h.0.0, n)) h.0.1)
          (uncategorized-placed fallback ds h.1)

    extra_paths-placed :
        (title primary : Text) (ps : List Text)
        → All Fits ps
        → All (IsPlaced o db) (extra_paths title primary skips ps)
    unfolding extra_paths
    extra_paths-placed title primary [] h = tt
    extra_paths-placed title primary (p ∷ ps) h =
        All-append (IsPlaced o db)
          (when _ (page_issue duplicate_title p (shared_title title primary))) _
          (All-when (IsPlaced o db) (not (mem_kind duplicate_title (skips_of skips p)))
            (page_issue duplicate_title p (shared_title title primary))
            (λ n. (h.0.0, ap (mem_kind duplicate_title) (sym h.0.1) ∙ false_of_not _ n)))
          (extra_paths-placed title primary ps h.1)

    abbrev AllFit : Dict (List Text) → Type 0
    AllFit d = All (λ (kv : Text × List Text). All Fits kv.1) d

    duplicates-placed : (d : Dict (List Text)) → AllFit d → All (IsPlaced o db) (duplicates skips d)
    unfolding duplicates
    duplicates-placed [] h = tt
    duplicates-placed ((t, []) ∷ d) h = duplicates-placed d h.1
    duplicates-placed ((t, p ∷ ps) ∷ d) h =
        All-append (IsPlaced o db) (extra_paths t p skips ps) (duplicates skips d)
          (extra_paths-placed t p ps h.0.1) (duplicates-placed d h.1)

    AllFit-append_path :
        (title p : Text) (d : Dict (List Text)) → Fits p → AllFit d → AllFit (append_path title p d)
    unfolding append_path
    AllFit-append_path title p [] f h = ((f, tt), tt)
    AllFit-append_path title p ((t, ps) ∷ d) f h = elim (Bool-cases (same title t)) [
      | inl e ↦ rw e (All-append Fits ps (p ∷ []) h.0 (f, tt), h.1)
      | inr e ↦ rw e (h.0, AllFit-append_path title p d f h.1)
    ]

    AllFit-title_to_paths :
        (docs : List DocumentRecord) (d : Dict (List Text))
        → All (λ (c : DocumentRecord). Fits c.path) docs
        → AllFit d
        → AllFit (title_to_paths o docs d)
    unfolding title_to_paths
    AllFit-title_to_paths [] d f h = h
    AllFit-title_to_paths (c ∷ docs) d f h =
        AllFit-title_to_paths docs (append_path (title_of o c) c.path d) f.1
          (AllFit-append_path (title_of o c) c.path d f.0 h)

  untracked_files-placed :
      (fs : List DiskFile) → All (IsPlaced o db) (untracked_files o (tracked_keys o db) fs)
  unfolding untracked_files
  untracked_files-placed [] = tt
  untracked_files-placed (f ∷ fs) =
      All-append (IsPlaced o db) (when _ (page_issue untracked_file (slashes f.rel) nothing)) _
        (All-when (IsPlaced o db)
          (is_page_file o f && not (mem (o.normalize (slashes f.rel)) (tracked_keys o db)))
          (page_issue untracked_file (slashes f.rel) nothing) (not_right (is_page_file o f) _))
        (untracked_files-placed fs)

  untracked_layer-placed :
      (walked : Option (List DiskFile))
      → All (IsPlaced o db) (untracked_layer o (tracked_keys o db) walked)
  unfolding untracked_layer
  untracked_layer-placed none = tt
  untracked_layer-placed (some fs) = untracked_files-placed fs

  -- Every issue in a report of `run_lint` is placed well. A missing file is reported at the path of
  -- an active row whose file is not there; an untracked file at a path that no active page has. Any
  -- other issue is at the path of an active knowledge or wisdom page whose file is there, so that a
  -- page whose file is gone is reported as missing only, and the page has not opted out of the kind.
  pub run_lint-IsPlaced : (fallback : Text) → All (IsPlaced o db) (run_lint o fallback db).issues
  unfolding run_lint scan_live
  run_lint-IsPlaced fallback =
      let docs = live_page_docs o db in
      let s = scan_live o db docs in
      let live = live_page_docs-IsLive o db in
      let right =
        skips-scan_pages o db (present_source_keys o db) (indexes o docs) docs
          (record { issues = []; suppressions = []; page_meta = []; inbound = [] })
          (λ p. inl refl) in
      let fits = All-both _ _ docs live right in
      All-flatten (IsPlaced o db)
        (missing_issues (sorted (missing_paths o db))
          ∷ s.issues
          ∷ orphans s.suppressions s.inbound docs
          ∷ uncategorized_pages fallback s.suppressions docs
          ∷ duplicates s.suppressions (title_to_paths o docs [])
          ∷ untracked_layer o (tracked_keys o db) (o.walk (codes "knowledge"))
          ∷ untracked_layer o (tracked_keys o db) (o.walk (codes "wisdom"))
          ∷ [])
        (
          missing-placed o db,
          (
            scan_pages-placed (present_source_keys o db) (indexes o docs) docs
                (record { issues = []; suppressions = []; page_meta = []; inbound = [] }) live tt,
            (
              orphans-placed s.suppressions s.inbound docs fits,
              (
                uncategorized-placed s.suppressions fallback docs fits,
                (
                  duplicates-placed s.suppressions (title_to_paths o docs [])
                      (AllFit-title_to_paths s.suppressions docs [] fits tt),
                  (
                    untracked_layer-placed (o.walk (codes "knowledge")),
                    (untracked_layer-placed (o.walk (codes "wisdom")), tt),
                  ),
                ),
              ),
            ),
          ),
        )
