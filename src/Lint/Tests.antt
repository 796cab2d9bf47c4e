-- ===== src/Lint/Tests.antt =====
-- A small base, on which the theorems on lint.py are applied: a page that opts out of one kind, a
-- page whose file is gone, and a source. The Unicode tables change nothing.
use dikw_core.Prelude.{
  Text, codes, same, not, ◌≡◌, refl, true, none, some, [], ◌∷◌, All, map, if◌then◌else◌,
}
use dikw_core.Storage.{source, knowledge, Db}
use dikw_core.Storage.Tests.{document, two_documents}
use dikw_core.Lint.{
  kind_name, missing_file, orphan_page, uncategorized, title_slug_quality, untracked_file, seq, str,
  dict, nil, cons, end, field, Post, Outside, LintIssue,
}
use dikw_core.Lint.Run.{run_lint, live_page_docs, orphans, scan_live}
use dikw_core.Lint.Live.{IsPlaced}
use dikw_core.Lint.Placed.{run_lint-IsPlaced}
use dikw_core.Lint.Orphans.{lonely, orphans-exact}

abbrev same_text : Text → Text
same_text t = t

-- The page skips `stale_index`; its heading is missing.
abbrev page : Post
page = record {
  content = codes "text";
  metadata =
      field (codes "lint")
        (dict (field (codes "skip") (seq (cons (str (codes "stale_index")) nil)) end)) end;
}

abbrev disk : Outside
disk = record {
  normalize = same_text;
  nfkc = same_text;
  casefold = same_text;
  content_hash = λ t. codes "new";
  stem = λ p. codes "a";
  is_file = λ p. not (same p (codes "knowledge/gone.md"));
  inside = λ p. true;
  load = λ p. if same p (codes "knowledge/x/a.md") then some page else none;
  walk = λ p.
      if same p (codes "knowledge")
      then some (
          record {
            rel = codes "knowledge/new.md";
            regular = true;
            suffix = codes ".md";
            inside = true;
          }
          ∷ [])
      else none;
  supported_extensions = codes ".md" ∷ [];
  wikis = λ t. [];
  mds = λ t. [];
  urls = λ t. [];
  strip_fences = same_text;
  h1_count = λ t. 0;
  h2_count = λ t. 0;
  first_h1 = λ t. none;
  has_word = λ t. true;
}

abbrev base : Db
base = record two_documents {
  documents =
      document "knowledge/x/a.md" knowledge
      ∷ document "knowledge/gone.md" knowledge
      ∷ document "sources/s.md" source
      ∷ [];
  links = [];
}

reported_kinds :
    map (λ (i : LintIssue). kind_name i.kind) (run_lint disk (codes "x") base).issues
    ≡ map kind_name
        (missing_file ∷ title_slug_quality ∷ orphan_page ∷ uncategorized ∷ untracked_file ∷ [])
unfolding run_lint same
reported_kinds = refl

run_lint-IsPlaced_example : All (IsPlaced disk base) (run_lint disk (codes "x") base).issues
run_lint-IsPlaced_example = run_lint-IsPlaced disk base (codes "x")

orphans-exact_example :
    orphans
      (scan_live disk base (live_page_docs disk base)).suppressions
      (scan_live disk base (live_page_docs disk base)).inbound
      (live_page_docs disk base)
    ≡ lonely disk base (live_page_docs disk base) (live_page_docs disk base)
orphans-exact_example = orphans-exact disk base
