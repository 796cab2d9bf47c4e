-- ===== src/Lint.antt =====
-- The hygiene check of src/dikw_core/domains/knowledge/lint.py: its data, and what it reads from
-- outside. A metadata value is what the frontmatter library returns.
pub mod Frontmatter
pub mod Checks
pub mod Pages
pub mod Run
pub mod Skips
pub mod Live
pub mod PagePlaced
pub mod Placed
pub mod Orphans
pub mod Tests
use dikw_core.Prelude.{ℕ, Text, same, Bool, Option, none, some, List, [], ◌∷◌, ◌==◌, any, codes}
use dikw_core.Links.Parse.{Match}

pub data LintKind : Type 0 where
  broken_wikilink orphan_page duplicate_title non_atomic_page missing_provenance : LintKind
  invalid_wisdom_status uncategorized title_slug_quality missing_file stale_index : LintKind
  untracked_file dangling_provenance : LintKind

-- The literal of a kind
abbrev pub kind_name : LintKind → Text
kind_name broken_wikilink = codes "broken_wikilink"
kind_name orphan_page = codes "orphan_page"
kind_name duplicate_title = codes "duplicate_title"
kind_name non_atomic_page = codes "non_atomic_page"
kind_name missing_provenance = codes "missing_provenance"
kind_name invalid_wisdom_status = codes "invalid_wisdom_status"
kind_name uncategorized = codes "uncategorized"
kind_name title_slug_quality = codes "title_slug_quality"
kind_name missing_file = codes "missing_file"
kind_name stale_index = codes "stale_index"
kind_name untracked_file = codes "untracked_file"
kind_name dangling_provenance = codes "dangling_provenance"

-- `get_args(LintKind)`
abbrev pub lint_kinds : List LintKind
lint_kinds =
    broken_wikilink ∷ orphan_page ∷ duplicate_title ∷ non_atomic_page ∷ missing_provenance
    ∷ invalid_wisdom_status ∷ uncategorized ∷ title_slug_quality ∷ missing_file ∷ stale_index
    ∷ untracked_file ∷ dangling_provenance ∷ []

-- `k in kinds`
unfoldable pub mem_kind : LintKind → List LintKind → Bool
unfolding same
mem_kind k ks = any (λ j. same (kind_name j) (kind_name k)) ks

-- A value of the metadata; `scalar` is any but null, a text, a list or a dict. A dict is shown by
-- its items with text keys, a list by its items.
mutual
  pub data Value : Type 0 where
    null : Value
    str : Text → Value
    scalar : Text → Value
    seq : Items → Value
    dict : Entries → Value

  pub data Items : Type 0 where
    nil : Items
    cons : Value → Items → Items

  pub data Entries : Type 0 where
    end : Entries
    field : Text → Value → Entries → Entries

pub record Post : Type 0 where
  pub content : Text
  pub metadata : Entries

pub data Violation : Type 0 where
  body_chars h1_sections h2_sections distinct_wikilinks : ℕ → Violation
  tag_domains : List Text → Violation

pub record AtomicityVerdict : Type 0 where
  pub atomic : Bool
  pub violations : List Violation

pub data TitleViolation : Type 0 where
  no_heading : TitleViolation
  punctuation_only : Text → TitleViolation
  title_drift : Text → Text → TitleViolation
  fallback_slug : Text → TitleViolation

-- What the message of an issue prints.
pub data Detail : Type 0 where
  nothing : Detail
  source_counts : ℕ → ℕ → Detail
  source_gone : Text → Detail
  unmatched : Text → Detail
  glued : List Violation → Detail
  title_faults : List TitleViolation → Detail
  bad_status : Value → Detail
  category : Text → Detail
  shared_title : Text → Text → Detail

pub record LintIssue : Type 0 where
  pub kind : LintKind
  pub path : Text
  pub detail : Detail
  pub line : Option ℕ

pub record PageMeta : Type 0 where
  pub sources : List Text
  pub tags : List Text

pub record LintReport : Type 0 where
  pub issues : List LintIssue
  pub acknowledged_leaves : List Text
  pub page_meta : List (Text × PageMeta)

-- A path that `rglob` yields, relative to the base; `suffix` is in lower case, and `inside` tells
-- whether it resolves to a path under the base.
pub record DiskFile : Type 0 where
  pub rel : Text
  pub regular : Bool
  pub suffix : Text
  pub inside : Bool

-- The disk, the frontmatter library, the Unicode tables, the hash and the regular expressions.
-- `is_file` and `inside` are of a path joined to the base and resolved, `load` is none where
-- `frontmatter.load` raises, and `walk` is none where the layer has no directory.
pub record Outside : Type 0 where
  pub normalize : Text → Text
  pub nfkc : Text → Text
  pub casefold : Text → Text
  pub content_hash : Text → Text
  pub stem : Text → Text
  pub is_file : Text → Bool
  pub inside : Text → Bool
  pub load : Text → Option Post
  pub walk : Text → Option (List DiskFile)
  pub supported_extensions : List Text
  pub wikis : Text → List Match
  pub mds : Text → List Match
  pub urls : Text → List Match
  pub strip_fences : Text → Text
  pub h1_count : Text → ℕ
  pub h2_count : Text → ℕ
  pub first_h1 : Text → Option Text
  pub has_word : Text → Bool
