-- ===== src/Lint/Frontmatter.antt =====
-- The readers of a page's metadata: `_read_lint_skip` of lint.py, `frontmatter_str_list` of
-- domains/knowledge/page.py, and `category_from_path` there.
use dikw_core.Prelude.{
  Text, same, Option, none, some, List, [], ◌∷◌, ◌++◌, ◌==◌, codes, if◌then◌else◌,
}
use dikw_core.Lint.{
  LintKind, lint_kinds, kind_name, Value, str, seq, dict, Items, nil, cons, Entries, end, field,
}

-- `metadata.get(key)`
unfoldable pub get_field : Text → Entries → Option Value
get_field key end = none
get_field key (field k v fs) = if same k key then some v else get_field key fs

unfoldable pub find_kind : Text → List LintKind → List LintKind
find_kind name [] = []
find_kind name (k ∷ ks) = if same (kind_name k) name then k ∷ [] else find_kind name ks

-- The loop over `raw_skip`
unfoldable pub skip_items : Items → List LintKind
unfolding find_kind
skip_items nil = []
skip_items (cons (str s) is) = find_kind s lint_kinds ++ skip_items is
skip_items (cons _ is) = skip_items is

abbrev pub skip_list : Option Value → List LintKind
unfolding skip_items
skip_list (some (seq is)) = skip_items is
skip_list _ = []

abbrev pub skip_block : Option Value → List LintKind
unfolding get_field
skip_block (some (dict fs)) = skip_list (get_field (codes "skip") fs)
skip_block _ = []

unfoldable pub read_lint_skip : Entries → List LintKind
unfolding get_field skip_items
read_lint_skip metadata = skip_block (get_field (codes "lint") metadata)

-- The texts of a list
unfoldable pub str_items : Items → List Text
str_items nil = []
str_items (cons (str s) is) = s ∷ str_items is
str_items (cons _ is) = str_items is

abbrev pub str_list : Option Value → List Text
unfolding str_items
str_list (some (seq is)) = str_items is
str_list _ = []

unfoldable pub frontmatter_str_list : Entries → Text → List Text
unfolding get_field str_items
frontmatter_str_list metadata key = str_list (get_field key metadata)

-- `path.split("/")`
unfoldable pub split_slash : Text → Text → List Text
split_slash part [] = part ∷ []
split_slash part (c ∷ s) =
    if c == 47 then part ∷ split_slash [] s else split_slash (part ++ c ∷ []) s

-- `"/".join(parts[:-1])`
unfoldable pub join_folders : List Text → Text
join_folders [] = []
join_folders (p ∷ []) = []
join_folders (p ∷ q ∷ []) = p
join_folders (p ∷ q ∷ r ∷ ps) = p ++ 47 ∷ join_folders (q ∷ r ∷ ps)

abbrev pub category_of : List Text → Text
unfolding join_folders same
category_of (root ∷ a ∷ b ∷ rest) =
    if same root (codes "knowledge") then join_folders (a ∷ b ∷ rest) else []
category_of _ = []

unfoldable pub category_from_path : Text → Text
unfolding split_slash join_folders same
category_from_path path = category_of (split_slash [] path)
