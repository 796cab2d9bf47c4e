-- ===== src/Trash/Tests.antt =====
-- Concrete files, on which the theorems on trash.py are applied: a page with a metadata block, which
-- stands for the frontmatter, and the library reads it as one key.
use dikw_core.Prelude.{
  String, Text, codes, same, same→eq, ◌≡◌, refl, ap, true, false, Option, none, some, List, [], ◌∷◌,
  ◌++◌, if◌then◌else◌, str_eq, last?, arith, Bool-cases, inl, inr,
}
use dikw_core.Trash.{Post, System, tmp_of, in_trash, move_to_trash}
use dikw_core.Trash.Disk.{FilePath, same_path, Files, os_error, Step, ok, raised, Holds}
use dikw_core.Trash.Stages.{same_path_sym}
use dikw_core.Trash.Safety.{Trashed, Unharmed, move_to_trash-moves}
use dikw_core.Trash.Atomic.{
  atomic_tmp, atomic_write_text, Replaced, Left, atomic_write_text-Replaced,
}
use dikw_core.Trash.Restore.{Returned, Undone, move_to_trash-restores}

abbrev pub file_at : String → String → FilePath
file_at parent name = record { parent = codes parent; name = codes name }

abbrev pub page : FilePath
page = file_at "knowledge/" "dead.md"

abbrev pub neighbour : FilePath
neighbour = file_at "knowledge/" "live.md"

-- Texts parse but for `broken`, and all metadata are texts.
abbrev pub parse : String → Option (Post String)
parse s = if str_eq s "broken" then none else some (record { metadata = []; content = s })

abbrev pub print : Post String → String
print p = elim p.metadata [ [] ↦ p.content | m ∷ ms ↦ "stamped" ]

abbrev pub dict : List (String × String) → String
dict d = "block"

-- Every call succeeds.
abbrev pub calm : System
calm = record {
  clock = λ ms. codes "20260101T000000Z";
  stamp_time = "2026-01-01T00:00:00+00:00";
  reads = none;
  makes_parent = none;
  reserves = λ ms. none;
  moves = none;
  writes = none;
  replaces = none;
  unlinks_source = none;
  removes_tmp = true;
  removes_dest = true;
}

-- The disk fills up while the temporary file is written.
abbrev pub full_disk : System
full_disk = record calm { writes = some (os_error, some "stam") }

-- The page, its neighbour, and an earlier copy of the page in the trash
abbrev pub files : Files
files q =
    if same_path q page
    then some "text"
    else if same_path q neighbour
    then some "other"
    else if same_path q (in_trash page)
    then some "old"
    else none

last?-tmp : (n : Text) → last? (n ++ codes ".tmp") ≡ some 112
last?-tmp [] = refl
last?-tmp (c ∷ []) = refl
last?-tmp (c ∷ d ∷ n) = last?-tmp (d ∷ n)

-- A name that ends in `d` is no temporary one.
pub not_tmp : (q d : FilePath) → last? q.name ≡ some 100 → same_path q (tmp_of d) ≡ false
unfolding same_path tmp_of
not_tmp q d h = elim (Bool-cases (same q.name (d.name ++ codes ".tmp"))) [
  | inl e ↦
      let k : last? q.name ≡ last? (d.name ++ codes ".tmp") =
        ap last? (same→eq q.name (d.name ++ codes ".tmp") e) in
      absurd (ground (arith, k, h, last?-tmp d.name))
  | inr e ↦ ground (arith, e)
]

pub files-tmp : (d : FilePath) → files (tmp_of d) ≡ none
unfolding in_trash
files-tmp d =
    rw
      (
        same_path_sym (tmp_of d) page,
        not_tmp page d refl,
        same_path_sym (tmp_of d) neighbour,
        not_tmp neighbour d refl,
        same_path_sym (tmp_of d) (in_trash page),
        not_tmp (in_trash page) d refl,
      )
      refl

-- What stands at the path of the earlier copy afterwards
abbrev second_copy : Step FilePath → Option String
second_copy (ok d fs) = fs (in_trash page)
second_copy (raised e fs) = none

second_copy-files :
    second_copy (move_to_trash parse print dict calm page page "delete" "" files) ≡ some "old"
unfolding move_to_trash same_path same in_trash
second_copy-files = refl

move_to_trash-moves_example :
    Holds
      (Trashed parse print dict calm "delete" "" page "text" files neighbour "other")
      (Unharmed parse print dict calm "delete" "" page "text" files neighbour "other")
      (move_to_trash parse print dict calm page page "delete" "" files)
unfolding same_path same
move_to_trash-moves_example =
    move_to_trash-moves parse print dict calm "delete" "" page page "text" files neighbour "other"
      refl refl refl refl (λ d. not_tmp neighbour d refl)

move_to_trash-restores_example :
    Holds Returned
      (Undone files (in_trash page))
      (move_to_trash parse print dict full_disk page page "delete" "" files)
unfolding same_path same
move_to_trash-restores_example =
    move_to_trash-restores parse print dict full_disk page page "delete" "" files (in_trash page)
      "text" (record { metadata = []; content = "text" }) refl refl refl refl files-tmp

atomic_write_text-Replaced_example :
    Holds
      (Replaced page page "new" files)
      (Left page files)
      (atomic_write_text (codes "1f") (some (os_error, some "ne")) none none true page "new" files)
unfolding same_path same atomic_tmp
atomic_write_text-Replaced_example =
    atomic_write_text-Replaced (codes "1f") page page "new" files refl (some (os_error, some "ne"))
      none none true
