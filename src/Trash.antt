-- ===== src/Trash.antt =====
-- The soft deletion of src/dikw_core/domains/trash.py: `move_to_trash`. The frontmatter library is a
-- parameter; files and the failures of their operations are in Trash/Disk.antt. Texts are read and
-- written as they are, without the translation of newlines of Python's text mode.
pub mod Disk
pub mod Stages
pub mod Moves
pub mod Safety
pub mod Restore
pub mod Atomic
pub mod Tests
use dikw_core.Prelude.{
  ℕ, zero, suc, ◌+◌, ◌/◌, ◌%◌, String, Text, codes, Bool, true, false, ◌&&◌, Option, none, some,
  List, [], ◌∷◌, ◌++◌, if◌then◌else◌, str_eq, ltb, ◌==◌, length, take, drop, Option-cases,
}
use dikw_core.Trash.Disk.{
  FilePath, Files, Failure, os_error, is_os, Step, ok, raised, bind, Fault, read_text, write_text,
  unlink, unlink_quietly, replace, move, reserve_path,
}

-- A document that the frontmatter library has parsed, with values of its own
pub record Post (Value : Type 0) : Type 0 where
  pub metadata : List (String × Value)
  pub content : String

-- `d[key] = value` on a dict
unfoldable pub put : {V : Type 0} → String → V → List (String × V) → List (String × V)
put key v [] = (key, v) ∷ []
put key v ((k, w) ∷ d) = if str_eq k key then (k, v) ∷ d else (k, w) ∷ put key v d

-- `d.get(key)`
unfoldable pub get : {V : Type 0} → String → List (String × V) → Option V
get key [] = none
get key ((k, w) ∷ d) = if str_eq k key then some w else get key d

-- The index of the last `.`
unfoldable pub rfind_dot : Text → Option ℕ
rfind_dot [] = none
rfind_dot (c ∷ s) = elim (rfind_dot s) [
  | some i ↦ some (suc i)
  | none ↦ if c == 46 then some 0 else none
]

-- `(stem, suffix)` of a name, as pathlib splits it
unfoldable pub stem_and_suffix : Text → Text × Text
unfolding rfind_dot
stem_and_suffix s = elim (rfind_dot s) [
  | none ↦ (s, [])
  | some i ↦ if ltb 0 i && ltb (suc i) (length s) then (take i s, drop i s) else (s, [])
]

-- `f"{ms:03d}"` for an `ms` below 1000
abbrev pub three_digits : ℕ → Text
three_digits ms = (48 + ms / 100) ∷ (48 + (ms / 10) % 10) ∷ (48 + ms % 10) ∷ []

-- `f".{ts}.{ms:03d}" if ms else f".{ts}"`
unfoldable pub collision_suffix : Text → ℕ → Text
collision_suffix ts zero = 46 ∷ ts
collision_suffix ts (suc ms) = 46 ∷ ts ++ 46 ∷ three_digits (suc ms)

unfoldable pub candidate : Text → ℕ → FilePath → FilePath
unfolding stem_and_suffix collision_suffix
candidate ts ms base_dest =
    let (stem, suffix) = stem_and_suffix base_dest.name in
    record base_dest { name = stem ++ collision_suffix ts ms ++ suffix }

-- `dest.with_name(dest.name + ".tmp")`
unfoldable pub tmp_of : FilePath → FilePath
tmp_of dest = record dest { name = dest.name ++ codes ".tmp" }

-- `base_root / "trash" / rel_path`
unfoldable pub in_trash : FilePath → FilePath
in_trash p = record p { parent = codes "trash/" ++ p.parent }

-- What the system answers: the clock at each round of the loop and at the stamp, and for every call
-- whether it fails. The clean-up calls are let or not.
pub record System : Type 0 where
  pub clock : ℕ → Text
  pub stamp_time : String
  pub reads : Option Failure
  pub makes_parent : Option Failure
  pub reserves : ℕ → Option Failure
  pub moves : Fault
  pub writes : Fault
  pub replaces : Option Failure
  pub unlinks_source : Option Failure
  pub removes_tmp : Bool
  pub removes_dest : Bool

-- `for ms in range(1000)`: `left` rounds are to go.
unfoldable pub claim : System → FilePath → ℕ → ℕ → Files → Step FilePath
unfolding bind reserve_path candidate
claim sys base_dest ms zero fs = raised os_error fs
claim sys base_dest ms (suc left) fs =
    bind (reserve_path (sys.reserves ms) (candidate (sys.clock ms) ms base_dest) fs) (λ won fs1.
      elim won [
        | true ↦ ok (candidate (sys.clock ms) ms base_dest) fs1
        | false ↦ claim sys base_dest (suc ms) left fs1
      ])

-- The destination: the mirrored path, or the first candidate that is free.
unfoldable pub choose_dest : System → FilePath → Files → Step FilePath
unfolding claim
choose_dest sys dest fs = elim sys.makes_parent [
  | some e ↦ raised e fs
  | none ↦ elim (fs dest) [ none ↦ ok dest fs | some _ ↦ claim sys dest 0 1000 fs ]
]

-- `except OSError:` remove `tmp_dest` and `dest`, and raise again.
unfoldable pub or_discard : System → FilePath → Step Unit → Step Unit
unfolding is_os unlink_quietly tmp_of
or_discard sys dest (ok u fs) = ok u fs
or_discard sys dest (raised e fs) =
    if is_os e
    then raised e
        (unlink_quietly sys.removes_dest dest (unlink_quietly sys.removes_tmp (tmp_of dest) fs))
    else raised e fs

-- `except OSError:` take the copy in the trash back, and raise again.
unfoldable pub or_roll_back : System → FilePath → Step Unit → Step Unit
unfolding is_os unlink_quietly
or_roll_back sys dest (ok u fs) = ok u fs
or_roll_back sys dest (raised e fs) =
    if is_os e then raised e (unlink_quietly sys.removes_dest dest fs) else raised e fs

unfoldable pub remove_source : System → FilePath → FilePath → Files → Step FilePath
unfolding bind unlink or_roll_back
remove_source sys src dest fs =
    bind (or_roll_back sys dest (unlink sys.unlinks_source src fs)) (λ _ fs1. ok dest fs1)

unfoldable pub put_in_place : System → FilePath → FilePath → Files → Step FilePath
unfolding bind replace or_discard remove_source tmp_of
put_in_place sys src dest fs =
    bind (or_discard sys dest (replace sys.replaces (tmp_of dest) dest fs))
      (λ _ fs1. remove_source sys src dest fs1)

-- The file is written beside `dest`, put in its place, and the source is removed.
unfoldable pub put_stamped : System → FilePath → String → FilePath → Files → Step FilePath
unfolding bind write_text or_discard put_in_place tmp_of
put_stamped sys src text dest fs =
    bind (or_discard sys dest (write_text sys.writes (tmp_of dest) text fs))
      (λ _ fs1. put_in_place sys src dest fs1)

unfoldable pub move_as_is : System → FilePath → FilePath → Files → Step FilePath
unfolding bind move
move_as_is sys src dest fs = bind (move sys.moves src dest fs) (λ _ fs1. ok dest fs1)

-- The audit block of the file
unfoldable pub trashed : String → String → String → List (String × String)
trashed at reason proposal_id =
    if str_eq proposal_id ""
    then ("at", at) ∷ ("reason", reason) ∷ []
    else ("at", at) ∷ ("reason", reason) ∷ ("proposal_id", proposal_id) ∷ []

-- `loads` and `dumps` of the frontmatter library, which parses a text or fails, and the value that
-- it writes for a dict of texts
module _ {Value : Type 0} (loads : String → Option (Post Value)) (dumps : Post Value → String)
    (dict : List (String × String) → Value) where
  unfoldable pub stamp : System → String → String → Post Value → Post Value
  unfolding put trashed
  stamp sys reason proposal_id post = record post {
    metadata = put "trashed" (dict (trashed sys.stamp_time reason proposal_id)) post.metadata;
  }

  -- What is done once the destination is chosen
  unfoldable pub deposit :
      System → FilePath → FilePath → String → String → String → Files → Step FilePath
  unfolding move_as_is put_stamped stamp
  deposit sys src_abs dest raw reason proposal_id fs = elim (loads raw) [
    | none ↦ move_as_is sys src_abs dest fs
    | some post ↦ put_stamped sys src_abs (dumps (stamp sys reason proposal_id post)) dest fs
  ]

  unfoldable pub move_to_trash :
      System → FilePath → FilePath → String → String → Files → Step FilePath
  unfolding bind read_text choose_dest deposit in_trash
  move_to_trash sys src_abs rel_path reason proposal_id fs =
      bind (read_text sys.reads src_abs fs) (λ raw fs1.
        bind (choose_dest sys (in_trash rel_path) fs1)
          (λ dest fs2. deposit sys src_abs dest raw reason proposal_id fs2))
