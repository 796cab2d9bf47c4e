-- ===== src/Trash/Disk.antt =====
-- The file system under a base, as the source uses it through pathlib, os and shutil, and
-- `reserve_path` of src/dikw_core/domains/_atomic.py. Every call of the system may fail with a
-- `Failure` that the environment chooses. Other processes do not write in between.
use dikw_core.Prelude.{
  String, Text, same, same_refl, ◌≡◌, refl, Bool, true, false, ◌&&◌, Option, none, some,
  if◌then◌else◌,
}

-- The directory, below the base, and the last part of a path
pub record FilePath : Type 0 where
  pub parent : Text
  pub name : Text

unfoldable pub same_path : FilePath → FilePath → Bool
same_path p q = same p.parent q.parent && same p.name q.name

-- What a text file holds, if there is a file at the path
abbrev pub Files : Type 0
Files = FilePath → Option String

-- `FileNotFoundError`, any other `OSError`, and what is no `OSError`
pub data Failure : Type 0 where
  not_found os_error other_error : Failure

-- `except OSError`
unfoldable pub is_os : Failure → Bool
is_os other_error = false
is_os _ = true

-- How a function of the source ends, and the files that it leaves
pub data Step (A : Type 0) : Type 0 where
  ok : A → Files → Step A
  raised : Failure → Files → Step A

unfoldable pub bind : {A B : Type 0} → Step A → (A → Files → Step B) → Step B
bind (ok a fs) k = k a fs
bind (raised e fs) k = raised e fs

unfoldable pub put_file : FilePath → Option String → Files → Files
put_file p c fs q = if same_path q p then c else fs q

-- What may go wrong with a write: the error, and what stands in the file then, if it was made
abbrev pub Fault : Type 0
Fault = Option (Failure × Option String)

unfoldable pub read_text : Option Failure → FilePath → Files → Step String
read_text (some e) p fs = raised e fs
read_text none p fs = elim (fs p) [ none ↦ raised not_found fs | some c ↦ ok c fs ]

unfoldable pub write_text : Fault → FilePath → String → Files → Step Unit
unfolding put_file
write_text none p c fs = ok tt (put_file p (some c) fs)
write_text (some (e, none)) p c fs = raised e fs
write_text (some (e, some part)) p c fs = raised e (put_file p (some part) fs)

-- `p.unlink()`
unfoldable pub unlink : Option Failure → FilePath → Files → Step Unit
unfolding put_file
unlink (some e) p fs = raised e fs
unlink none p fs = elim (fs p) [ none ↦ raised not_found fs | some c ↦ ok tt (put_file p none fs) ]

-- `with contextlib.suppress(OSError): p.unlink()`, where `removes` says whether the call is let
unfoldable pub unlink_quietly : Bool → FilePath → Files → Files
unfolding put_file
unlink_quietly removes p fs = if removes then put_file p none fs else fs

-- `p.replace(q)`
unfoldable pub replace : Option Failure → FilePath → FilePath → Files → Step Unit
unfolding put_file
replace (some e) p q fs = raised e fs
replace none p q fs = ok tt (put_file p none (put_file q (fs p) fs))

-- `shutil.move`: a rename, or a copy that is removed where it came from at the end
unfoldable pub move : Fault → FilePath → FilePath → Files → Step Unit
unfolding replace
move none p q fs = replace none p q fs
move (some (e, none)) p q fs = raised e fs
move (some (e, some part)) p q fs = raised e (put_file q (some part) fs)

-- `os.open(path, os.O_CREAT | os.O_EXCL | os.O_WRONLY)`, then `os.close`
unfoldable pub reserve_path : Option Failure → FilePath → Files → Step Bool
unfolding put_file
reserve_path (some e) p fs = raised e fs
reserve_path none p fs = elim (fs p) [
  | none ↦ ok true (put_file p (some "") fs)
  | some _ ↦ ok false fs
]

-- What holds however a step ends
abbrev pub Holds :
    {A : Type 0} → (A → Files → Type 0) → (Failure → Files → Type 0) → Step A → Type 0
Holds P Q (ok a fs) = P a fs
Holds P Q (raised e fs) = Q e fs

pub bind-Holds :
    {A B : Type 0} (P : A → Files → Type 0) (R : B → Files → Type 0) (Q : Failure → Files → Type 0)
    (s : Step A) (k : A → Files → Step B)
    → Holds P Q s
    → ((a : A) (fs : Files) → P a fs → Holds R Q (k a fs))
    → Holds R Q (bind s k)
unfolding bind
bind-Holds P R Q (ok a fs) k h next = next a fs h
bind-Holds P R Q (raised e fs) k h next = h

pub same_path_refl : (p : FilePath) → same_path p p ≡ true
unfolding same_path
same_path_refl p = rw (same_refl p.parent, same_refl p.name) refl

pub put_file_same : (p : FilePath) (c : Option String) (fs : Files) → put_file p c fs p ≡ c
unfolding put_file
put_file_same p c fs = rw (same_path_refl p) refl

pub put_file_other :
    (p q : FilePath) (c : Option String) (fs : Files)
    → same_path q p ≡ false
    → put_file p c fs q ≡ fs q
unfolding put_file
put_file_other p q c fs h = rw h refl
