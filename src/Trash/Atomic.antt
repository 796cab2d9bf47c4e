-- ===== src/Trash/Atomic.antt =====
-- `atomic_write_text` of src/dikw_core/domains/_atomic.py. Permission bits are left out, but for the
-- failures of reading and setting them.
use dikw_core.Prelude.{
  Text, codes, String, same, same_refl, ◌≡◌, refl, ◌∙◌, Bool, true, false, Option, none, some, [],
  ◌∷◌, ◌++◌, arith, Bool-cases, inl, inr, ◌⊎◌,
}
use dikw_core.Trash.Disk.{
  FilePath, same_path, Files, Failure, not_found, os_error, other_error, Step, ok, raised, bind,
  Fault, write_text, replace, unlink_quietly, put_file, Holds, bind-Holds, put_file_same,
  put_file_other,
}

-- `path.with_name(f"{path.name}.{os.urandom(6).hex()}.tmp")`, where `hex` is drawn at random
unfoldable pub atomic_tmp : Text → FilePath → FilePath
atomic_tmp hex p = record p { name = p.name ++ (46 ∷ (hex ++ codes ".tmp")) }

-- `with contextlib.suppress(FileNotFoundError): os.chmod(...)`
unfoldable pub copy_mode : Option Failure → Files → Step Unit
copy_mode none fs = ok tt fs
copy_mode (some not_found) fs = ok tt fs
copy_mode (some e) fs = raised e fs

-- `except BaseException:` remove the temporary file, and raise again.
unfoldable pub or_clean : Bool → FilePath → Step Unit → Step Unit
unfolding unlink_quietly
or_clean removes tmp (ok u fs) = ok u fs
or_clean removes tmp (raised e fs) = raised e (unlink_quietly removes tmp fs)

unfoldable pub atomic_write_text :
    Text → Fault → Option Failure → Option Failure → Bool → FilePath → String → Files → Step Unit
unfolding atomic_tmp copy_mode or_clean bind write_text replace
atomic_write_text hex writes chmods replaces removes p text fs =
    or_clean removes (atomic_tmp hex p) (
      bind (write_text writes (atomic_tmp hex p) text fs)
        (λ _ fs1. bind (copy_mode chmods fs1) (λ _ fs2. replace replaces (atomic_tmp hex p) p fs2)))

longer : (s t : Text) → same s (s ++ 46 ∷ t) ≡ false
unfolding same
longer [] t = refl
longer (d ∷ s) t = ground (arith, longer s t)

atomic_tmp-other : (hex : Text) (p : FilePath) → same_path p (atomic_tmp hex p) ≡ false
unfolding same_path atomic_tmp
atomic_tmp-other hex p =
    let own : same p.name (atomic_tmp hex p).name ≡ false = longer p.name (hex ++ codes ".tmp") in
    rw (same_refl p.parent, own) refl

-- The new text stands at the path, and another file is as before.
abbrev pub Replaced : FilePath → FilePath → String → Files → Unit {0} → Files → Type 0
Replaced p q text fs u fs1 = (fs1 p ≡ some text) × ((same_path q p ≡ true) ⊎ (fs1 q ≡ fs q))

-- A file is as before, that at the path included.
abbrev pub Left : FilePath → Files → Failure → Files → Type 0
Left q fs e fs1 = fs1 q ≡ fs q

module _ (hex : Text) (p q : FilePath) (text : String) (fs : Files)
    (apart : same_path q (atomic_tmp hex p) ≡ false) where
  abbrev Written : Unit {0} → Files → Type 0
  Written u fs1 = (fs1 (atomic_tmp hex p) ≡ some text) × (fs1 q ≡ fs q)

  write_text-Written :
      (w : Fault) → Holds Written (Left q fs) (write_text w (atomic_tmp hex p) text fs)
  unfolding write_text
  write_text-Written none = (
    put_file_same (atomic_tmp hex p) (some text) fs,
    put_file_other (atomic_tmp hex p) q (some text) fs apart,
  )
  write_text-Written (some (e, none)) = refl
  write_text-Written (some (e, some part)) =
      put_file_other (atomic_tmp hex p) q (some part) fs apart

  copy_mode-Written :
      (c : Option Failure) (fs1 : Files)
      → Written tt fs1
      → Holds Written (Left q fs) (copy_mode c fs1)
  unfolding copy_mode
  copy_mode-Written none fs1 h = h
  copy_mode-Written (some not_found) fs1 h = h
  copy_mode-Written (some os_error) fs1 h = h.1
  copy_mode-Written (some other_error) fs1 h = h.1

  replace-Replaced :
      (r : Option Failure) (fs1 : Files)
      → Written tt fs1
      → Holds (Replaced p q text fs) (Left q fs) (replace r (atomic_tmp hex p) p fs1)
  unfolding replace
  replace-Replaced (some e) fs1 h = h.1
  replace-Replaced none fs1 h =
      let tmp = atomic_tmp hex p in
      let fs2 = put_file p (fs1 tmp) fs1 in
      (
        put_file_other tmp p none fs2 (atomic_tmp-other hex p)
            ∙ put_file_same p (fs1 tmp) fs1
            ∙ h.0,
        elim (Bool-cases (same_path q p)) [
          | inl e ↦ inl e
          | inr e ↦
              inr (put_file_other tmp q none fs2 apart ∙ put_file_other p q (fs1 tmp) fs1 e ∙ h.1)
        ],
      )

  or_clean-Left :
      (removes : Bool) (s : Step Unit)
      → Holds (Replaced p q text fs) (Left q fs) s
      → Holds (Replaced p q text fs) (Left q fs) (or_clean removes (atomic_tmp hex p) s)
  unfolding or_clean unlink_quietly
  or_clean-Left removes (ok u fs1) h = h
  or_clean-Left true (raised e fs1) h = put_file_other (atomic_tmp hex p) q none fs1 apart ∙ h
  or_clean-Left false (raised e fs1) h = h

  -- A reader sees the old text or the new one. If the write returns, the path holds the new text; if
  -- it raises, whatever the error, the path holds what it held. Any other file but the temporary
  -- one is as before in both cases.
  pub atomic_write_text-Replaced :
      (writes : Fault) (chmods replaces : Option Failure) (removes : Bool)
      → Holds
          (Replaced p q text fs)
          (Left q fs)
          (atomic_write_text hex writes chmods replaces removes p text fs)
  unfolding atomic_write_text
  atomic_write_text-Replaced writes chmods replaces removes =
      or_clean-Left removes
        (bind (write_text writes (atomic_tmp hex p) text fs) (λ _ fs1.
          bind (copy_mode chmods fs1) (λ _ fs2. replace replaces (atomic_tmp hex p) p fs2)))
        (bind-Holds Written (Replaced p q text fs) (Left q fs)
          (write_text writes (atomic_tmp hex p) text fs)
          (λ _ fs1.
            bind (copy_mode chmods fs1) (λ _ fs2. replace replaces (atomic_tmp hex p) p fs2))
          (write_text-Written writes)
          (λ u fs1 h.
            bind-Holds Written (Replaced p q text fs) (Left q fs) (copy_mode chmods fs1)
              (λ _ fs2. replace replaces (atomic_tmp hex p) p fs2) (copy_mode-Written chmods fs1 h)
              (λ v fs2 k. replace-Replaced replaces fs2 k)))
