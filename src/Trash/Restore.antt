-- ===== src/Trash/Restore.antt =====
-- What a failed `move_to_trash` of trash.py leaves behind.
use dikw_core.Prelude.{
  String, ◌≡◌, refl, sym, ap, ◌∙◌, true, false, Option, none, some, List, inl, inr, ◌⊎◌, Bool-cases,
  Option-cases,
}
use dikw_core.Trash.{
  Post, System, in_trash, tmp_of, choose_dest, put_stamped, or_discard, or_roll_back, put_in_place,
  remove_source, deposit, stamp, move_to_trash,
}
use dikw_core.Trash.Disk.{
  FilePath, same_path, Files, Failure, is_os, Step, ok, raised, bind, put_file, write_text, replace,
  unlink, Fault, unlink_quietly, read_text, Holds, bind-Holds, put_file_other,
}
use dikw_core.Trash.Stages.{Chosen, choose_dest-Chosen}
use dikw_core.Trash.Safety.{same_path→eq}

-- `q` held `v` at the start, and nothing if it is the destination or its temporary file.
module _ (sys : System) (src dest q : FilePath) (v : Option String)
    (let_tmp : sys.removes_tmp ≡ true) (let_dest : sys.removes_dest ≡ true)
    (dest_free : same_path q dest ≡ true → v ≡ none)
    (tmp_free : same_path q (tmp_of dest) ≡ true → v ≡ none) where
  -- `q` holds it still, if it is neither of the two.
  abbrev Off : Files → Type 0
  Off fs = (same_path q dest ≡ false) → (same_path q (tmp_of dest) ≡ false) → fs q ≡ v

  abbrev OffDest : Files → Type 0
  OffDest fs = (same_path q dest ≡ false) → fs q ≡ v

  abbrev Back : Failure → Files → Type 0
  Back e fs = (is_os e ≡ false) ⊎ (fs q ≡ v)

  or_discard-Back :
      (P : Unit → Files → Type 0) (s : Step Unit)
      → Holds P (λ e fs. Off fs) s
      → Holds P Back (or_discard sys dest s)
  unfolding or_discard unlink_quietly put_file
  or_discard-Back P (ok u fs) h = h
  or_discard-Back P (raised e fs) h = elim (Bool-cases (is_os e)) [
    | inr t ↦ rw (or_discard, t) (inl t)
    | inl t ↦
        rw (or_discard, t, let_dest, let_tmp, unlink_quietly)
          (inr (elim (Bool-cases (same_path q dest)) [
            | inl d ↦ rw (put_file, d) (sym (dest_free d))
            | inr d ↦ elim (Bool-cases (same_path q (tmp_of dest))) [
              | inl u ↦ rw (put_file, d, u) (sym (tmp_free u))
              | inr u ↦ rw (put_file, d, u) (h d u)
            ]
          ]))
  ]

  or_roll_back-Back :
      (P : Unit → Files → Type 0) (s : Step Unit)
      → Holds P (λ e fs. OffDest fs) s
      → Holds P Back (or_roll_back sys dest s)
  unfolding or_roll_back unlink_quietly put_file
  or_roll_back-Back P (ok u fs) h = h
  or_roll_back-Back P (raised e fs) h = elim (Bool-cases (is_os e)) [
    | inr t ↦ rw (or_roll_back, t) (inl t)
    | inl t ↦
        rw (or_roll_back, t, let_dest, unlink_quietly)
          (inr (elim (Bool-cases (same_path q dest)) [
            | inl d ↦ rw (put_file, d) (sym (dest_free d))
            | inr d ↦ rw (put_file, d) (h d)
          ]))
  ]

  write_tmp-Off :
      (fault : Fault) (text : String) (fs : Files)
      → Off fs
      → Holds (λ _ fs1. Off fs1) (λ e fs1. Off fs1) (write_text fault (tmp_of dest) text fs)
  unfolding write_text
  write_tmp-Off none text fs h = λ d u. put_file_other (tmp_of dest) q (some text) fs u ∙ h d u
  write_tmp-Off (some (e, none)) text fs h = h
  write_tmp-Off (some (e, some part)) text fs h =
      λ d u. put_file_other (tmp_of dest) q (some part) fs u ∙ h d u

  replace-Off :
      (fault : Option Failure) (fs : Files)
      → Off fs
      → Holds (λ _ fs1. OffDest fs1) (λ e fs1. Off fs1) (replace fault (tmp_of dest) dest fs)
  unfolding replace put_file
  replace-Off (some e) fs h = h
  replace-Off none fs h = λ d. elim (Bool-cases (same_path q (tmp_of dest))) [
    | inl u ↦ rw (put_file, u) (sym (tmp_free u))
    | inr u ↦ rw (put_file, u, d) (h d u)
  ]

  unlink-OffDest :
      (fault : Option Failure) (fs : Files)
      → OffDest fs
      → Holds (λ _ fs1. Unit) (λ e fs1. OffDest fs1) (unlink fault src fs)
  unfolding unlink
  unlink-OffDest (some e) fs h = h
  unlink-OffDest none fs h = elim (Option-cases (fs src)) [
    | inl e ↦ rw (unlink, e) h
    | inr (c, e) ↦ rw (unlink, e) tt
  ]

  abbrev Any : FilePath → Files → Type 0
  Any d fs = Unit

  put_stamped-Back :
      (text : String) (fs : Files) → Off fs → Holds Any Back (put_stamped sys src text dest fs)
  unfolding put_stamped put_in_place remove_source
  put_stamped-Back text fs h =
      bind-Holds (λ _ fs1. Off fs1) Any Back
        (or_discard sys dest (write_text sys.writes (tmp_of dest) text fs))
        (λ _ fs1. put_in_place sys src dest fs1)
        (or_discard-Back (λ _ fs1. Off fs1) (write_text sys.writes (tmp_of dest) text fs)
          (write_tmp-Off sys.writes text fs h))
        (λ _ fs1 h1.
          bind-Holds (λ _ fs2. OffDest fs2) Any Back
            (or_discard sys dest (replace sys.replaces (tmp_of dest) dest fs1))
            (λ _ fs2. remove_source sys src dest fs2)
            (or_discard-Back (λ _ fs2. OffDest fs2) (replace sys.replaces (tmp_of dest) dest fs1)
              (replace-Off sys.replaces fs1 h1))
            (λ _ fs2 h2.
              bind-Holds (λ _ fs3. Unit) Any Back
                (or_roll_back sys dest (unlink sys.unlinks_source src fs2)) (λ _ fs3. ok dest fs3)
                (or_roll_back-Back (λ _ fs3. Unit) (unlink sys.unlinks_source src fs2)
                  (unlink-OffDest sys.unlinks_source fs2 h2))
                (λ _ fs3 h3. tt)))

read_text-Same :
    (fault : Option Failure) (src : FilePath) (fs : Files) (raw : String)
    → fs src ≡ some raw
    → Holds (λ r fs1. (r ≡ raw) × (fs1 ≡ fs)) (λ e fs1. fs1 ≡ fs) (read_text fault src fs)
unfolding read_text
read_text-Same (some e) src fs raw h = refl
read_text-Same none src fs raw h = rw (read_text, h) (refl, refl)

abbrev pub Returned : FilePath → Files → Type 0
Returned d fs = Unit

-- The error is no `OSError`, or `q` is as it was.
abbrev pub Undone : Files → FilePath → Failure → Files → Type 0
Undone fs q e fs1 = (is_os e ≡ false) ⊎ (fs1 q ≡ fs q)

module _ {Value : Type 0} (loads : String → Option (Post Value)) (dumps : Post Value → String)
    (dict : List (String × String) → Value) (sys : System) (src rel : FilePath)
    (reason proposal_id : String) (fs : Files) (q : FilePath) (raw : String) (post : Post Value)
    (there : fs src ≡ some raw) (parses : loads raw ≡ some post) (let_tmp : sys.removes_tmp ≡ true)
    (let_dest : sys.removes_dest ≡ true) (free : (d : FilePath) → fs (tmp_of d) ≡ none) where
  same-Undone :
      {A : Type 0} (P : A → Files → Type 0) (s : Step A)
      → Holds P (λ e fs1. fs1 ≡ fs) s
      → Holds P (Undone fs q) s
  same-Undone P (ok a fs1) h = h
  same-Undone P (raised e fs1) h = inr (rw h refl)

  deposit-Undone :
      (d : FilePath) (fs1 : Files)
      → Chosen (in_trash rel) fs d fs1
      → Holds Returned (Undone fs q) (deposit loads dumps dict sys src d raw reason proposal_id fs1)
  unfolding deposit
  deposit-Undone d fs1 h =
      rw (deposit, parses)
        (put_stamped-Back sys src d q (fs q) let_tmp let_dest
          (λ e. ap fs (same_path→eq q d e) ∙ h.0)
          (λ e. ap fs (same_path→eq q (tmp_of d) e) ∙ free d)
          (dumps (stamp loads dumps dict sys reason proposal_id post)) fs1 (λ o u. h.2 q o))

  -- A `move_to_trash` of a file that parses, which raises an `OSError`, leaves every path as it was,
  -- the name that it claimed and its temporary file included, when the clean-up calls are let
  -- and no file had the name of a temporary one.
  pub move_to_trash-restores :
      Holds Returned
        (Undone fs q)
        (move_to_trash loads dumps dict sys src rel reason proposal_id fs)
  unfolding move_to_trash
  move_to_trash-restores =
      bind-Holds (λ r fs1. (r ≡ raw) × (fs1 ≡ fs)) Returned (Undone fs q)
        (read_text sys.reads src fs)
        (λ r fs1.
          bind (choose_dest sys (in_trash rel) fs1)
            (λ d fs2. deposit loads dumps dict sys src d r reason proposal_id fs2))
        (same-Undone (λ r fs1. (r ≡ raw) × (fs1 ≡ fs)) (read_text sys.reads src fs)
          (read_text-Same sys.reads src fs raw there))
        (λ r fs1 h.
          rw (h.0, h.1)
            (bind-Holds (Chosen (in_trash rel) fs) Returned (Undone fs q)
              (choose_dest sys (in_trash rel) fs)
              (λ d fs2. deposit loads dumps dict sys src d raw reason proposal_id fs2)
              (same-Undone (Chosen (in_trash rel) fs) (choose_dest sys (in_trash rel) fs)
                (choose_dest-Chosen sys (in_trash rel) fs))
              deposit-Undone))
