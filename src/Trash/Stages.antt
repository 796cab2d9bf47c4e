-- ===== src/Trash/Stages.antt =====
-- The single steps of `move_to_trash` of trash.py: what each keeps, however it ends.
use dikw_core.Prelude.{
  ℕ, zero, suc, String, Text, codes, same, same→eq, same_sym, same_refl, ◌≡◌, refl, subst, ◌∙◌,
  Bool, true, false, Option, none, some, [], ◌∷◌, ◌++◌, inl, inr, arith, take, Bool-cases,
  Option-cases,
}
use dikw_core.Trash.{
  System, in_trash, tmp_of, candidate, claim, choose_dest, or_discard, or_roll_back,
}
use dikw_core.Trash.Disk.{
  FilePath, same_path, Files, Fault, Failure, is_os, Step, ok, raised, bind, put_file, write_text,
  unlink_quietly, replace, reserve_path, Holds, put_file_same, put_file_other,
}

-- A destination that was free, in the directory of `dest`; all other files stay.
abbrev pub Chosen : FilePath → Files → FilePath → Files → Type 0
Chosen dest fs d fs1 =
    (fs d ≡ none)
    × (d.parent ≡ dest.parent)
    × ((q : FilePath) → same_path q d ≡ false → fs1 q ≡ fs q)

claim-Chosen :
    (sys : System) (dest : FilePath) (ms left : ℕ) (fs : Files)
    → Holds (Chosen dest fs) (λ e fs1. fs1 ≡ fs) (claim sys dest ms left fs)
unfolding claim reserve_path bind candidate
claim-Chosen sys dest ms zero fs = refl
claim-Chosen sys dest ms (suc left) fs = elim (Option-cases (sys.reserves ms)) [
  | inr (e, h) ↦ rw h refl
  | inl h ↦ rw h (elim (Option-cases (fs (candidate (sys.clock ms) ms dest))) [
    | inl f ↦ rw (reserve_path, f) (f, refl, λ q o. put_file_other _ q _ fs o)
    | inr (c, f) ↦ rw (reserve_path, f) (claim-Chosen sys dest (suc ms) left fs)
  ])
]

pub choose_dest-Chosen :
    (sys : System) (dest : FilePath) (fs : Files)
    → Holds (Chosen dest fs) (λ e fs1. fs1 ≡ fs) (choose_dest sys dest fs)
unfolding choose_dest
choose_dest-Chosen sys dest fs = elim (Option-cases sys.makes_parent) [
  | inr (e, h) ↦ rw (choose_dest, h) refl
  | inl h ↦ elim (Option-cases (fs dest)) [
    | inl f ↦ rw (choose_dest, h, f) (f, refl, λ q o. refl)
    | inr (c, f) ↦ rw (choose_dest, h, f) (claim-Chosen sys dest 0 1000 fs)
  ]
]

-- Steps that touch only the destination and its temporary file keep what stands at `q`.
module _ (sys : System) (dest q : FilePath) (v : Option String)
    (not_dest : same_path q dest ≡ false) (not_tmp : same_path q (tmp_of dest) ≡ false) where
  abbrev Kept : {A : Type 0} → A → Files → Type 0
  Kept a fs = fs q ≡ v

  unlink_quietly-Kept :
      (removes : Bool) (p : FilePath) (fs : Files)
      → same_path q p ≡ false
      → fs q ≡ v
      → unlink_quietly removes p fs q ≡ v
  unfolding unlink_quietly put_file
  unlink_quietly-Kept true p fs o h = rw o h
  unlink_quietly-Kept false p fs o h = h

  pub or_discard-Kept :
      (P : Unit → Files → Type 0) (s : Step Unit)
      → Holds P Kept s
      → Holds P Kept (or_discard sys dest s)
  unfolding or_discard
  or_discard-Kept P (ok u fs) h = h
  or_discard-Kept P (raised e fs) h = elim (Bool-cases (is_os e)) [
    | inl t ↦
        rw (or_discard, t)
          (unlink_quietly-Kept sys.removes_dest dest _ not_dest
            (unlink_quietly-Kept sys.removes_tmp (tmp_of dest) fs not_tmp h))
    | inr t ↦ rw (or_discard, t) h
  ]

  pub or_roll_back-Kept :
      (P : Unit → Files → Type 0) (s : Step Unit)
      → Holds P Kept s
      → Holds P Kept (or_roll_back sys dest s)
  unfolding or_roll_back
  or_roll_back-Kept P (ok u fs) h = h
  or_roll_back-Kept P (raised e fs) h = elim (Bool-cases (is_os e)) [
    | inl t ↦ rw (or_roll_back, t) (unlink_quietly-Kept sys.removes_dest dest fs not_dest h)
    | inr t ↦ rw (or_roll_back, t) h
  ]

  -- The temporary file holds the text.
  pub write_tmp-Kept :
      (fault : Fault) (text : String) (fs : Files)
      → fs q ≡ v
      → Holds
          (λ _ fs1. (fs1 q ≡ v) × (fs1 (tmp_of dest) ≡ some text))
          Kept
          (write_text fault (tmp_of dest) text fs)
  unfolding write_text
  write_tmp-Kept none text fs h =
      (put_file_other _ q _ fs not_tmp ∙ h, put_file_same (tmp_of dest) (some text) fs)
  write_tmp-Kept (some (e, none)) text fs h = h
  write_tmp-Kept (some (e, some part)) text fs h = put_file_other _ q _ fs not_tmp ∙ h

  -- What the temporary file held is at the destination.
  pub replace-Kept :
      (fault : Option Failure) (text : String) (fs : Files)
      → same_path dest (tmp_of dest) ≡ false
      → (fs q ≡ v) × (fs (tmp_of dest) ≡ some text)
      → Holds
          (λ _ fs1. (fs1 q ≡ v) × (fs1 dest ≡ some text))
          Kept
          (replace fault (tmp_of dest) dest fs)
  unfolding replace
  replace-Kept (some e) text fs o h = h.0
  replace-Kept none text fs o h =
      let fs1 = put_file dest (fs (tmp_of dest)) fs in
      (
        put_file_other (tmp_of dest) q none fs1 not_tmp
            ∙ put_file_other dest q (fs (tmp_of dest)) fs not_dest
            ∙ h.0,
        put_file_other (tmp_of dest) dest none fs1 o
            ∙ put_file_same dest (fs (tmp_of dest)) fs
            ∙ h.1,
      )

pub same_path_sym : (p q : FilePath) → same_path p q ≡ same_path q p
unfolding same_path
same_path_sym p q = rw (same_sym p.parent q.parent, same_sym p.name q.name) refl

-- A name is not the name with `.tmp` behind it.
longer_name : (s : Text) → same s (s ++ codes ".tmp") ≡ false
unfolding same
longer_name [] = refl
longer_name (c ∷ s) = ground (arith, longer_name s)

pub tmp_of-other : (dest : FilePath) → same_path dest (tmp_of dest) ≡ false
unfolding same_path tmp_of
tmp_of-other dest = rw (same_refl dest.parent, longer_name dest.name) refl

-- A file outside the trash is no file of the trash.
prefix_kept :
    (r s : Text) → same s (codes "trash/" ++ r) ≡ true → same (take 6 s) (codes "trash/") ≡ true
prefix_kept r s h = rw (same→eq s (codes "trash/" ++ r) h) (same_refl (codes "trash/"))

pub outside-other :
    (src rel d : FilePath)
    → same (take 6 src.parent) (codes "trash/") ≡ false
    → d.parent ≡ (in_trash rel).parent
    → same_path src d ≡ false
unfolding same_path in_trash
outside-other src rel d o e = elim (Bool-cases (same src.parent d.parent)) [
  | inl h ↦
      let kept = prefix_kept rel.parent src.parent (subst (λ p. same src.parent p ≡ true) e h) in
      ground (arith, kept, o)
  | inr h ↦ rw h refl
]
