-- ===== src/Trash/Moves.antt =====
-- The two ends of `move_to_trash` of trash.py: what they do to the source and to all other files.
use dikw_core.Prelude.{String, ◌≡◌, refl, ◌∙◌, false, Option, none, some, inl, inr, Option-cases}
use dikw_core.Trash.{
  System, tmp_of, or_discard, or_roll_back, put_stamped, put_in_place, remove_source, move_as_is,
}
use dikw_core.Trash.Disk.{
  FilePath, same_path, Files, Fault, Failure, ok, put_file, write_text, unlink, replace, move,
  Holds, bind-Holds, put_file_same, put_file_other,
}
use dikw_core.Trash.Stages.{
  or_discard-Kept, or_roll_back-Kept, write_tmp-Kept, replace-Kept, same_path_sym, tmp_of-other,
}

-- `put_stamped` moves the text of the source, or leaves the source as it is.
module _ (sys : System) (src dest : FilePath) (raw : String) (src_dest : same_path src dest ≡ false)
    (src_tmp : same_path src (tmp_of dest) ≡ false) where
  abbrev Stays : Failure → Files → Type 0
  Stays e fs = fs src ≡ some raw

  abbrev Moved : String → FilePath → Files → Type 0
  Moved text d fs = (d ≡ dest) × (fs src ≡ none) × (fs dest ≡ some text)

  unlink-Moved :
      (fault : Option Failure) (text : String) (fs : Files)
      → (fs src ≡ some raw) × (fs dest ≡ some text)
      → Holds (λ _ fs1. (fs1 src ≡ none) × (fs1 dest ≡ some text)) Stays (unlink fault src fs)
  unfolding unlink
  unlink-Moved (some e) text fs h = h.0
  unlink-Moved none text fs h =
      rw (unlink, h.0)
        (
          put_file_same src none fs,
          put_file_other src dest none fs (same_path_sym dest src ∙ src_dest) ∙ h.1,
        )

  remove_source-Moved :
      (text : String) (fs : Files)
      → (fs src ≡ some raw) × (fs dest ≡ some text)
      → Holds (Moved text) Stays (remove_source sys src dest fs)
  unfolding remove_source
  remove_source-Moved text fs h =
      bind-Holds (λ _ fs1. (fs1 src ≡ none) × (fs1 dest ≡ some text)) (Moved text) Stays
        (or_roll_back sys dest (unlink sys.unlinks_source src fs)) (λ _ fs1. ok dest fs1)
        (or_roll_back-Kept sys dest src (some raw) src_dest src_tmp
          (λ _ fs1. (fs1 src ≡ none) × (fs1 dest ≡ some text)) (unlink sys.unlinks_source src fs)
          (unlink-Moved sys.unlinks_source text fs h))
        (λ _ fs1 h1. (refl, h1.0, h1.1))

  put_in_place-Moved :
      (text : String) (fs : Files)
      → (fs src ≡ some raw) × (fs (tmp_of dest) ≡ some text)
      → Holds (Moved text) Stays (put_in_place sys src dest fs)
  unfolding put_in_place
  put_in_place-Moved text fs h =
      bind-Holds (λ _ fs1. (fs1 src ≡ some raw) × (fs1 dest ≡ some text)) (Moved text) Stays
        (or_discard sys dest (replace sys.replaces (tmp_of dest) dest fs))
        (λ _ fs1. remove_source sys src dest fs1)
        (or_discard-Kept sys dest src (some raw) src_dest src_tmp
          (λ _ fs1. (fs1 src ≡ some raw) × (fs1 dest ≡ some text))
          (replace sys.replaces (tmp_of dest) dest fs)
          (replace-Kept sys dest src (some raw) src_dest src_tmp sys.replaces text fs
            (tmp_of-other dest) h))
        (λ _ fs1 h1. remove_source-Moved text fs1 h1)

  pub put_stamped-Moved :
      (text : String) (fs : Files)
      → fs src ≡ some raw
      → Holds (Moved text) Stays (put_stamped sys src text dest fs)
  unfolding put_stamped
  put_stamped-Moved text fs h =
      bind-Holds (λ _ fs1. (fs1 src ≡ some raw) × (fs1 (tmp_of dest) ≡ some text)) (Moved text)
        Stays (or_discard sys dest (write_text sys.writes (tmp_of dest) text fs))
        (λ _ fs1. put_in_place sys src dest fs1)
        (or_discard-Kept sys dest src (some raw) src_dest src_tmp
          (λ _ fs1. (fs1 src ≡ some raw) × (fs1 (tmp_of dest) ≡ some text))
          (write_text sys.writes (tmp_of dest) text fs)
          (write_tmp-Kept sys dest src (some raw) src_dest src_tmp sys.writes text fs h))
        (λ _ fs1 h1. put_in_place-Moved text fs1 h1)

  move-Moved :
      (fault : Fault) (fs : Files)
      → fs src ≡ some raw
      → Holds (λ _ fs1. (fs1 src ≡ none) × (fs1 dest ≡ some raw)) Stays (move fault src dest fs)
  unfolding move replace
  move-Moved (some (e, none)) fs h = h
  move-Moved (some (e, some part)) fs h = put_file_other dest src (some part) fs src_dest ∙ h
  move-Moved none fs h = (
    put_file_same src none (put_file dest (fs src) fs),
    put_file_other src dest none (put_file dest (fs src) fs) (same_path_sym dest src ∙ src_dest)
        ∙ put_file_same dest (fs src) fs
        ∙ h,
  )

  pub move_as_is-Moved :
      (fs : Files) → fs src ≡ some raw → Holds (Moved raw) Stays (move_as_is sys src dest fs)
  unfolding move_as_is
  move_as_is-Moved fs h =
      bind-Holds (λ _ fs1. (fs1 src ≡ none) × (fs1 dest ≡ some raw)) (Moved raw) Stays
        (move sys.moves src dest fs) (λ _ fs1. ok dest fs1) (move-Moved sys.moves fs h)
        (λ _ fs1 h1. (refl, h1.0, h1.1))

-- `put_stamped` leaves every other file as it is.
module _ (sys : System) (src dest q : FilePath) (v : Option String)
    (q_src : same_path q src ≡ false) (q_dest : same_path q dest ≡ false)
    (q_tmp : same_path q (tmp_of dest) ≡ false) where
  abbrev Rests : {A : Type 0} → A → Files → Type 0
  Rests a fs = fs q ≡ v

  unlink-Rests :
      (fault : Option Failure) (fs : Files) → fs q ≡ v → Holds Rests Rests (unlink fault src fs)
  unfolding unlink
  unlink-Rests (some e) fs h = h
  unlink-Rests none fs h = elim (Option-cases (fs src)) [
    | inl e ↦ rw (unlink, e) h
    | inr (c, e) ↦ rw (unlink, e) (put_file_other src q none fs q_src ∙ h)
  ]

  replace-Rests :
      (fault : Option Failure) (fs : Files)
      → fs q ≡ v
      → Holds Rests Rests (replace fault (tmp_of dest) dest fs)
  unfolding replace
  replace-Rests (some e) fs h = h
  replace-Rests none fs h =
      put_file_other (tmp_of dest) q none (put_file dest (fs (tmp_of dest)) fs) q_tmp
      ∙ put_file_other dest q (fs (tmp_of dest)) fs q_dest
      ∙ h

  write_tmp-Rests :
      (fault : Fault) (text : String) (fs : Files)
      → fs q ≡ v
      → Holds Rests Rests (write_text fault (tmp_of dest) text fs)
  unfolding write_text
  write_tmp-Rests none text fs h = put_file_other (tmp_of dest) q (some text) fs q_tmp ∙ h
  write_tmp-Rests (some (e, none)) text fs h = h
  write_tmp-Rests (some (e, some part)) text fs h =
      put_file_other (tmp_of dest) q (some part) fs q_tmp ∙ h

  pub put_stamped-Rests :
      (text : String) (fs : Files) → fs q ≡ v → Holds Rests Rests (put_stamped sys src text dest fs)
  unfolding put_stamped put_in_place remove_source
  put_stamped-Rests text fs h =
      bind-Holds Rests Rests Rests
        (or_discard sys dest (write_text sys.writes (tmp_of dest) text fs))
        (λ _ fs1. put_in_place sys src dest fs1)
        (or_discard-Kept sys dest q v q_dest q_tmp Rests
          (write_text sys.writes (tmp_of dest) text fs) (write_tmp-Rests sys.writes text fs h))
        (λ _ fs1 h1.
          bind-Holds Rests Rests Rests
            (or_discard sys dest (replace sys.replaces (tmp_of dest) dest fs1))
            (λ _ fs2. remove_source sys src dest fs2)
            (or_discard-Kept sys dest q v q_dest q_tmp Rests
              (replace sys.replaces (tmp_of dest) dest fs1) (replace-Rests sys.replaces fs1 h1))
            (λ _ fs2 h2.
              bind-Holds Rests Rests Rests
                (or_roll_back sys dest (unlink sys.unlinks_source src fs2)) (λ _ fs3. ok dest fs3)
                (or_roll_back-Kept sys dest q v q_dest q_tmp Rests
                  (unlink sys.unlinks_source src fs2) (unlink-Rests sys.unlinks_source fs2 h2))
                (λ _ fs3 h3. h3)))

  move-Rests : (fault : Fault) (fs : Files) → fs q ≡ v → Holds Rests Rests (move fault src dest fs)
  unfolding move replace
  move-Rests (some (e, none)) fs h = h
  move-Rests (some (e, some part)) fs h = put_file_other dest q (some part) fs q_dest ∙ h
  move-Rests none fs h =
      put_file_other src q none (put_file dest (fs src) fs) q_src
      ∙ put_file_other dest q (fs src) fs q_dest
      ∙ h

  pub move_as_is-Rests : (fs : Files) → fs q ≡ v → Holds Rests Rests (move_as_is sys src dest fs)
  unfolding move_as_is
  move_as_is-Rests fs h =
      bind-Holds Rests Rests Rests (move sys.moves src dest fs) (λ _ fs1. ok dest fs1)
        (move-Rests sys.moves fs h) (λ _ fs1 h1. h1)
