-- ===== src/Deletion/Outcomes.antt =====
-- What `delete_page` of api_delete.py does to the row and to the file, however it ends.
use dikw_core.Prelude.{
  ℕ, if◌then◌else◌, ◌⊎◌, String, Text, codes, same, ◌≡◌, false, Option, none, some, List, take,
}
use dikw_core.Storage.{DocumentRecord, Db}
use dikw_core.Trash.{Post, System}
use dikw_core.Trash.Disk.{Failure, FilePath, same_path, Files}
use dikw_core.Trash.Safety.{Keeps}
use dikw_core.Deletion.{
  Reply, report, page_not_found, cancelled, failed, interrupted, Awaits, malformed, probe,
  all_layers, reason_or_default,
}
use dikw_core.Deletion.Purging.{Purged}

-- The row of a path and the place of its file, where the path is registered and below the base
abbrev pub resolve :
    (Text → Text) → (Text → Option FilePath) → Text → Db → Option (DocumentRecord × FilePath)
resolve normalize_path locate path db =
    if malformed path then none else elim (probe normalize_path all_layers path db) [
      | none ↦ none
      | some match ↦ elim (locate match.path) [ none ↦ none | some p ↦ some (match, p) ]
    ]

-- The file lies outside the trash, and is not the other one.
abbrev pub IsClear : FilePath → Option (DocumentRecord × FilePath) → Type 0
IsClear other none = Unit
IsClear other (some (match, p)) =
    (same (take 6 p.parent) (codes "trash/") ≡ false) × (same_path other p ≡ false)

module _ {Value : Type 0} (loads : String → Option (Post Value)) (dumps : Post Value → String)
    (dict : List (String × String) → Value) (sys : System) (reason : Option String) (db : Db)
    (fs : Files) (other : FilePath) (c : String) where
  -- The file `p` was moved to `d`, where no file was, with its text.
  abbrev pub IsMoved : FilePath → FilePath → Files → Type 0
  IsMoved p d fs1 =
      (raw : String) × (fs p ≡ some raw)
      × (fs d ≡ none)
      × (fs1 p ≡ none)
      × Keeps loads dumps dict sys (reason_or_default reason) "" raw (fs1 d)

  abbrev pub Filed : FilePath → Option FilePath → Files → Type 0
  Filed p none fs1 = fs1 p ≡ fs p
  Filed p (some d) fs1 = IsMoved p d fs1

  -- A call that stops has changed nothing, or the row is gone and the file moved or as it was.
  abbrev pub Stopped : DocumentRecord → FilePath → Db → Files → Type 0
  Stopped match p db1 fs1 =
      ((db1 ≡ db) × (fs1 ≡ fs))
      ⊎ (Purged match.doc_id db1
          × ((trashed_to : Option FilePath) × Filed p trashed_to fs1)
          × (fs1 other ≡ some c))

  abbrev pub Ends : Option (DocumentRecord × FilePath) → Reply × Db × Files → Type 0
  Ends none (page_not_found q, db1, fs1) = (db1 ≡ db) × (fs1 ≡ fs)
  Ends none (failed e, db1, fs1) = (db1 ≡ db) × (fs1 ≡ fs)
  Ends none (interrupted, db1, fs1) = (db1 ≡ db) × (fs1 ≡ fs)
  Ends none (r, db1, fs1) = ⊥
  Ends (some (match, p)) (report r, db1, fs1) =
      Purged match.doc_id db1 × Filed p r.trashed_to fs1 × (fs1 other ≡ some c)
  Ends (some (match, p)) (page_not_found q, db1, fs1) = ⊥
  Ends (some (match, p)) (cancelled, db1, fs1) = (db1 ≡ db) × (fs1 ≡ fs)
  Ends (some (match, p)) (failed e, db1, fs1) = Stopped match p db1 fs1
  Ends (some (match, p)) (interrupted, db1, fs1) = Stopped match p db1 fs1

  module _ (aw : Awaits) (now : ℕ) (match : DocumentRecord) (p : FilePath)
      (stands : fs other ≡ some c) where
    abbrev Ending : Reply × Db × Files → Type 0
    Ending r = Ends (some (match, p)) r

    module _ (raw : String) (there : fs p ≡ some raw) where
      abbrev Kept : Failure → Files → Type 0
      Kept e fs1 = (fs1 p ≡ some raw) × (fs1 other ≡ some c)

      abbrev Gone : FilePath → Files → Type 0
      Gone d fs1 =
          (fs d ≡ none)
          × (fs1 p ≡ none)
          × Keeps loads dumps dict sys (reason_or_default reason) "" raw (fs1 d)
          × (fs1 other ≡ some c)
