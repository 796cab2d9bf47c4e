-- ===== src/Tasks/Run/Telling.antt =====
-- What a subscriber may rely on: the `final` event of a task, its place on the tape and its status.
use dikw_core.Prelude.{String, ◌≡◌, refl, subst, true, false, any, ◌⊎◌, inl, inr, some}
use dikw_core.Tasks.Model.{TaskStatus, is_terminal, TaskRow, is_final, Db}
use dikw_core.Tasks.Store.{get}
use dikw_core.Tasks.Store.Rows.{Holds}
use dikw_core.Tasks.Run.{
  began, never_began, ended, Run, Step, returned, raised, cut, reported, finished, crashed,
  cut_runner, cut_report, reread, cut_reread, lost_reread, landed, elsewhere, Reach, here, next,
  started,
}
use dikw_core.Tasks.Run.Ops.{tape_of}
use dikw_core.Tasks.Run.Ending.{Holds-get}
use dikw_core.Tasks.Run.Finals.{Sealed, none_yet, told, to_land}
use dikw_core.Tasks.Run.Sealing.{At, Told}
use dikw_core.Tasks.Run.Tapes.{Step-Told}

-- A failure of the store is not forgotten.
faulted_before :
    {inst id op : String} {s t : Run} → Step inst id op s t → t.faulted ≡ false → s.faulted ≡ false
faulted_before (began e) q = q
faulted_before (never_began e) q = q
faulted_before (returned at now o e k) q = q
faulted_before (raised at o e a) q = cc
faulted_before (cut at o db' late' e f) q = q
faulted_before (reported body now e b) q = q
faulted_before (finished r e) q = q
faulted_before (crashed j e) q = q
faulted_before (cut_runner e) q = q
faulted_before (cut_report body db' late' e b f) q = q
faulted_before (reread e) q = q
faulted_before (cut_reread e) q = q
faulted_before (lost_reread e) q = cc
faulted_before (landed o rest now p) q = q
faulted_before (elsewhere db' f) q = q

module _ (inst id op : String) where
  Reach-Told :
      {s t : Run}
      → Reach inst id op s t
      → t.faulted ≡ false
      → Told inst id s.pc s.db s.late s.stopped
      → Told inst id t.pc t.db t.late t.stopped
  Reach-Told here q w = w
  Reach-Told (next r st) q w = Step-Told inst id op st q (Reach-Told r (faulted_before st q) w)

-- The task as `create` leaves it: its row is live and its tape has no `final` event.
pub record IsFresh (inst id : String) (db : Db) : Type 0 where
  pub st : TaskStatus
  pub holds : Holds inst id st db.tasks
  pub live : is_terminal st ≡ false
  pub silent : any is_final (tape_of id db) ≡ false

module _ (inst id op : String) (db : Db) (s : Run) (fresh : IsFresh inst id db)
    (reach : Reach inst id op (started db) s) (sane : s.faulted ≡ false) where
  reached : Told inst id s.pc s.db s.late s.stopped
  reached =
      Reach-Told inst id op reach sane
        (fresh.st, fresh.holds, none_yet fresh.silent refl, (fresh.live, refl, refl))

  -- As long as the store has not failed, and wherever cancellations land and late calls take effect:
  -- either the tape of the task has no `final` event, or its row is terminal, the tape ends with its
  -- only `final` event, and the status in that event is the status of the row.
  pub final_last :
      (any is_final (tape_of id s.db) ≡ false)
      ⊎ ((r : TaskRow) × (get inst id s.db ≡ some r)
          × (is_terminal r.status ≡ true)
          × Sealed r.status (tape_of id s.db))
  final_last =
      let (st, h, n, _) = reached in
      let (r, found, same) = Holds-get inst id st s.db h in
      elim n [
        | none_yet a b ↦ inl a
        | told t seal b ↦ inr (r, found, rw same t, rw same seal)
        | to_land t a b ↦ inl a
      ]

  -- A run that has ended with no cancellation and no failure of the store has a terminal row, and
  -- its tape ends with its only `final` event, which has the status of the row.
  pub undisturbed :
      s.pc ≡ ended
      → s.stopped ≡ false
      → (r : TaskRow) × (get inst id s.db ≡ some r)
        × (is_terminal r.status ≡ true)
        × Sealed r.status (tape_of id s.db)
  undisturbed e q =
      let (st, h, n, a) = reached in
      let (r, found, same) = Holds-get inst id st s.db h in
      let (t, seal, _) = subst (λ pc. At pc st (tape_of id s.db) s.late s.stopped) e a q in
      (r, found, rw same t, rw same seal)
