-- ===== src/Tasks/Run/Gaps.antt =====
-- A cancellation that finds the row just committed takes the final event from the coroutine `_run`.
use dikw_core.Prelude.{String, ◌≡◌, Bool, false, List, some}
use dikw_core.Tasks.Model.{Json, TaskStatus, succeeded, cancelled, is_terminal, Db}
use dikw_core.Tasks.Store.Rows.{Holds}
use dikw_core.Tasks.Run.{Pc, StoreOp, write, no_fields, perform, Run}

abbrev pub in_state : Pc → Db → List StoreOp → Bool → Bool → Bool → Run
in_state pc db late stopped faulted escaped = record {
  pc = pc;
  db = db;
  late = late;
  stopped = stopped;
  faulted = faulted;
  escaped = escaped;
}

module _ (inst id op now : String) (st : TaskStatus) (r : Json) (db : Db) (late : List StoreOp)
    (f esc : Bool) (h : Holds inst id st db.tasks) (live : is_terminal st ≡ false) where
  commit : StoreOp
  commit = write succeeded (record no_fields { finished_at = some now; result = some r })

  revoke : StoreOp
  revoke = write cancelled (record no_fields { finished_at = some now })

  abbrev committed : Db
  committed = (perform inst id now commit db).1

  abbrev revoked : Db
  revoked = (perform inst id now revoke committed).1
