-- ===== src/Tasks/Manager.antt =====
-- `TaskManager` of src/dikw_core/server/tasks/manager.py, but for the coroutine of a run, which is in
-- Tasks/Run.antt: `submit` up to the start of the run, `cancel`, `is_running`, `condition_for`,
-- `shutdown` and `restart_cleanup`.
pub mod Cleanup
pub mod Tests
use dikw_core.Prelude.{
  ℕ, suc, String, Bool, true, false, Option, none, some, List, [], ◌∷◌, ◌++◌, if◌then◌else◌, str_eq,
  any, map, select, not,
}
use dikw_core.Tasks.Model.{
  Json, str, obj, field, end, pending, failed, TaskRow, final, Db, StoreError, Result, ok, err,
}
use dikw_core.Tasks.Store.{create, list_running, update_status, append_event}

-- An entry of `_running`: whether its token and its task are cancelled.
pub record Entry : Type 0 where
  pub task_id : String
  pub token_cancelled : Bool
  pub task_cancelled : Bool

-- `_running`, `_conditions` and the database behind `_store`
pub record Manager : Type 0 where
  pub running : List Entry
  pub conditions : List String
  pub db : Db

abbrev pub cancelled_entry : Entry → Entry
cancelled_entry e = record e { token_cancelled = true; task_cancelled = true }

unfoldable pub condition_for : String → Manager → Manager
condition_for id m =
    if any (λ c. str_eq c id) m.conditions
    then m
    else record m { conditions = m.conditions ++ id ∷ [] }

unfoldable pub is_running : String → Manager → Bool
is_running id m = any (λ e. str_eq e.task_id id) m.running

-- `self._running[task_id] = (asyncio_task, token)`
unfoldable pub register : String → List Entry → List Entry
register id [] = record { task_id = id; token_cancelled = false; task_cancelled = false } ∷ []
register id (e ∷ es) =
    if str_eq e.task_id id
    then record { task_id = id; token_cancelled = false; task_cancelled = false } ∷ es
    else e ∷ register id es

abbrev pub fresh_row : String → String → String → String → TaskRow
fresh_row id op now digest = record {
  task_id = id;
  op = op;
  status = pending;
  created_at = now;
  started_at = none;
  finished_at = none;
  params_digest = digest;
  result = none;
  error = none;
}

-- `id` is the new UUID, `digest` the digest of the parameters.
unfoldable pub submit :
    String → String → String → String → String → Manager → Result TaskRow × Manager
unfolding create register
submit inst id op now digest m =
    let row = fresh_row id op now digest in
    let (made, db) = create inst row m.db in
    elim made as (λ _. Result TaskRow × Manager) [
      | err e ↦ (err e, record m { db = db })
      | ok _ ↦ (
        ok row,
        record {
          running = register id m.running;
          conditions = select (λ c. not (str_eq c id)) m.conditions ++ id ∷ [];
          db = db;
        },
      )
    ]

unfoldable pub cancel : String → Manager → Bool × Manager
unfolding is_running
cancel id m =
    if is_running id m
    then (
      true,
      record m {
        running = map (λ e. if str_eq e.task_id id then cancelled_entry e else e) m.running;
      },
    )
    else (false, m)

-- The wait for the tasks to unwind is left out.
unfoldable pub shutdown : Manager → Manager
shutdown m = record m { running = map cancelled_entry m.running }

abbrev pub restart_error : Json
restart_error = obj (field "reason" (str "server_restart") end)

-- The loop of `restart_cleanup`; `clock n` is the time that round n reads.
unfoldable pub cleanup_rows : String → (ℕ → String) → ℕ → List TaskRow → Db → Result (Unit {0}) × Db
unfolding update_status append_event
cleanup_rows inst clock n [] db = (ok tt, db)
cleanup_rows inst clock n (r ∷ rows) db =
    let (updated, db1) =
      update_status inst r.task_id failed
        (record {
          started_at = none;
          finished_at = some (clock n);
          result = none;
          error = some restart_error;
        })
        db in
    let (appended, db2) =
      append_event r.task_id (final failed none (some restart_error)) none (clock n) db1 in
    let rest = cleanup_rows inst clock (suc n) rows db2 in
    elim updated as (λ _. Result (Unit {0}) × Db) [
      | err e ↦ (err e, db1)
      | ok _ ↦ elim appended as (λ _. Result (Unit {0}) × Db) [ err e ↦ (err e, db2) | ok _ ↦ rest ]
    ]

unfoldable pub restart_cleanup : String → (ℕ → String) → Db → Result (Unit {0}) × Db
unfolding list_running cleanup_rows
restart_cleanup inst clock db = cleanup_rows inst clock 0 (list_running inst db) db
