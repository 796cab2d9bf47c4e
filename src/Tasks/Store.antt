-- ===== src/Tasks/Store.antt =====
-- `SqliteTaskStore` of src/dikw_core/server/tasks/store_sqlite.py. A call is one SQL transaction, so
-- it maps the database to its reply and the database that it leaves. `inst` is `self._instance_id`.
pub mod Rows
pub mod Immutable
pub mod Tape
pub mod Replay
pub mod Reach
use Prim.Native.Nat.{max}
use Prim.Native.String.{compare}
use text.Mathlib.Text.{is_lt}
use dikw_core.Prelude.{
  ℕ, ◌+◌, String, Bool, true, false, ◌&&◌, ◌||◌, not, Option, none, some, List, [], ◌∷◌, ◌++◌, map,
  str_eq, leb, if◌then◌else◌, select, any, take,
}
use dikw_core.Prelude.Sort.{sort}
use dikw_core.Tasks.Model.{
  Json, TaskStatus, pending, running, is_terminal, same_status, TaskRow, Body, is_final, Event,
  DbTask, DbEvent, Db, integrity_error, task_not_found, task_store_error, Result, ok, err,
}

-- SQL's `<` on TEXT: code points in order, which is the order of the UTF-8 bytes.
unfoldable pub str_lt : String → String → Bool
str_lt s t = is_lt (compare s t)

-- `INSERT INTO tasks`; `task_id` is the primary key.
unfoldable pub create : String → TaskRow → Db → Result (Unit {0}) × Db
create inst r db =
    if any (λ t. str_eq t.task_id r.task_id) db.tasks
    then (err integrity_error, db)
    else (ok tt, record db { tasks = db.tasks ++ record { row = r; instance_id = inst } ∷ [] })

-- `WHERE task_id = ? AND instance_id = ?`
abbrev pub owned : String → String → DbTask → Bool
owned inst id t = str_eq t.task_id id && str_eq t.instance_id inst

-- `fetchone()` of the rows that fit.
unfoldable pub first_where : (DbTask → Bool) → List DbTask → Option DbTask
first_where p [] = none
first_where p (t ∷ ts) = if p t then some t else first_where p ts

unfoldable pub get : String → String → Db → Option TaskRow
unfolding first_where
get inst id db = elim (first_where (owned inst id) db.tasks) [ none ↦ none | some t ↦ some t.row ]

-- `summary_row_to_task`
unfoldable pub summary : TaskRow → TaskRow
summary r = record r { result = none; error = none }

-- `ORDER BY created_at DESC, task_id ASC`
unfoldable pub listed_before : TaskRow → TaskRow → Bool
unfolding str_lt
listed_before a b =
    str_lt b.created_at a.created_at
    || (str_eq a.created_at b.created_at && str_lt a.task_id b.task_id)

-- The keyset cursor: strictly after (`after_created_at`, `after_task_id`). A half-set one is none.
unfoldable pub after_cursor : Option String → Option String → TaskRow → Bool
unfolding str_lt
after_cursor (some at) (some id) r =
    str_lt r.created_at at || (str_eq r.created_at at && str_lt id r.task_id)
after_cursor _ _ r = true

abbrev pub status_matches : Option TaskStatus → TaskRow → Bool
status_matches none r = true
status_matches (some st) r = same_status r.status st

abbrev pub op_matches : Option String → TaskRow → Bool
op_matches none r = true
op_matches (some op) r = str_eq r.op op

unfoldable pub list_tasks :
    String
    → Option TaskStatus
    → Option String
    → ℕ
    → Option String
    → Option String
    → Db
    → List TaskRow
unfolding summary listed_before after_cursor same_status sort
list_tasks inst status op limit after_at after_id db = map summary (
    take limit (
      sort listed_before (
        map (λ t. t.row)
          (select
            (λ t.
              str_eq t.instance_id inst
              && (status_matches status t.row
                  && (op_matches op t.row && after_cursor after_at after_id t.row)))
            db.tasks))))

unfoldable pub list_running : String → Db → List TaskRow
unfolding same_status
list_running inst db =
    map (λ t. t.row)
      (select
        (λ t.
          (same_status t.status pending || same_status t.status running)
          && str_eq t.instance_id inst)
        db.tasks)

abbrev or_else : Option String → Option String → Option String
or_else none old = old
or_else (some t) old = some t

abbrev or_kept : Option Json → Option Json → Option Json
or_kept none old = old
or_kept (some j) old = some j

-- The arguments of `update_status` behind the status; those that are `None` are not written.
pub record Fields : Type 0 where
  pub started_at : Option String
  pub finished_at : Option String
  pub result : Option Json
  pub error : Option Json

unfoldable pub set_status : TaskStatus → Fields → TaskRow → TaskRow
set_status st f r = record r {
  status = st;
  started_at = or_else f.started_at r.started_at;
  finished_at = or_else f.finished_at r.finished_at;
  result = or_kept f.result r.result;
  error = or_kept f.error r.error;
}

-- `UPDATE tasks SET … WHERE task_id = ? AND instance_id = ? AND status NOT IN (terminal)`
abbrev pub updatable : String → String → DbTask → Bool
updatable inst id t = owned inst id t && not (is_terminal t.status)

unfoldable pub update_row : String → String → TaskStatus → Fields → DbTask → DbTask
unfolding set_status is_terminal
update_row inst id st f t =
    if updatable inst id t then record t { row = set_status st f t.row } else t

unfoldable pub update_status : String → String → TaskStatus → Fields → Db → Result (Unit {0}) × Db
unfolding update_row
update_status inst id st f db =
    if any (updatable inst id) db.tasks
    then (ok tt, record db { tasks = map (update_row inst id st f) db.tasks })
    else if any (owned inst id) db.tasks
    then (ok tt, db)
    else (err (task_not_found id), db)

abbrev pub events_of : String → List DbEvent → List DbEvent
events_of id evs = select (λ e. str_eq e.owner id) evs

-- `COALESCE(MAX(seq), 0)`
unfoldable pub top_seq : List DbEvent → ℕ
top_seq [] = 0
top_seq (e ∷ es) = max e.seq (top_seq es)

-- `(SELECT status FROM tasks WHERE task_id = ?)`, of any instance.
unfoldable pub status_of : String → Db → Option TaskStatus
unfolding first_where
status_of id db = elim (first_where (λ t. str_eq t.task_id id) db.tasks) [
  | none ↦ none
  | some t ↦ some t.status
]

abbrev pub is_over : Option TaskStatus → Bool
is_over none = false
is_over (some st) = is_terminal st

-- `event.pop("ts", None) or _isoformat()`
abbrev pub stamp : Option String → String → String
stamp none now = now
stamp (some ts) now = if str_eq ts "" then now else ts

-- The insert fails on the foreign key where no task has this id, and the transaction rolls back.
unfoldable pub append_event : String → Body → Option String → String → Db → Result ℕ × Db
unfolding top_seq status_of is_final is_terminal
append_event id body ts now db =
    let last = top_seq (events_of id db.events) in
    if not (is_final body) && is_over (status_of id db)
    then (ok last, db)
    else if any (λ t. str_eq t.task_id id) db.tasks
    then (
      ok (last + 1),
      record db {
        events =
            db.events
            ++ record {
              owner = id;
              event = record { seq = last + 1; ts = stamp ts now; body = body };
            }
              ∷ [];
      },
    )
    else (err (task_store_error id), db)

abbrev pub limited {ℓ} : {A : Type ℓ} → Option ℕ → List A → List A
limited none xs = xs
limited (some n) xs = take n xs

abbrev pub seq_before : DbEvent → DbEvent → Bool
seq_before a b = not (leb b.seq a.seq)

unfoldable pub list_events : String → String → ℕ → Option ℕ → Db → List Event
unfolding sort
list_events inst id from limit db =
    map (λ e. e.event)
      (limited limit (
        sort seq_before (
          select (λ e. str_eq e.owner id && (leb from e.seq && any (owned inst id) db.tasks))
            db.events)))

unfoldable pub max_seq : String → String → Db → ℕ
unfolding top_seq
max_seq inst id db =
    top_seq (select (λ e. str_eq e.owner id && any (owned inst id) db.tasks) db.events)
