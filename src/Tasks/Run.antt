-- ===== src/Tasks/Run.antt =====
-- The coroutine `_run` of `TaskManager.submit` (src/dikw_core/server/tasks/manager.py), as a step
-- relation. Each place where it awaits is a program counter. A store call runs in a worker thread:
-- a cancellation that lands at its await may find it not begun, done, or still on its way, and in
-- the last case it takes effect later, whatever the coroutine does by then. Other tasks write to the
-- same database between any two steps.
pub mod Ops
pub mod Ending
pub mod Finals
pub mod Sealing
pub mod Tapes
pub mod Telling
pub mod Gaps
use dikw_core.Prelude.{
  String, ◌≡◌, ◌≢◌, Bool, true, false, Option, none, some, List, [], ◌∷◌, if◌then◌else◌,
}
use dikw_core.Tasks.Model.{
  Json, TaskStatus, running, succeeded, failed, cancelled, same_status, TaskRow, Body, task_started,
  final, is_final, Db, Result, ok, err,
}
use dikw_core.Tasks.Store.{get, create, Fields, update_status, append_event}

pub data Pc : Type 0 where
  -- created by `asyncio.create_task` and not yet begun; cancelled before it began
  scheduled dropped : Pc
  starting announcing working : Pc
  committing reporting : Json → Pc
  interrupted rereading telling_cancelled : Pc
  failing telling_failed : Json → Pc
  ended : Pc

-- A call of the store on behalf of this task.
pub data StoreOp : Type 0 where
  write : TaskStatus → Fields → StoreOp
  emit : Body → StoreOp

abbrev pub no_fields : Fields
no_fields = record { started_at = none; finished_at = none; result = none; error = none }

-- Runs a call at time `now`: whether it returned, and the database it leaves.
unfoldable pub perform : String → String → String → StoreOp → Db → Bool × Db
perform inst id now (write st f) db =
    let (r, db') = update_status inst id st f db in (elim r [ ok _ ↦ true | err _ ↦ false ], db')
perform inst id now (emit body) db =
    let (r, db') = append_event id body none now db in (elim r [ ok _ ↦ true | err _ ↦ false ], db')

-- The store call that the coroutine awaits, with the time that it read before.
unfoldable pub awaited : String → String → Pc → String → Option StoreOp
awaited id op scheduled at = none
awaited id op dropped at = none
awaited id op starting at = some (write running (record no_fields { started_at = some at }))
awaited id op announcing at = some (emit (task_started id op))
awaited id op working at = none
awaited id op (committing r) at =
    some (write succeeded (record no_fields { finished_at = some at; result = some r }))
awaited id op (reporting r) at = some (emit (final succeeded (some r) none))
awaited id op interrupted at = some (write cancelled (record no_fields { finished_at = some at }))
awaited id op rereading at = none
awaited id op telling_cancelled at = some (emit (final cancelled none none))
awaited id op (failing e) at =
    some (write failed (record no_fields { finished_at = some at; error = some e }))
awaited id op (telling_failed e) at = some (emit (final failed none (some e)))
awaited id op ended at = none

-- Where the coroutine goes on when its store call has returned.
unfoldable pub on_return : Pc → Pc
on_return scheduled = scheduled
on_return dropped = dropped
on_return starting = announcing
on_return announcing = working
on_return working = working
on_return (committing r) = reporting r
on_return (reporting r) = ended
on_return interrupted = rereading
on_return rereading = rereading
on_return telling_cancelled = ended
on_return (failing e) = telling_failed e
on_return (telling_failed e) = ended
on_return ended = ended

-- Inside the `try` block.
unfoldable pub in_try : Pc → Bool
in_try starting = true
in_try announcing = true
in_try working = true
in_try (committing r) = true
in_try (reporting r) = true
in_try _ = false

-- `except asyncio.CancelledError` catches what lands in the `try` block, and nothing catches what
-- lands in a handler: then only `finally` runs.
unfoldable pub on_cancel : Pc → Pc
unfolding in_try
on_cancel pc = if in_try pc then interrupted else ended

-- `except Exception`, likewise.
unfoldable pub on_error : Json → Pc → Pc
unfolding in_try
on_error e pc = if in_try pc then failing e else ended

-- `if row is None or row.status == TaskStatus.CANCELLED`
unfoldable pub after_reread : Option TaskRow → Pc
unfolding same_status
after_reread none = telling_cancelled
after_reread (some r) = if same_status r.status cancelled then telling_cancelled else ended

pub record Run : Type 0 where
  pub pc : Pc
  pub db : Db
  -- the calls that still run in their threads though their await was cancelled
  pub late : List StoreOp
  -- whether a cancellation has landed, a store call has failed, an exception has left a handler
  pub stopped : Bool
  pub faulted : Bool
  pub escaped : Bool

-- Takes one element out of a list.
pub data Pick {A : Type 0} (x : A) : List A → List A → Type 0 where
  first : {xs : List A} → Pick x (x ∷ xs) xs
  later : {y : A} {xs ys : List A} → Pick x xs ys → Pick x (y ∷ xs) (y ∷ ys)

-- What became of a call whose await is cancelled: the database and the late calls it leaves.
pub data Fate (inst id : String) (o : StoreOp) (db : Db) (late : List StoreOp)
    : Db → List StoreOp → Type 0 where
  not_begun : Fate inst id o db late db late
  done : (now : String) → Fate inst id o db late (perform inst id now o db).1 late
  under_way : Fate inst id o db late db (o ∷ late)

-- A write on behalf of another task, or the creation of a row.
pub data Foreign (id : String) (db : Db) : Db → Type 0 where
  created : (other : String) (r : TaskRow) → Foreign id db (create other r db).1
  performed :
      (other j now : String) (o : StoreOp) → j ≢ id → Foreign id db (perform other j now o db).1

-- One step of task `id` with operation `op`, of the store of instance `inst`.
pub data Step (inst id op : String) (s : Run) : Run → Type 0 where
  -- the event loop begins the coroutine
  began : s.pc ≡ scheduled → Step inst id op s (record s { pc = starting })
  -- a cancellation lands before that: nothing of the coroutine runs, no handler and no `finally`
  never_began : s.pc ≡ scheduled → Step inst id op s (record s { pc = dropped; stopped = true })
  -- the awaited store call returns
  returned :
      (at now : String) (o : StoreOp)
      → awaited id op s.pc at ≡ some o
      → (perform inst id now o s.db).0 ≡ true
      → Step inst id op s (record s { pc = on_return s.pc; db = (perform inst id now o s.db).1 })
  -- the store raises and has written nothing
  raised :
      (at : String) (o : StoreOp) (e : Json)
      → awaited id op s.pc at ≡ some o
      → Step inst id op s (record s {
        pc = on_error e s.pc;
        faulted = true;
        escaped = if in_try s.pc then s.escaped else true;
      })
  -- a cancellation lands where a store call is awaited
  cut :
      (at : String) (o : StoreOp) (db' : Db) (late' : List StoreOp)
      → awaited id op s.pc at ≡ some o
      → Fate inst id o s.db s.late db' late'
      → Step inst id op s (record s {
        pc = on_cancel s.pc;
        db = db';
        late = late';
        stopped = true;
        escaped = if in_try s.pc then s.escaped else true;
      })
  -- the runner reports an event through its reporter
  reported :
      (body : Body) (now : String)
      → s.pc ≡ working
      → is_final body ≡ false
      → Step inst id op s (record s { db = (perform inst id now (emit body) s.db).1 })
  -- the runner returns, or raises
  finished : (r : Json) → s.pc ≡ working → Step inst id op s (record s { pc = committing r })
  crashed : (e : Json) → s.pc ≡ working → Step inst id op s (record s { pc = failing e })
  -- a cancellation lands in the runner, which may be waiting for an event to be stored
  cut_runner : s.pc ≡ working → Step inst id op s (record s { pc = interrupted; stopped = true })
  cut_report :
      (body : Body) (db' : Db) (late' : List StoreOp)
      → s.pc ≡ working
      → is_final body ≡ false
      → Fate inst id (emit body) s.db s.late db' late'
      → Step inst id op s (record s { pc = interrupted; db = db'; late = late'; stopped = true })
  -- the row is read again in the cancel handler
  reread : s.pc ≡ rereading → Step inst id op s (record s { pc = after_reread (get inst id s.db) })
  cut_reread :
      s.pc ≡ rereading → Step inst id op s (record s { pc = ended; stopped = true; escaped = true })
  -- the read fails
  lost_reread :
      s.pc ≡ rereading → Step inst id op s (record s { pc = ended; faulted = true; escaped = true })
  -- a late call takes effect
  landed :
      (o : StoreOp) (rest : List StoreOp) (now : String)
      → Pick o s.late rest
      → Step inst id op s (record s { db = (perform inst id now o s.db).1; late = rest })
  -- another task writes
  elsewhere : (db' : Db) → Foreign id s.db db' → Step inst id op s (record s { db = db' })

-- The run as `submit` creates it, over a database that holds the new row.
abbrev pub started : Db → Run
started db = record {
  pc = scheduled;
  db = db;
  late = [];
  stopped = false;
  faulted = false;
  escaped = false;
}

pub data Reach (inst id op : String) (s : Run) : Run → Type 0 where
  here : Reach inst id op s s
  next : {t u : Run} → Reach inst id op s t → Step inst id op t u → Reach inst id op s u
