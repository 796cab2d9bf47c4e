-- ===== src/Tasks/Run/Ending.antt =====
-- A run that has begun and ended leaves a terminal row, unless an exception left one of its handlers.
use mathlib.Core.Option.{none-ne-some}
use dikw_core.Prelude.{
  String, ◌≡◌, refl, Bool, true, false, not, some, List, [], ◌∷◌, arith, str_eq, Bool-cases, inl,
  inr,
}
use dikw_core.Tasks.Model.{
  TaskStatus, succeeded, failed, cancelled, is_terminal, TaskRow, DbTask, Db,
}
use dikw_core.Tasks.Store.{get, owned, first_where, Fields}
use dikw_core.Tasks.Store.Rows.{Holds}
use dikw_core.Tasks.Store.Immutable.{next_status}
use dikw_core.Tasks.Run.{
  Pc, scheduled, dropped, began, never_began, starting, announcing, working, committing, reporting,
  interrupted, rereading, telling_cancelled, failing, telling_failed, ended, StoreOp, write, emit,
  perform, awaited, on_return, in_try, on_cancel, on_error, Run, Fate, not_begun, done, under_way,
  Step, returned, raised, cut, reported, finished, crashed, cut_runner, cut_report, reread,
  cut_reread, lost_reread, landed, elsewhere, Reach, here, next, started,
}
use dikw_core.Tasks.Run.Ops.{tasks-perform_write, tasks-perform_emit, Foreign-Holds}

-- Where the row must be terminal already.
must_be_over : Pc → Bool → Bool
must_be_over (reporting r) esc = true
must_be_over rereading esc = true
must_be_over telling_cancelled esc = true
must_be_over (telling_failed e) esc = true
must_be_over ended esc = not esc
must_be_over _ esc = false

record IsSound (inst id : String) (s : Run) : Type 0 where
  st : TaskStatus
  holds : Holds inst id st s.db.tasks
  over : must_be_over s.pc s.escaped ≡ true → is_terminal st ≡ true

-- A call never takes a terminal status away.
perform-Holds :
    (inst id now : String) (o : StoreOp) (st : TaskStatus) (db : Db)
    → Holds inst id st db.tasks
    → (to : TaskStatus) × Holds inst id to (perform inst id now o db).1.tasks
      × (is_terminal st ≡ true → to ≡ st)
perform-Holds inst id now (write to f) st db h =
    (next_status inst id to f st, tasks-perform_write inst id now st to f db h, λ e. rw e)
perform-Holds inst id now (emit body) st db h =
    (st, rw (tasks-perform_emit inst id now st body db) h, λ _. refl)

Fate-Holds :
    (inst id : String) (o : StoreOp) (st : TaskStatus) {db db' : Db} {late late' : List StoreOp}
    → Fate inst id o db late db' late'
    → Holds inst id st db.tasks
    → (to : TaskStatus) × Holds inst id to db'.tasks × (is_terminal st ≡ true → to ≡ st)
Fate-Holds inst id o st not_begun h = (st, h, λ _. refl)
Fate-Holds inst id o st {db} (done now) h = perform-Holds inst id now o st db h
Fate-Holds inst id o st under_way h = (st, h, λ _. refl)

abbrev After : String → String → String → StoreOp → Db → Pc → Bool → Type 0
After inst id now o db pc esc =
    (to : TaskStatus) × Holds inst id to (perform inst id now o db).1.tasks
    × (must_be_over pc esc ≡ true → is_terminal to ≡ true)

write-over :
    (inst id now : String) (to : TaskStatus) (f : Fields) (o : StoreOp) (st : TaskStatus) (db : Db)
    (pc : Pc) (esc : Bool)
    → some (write to f) ≡ some o
    → is_terminal to ≡ true
    → Holds inst id st db.tasks
    → After inst id now o db pc esc
write-over inst id now to f o st db pc esc e t h =
    let q : write to f ≡ o = cc in
    rw (← q) (
      next_status inst id to f st,
      tasks-perform_write inst id now st to f db h,
      λ _. ground (arith, t),
    )

returned-over :
    (inst id op at now : String) (pc : Pc) (o : StoreOp) (st : TaskStatus) (db : Db) (esc : Bool)
    → awaited id op pc at ≡ some o
    → Holds inst id st db.tasks
    → (must_be_over pc esc ≡ true → is_terminal st ≡ true)
    → After inst id now o db (on_return pc) esc
unfolding awaited on_return must_be_over is_terminal
returned-over inst id op at now (committing r) o st db esc e h v =
    write-over inst id now succeeded _ o st db (reporting r) esc e refl h
returned-over inst id op at now interrupted o st db esc e h v =
    write-over inst id now cancelled _ o st db rereading esc e refl h
returned-over inst id op at now (failing x) o st db esc e h v =
    write-over inst id now failed _ o st db (telling_failed x) esc e refl h
returned-over inst id op at now starting o st db esc e h v =
    let (to, g, _) = perform-Holds inst id now o st db h in (to, g, λ q. cc)
returned-over inst id op at now announcing o st db esc e h v =
    let (to, g, _) = perform-Holds inst id now o st db h in (to, g, λ q. cc)
returned-over inst id op at now scheduled o st db esc e h v = absurd (none-ne-some o e)
returned-over inst id op at now dropped o st db esc e h v = absurd (none-ne-some o e)
returned-over inst id op at now working o st db esc e h v = absurd (none-ne-some o e)
returned-over inst id op at now rereading o st db esc e h v = absurd (none-ne-some o e)
returned-over inst id op at now ended o st db esc e h v = absurd (none-ne-some o e)
returned-over inst id op at now _ o st db esc e h v =
    let (to, g, kept) = perform-Holds inst id now o st db h in
    (to, g, λ q. rw (kept (v refl)) (v refl))

Holds-first :
    (inst id : String) (st : TaskStatus) (ts : List DbTask)
    → Holds inst id st ts
    → (t : DbTask) × (first_where (owned inst id) ts ≡ some t) × (t.status ≡ st)
unfolding first_where
Holds-first inst id st [] h = absurd h
Holds-first inst id st (t ∷ ts) h = elim (Bool-cases (str_eq t.task_id id)) [
  | inl e ↦ let q = rw e at h in (t, ground (arith, q.0, e), q.1)
  | inr e ↦ let (u, a, b) = Holds-first inst id st ts (rw e at h) in (u, ground (arith, a, e), b)
]

-- A run goes on from the second reading of its row to the end only where the row is terminal.
pub Holds-get :
    (inst id : String) (st : TaskStatus) (db : Db)
    → Holds inst id st db.tasks
    → (r : TaskRow) × (get inst id db ≡ some r) × (r.status ≡ st)
unfolding get
Holds-get inst id st db h =
    let (t, e, q) = Holds-first inst id st db.tasks h in (t.row, ground (arith, e), q)

-- Every step keeps the row in place, and terminal where it has to be.
Step-IsSound :
    {inst id op : String} {s t : Run} → Step inst id op s t → IsSound inst id s → IsSound inst id t
unfolding must_be_over on_cancel on_error in_try
Step-IsSound (began e) h = record { st = h.st; holds = h.holds; over = λ q. cc }
Step-IsSound (never_began e) h = record { st = h.st; holds = h.holds; over = λ q. cc }
Step-IsSound {inst} {id} {op} {s} (returned at now o e ok) h =
    let (to, g, v) = returned-over inst id op at now s.pc o h.st s.db s.escaped e h.holds h.over in
    record { st = to; holds = g; over = v }
Step-IsSound {s = s} (raised at o e q) h = record {
  st = h.st;
  holds = h.holds;
  over = λ z. ground arith;
}
Step-IsSound {inst} {id} {s = s} (cut at o db' late' e f) h =
    let (to, g, v) = Fate-Holds inst id o h.st f h.holds in
    record { st = to; holds = g; over = λ z. ground arith }
Step-IsSound {inst} {id} {s = s} (reported body now e b) h =
    let (to, g, v) = perform-Holds inst id now (emit body) h.st s.db h.holds in
    record { st = to; holds = g; over = λ q. cc }
Step-IsSound (finished r e) h = record { st = h.st; holds = h.holds; over = λ q. cc }
Step-IsSound (crashed x e) h = record { st = h.st; holds = h.holds; over = λ q. cc }
Step-IsSound (cut_runner e) h = record { st = h.st; holds = h.holds; over = λ q. cc }
Step-IsSound {inst} {id} {s = s} (cut_report body db' late' e b f) h =
    let (to, g, v) = Fate-Holds inst id (emit body) h.st f h.holds in
    record { st = to; holds = g; over = λ q. cc }
Step-IsSound {inst} {id} {s = s} (reread e) h = record {
  st = h.st;
  holds = h.holds;
  over = λ q. h.over (rw e);
}
Step-IsSound (cut_reread e) h = record { st = h.st; holds = h.holds; over = λ q. cc }
Step-IsSound (lost_reread e) h = record { st = h.st; holds = h.holds; over = λ q. cc }
Step-IsSound {inst} {id} {s = s} (landed o rest now p) h =
    let (to, g, v) = perform-Holds inst id now o h.st s.db h.holds in
    record { st = to; holds = g; over = λ q. rw (v (h.over q)) (h.over q) }
Step-IsSound {inst} (elsewhere db' f) h = record {
  st = h.st;
  holds = Foreign-Holds inst h.st f h.holds;
  over = h.over;
}

Reach-IsSound :
    {inst id op : String} {s t : Run} → Reach inst id op s t → IsSound inst id s → IsSound inst id t
Reach-IsSound here h = h
Reach-IsSound (next r st) h = Step-IsSound st (Reach-IsSound r h)

-- Wherever cancellations and failures of the store land, and whatever the runner, late calls and
-- other tasks do: when the run of a created task has begun and ended, and no exception has left
-- one of its handlers, `get` returns a row with a terminal status.
pub ended-terminal :
    (inst id op : String) (st : TaskStatus) (db : Db) (s : Run)
    → Holds inst id st db.tasks
    → Reach inst id op (started db) s
    → s.pc ≡ ended
    → s.escaped ≡ false
    → (r : TaskRow) × (get inst id s.db ≡ some r) × (is_terminal r.status ≡ true)
unfolding must_be_over
ended-terminal inst id op st db s h reach e esc =
    let sound = Reach-IsSound reach (record { st = st; holds = h; over = λ q. cc }) in
    let (r, found, same) = Holds-get inst id sound.st s.db sound.holds in
    (r, found, rw same (sound.over (rw (e, esc))))
