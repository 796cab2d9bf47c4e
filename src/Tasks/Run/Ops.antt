-- ===== src/Tasks/Run/Ops.antt =====
-- What one store call does to the row and the tape of a task, and that other tasks do nothing to it.
use dikw_core.Prelude.{
  String, ◌≡◌, refl, ap, false, ◌&&◌, not, none, List, [], ◌∷◌, ◌++◌, map, map-append, arith,
  str_eq, str_eq-false, eq_iff, if◌then◌else◌, Bool-cases, inl, inr,
}
use dikw_core.Tasks.Model.{TaskStatus, running, is_terminal, Body, is_final, DbTask, DbEvent, Db}
use dikw_core.Tasks.Store.{create, Fields, update_row, update_status, events_of}
use dikw_core.Tasks.Store.Rows.{Holds, Holds-status_of, Holds-has_id}
use dikw_core.Tasks.Store.Immutable.{next_status, Holds-map, any-updatable, events-update_status}
use dikw_core.Tasks.Store.Tape.{
  inserted, append_event_cases, events_of-snoc_self, events_of-snoc_other,
}
use dikw_core.Tasks.Store.Reach.{tasks-append_event}
use dikw_core.Tasks.Run.{write, emit, perform, Foreign, created, performed}

-- The tape of a task: what its events say.
abbrev pub tape_of : String → Db → List Body
tape_of id db = map (λ e. e.body) (events_of id db.events)

module _ (inst id now : String) (st : TaskStatus) where
  pub tasks-perform_write :
      (to : TaskStatus) (f : Fields) (db : Db)
      → Holds inst id st db.tasks
      → Holds inst id (next_status inst id to f st) (perform inst id now (write to f) db).1.tasks
  unfolding perform update_status
  tasks-perform_write to f db h =
      ground (arith, any-updatable inst id to f st db.tasks h, Holds-map inst id to f st db.tasks h)

  pub tape-perform_write :
      (j : String) (to : TaskStatus) (f : Fields) (db : Db)
      → tape_of j (perform inst id now (write to f) db).1 ≡ tape_of j db
  unfolding perform
  tape-perform_write j to f db =
      ap (λ es. map (λ (e : DbEvent). e.body) (events_of j es))
        (events-update_status inst id to f db)

  pub tasks-perform_emit :
      (body : Body) (db : Db) → (perform inst id now (emit body) db).1.tasks ≡ db.tasks
  unfolding perform
  tasks-perform_emit body db = tasks-append_event id body none now db

  pub tape-perform_emit :
      (body : Body) (db : Db)
      → Holds inst id st db.tasks
      → tape_of id (perform inst id now (emit body) db).1 ≡ (
          if not (is_final body) && is_terminal st
          then tape_of id db
          else tape_of id db ++ body ∷ [])
  unfolding perform
  tape-perform_emit body db h = rw append_event_cases (
      rw (Holds-status_of inst id st db h) (
        rw (Holds-has_id inst id st db.tasks h)
          (elim (Bool-cases (not (is_final body) && is_terminal st)) [
            | inl e ↦ rw e
            | inr e ↦ rw e (
                rw (events_of-snoc_self id db.events (inserted id body none now db) refl)
                  (map-append _ _ _))
          ])))

Holds-snoc :
    (inst id : String) (st : TaskStatus) (ts : List DbTask) (t : DbTask)
    → Holds inst id st ts
    → Holds inst id st (ts ++ t ∷ [])
Holds-snoc inst id st [] t h = absurd h
Holds-snoc inst id st (u ∷ ts) t h = ground (arith, Holds-snoc inst id st ts t)

Holds-map_other :
    (inst id : String) (st : TaskStatus) (other j : String) (to : TaskStatus) (f : Fields)
    (ts : List DbTask)
    → str_eq j id ≡ false
    → Holds inst id st ts
    → Holds inst id st (map (update_row other j to f) ts)
unfolding update_row
Holds-map_other inst id st other j to f [] n h = h
Holds-map_other inst id st other j to f (t ∷ ts) n h = ground (
  arith,
  Holds-map_other inst id st other j to f ts n,
  eq_iff t.task_id id,
  eq_iff t.task_id j,
  eq_iff j id,
)

pub Foreign-Holds :
    (inst : String) (st : TaskStatus) {id : String} {a b : Db}
    → Foreign id a b
    → Holds inst id st a.tasks
    → Holds inst id st b.tasks
unfolding create perform update_status
Foreign-Holds inst st {id} {a} (created other r) h =
    ground (arith, Holds-snoc inst id st a.tasks (record { row = r; instance_id = other }) h)
Foreign-Holds inst st {id} {a} (performed other j now (write to f) n) h =
    ground (arith, Holds-map_other inst id st other j to f a.tasks (str_eq-false j id n) h)
Foreign-Holds inst st {id} {a} (performed other j now (emit body) n) h =
    rw (tasks-append_event j body none now a) h

pub Foreign-tape : {id : String} {a b : Db} → Foreign id a b → tape_of id b ≡ tape_of id a
unfolding create perform
Foreign-tape (created other r) = ground arith
Foreign-tape {id} {a} (performed other j now (write to f) n) =
    tape-perform_write other j now running id to f a
Foreign-tape {id} {a} (performed other j now (emit body) n) = rw append_event_cases (
    ground
      (arith, events_of-snoc_other id a.events (inserted j body none now a) (str_eq-false j id n)))
