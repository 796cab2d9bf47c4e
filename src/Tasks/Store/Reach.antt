-- ===== src/Tasks/Store/Reach.antt =====
-- The databases that the writes of `SqliteTaskStore` lead to, in any order and by any caller.
use dikw_core.Prelude.{
  ℕ, suc, String, ◌≡◌, refl, true, Option, none, List, [], ◌∷◌, map, arith, any, length,
}
use dikw_core.Tasks.Model.{TaskStatus, TaskRow, Body, DbEvent, Db, empty_db}
use dikw_core.Tasks.Store.{
  create, owned, Fields, update_status, events_of, append_event, list_events, max_seq,
}
use dikw_core.Tasks.Store.Rows.{Keyed, create-Keyed, update_status-Keyed}
use dikw_core.Tasks.Store.Immutable.{events-update_status}
use dikw_core.Tasks.Store.Tape.{Numbered, append_event-Numbered}
use dikw_core.Tasks.Store.Replay.{list_events-eq-drop, max_seq-eq-length}

-- One write by a store of any instance.
pub data Write (db : Db) : Db → Type 0 where
  created : (inst : String) (r : TaskRow) → Write db (create inst r db).1
  updated :
      (inst id : String) (st : TaskStatus) (f : Fields) → Write db (update_status inst id st f db).1
  appended :
      (id : String) (body : Body) (ts : Option String) (now : String)
      → Write db (append_event id body ts now db).1

pub data Writes (start : Db) : Db → Type 0 where
  here : Writes start start
  next : {a b : Db} → Writes start a → Write a b → Writes start b

pub record IsWellFormed (db : Db) : Type 0 where
  pub keyed : Keyed db.tasks
  pub numbered : (id : String) → Numbered 0 (events_of id db.events)

events-create : (inst : String) (r : TaskRow) (db : Db) → (create inst r db).1.events ≡ db.events
unfolding create
events-create inst r db = ground arith

pub tasks-append_event :
    (id : String) (body : Body) (ts : Option String) (now : String) (db : Db)
    → (append_event id body ts now db).1.tasks ≡ db.tasks
unfolding append_event
tasks-append_event id body ts now db = ground arith

pub Write-IsWellFormed : {a b : Db} → Write a b → IsWellFormed a → IsWellFormed b
Write-IsWellFormed {a} (created inst r) w = record {
  keyed = create-Keyed inst r a w.keyed;
  numbered = λ id. rw (events-create inst r a) (w.numbered id);
}
Write-IsWellFormed {a} (updated inst id st f) w = record {
  keyed = update_status-Keyed inst id st f a w.keyed;
  numbered = λ j. rw (events-update_status inst id st f a) (w.numbered j);
}
Write-IsWellFormed {a} (appended id body ts now) w = record {
  keyed = rw (tasks-append_event id body ts now a) w.keyed;
  numbered = λ j. append_event-Numbered id j body ts now a w.numbered;
}

empty-IsWellFormed : IsWellFormed empty_db
empty-IsWellFormed = record { keyed = tt; numbered = λ id. tt }

-- Whatever calls the stores of all instances have made on a fresh database, ids are unique keys and
-- every tape is numbered 1, 2, 3, … without a gap.
pub Writes-IsWellFormed : {db : Db} → Writes empty_db db → IsWellFormed db
Writes-IsWellFormed here = empty-IsWellFormed
Writes-IsWellFormed (next ws w) = Write-IsWellFormed w (Writes-IsWellFormed ws)

abbrev pub counting : ℕ → ℕ → List ℕ
counting k ℕ.zero = []
counting k (suc n) = suc k ∷ counting (suc k) n

seqs-Numbered :
    (k : ℕ) (es : List DbEvent)
    → Numbered k es
    → map (λ e. e.seq) (map (λ (x : DbEvent). x.event) es) ≡ counting k (length es)
seqs-Numbered k [] h = refl
seqs-Numbered k (e ∷ es) h = rw (h.0, seqs-Numbered (suc k) es h.1)

-- A replay from the start yields the numbers 1 to `max_seq`, each once and in order.
pub seqs-list_events :
    {db : Db} (inst id : String)
    → Writes empty_db db
    → any (owned inst id) db.tasks ≡ true
    → map (λ e. e.seq) (list_events inst id 0 none db) ≡ counting 0 (max_seq inst id db)
seqs-list_events {db} inst id ws known =
    let h = (Writes-IsWellFormed ws).numbered id in
    rw (list_events-eq-drop inst id 0 none db h known)
      (rw (max_seq-eq-length inst id db h known) (seqs-Numbered 0 (events_of id db.events) h))
