-- ===== src/Tasks/Tests.antt =====
-- Concrete databases and runs of src/dikw_core/server/tasks, on which the theorems are applied.
use dikw_core.Prelude.{
  String, ◌≡◌, ◌≢◌, ◌⊎◌, refl, true, false, none, some, [], ◌∷◌, any, map, eq_iff,
}
use dikw_core.Tasks.Model.{
  null, str, pending, running, succeeded, failed, is_terminal, TaskRow, task_started, progress,
  final, is_final, Db, empty_db, ok,
}
use dikw_core.Tasks.Store.{create, get, Fields, update_status, append_event, list_events, max_seq}
use dikw_core.Tasks.Run.{
  here, next, ended, began, write, emit, no_fields, perform, awaited, on_return, Run, returned,
  finished, Reach, started,
}
use dikw_core.Tasks.Run.Ops.{tape_of}
use dikw_core.Tasks.Run.Ending.{ended-terminal}
use dikw_core.Tasks.Run.Finals.{Sealed}
use dikw_core.Tasks.Run.Telling.{IsFresh, final_last, undisturbed}
use dikw_core.Tasks.Run.Gaps.{in_state}
use dikw_core.Tasks.Store.Immutable.{update_status-terminal}
use dikw_core.Tasks.Store.Reach.{
  Writes, created, updated, appended, Writes-IsWellFormed, counting, seqs-list_events, IsWellFormed,
}

abbrev pub new_row : String → TaskRow
new_row id = record {
  task_id = id;
  op = "ingest";
  status = pending;
  created_at = "2024-01-01";
  started_at = none;
  finished_at = none;
  params_digest = "d";
  result = none;
  error = none;
}

abbrev pub finishing : Fields
finishing = record {
  started_at = none;
  finished_at = some "t3";
  result = some (str "r");
  error = none;
}

abbrev pub db_new : Db
db_new = (create "i" (new_row "b") (create "i" (new_row "a") empty_db).1).1

abbrev pub db_told : Db
db_told =
    (append_event "a" (progress "p" 1 2 none) none "t2"
      (append_event "a" (task_started "a" "ingest") none "t1" db_new).1).1

abbrev pub db_done : Db
db_done = (update_status "i" "a" succeeded finishing db_told).1

pub history : Writes empty_db db_done
history =
    Writes.next
      (Writes.next
        (Writes.next
          (Writes.next (Writes.next Writes.here (created "i" (new_row "a")))
            (created "i" (new_row "b")))
          (appended "a" (task_started "a" "ingest") none "t1"))
        (appended "a" (progress "p" 1 2 none) none "t2"))
      (updated "i" "a" succeeded finishing)

abbrev pub done_row : TaskRow
done_row = record (new_row "a") {
  status = succeeded;
  finished_at = some "t3";
  result = some (str "r");
}

update_status-terminal_example : update_status "i" "a" failed finishing db_done ≡ (ok tt, db_done)
unfolding update_status create append_event get
update_status-terminal_example =
    update_status-terminal "i" "a" failed finishing db_done done_row (refl, (refl, tt)) refl refl

apart : ◌≢◌ {A = String} "b" "a"
apart e = let h : false ≡ true = (eq_iff "b" "a").1 e in cc

Writes-IsWellFormed_example : IsWellFormed db_done
Writes-IsWellFormed_example = Writes-IsWellFormed history

seqs-list_events_example :
    map (λ e. e.seq) (list_events "i" "a" 0 none db_done) ≡ counting 0 (max_seq "i" "a" db_done)
unfolding update_status create append_event
seqs-list_events_example = seqs-list_events "i" "a" history refl

-- What the replay of the finished task is.
list_events_done : map (λ e. e.seq) (list_events "i" "a" 0 none db_done) ≡ 1 ∷ 2 ∷ []
unfolding list_events update_status create append_event
list_events_done = refl

-- A run that nothing disturbs.
abbrev pub run_db : Db
run_db =
    (perform "i" "a" "t6" (emit (final succeeded (some null) none))
      (perform "i" "a" "t5"
        (write succeeded (record no_fields { finished_at = some "t5"; result = some null }))
        (perform "i" "a" "t4" (emit (task_started "a" "ingest"))
          (perform "i" "a" "t3" (write running (record no_fields { started_at = some "t3" }))
            db_new).1).1).1).1

pub whole_run : Reach "i" "a" "ingest" (started db_new) (in_state ended run_db [] false false false)
unfolding awaited on_return perform update_status append_event create
whole_run =
    next
      (next
        (next
          (next (next (next here (began refl)) (returned "t3" "t3" _ refl refl))
            (returned "t4" "t4" _ refl refl))
          (finished null refl))
        (returned "t5" "t5" _ refl refl))
      (returned "t6" "t6" _ refl refl)

pub fresh : IsFresh "i" "a" db_new
unfolding create is_terminal is_final
fresh = record { st = pending; holds = (refl, refl); live = refl; silent = refl }

ended-terminal_example :
    (r : TaskRow) × (get "i" "a" run_db ≡ some r) × (is_terminal r.status ≡ true)
unfolding create
ended-terminal_example =
    ended-terminal "i" "a" "ingest" pending db_new (in_state ended run_db [] false false false)
      (refl, refl) whole_run refl refl

final_last_example :
    (any is_final (tape_of "a" run_db) ≡ false)
    ⊎ ((r : TaskRow) × (get "i" "a" run_db ≡ some r)
        × (is_terminal r.status ≡ true)
        × Sealed r.status (tape_of "a" run_db))
final_last_example =
    final_last "i" "a" "ingest" db_new (in_state ended run_db [] false false false) fresh whole_run
      refl

undisturbed_example :
    (r : TaskRow) × (get "i" "a" run_db ≡ some r)
    × (is_terminal r.status ≡ true)
    × Sealed r.status (tape_of "a" run_db)
undisturbed_example =
    undisturbed "i" "a" "ingest" db_new (in_state ended run_db [] false false false) fresh whole_run
      refl refl refl
