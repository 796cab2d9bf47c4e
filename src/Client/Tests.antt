-- ===== src/Client/Tests.antt =====
-- The run of Tasks/Tests.antt, followed by a client.
use dikw_core.Prelude.{
  ℕ, ◌≤◌, ◌≡◌, ◌≢◌, refl, inr, false, none, some, [], arith, ltb, if◌then◌else◌,
}
use dikw_core.Tasks.Model.{TaskRow, null, TaskStatus, running, succeeded, is_terminal}
use dikw_core.Tasks.Store.{get, create, update_status, append_event, events_of}
use dikw_core.Tasks.Tests.{new_row, db_new, run_db, whole_run, fresh}
use dikw_core.Tasks.Routes.{EventsPage, get_events, get_task_result}
use dikw_core.Client.Follow.{Transport, returned, still_running, follow_to_terminal}
use dikw_core.Client.Events.{events}
use dikw_core.Client.Served.{server}
use dikw_core.Client.Settled.{final_answer}
use dikw_core.Client.Told.{follow_to_terminal-run}
use dikw_core.Tasks.Run.{perform, ended}
use dikw_core.Tasks.Run.Gaps.{in_state}
use dikw_core.Client.Ending.{IsOver, follow_to_terminal-ends}

abbrev no_clock : ℕ → ℕ
no_clock i = 0

abbrev run_row : TaskRow
run_row = record (new_row "a") {
  status = succeeded;
  started_at = some "t3";
  finished_at = some "t5";
  result = some null;
}

run_row-found : get "i" "a" run_db ≡ some run_row
unfolding get create perform append_event update_status
run_row-found = refl

follow_to_terminal-run_example :
    follow_to_terminal (server "i" "a" 2 run_db) 1 30 none no_clock 12
    ≡ returned run_row.status
        (final_answer run_row (events_of "a" run_db.events))
        (events (events_of "a" run_db.events))
unfolding create perform append_event update_status is_terminal
follow_to_terminal-run_example =
    follow_to_terminal-run "i" "a" "ingest" db_new (in_state ended run_db [] false false false)
      fresh whole_run refl (refl, (refl, tt)) run_row run_row-found refl 2 1 30 no_clock 12
      (omega arith) (omega arith)

rendered_all :
    follow_to_terminal (server "i" "a" 2 run_db) 1 30 none no_clock 12
    ≡ returned succeeded none (events (events_of "a" run_db.events))
unfolding follow_to_terminal create perform append_event update_status get_events get_task_result
rendered_all = refl

abbrev page : TaskStatus → EventsPage
page st = record {
  task_status = st;
  events = [];
  next_from_seq = 0;
  has_more = false;
  last_seq = 0;
}

-- Two pages of a running task, and then only pages of an ended one
abbrev ending : Transport
ending = record {
  get_task_events_page = λ i from limit wait. some (page (if ltb i 2 then running else succeeded));
  get_result = λ i. none;
}

ending-IsOver : (i : ℕ) → 2 ≤ i → IsOver ending 10 30 none no_clock i
unfolding is_terminal
ending-IsOver i le = inr (λ from p e. ground (arith, e, le))

follow_to_terminal-ends_example : follow_to_terminal ending 10 30 none no_clock 5 ≢ still_running
follow_to_terminal-ends_example =
    follow_to_terminal-ends ending 10 30 none no_clock 2 ending-IsOver 5 (omega arith)
