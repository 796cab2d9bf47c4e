-- ===== src/Tasks/Routes.antt =====
-- The read endpoints of src/dikw_core/server/routes_tasks.py: `list_tasks`, `get_task`,
-- `get_task_result` and `get_events`. Other tasks write between two store calls of a handler, so each
-- call has its own database. The text of a list cursor is in Tasks/Routes/Cursor.antt.
pub mod Paging
pub mod Results
pub mod Listing
pub mod Cursor
pub mod CursorTests
pub mod Tests
use dikw_core.Prelude.{
  ℕ, suc, ◌+◌, String, Bool, true, false, ◌&&◌, not, Option, none, some, List, [], ◌∷◌, ◌++◌,
  if◌then◌else◌, ltb, leb, length, take, last?,
}
use dikw_core.Tasks.Model.{Json, TaskStatus, is_terminal, TaskRow, Event, Db}
use dikw_core.Tasks.Store.{get, list_tasks, list_events, max_seq}

-- What a handler answers; `NotFoundError` and `BadRequest` are errors of the client.
pub data Response (A : Type 0) : Type 0 where
  found : A → Response A
  not_found : Response A
  task_not_terminal : TaskStatus → Response A

pub record TaskListPage : Type 0 where
  pub tasks : List TaskRow
  pub next_cursor : Option (String × String)
  pub has_more : Bool

pub record TaskResultBody : Type 0 where
  pub task_id : String
  pub status : TaskStatus
  pub started_at : Option String
  pub finished_at : Option String
  pub result : Option Json
  pub error : Option Json

pub record EventsPage : Type 0 where
  pub task_status : TaskStatus
  pub events : List Event
  pub next_from_seq : ℕ
  pub has_more : Bool
  pub last_seq : ℕ

-- `(created_at, task_id)` of the last row
abbrev pub cursor_of : Option TaskRow → Option (String × String)
cursor_of none = none
cursor_of (some r) = some (r.created_at, r.task_id)

unfoldable pub list_tasks_page :
    String → Option TaskStatus → Option String → ℕ → Option (String × String) → Db → TaskListPage
unfolding list_tasks
list_tasks_page inst status op limit cursor db =
    let (after_at, after_id) = elim cursor as (λ _. Option String × Option String) [
      | none ↦ (none, none)
      | some (at, id) ↦ (some at, some id)
    ] in
    let rows = list_tasks inst status op (limit + 1) after_at after_id db in
    let has_more = ltb limit (length rows) in
    let page_rows = take limit rows in
    record {
      tasks = page_rows;
      next_cursor = if has_more then cursor_of (last? page_rows) else none;
      has_more = has_more;
    }

unfoldable pub get_task : String → String → Db → Response TaskRow
unfolding get
get_task inst id db = elim (get inst id db) [ none ↦ not_found | some r ↦ found r ]

abbrev pub result_body : TaskRow → TaskResultBody
result_body r = record {
  task_id = r.task_id;
  status = r.status;
  started_at = r.started_at;
  finished_at = r.finished_at;
  result = r.result;
  error = r.error;
}

unfoldable pub get_task_result : String → String → Db → Response TaskResultBody
unfolding get is_terminal
get_task_result inst id db = elim (get inst id db) [
  | none ↦ not_found
  | some r ↦ if is_terminal r.status then found (result_body r) else task_not_terminal r.status
]

abbrev pub any_events : List Event → Bool
any_events [] = false
any_events (e ∷ es) = true

-- The waiting loop; a round reads the events and then the row. The list of rounds is as long as the
-- deadline lets it be. `none` is the NotFoundError for a row that is gone.
unfoldable pub poll :
    String → String → ℕ → ℕ → List (Db × Db) → TaskRow → List Event → Option (TaskRow × List Event)
unfolding get list_events is_terminal
poll inst id from limit [] row events = some (row, events)
poll inst id from limit ((d, e) ∷ rounds) row events =
    let again = list_events inst id from (some limit) d in
    if any_events again then some (row, again) else elim (get inst id e) [
      | none ↦ none
      | some r ↦ elim (is_terminal r.status) [
        | true ↦ some (r, again)
        | false ↦ poll inst id from limit rounds r again
      ]
    ]

-- `int(events[-1]["seq"]) + 1 if events else from_seq`
abbrev pub next_from : ℕ → List Event → ℕ
next_from from events = elim (last? events) [ none ↦ from | some e ↦ e.seq + 1 ]

abbrev pub page_of : TaskStatus → ℕ → List Event → ℕ → EventsPage
page_of status from events last = record {
  task_status = status;
  events = events;
  next_from_seq = next_from from events;
  has_more = ltb 0 last && leb (next_from from events) last;
  last_seq = last;
}

-- The databases of the four reads outside the loop, in order, and those of the rounds.
unfoldable pub get_events :
    String → String → ℕ → ℕ → ℕ → Db → Db → List (Db × Db) → Db → Db → Response EventsPage
unfolding get list_events max_seq is_terminal poll
get_events inst id from limit wait db1 db2 rounds db3 db4 = elim (get inst id db1) [
  | none ↦ not_found
  | some row ↦
      let events = list_events inst id from (some limit) db2 in
      let waits = not (any_events events) && (ltb 0 wait && not (is_terminal row.status)) in
      elim (if waits then poll inst id from limit rounds row events else some (row, events)) [
        | none ↦ not_found
        | some (seen, page) ↦
            let latest = if is_terminal seen.status then some seen else get inst id db3 in
            elim latest [
              | none ↦ not_found
              | some last_row ↦ found (page_of last_row.status from page (max_seq inst id db4))
            ]
      ]
]
