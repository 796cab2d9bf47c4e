-- ===== src/Tasks/Model.antt =====
-- The data of src/dikw_core/server/tasks: status enum, task rows, events (store.py, events.py) and
-- the two SQL tables of store_sqlite.py. JSON columns hold the value that `json.dumps` writes.
use dikw_core.Prelude.{ℕ, String, Bool, true, false, Option, List, []}

mutual
  pub data Json : Type 0 where
    null : Json
    bool : Bool → Json
    num : ℕ → Json
    str : String → Json
    arr : JsonItems → Json
    obj : JsonFields → Json

  pub data JsonItems : Type 0 where
    nil : JsonItems
    cons : Json → JsonItems → JsonItems

  pub data JsonFields : Type 0 where
    end : JsonFields
    field : String → Json → JsonFields → JsonFields

pub data TaskStatus : Type 0 where
  pending running succeeded failed cancelled : TaskStatus

-- `status in TERMINAL_STATUSES`
unfoldable pub is_terminal : TaskStatus → Bool
is_terminal pending = false
is_terminal running = false
is_terminal _ = true

-- `a = b` on the status column
unfoldable pub same_status : TaskStatus → TaskStatus → Bool
same_status pending pending = true
same_status running running = true
same_status succeeded succeeded = true
same_status failed failed = true
same_status cancelled cancelled = true
same_status _ _ = false

pub record TaskRow : Type 0 where
  pub task_id : String
  pub op : String
  pub status : TaskStatus
  pub created_at : String
  pub started_at : Option String
  pub finished_at : Option String
  pub params_digest : String
  pub result : Option Json
  pub error : Option Json

-- The event dict without `seq` and `ts`: the models of events.py that the store persists.
pub data Body : Type 0 where
  task_started : String → String → Body
  progress : String → ℕ → ℕ → Option Json → Body
  log : String → String → Body
  partial : String → Json → Body
  final : TaskStatus → Option Json → Option Json → Body

-- `event.get("type") == "final"`
unfoldable pub is_final : Body → Bool
is_final (final st r e) = true
is_final _ = false

-- An event as it is replayed: the body with its stamps.
pub record Event : Type 0 where
  pub seq : ℕ
  pub ts : String
  pub body : Body

-- A row of the table `tasks`.
pub record DbTask : Type 0 where
  pub row : TaskRow
  pub open row use *
  pub instance_id : String

-- A row of the table `task_events`.
pub record DbEvent : Type 0 where
  pub owner : String
  pub event : Event
  pub open event use *

pub record Db : Type 0 where
  pub tasks : List DbTask
  pub events : List DbEvent

abbrev pub empty_db : Db
empty_db = record { tasks = []; events = [] }

pub data StoreError : Type 0 where
  integrity_error : StoreError
  task_not_found : String → StoreError
  task_store_error : String → StoreError

pub data Result (A : Type 0) : Type 0 where
  ok : A → Result A
  err : StoreError → Result A
