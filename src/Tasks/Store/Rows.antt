-- ===== src/Tasks/Store/Rows.antt =====
-- The table `tasks` under the writes of `SqliteTaskStore`: keys stay unique, a terminal row never
-- changes, and a write to one task leaves the others alone.
use dikw_core.Prelude.{
  String, ◌≡◌, refl, Bool, true, false, Option, none, some, List, [], ◌∷◌, ◌++◌, map, arith, str_eq,
  eq_iff, any, if◌then◌else◌,
}
use dikw_core.Tasks.Model.{TaskStatus, TaskRow, DbTask, Db}
use dikw_core.Tasks.Store.{create, owned, first_where, Fields, update_row, update_status, status_of}

abbrev pub has_id : String → List DbTask → Bool
has_id id ts = any (λ t. str_eq t.task_id id) ts

-- The primary key: no two rows share an id.
abbrev pub Keyed : List DbTask → Type 0
Keyed [] = Unit
Keyed (t ∷ ts) = (has_id t.task_id ts ≡ false) × Keyed ts

pub has_id-snoc :
    (id : String) (ts : List DbTask) (t : DbTask)
    → has_id id ts ≡ false
    → str_eq t.task_id id ≡ false
    → has_id id (ts ++ t ∷ []) ≡ false
has_id-snoc id [] t h e = rw e
has_id-snoc id (u ∷ ts) t h e = ground (arith, has_id-snoc id ts t)

Keyed-snoc :
    (ts : List DbTask) (t : DbTask) → has_id t.task_id ts ≡ false → Keyed ts → Keyed (ts ++ t ∷ [])
Keyed-snoc [] t h k = (refl, tt)
Keyed-snoc (u ∷ ts) t h k = ground (
  arith,
  has_id-snoc u.task_id ts t,
  Keyed-snoc ts t,
  eq_iff u.task_id t.task_id,
  eq_iff t.task_id u.task_id,
)

pub create-Keyed :
    (inst : String) (r : TaskRow) (db : Db) → Keyed db.tasks → Keyed (create inst r db).1.tasks
unfolding create
create-Keyed inst r db k =
    ground (arith, Keyed-snoc db.tasks (record { row = r; instance_id = inst }))

task_id-update_row :
    (inst id : String) (st : TaskStatus) (f : Fields) (t : DbTask)
    → (update_row inst id st f t).task_id ≡ t.task_id
unfolding update_row
task_id-update_row inst id st f t = ground arith

pub has_id-update :
    (inst id j : String) (st : TaskStatus) (f : Fields) (ts : List DbTask)
    → has_id j (map (update_row inst id st f) ts) ≡ has_id j ts
has_id-update inst id j st f [] = refl
has_id-update inst id j st f (t ∷ ts) =
    rw (task_id-update_row inst id st f t) (rw (has_id-update inst id j st f ts))

Keyed-update :
    (inst id : String) (st : TaskStatus) (f : Fields) (ts : List DbTask)
    → Keyed ts
    → Keyed (map (update_row inst id st f) ts)
Keyed-update inst id st f [] k = tt
Keyed-update inst id st f (t ∷ ts) k = (
  rw (task_id-update_row inst id st f t) (rw (has_id-update inst id t.task_id st f ts) k.0),
  Keyed-update inst id st f ts k.1,
)

pub update_status-Keyed :
    (inst id : String) (st : TaskStatus) (f : Fields) (db : Db)
    → Keyed db.tasks
    → Keyed (update_status inst id st f db).1.tasks
unfolding update_status
update_status-Keyed inst id st f db k = ground (arith, Keyed-update inst id st f db.tasks)

-- The row of task `id` belongs to instance `inst` and has this status.
abbrev pub Holds : String → String → TaskStatus → List DbTask → Type 0
Holds inst id st [] = ⊥
Holds inst id st (t ∷ ts) =
    if str_eq t.task_id id
    then ((str_eq t.instance_id inst ≡ true) × (t.status ≡ st))
    else Holds inst id st ts

module _ (inst id : String) where
  pub Holds-status_of :
      (st : TaskStatus) (db : Db) → Holds inst id st db.tasks → status_of id db ≡ some st
  unfolding status_of
  Holds-status_of st db h = go db.tasks h
    where
      go :
          (ts : List DbTask)
          → Holds inst id st ts
          → elim (first_where (λ t. str_eq t.task_id id) ts) as (λ _. Option TaskStatus) [
            | none ↦ none
            | some t ↦ some t.status
          ]
            ≡ some st
      go [] g = absurd g
      go (t ∷ ts) g = ground (arith, go ts)

  pub Holds-has_id :
      (st : TaskStatus) (ts : List DbTask) → Holds inst id st ts → has_id id ts ≡ true
  Holds-has_id st [] h = absurd h
  Holds-has_id st (t ∷ ts) h = ground (arith, Holds-has_id st ts)

  pub Holds-owned :
      (st : TaskStatus) (ts : List DbTask) → Holds inst id st ts → any (owned inst id) ts ≡ true
  Holds-owned st [] h = absurd h
  Holds-owned st (t ∷ ts) h = ground (arith, Holds-owned st ts)
