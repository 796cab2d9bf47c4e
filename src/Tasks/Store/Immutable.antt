-- ===== src/Tasks/Store/Immutable.antt =====
-- `update_status`: what it writes, that a terminal row never changes, and that other rows do not.
use mathlib.Core.Option
use dikw_core.Prelude.{
  String, ◌≡◌, ◌≢◌, refl, true, false, Option, none, some, List, [], ◌∷◌, map, arith, str_eq,
  eq_iff, any, if◌then◌else◌, ◌⊎◌, inl, inr, Option-cases, Bool-cases, str_eq-false,
}
use dikw_core.Tasks.Model.{TaskStatus, is_terminal, TaskRow, DbTask, Db, ok, err, task_not_found}
use dikw_core.Tasks.Store.{
  owned, updatable, first_where, get, set_status, Fields, update_row, update_status,
}
use dikw_core.Tasks.Store.Rows.{has_id, Keyed, Holds}

module _ (inst id : String) (st : TaskStatus) (f : Fields) where
  -- What becomes of the status: a terminal one stays.
  abbrev pub next_status : TaskStatus → TaskStatus
  next_status old = if is_terminal old then old else st

  pub Holds-map :
      (old : TaskStatus) (ts : List DbTask)
      → Holds inst id old ts
      → Holds inst id (next_status old) (map (update_row inst id st f) ts)
  unfolding update_row
  Holds-map old [] h = h
  Holds-map old (t ∷ ts) h = ground (arith, Holds-map old ts)

  pub any-updatable :
      (old : TaskStatus) (ts : List DbTask)
      → Holds inst id old ts
      → is_terminal old ≡ false
      → any (updatable inst id) ts ≡ true
  any-updatable old [] h e = absurd h
  any-updatable old (t ∷ ts) h e = ground (arith, any-updatable old ts)

  update_status-live :
      (old : TaskStatus) (db : Db)
      → Holds inst id old db.tasks
      → is_terminal old ≡ false
      → ((update_status inst id st f db).0 ≡ ok tt)
        × Holds inst id st (update_status inst id st f db).1.tasks
  unfolding update_status
  update_status-live old db h e =
      ground (arith, any-updatable old db.tasks h e, Holds-map old db.tasks h)

  pub events-update_status : (db : Db) → (update_status inst id st f db).1.events ≡ db.events
  unfolding update_status
  events-update_status db = ground arith

module _ (inst id : String) where
  absent :
      (ts : List DbTask)
      → has_id id ts ≡ false
      → (any (updatable inst id) ts ≡ false) × (first_where (owned inst id) ts ≡ none)
  unfolding first_where
  absent [] h = (refl, refl)
  absent (t ∷ ts) h = ground (arith, absent ts)

  terminal-not-updatable :
      (ts : List DbTask) (t : DbTask)
      → Keyed ts
      → first_where (owned inst id) ts ≡ some t
      → is_terminal t.status ≡ true
      → any (updatable inst id) ts ≡ false
  unfolding first_where
  terminal-not-updatable [] t k g e = refl
  terminal-not-updatable (u ∷ ts) t k g e =
      ground (arith, absent ts, terminal-not-updatable ts t, eq_iff u.task_id id)

  pub first-owned :
      (ts : List DbTask) (t : DbTask)
      → first_where (owned inst id) ts ≡ some t
      → any (owned inst id) ts ≡ true
  unfolding first_where
  first-owned [] t g = cc
  first-owned (u ∷ ts) t g = ground (arith, first-owned ts t)

  pub get-first :
      (db : Db) (r : TaskRow)
      → get inst id db ≡ some r
      → (t : DbTask) × (first_where (owned inst id) db.tasks ≡ some t) × (t.row ≡ r)
  unfolding get
  get-first db r g = elim (Option-cases (first_where (owned inst id) db.tasks)) [
    | inl e ↦ cc
    | inr (t, e) ↦ (t, e, ground arith)
  ]

  none-owned :
      (ts : List DbTask)
      → first_where (owned inst id) ts ≡ none
      → (any (owned inst id) ts ≡ false) × (any (updatable inst id) ts ≡ false)
  unfolding first_where
  none-owned [] g = (refl, refl)
  none-owned (t ∷ ts) g = ground (arith, none-owned ts)

-- A task that has ended never changes again: a later `update_status` of any kind returns without an
-- error and leaves the database as it was.
pub update_status-terminal :
    (inst id : String) (st : TaskStatus) (f : Fields) (db : Db) (r : TaskRow)
    → Keyed db.tasks
    → get inst id db ≡ some r
    → is_terminal r.status ≡ true
    → update_status inst id st f db ≡ (ok tt, db)
unfolding update_status
update_status-terminal inst id st f db r k g e =
    let (t, at, same) = get-first inst id db r g in
    ground
      (arith, terminal-not-updatable inst id db.tasks t k at, first-owned inst id db.tasks t at)

-- For an id that `get` does not know, `update_status` raises `TaskNotFound` and leaves the database
-- as it was; for any other id it returns without an error.
pub update_status-unknown :
    (inst id : String) (st : TaskStatus) (f : Fields) (db : Db)
    → ((get inst id db ≡ none) × (update_status inst id st f db ≡ (err (task_not_found id), db)))
      ⊎ ((r : TaskRow) × (get inst id db ≡ some r) × ((update_status inst id st f db).0 ≡ ok tt))
unfolding update_status get
update_status-unknown inst id st f db = elim (Option-cases (first_where (owned inst id) db.tasks)) [
  | inl e ↦ inl (ground (arith, e), ground (arith, none-owned inst id db.tasks e))
  | inr (t, e) ↦ inr (t.row, ground (arith, e), ground (arith, first-owned inst id db.tasks t e))
]

-- The row that a write leaves where it found `r`.
abbrev pub next_row : TaskStatus → Fields → TaskRow → TaskRow
next_row st f r = if is_terminal r.status then r else set_status st f r

module _ (inst id : String) (st : TaskStatus) (f : Fields) where
  pub owned-update_row :
      (j : String) (t : DbTask) → owned inst j (update_row inst id st f t) ≡ owned inst j t
  unfolding update_row
  owned-update_row j t = ground arith

  row-update_self :
      (t : DbTask) → owned inst id t ≡ true → (update_row inst id st f t).row ≡ next_row st f t.row
  unfolding update_row
  row-update_self t e = ground arith

  row-update_other :
      (j : String) (t : DbTask)
      → str_eq j id ≡ false
      → owned inst j t ≡ true
      → (update_row inst id st f t).row ≡ t.row
  unfolding update_row
  row-update_other j t n e = ground (arith, eq_iff t.task_id j, eq_iff t.task_id id, eq_iff j id)

  abbrev found : String → List DbTask → Option TaskRow
  found j ts = Option.map (λ t. t.row) (first_where (owned inst j) ts)

  found-map_self :
      (ts : List DbTask)
      → found id (map (update_row inst id st f) ts) ≡ Option.map (next_row st f) (found id ts)
  unfolding first_where
  found-map_self [] = refl
  found-map_self (t ∷ ts) = rw (owned-update_row id t) elim (Bool-cases (owned inst id t)) [
    | inl e ↦ rw e (rw (row-update_self t e))
    | inr e ↦ rw e (found-map_self ts)
  ]

  found-map_other :
      (j : String) (ts : List DbTask)
      → str_eq j id ≡ false
      → found j (map (update_row inst id st f) ts) ≡ found j ts
  unfolding first_where
  found-map_other j [] n = refl
  found-map_other j (t ∷ ts) n = rw (owned-update_row j t) elim (Bool-cases (owned inst j t)) [
    | inl e ↦ rw e (rw (row-update_other j t n e))
    | inr e ↦ rw e (found-map_other j ts n)
  ]

  found_kept :
      (ts : List DbTask)
      → any (updatable inst id) ts ≡ false
      → Option.map (next_row st f) (found id ts) ≡ found id ts
  unfolding first_where
  found_kept [] n = refl
  found_kept (t ∷ ts) n = ground (arith, found_kept ts)

  get-eq-found : (j : String) (db : Db) → get inst j db ≡ found j db.tasks
  unfolding get
  get-eq-found j db = ground arith

  tasks-update_status_self :
      (db : Db)
      → found id (update_status inst id st f db).1.tasks
        ≡ Option.map (next_row st f) (found id db.tasks)
  unfolding update_status
  tasks-update_status_self db = elim (Bool-cases (any (updatable inst id) db.tasks)) [
    | inl e ↦ rw e (found-map_self db.tasks)
    | inr e ↦ rw e (ground (arith, found_kept db.tasks e))
  ]

  -- After `update_status` the task's row has the new status and the given fields if it was live, and
  -- is as it was if it had ended.
  pub get-update_status_self :
      (db : Db)
      → get inst id (update_status inst id st f db).1 ≡ Option.map (next_row st f) (get inst id db)
  get-update_status_self db = rw get-eq-found (rw get-eq-found (tasks-update_status_self db))

  -- `update_status` leaves what `get` returns for every other task.
  pub get-update_status_other :
      (j : String) (db : Db) → j ≢ id → get inst j (update_status inst id st f db).1 ≡ get inst j db
  unfolding get update_status
  get-update_status_other j db n = ground (arith, found-map_other j db.tasks (str_eq-false j id n))
