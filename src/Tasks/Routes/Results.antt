-- ===== src/Tasks/Routes/Results.antt =====
-- A result that `get_task_result` has served stays what it is.
use dikw_core.Prelude.{
  String, ◌≡◌, refl, Bool, true, false, Option, some, List, [], ◌∷◌, ◌++◌, arith, str_eq,
  Bool-cases, Option-cases, inl, inr, ◌∙◌, sym, ap, any, map,
}
use dikw_core.Tasks.Model.{TaskStatus, is_terminal, TaskRow, DbTask, Db, Body}
use dikw_core.Tasks.Store.{
  create, owned, first_where, get, Fields, update_row, updatable, update_status, append_event,
}
use dikw_core.Tasks.Store.Immutable.{get-first}
use dikw_core.Tasks.Store.Reach.{
  Write, Writes, created, updated, appended, here, next, tasks-append_event,
}
use dikw_core.Tasks.Routes.{found, TaskResultBody, result_body, get_task_result}

first_where-append :
    (p : DbTask → Bool) (t : DbTask) (ts us : List DbTask)
    → first_where p ts ≡ some t
    → first_where p (ts ++ us) ≡ some t
unfolding first_where
first_where-append p t [] us h = cc
first_where-append p t (u ∷ ts) us h = ground (arith, first_where-append p t ts us)

get-create :
    (inst other id : String) (r new : TaskRow) (db : Db)
    → get inst id db ≡ some r
    → get inst id (create other new db).1 ≡ some r
unfolding get create
get-create inst other id r new db h = elim (Option-cases (first_where (owned inst id) db.tasks)) [
  | inl e ↦ cc
  | inr (t, e) ↦ elim (Bool-cases (any (λ u. str_eq u.task_id new.task_id) db.tasks)) [
    | inl b ↦ rw b h
    | inr b ↦
        rw
          (
            b,
            get,
            first_where-append (owned inst id) t db.tasks
                (record { row = new; instance_id = other } ∷ []) e,
          )
          (ground (arith, e, h))
  ]
]

first_where-update :
    (inst id other j : String) (st : TaskStatus) (f : Fields) (t : DbTask) (ts : List DbTask)
    → first_where (owned inst id) ts ≡ some t
    → is_terminal t.status ≡ true
    → first_where (owned inst id) (map (update_row other j st f) ts) ≡ some t
unfolding first_where update_row
first_where-update inst id other j st f t [] h e = cc
first_where-update inst id other j st f t (u ∷ ts) h e = elim (Bool-cases (owned inst id u)) [
  | inl o ↦
      let same : u ≡ t = ground (arith, h, o) in
      let over : is_terminal u.status ≡ true = rw same e in
      let stays : update_row other j st f u ≡ u = ground (arith, over) in
      rw (first_where, stays, o) (ap some same)
  | inr o ↦
      let left : first_where (owned inst id) ts ≡ some t = ground (arith, h, o) in
      let still_not : owned inst id (update_row other j st f u) ≡ false = ground (arith, o) in
      rw (first_where, still_not) (first_where-update inst id other j st f t ts left e)
]

get-update_status_terminal :
    (inst id other j : String) (st : TaskStatus) (f : Fields) (r : TaskRow) (db : Db)
    → get inst id db ≡ some r
    → is_terminal r.status ≡ true
    → get inst id (update_status other j st f db).1 ≡ some r
unfolding get update_status
get-update_status_terminal inst id other j st f r db h e =
    let (t, at, same) = get-first inst id db r h in
    elim (Bool-cases (any (updatable other j) db.tasks)) [
      | inl b ↦
          rw (b, get, first_where-update inst id other j st f t db.tasks at (rw same e))
            (ap some same)
      | inr b ↦ ground (arith, b, h)
    ]

get-append_event :
    (inst id j : String) (body : Body) (ts : Option String) (now : String) (db : Db)
    → get inst id (append_event j body ts now db).1 ≡ get inst id db
unfolding get
get-append_event inst id j body ts now db = rw (get, tasks-append_event j body ts now db) refl

Write-terminal :
    {a b : Db} (inst id : String) (r : TaskRow)
    → Write a b
    → get inst id a ≡ some r
    → is_terminal r.status ≡ true
    → get inst id b ≡ some r
Write-terminal {a} inst id r (created other new) h e = get-create inst other id r new a h
Write-terminal {a} inst id r (updated other j st f) h e =
    get-update_status_terminal inst id other j st f r a h e
Write-terminal {a} inst id r (appended j body ts now) h e =
    get-append_event inst id j body ts now a ∙ h

Writes-terminal :
    {a b : Db} (inst id : String) (r : TaskRow)
    → Writes a b
    → get inst id a ≡ some r
    → is_terminal r.status ≡ true
    → get inst id b ≡ some r
Writes-terminal inst id r here h e = h
Writes-terminal inst id r (next ws w) h e =
    Write-terminal inst id r w (Writes-terminal inst id r ws h e) e

served :
    (inst id : String) (db : Db) (body : TaskResultBody)
    → get_task_result inst id db ≡ found body
    → (r : TaskRow) × (get inst id db ≡ some r)
      × (is_terminal r.status ≡ true)
      × (result_body r ≡ body)
unfolding get_task_result
served inst id db body h = elim (Option-cases (get inst id db)) [
  | inl e ↦ cc
  | inr (r, e) ↦ elim (Bool-cases (is_terminal r.status)) [
    | inl t ↦ (r, e, t, ground (arith, e, t, h))
    | inr t ↦ cc
  ]
]

-- Once `get_task_result` has served the result of a task, it serves the same body for ever, whatever
-- the stores of all instances write in between; and the status in that body is terminal.
pub get_task_result-Writes :
    {a b : Db} (inst id : String) (body : TaskResultBody)
    → Writes a b
    → get_task_result inst id a ≡ found body
    → (get_task_result inst id b ≡ found body) × (is_terminal body.status ≡ true)
unfolding get_task_result
get_task_result-Writes {a} {b} inst id body ws h =
    let (r, e, t, same) = served inst id a body h in
    let later = Writes-terminal inst id r ws e t in
    (rw (get_task_result, later, t) (ap found same), rw (sym same) t)
