-- ===== src/Tasks/Manager/Cleanup.antt =====
-- After `restart_cleanup` no task of the instance is pending or running.
use dikw_core.Prelude.{
  ℕ, suc, ◌+◌, String, ◌≡◌, refl, Bool, true, false, ◌&&◌, ◌||◌, not, Option, none, some, List, [],
  ◌∷◌, arith, str_eq, eq_iff, any, all, map, select, Bool-cases, inl, inr, ◌∙◌, sym, ap, subst,
}
use dikw_core.Tasks.Model.{
  Json, TaskStatus, pending, running, failed, is_terminal, same_status, TaskRow, final, is_final,
  DbTask, Db, ok,
}
use dikw_core.Tasks.Store.{
  owned, updatable, Fields, set_status, update_row, update_status, list_running, append_event,
  events_of, top_seq,
}
use dikw_core.Tasks.Store.Immutable.{owned-update_row}
use dikw_core.Tasks.Store.Reach.{tasks-append_event}
use dikw_core.Tasks.Manager.{cleanup_rows, restart_cleanup, restart_error}

live_status :
    (st : TaskStatus) → same_status st pending || same_status st running ≡ not (is_terminal st)
unfolding same_status is_terminal
live_status pending = refl
live_status running = refl
live_status TaskStatus.succeeded = refl
live_status failed = refl
live_status TaskStatus.cancelled = refl

-- `WHERE status IN (pending, running) AND instance_id = ?`
abbrev pub live : String → DbTask → Bool
live inst t =
    (same_status t.status pending || same_status t.status running) && str_eq t.instance_id inst

abbrev among : String → List TaskRow → Bool
among id rows = any (λ r. str_eq id r.task_id) rows

module _ (inst : String) where
  -- Every live row of the instance is one of `rows`.
  abbrev Covered : List TaskRow → List DbTask → Type 0
  Covered rows ts = all (λ t. not (live inst t) || among t.task_id rows) ts ≡ true

  Covered-weaken :
      (r : TaskRow) (rows : List TaskRow) (ts : List DbTask)
      → Covered rows ts
      → Covered (r ∷ rows) ts
  Covered-weaken r rows [] h = refl
  Covered-weaken r rows (t ∷ ts) h = ground (arith, Covered-weaken r rows ts)

  Covered-running : (ts : List DbTask) → Covered (map (λ t. t.row) (select (live inst) ts)) ts
  Covered-running [] = refl
  Covered-running (t ∷ ts) = elim (Bool-cases (live inst t)) [
    | inl e ↦
        let found = map (λ u. u.row) (select (live inst) ts) in
        let more : map (λ u. u.row) (select (live inst) (t ∷ ts)) ≡ t.row ∷ found = rw e refl in
        subst (λ rows. Covered rows (t ∷ ts)) (sym more)
          (ground (
            arith,
            (eq_iff t.task_id t.task_id).1 refl,
            Covered-weaken t.row found ts (Covered-running ts),
          ))
    | inr e ↦
        let found = map (λ u. u.row) (select (live inst) ts) in
        let same : map (λ u. u.row) (select (live inst) (t ∷ ts)) ≡ found = rw e refl in
        subst (λ rows. Covered rows (t ∷ ts)) (sym same) (ground (arith, e, Covered-running ts))
  ]

  Covered-none : (ts : List DbTask) → Covered [] ts → select (live inst) ts ≡ []
  Covered-none [] h = refl
  Covered-none (t ∷ ts) h = ground (arith, Covered-none ts)

  row-Covered :
      (r : TaskRow) (f : Fields) (rows : List TaskRow) (t : DbTask)
      → not (live inst t) || among t.task_id (r ∷ rows) ≡ true
      → not (live inst (update_row inst r.task_id failed f t))
          || among (update_row inst r.task_id failed f t).task_id rows
        ≡ true
  unfolding update_row set_status is_terminal same_status
  row-Covered r f rows t h = elim (Bool-cases (updatable inst r.task_id t)) [
    | inl e ↦ rw e refl
    | inr e ↦ rw e (ground (arith, live_status t.status, e, h))
  ]

  Covered-update :
      (r : TaskRow) (f : Fields) (rows : List TaskRow) (ts : List DbTask)
      → Covered (r ∷ rows) ts
      → Covered rows (map (update_row inst r.task_id failed f) ts)
  Covered-update r f rows [] h = refl
  Covered-update r f rows (t ∷ ts) h =
      elim (Bool-cases (not (live inst t) || among t.task_id (r ∷ rows))) [
        | inl e ↦ ground (arith, row-Covered r f rows t e, Covered-update r f rows ts, e, h)
        | inr e ↦ ground (arith, e, h)
      ]

  -- The rows to clean up exist.
  abbrev Known : List TaskRow → List DbTask → Type 0
  Known [] ts = Unit
  Known (r ∷ rows) ts = (any (owned inst r.task_id) ts ≡ true) × Known rows ts

  any-owned-update :
      (j id : String) (f : Fields) (ts : List DbTask)
      → any (owned inst j) (map (update_row inst id failed f) ts) ≡ any (owned inst j) ts
  any-owned-update j id f [] = refl
  any-owned-update j id f (t ∷ ts) =
      rw (owned-update_row inst id failed f j t) (rw (any-owned-update j id f ts) refl)

  tasks-update :
      (id : String) (f : Fields) (db : Db)
      → any (owned inst id) db.tasks ≡ true
      → ((update_status inst id failed f db).0 ≡ ok tt)
        × ((update_status inst id failed f db).1.tasks ≡ map (update_row inst id failed f) db.tasks)
  unfolding update_status
  tasks-update id f db h = elim (Bool-cases (any (updatable inst id) db.tasks)) [
    | inl e ↦ ground (arith, e)
    | inr e ↦ (ground (arith, e, h), rw (update_status, e, h) (sym (kept db.tasks e)))
  ]
    where
      kept :
          (ts : List DbTask)
          → any (updatable inst id) ts ≡ false
          → map (update_row inst id failed f) ts ≡ ts
      kept [] e = refl
      kept (t ∷ ts) e = ground (arith, unchanged t, kept ts)
        where
          unchanged : (t : DbTask) → updatable inst id t ≡ false → update_row inst id failed f t ≡ t
          unchanged t q = rw (update_row, q) refl

  owned-present :
      (id : String) (ts : List DbTask)
      → any (owned inst id) ts ≡ true
      → any (λ t. str_eq t.task_id id) ts ≡ true
  owned-present id [] h = cc
  owned-present id (t ∷ ts) h = ground (arith, owned-present id ts)

  appended-ok :
      (id now : String) (r e : Option Json) (db : Db)
      → any (owned inst id) db.tasks ≡ true
      → (n : ℕ) × ((append_event id (final failed r e) none now db).0 ≡ ok n)
  unfolding append_event is_final
  appended-ok id now r e db h =
      (top_seq (events_of id db.events) + 1, rw (append_event, owned-present id db.tasks h) refl)

  Known-update :
      (rows : List TaskRow) (id : String) (f : Fields) (ts : List DbTask)
      → Known rows ts
      → Known rows (map (update_row inst id failed f) ts)
  Known-update [] id f ts k = tt
  Known-update (r ∷ rows) id f ts k =
      (any-owned-update r.task_id id f ts ∙ k.0, Known-update rows id f ts k.1)

  cleanup_rows-lem :
      (clock : ℕ → String) (n : ℕ) (rows : List TaskRow) (db : Db)
      → Covered rows db.tasks
      → Known rows db.tasks
      → ((cleanup_rows inst clock n rows db).0 ≡ ok tt)
        × Covered [] (cleanup_rows inst clock n rows db).1.tasks
  unfolding cleanup_rows
  cleanup_rows-lem clock n [] db c k = (refl, c)
  cleanup_rows-lem clock n (r ∷ rows) db c k =
      let f : Fields = record {
        started_at = none;
        finished_at = some (clock n);
        result = none;
        error = some restart_error;
      } in
      let db1 = (update_status inst r.task_id failed f db).1 in
      let body = final failed none (some restart_error) in
      let db2 = (append_event r.task_id body none (clock n) db1).1 in
      let (fine, tasks1) = tasks-update r.task_id f db k.0 in
      let tasks2 = tasks-append_event r.task_id body none (clock n) db1 ∙ tasks1 in
      let there : any (owned inst r.task_id) db1.tasks ≡ true =
        ap (any (owned inst r.task_id)) tasks1
        ∙ (any-owned-update r.task_id r.task_id f db.tasks ∙ k.0) in
      let (m, told) = appended-ok r.task_id (clock n) none (some restart_error) db1 there in
      rw (cleanup_rows, fine, told)
        (cleanup_rows-lem clock (suc n) rows db2
          (subst (Covered rows) (sym tasks2) (Covered-update r f rows db.tasks c))
          (subst (Known rows) (sym tasks2) (Known-update rows r.task_id f db.tasks k.1)))

  Known-weaken :
      (rows : List TaskRow) (t : DbTask) (ts : List DbTask) → Known rows ts → Known rows (t ∷ ts)
  Known-weaken [] t ts k = tt
  Known-weaken (r ∷ rows) t ts k = (ground (arith, k.0), Known-weaken rows t ts k.1)

  Known-running : (ts : List DbTask) → Known (map (λ t. t.row) (select (live inst) ts)) ts
  Known-running [] = tt
  Known-running (t ∷ ts) = elim (Bool-cases (live inst t)) [
    | inl e ↦ rw e (
      ground (arith, e, (eq_iff t.task_id t.task_id).1 refl),
      Known-weaken (map (λ u. u.row) (select (live inst) ts)) t ts (Known-running ts),
    )
    | inr e ↦ rw e (Known-weaken (map (λ u. u.row) (select (live inst) ts)) t ts (Known-running ts))
  ]

-- On any database `restart_cleanup` returns without an error, and afterwards `list_running` finds no
-- task of the instance.
pub restart_cleanup-list_running :
    (inst : String) (clock : ℕ → String) (db : Db)
    → ((restart_cleanup inst clock db).0 ≡ ok tt)
      × (list_running inst (restart_cleanup inst clock db).1 ≡ [])
unfolding restart_cleanup list_running
restart_cleanup-list_running inst clock db =
    let (fine, none_left) =
      cleanup_rows-lem inst clock 0 (list_running inst db) db (Covered-running inst db.tasks)
        (Known-running inst db.tasks) in
    (
      fine,
      ap (map (λ t. t.row)) (Covered-none inst (restart_cleanup inst clock db).1.tasks none_left),
    )
