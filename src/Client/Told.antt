-- ===== src/Client/Told.antt =====
-- A client that follows a task whose run is the one of server/tasks/manager.py.
use dikw_core.Prelude.{
  ℕ, ◌+◌, ◌*◌, ◌≤◌, String, ◌≡◌, subst, inl, inr, some, true, false, none, List, [], ◌∷◌, any, map,
  arith, length, Bool-cases,
}
use dikw_core.Tasks.Model.{
  TaskStatus, is_terminal, is_final, Body, task_started, progress, log, partial, final, TaskRow,
  DbEvent, Db,
}
use dikw_core.Tasks.Store.{get, events_of}
use dikw_core.Tasks.Store.Tape.{Numbered}
use dikw_core.Tasks.Run.{Run, Reach, started}
use dikw_core.Tasks.Run.Ops.{tape_of}
use dikw_core.Tasks.Run.Finals.{Sealed}
use dikw_core.Tasks.Run.Telling.{IsFresh, final_last}
use dikw_core.Client.Follow.{returned, follow_to_terminal}
use dikw_core.Client.Events.{events, Tells, Closes}
use dikw_core.Client.Served.{server}
use dikw_core.Client.Settled.{final_answer, follow_to_terminal-settled}

abbrev bodies : List DbEvent → List Body
bodies es = map (λ (e : DbEvent). e.body) es

not_final-Tells : (st : TaskStatus) (b : Body) → is_final b ≡ false → Tells st b
unfolding is_final
not_final-Tells st (task_started a b) h = tt
not_final-Tells st (progress a b c d) h = tt
not_final-Tells st (log a b) h = tt
not_final-Tells st (partial a b) h = tt
not_final-Tells st (final s r x) h = absurd (cc)

Sealed-Tells : (st : TaskStatus) (b : Body) → Sealed st (b ∷ []) → Tells st b
unfolding is_final
Sealed-Tells st (task_started a b) h = tt
Sealed-Tells st (progress a b c d) h = tt
Sealed-Tells st (log a b) h = tt
Sealed-Tells st (partial a b) h = tt
Sealed-Tells st (final s r x) h = h.1

silent-Closes :
    (st : TaskStatus) (es : List DbEvent) → any is_final (bodies es) ≡ false → Closes st es
silent-Closes st [] h = tt
silent-Closes st (e ∷ []) h = not_final-Tells st e.body (ground (arith, h))
silent-Closes st (e ∷ f ∷ es) h = elim (Bool-cases (is_final e.body)) [
  | inl k ↦ absurd (ground (arith, h, k))
  | inr k ↦ (k, silent-Closes st (f ∷ es) (ground (arith, h, k)))
]

Sealed-Closes : (st : TaskStatus) (es : List DbEvent) → Sealed st (bodies es) → Closes st es
Sealed-Closes st [] h = tt
Sealed-Closes st (e ∷ []) h = Sealed-Tells st e.body h
Sealed-Closes st (e ∷ f ∷ es) h = elim (Bool-cases (is_final e.body)) [
  | inl k ↦ absurd (ground (arith, h, k))
  | inr k ↦ (k, Sealed-Closes st (f ∷ es) (ground (arith, h, k)))
]

module _ (inst id op : String) (db : Db) (s : Run) (fresh : IsFresh inst id db)
    (reach : Reach inst id op (started db) s) (sane : s.faulted ≡ false)
    (numbered : Numbered 0 (events_of id s.db.events)) (row : TaskRow)
    (stored : get inst id s.db ≡ some row) (done : is_terminal row.status ≡ true) where
  run-Closes : Closes row.status (events_of id s.db.events)
  run-Closes = elim (final_last inst id op db s fresh reach sane) [
    | inl silent ↦ silent-Closes row.status (events_of id s.db.events) silent
    | inr (r, found, t, seal) ↦
        let e : r ≡ row = cc in
        Sealed-Closes row.status (events_of id s.db.events)
          (subst (λ (q : TaskRow). Sealed q.status (tape_of id s.db)) e seal)
  ]

  -- A task has run on a store that did not fail, wherever cancellations have landed, until its row
  -- was terminal, and nothing more is written. A client that follows it with no deadline then comes
  -- to an end, also where the final event was lost: it returns the status of the row, has rendered
  -- each event of the tape once and in order, and its payload is that of the final event, or that of
  -- the row if there is none. Four requests for each event and four more are enough.
  pub follow_to_terminal-run :
      (rounds limit poll_wait : ℕ) (clock : ℕ → ℕ) (fuel : ℕ)
      → 1 ≤ limit
      → 4 * length (events_of id s.db.events) + 4 ≤ fuel
      → follow_to_terminal (server inst id rounds s.db) limit poll_wait none clock fuel
        ≡ returned row.status
            (final_answer row (events_of id s.db.events))
            (events (events_of id s.db.events))
  follow_to_terminal-run rounds limit poll_wait clock fuel pos enough =
      follow_to_terminal-settled inst id limit poll_wait rounds clock s.db row stored numbered pos
        done run-Closes fuel enough
