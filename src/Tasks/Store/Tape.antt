-- ===== src/Tasks/Store/Tape.antt =====
-- The table `task_events` under `append_event`: each task's tape is numbered 1, 2, 3, … without a
-- gap, and `list_events` replays a tail of it.
use Prim.Native.Nat.{max}
use dikw_core.Prelude.{
  ℕ, suc, ◌+◌, String, ◌≡◌, refl, ◌∙◌, Bool, false, ◌&&◌, not, Option, List, [], ◌∷◌, ◌++◌, arith,
  str_eq, eq_iff, if◌then◌else◌, select-append, length, Bool-cases, inl, inr,
}
use dikw_core.Tasks.Model.{Body, is_final, DbEvent, Db, ok, err, task_store_error}
use dikw_core.Tasks.Store.{events_of, top_seq, status_of, is_over, append_event, stamp}
use dikw_core.Tasks.Store.Rows.{has_id}

-- The events carry k + 1, k + 2, …
abbrev pub Numbered : ℕ → List DbEvent → Type 0
Numbered k [] = Unit
Numbered k (e ∷ es) = (e.seq ≡ suc k) × Numbered (suc k) es

top_seq-Numbered : (k : ℕ) (es : List DbEvent) → Numbered k es → max k (top_seq es) ≡ k + length es
unfolding top_seq
top_seq-Numbered k [] h = omega arith
top_seq-Numbered k (e ∷ es) h = omega (arith, top_seq-Numbered (suc k) es h.1)

-- On a numbered tape the highest number is the length.
pub top_seq-eq-length : (es : List DbEvent) → Numbered 0 es → top_seq es ≡ length es
top_seq-eq-length es h = omega (arith, top_seq-Numbered 0 es h)

Numbered-snoc :
    (k : ℕ) (es : List DbEvent) (e : DbEvent)
    → Numbered k es
    → e.seq ≡ suc (k + length es)
    → Numbered k (es ++ e ∷ [])
Numbered-snoc k [] e h q = (omega arith, tt)
Numbered-snoc k (x ∷ es) e h q = (h.0, Numbered-snoc (suc k) es e h.1 (omega arith))

-- The row that `append_event` inserts.
abbrev pub inserted : String → Body → Option String → String → Db → DbEvent
inserted id body ts now db = record {
  owner = id;
  event = record { seq = top_seq (events_of id db.events) + 1; ts = stamp ts now; body = body };
}

-- A late event is one that is not `final` and comes when the row is terminal.
abbrev pub is_late : Body → String → Db → Bool
is_late body id db = not (is_final body) && is_over (status_of id db)

-- `append_event` drops a late event and returns the highest number; it inserts any other event of a
-- known task under the next number, which it returns; and it raises for an unknown task. In the
-- first and the third case the database stays as it was.
pub append_event_cases :
    (id : String) (body : Body) (ts : Option String) (now : String) (db : Db)
    → append_event id body ts now db ≡ (
        if is_late body id db
        then (ok (top_seq (events_of id db.events)), db)
        else if has_id id db.tasks
        then (
          ok (top_seq (events_of id db.events) + 1),
          record db { events = db.events ++ inserted id body ts now db ∷ [] },
        )
        else (err (task_store_error id), db))
unfolding append_event
append_event_cases id body ts now db = refl

pub events_of-snoc_self :
    (id : String) (es : List DbEvent) (e : DbEvent)
    → e.owner ≡ id
    → events_of id (es ++ e ∷ []) ≡ events_of id es ++ e ∷ []
events_of-snoc_self id es e q =
    select-append (λ x. str_eq x.owner id) es (e ∷ []) ∙ rw ((eq_iff e.owner id).1 q)

pub events_of-snoc_other :
    (id : String) (es : List DbEvent) (e : DbEvent)
    → str_eq e.owner id ≡ false
    → events_of id (es ++ e ∷ []) ≡ events_of id es
events_of-snoc_other id [] e q = rw q
events_of-snoc_other id (x ∷ es) e q = rw (events_of-snoc_other id es e q)

Numbered-inserted :
    (id j : String) (body : Body) (ts : Option String) (now : String) (db : Db)
    → ((k : String) → Numbered 0 (events_of k db.events))
    → Numbered 0 (events_of j (db.events ++ inserted id body ts now db ∷ []))
Numbered-inserted id j body ts now db h = elim (Bool-cases (str_eq id j)) [
  | inl e ↦
      let same = (eq_iff id j).0 e in
      rw (events_of-snoc_self j db.events (inserted id body ts now db) same) (
        Numbered-snoc 0 (events_of j db.events) (inserted id body ts now db) (h j)
          (rw same (omega (arith, top_seq-eq-length (events_of j db.events) (h j)))))
  | inr e ↦ rw (events_of-snoc_other j db.events (inserted id body ts now db) e) (h j)
]

-- `append_event` keeps every tape numbered without a gap, whatever it does.
pub append_event-Numbered :
    (id j : String) (body : Body) (ts : Option String) (now : String) (db : Db)
    → ((k : String) → Numbered 0 (events_of k db.events))
    → Numbered 0 (events_of j (append_event id body ts now db).1.events)
append_event-Numbered id j body ts now db h =
    rw append_event_cases elim (Bool-cases (is_late body id db)) [
      | inl e ↦ rw e (h j)
      | inr e ↦ rw e elim (Bool-cases (has_id id db.tasks)) [
        | inl k ↦ rw k (Numbered-inserted id j body ts now db h)
        | inr k ↦ rw k (h j)
      ]
    ]
