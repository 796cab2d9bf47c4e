-- ===== src/Tasks/Store/Replay.antt =====
-- `list_events` and `max_seq` of `SqliteTaskStore` on a numbered tape.
use Prim.Native.Nat.{pred}
use dikw_core.Prelude.{
  ℕ, zero, suc, ◌+◌, ◌-◌, String, ◌≡◌, refl, ap, ◌∙◌, Bool, true, ◌&&◌, Option, List, [], ◌∷◌, map,
  arith, str_eq, any, leb, select, length, drop, Bool-cases, inl, inr,
}
use dikw_core.Prelude.Sort.{sort_of_sorted, IsSorted}
use dikw_core.Tasks.Model.{DbEvent, Db}
use dikw_core.Tasks.Store.{owned, events_of, limited, seq_before, list_events, max_seq}
use dikw_core.Tasks.Store.Tape.{Numbered, top_seq-eq-length}

Numbered-IsSorted : (k : ℕ) (es : List DbEvent) → Numbered k es → IsSorted seq_before es
Numbered-IsSorted k [] h = tt
Numbered-IsSorted k (x ∷ []) h = tt
Numbered-IsSorted k (x ∷ y ∷ es) h =
    (ground (arith, h.0, h.1.0), Numbered-IsSorted (suc k) (y ∷ es) h.1)

pub Numbered-drop : (k n : ℕ) (es : List DbEvent) → Numbered k es → Numbered (k + n) (drop n es)
Numbered-drop k zero es h = let e : k + 0 ≡ k = omega arith in rw e h
Numbered-drop k (suc n) [] h = tt
Numbered-drop k (suc n) (x ∷ es) h =
    let e : k + suc n ≡ suc k + n = omega arith in rw e (Numbered-drop (suc k) n es h.1)

-- `seq >= from` cuts off the front of a numbered tape.
select-from :
    (from k : ℕ) (es : List DbEvent)
    → Numbered k es
    → select (λ e. leb from e.seq) es ≡ drop (pred from - k) es
select-from from k [] h = drop-nil (pred from - k)
  where
    drop-nil : (n : ℕ) → ◌≡◌ {A = List DbEvent} [] (drop n [])
    drop-nil zero = refl
    drop-nil (suc n) = refl
select-from from k (x ∷ es) h = elim (Bool-cases (leb from x.seq)) [
  | inl e ↦
      let small : pred from - k ≡ 0 = ground (arith, h.0) in
      let smaller : pred from - suc k ≡ 0 = ground (arith, h.0) in
      rw (e, small) (ap (λ l. x ∷ l) (select-from from (suc k) es h.1 ∙ rw smaller))
  | inr e ↦
      let more : pred from - k ≡ suc (pred from - suc k) = ground (arith, h.0) in
      rw (e, more) (select-from from (suc k) es h.1)
]

select-owner :
    (id : String) (p : DbEvent → Bool) (b : Bool) (es : List DbEvent)
    → b ≡ true
    → select (λ e. str_eq e.owner id && (p e && b)) es ≡ select p (events_of id es)
select-owner id p b [] h = refl
select-owner id p b (x ∷ es) h = ground (arith, select-owner id p b es h)

-- On a numbered tape `list_events` returns the events from number `from` on, in order, and at most
-- `limit` of them where a limit is given.
pub list_events-eq-drop :
    (inst id : String) (from : ℕ) (limit : Option ℕ) (db : Db)
    → Numbered 0 (events_of id db.events)
    → any (owned inst id) db.tasks ≡ true
    → list_events inst id from limit db
      ≡ map (λ e. e.event) (limited limit (drop (pred from) (events_of id db.events)))
unfolding list_events
list_events-eq-drop inst id from limit db h known =
    let tape : List DbEvent = events_of id db.events in
    let whole : pred from - 0 ≡ pred from = omega arith in
    let plain : 0 + pred from ≡ pred from = omega arith in
    let cut : select (λ e. str_eq e.owner id && (leb from e.seq && any (owned inst id) db.tasks))
          db.events
        ≡ drop (pred from) tape =
      select-owner id (λ e. leb from e.seq) (any (owned inst id) db.tasks) db.events known
      ∙ (select-from from 0 tape h ∙ ap (λ n. drop n tape) whole) in
    rw cut (
      rw (
        sort_of_sorted seq_before (drop (pred from) tape)
          (Numbered-IsSorted (pred from) _ (rw plain at (Numbered-drop 0 (pred from) tape h)))))

-- On a numbered tape `max_seq` is the number of events.
pub max_seq-eq-length :
    (inst id : String) (db : Db)
    → Numbered 0 (events_of id db.events)
    → any (owned inst id) db.tasks ≡ true
    → max_seq inst id db ≡ length (events_of id db.events)
unfolding max_seq
max_seq-eq-length inst id db h known =
    rw (owner_only db.events) (top_seq-eq-length (events_of id db.events) h)
  where
    owner_only :
        (es : List DbEvent)
        → select (λ e. str_eq e.owner id && any (owned inst id) db.tasks) es ≡ events_of id es
    owner_only [] = refl
    owner_only (x ∷ es) = ground (arith, owner_only es, known)
