-- ===== src/Tasks/Run/Finals.antt =====
-- The event tape of a run: where the store does not fail, a `final` event is the last one, there is
-- at most one, and it says what the row says.
use dikw_core.Prelude.{
  String, ◌≡◌, refl, ◌∙◌, Bool, true, false, List, [], ◌∷◌, ◌++◌, arith, any, if◌then◌else◌,
  Bool-cases, inl, inr, ◌⊎◌,
}
use dikw_core.Tasks.Model.{TaskStatus, is_terminal, Body, final, is_final, Db}
use dikw_core.Tasks.Store.Rows.{Holds}
use dikw_core.Tasks.Store.Immutable.{next_status}
use dikw_core.Tasks.Run.{StoreOp, write, emit, perform, Pick, first, later}
use dikw_core.Tasks.Run.Ops.{
  tape_of, tasks-perform_write, tape-perform_write, tasks-perform_emit, tape-perform_emit,
}

-- A `final` event of this status.
abbrev pub Says : TaskStatus → Body → Type 0
Says st (final x r e) = x ≡ st
Says st _ = ⊥

-- The tape ends with its only `final` event, and that has this status.
abbrev pub Sealed : TaskStatus → List Body → Type 0
Sealed st [] = ⊥
Sealed st (b ∷ bs) = if is_final b then ((bs ≡ []) × Says st b) else Sealed st bs

abbrev pub op_final : StoreOp → Bool
op_final (write st f) = false
op_final (emit b) = is_final b

abbrev pub OpSays : TaskStatus → StoreOp → Type 0
OpSays st (write x f) = ⊥
OpSays st (emit b) = Says st b

-- Exactly one of the late calls is a `final` event, and that has this status.
abbrev pub Only : TaskStatus → List StoreOp → Type 0
Only st [] = ⊥
Only st (o ∷ os) = if op_final o then (OpSays st o × (any op_final os ≡ false)) else Only st os

-- Where the one `final` event is.
pub data Finals (st : TaskStatus) (bodies : List Body) (late : List StoreOp) : Type 0 where
  none_yet : any is_final bodies ≡ false → any op_final late ≡ false → Finals st bodies late
  told :
      is_terminal st ≡ true → Sealed st bodies → any op_final late ≡ false → Finals st bodies late
  to_land :
      is_terminal st ≡ true → any is_final bodies ≡ false → Only st late → Finals st bodies late

any-snoc :
    (bs : List Body) (b : Body) → any is_final bs ≡ false → any is_final (bs ++ b ∷ []) ≡ is_final b
any-snoc [] b h = ground arith
any-snoc (x ∷ bs) b h = ground (arith, any-snoc bs b)

Sealed-snoc :
    (st : TaskStatus) (bs : List Body) (b : Body)
    → any is_final bs ≡ false
    → is_final b ≡ true
    → Says st b
    → Sealed st (bs ++ b ∷ [])
Sealed-snoc st [] b h f s = rw f (refl, s)
Sealed-snoc st (x ∷ bs) b h f s = ground (arith, Sealed-snoc st bs b)

split :
    (y : StoreOp) (xs : List StoreOp)
    → any op_final (y ∷ xs) ≡ false
    → (op_final y ≡ false) × (any op_final xs ≡ false)
split y xs h = ground arith

pub Pick-quiet :
    {o : StoreOp} {xs ys : List StoreOp}
    → Pick o xs ys
    → any op_final xs ≡ false
    → (op_final o ≡ false) × (any op_final ys ≡ false)
Pick-quiet {o} (first {xs = xs}) h = ground arith
Pick-quiet {o} (later {y = y} {xs = xs} {ys = ys} p) h =
    let (a, b) = split y xs h in let (c, d) = Pick-quiet p b in (c, ground (arith, a, d))

pub Pick-Only :
    (st : TaskStatus) {o : StoreOp} {xs ys : List StoreOp}
    → Pick o xs ys
    → Only st xs
    → (op_final o ≡ true) × OpSays st o × (any op_final ys ≡ false)
      ⊎ (op_final o ≡ false) × Only st ys
Pick-Only st {o} (first {xs = xs}) h = elim (Bool-cases (op_final o)) [
  | inl e ↦ let q = rw e at h in inl (e, q.0, q.1)
  | inr e ↦ inr (e, rw e at h)
]
Pick-Only st {o} (later {y = y} {xs = xs} {ys = ys} p) h = elim (Bool-cases (op_final y)) [
  | inl e ↦ let q = rw e at h in let (a, b) = Pick-quiet p q.1 in inr (a, rw e (q.0, b))
  | inr e ↦ elim (Pick-Only st p (rw e at h)) [
    | inl (a, b, c) ↦ inl (a, b, rw e c)
    | inr (a, b) ↦ inr (a, rw e b)
  ]
]

-- No `final` event on the tape, and none on its way.
abbrev pub Quiet : List Body → List StoreOp → Type 0
Quiet bodies late = (any is_final bodies ≡ false) × (any op_final late ≡ false)

pub Finals-live :
    (st : TaskStatus) (bodies : List Body) (late : List StoreOp)
    → Finals st bodies late
    → is_terminal st ≡ false
    → Quiet bodies late
Finals-live st bodies late (none_yet a b) e = (a, b)
Finals-live st bodies late (told t a b) e = cc
Finals-live st bodies late (to_land t a b) e = cc

-- What a call other than `final` does.
abbrev pub Quietly : String → String → TaskStatus → Db → Db → List StoreOp → Type 0
Quietly inst id st db db' late =
    (to : TaskStatus) × Holds inst id to db'.tasks
    × Finals to (tape_of id db') late
    × (is_terminal st ≡ true → to ≡ st)
    × (any is_final (tape_of id db) ≡ false → any is_final (tape_of id db') ≡ false)

Finals-next :
    (st to : TaskStatus) (bodies : List Body) (late : List StoreOp)
    → Finals st bodies late
    → Finals (if is_terminal st then st else to) bodies late
Finals-next st to bodies late (none_yet a b) = none_yet a b
Finals-next st to bodies late (told t a b) = rw t (told t a b)
Finals-next st to bodies late (to_land t a b) = rw t (to_land t a b)

-- An event other than `final` leaves the status alone.
pub emit-quietly :
    (inst id now : String) (b : Body) (st : TaskStatus) (db : Db) (late : List StoreOp)
    → Holds inst id st db.tasks
    → Finals st (tape_of id db) late
    → is_final b ≡ false
    → Holds inst id st (perform inst id now (emit b) db).1.tasks
      × Finals st (tape_of id (perform inst id now (emit b) db).1) late
      × (any is_final (tape_of id db) ≡ false
          → any is_final (tape_of id (perform inst id now (emit b) db).1) ≡ false)
emit-quietly inst id now b st db late h n e = elim (Bool-cases (is_terminal st)) [
  | inl t ↦
      let same : tape_of id (perform inst id now (emit b) db).1 ≡ tape_of id db =
        tape-perform_emit inst id now st b db h ∙ ground (arith, e, t) in
      (rw (tasks-perform_emit inst id now st b db) h, rw same n, λ q. rw same q)
  | inr t ↦
      let more : tape_of id (perform inst id now (emit b) db).1 ≡ tape_of id db ++ b ∷ [] =
        tape-perform_emit inst id now st b db h ∙ ground (arith, e, t) in
      let (q, l) = Finals-live st (tape_of id db) late n t in
      let clean = any-snoc (tape_of id db) b q ∙ e in
      (
        rw (tasks-perform_emit inst id now st b db) h,
        rw more (none_yet clean l),
        λ _. rw more clean,
      )
]

pub perform-Quietly :
    (inst id now : String) (o : StoreOp) (st : TaskStatus) (db : Db) (late : List StoreOp)
    → Holds inst id st db.tasks
    → Finals st (tape_of id db) late
    → op_final o ≡ false
    → Quietly inst id st db (perform inst id now o db).1 late
perform-Quietly inst id now (write to f) st db late h n e = (
  next_status inst id to f st,
  tasks-perform_write inst id now st to f db h,
  rw (tape-perform_write inst id now st id to f db) (Finals-next st to (tape_of id db) late n),
  λ t. rw t,
  λ q. rw (tape-perform_write inst id now st id to f db) q,
)
perform-Quietly inst id now (emit b) st db late h n e =
    let (h', n', q) = emit-quietly inst id now b st db late h n e in (st, h', n', λ _. refl, q)

-- What a `final` call does where the tape has none yet.
pub perform-final :
    (inst id now : String) (o : StoreOp) (st : TaskStatus) (db : Db)
    → Holds inst id st db.tasks
    → op_final o ≡ true
    → OpSays st o
    → any is_final (tape_of id db) ≡ false
    → Holds inst id st (perform inst id now o db).1.tasks
      × Sealed st (tape_of id (perform inst id now o db).1)
perform-final inst id now (write to f) st db h e s q = absurd s
perform-final inst id now (emit b) st db h e s q =
    let more : tape_of id (perform inst id now (emit b) db).1 ≡ tape_of id db ++ b ∷ [] =
      tape-perform_emit inst id now st b db h ∙ ground (arith, e) in
    (
      rw (tasks-perform_emit inst id now st b db) h,
      rw more (Sealed-snoc st (tape_of id db) b q e s),
    )
