-- ===== src/Tasks/Run/Sealing.antt =====
-- The invariant of `Finals` along a run, and what it says of a run that has ended.
use mathlib.Core.Option.{none-ne-some}
use dikw_core.Prelude.{
  String, ◌≡◌, refl, sym, ◌∙◌, Bool, true, false, none, some, List, [], ◌∷◌, arith, any,
  if◌then◌else◌, Bool-cases, inl, inr,
}
use dikw_core.Tasks.Model.{
  TaskStatus, running, succeeded, failed, cancelled, is_terminal, Body, task_started, final,
  is_final, Db,
}
use dikw_core.Tasks.Store.{Fields}
use dikw_core.Tasks.Store.Rows.{Holds}
use dikw_core.Tasks.Run.{
  Pc, scheduled, dropped, starting, announcing, working, committing, reporting, interrupted,
  rereading, telling_cancelled, failing, telling_failed, ended, StoreOp, no_fields, write, emit,
  perform, awaited, on_return, Fate, not_begun, done, under_way,
}
use dikw_core.Tasks.Run.Ops.{tape_of, tasks-perform_write, tape-perform_write}
use dikw_core.Tasks.Run.Finals.{
  Says, Sealed, op_final, OpSays, Finals, none_yet, told, to_land, Quiet, Finals-live, emit-quietly,
  perform-Quietly, perform-final,
}

-- What holds at each program counter, besides `Finals`.
abbrev pub Live : TaskStatus → List StoreOp → Bool → Type 0
Live st late stopped = (is_terminal st ≡ false) × (late ≡ []) × (stopped ≡ false)

abbrev pub At : Pc → TaskStatus → List Body → List StoreOp → Bool → Type 0
At (reporting r) st bodies late stopped =
    (st ≡ succeeded) × (any is_final bodies ≡ false) × (late ≡ []) × (stopped ≡ false)
At (telling_failed e) st bodies late stopped =
    (st ≡ failed) × (any is_final bodies ≡ false) × (late ≡ []) × (stopped ≡ false)
At interrupted st bodies late stopped = (st ≡ cancelled → Quiet bodies late) × (stopped ≡ true)
At rereading st bodies late stopped = (st ≡ cancelled → Quiet bodies late) × (stopped ≡ true)
At telling_cancelled st bodies late stopped =
    (st ≡ cancelled) × Quiet bodies late × (stopped ≡ true)
At dropped st bodies late stopped = (is_terminal st ≡ false) × (late ≡ [])
At ended st bodies late stopped =
    stopped ≡ false → (is_terminal st ≡ true) × Sealed st bodies × (late ≡ [])
At _ st bodies late stopped = Live st late stopped

-- The invariant, over the parts of a run.
abbrev pub Told : String → String → Pc → Db → List StoreOp → Bool → Type 0
Told inst id pc db late stopped =
    (st : TaskStatus) × Holds inst id st db.tasks
    × Finals st (tape_of id db) late
    × At pc st (tape_of id db) late stopped

Quiet-at-Live :
    (st : TaskStatus) (bodies : List Body) (late : List StoreOp) (x : Bool)
    → Finals st bodies late
    → Live st late x
    → Quiet bodies late
Quiet-at-Live st bodies late x n l = Finals-live st bodies late n l.0

module _ (inst id : String) where
  -- A call other than `final` is cut off while the row is live.
  pub cut-Live :
      (o : StoreOp) (st : TaskStatus) {db db' : Db} {late late' : List StoreOp} (x : Bool)
      → Fate inst id o db late db' late'
      → op_final o ≡ false
      → Holds inst id st db.tasks
      → Finals st (tape_of id db) late
      → Live st late x
      → Told inst id interrupted db' late' true
  cut-Live o st {db} {late = late} x not_begun e h n l =
      (st, h, n, (λ _. Quiet-at-Live st (tape_of id db) late x n l, refl))
  cut-Live o st {db} {late = late} x (done now) e h n l =
      let (a, b) = Quiet-at-Live st (tape_of id db) late x n l in
      let (to, h', n', _, q) = perform-Quietly inst id now o st db late h n e in
      (to, h', n', (λ _. (q a, b), refl))
  cut-Live o st {db} {late = late} x under_way e h n l =
      let (a, b) = Quiet-at-Live st (tape_of id db) late x n l in
      let c : any op_final (o ∷ late) ≡ false = ground (arith, e, b) in
      (st, h, none_yet a c, (λ _. (a, c), refl))

  -- A call is cut off in a handler, other than `final`.
  pub cut-quiet :
      (o : StoreOp) (st : TaskStatus) {db db' : Db} {late late' : List StoreOp}
      → Fate inst id o db late db' late'
      → op_final o ≡ false
      → Holds inst id st db.tasks
      → Finals st (tape_of id db) late
      → Told inst id ended db' late' true
  cut-quiet o st not_begun e h n = (st, h, n, λ z. cc)
  cut-quiet o st {db} {late = late} (done now) e h n =
      let (to, h', n', _, q) = perform-Quietly inst id now o st db late h n e in
      (to, h', n', λ z. cc)
  cut-quiet o st {db} {late = late} under_way e h n = (st, h, grown n, λ z. cc)
    where
      grown : Finals st (tape_of id db) late → Finals st (tape_of id db) (o ∷ late)
      grown (none_yet a b) = none_yet a (ground (arith, e, b))
      grown (told t a b) = told t a (ground (arith, e, b))
      grown (to_land t a b) = to_land t a (rw e b)

  -- A `final` call is cut off.
  pub cut-final :
      (o : StoreOp) (st : TaskStatus) {db db' : Db} {late late' : List StoreOp} (pc : Pc)
      → Fate inst id o db late db' late'
      → op_final o ≡ true
      → OpSays st o
      → is_terminal st ≡ true
      → Holds inst id st db.tasks
      → Quiet (tape_of id db) late
      → ((bodies : List Body) (l : List StoreOp) → At pc st bodies l true)
      → Told inst id pc db' late' true
  cut-final o st pc not_begun e s t h q a = (st, h, none_yet q.0 q.1, a _ _)
  cut-final o st {db} {late = late} pc (done now) e s t h q a =
      let (h', seal) = perform-final inst id now o st db h e s q.0 in
      (st, h', told t seal q.1, a _ _)
  cut-final o st pc under_way e s t h q a = (st, h, to_land t q.0 (rw e (s, q.1)), a _ _)

  -- A status is written while the row is live.
  write-told :
      (now : String) (to : TaskStatus) (f : Fields) (o : StoreOp) (st : TaskStatus) (db : Db)
      (late : List StoreOp)
      → write to f ≡ o
      → Holds inst id st db.tasks
      → Finals st (tape_of id db) late
      → is_terminal st ≡ false
      → Holds inst id to (perform inst id now o db).1.tasks
        × Finals to (tape_of id (perform inst id now o db).1) late
        × Quiet (tape_of id (perform inst id now o db).1) late
  write-told now to f o st db late q h n l =
      let (a, b) = Finals-live st (tape_of id db) late n l in
      let same = tape-perform_write inst id now st id to f db in
      let a' : any is_final (tape_of id (perform inst id now (write to f) db).1) ≡ false =
        rw same a in
      let becomes : (if is_terminal st then st else to) ≡ to = rw l in
      rw (← q)
        (rw becomes at (tasks-perform_write inst id now st to f db h), none_yet a' b, (a', b))

  -- A `final` event is stored.
  final-Told :
      (now : String) (body : Body) (o : StoreOp) (st : TaskStatus) (db : Db) (late : List StoreOp)
      (x : Bool)
      → emit body ≡ o
      → is_final body ≡ true
      → Says st body
      → is_terminal st ≡ true
      → Holds inst id st db.tasks
      → Quiet (tape_of id db) late
      → (x ≡ false → late ≡ [])
      → Told inst id ended (perform inst id now o db).1 late x
  final-Told now body o st db late x q f s t h w z =
      let (h', seal) = perform-final inst id now (emit body) st db h f s w.0 in
      rw (← q) (st, h', told t seal w.1, λ y. (t, seal, z y))

  -- The awaited call returns.
  pub returned-Told :
      (op at now : String) (pc : Pc) (o : StoreOp) (st : TaskStatus) (db : Db) (late : List StoreOp)
      (x : Bool)
      → awaited id op pc at ≡ some o
      → Holds inst id st db.tasks
      → Finals st (tape_of id db) late
      → At pc st (tape_of id db) late x
      → Told inst id (on_return pc) (perform inst id now o db).1 late x
  unfolding awaited on_return is_terminal is_final
  returned-Told op at now starting o st db late x e h n a =
      let q : write running (record no_fields { started_at = some at }) ≡ o = cc in
      let (h', n', _) = write-told now running _ o st db late q h n a.0 in
      (running, h', n', (refl, a.1, a.2))
  returned-Told op at now announcing o st db late x e h n a =
      let q : emit (task_started id op) ≡ o = cc in
      rw (← q) (
        let (h', n', _) = emit-quietly inst id now (task_started id op) st db late h n refl in
        (st, h', n', a))
  returned-Told op at now scheduled o st db late x e h n a = absurd (none-ne-some o e)
  returned-Told op at now dropped o st db late x e h n a = absurd (none-ne-some o e)
  returned-Told op at now working o st db late x e h n a = absurd (none-ne-some o e)
  returned-Told op at now (committing r) o st db late x e h n a =
      let q : write succeeded (record no_fields { finished_at = some at; result = some r }) ≡ o =
        cc in
      let (h', n', w) = write-told now succeeded _ o st db late q h n a.0 in
      (succeeded, h', n', (refl, w.0, a.1, a.2))
  returned-Told op at now (reporting r) o st db late x e h n a =
      let q : emit (final succeeded (some r) none) ≡ o = cc in
      final-Told now _ o st db late x q refl (sym a.0) (rw a.0) h (a.1, rw a.2) (λ _. a.2)
  returned-Told op at now interrupted o st db late x e h n a =
      let q : write cancelled (record no_fields { finished_at = some at }) ≡ o = cc in
      elim (Bool-cases (is_terminal st)) [
        | inl t ↦
            let (to, h', n', kept, w) = perform-Quietly inst id now o st db late h n (rw (← q)) in
            (to, h', n', (λ z. let r = a.0 (sym (kept t) ∙ z) in (w r.0, r.1), a.1))
        | inr t ↦
            let (h', n', w) = write-told now cancelled _ o st db late q h n t in
            (cancelled, h', n', (λ _. w, a.1))
      ]
  returned-Told op at now rereading o st db late x e h n a = absurd (none-ne-some o e)
  returned-Told op at now telling_cancelled o st db late x e h n a =
      let q : emit (final cancelled none none) ≡ o = cc in
      final-Told now _ o st db late x q refl (sym a.0) (rw a.0) h a.1 (λ z. cc)
  returned-Told op at now (failing j) o st db late x e h n a =
      let q : write failed (record no_fields { finished_at = some at; error = some j }) ≡ o = cc in
      let (h', n', w) = write-told now failed _ o st db late q h n a.0 in
      (failed, h', n', (refl, w.0, a.1, a.2))
  returned-Told op at now (telling_failed j) o st db late x e h n a =
      let q : emit (final failed none (some j)) ≡ o = cc in
      final-Told now _ o st db late x q refl (sym a.0) (rw a.0) h (a.1, rw a.2) (λ _. a.2)
  returned-Told op at now ended o st db late x e h n a = absurd (none-ne-some o e)
