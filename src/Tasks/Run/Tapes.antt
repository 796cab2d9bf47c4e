-- ===== src/Tasks/Run/Tapes.antt =====
-- Along every run the invariant of `Sealing` holds, and what it says of the tape.
use mathlib.Core.Option.{none-ne-some}
use dikw_core.Prelude.{
  String, ◌≡◌, refl, subst, sym, ◌∙◌, Bool, true, false, none, some, List, [], arith, Bool-cases,
  inl, inr,
}
use dikw_core.Tasks.Model.{
  TaskStatus, running, succeeded, failed, cancelled, is_terminal, same_status, Body, task_started,
  final, is_final, Db,
}
use dikw_core.Tasks.Store.{get}
use dikw_core.Tasks.Store.Rows.{Holds}
use dikw_core.Tasks.Run.{
  Pc, scheduled, dropped, began, never_began, starting, announcing, working, committing, reporting,
  interrupted, rereading, telling_cancelled, failing, telling_failed, ended, StoreOp, no_fields,
  write, emit, perform, awaited, in_try, on_cancel, after_reread, Run, Pick, first, later, Fate,
  Step, returned, raised, cut, reported, finished, crashed, cut_runner, cut_report, reread,
  cut_reread, lost_reread, landed, elsewhere,
}
use dikw_core.Tasks.Run.Ops.{tape_of, Foreign-Holds, Foreign-tape}
use dikw_core.Tasks.Run.Ending.{Holds-get}
use dikw_core.Tasks.Run.Finals.{
  op_final, Finals, none_yet, told, to_land, Quiet, Finals-live, emit-quietly, perform-Quietly,
  perform-final, Pick-quiet, Pick-Only,
}
use dikw_core.Tasks.Run.Sealing.{At, Told, cut-Live, cut-quiet, cut-final, returned-Told}

same_status-eq : (st : TaskStatus) → same_status st cancelled ≡ true → st ≡ cancelled
unfolding same_status
same_status-eq st e = ground arith

module _ (inst id op : String) where
  cut-Told :
      (at : String) (pc : Pc) (o : StoreOp) (st : TaskStatus) {db db' : Db}
      {late late' : List StoreOp} (x : Bool)
      → awaited id op pc at ≡ some o
      → Fate inst id o db late db' late'
      → Holds inst id st db.tasks
      → Finals st (tape_of id db) late
      → At pc st (tape_of id db) late x
      → Told inst id (on_cancel pc) db' late' true
  unfolding awaited on_cancel in_try is_final is_terminal
  cut-Told at starting o st x e f h n a =
      let q : write running (record no_fields { started_at = some at }) ≡ o = cc in
      cut-Live inst id o st x f (rw (← q)) h n a
  cut-Told at announcing o st x e f h n a =
      let q : emit (task_started id op) ≡ o = cc in cut-Live inst id o st x f (rw (← q)) h n a
  cut-Told at scheduled o st x e f h n a = absurd (none-ne-some o e)
  cut-Told at dropped o st x e f h n a = absurd (none-ne-some o e)
  cut-Told at working o st x e f h n a = absurd (none-ne-some o e)
  cut-Told at (committing r) o st x e f h n a =
      let q : write succeeded (record no_fields { finished_at = some at; result = some r }) ≡ o =
        cc in
      cut-Live inst id o st x f (rw (← q)) h n a
  cut-Told at (reporting r) o st {late = late} x e f h n a =
      let q : emit (final succeeded (some r) none) ≡ o = cc in
      cut-final inst id o st interrupted f (rw (← q)) (rw (← q) (sym a.0)) (rw a.0) h (a.1, rw a.2)
        (λ bodies l. (λ z. cc, refl))
  cut-Told at interrupted o st x e f h n a =
      let q : write cancelled (record no_fields { finished_at = some at }) ≡ o = cc in
      cut-quiet inst id o st f (rw (← q)) h n
  cut-Told at rereading o st x e f h n a = absurd (none-ne-some o e)
  cut-Told at telling_cancelled o st x e f h n a =
      let q : emit (final cancelled none none) ≡ o = cc in
      cut-final inst id o st ended f (rw (← q)) (rw (← q) (sym a.0)) (rw a.0) h a.1
        (λ bodies l z. cc)
  cut-Told at (failing j) o st x e f h n a =
      let q : write failed (record no_fields { finished_at = some at; error = some j }) ≡ o = cc in
      cut-quiet inst id o st f (rw (← q)) h n
  cut-Told at (telling_failed j) o st x e f h n a =
      let q : emit (final failed none (some j)) ≡ o = cc in
      cut-final inst id o st ended f (rw (← q)) (rw (← q) (sym a.0)) (rw a.0) h (a.1, rw a.2)
        (λ bodies l z. cc)
  cut-Told at ended o st x e f h n a = absurd (none-ne-some o e)

  no-Pick : {o : StoreOp} {late rest : List StoreOp} → late ≡ [] → Pick o late rest → ⊥
  no-Pick q first = cc
  no-Pick q (later p) = cc

  abbrev Landed : TaskStatus → Db → Db → List StoreOp → List StoreOp → Type 0
  Landed st db db' late rest =
      (to : TaskStatus) × Holds inst id to db'.tasks
      × Finals to (tape_of id db') rest
      × (is_terminal st ≡ true → to ≡ st)
      × (Quiet (tape_of id db) late → Quiet (tape_of id db') rest)

  Landed-quiet :
      (now : String) (o : StoreOp) (st : TaskStatus) (db : Db) (late rest : List StoreOp)
      → Pick o late rest
      → Holds inst id st db.tasks
      → Finals st (tape_of id db) rest
      → op_final o ≡ false
      → Landed st db (perform inst id now o db).1 late rest
  Landed-quiet now o st db late rest p h n e =
      let (to, h', n', kept, q) = perform-Quietly inst id now o st db rest h n e in
      (to, h', n', kept, λ w. (q w.0, (Pick-quiet p w.1).1))

  Landed-Finals :
      (now : String) (o : StoreOp) (st : TaskStatus) (db : Db) (late rest : List StoreOp)
      → Pick o late rest
      → Holds inst id st db.tasks
      → Finals st (tape_of id db) late
      → Landed st db (perform inst id now o db).1 late rest
  Landed-Finals now o st db late rest p h (none_yet a b) =
      let (e, r) = Pick-quiet p b in Landed-quiet now o st db late rest p h (none_yet a r) e
  Landed-Finals now o st db late rest p h (told t a b) =
      let (e, r) = Pick-quiet p b in Landed-quiet now o st db late rest p h (told t a r) e
  Landed-Finals now o st db late rest p h (to_land t a b) = elim (Pick-Only st p b) [
    | inl (e, says, r) ↦
        let (h', seal) = perform-final inst id now o st db h e says a in
        (st, h', told t seal r, λ _. refl, λ w. let (no_final, _) = Pick-quiet p w.1 in cc)
    | inr (e, only) ↦ Landed-quiet now o st db late rest p h (to_land t a only) e
  ]

  Quiet-after :
      (st to : TaskStatus) (bodies bodies' : List Body) (late rest : List StoreOp)
      → Finals st bodies late
      → (is_terminal st ≡ true → to ≡ st)
      → (Quiet bodies late → Quiet bodies' rest)
      → (st ≡ cancelled → Quiet bodies late)
      → to ≡ cancelled
      → Quiet bodies' rest
  Quiet-after st to bodies bodies' late rest n kept q a z = elim (Bool-cases (is_terminal st)) [
    | inl t ↦ q (a (sym (kept t) ∙ z))
    | inr t ↦ q (Finals-live st bodies late n t)
  ]

  -- A late call takes effect.
  landed-Told :
      (now : String) (pc : Pc) (o : StoreOp) (st : TaskStatus) (db : Db) (late rest : List StoreOp)
      (x : Bool)
      → Pick o late rest
      → Holds inst id st db.tasks
      → Finals st (tape_of id db) late
      → At pc st (tape_of id db) late x
      → Told inst id pc (perform inst id now o db).1 rest x
  unfolding is_terminal
  landed-Told now interrupted o st db late rest x p h n a =
      let (to, h', n', kept, q) = Landed-Finals now o st db late rest p h n in
      (to, h', n', (Quiet-after st to _ _ late rest n kept q a.0, a.1))
  landed-Told now rereading o st db late rest x p h n a =
      let (to, h', n', kept, q) = Landed-Finals now o st db late rest p h n in
      (to, h', n', (Quiet-after st to _ _ late rest n kept q a.0, a.1))
  landed-Told now telling_cancelled o st db late rest x p h n a =
      let (to, h', n', kept, q) = Landed-Finals now o st db late rest p h n in
      (to, h', n', (kept (rw a.0) ∙ a.0, q a.1, a.2))
  landed-Told now (reporting r) o st db late rest x p h n a = absurd (no-Pick a.2 p)
  landed-Told now (telling_failed r) o st db late rest x p h n a = absurd (no-Pick a.2 p)
  landed-Told now ended o st db late rest x p h n a =
      let (to, h', n', kept, q) = Landed-Finals now o st db late rest p h n in
      (to, h', n', λ z. absurd (no-Pick (a z).2 p))
  landed-Told now _ o st db late rest x p h n a = absurd (no-Pick a.1 p)

  -- After the row is read again.
  reread-Told :
      (st : TaskStatus) (db : Db) (late : List StoreOp) (x : Bool)
      → Holds inst id st db.tasks
      → Finals st (tape_of id db) late
      → At rereading st (tape_of id db) late x
      → Told inst id (after_reread (get inst id db)) db late x
  unfolding after_reread
  reread-Told st db late x h n a =
      let (r, found, same) = Holds-get inst id st db h in
      rw found elim (Bool-cases (same_status r.status cancelled)) [
        | inl e ↦
            let z : st ≡ cancelled = sym same ∙ same_status-eq r.status e in
            rw e (st, h, n, (z, a.0 z, a.1))
        | inr e ↦ rw e (st, h, n, λ y. cc)
      ]

  -- Every step without a failure of the store keeps the invariant.
  pub Step-Told :
      {s t : Run}
      → Step inst id op s t
      → t.faulted ≡ false
      → Told inst id s.pc s.db s.late s.stopped
      → Told inst id t.pc t.db t.late t.stopped
  Step-Told {s} (began e) ok (st, h, n, a) =
      (st, h, n, subst (λ pc. At pc st (tape_of id s.db) s.late s.stopped) e a)
  Step-Told {s} (never_began e) ok (st, h, n, a) =
      let live = subst (λ pc. At pc st (tape_of id s.db) s.late s.stopped) e a in
      (st, h, n, (live.0, live.1))
  Step-Told {s} (returned at now o e k) ok (st, h, n, a) =
      returned-Told inst id op at now s.pc o st s.db s.late s.stopped e h n a
  Step-Told (raised at o e q) ok w = cc
  Step-Told {s} (cut at o db' late' e f) ok (st, h, n, a) =
      cut-Told at s.pc o st s.stopped e f h n a
  Step-Told {s} (reported body now e b) ok (st, h, n, a) =
      let at_work = subst (λ pc. At pc st (tape_of id s.db) s.late s.stopped) e a in
      let (h', n', q) = emit-quietly inst id now body st s.db s.late h n b in
      (
        st,
        h',
        n',
        subst
            (λ pc. At pc st (tape_of id (perform inst id now (emit body) s.db).1) s.late s.stopped)
            (sym e) at_work,
      )
  Step-Told {s} (finished r e) ok (st, h, n, a) =
      (st, h, n, subst (λ pc. At pc st (tape_of id s.db) s.late s.stopped) e a)
  Step-Told {s} (crashed j e) ok (st, h, n, a) =
      (st, h, n, subst (λ pc. At pc st (tape_of id s.db) s.late s.stopped) e a)
  Step-Told {s} (cut_runner e) ok (st, h, n, a) =
      let live = subst (λ pc. At pc st (tape_of id s.db) s.late s.stopped) e a in
      (st, h, n, (λ _. Finals-live st (tape_of id s.db) s.late n live.0, refl))
  Step-Told {s} (cut_report body db' late' e b f) ok (st, h, n, a) =
      let live = subst (λ pc. At pc st (tape_of id s.db) s.late s.stopped) e a in
      cut-Live inst id (emit body) st s.stopped f b h n live
  Step-Told {s} (reread e) ok (st, h, n, a) =
      reread-Told st s.db s.late s.stopped h n
        (subst (λ pc. At pc st (tape_of id s.db) s.late s.stopped) e a)
  Step-Told (cut_reread e) ok (st, h, n, a) = (st, h, n, λ z. cc)
  Step-Told (lost_reread e) ok w = cc
  Step-Told {s} (landed o rest now p) ok (st, h, n, a) =
      landed-Told now s.pc o st s.db s.late rest s.stopped p h n a
  Step-Told {s} (elsewhere db' f) ok (st, h, n, a) =
      let same : tape_of id db' ≡ tape_of id s.db = Foreign-tape f in
      (
        st,
        Foreign-Holds inst st f h,
        rw same n,
        subst (λ b. At s.pc st b s.late s.stopped) (sym same) a,
      )
