-- ===== src/Tasks/Routes/Paging.antt =====
-- A client that pages through the events of a task with `next_from_seq` while nothing is written.
use Prim.Native.Nat.{pred, min}
use dikw_core.Prelude.{
  ℕ, suc, ◌+◌, ◌-◌, ◌≤◌, String, ◌≡◌, refl, Bool, true, false, ◌&&◌, some, List, [], ◌∷◌, ◌++◌, map,
  map-append, arith, if◌then◌else◌, ltb, leb, length, take, drop, length-take, length-drop,
  take-append-drop, any, Bool-cases, inl, inr, ◌∙◌, sym, ap, subst, drop_join, take_of_long,
}
use dikw_core.Tasks.Model.{is_terminal, TaskRow, Event, DbEvent, Db}
use dikw_core.Tasks.Store.{owned, get, events_of, list_events, max_seq}
use dikw_core.Tasks.Store.Immutable.{get-first, first-owned}
use dikw_core.Tasks.Store.Tape.{Numbered}
use dikw_core.Tasks.Store.Replay.{list_events-eq-drop, max_seq-eq-length, Numbered-drop}
use dikw_core.Tasks.Routes.{
  Response, found, not_found, task_not_terminal, EventsPage, any_events, poll, next_from, page_of,
  get_events,
}

abbrev pub still : ℕ → Db → List (Db × Db)
still ℕ.zero db = []
still (suc n) db = (db, db) ∷ still n db

module _ (inst id : String) (limit wait rounds : ℕ) (db : Db) where
  -- The page from `from` on.
  abbrev pub page : ℕ → Response EventsPage
  page from = get_events inst id from limit wait db db (still rounds db) db db

  -- Follows `next_from_seq` as long as there is more.
  unfoldable pub follow : ℕ → ℕ → List Event
  unfolding get_events
  follow ℕ.zero from = []
  follow (suc n) from = elim (page from) [
    | found p ↦
        let rest = follow n p.next_from_seq in if p.has_more then p.events ++ rest else p.events
    | not_found ↦ []
    | task_not_terminal st ↦ []
  ]

  poll-still :
      (from n : ℕ) (row : TaskRow)
      → get inst id db ≡ some row
      → any_events (list_events inst id from (some limit) db) ≡ false
      → poll inst id from limit (still n db) row (list_events inst id from (some limit) db)
        ≡ some (row, list_events inst id from (some limit) db)
  unfolding poll
  poll-still from ℕ.zero row g e = refl
  poll-still from (suc n) row g e = elim (Bool-cases (is_terminal row.status)) [
    | inl t ↦ rw (poll, e, g, t) refl
    | inr t ↦ rw (poll, e, g, t) (poll-still from n row g e)
  ]

  -- The answer on a database that stays as it is.
  pub page-found :
      (from : ℕ) (row : TaskRow)
      → get inst id db ≡ some row
      → page from
        ≡ found (
            page_of row.status from (list_events inst id from (some limit) db) (max_seq inst id db))
  unfolding get_events
  page-found from row g =
      elim (Bool-cases (any_events (list_events inst id from (some limit) db))) [
        | inl e ↦ elim (Bool-cases (is_terminal row.status)) [
          | inl t ↦ rw (get_events, g, e, t) refl
          | inr t ↦ rw (get_events, g, e, t, g) refl
        ]
        | inr e ↦ elim (Bool-cases (is_terminal row.status)) [
          | inl t ↦ rw (get_events, g, e, t) (ground arith)
          | inr t ↦ rw (get_events, g, e, t) (ground (arith, poll-still from rounds row g e))
        ]
      ]

Numbered-take : (k n : ℕ) (es : List DbEvent) → Numbered k es → Numbered k (take n es)
Numbered-take k ℕ.zero es h = tt
Numbered-take k (suc n) [] h = tt
Numbered-take k (suc n) (e ∷ es) h = (h.0, Numbered-take (suc k) n es h.1)

abbrev pub none_in : List DbEvent → Bool
none_in [] = true
none_in (e ∷ es) = false

next_from-Numbered :
    (from k : ℕ) (es : List DbEvent)
    → Numbered k es
    → next_from from (map (λ e. e.event) es) ≡ (if none_in es then from else suc (k + length es))
next_from-Numbered from k [] h = refl
next_from-Numbered from k (x ∷ []) h = omega (arith, h.0)
next_from-Numbered from k (x ∷ y ∷ es) h =
    omega (arith, next_from-Numbered from (suc k) (y ∷ es) h.1)

module _ (inst id : String) (limit wait rounds : ℕ) (db : Db) (row : TaskRow)
    (g : get inst id db ≡ some row) (h : Numbered 0 (events_of id db.events))
    (pos : 1 ≤ limit) where
  pub known : any (owned inst id) db.tasks ≡ true
  known = let (t, at, _) = get-first inst id db row g in first-owned inst id db.tasks t at

  -- The events of a page.
  abbrev pub part : ℕ → List DbEvent
  part from = take limit (drop (pred from) (events_of id db.events))

  pub next_of-part :
      (from : ℕ)
      → next_from from (map (λ e. e.event) (part from))
        ≡ (if none_in (part from) then from else suc (pred from + length (part from)))
  next_of-part from =
      let plain : 0 + pred from ≡ pred from = omega arith in
      next_from-Numbered from (pred from) (part from) (
        Numbered-take (pred from) limit (drop (pred from) (events_of id db.events)) (
          subst (λ k. Numbered k (drop (pred from) (events_of id db.events))) plain
            (Numbered-drop 0 (pred from) (events_of id db.events) h)))

  pub length-part :
      (from : ℕ) → length (part from) ≡ min limit (length (events_of id db.events) - pred from)
  length-part from =
      length-take limit (drop (pred from) (events_of id db.events))
      ∙ ap (min limit) (length-drop (pred from) (events_of id db.events))

  abbrev pub more_at : ℕ → ℕ → Bool
  more_at next last = ltb 0 last && leb next last

  follow-step :
      (n from : ℕ)
      → follow inst id limit wait rounds db (suc n) from ≡ (
          if more_at
            (next_from from (map (λ e. e.event) (part from)))
            (length (events_of id db.events))
          then map (λ e. e.event) (part from)
            ++ follow inst id limit wait rounds db n
                (next_from from (map (λ e. e.event) (part from)))
          else map (λ e. e.event) (part from))
  unfolding follow
  follow-step n from =
      rw (follow, page-found inst id limit wait rounds db from row g)
        (rw (list_events-eq-drop inst id from (some limit) db h known)
          (rw (max_seq-eq-length inst id db h known) refl))

  pub none-length : (es : List DbEvent) → none_in es ≡ true → length es ≡ 0
  none-length [] e = refl
  none-length (x ∷ es) e = cc

  pub some-length : (es : List DbEvent) → none_in es ≡ false → 1 ≤ length es
  some-length [] e = cc
  some-length (x ∷ es) e = omega arith

  pub ending :
      {m : ℕ} (from n : ℕ)
      → none_in (part from) ≡ true
      → m ≡ (if none_in (part from) then from else n)
      → m ≡ from
  ending from n e q = rw e at q

  pub going :
      {m n : ℕ} (from : ℕ)
      → none_in (part from) ≡ false
      → m ≡ (if none_in (part from) then from else n)
      → m ≡ n
  going from e q = rw e at q

  -- While nothing is written, a client that starts at `from` and follows `next_from_seq` until
  -- `has_more` is false gets the events of the task from number `from` on, each once and in order,
  -- whatever its page limit; as many requests as events are left and one more are enough.
  pub follow-tape :
      (n from : ℕ)
      → suc (length (events_of id db.events) - pred from) ≤ n
      → follow inst id limit wait rounds db n from
        ≡ map (λ e. e.event) (drop (pred from) (events_of id db.events))
  follow-tape ℕ.zero from enough = absurd (omega arith)
  follow-tape (suc n) from enough =
      let whole = events_of id db.events in
      let k = pred from in
      let len = length-part from in
      follow-step n from ∙ elim (Bool-cases (none_in (part from))) [
        | inl e ↦
            let next : next_from from (map (λ e. e.event) (part from)) ≡ from =
              ending from (suc (k + length (part from))) e (next_of-part from) in
            let gone = none-length (part from) e in
            let left : length (drop k whole) ≤ limit =
              omega (arith, length-drop k whole, len, gone, pos) in
            let stop : more_at from (length whole) ≡ false = ground (arith, len, gone, pos) in
            rw (next, stop) (ap (map (λ e. e.event)) (take_of_long limit (drop k whole) left))
        | inr e ↦
            let next : next_from from (map (λ e. e.event) (part from))
                ≡ suc (k + length (part from)) =
              going from e (next_of-part from) in
            let got = some-length (part from) e in
            elim (Bool-cases (more_at (suc (k + length (part from))) (length whole))) [
              | inl b ↦
                  let size : length (part from) ≡ limit = ground (arith, len, b) in
                  let fewer : suc (length whole - pred (suc (k + length (part from)))) ≤ n =
                    omega (arith, enough, got, len, size, pos) in
                  rw (next, b)
                    (ap (λ l. map (λ e. e.event) (part from) ++ l)
                        (follow-tape n (suc (k + length (part from))) fewer
                          ∙ ap (λ m. map (λ e. e.event) (drop m whole)) (ap (λ m. k + m) size))
                      ∙ (sym (map-append (λ e. e.event) (part from) (drop (k + limit) whole))
                          ∙ ap (map (λ e. e.event)) (
                              ap (λ l. part from ++ l) (sym (drop_join k limit whole))
                              ∙ take-append-drop limit (drop k whole))))
              | inr b ↦
                  let left : length (drop k whole) ≤ limit =
                    ground (arith, length-drop k whole, len, b, got) in
                  rw (next, b) (ap (map (λ e. e.event)) (take_of_long limit (drop k whole) left))
            ]
      ]
