-- ===== src/Client/Served.antt =====
-- The pages of the server of Tasks/Routes.antt on a database to which nothing is written.
use Prim.Native.Nat.{pred, min}
use dikw_core.Prelude.{
  ℕ, suc, ◌+◌, ◌-◌, ◌≤◌, ◌<◌, String, ◌≡◌, sym, ◌∙◌, ap, inl, inr, true, false, Option, none, some,
  List, arith, if◌then◌else◌, ◌==◌, length, take, drop, length-drop, drop_join, Bool-cases,
}
use dikw_core.Tasks.Model.{TaskRow, DbEvent, Db}
use dikw_core.Tasks.Store.{get, events_of, max_seq}
use dikw_core.Tasks.Store.Tape.{Numbered}
use dikw_core.Tasks.Store.Replay.{list_events-eq-drop, max_seq-eq-length}
use dikw_core.Tasks.Routes.{
  Response, found, not_found, task_not_terminal, EventsPage, page_of, get_events, get_task_result,
}
use dikw_core.Tasks.Routes.Paging.{
  still, page-found, known, next_of-part, length-part, none_in, none-length,
}
use dikw_core.Client.Follow.{Transport}
use dikw_core.Client.Events.{events}

-- The reply, if it is no error.
abbrev pub reply : {A : Type 0} → Response A → Option A
reply (found a) = some a
reply not_found = none
reply (task_not_terminal st) = none

-- The server on a database to which nothing is written
abbrev pub server : String → String → ℕ → Db → Transport
server inst id rounds db = record {
  get_task_events_page =
      λ i from limit wait. reply (get_events inst id from limit wait db db (still rounds db) db db);
  get_result = λ i. reply (get_task_result inst id db);
}

module _ (inst id : String) (limit poll_wait rounds : ℕ) (db : Db) (row : TaskRow)
    (g : get inst id db ≡ some row) (h : Numbered 0 (events_of id db.events))
    (pos : 1 ≤ limit) where
  abbrev pub whole : List DbEvent
  whole = events_of id db.events

  abbrev pub rest : ℕ → List DbEvent
  rest from = drop (pred from) whole

  abbrev pub piece : ℕ → List DbEvent
  piece from = take limit (rest from)

  abbrev pub served : ℕ → EventsPage
  served from = page_of row.status from (events (piece from)) (length whole)

  pub served-eq :
      (i from wait : ℕ)
      → (server inst id rounds db).get_task_events_page i from limit wait ≡ some (served from)
  served-eq i from wait =
      let seen = known inst id limit poll_wait rounds db row g h pos in
      ap reply (
        page-found inst id limit wait rounds db from row g
        ∙ ap (λ es. found (page_of row.status from es (max_seq inst id db)))
            (list_events-eq-drop inst id from (some limit) db h seen)
        ∙ ap (λ m. found (page_of row.status from (events (piece from)) m))
            (max_seq-eq-length inst id db h seen))

  abbrev pub next_cursor : ℕ → ℕ
  next_cursor from = if (served from).next_from_seq == 0 then from else (served from).next_from_seq

  next_at :
      (from : ℕ)
      → (served from).next_from_seq
        ≡ (if none_in (piece from) then from else suc (pred from + length (piece from)))
  next_at = next_of-part inst id limit poll_wait rounds db row g h pos

  pub size_at : (from : ℕ) → length (piece from) ≡ min limit (length whole - pred from)
  size_at = length-part inst id limit poll_wait rounds db row g h pos

  -- The next cursor stands behind the piece.
  pred-next_cursor : (from : ℕ) → pred (next_cursor from) ≡ pred from + length (piece from)
  pred-next_cursor from = elim (Bool-cases (none_in (piece from))) [
    | inl e ↦ ground (
      arith,
      next_at from,
      e,
      none-length inst id limit poll_wait rounds db row g h pos (piece from) e,
    )
    | inr e ↦ ground (arith, next_at from, e)
  ]

  pub has_more_long : (from : ℕ) → limit < length (rest from) → (served from).has_more ≡ true
  has_more_long from lt = elim (Bool-cases (none_in (piece from))) [
    | inl e ↦
        let gone = none-length inst id limit poll_wait rounds db row g h pos (piece from) e in
        absurd (omega (arith, size_at from, length-drop (pred from) whole, gone, pos))
    | inr e ↦ ground (arith, next_at from, e, size_at from, length-drop (pred from) whole)
  ]

  pub has_more_short : (from : ℕ) → length (rest from) ≤ limit → (served from).has_more ≡ false
  has_more_short from le = elim (Bool-cases (none_in (piece from))) [
    | inl e ↦
        let gone = none-length inst id limit poll_wait rounds db row g h pos (piece from) e in
        ground (arith, next_at from, e, size_at from, length-drop (pred from) whole, gone, pos)
    | inr e ↦ ground (arith, next_at from, e, size_at from, length-drop (pred from) whole)
  ]

  pub rest-next_cursor :
      (from : ℕ) → rest (next_cursor from) ≡ drop (length (piece from)) (rest from)
  rest-next_cursor from =
      ap (λ k. drop k whole) (pred-next_cursor from)
      ∙ sym (drop_join (pred from) (length (piece from)) whole)
