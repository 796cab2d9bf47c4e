-- ===== src/Client/Settled.antt =====
-- `follow_to_terminal` against the server of Tasks/Routes.antt, for a task that has ended.
use Prim.Native.Nat.{pred}
use dikw_core.Prelude.{
  ℕ, suc, ◌+◌, ◌*◌, ◌≤◌, ◌<◌, String, ◌≡◌, refl, sym, ◌∙◌, ap, inl, inr, Bool, true, false, ◌&&◌,
  not, Option, none, some, List, [], ◌∷◌, ◌++◌, append_assoc, append-nil, map-append,
  take-append-drop, arith, leb, length, take, drop, length-drop, take_of_long, Bool-cases,
}
use dikw_core.Tasks.Model.{Json, TaskStatus, is_terminal, TaskRow, Event, DbEvent, Db}
use dikw_core.Tasks.Store.{get, events_of}
use dikw_core.Tasks.Store.Tape.{Numbered}
use dikw_core.Tasks.Routes.{found, EventsPage, get_task_result, result_body}
use dikw_core.Client.Follow.{
  Followed, returned, payload_or, read_events, follow_loop, follow_to_terminal,
  row_terminal_fallback, past_deadline, call_wait,
}
use dikw_core.Client.Events.{
  events, Closes, Closes-drop, read_events-take, read_events-drop, read_events-Closes,
}
use dikw_core.Client.Served
use dikw_core.Client.Served.{server}

-- What the client should return for a row and the events that are left.
abbrev pub final_answer : TaskRow → List DbEvent → Option Json
final_answer row es =
    let (seen, payload) = read_events none none (events es) in
    elim seen [ none ↦ payload_or none row.result row.error | some st ↦ payload ]

drop_all : {A : Type 0} (xs : List A) → drop (length xs) xs ≡ []
drop_all [] = refl
drop_all (x ∷ xs) = drop_all xs

module _ (inst id : String) (limit poll_wait rounds : ℕ) (clock : ℕ → ℕ) (db : Db) (row : TaskRow)
    (g : get inst id db ≡ some row) (h : Numbered 0 (events_of id db.events)) (pos : 1 ≤ limit)
    (ended : is_terminal row.status ≡ true)
    (closes : Closes row.status (events_of id db.events)) where
  abbrev rest : ℕ → List DbEvent
  rest = Served.rest inst id limit poll_wait rounds db row g h pos

  abbrev piece : ℕ → List DbEvent
  piece = Served.piece inst id limit poll_wait rounds db row g h pos

  abbrev served : ℕ → EventsPage
  served = Served.served inst id limit poll_wait rounds db row g h pos

  abbrev next_cursor : ℕ → ℕ
  next_cursor = Served.next_cursor inst id limit poll_wait rounds db row g h pos

  result_served : get_task_result inst id db ≡ found (result_body row)
  unfolding get_task_result
  result_served = rw (get_task_result, g, ended) refl

  fallback-eq :
      (i : ℕ) (shown : List Event)
      → row_terminal_fallback (server inst id rounds db) i shown
        ≡ returned row.status (payload_or none row.result row.error) shown
  unfolding row_terminal_fallback
  fallback-eq i shown = rw (row_terminal_fallback, result_served) refl

  abbrev loop : ℕ → ℕ → ℕ → ℕ → List Event → Followed
  loop = follow_loop (server inst id rounds db) limit poll_wait none clock

  -- One round, for the events of a page and what it says of more.
  abbrev round : ℕ → ℕ → ℕ → ℕ → List Event → List Event → Bool → Followed
  round n i from polls shown es more =
      let (seen, payload) = read_events none none es in
      elim seen [
        | some status ↦ returned status payload (shown ++ es)
        | none ↦ elim (is_terminal row.status && not more) [
          | false ↦ loop n (suc i) (next_cursor from) 0 (shown ++ es)
          | true ↦ elim (leb 3 (suc polls)) [
            | true ↦ row_terminal_fallback (server inst id rounds db) i (shown ++ es)
            | false ↦ loop n (suc i) (next_cursor from) (suc polls) (shown ++ es)
          ]
        ]
      ]

  loop-step :
      (n i from polls : ℕ) (shown : List Event)
      → loop (suc n) i from polls shown
        ≡ round n i from polls shown (events (piece from)) (served from).has_more
  unfolding follow_loop past_deadline call_wait
  loop-step n i from polls shown =
      rw
        (
          follow_loop,
          Served.served-eq inst id limit poll_wait rounds db row g h pos i from poll_wait,
        )
        refl

  -- The last page: the final event is there, or the client asks again until it gives up.
  last_page :
      (n i from polls : ℕ) (shown : List Event)
      → ((i1 polls1 : ℕ) (shown1 : List Event)
          → polls1 ≤ 2
          → 4 ≤ n + polls1
          → loop n i1 (next_cursor from) polls1 shown1
            ≡ returned row.status (payload_or none row.result row.error) shown1)
      → polls ≤ 2
      → 4 ≤ suc n + polls
      → round n i from polls shown (events (rest from)) false
        ≡ returned row.status (final_answer row (rest from)) (shown ++ events (rest from))
  last_page n i from polls shown ih few fuel =
      elim (read_events-Closes row.status (rest from)
        (Closes-drop row.status (pred from) (events_of id db.events) closes)) [
          | inr r ↦ rw (r, round, final_answer) refl
          | inl r ↦
              rw (r, round, final_answer, ended)
                (elim (Bool-cases (leb 3 (suc polls))) [
                  | inl e ↦ rw e (fallback-eq i (shown ++ events (rest from)))
                  | inr e ↦ rw e (
                      ih (suc i) (suc polls) (shown ++ events (rest from)) (ground (arith, e))
                        (omega arith))
                ])
        ]

  nothing_left :
      (shown : List Event) (es : List DbEvent)
      → es ≡ []
      → returned row.status (final_answer row es) (shown ++ events es)
        ≡ returned row.status (payload_or none row.result row.error) shown
  unfolding read_events
  nothing_left shown es e =
      ap (λ l. returned row.status (final_answer row l) (shown ++ events l)) e
      ∙ ap (returned row.status (payload_or none row.result row.error)) (append-nil shown)

  -- A page with more behind it.
  inner_page :
      (n i from polls : ℕ) (shown : List Event)
      → limit < length (rest from)
      → loop n (suc i) (next_cursor from) 0 (shown ++ events (piece from))
        ≡ returned row.status
            (final_answer row (drop limit (rest from)))
            ((shown ++ events (piece from)) ++ events (drop limit (rest from)))
      → round n i from polls shown (events (piece from)) true
        ≡ returned row.status (final_answer row (rest from)) (shown ++ events (rest from))
  inner_page n i from polls shown lt ih =
      let rs = rest from in
      let tape = Closes-drop row.status (pred from) (events_of id db.events) closes in
      rw (read_events-take row.status limit rs tape lt, round, ended)
        (ih
          ∙ (ap
                (λ (r : Option TaskStatus × Option Json).
                  returned row.status
                    (elim r.0 [ none ↦ payload_or none row.result row.error | some st ↦ r.1 ])
                    ((shown ++ events (take limit rs)) ++ events (drop limit rs)))
                (read_events-drop row.status limit rs tape lt)
              ∙ ap (returned row.status (final_answer row rs)) (
                  append_assoc shown (events (take limit rs)) (events (drop limit rs))
                  ∙ ap (λ l. shown ++ l)
                      (sym (map-append (λ (e : DbEvent). e.event) (take limit rs) (drop limit rs))
                        ∙ ap events (take-append-drop limit rs)))))

  follow-rest :
      (n i from polls : ℕ) (shown : List Event)
      → polls ≤ 2
      → 4 * length (rest from) + 4 ≤ n + polls
      → loop n i from polls shown
        ≡ returned row.status (final_answer row (rest from)) (shown ++ events (rest from))
  follow-rest ℕ.zero i from polls shown few fuel = absurd (omega arith)
  follow-rest (suc n) i from polls shown few fuel =
      loop-step n i from polls shown ∙ elim (Bool-cases (leb (length (rest from)) limit)) [
        | inl e ↦
            let le : length (rest from) ≤ limit = ground (arith, e) in
            let full : piece from ≡ rest from = take_of_long limit (rest from) le in
            let gone : rest (next_cursor from) ≡ [] =
              Served.rest-next_cursor inst id limit poll_wait rounds db row g h pos from
              ∙ (ap (λ l. drop (length l) (rest from)) full ∙ drop_all (rest from)) in
            ap (λ l. round n i from polls shown (events l) (served from).has_more) full
            ∙ (ap (round n i from polls shown (events (rest from)))
                  (Served.has_more_short inst id limit poll_wait rounds db row g h pos from le)
                ∙ last_page n i from polls shown
                    (λ i1 polls1 shown1 p f.
                      follow-rest n i1 (next_cursor from) polls1 shown1 p
                        (omega (arith, ap length gone, f))
                      ∙ nothing_left shown1 (rest (next_cursor from)) gone)
                    few (omega arith))
        | inr e ↦
            let lt : limit < length (rest from) = ground (arith, e) in
            let size : length (piece from) ≡ limit = omega (
              arith,
              Served.size_at inst id limit poll_wait rounds db row g h pos from,
              length-drop (pred from) (events_of id db.events),
            ) in
            let behind : rest (next_cursor from) ≡ drop limit (rest from) =
              Served.rest-next_cursor inst id limit poll_wait rounds db row g h pos from
              ∙ ap (λ k. drop k (rest from)) size in
            ap (round n i from polls shown (events (piece from)))
              (Served.has_more_long inst id limit poll_wait rounds db row g h pos from lt)
            ∙ inner_page n i from polls shown lt (
                follow-rest n (suc i) (next_cursor from) 0 (shown ++ events (piece from))
                  (omega arith)
                  (omega (arith, ap length behind, length-drop limit (rest from), pos))
                ∙ ap
                    (λ l.
                      returned row.status (final_answer row l)
                        ((shown ++ events (piece from)) ++ events l))
                    behind)
      ]

  -- The task has ended, nothing more is written, only the last event of its tape may be final, and
  -- if so with the status of the row. Then the client, which gives no deadline, comes to an end
  -- within four requests for each event and four more. It returns the status of the row and has
  -- rendered each event of the tape once and in order. The payload is that of the final event, and
  -- that of the row if there is none.
  pub follow_to_terminal-settled :
      (fuel : ℕ)
      → 4 * length (events_of id db.events) + 4 ≤ fuel
      → follow_to_terminal (server inst id rounds db) limit poll_wait none clock fuel
        ≡ returned row.status
            (final_answer row (events_of id db.events))
            (events (events_of id db.events))
  unfolding follow_to_terminal
  follow_to_terminal-settled fuel enough = follow-rest fuel 0 0 0 [] (omega arith) (omega arith)
