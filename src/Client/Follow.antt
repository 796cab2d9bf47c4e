-- ===== src/Client/Follow.antt =====
-- `follow_to_terminal` of client/task_follow.py. The transport is a function of the round, since the
-- server goes on between two requests; `none` is a request that raises. A page is the server's.
use dikw_core.Prelude.{
  ℕ, suc, ◌-◌, ◌/◌, min, Bool, true, false, not, ◌&&◌, Option, none, some, List, [], ◌∷◌, ◌++◌,
  if◌then◌else◌, leb, ◌==◌,
}
use dikw_core.Tasks.Model.{Json, obj, TaskStatus, is_terminal, Event, final}
use dikw_core.Tasks.Routes.{EventsPage, TaskResultBody}

pub record Transport : Type 0 where
  -- the round, `from_seq`, `limit` and `wait`
  pub get_task_events_page : ℕ → ℕ → ℕ → ℕ → Option EventsPage
  -- `get_json` on the result of the task
  pub get_result : ℕ → Option TaskResultBody

-- How the call ends, with the events that the renderer got.
pub data Followed : Type 0 where
  returned : TaskStatus → Option Json → List Event → Followed
  timed_out : List Event → Followed
  request_failed : List Event → Followed
  still_running : Followed

-- The result if it is a dict, the error if that is one, or else what was there.
abbrev pub payload_or : Option Json → Option Json → Option Json → Option Json
payload_or old (some (obj fs)) e = some (obj fs)
payload_or old _ (some (obj fs)) = some (obj fs)
payload_or old _ _ = old

-- The loop over the events of a page, with `final_status` and `final_payload`
unfoldable pub read_events :
    Option TaskStatus → Option Json → List Event → Option TaskStatus × Option Json
read_events st pl [] = (st, pl)
read_events st pl (e ∷ es) = elim e.body [
  | final s r x ↦ read_events (some s) (payload_or pl r x) es
  | _ ↦ read_events st pl es
]

unfoldable pub row_terminal_fallback : Transport → ℕ → List Event → Followed
row_terminal_fallback t i rendered = elim (t.get_result i) [
  | none ↦ request_failed rendered
  | some body ↦ returned body.status (payload_or none body.result body.error) rendered
]

-- `deadline` and `clock` in milliseconds; `clock i` is the time at the start of round `i`.
module _ (t : Transport) (page_limit poll_wait : ℕ) (deadline : Option ℕ) (clock : ℕ → ℕ) where
  unfoldable pub past_deadline : ℕ → Bool
  past_deadline i = elim deadline [ none ↦ false | some d ↦ leb d (clock i) ]

  unfoldable pub call_wait : ℕ → ℕ
  call_wait i = elim deadline [ none ↦ poll_wait | some d ↦ min poll_wait ((d - clock i) / 1000) ]

  -- Fuel, the round, `cursor`, `terminal_without_final_polls`, and what has been rendered
  unfoldable pub follow_loop : ℕ → ℕ → ℕ → ℕ → List Event → Followed
  unfolding past_deadline call_wait read_events row_terminal_fallback is_terminal
  follow_loop ℕ.zero i cursor polls rendered = still_running
  follow_loop (suc n) i cursor polls rendered = elim (past_deadline i) [
    | true ↦ timed_out rendered
    | false ↦ elim (t.get_task_events_page i cursor page_limit (call_wait i)) [
      | none ↦ request_failed rendered
      | some page ↦
          let shown = rendered ++ page.events in
          let next = if page.next_from_seq == 0 then cursor else page.next_from_seq in
          let (seen, payload) = read_events none none page.events in
          elim seen [
            | some status ↦ returned status payload shown
            | none ↦ elim (is_terminal page.task_status && not page.has_more) [
              | false ↦ follow_loop n (suc i) next 0 shown
              | true ↦ elim (leb 3 (suc polls)) [
                | true ↦ row_terminal_fallback t i shown
                | false ↦ follow_loop n (suc i) next (suc polls) shown
              ]
            ]
          ]
    ]
  ]

  unfoldable pub follow_to_terminal : ℕ → Followed
  unfolding follow_loop
  follow_to_terminal fuel = follow_loop fuel 0 0 0 []
