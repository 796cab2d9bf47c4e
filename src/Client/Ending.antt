-- ===== src/Client/Ending.antt =====
-- `follow_to_terminal` comes to an end, whatever the transport serves before the task has ended.
use dikw_core.Prelude.{
  ℕ, suc, ◌+◌, ◌-◌, ◌≤◌, ◌≡◌, ◌≢◌, ◌⊎◌, inl, inr, true, false, not, ◌&&◌, Option, none, some, List,
  [], arith, leb, Bool-cases, Option-cases,
}
use dikw_core.Tasks.Model.{is_terminal, Event}
use dikw_core.Tasks.Routes.{EventsPage}
use dikw_core.Client.Follow.{
  Transport, Followed, still_running, read_events, past_deadline, call_wait, row_terminal_fallback,
  follow_loop, follow_to_terminal,
}

fallback-ends :
    (t : Transport) (i : ℕ) (shown : List Event) → row_terminal_fallback t i shown ≢ still_running
unfolding row_terminal_fallback
fallback-ends t i shown = elim (Option-cases (t.get_result i)) [
  | inl e ↦ rw (row_terminal_fallback, e) (λ q. cc)
  | inr (b, e) ↦ rw (row_terminal_fallback, e) (λ q. cc)
]

module _ (t : Transport) (page_limit poll_wait : ℕ) (deadline : Option ℕ) (clock : ℕ → ℕ) where
  -- In this round the deadline has passed, or every page says that the task has ended and that no
  -- more events are there.
  abbrev pub IsOver : ℕ → Type 0
  IsOver i =
      (past_deadline t page_limit poll_wait deadline clock i ≡ true)
      ⊎ ((from : ℕ) (p : EventsPage)
          → t.get_task_events_page i from page_limit
              (call_wait t page_limit poll_wait deadline clock i)
            ≡ some p
          → (is_terminal p.task_status && not p.has_more) ≡ true)

  abbrev loop : ℕ → ℕ → ℕ → ℕ → List Event → Followed
  loop = follow_loop t page_limit poll_wait deadline clock

  -- A round ends the call or goes on to the next, and then with one poll more where it is over.
  loop-step :
      (n i cursor polls : ℕ) (shown : List Event)
      → (leb 3 (suc polls) ≡ false
          → (next : ℕ) (all : List Event) → loop n (suc i) next (suc polls) all ≢ still_running)
      → (IsOver i ⊎ ((next : ℕ) (all : List Event) → loop n (suc i) next 0 all ≢ still_running))
      → loop (suc n) i cursor polls shown ≢ still_running
  unfolding follow_loop
  loop-step n i cursor polls shown up back =
      let wait = call_wait t page_limit poll_wait deadline clock i in
      elim (Bool-cases (past_deadline t page_limit poll_wait deadline clock i)) [
        | inl e ↦ rw (follow_loop, e) (λ q. cc)
        | inr e ↦ elim (Option-cases (t.get_task_events_page i cursor page_limit wait)) [
          | inl p ↦ rw (follow_loop, e, p) (λ q. cc)
          | inr (page, p) ↦ elim (Option-cases (read_events none none page.events).0) [
            | inr (st, r) ↦ rw (follow_loop, e, p, r) (λ q. cc)
            | inl r ↦ elim (Bool-cases (is_terminal page.task_status && not page.has_more)) [
              | inl k ↦ elim (Bool-cases (leb 3 (suc polls))) [
                | inl l ↦ rw (follow_loop, e, p, r, k, l) (fallback-ends t i _)
                | inr l ↦ rw (follow_loop, e, p, r, k, l) (up l _ _)
              ]
              | inr k ↦ elim back [
                | inl over ↦ elim over [
                  | inl late ↦ absurd (cc)
                  | inr f ↦ let m = f cursor page p in absurd (cc)
                ]
                | inr go ↦ rw (follow_loop, e, p, r, k) (go _ _)
              ]
            ]
          ]
        ]
      ]

  module _ (last : ℕ) (over : (i : ℕ) → last ≤ i → IsOver i) where
    loop-over :
        (n i cursor polls : ℕ) (shown : List Event)
        → last ≤ i
        → polls ≤ 2
        → 3 ≤ n + polls
        → loop n i cursor polls shown ≢ still_running
    loop-over ℕ.zero i cursor polls shown le few fuel = absurd (omega arith)
    loop-over (suc n) i cursor polls shown le few fuel =
        loop-step n i cursor polls shown
          (λ l next all.
            loop-over n (suc i) next (suc polls) all (omega arith) (ground (arith, l))
              (omega arith))
          (inl (over i le))

    loop-ends :
        (n i cursor polls : ℕ) (shown : List Event)
        → polls ≤ 2
        → last - i + 3 ≤ n
        → loop n i cursor polls shown ≢ still_running
    loop-ends ℕ.zero i cursor polls shown few fuel = absurd (omega arith)
    loop-ends (suc n) i cursor polls shown few fuel = elim (Bool-cases (leb last i)) [
      | inl e ↦ loop-over (suc n) i cursor polls shown (ground (arith, e)) few (omega arith)
      | inr e ↦
          loop-step n i cursor polls shown
            (λ l next all.
              loop-ends n (suc i) next (suc polls) all (ground (arith, l)) (ground (arith, e)))
            (inr (λ next all. loop-ends n (suc i) next 0 all (omega arith) (ground (arith, e))))
    ]

    -- If from round `last` on the deadline has passed, or every page says that the task has ended
    -- and that no more events are there, then the call ends within three rounds more, whatever is
    -- served before, and with a final event or without.
    pub follow_to_terminal-ends :
        (fuel : ℕ)
        → last + 3 ≤ fuel
        → follow_to_terminal t page_limit poll_wait deadline clock fuel ≢ still_running
    unfolding follow_to_terminal
    follow_to_terminal-ends fuel enough = loop-ends fuel 0 0 0 [] (omega arith) (omega arith)
