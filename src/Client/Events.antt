-- ===== src/Client/Events.antt =====
-- What `follow_to_terminal` reads from a tape that has no final event, or one at its end.
use dikw_core.Prelude.{
  ℕ, suc, ◌<◌, ◌≡◌, refl, sym, ◌∙◌, ap, inl, inr, ◌⊎◌, false, none, some, List, [], ◌∷◌, map, arith,
  take, drop, length,
}
use dikw_core.Tasks.Model.{
  TaskStatus, is_final, Event, Body, task_started, progress, log, partial, final, DbEvent,
}
use dikw_core.Client.Follow.{read_events}

abbrev pub events : List DbEvent → List Event
events es = map (λ (e : DbEvent). e.event) es

-- A body that is final says the status.
abbrev pub Tells : TaskStatus → Body → Type 0
Tells st (final s r x) = s ≡ st
Tells st _ = Unit

-- Only the last event may be final, with the status given.
abbrev pub Closes : TaskStatus → List DbEvent → Type 0
Closes st [] = Unit
Closes st (e ∷ []) = Tells st e.body
Closes st (e ∷ f ∷ es) = (is_final e.body ≡ false) × Closes st (f ∷ es)

pub Closes-drop :
    (st : TaskStatus) (n : ℕ) (es : List DbEvent) → Closes st es → Closes st (drop n es)
Closes-drop st ℕ.zero es h = h
Closes-drop st (suc n) [] h = tt
Closes-drop st (suc n) (e ∷ []) h = Closes-drop st n [] tt
Closes-drop st (suc n) (e ∷ f ∷ es) h = Closes-drop st n (f ∷ es) h.1

-- An event that is not final is passed over.
read_events-skip :
    (e : Event) (es : List Event)
    → is_final e.body ≡ false
    → read_events none none (e ∷ es) ≡ read_events none none es
unfolding read_events is_final
read_events-skip e es h = ground (arith, h)

pub read_events-take :
    (st : TaskStatus) (n : ℕ) (es : List DbEvent)
    → Closes st es
    → n < length es
    → read_events none none (events (take n es)) ≡ (none, none)
unfolding read_events
read_events-take st ℕ.zero es h lt = refl
read_events-take st (suc n) [] h lt = absurd (omega arith)
read_events-take st (suc ℕ.zero) (e ∷ []) h lt = absurd (omega arith)
read_events-take st (suc (suc n)) (e ∷ []) h lt = absurd (omega arith)
read_events-take st (suc n) (e ∷ f ∷ es) h lt =
    read_events-skip e.event (events (take n (f ∷ es))) h.0
    ∙ read_events-take st n (f ∷ es) h.1 (omega arith)

pub read_events-drop :
    (st : TaskStatus) (n : ℕ) (es : List DbEvent)
    → Closes st es
    → n < length es
    → read_events none none (events (drop n es)) ≡ read_events none none (events es)
read_events-drop st ℕ.zero es h lt = refl
read_events-drop st (suc n) [] h lt = absurd (omega arith)
read_events-drop st (suc n) (e ∷ []) h lt = absurd (omega arith)
read_events-drop st (suc n) (e ∷ f ∷ es) h lt =
    read_events-drop st n (f ∷ es) h.1 (omega arith)
    ∙ sym (read_events-skip e.event (events (f ∷ es)) h.0)

-- A tape is read as having no final event, or the status that it tells.
read_one :
    (st : TaskStatus) (b : Body) (e : DbEvent)
    → e.body ≡ b
    → Tells st b
    → ((read_events none none (events (e ∷ []))).0 ≡ none)
      ⊎ ((read_events none none (events (e ∷ []))).0 ≡ some st)
unfolding read_events
read_one st (task_started a b) e q h = rw q (inl refl)
read_one st (progress a b c d) e q h = rw q (inl refl)
read_one st (log a b) e q h = rw q (inl refl)
read_one st (partial a b) e q h = rw q (inl refl)
read_one st (final s r x) e q h = rw q (inr (ap some h))

pub read_events-Closes :
    (st : TaskStatus) (es : List DbEvent)
    → Closes st es
    → ((read_events none none (events es)).0 ≡ none)
      ⊎ ((read_events none none (events es)).0 ≡ some st)
unfolding read_events
read_events-Closes st [] h = inl refl
read_events-Closes st (e ∷ []) h = read_one st e.body e refl h
read_events-Closes st (e ∷ f ∷ es) h =
    rw (read_events-skip e.event (events (f ∷ es)) h.0) (read_events-Closes st (f ∷ es) h.1)
