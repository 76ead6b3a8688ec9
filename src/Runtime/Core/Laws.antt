-- ===== src/Runtime/Core/Laws.antt =====
-- What applying events does to a runtime.
use gm_agent.Prelude.{
  ℕ, ◌+◌, ◌%◌, ◌^◌, ◌<◌, ◌≡◌, refl, sym, ap, ◌∙◌, inl, inr, false, Option, none, some, List, [],
  ◌∷◌, ◌++◌, any, length, append-nil, append_assoc, arith,
}
use gm_agent.Prelude.Result.{Error, Reply, value, failed, Reply-cases, Result-cases}
use gm_agent.Types.State.{Goal, Message, is_active}
use gm_agent.Types.Event.{Event}
use gm_agent.Runtime.History.{messages_of}
use gm_agent.Runtime.Reducer.{Reduced, safe_reduce}
use gm_agent.Runtime.Reducer.Parts.{spoken}
use gm_agent.Runtime.Reducer.Laws.{Steps, reducer-Steps, safe_reduce-eq-ok}
use gm_agent.Runtime.Core.{Runtime, select_goal, first_active, install, apply_event, apply_events}
use gm_agent.External.{External}

abbrev pub spoken_all : List Event → List Message
spoken_all [] = []
spoken_all (e ∷ es) = spoken e ++ spoken_all es

-- What never changes while a runtime runs.
pub record Keeps (r r' : Runtime) : Type 0 where
  pub mode : r'.state.mode ≡ r.state.mode
  pub plan_content : r'.state.plan_content ≡ r.state.plan_content
  pub config : r'.config ≡ r.config
  pub tracked : r'.tracked ≡ r.tracked

pub Keeps-refl : (r : Runtime) → Keeps r r
Keeps-refl r = record { mode = refl; plan_content = refl; config = refl; tracked = refl }

pub Keeps-draws : (r : Runtime) (n : ℕ) → Keeps r (record r { draws = n })
Keeps-draws r n = record { mode = refl; plan_content = refl; config = refl; tracked = refl }

pub Keeps-trans : {r s t : Runtime} → Keeps r s → Keeps s t → Keeps r t
Keeps-trans h k = record {
  mode = k.mode ∙ h.mode;
  plan_content = k.plan_content ∙ h.plan_content;
  config = k.config ∙ h.config;
  tracked = k.tracked ∙ h.tracked;
}

module _ (ext : External) where
  apply_event-eq-value :
      (e : Event) (r r' : Runtime)
      → apply_event ext e r ≡ value r'
      → (d : Reduced) × Steps r.state d.state e × (r' ≡ install d r)
  unfolding apply_event
  apply_event-eq-value e r r' h = elim (Result-cases (safe_reduce ext r.state e r.draws)) [
    | inl (d, done) ↦ (
      d,
      reducer-Steps ext r.state e r.draws d (safe_reduce-eq-ok ext r.state e r.draws d done),
      ground arith,
    )
    | inr (inl (x, done)) ↦ absurd (never (rw (done, apply_event) at h))
    | inr (inr (p, done)) ↦ absurd (never (rw (done, apply_event) at h))
  ]
    where
      never : {x : Error} → ◌≡◌ {A = Reply Runtime} (failed x) (value r') → ⊥
      never q = cc

  apply_event-Keeps :
      (e : Event) (r r' : Runtime)
      → apply_event ext e r ≡ value r'
      → Keeps r r'
        × (messages_of r'.state ≡ messages_of r.state ++ spoken e)
        × (r'.state.version ≡ (r.state.version + 1) % 2 ^ 64)
  unfolding install
  apply_event-Keeps e r r' h =
      let (d, steps, same) = apply_event-eq-value e r r' h in
      rw same (
        record {
          mode = steps.mode;
          plan_content = steps.plan_content;
          config = refl;
          tracked = refl;
        },
        steps.messages,
        steps.version,
      )

  pub apply_events-Keeps : (es : List Event) (r : Runtime) → Keeps r (apply_events ext es r).1
  unfolding apply_events
  apply_events-Keeps [] r = Keeps-refl r
  apply_events-Keeps (e ∷ es) r = elim (Reply-cases (apply_event ext e r)) [
    | inl (r', done) ↦
        rw (done, apply_events)
          (Keeps-trans (apply_event-Keeps e r r' done).0 (apply_events-Keeps es r'))
    | inr (x, done) ↦ rw (done, apply_events) (Keeps-refl r)
  ]

  no_failure :
      {x : Error} {r r' : Runtime} → ◌≡◌ {A = Option Error × Runtime} (some x, r) (none, r') → ⊥
  no_failure h = cc (ap (λ (t : Option Error × Runtime). t.0) h)

  apply_events_steps :
      (es : List Event) (r r' : Runtime)
      → r.state.version < 2 ^ 64
      → apply_events ext es r ≡ (none, r')
      → (messages_of r'.state ≡ messages_of r.state ++ spoken_all es)
        × (r'.state.version ≡ (r.state.version + length es) % 2 ^ 64)
  unfolding apply_events
  apply_events_steps [] r r' bound h =
      let same : r ≡ r' = ap (λ (t : Option Error × Runtime). t.1) h in
      rw (← same) (sym (append-nil (messages_of r.state)), omega arith)
  apply_events_steps (e ∷ es) r r' bound h = elim (Reply-cases (apply_event ext e r)) [
    | inl (r1, done) ↦
        let (kept, messages, version) = apply_event-Keeps e r r1 done in
        let (messages', version') =
          apply_events_steps es r1 r' (omega (arith, version)) (rw (done, apply_events) at h) in
        (
          messages'
              ∙ ap (λ ms. ms ++ spoken_all es) messages
              ∙ append_assoc (messages_of r.state) (spoken e) (spoken_all es),
          omega (arith, version, version'),
        )
    | inr (x, done) ↦ absurd (no_failure (rw (done, apply_events) at h))
  ]

-- Events that are all applied add their messages to the conversation, in order, and their number to
-- the version, modulo 2^64; the mode and the plan stay as they are, whatever the events, and also
-- where an event stops the loop.
pub apply_events_effect :
    (ext : External) (es : List Event) (r : Runtime)
    → r.state.version < 2 ^ 64
    → Keeps r (apply_events ext es r).1
      × ((apply_events ext es r).0 ≡ none
          → (messages_of (apply_events ext es r).1.state ≡ messages_of r.state ++ spoken_all es)
            × ((apply_events ext es r).1.state.version ≡ (r.state.version + length es) % 2 ^ 64))
apply_events_effect ext es r bound = (
  apply_events-Keeps ext es r,
  λ fine.
      apply_events_steps ext es r (apply_events ext es r).1 bound
        (λ i. (fine i, (apply_events ext es r).1)),
)

first_active-eq-none : (gs : List Goal) → first_active gs ≡ none → any is_active gs ≡ false
unfolding first_active any
first_active-eq-none [] h = refl
first_active-eq-none (g ∷ gs) h = ground (arith, first_active-eq-none gs)

-- No goal is selected only where none is active.
pub select_goal-eq-none : (r : Runtime) → select_goal r ≡ none → any is_active r.state.goals ≡ false
unfolding select_goal
select_goal-eq-none r h = first_active-eq-none r.state.goals h
