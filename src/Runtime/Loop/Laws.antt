-- ===== src/Runtime/Loop/Laws.antt =====
-- How a run ends, and what it never changes.
use gm_agent.Prelude.{
  ℕ, zero, suc, ◌≡◌, sym, ap, ◌∙◌, ◌≢◌, ◌⊎◌, inl, inr, true, Option, none, Bool-cases, Option-cases,
}
use gm_agent.Prelude.Result.{Error, value, Reply-cases}
use gm_agent.Types.Event.{Event}
use gm_agent.Runtime.Core.{Runtime, apply_event}
use gm_agent.Runtime.Core.Laws.{Keeps, Keeps-refl, Keeps-trans}
use gm_agent.Runtime.Services.{Services}
use gm_agent.Runtime.Loop.{
  Exit, finished, stopped, crashed, go_on, round, run_rounds, recover, run, ingest,
}
use gm_agent.Runtime.Loop.Rounds.{
  Justified, IsSound, Round-cases, sound, shutdown-IsSound, swapped-IsSound,
}
use gm_agent.External.{External}

module _ (ext : External) {W : Type 0} (srv : Services W) where
  -- After some rounds from the first runtime and world, a round begins at the second ones.
  pub data Reaches : ℕ → Runtime → W → Runtime → W → Type 0 where
    here : (step : ℕ) (r : Runtime) (w : W) → Reaches step r w r w
    after :
        {step : ℕ} {r r' v : Runtime} {w w' u : W}
        → round ext srv step r w ≡ go_on r' w'
        → Reaches (suc step) r' w' v u
        → Reaches step r w v u

  -- The context was cancelled at the begin of some round.
  abbrev pub IsCancelled : ℕ → Runtime → W → Type 0
  IsCancelled step r w = (v : Runtime) × (u : W) × Reaches step r w v u × (srv.done u ≡ true)

  round-IsSound :
      (C : Type 0) (step : ℕ) (r : Runtime) (w : W)
      → (srv.done w ≡ true → C)
      → IsSound C r (round ext srv step r w)
  unfolding round
  round-IsSound C step r w why = elim (Bool-cases (srv.done w)) [
    | inl cancelled ↦ rw (cancelled, round) (shutdown-IsSound ext srv C r w (why cancelled))
    | inr going ↦ rw (going, round) (swapped-IsSound ext srv C step r w)
  ]

  -- Another reason for a clean end may take the place of the first.
  Justified-map :
      (C D : Type 0) (x : Exit) (r : Runtime) → (C → D) → Justified C x r → Justified D x r
  Justified-map C D finished r f (inl c) = inl (f c)
  Justified-map C D finished r f (inr idle) = inr idle
  Justified-map C D (stopped x) r f h = tt
  Justified-map C D (crashed p) r f h = h

  rounds-IsSound :
      (left step : ℕ) (r : Runtime) (w : W)
      → Keeps r (run_rounds ext srv left step r w).1
        × Justified
            (IsCancelled step r w)
            (run_rounds ext srv left step r w).0
            (run_rounds ext srv left step r w).1
  unfolding run_rounds
  rounds-IsSound zero step r w = (Keeps-refl r, tt)
  rounds-IsSound (suc left) step r w = elim (Round-cases (round ext srv step r w)) [
    | inl (r', w', goes) ↦
        let kept : Keeps r r' = sound ext srv Unit r goes (round-IsSound Unit step r w (λ _. tt)) in
        let (later, why) = rounds-IsSound left (suc step) r' w' in
        rw (goes, run_rounds)
          (
            Keeps-trans kept later,
            Justified-map (IsCancelled (suc step) r' w') (IsCancelled step r w) _ _
                (λ (v, u, reached, done). (v, u, after goes reached, done)) why,
          )
    | inr (x, r', w', ends) ↦
        rw (ends, run_rounds)
          (sound ext srv (IsCancelled step r w) r ends
            (round-IsSound (IsCancelled step r w) step r w (λ done. (r, w, here step r w, done))))
  ]

-- However many rounds it runs, a run never changes the mode, the plan or the configuration of the
-- runtime that `recover` leaves. It ends cleanly only where one of its rounds began with the context
-- cancelled, or with no command pending and no goal active; it crashes only at a checkpoint interval of
-- 0 or where the state has no context.
pub run-Justified :
    (ext : External) {W : Type 0} (srv : Services W) (r : Runtime) (w : W)
    → Keeps (recover ext srv r w).1 (run ext srv r w).1
      × Justified
          (IsCancelled ext srv 0 (recover ext srv r w).1 w)
          (run ext srv r w).0
          (run ext srv r w).1
unfolding run
run-Justified ext srv r w = elim (Option-cases (recover ext srv r w).0) [
  | inl fine ↦ rw (fine, run) (rounds-IsSound ext srv _ 0 (recover ext srv r w).1 w)
  | inr (x, failure) ↦ rw (failure, run) (Keeps-refl _, tt)
]

module _ {W : Type 0} {o o' : Option Error} {r r' : Runtime} {w w' : W}
    (h : ◌≡◌ {A = Option Error × Runtime × W} (o, r, w) (o', r', w')) where
  same_error : o ≡ o'
  same_error = ap (λ (t : Option Error × Runtime × W). t.0) h

  same_runtime : r ≡ r'
  same_runtime = ap (λ (t : Option Error × Runtime × W). t.1) h

  same_world : w ≡ w'
  same_world = ap (λ (t : Option Error × Runtime × W). t.2) h

-- The intake of an event that succeeds has logged the event first, then applied it to the runtime,
-- then saved exactly the state that the runtime holds; one that fails leaves the runtime as it was,
-- unless it was the saving that failed.
pub ingest_order :
    (ext : External) {W : Type 0} (srv : Services W) (e : Event) (r r' : Runtime) (w w' : W)
    (o : Option Error)
    → ingest ext srv e r w ≡ (o, r', w')
    → ((w1 : W) × (srv.store.append_event e w ≡ (none, w1))
        × (apply_event ext e r ≡ value r')
        × (srv.store.save_state r'.state w1 ≡ (o, w')))
      ⊎ ((o ≢ none) × (r' ≡ r))
unfolding ingest
ingest_order ext srv e r r' w w' o h =
    let (failure, w1) = srv.store.append_event e w in
    elim (Option-cases failure) [
      | inr (x, fails) ↦
          let h' = rw (fails, ingest) at h in
          inr (λ p. cc (same_error h', p), sym (same_runtime h'))
      | inl logged ↦ elim (Reply-cases (apply_event ext e r)) [
        | inr (x, fails) ↦
            let h' = rw (logged, fails, ingest) at h in
            inr (λ p. cc (same_error h', p), sym (same_runtime h'))
        | inl (r1, done) ↦
            let h' = rw (logged, done, ingest) at h in
            inl (
              w1,
              λ i. (logged i, w1),
              done ∙ ap value (same_runtime h'),
              rw (← same_runtime h') (λ i. (same_error h' i, same_world h' i)),
            )
      ]
    ]
