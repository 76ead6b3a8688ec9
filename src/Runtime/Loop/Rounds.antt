-- ===== src/Runtime/Loop/Rounds.antt =====
-- What a round of the loop keeps, and how it may end the run.
use gm_agent.Prelude.{
  ℕ, zero, suc, ◌+◌, ◌%◌, ◌≡◌, refl, ◌⊎◌, inl, inr, false, Option, none, some, List, [], ◌∷◌, any,
  eqb, arith, Bool-cases, Option-cases,
}
use gm_agent.Prelude.Result.{value, failed}
use gm_agent.Types.State.{ContextWindow, Goal, is_active}
use gm_agent.Types.Event.{Event}
use gm_agent.Types.Command.{Command}
use mathlib.Core.Path.{subst}
use gm_agent.Types.Clone.{clone}
use gm_agent.Runtime.Core.{
  get_current_mode, swap_pending_commands, Runtime, select_goal, apply_events,
}
use gm_agent.Runtime.Core.Laws.{
  Keeps, Keeps-refl, Keeps-trans, Keeps-draws, apply_events-Keeps, select_goal-eq-none,
}
use gm_agent.Runtime.Services.{Services}
use gm_agent.Runtime.Dispatcher.{Outcome, dispatch}
use gm_agent.Runtime.Loop.{
  settle, ask_model, collect_changes, observe, Exit, finished, stopped, crashed, Round, go_on, exit,
  decide, checkpoint, periodic, act_on, pursue, graceful_shutdown, take_turn,
}
use gm_agent.External.{External}

-- How a run may end, where `C` says that it was cancelled: a clean end is a cancellation, or leaves no
-- active goal and no command; a crash is an interval of 0, or a question to the model without a context.
abbrev pub Justified : Type 0 → Exit → Runtime → Type 0
Justified C finished r = C ⊎ ((r.pending_commands ≡ []) × (any is_active r.state.goals ≡ false))
Justified C (stopped x) r = Unit
Justified C (crashed p) r = (r.config.checkpoint_interval ≡ 0) ⊎ (r.state.context ≡ none)

-- A round keeps what never changes, and ends the run only where it may.
abbrev pub IsSound : {W : Type 0} → Type 0 → Runtime → Round W → Type 0
IsSound C r (go_on r' w) = Keeps r r'
IsSound C r (exit x r' w) = Keeps r r' × Justified C x r'

pub Round-cases :
    {W : Type 0} (x : Round W)
    → ((r : Runtime) × (w : W) × (x ≡ go_on r w))
      ⊎ ((e : Exit) × (r : Runtime) × (w : W) × (x ≡ exit e r w))
Round-cases (go_on r w) = inl (r, w, refl)
Round-cases (exit e r w) = inr (e, r, w, refl)

module _ (ext : External) {W : Type 0} (srv : Services W) (C : Type 0) where
  IsSound-trans : {r s : Runtime} (x : Round W) → Keeps r s → IsSound C s x → IsSound C r x
  IsSound-trans (go_on t w) h k = Keeps-trans h k
  IsSound-trans (exit x t w) h (k, j) = (Keeps-trans h k, j)

  pub sound : (r : Runtime) {x y : Round W} → x ≡ y → IsSound C r x → IsSound C r y
  sound r e h = subst (IsSound C r) e h

  -- A checkpoint draws an identifier and leaves the runtime alone.
  checkpoint-eq :
      (r : Runtime) (w : W) → (checkpoint ext srv r w).1 ≡ record r { draws = r.draws + 1 }
  unfolding checkpoint
  checkpoint-eq r w =
      ground (
        arith,
        Option-cases (srv.store.save_state (clone r.state) (collect_changes ext srv r w).1).0,
      )

  periodic-IsSound :
      (i step : ℕ) (r : Runtime) (w : W)
      → r.config.checkpoint_interval ≡ i
      → IsSound C r (periodic ext srv i step r w)
  unfolding periodic
  periodic-IsSound zero step r w h = (Keeps-refl r, inl h)
  periodic-IsSound (suc i) step r w h = elim (Bool-cases (eqb (step % suc i) 0)) [
    | inl due ↦ rw (due, periodic) (rw checkpoint-eq (Keeps-draws r (r.draws + 1)))
    | inr early ↦ rw (early, periodic) (Keeps-refl r)
  ]

  observe-IsSound :
      (events : List Event) (step : ℕ) (r : Runtime) (w : W)
      → IsSound C r (observe ext srv events step r w)
  unfolding observe
  observe-IsSound events step r w = elim (Option-cases (apply_events ext events r).0) [
    | inl fine ↦
        rw (fine, observe)
          (IsSound-trans _ (apply_events-Keeps ext events r)
            (periodic-IsSound _ step (apply_events ext events r).1 w refl))
    | inr (x, failure) ↦ rw (failure, observe) (apply_events-Keeps ext events r, tt)
  ]

  settle-IsSound : (o : Outcome W) (step : ℕ) (r : Runtime) → IsSound C r (settle ext srv o step r)
  unfolding settle
  settle-IsSound o step r = IsSound-trans (settle ext srv o step r) (Keeps-draws r o.draws) (
      observe-IsSound (elim o.events [ value es ↦ es | failed x ↦ [] ]) step
        (record r { draws = o.draws }) o.world)

  act_on-IsSound :
      (cmds : List Command) (step : ℕ) (r : Runtime) (w : W)
      → IsSound C r (act_on ext srv cmds step r w)
  unfolding act_on
  act_on-IsSound cmds step r w =
      settle-IsSound (dispatch ext srv (get_current_mode r) cmds r.draws w) step r

  ask_model-IsSound :
      (c : Option ContextWindow) (g : Goal) (step : ℕ) (r : Runtime) (w : W)
      → r.state.context ≡ c
      → IsSound C r (ask_model ext srv c g step r w)
  unfolding ask_model decide
  ask_model-IsSound none g step r w missing = (Keeps-refl r, inr missing)
  ask_model-IsSound (some c) g step r w there =
      let (cmd, r') = decide ext srv g r w in
      IsSound-trans (act_on ext srv (cmd ∷ []) step r' w) (Keeps-draws r (r.draws + 1))
        (act_on-IsSound (cmd ∷ []) step r' w)

  pursue-IsSound :
      (o : Option Goal) (step : ℕ) (r : Runtime) (w : W)
      → select_goal r ≡ o
      → r.pending_commands ≡ []
      → IsSound C r (pursue ext srv o step r w)
  unfolding pursue decide
  pursue-IsSound none step r w nothing idle =
      rw checkpoint-eq (Keeps-draws r (r.draws + 1), inr (idle, select_goal-eq-none r nothing))
  pursue-IsSound (some g) step r w chosen idle = ask_model-IsSound r.state.context g step r w refl

  take_turn-IsSound :
      (cmds : List Command) (step : ℕ) (r : Runtime) (w : W)
      → r.pending_commands ≡ []
      → IsSound C r (take_turn ext srv cmds step r w)
  unfolding take_turn
  take_turn-IsSound [] step r w idle = pursue-IsSound (select_goal r) step r w refl idle
  take_turn-IsSound (c ∷ cs) step r w idle = act_on-IsSound (c ∷ cs) step r w

  pub shutdown-IsSound : (r : Runtime) (w : W) → C → IsSound C r (graceful_shutdown ext srv r w)
  unfolding graceful_shutdown
  shutdown-IsSound r w cancelled = elim (Option-cases (checkpoint ext srv r w).0) [
    | inl fine ↦ rw (fine, checkpoint-eq) (Keeps-draws r (r.draws + 1), inl cancelled)
    | inr (x, failure) ↦ rw (failure, checkpoint-eq) (Keeps-draws r (r.draws + 1), tt)
  ]

  Keeps-swap : (r : Runtime) → Keeps r (record r { pending_commands = [] })
  Keeps-swap r = record { mode = refl; plan_content = refl; config = refl; tracked = refl }

  pub swapped-IsSound :
      (step : ℕ) (r : Runtime) (w : W)
      → let (cmds, r') = swap_pending_commands r in IsSound C r (take_turn ext srv cmds step r' w)
  unfolding swap_pending_commands
  swapped-IsSound step r w =
      let (cmds, r') = swap_pending_commands r in
      IsSound-trans (take_turn ext srv cmds step r' w) (Keeps-swap r)
        (take_turn-IsSound cmds step r' w refl)
