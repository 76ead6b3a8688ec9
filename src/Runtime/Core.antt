-- ===== src/Runtime/Core.antt =====
-- The fields of `Runtime` and the small operations of pkg/runtime/runtime.go on them. The lock is
-- not modelled: each operation is one step.
pub mod Laws
use gm_agent.Prelude.{ℕ, String, Bool, Option, none, some, List, [], ◌∷◌, ◌++◌, ◌==◌, if◌then◌else◌}
use gm_agent.Prelude.Result.{Error, Reply, value, failed, ok, err, panic, message}
use gm_agent.Types.Tool.{RuntimeMode, mode_executing}
use gm_agent.Types.State.{Goal, State, is_active}
use gm_agent.Types.Event.{Event}
use gm_agent.Types.Command.{Command}
use gm_agent.Runtime.Reducer.{Reduced, safe_reduce}
use gm_agent.External.{External}

-- The timeouts of Go's `Config` act through the world, when a call to it fails. A step bound
-- below zero acts as 0, and an interval below zero as its absolute value.
pub record Config : Type 0 where
  pub max_steps : ℕ
  pub checkpoint_interval : ℕ
  pub model : String

-- `draws` is the number of the next identifier; `tracked` says whether there is a tracker.
pub record Runtime : Type 0 where
  pub config : Config
  pub state : State
  pub pending_commands : List Command
  pub tracked : Bool
  pub draws : ℕ

unfoldable pub swap_pending_commands : Runtime → List Command × Runtime
swap_pending_commands r = (r.pending_commands, record r { pending_commands = [] })

unfoldable pub append_pending_commands : List Command → Runtime → Runtime
append_pending_commands cmds r = record r { pending_commands = r.pending_commands ++ cmds }

unfoldable pub update_state : State → Runtime → Runtime
update_state s r = record r { state = s }

unfoldable pub get_current_mode : Runtime → RuntimeMode
get_current_mode r = if r.state.mode == "" then mode_executing else r.state.mode

first_active : List Goal → Option Goal
unfolding is_active
first_active [] = none
first_active (g ∷ gs) = if is_active g then some g else first_active gs

unfoldable pub select_goal : Runtime → Option Goal
unfolding first_active
select_goal r = first_active r.state.goals

-- The state and the pending commands after a step of the reducer.
unfoldable pub install : Reduced → Runtime → Runtime
unfolding update_state append_pending_commands
install d r =
    append_pending_commands d.commands (record (update_state d.state r) { draws = d.draws })

-- `applyEvent` and `applyEventLocked`: an error leaves the runtime as it was.
unfoldable pub apply_event : External → Event → Runtime → Reply Runtime
unfolding install
apply_event ext e r = elim (safe_reduce ext r.state e r.draws) [
  | ok d ↦ value (install d r)
  | err x ↦ failed x
  | panic p ↦ failed (message p)
]

-- The loops that observe events; they end at the first error.
unfoldable pub apply_events : External → List Event → Runtime → Option Error × Runtime
unfolding apply_event
apply_events ext [] r = (none, r)
apply_events ext (e ∷ es) r = elim (apply_event ext e r) [
  | value r' ↦ apply_events ext es r'
  | failed x ↦ (some x, r)
]
