-- ===== src/Runtime/Goals.antt =====
-- The goals in pkg/runtime/reducer.go: how one is made and how the active one is completed.
pub mod Laws
use gm_agent.Prelude.{String, none, List, [], ◌∷◌, if◌then◌else◌}
use gm_agent.Types.State.{
  Goal, State, goal_status_pending, goal_status_completed, goal_type_user_request, is_active,
}

unfoldable pub new_goal : String → String → Goal
new_goal id description = record {
  id = id;
  type = goal_type_user_request;
  description = description;
  priority = 0;
  status = goal_status_pending;
  source_event_id = "";
  deadline = none;
  max_steps = 0;
  steps_used = 0;
  created_at = 0;
  updated_at = 0;
}

-- The loops that mark the first active goal as completed.
unfoldable pub complete_first : List Goal → List Goal
unfolding is_active
complete_first [] = []
complete_first (g ∷ gs) =
    if is_active g then record g { status = goal_status_completed } ∷ gs else g ∷ complete_first gs

unfoldable pub complete_goal : State → State
unfolding complete_first
complete_goal s = record s { goals = complete_first s.goals }
