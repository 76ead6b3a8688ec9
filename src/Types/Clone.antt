-- ===== src/Types/Clone.antt =====
-- The `Clone` methods of pkg/types/state.go. Values have no identity here, so what a clone says is
-- which fields it carries over; a map is built anew, entry by entry.
pub mod Laws
mod Tests
use mathlib.Core.Option
use gm_agent.Prelude.{String, Option, none, some, List, [], ◌∷◌, map}
use gm_agent.Prelude.Dict.{Dict, insert}
use gm_agent.Types.Json.{Json}
use gm_agent.Types.State.{Goal, Task, TaskResult, Artifact, Message, ContextWindow, Lock, State}

-- `for k, v := range m { out[k] = v }`
unfoldable pub copy_map {ℓ} : {V : Type ℓ} → Dict V → Dict V
copy_map [] = []
copy_map ((k, v) ∷ m) = insert k v (copy_map m)

-- `for k, v := range m { if v != nil { out[k] = f(v) } }`
unfoldable pub copy_pointers {ℓ} : {V : Type ℓ} → (V → V) → Dict (Option V) → Dict (Option V)
copy_pointers f [] = []
copy_pointers f ((k, none) ∷ m) = copy_pointers f m
copy_pointers f ((k, some v) ∷ m) = insert k (some (f v)) (copy_pointers f m)

unfoldable pub clone_goal : Goal → Goal
clone_goal g = record g { deadline = Option.map (λ d. d) g.deadline }

unfoldable pub clone_result : TaskResult → TaskResult
clone_result r = record r {
  error = Option.map (λ e. e) r.error;
  artifacts = map (λ a. a) r.artifacts;
}

unfoldable pub clone_task : Task → Task
unfolding copy_map clone_result
clone_task t = record t {
  inputs = copy_map t.inputs;
  result = Option.map clone_result t.result;
  started_at = Option.map (λ s. s) t.started_at;
  ended_at = Option.map (λ e. e) t.ended_at;
}

unfoldable pub clone_artifact : Artifact → Artifact
unfolding copy_map
clone_artifact a = record a { content = map (λ b. b) a.content; metadata = copy_map a.metadata }

unfoldable pub clone_message : Message → Message
clone_message m = record m { tool_calls = map (λ c. c) m.tool_calls }

unfoldable pub clone_context : ContextWindow → ContextWindow
unfolding clone_message
clone_context c = record {
  messages = map clone_message c.messages;
  total_tokens = c.total_tokens;
  max_tokens = c.max_tokens;
  reserve_output = c.reserve_output;
  last_compaction_at = Option.map (λ t. t) c.last_compaction_at;
  compaction_count = c.compaction_count;
}

unfoldable pub clone_lock : Lock → Lock
clone_lock l = l

unfoldable pub clone : State → State
unfolding clone_goal clone_task clone_artifact clone_context clone_lock copy_pointers
clone s = record {
  version = s.version;
  updated_at = s.updated_at;
  system_prompt = s.system_prompt;
  mode = s.mode;
  plan_content = s.plan_content;
  goals = map clone_goal s.goals;
  tasks = copy_pointers clone_task s.tasks;
  artifacts = copy_pointers clone_artifact s.artifacts;
  locks = copy_pointers clone_lock s.locks;
  context = Option.map clone_context s.context;
}
