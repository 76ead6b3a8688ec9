-- ===== src/External.antt =====
-- What the program takes from outside its sources: identifiers, the clock, and the JSON codec at the
-- shapes that it is called with. The n-th identifier and the n-th reading of the clock are functions
-- of n, and every operation that draws one hands the next n on.
use gm_agent.Prelude.{ℕ, String, Option, ◌<+>◌}
use gm_agent.Prelude.Dict.{Dict}
use gm_agent.Prelude.Result.{Reply}
use gm_agent.Types.Json.{Json}
use gm_agent.Types.Tool.{Time}
use gm_agent.Types.Event.{BaseEvent}
use gm_agent.Types.Command.{BaseCommand}

pub record External : Type 0 where
  -- `ulid.Make().String()`
  pub ulid : ℕ → String
  -- `time.Now()`
  pub now : ℕ → Time
  -- `json.Unmarshal` into a `map[string]any`: `none` is an error, `some none` a nil map
  pub unmarshal_map : String → Option (Option (Dict Json))
  -- `json.Unmarshal` into the struct with the one field `path`
  pub unmarshal_path : String → Option String
  -- `json.Marshal` of a `map[string]any`
  pub marshal_map : Dict Json → Reply String
  -- `json.Unmarshal` into, and `json.Marshal` of, an `any`
  pub unmarshal_any : String → Option Json
  pub marshal_any : Json → String
  -- `filepath.Base`
  pub path_base : String → String
  -- `debug.Stack`
  pub stack : String

module _ (ext : External) where
  -- `GenerateID` of types/common.go
  unfoldable pub generate_id : String → ℕ → String
  generate_id prefix n = prefix <+> "_" <+> ext.ulid n

  unfoldable pub new_base_event : String → String → String → ℕ → BaseEvent
  unfolding generate_id
  new_base_event event_type actor subject n = record {
    id = generate_id "evt" n;
    type = event_type;
    timestamp = ext.now n;
    actor = actor;
    subject = subject;
  }

  unfoldable pub new_base_command : String → ℕ → BaseCommand
  unfolding generate_id
  new_base_command cmd_type n = record { id = generate_id "cmd" n; type = cmd_type }
