-- ===== src/Store/Checkpoints/Tests.antt =====
-- A directory of checkpoints in which all files are readable, and a state that is stored.
use gm_agent.Prelude.{String, true, false, none, some, List, [], ◌∷◌, ◌≡◌, refl}
use gm_agent.Prelude.Result.{value}
use gm_agent.Types.State.{Checkpoint}
use gm_agent.Samples.{busy, unary}
use gm_agent.Store.Tests.{read, os, os-Writes, os-Renames}
use gm_agent.Store.Checkpoints.{
  Entry, CheckpointOs, load_latest_checkpoint, save_state, load_state, load_latest_state,
}
use gm_agent.Store.Checkpoints.Laws.{save_state-load_state}
use gm_agent.Prelude.Dict.{Dict, lookup, insert}

abbrev checkpoint_of : String → Checkpoint
checkpoint_of id = record {
  id = id;
  state_version = 1;
  last_event_id = "";
  timestamp = 0;
  state = none;
  file_changes = [];
}

abbrev entries : List Entry
entries =
    record { name = "1_a.json"; is_dir = false }
    ∷ record { name = "2_b.json"; is_dir = false }
    ∷ record { name = "tmp"; is_dir = true }
    ∷ []

abbrev folder : CheckpointOs (Dict String)
folder = record {
  files = record {
    read_file = λ p w. value p;
    is_not_exist = λ x. true;
    write_file = λ p t w. (none, w);
    sync = λ p w. (none, w);
    rename = λ p q w. (none, w);
    unmarshal = λ t. value [];
    marshal = λ rules. value "";
  };
  read_dir = λ p w. (entries, none);
  join = λ p q. q;
  ext = λ p. ".json";
  format_int = unary;
  marshal_state = λ s. value "busy";
  unmarshal_state = λ t. value busy;
  marshal_checkpoint = λ cp. value cp.id;
  unmarshal_checkpoint = λ t. value (checkpoint_of t);
}

newest_name : load_latest_checkpoint folder "" [] ≡ value (checkpoint_of "2_b.json")
unfolding load_latest_checkpoint
newest_name = refl

abbrev disk : CheckpointOs (Dict String)
disk = record {
  files = os;
  read_dir = λ p w. ([], none);
  join = λ p q. q;
  ext = λ p. ".json";
  format_int = unary;
  marshal_state = λ s. value "busy";
  unmarshal_state = λ t. value busy;
  marshal_checkpoint = λ cp. value cp.id;
  unmarshal_checkpoint = λ t. value (checkpoint_of t);
}

save_state-load_state_example :
    (load_latest_state disk "" (save_state disk "" (some busy) []).1 ≡ value busy)
    × (load_state disk "" busy.version (save_state disk "" (some busy) []).1 ≡ value busy)
unfolding save_state read lookup insert
save_state-load_state_example =
    save_state-load_state disk "" busy [] os-Writes (λ p q w. refl) os-Renames (λ t _. refl) refl
