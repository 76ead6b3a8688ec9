-- ===== src/Session/Rewind.antt =====
-- pkg/api/service/session.go, Rewind and ListCheckpoints: a session goes back to a checkpoint.
pub mod Laws
pub mod Success
use gm_agent.Prelude.{
  ℕ, String, Bool, true, false, Option, none, some, List, [], ◌∷◌, ◌++◌, ◌==◌, ◌<+>◌, length,
  if◌then◌else◌,
}
use gm_agent.Prelude.Result.{Error, Result, ok, err, panic, value, failed, error_text}
use gm_agent.Types.Tool.{Time, FileChange}
use gm_agent.Types.State.{State, Checkpoint}
use gm_agent.Runtime.History.{nil_dereference}
use gm_agent.Session.Service.{Resources, Session, Sessions, find}

pub record RewindRequest : Type 0 where
  pub checkpoint_id : String
  pub rewind_code : Bool
  pub rewind_conversation : Bool

pub record CheckpointResponse : Type 0 where
  pub id : String
  pub timestamp : Time
  pub state_version : ℕ
  pub last_event_id : String
  pub description : String
  pub message_count : ℕ

-- A response that reports a failure has no restored checkpoint (Go's zero value).
pub record RewindResponse : Type 0 where
  pub success : Bool
  pub message : String
  pub restored_checkpoint : Option CheckpointResponse

abbrev pub refused : String → RewindResponse
refused text = record { success = false; message = text; restored_checkpoint = none }

unfoldable pub count_messages : Option State → ℕ
count_messages none = 0
count_messages (some s) = elim s.context [ none ↦ 0 | some c ↦ length c.messages ]

-- `checkpoint.State.Version` of a checkpoint without a state is a nil dereference.
unfoldable pub describe : Checkpoint → Result CheckpointResponse
unfolding count_messages
describe cp = elim cp.state [
  | none ↦ panic nil_dereference
  | some s ↦ ok (record {
    id = cp.id;
    timestamp = cp.timestamp;
    state_version = s.version;
    last_event_id = cp.last_event_id;
    description = "";
    message_count = count_messages (some s);
  })
]

unfoldable pub describe_all : List Checkpoint → Result (List CheckpointResponse)
unfolding describe
describe_all [] = ok []
describe_all (cp ∷ cps) =
    let rest = describe_all cps in
    elim (describe cp) [
      | panic p ↦ panic p
      | err x ↦ err x
      | ok d ↦ elim rest [ panic p ↦ panic p | err x ↦ err x | ok ds ↦ ok (d ∷ ds) ]
    ]

-- The changes of the checkpoints that stand before the target, and whether it was met.
unfoldable pub changes_until : String → List Checkpoint → List FileChange × Bool
changes_until id [] = ([], false)
changes_until id (cp ∷ cps) =
    let (changes, found) = changes_until id cps in
    if cp.id == id then ([], true) else (cp.file_changes ++ changes, found)

unfoldable pub success_message : RewindRequest → String
success_message req =
    if req.rewind_code
    then if req.rewind_conversation
      then "Successfully rewound code and conversation"
      else "Successfully rewound code"
    else if req.rewind_conversation
    then "Successfully rewound conversation"
    else "Successfully rewound"

unfoldable pub report : RewindRequest → Checkpoint → Result RewindResponse
unfolding describe success_message
report req cp = elim (describe cp) [
  | panic p ↦ panic p
  | err x ↦ err x
  | ok d ↦
      ok (record { success = true; message = success_message req; restored_checkpoint = some d })
]

module _ {W : Type 0} where
  unfoldable pub list_checkpoints : String → Sessions W → W → Result (List CheckpointResponse)
  unfolding find describe_all
  list_checkpoints id table w = elim (find id table) [
    | failed x ↦ err x
    | value s ↦ elim (s.resources.list_checkpoints w) [
      | failed x ↦ err x
      | value cps ↦ describe_all cps
    ]
  ]

  -- The loop from the last change to the first, with the errors it has met.
  unfoldable pub roll_back : (String → W → Option Error × W) → List FileChange → W → List String × W
  roll_back undo [] w = ([], w)
  roll_back undo (c ∷ cs) w =
      let (errors, w1) = roll_back undo cs w in
      let (failure, w2) = undo c.patch_id w1 in
      (
        elim failure [
          | none ↦ errors
          | some x ↦
              errors ++ ("Failed to rollback " <+> c.file_path <+> ": " <+> error_text x) ∷ []
        ],
        w2,
      )

  -- `none`: all changes are undone.
  unfoldable pub undo_changes :
      (String → W → Option Error × W) → List FileChange × Bool → W → Option String × W
  unfolding roll_back
  undo_changes undo (changes, false) w = (some "Target checkpoint not found in checkpoint list", w)
  undo_changes undo (changes, true) w =
      let (errors, w') = roll_back undo changes w in
      (elim errors [ [] ↦ none | e ∷ _ ↦ some ("Code rewind partially failed: " <+> e) ], w')

  -- The first half of `Rewind`: `some` is the message of the failure.
  unfoldable pub rewind_files : Resources W → String → W → Option String × W
  unfolding changes_until undo_changes
  rewind_files r id w = elim r.rollback [
    | none ↦ (some "Code rewind not available: patch engine not configured", w)
    | some undo ↦ elim (r.list_checkpoints w) [
      | failed x ↦ (some ("Failed to list checkpoints: " <+> error_text x), w)
      | value cps ↦ undo_changes undo (changes_until id cps) w
    ]
  ]

  -- The second half: the state of the checkpoint becomes the stored state.
  unfoldable pub rewind_state :
      Resources W → RewindRequest → Checkpoint → W → Result RewindResponse × W
  unfolding report
  rewind_state r req cp w =
      if req.rewind_conversation
      then (let (failure, w') = r.save_state cp.state w in
          (
            elim failure [
              | none ↦ report req cp
              | some x ↦ ok (refused ("Failed to restore state: " <+> error_text x))
            ],
            w',
          ))
      else (report req cp, w)

  -- What follows the first half.
  unfoldable pub after_files :
      Resources W → RewindRequest → Checkpoint → Option String × W → Result RewindResponse × W
  unfolding rewind_state
  after_files r req cp (none, w) = rewind_state r req cp w
  after_files r req cp (some text, w) = (ok (refused text), w)

  unfoldable pub rewind_to :
      Resources W → RewindRequest → Checkpoint → W → Result RewindResponse × W
  unfolding rewind_files after_files
  rewind_to r req cp w =
      if req.rewind_code
      then after_files r req cp (rewind_files r cp.id w)
      else rewind_state r req cp w

  unfoldable pub rewind : String → RewindRequest → Sessions W → W → Result RewindResponse × W
  unfolding find rewind_to
  rewind id req table w = elim (find id table) [
    | failed x ↦ (err x, w)
    | value s ↦ elim (s.resources.load_checkpoint req.checkpoint_id w) [
      | failed x ↦ (ok (refused ("Checkpoint not found: " <+> error_text x)), w)
      | value cp ↦ rewind_to s.resources req cp w
    ]
  ]
