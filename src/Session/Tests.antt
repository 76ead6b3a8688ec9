-- ===== src/Session/Tests.antt =====
-- Sessions over a world that holds one file, a.txt: its content.
use gm_agent.Prelude.{
  ◌<+>◌, inl, String, true, false, Option, none, some, List, [], ◌∷◌, ◌≡◌, refl, ◌==◌,
  if◌then◌else◌,
}
use gm_agent.Prelude.Dict.{lookup}
use gm_agent.Prelude.Result.{Error, message, value}
use gm_agent.Types.State.{Checkpoint}
use gm_agent.Session.Service.{
  find, Resources, Session, Sessions, Factory, create, send_message, finish,
}
use gm_agent.Session.Lifecycle.{IsSound, empty, next, creates, sends, finishes, reachable-IsSound}
use gm_agent.Session.Rewind.{RewindRequest, RewindResponse, rewind}
use gm_agent.Session.Rewind.Laws.{backwards, changes_of}
use gm_agent.Session.Rewind.Success.{Succeeds, rewind-Succeeds}
use gm_agent.Patch.Engine.{Os, default_config}
use gm_agent.Patch.Rollback.{rollback}
use gm_agent.Samples.{external, busy, unary}

abbrev checkpoint_of : String → String → Checkpoint
checkpoint_of id patch_id = record {
  id = id;
  state_version = 1;
  last_event_id = "";
  timestamp = 1;
  state = some busy;
  file_changes =
      record { patch_id = patch_id; file_path = "a.txt"; backup_path = ""; operation = "modify" }
      ∷ [];
}

-- The file held "one" at the target, then "two", then "three". The
-- pattern of a patch finds one backup, whose metadata names a.txt; the last text written is
-- the content of a.txt.
abbrev os : Os String
os = record {
  read_file = λ path w.
      if path == "2.bak"
      then value "one"
      else if path == "3.bak"
      then value "two"
      else value "patch_id: p\nfile_path: a.txt\ntimestamp: t\n";
  is_not_exist = λ x. false;
  write_file = λ path text w. (none, text);
  mkdir_all = λ path w. (none, w);
  rename = λ from to w. (none, w);
  remove = λ path w. w;
  glob = λ pattern w. value (
      if pattern == "./.gm-backups/pch_2_*.bak"
      then "2.bak" ∷ []
      else if pattern == "./.gm-backups/pch_3_*.bak"
      then "3.bak" ∷ []
      else []);
  clean = λ path. path;
  is_abs = λ path. false;
  join = λ a b. a <+> "/" <+> b;
  dir = λ path. ".";
  rel = λ base path. value path;
  format_time = unary;
  format_int = unary;
}

-- The engine of the program; a patch without a backup cannot be undone.
abbrev undo : String → String → Option Error × String
undo = rollback os default_config

no_backup : undo "pch_1" "three" ≡ (some (message "no backup found for patch ID: pch_1"), "three")
unfolding rollback default_config
no_backup = refl

abbrev newer : List Checkpoint
newer = checkpoint_of "ckpt_3" "pch_3" ∷ checkpoint_of "ckpt_2" "pch_2" ∷ []

abbrev target : Checkpoint
target = checkpoint_of "ckpt_1" "pch_1"

abbrev resources : Resources String
resources = record {
  ingest = λ e w. (none, w);
  get_state = λ w. some busy;
  cancel = λ w. w;
  load_checkpoint = λ id w. value target;
  list_checkpoints =
      λ w. value (checkpoint_of "ckpt_3" "pch_3" ∷ checkpoint_of "ckpt_2" "pch_2" ∷ target ∷ []);
  save_state = λ s w. (none, w);
  rollback = some undo;
  respond = none;
  get_events_since = λ after w. ([], none);
}

abbrev factory : Factory String
factory id w = (value resources, w)

abbrev session : Session String
session = record {
  id = "ses_1";
  status = "idle";
  created_at = 0;
  last_error = "";
  resources = resources;
  runs = 0;
}

abbrev table : Sessions String
table = ("ses_1", session) ∷ []

abbrev request : RewindRequest
request = record { checkpoint_id = "ckpt_1"; rewind_code = true; rewind_conversation = false }

-- The file comes back as "two", its content at the checkpoint after the target.
newest_backup_wins : (rewind "ses_1" request table "three").1 ≡ "two"
unfolding rewind rollback default_config
newest_backup_wins = refl

abbrev response : RewindResponse
response = record {
  success = true;
  message = "Successfully rewound code";
  restored_checkpoint = some (record {
    id = "ckpt_1";
    timestamp = 1;
    state_version = 4;
    last_event_id = "";
    description = "";
    message_count = 0;
  });
}

rewind-Succeeds_example :
    Succeeds (rewind "ses_1" request table "three").0
    × ((rewind "ses_1" request table "three").1 ≡ "two")
unfolding backwards changes_of rollback default_config find
rewind-Succeeds_example =
    rewind-Succeeds "ses_1" request table "three" "two" "two" session undo target newer [] busy refl
      refl refl refl (refl, (refl, tt)) refl ("one", refl, ("two", refl, refl)) (inl (refl, refl))
      refl

-- A session is created with a prompt, gets a message, ends its run, and gets another message.
abbrev opened : Sessions String
opened = (create external factory "hello" "" 0 [] 0 "").sessions

abbrev messaged : Sessions String
messaged = (send_message external "ses_O" "more" "" opened 5 "").sessions

abbrev ended : Sessions String
ended = finish "ses_O" none messaged

abbrev woken : Sessions String
woken = (send_message external "ses_O" "again" "preempt" ended 6 "").sessions

one_run :
    lookup "ses_O" woken ≡ some (record session { id = "ses_O"; status = "running"; runs = 1 })
unfolding create send_message finish lookup
one_run = refl

reachable-IsSound_example : IsSound woken
reachable-IsSound_example = reachable-IsSound external factory woken (
    next
      (next (next (next empty (creates [] "hello" "" 0 0 "")) (sends opened "ses_O" "more" "" 5 ""))
        (finishes messaged "ses_O" none))
      (sends ended "ses_O" "again" "preempt" 6 ""))
