-- ===== src/Cli/Repl/Tests.antt =====
-- The terminal program: a permission is given, and a screen is cleared while an answer is streamed.
use gm_agent.Prelude.{String, true, false, none, some, [], ◌∷◌, ◌≡◌, refl, ◌⊎◌, ◌<+>◌, arith}
use gm_agent.Prelude.Result.{ok, panic}
use gm_agent.Prelude.Trim.{left_trim, right_trim}
use gm_agent.Cli.Repl.Screen.{
  PermissionPrompt, Model, initial_model, Cmd, idle, KeyType, Msg, key, event, Decoder, Display,
}
use gm_agent.Cli.Repl.Keys.{out_of_range, rewind_flags, fields, run_command}
use gm_agent.Cli.Repl.Update.{update}
use gm_agent.Cli.Repl.Laws.{IsValid, Ends}
use gm_agent.Cli.Repl.Prompt.{Outcome, update-Outcome}
use gm_agent.Cli.Repl.Steps.{Overruns, update-Ends}

abbrev json : Decoder
json = record {
  delta = λ body. some body;
  response = λ body. none;
  talk = λ body. none;
  arguments = λ body. [];
  result = λ body. none;
  request = λ body.
      some (record {
        request_id = body;
        tool_name = "run_shell";
        permission = "shell";
        patterns = [];
      });
  error_text = λ body. body;
}

abbrev display : Display
display = record {
  user = λ t. t;
  system = λ t. t;
  assistant = λ t. t;
  markdown = λ t. t;
  tool_call = λ name args status. name <+> " " <+> status;
  help = "help";
  decimal = λ n. "n";
  time = λ n. "t";
}

-- A text area that changes nothing.
abbrev edit : Msg → String → String
edit msg text = text

abbrev token : Msg
token = event (record { type = "llm_token"; body = "Hi" })

abbrev streaming : Model
streaming = record initial_model {
  streaming_in_progress = true;
  streaming_raw = "Hi";
  messages = "Hi" ∷ [];
  text = "/clear";
}

abbrev press : KeyType → String → Msg
press type name = key (record { type = type; name = name })

abbrev cleared : Model
cleared = record streaming { messages = []; text = ""; input_history = "/clear" ∷ [] }

-- The screen is cleared while an answer is streamed, and the next token is out of range.
clear_while_streaming :
    update json display edit (press KeyType.enter "enter") streaming ≡ ok (cleared, idle)
unfolding update initial_model left_trim right_trim
clear_while_streaming = refl

token_after_clear : update json display edit token cleared ≡ panic out_of_range
unfolding update initial_model
token_after_clear = refl

-- The last flag decides.
flags_all_code : rewind_flags ("--all" ∷ "--code" ∷ []) false true ≡ (true, false)
unfolding rewind_flags
flags_all_code = refl

words : fields " a  bc " ≡ "a" ∷ "bc" ∷ []
unfolding fields
words = refl

-- Without a checkpoint the command is sent to the agent as a message.
bare_rewind :
    (run_command display "/rewind" (record initial_model { session_id = "ses_1" })).1
    ≡ Cmd.send_message "ses_1" "/rewind"
unfolding run_command initial_model
bare_rewind = refl

abbrev prompt : PermissionPrompt
prompt = record {
  request_id = "perm_1";
  tool_name = "run_shell";
  permission = "shell";
  patterns = [];
  selected_option = 2;
}

abbrev asked : Model
asked = record streaming { permission_request = some prompt }

update-Outcome_example :
    (r : Model × Cmd) × (update json display edit (press KeyType.enter "enter") asked ≡ ok r)
    × Outcome "enter" prompt asked r
update-Outcome_example =
    update-Outcome json display edit (record { type = KeyType.enter; name = "enter" }) prompt asked
      refl (omega arith)

asked-IsValid : IsValid asked
unfolding initial_model
asked-IsValid = omega arith

update-Ends_example :
    Ends (update json display edit token asked)
    ⊎ ((update json display edit token asked ≡ panic out_of_range)
        × Overruns display json token asked)
update-Ends_example = update-Ends display json edit token asked asked-IsValid
