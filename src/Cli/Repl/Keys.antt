-- ===== src/Cli/Repl/Keys.antt =====
-- Update of a key: the answer to a permission prompt, the history, and the commands that are typed.
use gm_agent.Prelude.{
  ℕ, ◌+◌, ◌-◌, String, Bool, true, false, not, ◌||◌, ◌&&◌, Option, none, some, List, [], ◌∷◌, ◌++◌,
  ◌==◌, ◌<+>◌, ltb, eqb, if◌then◌else◌, length,
}
use Prim.Native.Char.{code}
use text.Mathlib.Text.{starts_with}
use gm_agent.Prelude.Result.{Result, ok, panic}
use gm_agent.Prelude.Trim.{is_space, trim_space, trim_prefix}
use gm_agent.Cli.Repl.Screen.{
  PermissionPrompt, Model, Cmd, idle, quit, submit_permission, create_session, send_message,
  list_checkpoints, rewind, KeyType, ctrl_c, esc, up, down, enter, other, Display, say, from_end,
}

abbrev pub out_of_range : String
out_of_range = "index out of range"

unfoldable pub answer : Model → PermissionPrompt → Bool → Bool → Cmd
answer m p approved always = submit_permission m.session_id p.request_id approved always

-- Enter: the selected option.
unfoldable pub execute_selected : Model → PermissionPrompt → Cmd
unfolding answer
execute_selected m p =
    if eqb p.selected_option 0
    then answer m p true false
    else if eqb p.selected_option 1
    then answer m p false false
    else if eqb p.selected_option 2
    then answer m p true true
    else if eqb p.selected_option 3
    then answer m p false true
    else idle

abbrev pub select_option : Model → PermissionPrompt → ℕ → Model
select_option m p n = record m { permission_request = some (record p { selected_option = n }) }

-- The cases of the switch over the key's text.
pub data PromptKey : Type 0 where
  allow_key deny_key always_key deny_all_key up_key down_key enter_key ignored_key : PromptKey

unfoldable pub prompt_key : String → PromptKey
prompt_key name =
    if name == "y" || name == "Y"
    then allow_key
    else if name == "n" || name == "N"
    then deny_key
    else if name == "a" || name == "A"
    then always_key
    else if name == "d" || name == "D"
    then deny_all_key
    else if name == "up" || name == "k"
    then up_key
    else if name == "down" || name == "j"
    then down_key
    else if name == "enter"
    then enter_key
    else ignored_key

-- A key while a permission is asked for.
unfoldable pub answer_key : PromptKey → PermissionPrompt → Model → Model × Cmd
unfolding answer execute_selected
answer_key allow_key p m = (m, answer m p true false)
answer_key deny_key p m = (m, answer m p false false)
answer_key always_key p m = (m, answer m p true true)
answer_key deny_all_key p m = (m, answer m p false true)
answer_key up_key p m =
    ((if ltb 0 p.selected_option then select_option m p (p.selected_option - 1) else m), idle)
answer_key down_key p m =
    ((if ltb p.selected_option 3 then select_option m p (p.selected_option + 1) else m), idle)
answer_key enter_key p m = (m, execute_selected m p)
answer_key ignored_key p m = (m, idle)

unfoldable pub permission_key : String → PermissionPrompt → Model → Model × Cmd
unfolding prompt_key answer_key
permission_key name p m = answer_key (prompt_key name) p m

-- `historyIndex + 1`
unfoldable pub next_index : Option ℕ → ℕ
next_index none = 0
next_index (some i) = i + 1

-- The text area shows an entry of the history.
unfoldable pub show_entry : ℕ → Model → Result (Model × Cmd)
unfolding from_end
show_entry i m = elim (from_end m.input_history i) [
  | none ↦ panic out_of_range
  | some t ↦ ok (record m { history_index = some i; text = t }, idle)
]

unfoldable pub key_up : Model → Result (Model × Cmd)
unfolding next_index show_entry
key_up m =
    if ltb 0 (length m.input_history)
      && not m.waiting
      && ltb (next_index m.history_index) (length m.input_history)
    then show_entry (next_index m.history_index) m
    else ok (m, idle)

unfoldable pub key_down : Model → Result (Model × Cmd)
unfolding show_entry
key_down m = elim m.history_index [
  | none ↦ ok (m, idle)
  | some i ↦
      if ltb 0 i
      then show_entry (i - 1) m
      else ok (record m { history_index = none; text = "" }, idle)
]

unfoldable pub last_entry : List String → Option String
last_entry [] = none
last_entry (x ∷ []) = some x
last_entry (x ∷ y ∷ ys) = last_entry (y ∷ ys)

unfoldable pub remember_input : String → List String → List String
unfolding last_entry
remember_input input history = elim (last_entry history) [
  | none ↦ history ++ input ∷ []
  | some last ↦ if last == input then history else history ++ input ∷ []
]

-- `strings.Fields`, from the word read so far.
unfoldable pub fields_from : String → String → List String
unfolding is_space
fields_from word String.[] = if word == "" then [] else word ∷ []
fields_from word (String.◌∷◌ c rest) =
    let ended = fields_from "" rest in
    let longer = fields_from (word <+> String.◌∷◌ c String.[]) rest in
    if is_space (code c) then if word == "" then ended else word ∷ ended else longer

unfoldable pub fields : String → List String
unfolding fields_from
fields text = fields_from "" text

-- The loop over the flags: whether to rewind the code and the conversation.
unfoldable pub rewind_flags : List String → Bool → Bool → Bool × Bool
rewind_flags [] code conversation = (code, conversation)
rewind_flags (p ∷ ps) code conversation =
    rewind_flags ps (if p == "--code" || p == "--all" then true else code)
      (if p == "--code" then false else if p == "--all" then true else conversation)

-- The entries of the history, numbered.
unfoldable pub history_lines : (ℕ → String) → ℕ → List String → String
history_lines decimal i [] = ""
history_lines decimal i (h ∷ hs) =
    "  " <+> decimal (i + 1) <+> ". " <+> h <+> "\n" <+> history_lines decimal (i + 1) hs

module _ (d : Display) where
  abbrev pub no_session : Model → Model
  no_session m = say (d.system "⚠\u{fe0f} No active session") m

  unfoldable pub rewind_command : String → Model → Model × Cmd
  unfolding say trim_space fields rewind_flags
  rewind_command input m =
      if m.session_id == ""
      then (no_session m, idle)
      else elim (fields (trim_space (trim_prefix input "/rewind "))) [
        | [] ↦ (say (d.system "⚠\u{fe0f} Usage: /rewind <checkpoint_id> [--code] [--all]") m, idle)
        | checkpoint_id ∷ flags ↦
            let (code, conversation) = rewind_flags flags false true in
            (
              record m { text = ""; waiting = true },
              rewind m.session_id checkpoint_id code conversation,
            )
      ]

  -- A message for the agent; the first one opens the session.
  unfoldable pub chat : String → Model → Model × Cmd
  unfolding say
  chat input m = (
    record (say (d.user input) m) { text = ""; waiting = true },
    if m.session_id == "" then create_session input else send_message m.session_id input,
  )

  unfoldable pub session_command : String → Model → Model × Cmd
  unfolding say rewind_command chat
  session_command input m =
      if input == "/checkpoints"
      then if m.session_id == ""
        then (no_session m, idle)
        else (record m { text = ""; waiting = true }, list_checkpoints m.session_id)
      else if starts_with input "/rewind "
      then rewind_command input m
      else chat input m

  unfoldable pub run_command : String → Model → Model × Cmd
  unfolding say history_lines session_command
  run_command input m =
      if input == "/exit" || input == "/quit"
      then (m, quit)
      else if input == "/new"
      then (
        record m { waiting = true; text = ""; messages = d.system "Starting new session..." ∷ [] },
        create_session "",
      )
      else if input == "/clear"
      then (record m { text = ""; messages = [] }, idle)
      else if input == "/help"
      then (say d.help (record m { text = "" }), idle)
      else if input == "/history"
      then (
        say (d.system "Input History:\n" <+> history_lines d.decimal 0 m.input_history)
            (record m { text = "" }),
        idle,
      )
      else session_command input m

  unfoldable pub key_enter : Model → Model × Cmd
  unfolding trim_space remember_input run_command
  key_enter m =
      let input = trim_space m.text in
      if m.waiting || input == ""
      then (m, idle)
      else run_command input
          (record m { input_history = remember_input input m.input_history; history_index = none })

  -- A key that the program does not handle is for the components.
  unfoldable pub plain_key : KeyType → Model → Result (Model × Cmd)
  unfolding key_up key_down key_enter
  plain_key ctrl_c m = ok (m, quit)
  plain_key esc m = ok (m, quit)
  plain_key up m = key_up m
  plain_key down m = key_down m
  plain_key enter m = ok (key_enter m)
  plain_key other m = ok (m, Cmd.components)
