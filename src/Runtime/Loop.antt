-- ===== src/Runtime/Loop.antt =====
-- pkg/runtime/runtime.go: recovery, the main loop, checkpoints and the intake of outside events.
pub mod Laws
pub mod Rounds
use gm_agent.Prelude.{
  ℕ, zero, suc, ◌+◌, ◌%◌, String, Bool, Option, none, some, List, [], ◌∷◌, ◌++◌, map, ◌==◌, ◌<+>◌,
  eqb, if◌then◌else◌,
}
use gm_agent.Prelude.Result.{Error, Reply, value, failed, message, wrap, is_missing}
use gm_agent.Types.Tool.{FileChange}
use gm_agent.Types.State.{ContextWindow, Goal, Message, State, Checkpoint}
use gm_agent.Types.Clone.{clone, clone_message}
use gm_agent.Types.Event.{Event}
use gm_agent.Types.Command.{Command, call_llm}
use gm_agent.Runtime.Core.{
  Runtime, Config, swap_pending_commands, update_state, get_current_mode, select_goal, apply_event,
  apply_events,
}
use gm_agent.Runtime.History.{nil_dereference, blank_message, messages_of}
use gm_agent.Runtime.Services.{Services}
use gm_agent.Runtime.Dispatcher.{Outcome, dispatch}
use gm_agent.External.{External, generate_id, new_base_command}

-- How `Run` ends: with nil, with an error, or in a crash of the process.
pub data Exit : Type 0 where
  finished : Exit
  stopped : Error → Exit
  crashed : String → Exit

-- The system prompt that the model gets for a goal.
unfoldable pub goal_prompt : String → Goal → String
goal_prompt prompt g =
    if prompt == ""
    then "You are an AI coding assistant. You help users with software engineering tasks through conversation.\n\n## How to Respond\n- For questions, explanations, or simple requests: respond with text directly\n- For tasks requiring action (reading files, running commands): use the appropriate tool\n- Be helpful, concise, and friendly\n\n## When to Use Tools\n- Use 'run_shell' ONLY when the user asks you to run a command or check something specific\n- Use 'read_file' when the user asks about file contents\n- Do NOT use tools just to gather context - only use them when explicitly needed\n\n## Communication\n- Respond directly to the user in your output\n- No need to use 'talk' tool unless you have a very long multi-step response\n\nCurrent context: "
      <+> g.description <+> "\nWhen the user's request is fully addressed, use 'task_complete'."
    else prompt <+> "\n\nCurrent Goal: " <+> g.description <+> " (Status: " <+> g.status
      <+> "). Use 'task_complete' when done."

-- One round of the loop: it goes on, or `Run` returns.
pub data Round (W : Type 0) : Type 0 where
  go_on : Runtime → W → Round W
  exit : Exit → Runtime → W → Round W

module _ (ext : External) {W : Type 0} (srv : Services W) where
  -- The question to the model: the system prompt, then the conversation.
  unfoldable pub decide : Goal → Runtime → W → Command × Runtime
  unfolding goal_prompt messages_of new_base_command
  decide g r w = (
    call_llm (record {
      base = new_base_command ext "call_llm" r.draws;
      model = r.config.model;
      messages =
          record blank_message { role = "system"; content = goal_prompt r.state.system_prompt g }
          ∷ map clone_message (messages_of r.state);
      tools = srv.tools.list w;
    }),
    record r { draws = r.draws + 1 },
  )

  unfoldable pub new_checkpoint : State → List FileChange → ℕ → Checkpoint
  unfolding generate_id
  new_checkpoint s changes n = record {
    id = generate_id ext "ckpt" n;
    state_version = s.version;
    last_event_id = "";
    timestamp = ext.now n;
    state = some s;
    file_changes = changes;
  }

  unfoldable pub collect_changes : Runtime → W → List FileChange × W
  collect_changes r w = if r.tracked then srv.flush w else ([], w)

  -- The state is saved first, then the checkpoint; the changes leave the tracker before both.
  unfoldable pub checkpoint : Runtime → W → Option Error × Runtime × W
  unfolding clone new_checkpoint collect_changes
  checkpoint r w =
      let (changes, w1) = collect_changes r w in
      let copy = clone r.state in
      let (failure, w2) = srv.store.save_state copy w1 in
      elim failure [
        | some x ↦ (some x, record r { draws = r.draws + 1 }, w2)
        | none ↦
            let (failure', w3) =
              srv.store.save_checkpoint (new_checkpoint copy changes r.draws) w2 in
            (failure', record r { draws = r.draws + 1 }, w3)
      ]

  -- `step % CheckpointInterval == 0`, which crashes at interval 0; a failed checkpoint is reported.
  unfoldable pub periodic : ℕ → ℕ → Runtime → W → Round W
  unfolding checkpoint
  periodic zero step r w = exit (crashed "runtime error: integer divide by zero") r w
  periodic (suc i) step r w =
      if eqb (step % suc i) 0
      then (let (failure, r', w') = checkpoint r w in go_on r' w')
      else go_on r w

  -- The events are applied; then a checkpoint may be due.
  unfoldable pub observe : List Event → ℕ → Runtime → W → Round W
  unfolding apply_events periodic
  observe events step r w =
      let (failure, r') = apply_events ext events r in
      elim failure [
        | some x ↦ exit (stopped x) r' w
        | none ↦ periodic r'.config.checkpoint_interval step r' w
      ]

  -- A dispatch that fails yields no events.
  unfoldable pub settle : Outcome W → ℕ → Runtime → Round W
  unfolding observe
  settle o step r =
      observe (elim o.events [ value es ↦ es | failed x ↦ [] ]) step (record r { draws = o.draws })
        o.world

  -- The commands are carried out and their events applied.
  unfoldable pub act_on : List Command → ℕ → Runtime → W → Round W
  unfolding dispatch settle get_current_mode
  act_on cmds step r w = settle (dispatch ext srv (get_current_mode r) cmds r.draws w) step r

  -- To ask the model without a context is a crash.
  unfoldable pub ask_model : Option ContextWindow → Goal → ℕ → Runtime → W → Round W
  unfolding decide act_on
  ask_model none g step r w = exit (crashed nil_dereference) r w
  ask_model (some c) g step r w = let (cmd, r') = decide g r w in act_on (cmd ∷ []) step r' w

  -- No command is pending: the first active goal is worked on, or the run is over.
  unfoldable pub pursue : Option Goal → ℕ → Runtime → W → Round W
  unfolding checkpoint ask_model
  pursue none step r w = let (failure, r', w') = checkpoint r w in exit finished r' w'
  pursue (some g) step r w = ask_model r.state.context g step r w

  unfoldable pub graceful_shutdown : Runtime → W → Round W
  unfolding checkpoint
  graceful_shutdown r w =
      let (failure, r', w') = checkpoint r w in
      exit (elim failure [ none ↦ finished | some x ↦ stopped x ]) r' w'

  unfoldable pub take_turn : List Command → ℕ → Runtime → W → Round W
  unfolding pursue act_on select_goal
  take_turn [] step r w = pursue (select_goal r) step r w
  take_turn (c ∷ cs) step r w = act_on (c ∷ cs) step r w

  unfoldable pub round : ℕ → Runtime → W → Round W
  unfolding graceful_shutdown swap_pending_commands take_turn
  round step r w =
      if srv.done w
      then graceful_shutdown r w
      else (let (cmds, r') = swap_pending_commands r in take_turn cmds step r' w)

  -- The loop with the number of rounds that are left.
  unfoldable pub run_rounds : ℕ → ℕ → Runtime → W → Exit × Runtime × W
  unfolding round
  run_rounds zero step r w = (stopped (message "max steps exceeded"), r, w)
  run_rounds (suc left) step r w = elim (round step r w) [
    | go_on r' w' ↦ run_rounds left (suc step) r' w'
    | exit x r' w' ↦ (x, r', w')
  ]

  -- `none`: the loop may start, from the state that was recovered if there is one.
  unfoldable pub recover : Runtime → W → Option Error × Runtime
  unfolding update_state
  recover r w = elim (srv.store.load_latest_state w) [
    | value s ↦ (none, update_state s r)
    | failed x ↦ if is_missing x then (none, r) else (some x, r)
  ]

  unfoldable pub run : Runtime → W → Exit × Runtime × W
  unfolding recover run_rounds
  run r w =
      let (failure, r') = recover r w in
      elim failure [
        | some x ↦ (stopped (wrap "recovery failed" x), r', w)
        | none ↦ run_rounds r'.config.max_steps 0 r' w
      ]

  -- `Ingest`: the event is logged, then applied, then the state is saved.
  unfoldable pub ingest : Event → Runtime → W → Option Error × Runtime × W
  unfolding apply_event
  ingest e r w =
      let (failure, w1) = srv.store.append_event e w in
      elim failure [
        | some x ↦ (some x, r, w1)
        | none ↦ elim (apply_event ext e r) [
          | failed x ↦ (some x, r, w1)
          | value r' ↦ let (failure', w2) = srv.store.save_state r'.state w1 in (failure', r', w2)
        ]
      ]
