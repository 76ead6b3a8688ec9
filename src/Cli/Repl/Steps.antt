-- ===== src/Cli/Repl/Steps.antt =====
-- Every message is handled with the indices in range, but for one: a token that comes while an answer
-- is streamed and no message is shown.
use gm_agent.Prelude.{
  String, Bool, true, false, Option, none, some, Option-cases, List, [], ◌∷◌, ◌++◌, ◌≡◌, ◌⊎◌, inl,
  inr, refl, sym, ◌∙◌, arith, eq_iff, Bool-cases, List-cases, if◌then◌else◌, ◌==◌, ◌<+>◌,
}
use gm_agent.Prelude.Result.{Result, ok, panic}
use gm_agent.Cli.Client.{StreamEvent}
use gm_agent.Cli.Repl.Screen.{
  PermissionPrompt, Model, Cmd, Key, Msg, event, Decoder, Display, say, replace_last, ToolUse,
  ResponseEvent, RequestEvent, ResultEvent,
}
use gm_agent.Cli.Repl.Keys.{out_of_range, permission_key}
use gm_agent.Cli.Repl.Events.{
  open_stream, rewrite_last, llm_token, show_content, show_calls, llm_response, release,
  tool_result, permission_request, handle_event, other_event,
}
use gm_agent.Cli.Repl.Update.{on_key, dispatch, update, update_text}
use gm_agent.Cli.Repl.Laws.{IsValid, Offers, Ends, plain_key-Ends}
use gm_agent.Cli.Repl.Prompt.{permission_key-IsValid}

-- What an event leaves alone: the history; a prompt is kept, ended or opened at its first option.
record Stays (m m' : Model) : Type 0 where
  index : m'.history_index ≡ m.history_index
  history : m'.input_history ≡ m.input_history
  prompt : Offers m.permission_request → Offers m'.permission_request

Stays-IsValid : {m m' : Model} → Stays m m' → IsValid m → IsValid m'
Stays-IsValid k v = record {
  history = rw (k.index, k.history) v.history;
  options = k.prompt v.options;
}

Stays-trans : {a b c : Model} → Stays a b → Stays b c → Stays a c
Stays-trans p q = record {
  index = q.index ∙ p.index;
  history = q.history ∙ p.history;
  prompt = λ o. q.prompt (p.prompt o);
}

-- An answer is streamed, and no message is shown.
abbrev pub IsOverrun : Model → Type 0
IsOverrun m = (m.streaming_in_progress ≡ true) × (m.messages ≡ [])

abbrev Handled : Model → Result Model → Type 0
Handled m r = ((m' : Model) × (r ≡ ok m') × Stays m m') ⊎ ((r ≡ panic out_of_range) × IsOverrun m)

replace_last-some :
    (new : String) (x : String) (xs : List String)
    → (l : List String) × (replace_last new (x ∷ xs) ≡ some l)
unfolding replace_last
replace_last-some new x [] = (new ∷ [], refl)
replace_last-some new x (y ∷ ys) =
    let (l, e) = replace_last-some new y ys in (x ∷ l, rw (replace_last, e) refl)

snoc-cons :
    (xs : List String) (t : String) → (y : String) × (ys : List String) × (xs ++ t ∷ [] ≡ y ∷ ys)
snoc-cons [] t = (t, [], refl)
snoc-cons (x ∷ xs) t = (x, xs ++ t ∷ [], refl)

say-Stays : (shown : String) (m : Model) → Stays m (say shown m)
unfolding say
say-Stays shown m = record { index = refl; history = refl; prompt = λ o. o }

rewrite_last-some :
    (shown : String) (m : Model) (x : String) (xs : List String)
    → m.messages ≡ x ∷ xs
    → (m' : Model) × (rewrite_last shown m ≡ ok m') × Stays m m'
unfolding rewrite_last
rewrite_last-some shown m x xs e =
    let (l, f) = replace_last-some shown x xs in
    (
      record m { messages = l },
      rw (rewrite_last, e, f) refl,
      record { index = refl; history = refl; prompt = λ o. o },
    )

update_text-same :
    (edit : Msg → String → String) (msg : Msg) (m : Model)
    → ((update_text edit msg m).history_index ≡ m.history_index)
      × ((update_text edit msg m).input_history ≡ m.input_history)
      × ((update_text edit msg m).permission_request ≡ m.permission_request)
unfolding update_text
update_text-same edit msg m = ground arith

update_text-Stays :
    (edit : Msg → String → String) (msg : Msg) (m : Model) → Stays m (update_text edit msg m)
update_text-Stays edit msg m =
    let (index, history, prompt) = update_text-same edit msg m in
    record { index = index; history = history; prompt = λ o. rw prompt o }

update_text-shown :
    (edit : Msg → String → String) (msg : Msg) (m : Model)
    → ((update_text edit msg m).streaming_in_progress ≡ m.streaming_in_progress)
      × ((update_text edit msg m).messages ≡ m.messages)
unfolding update_text
update_text-shown edit msg m = ground arith

module _ (d : Display) where
  open_stream-Stays : (m : Model) → Stays m (open_stream d m)
  unfolding open_stream say
  open_stream-Stays m = elim (Bool-cases m.streaming_in_progress) [
    | inl e ↦ rw (open_stream, e) (record { index = refl; history = refl; prompt = λ o. o })
    | inr e ↦ rw (open_stream, e) (record { index = refl; history = refl; prompt = λ o. o })
  ]

  open_stream-messages :
      (m : Model)
      → ((x : String) × (xs : List String) × ((open_stream d m).messages ≡ x ∷ xs))
        ⊎ (IsOverrun m × ((open_stream d m).messages ≡ []))
  unfolding open_stream say
  open_stream-messages m = elim (Bool-cases m.streaming_in_progress) [
    | inl e ↦ elim (List-cases m.messages) [
      | inl f ↦ inr ((e, f), rw (open_stream, e) f)
      | inr (x, xs, f) ↦ inl (x, xs, rw (open_stream, e) f)
    ]
    | inr e ↦
        let (y, ys, f) = snoc-cons m.messages (d.assistant "") in inl (y, ys, rw (open_stream, e) f)
  ]

  llm_token-Handled : (delta : Option String) (m : Model) → Handled m (llm_token d delta m)
  unfolding llm_token
  llm_token-Handled none m = inl (m, refl, record { index = refl; history = refl; prompt = λ o. o })
  llm_token-Handled (some delta) m = elim (Bool-cases (delta == "")) [
    | inl e ↦
        inl (m, rw (llm_token, e) refl, record { index = refl; history = refl; prompt = λ o. o })
    | inr e ↦ elim (open_stream-messages m) [
      | inl (x, xs, f) ↦
          let raw = (open_stream d m).streaming_raw <+> delta in
          let (m', g, stays) =
            rewrite_last-some (d.assistant raw) (record (open_stream d m) { streaming_raw = raw }) x
              xs f in
          inl (
            m',
            rw (llm_token, e) g,
            Stays-trans (open_stream-Stays m)
                (record { index = stays.index; history = stays.history; prompt = stays.prompt }),
          )
      | inr (overrun, f) ↦ inr (rw (llm_token, e, rewrite_last, f) refl, overrun)
    ]
  ]

  show_content-Stays :
      (was : Bool) (content : String) (m : Model) → Stays m (show_content d was content m)
  unfolding show_content say
  show_content-Stays was content m = elim (Bool-cases (content == "")) [
    | inl e ↦ rw (show_content, e) (record { index = refl; history = refl; prompt = λ o. o })
    | inr e ↦ elim (Bool-cases was) [
      | inr f ↦ rw (show_content, e, f) (say-Stays (d.assistant (d.markdown content)) m)
      | inl f ↦ elim (Option-cases (replace_last (d.assistant (d.markdown content)) m.messages)) [
        | inl g ↦ rw (show_content, e, f, g) (say-Stays (d.assistant (d.markdown content)) m)
        | inr (l, g) ↦
            rw (show_content, e, f, g) (record { index = refl; history = refl; prompt = λ o. o })
      ]
    ]
  ]

  show_call-Stays :
      (json : Decoder) (c : ToolUse) (m : Model)
      → Stays m (
          if c.name == "talk"
          then elim (json.talk c.arguments) [
            | none ↦ m
            | some text ↦ say (d.assistant (d.markdown text)) m
          ]
          else say (d.tool_call c.name (json.arguments c.arguments) "running") m)
  show_call-Stays json c m = elim (Bool-cases (c.name == "talk")) [
    | inr e ↦ rw e (say-Stays (d.tool_call c.name (json.arguments c.arguments) "running") m)
    | inl e ↦ elim (Option-cases (json.talk c.arguments)) [
      | inl f ↦ rw (e, f) (record { index = refl; history = refl; prompt = λ o. o })
      | inr (text, f) ↦ rw (e, f) (say-Stays (d.assistant (d.markdown text)) m)
    ]
  ]

  show_calls-Stays :
      (json : Decoder) (cs : List ToolUse) (m : Model) → Stays m (show_calls d json cs m)
  unfolding show_calls
  show_calls-Stays json [] m = record { index = refl; history = refl; prompt = λ o. o }
  show_calls-Stays json (c ∷ cs) m =
      Stays-trans (show_call-Stays json c m) (show_calls-Stays json cs _)

  release-Offers :
      (name : String) (o : Option PermissionPrompt) → Offers o → Offers (release name o)
  unfolding release
  release-Offers name none h = tt
  release-Offers name (some p) h = elim (Bool-cases (p.tool_name == name)) [
    | inl e ↦ rw (release, e) tt
    | inr e ↦ rw (release, e) h
  ]

  tool_result-Stays : (r : Option ResultEvent) (m : Model) → Stays m (tool_result d r m)
  unfolding tool_result release say
  tool_result-Stays none m = record { index = refl; history = refl; prompt = λ o. o }
  tool_result-Stays (some r) m = elim (Bool-cases (r.tool_name == "talk")) [
    | inl e ↦
        rw (tool_result, e)
          (record {
            index = refl;
            history = refl;
            prompt = release-Offers r.tool_name m.permission_request;
          })
    | inr e ↦
        rw (tool_result, e)
          (record {
            index = refl;
            history = refl;
            prompt = release-Offers r.tool_name m.permission_request;
          })
  ]

  llm_response-Stays :
      (json : Decoder) (r : Option ResponseEvent) (m : Model) → Stays m (llm_response d json r m)
  unfolding llm_response
  llm_response-Stays json none m = record { index = refl; history = refl; prompt = λ o. o }
  llm_response-Stays json (some r) m =
      let quiet = record m { streaming_in_progress = false; streaming_raw = "" } in
      let content = show_content-Stays m.streaming_in_progress r.content quiet in
      Stays-trans
        (record { index = content.index; history = content.history; prompt = content.prompt })
        (show_calls-Stays json r.tool_calls _)

  permission_request-Stays :
      (r : Option RequestEvent) (m : Model) → Stays m (permission_request r m)
  unfolding permission_request
  permission_request-Stays none m = record { index = refl; history = refl; prompt = λ o. o }
  permission_request-Stays (some r) m = record {
    index = refl;
    history = refl;
    prompt = λ o. omega arith;
  }

  other_event-Stays :
      (json : Decoder) (e : StreamEvent) (m : Model) → Stays m (other_event d json e m)
  unfolding other_event
  other_event-Stays json e m = elim (Bool-cases (e.type == "llm_response")) [
    | inl a ↦ rw (other_event, a) (llm_response-Stays json (json.response e.body) m)
    | inr a ↦ elim (Bool-cases (e.type == "tool_result")) [
      | inl b ↦ rw (other_event, a, b) (tool_result-Stays (json.result e.body) m)
      | inr b ↦ elim (Bool-cases (e.type == "permission_request")) [
        | inl c ↦ rw (other_event, a, b, c) (permission_request-Stays (json.request e.body) m)
        | inr c ↦ elim (Bool-cases (e.type == "error")) [
          | inl f ↦
              rw (other_event, a, b, c, f)
                (say-Stays (d.system ("🛑 Error: " <+> json.error_text e.body)) m)
          | inr f ↦
              rw (other_event, a, b, c, f)
                (record { index = refl; history = refl; prompt = λ o. o })
        ]
      ]
    ]
  ]

  handle_event-Handled :
      (json : Decoder) (e : StreamEvent) (m : Model)
      → ((m' : Model) × (handle_event d json e m ≡ ok m') × Stays m m')
        ⊎ ((handle_event d json e m ≡ panic out_of_range) × (e.type ≡ "llm_token") × IsOverrun m)
  unfolding handle_event
  handle_event-Handled json e m = elim (Bool-cases (e.type == "llm_token")) [
    | inr a ↦ inl (other_event d json e m, rw (handle_event, a) refl, other_event-Stays json e m)
    | inl a ↦ elim (llm_token-Handled (json.delta e.body) m) [
      | inl (m', b, s) ↦ inl (m', rw (handle_event, a) b, s)
      | inr (b, o) ↦ inr (rw (handle_event, a) b, (eq_iff e.type "llm_token").0 a, o)
    ]
  ]

  module _ (json : Decoder) where
    -- The one message that Update does not survive.
    abbrev pub Overruns : Msg → Model → Type 0
    Overruns msg m = (e : StreamEvent) × (msg ≡ event e) × (e.type ≡ "llm_token") × IsOverrun m

    dispatch_event :
        (e : StreamEvent) (m : Model)
        → IsValid m
        → Ends (dispatch json d (event e) m)
          ⊎ ((dispatch json d (event e) m ≡ panic out_of_range) × Overruns (event e) m)
    unfolding dispatch
    dispatch_event e m v = elim (handle_event-Handled json e (record m { waiting = false })) [
      | inl (m', a, s) ↦ inl (
        m',
        Cmd.wait_for_next_event,
        rw (dispatch, a) refl,
        Stays-IsValid (record { index = s.index; history = s.history; prompt = s.prompt }) v,
      )
      | inr (a, t, o) ↦ inr (rw (dispatch, a) refl, (e, refl, t, o))
    ]

    on_key_asked :
        (k : Key) (p : PermissionPrompt) (m : Model)
        → m.permission_request ≡ some p
        → on_key json d k m ≡ ok (permission_key k.name p m)
    unfolding on_key
    on_key_asked k p m a = ground arith

    on_key-Ends : (k : Key) (m : Model) → IsValid m → Ends (on_key json d k m)
    unfolding on_key
    on_key-Ends k m v = elim (Option-cases m.permission_request) [
      | inl a ↦ rw (on_key, a) (plain_key-Ends d k.type m v)
      | inr (p, a) ↦ (
        (permission_key k.name p m).0,
        (permission_key k.name p m).1,
        on_key_asked k p m a,
        permission_key-IsValid k.name p m a v,
      )
    ]

    dispatch-Ends :
        (msg : Msg) (m : Model)
        → IsValid m
        → Ends (dispatch json d msg m)
          ⊎ ((dispatch json d msg m ≡ panic out_of_range) × Overruns msg m)
    unfolding dispatch say
    dispatch-Ends (Msg.key k) m v = inl (on_key-Ends k m v)
    dispatch-Ends (Msg.failure x) m v =
        inl (_, _, refl, record { history = v.history; options = v.options })
    dispatch-Ends (Msg.session_created id pending) m v = elim (Bool-cases (pending == "")) [
      | inl a ↦ rw a (inl (_, _, refl, record { history = v.history; options = v.options }))
      | inr a ↦ rw a (inl (_, _, refl, record { history = v.history; options = v.options }))
    ]
    dispatch-Ends Msg.stream_ready m v =
        inl (_, _, refl, record { history = v.history; options = v.options })
    dispatch-Ends Msg.permission_handled m v =
        inl (_, _, refl, record { history = v.history; options = tt })
    dispatch-Ends (Msg.checkpoints_listed cps) m v =
        inl (_, _, refl, record { history = v.history; options = v.options })
    dispatch-Ends (Msg.rewind_completed r) m v =
        inl (_, _, refl, record { history = v.history; options = v.options })
    dispatch-Ends Msg.window_size m v = inl (m, _, refl, v)
    dispatch-Ends (Msg.event e) m v = dispatch_event e m v
    dispatch-Ends Msg.tick m v = inl (m, _, refl, v)

    -- From a model whose indices are in range every message leads to another, unless it is a token
    -- that comes while an answer is streamed and no message is shown.
    pub update-Ends :
        (edit : Msg → String → String) (msg : Msg) (m : Model)
        → IsValid m
        → Ends (update json d edit msg m)
          ⊎ ((update json d edit msg m ≡ panic out_of_range) × Overruns msg m)
    unfolding update
    update-Ends edit msg m v =
        elim (dispatch-Ends msg (update_text edit msg m)
          (Stays-IsValid (update_text-Stays edit msg m) v)) [
            | inl r ↦ inl r
            | inr (a, (e, b, t, (s, f))) ↦ inr (
              a,
              (
                e,
                b,
                t,
                (
                  sym (update_text-shown edit msg m).0 ∙ s,
                  sym (update_text-shown edit msg m).1 ∙ f,
                ),
              ),
            )
          ]
