-- ===== src/Tool/Executor/Laws.antt =====
-- What the executor guarantees: no handler runs against the policy or without consent.
use gm_agent.Prelude.{
  ℕ, ◌≡◌, refl, sym, ap, ◌≢◌, ◌⊎◌, inl, inr, Bool, true, false, none, some, Option-cases,
}
use gm_agent.Prelude.Dict.{lookup}
use gm_agent.Prelude.Result.{Result, Error, ok_injective, ok, err, panic}
use gm_agent.Types.Tool.{Tool, ToolCall, ToolResult, RuntimeMode}
use gm_agent.Tool.Registry.{get}
use gm_agent.Tool.Policy.{PolicyAction, allow, deny, confirm, check}
use gm_agent.Tool.Policy.Laws.{Unrestricted, check_iff}
use gm_agent.Tool.Executor.{
  Handler, Executor, PermissionCallback, result_of, denied_by_user, run_handler, permission_request,
  after_approval, confirm_call, act, execute,
}
use gm_agent.External.{External}

-- A call that ends without a result and changes nothing.
abbrev pub Fails : {W : Type 0} → Result ToolResult × W → W → Type 0
Fails (r, w') w = ((a : ToolResult) → r ≢ ok a) × (w' ≡ w)

module _ (ext : External) {W : Type 0} (e : Executor W) (mode : RuntimeMode) (call : ToolCall)
    (n : ℕ) (w : W) where
  -- How a handler comes to run, and in which world.
  pub data Consent (tool : Tool) : W → Type 0 where
    by_policy : check ext e.policy mode call.name call.arguments w ≡ ok allow → Consent tool w
    unasked :
        check ext e.policy mode call.name call.arguments w ≡ ok confirm
        → e.permission_callback ≡ none
        → Consent tool w
    by_user :
        {w' : W} (ask : PermissionCallback W)
        → check ext e.policy mode call.name call.arguments w ≡ ok confirm
        → e.permission_callback ≡ some ask
        → ask (permission_request ext tool call n) w ≡ (ok true, w')
        → Consent tool w'

  -- The user said no, and nothing happened after that.
  pub record Refused (r : ToolResult) (w' : W) : Type 0 where
    pub tool : Tool
    pub registered : get call.name e.registry ≡ some tool
    pub checked : check ext e.policy mode call.name call.arguments w ≡ ok confirm
    pub ask : PermissionCallback W
    pub callback : e.permission_callback ≡ some ask
    pub asked : ask (permission_request ext tool call n) w ≡ (ok false, w')
    pub result : r ≡ denied_by_user call

  pub record Ran (r : ToolResult) (w' : W) : Type 0 where
    pub tool : Tool
    pub registered : get call.name e.registry ≡ some tool
    pub before : W
    pub consent : Consent tool before
    pub handler : Handler W
    pub handled : lookup call.name e.handlers ≡ some handler
    pub result : r ≡ result_of call (handler call.arguments before).0
    pub world : w' ≡ (handler call.arguments before).1

  not_run :
      {x : Error} {before w' : W} {r : ToolResult}
      → ◌≡◌ {A = Result ToolResult × W} (err x, before) (ok r, w')
      → ⊥
  not_run h = cc (ap (λ (t : Result ToolResult × W). t.0) h)

  run_handler-eq-ok :
      (before : W) (r : ToolResult) (w' : W)
      → run_handler e call before ≡ (ok r, w')
      → (h : Handler W) × (lookup call.name e.handlers ≡ some h)
        × (r ≡ result_of call (h call.arguments before).0)
        × (w' ≡ (h call.arguments before).1)
  unfolding run_handler
  run_handler-eq-ok before r w' h = elim (Option-cases (lookup call.name e.handlers)) [
    | inl missing ↦ absurd (not_run (rw (missing, run_handler) at h))
    | inr (handler, found) ↦
        let h' = rw (found, run_handler) at h in
        (
          handler,
          found,
          ok_injective _ _ (sym (ap (λ (t : Result ToolResult × W). t.0) h')),
          sym (ap (λ (t : Result ToolResult × W). t.1) h'),
        )
  ]

  Ran-of_handler :
      (tool : Tool) (before : W) (r : ToolResult) (w' : W)
      → get call.name e.registry ≡ some tool
      → Consent tool before
      → run_handler e call before ≡ (ok r, w')
      → Ran r w'
  Ran-of_handler tool before r w' registered consent h =
      let (handler, handled, result, world) = run_handler-eq-ok before r w' h in
      record {
        tool = tool;
        registered = registered;
        before = before;
        consent = consent;
        handler = handler;
        handled = handled;
        result = result;
        world = world;
      }

  approved-Ran :
      (tool : Tool) (ask : PermissionCallback W) (answer : Result Bool) (w1 : W) (r : ToolResult)
      (w' : W)
      → get call.name e.registry ≡ some tool
      → check ext e.policy mode call.name call.arguments w ≡ ok confirm
      → e.permission_callback ≡ some ask
      → ask (permission_request ext tool call n) w ≡ (answer, w1)
      → after_approval e call answer w1 ≡ (ok r, w')
      → Refused r w' ⊎ Ran r w'
  unfolding after_approval
  approved-Ran tool ask (ok true) w1 r w' registered checked there asked h =
      inr (Ran-of_handler tool w1 r w' registered (by_user ask checked there asked) h)
  approved-Ran tool ask (ok false) w1 r w' registered checked there asked h = inl (record {
    tool = tool;
    registered = registered;
    checked = checked;
    ask = ask;
    callback = there;
    asked = rw (ap (λ (t : Result ToolResult × W). t.1) h) at asked;
    result = ok_injective _ _ (sym (ap (λ (t : Result ToolResult × W). t.0) h));
  })
  approved-Ran tool ask (err x) w1 r w' registered checked there asked h = absurd (not_run h)
  approved-Ran tool ask (panic p) w1 r w' registered checked there asked h =
      cc (ap (λ (t : Result ToolResult × W). t.0) h)

  confirm_call-Ran :
      (tool : Tool) (r : ToolResult) (w' : W)
      → get call.name e.registry ≡ some tool
      → check ext e.policy mode call.name call.arguments w ≡ ok confirm
      → confirm_call ext e tool call n w ≡ (ok r, w')
      → Refused r w' ⊎ Ran r w'
  unfolding confirm_call
  confirm_call-Ran tool r w' registered checked h = elim (Option-cases e.permission_callback) [
    | inl none_set ↦ inr (
        Ran-of_handler tool w r w' registered (unasked checked none_set)
          (rw (none_set, confirm_call) at h))
    | inr (ask, there) ↦
        approved-Ran tool ask _ _ r w' registered checked there refl (rw (there, confirm_call) at h)
  ]

  act-Ran :
      (tool : Tool) (decision : Result PolicyAction) (r : ToolResult) (w' : W)
      → get call.name e.registry ≡ some tool
      → check ext e.policy mode call.name call.arguments w ≡ decision
      → act ext e tool call n w decision ≡ (ok r, w')
      → Refused r w' ⊎ Ran r w'
  unfolding act
  act-Ran tool (ok allow) r w' registered checked h =
      inr (Ran-of_handler tool w r w' registered (by_policy checked) h)
  act-Ran tool (ok confirm) r w' registered checked h =
      confirm_call-Ran tool r w' registered checked h
  act-Ran tool (ok deny) r w' registered checked h = absurd (not_run h)
  act-Ran tool (err x) r w' registered checked h = absurd (not_run h)
  act-Ran tool (panic p) r w' registered checked h = cc (ap (λ (t : Result ToolResult × W). t.0) h)

  execute-Ran_cases :
      (r : ToolResult) (w' : W) → execute ext e mode call n w ≡ (ok r, w') → Refused r w' ⊎ Ran r w'
  unfolding execute
  execute-Ran_cases r w' h = elim (Option-cases (get call.name e.registry)) [
    | inl missing ↦ absurd (not_run (rw (missing, execute) at h))
    | inr (tool, found) ↦ act-Ran tool _ r w' found refl (rw (found, execute) at h)
  ]

  act-Fails :
      (tool : Tool) (decision : Result PolicyAction)
      → ((a : PolicyAction) → decision ≢ ok a)
      → Fails (act ext e tool call n w decision) w
  unfolding act
  act-Fails tool (ok a) h = absurd (h a refl)
  act-Fails tool (err x) h = (λ a p. cc, refl)
  act-Fails tool (panic p) h = (λ a q. cc, refl)

  execute-Fails :
      ¬ Unrestricted e.policy.config e.policy.registry mode call.name
      → Fails (execute ext e mode call n w) w
  unfolding execute
  execute-Fails restricted = elim (Option-cases (get call.name e.registry)) [
    | inl missing ↦ rw (missing, execute) (λ a p. cc, refl)
    | inr (tool, found) ↦
        rw (found, execute)
          (act-Fails tool (check ext e.policy mode call.name call.arguments w)
            (λ a p. restricted ((check_iff ext e.policy mode call.name call.arguments w).1 a p)))
  ]

-- A call that returns a result was either refused by the user, and then its result says so and the
-- world is the one that the question left, or it ran the handler of its tool
-- exactly once, on the call's arguments, in the world that the consent left: the policy allowed the
-- call, or asked and had no one to ask, or the user said yes. The result carries the handler's
-- output under the call's id and name.
pub execute-Ran :
    (ext : External) {W : Type 0} (e : Executor W) (mode : RuntimeMode) (call : ToolCall) (n : ℕ)
    (w : W) (r : ToolResult) (w' : W)
    → execute ext e mode call n w ≡ (ok r, w')
    → Refused ext e mode call n w r w' ⊎ Ran ext e mode call n w r w'
execute-Ran ext e mode call n w r w' h = execute-Ran_cases ext e mode call n w r w' h

-- A call that a hard restriction of the policy meets returns no result and changes nothing: no
-- handler runs and the user is not asked.
pub execute-restricted :
    (ext : External) {W : Type 0} (e : Executor W) (mode : RuntimeMode) (call : ToolCall) (n : ℕ)
    (w : W)
    → ¬ Unrestricted e.policy.config e.policy.registry mode call.name
    → Fails (execute ext e mode call n w) w
execute-restricted ext e mode call n w restricted = execute-Fails ext e mode call n w restricted
