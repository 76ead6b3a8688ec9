-- ===== src/Cli/Repl/Prompt.antt =====
-- What a key does while a permission is asked for.
use gm_agent.Prelude.{
  ℕ, ◌+◌, ◌-◌, ◌≤◌, String, Bool, true, false, some, ◌≡◌, ◌⊎◌, ◌||◌, inl, inr, refl, arith, ltb,
  eq_iff, Bool-cases, ◌==◌,
}
use gm_agent.Prelude.Result.{ok}
use gm_agent.Cli.Repl.Screen.{
  PermissionPrompt, Model, Cmd, idle, submit_permission, Key, Msg, key, Decoder, Display,
}
use gm_agent.Cli.Repl.Keys.{
  PromptKey, allow_key, deny_key, always_key, deny_all_key, up_key, down_key, enter_key,
  ignored_key, prompt_key, answer_key, answer, execute_selected, permission_key,
}
use gm_agent.Cli.Repl.Update.{on_key, dispatch, update, update_text}
use gm_agent.Cli.Repl.Laws.{IsValid}

-- How a key answers a prompt: whether it approves, and whether for good.
pub data Chosen (p : PermissionPrompt) : String → Bool → Bool → Type 0 where
  allow_once : (name : String) → (name ≡ "y") ⊎ (name ≡ "Y") → Chosen p name true false
  deny : (name : String) → (name ≡ "n") ⊎ (name ≡ "N") → Chosen p name false false
  always_allow : (name : String) → (name ≡ "a") ⊎ (name ≡ "A") → Chosen p name true true
  deny_all : (name : String) → (name ≡ "d") ⊎ (name ≡ "D") → Chosen p name false true
  first_option : (name : String) → name ≡ "enter" → p.selected_option ≡ 0 → Chosen p name true false
  second_option :
      (name : String) → name ≡ "enter" → p.selected_option ≡ 1 → Chosen p name false false
  third_option : (name : String) → name ≡ "enter" → p.selected_option ≡ 2 → Chosen p name true true
  fourth_option :
      (name : String) → name ≡ "enter" → p.selected_option ≡ 3 → Chosen p name false true

-- What a key does while a permission is asked for: it answers this request as chosen, it moves the
-- selection, or it does nothing.
pub data Outcome (name : String) (p : PermissionPrompt) (m : Model) (r : Model × Cmd) : Type 0 where
  answered :
      (approved always : Bool)
      → Chosen p name approved always
      → r ≡ (m, submit_permission m.session_id p.request_id approved always)
      → Outcome name p m r
  moved :
      (n : ℕ)
      → n ≤ 3
      → r ≡ (record m { permission_request = some (record p { selected_option = n }) }, idle)
      → Outcome name p m r
  ignored : r ≡ (m, idle) → Outcome name p m r

four : (n : ℕ) → n ≤ 3 → (n ≡ 0) ⊎ ((n ≡ 1) ⊎ ((n ≡ 2) ⊎ (n ≡ 3)))
four n h = ground arith

execute_selected-Outcome :
    (name : String) (p : PermissionPrompt) (m : Model)
    → name ≡ "enter"
    → p.selected_option ≤ 3
    → Outcome name p m (m, execute_selected m p)
unfolding execute_selected answer
execute_selected-Outcome name p m e h = elim (four p.selected_option h) [
  | inl a ↦ answered true false (first_option name e a) (rw (execute_selected, a) refl)
  | inr (inl a) ↦ answered false false (second_option name e a) (rw (execute_selected, a) refl)
  | inr (inr (inl a)) ↦ answered true true (third_option name e a) (rw (execute_selected, a) refl)
  | inr (inr (inr a)) ↦ answered false true (fourth_option name e a) (rw (execute_selected, a) refl)
]

-- The texts of a key.
abbrev pub Named : PromptKey → String → Type 0
Named allow_key name = (name ≡ "y") ⊎ (name ≡ "Y")
Named deny_key name = (name ≡ "n") ⊎ (name ≡ "N")
Named always_key name = (name ≡ "a") ⊎ (name ≡ "A")
Named deny_all_key name = (name ≡ "d") ⊎ (name ≡ "D")
Named up_key name = (name ≡ "up") ⊎ (name ≡ "k")
Named down_key name = (name ≡ "down") ⊎ (name ≡ "j")
Named enter_key name = name ≡ "enter"
Named ignored_key name = Unit

either : (name a b : String) → (name == a || name == b) ≡ true → (name ≡ a) ⊎ (name ≡ b)
either name a b h = ground (arith, eq_iff name a, eq_iff name b)

prompt_key-Named : (name : String) → Named (prompt_key name) name
unfolding prompt_key
prompt_key-Named name = elim (Bool-cases (name == "y" || name == "Y")) [
  | inl e ↦ rw (prompt_key, e) (either name "y" "Y" e)
  | inr e0 ↦ elim (Bool-cases (name == "n" || name == "N")) [
    | inl e ↦ rw (prompt_key, e0, e) (either name "n" "N" e)
    | inr e1 ↦ elim (Bool-cases (name == "a" || name == "A")) [
      | inl e ↦ rw (prompt_key, e0, e1, e) (either name "a" "A" e)
      | inr e2 ↦ elim (Bool-cases (name == "d" || name == "D")) [
        | inl e ↦ rw (prompt_key, e0, e1, e2, e) (either name "d" "D" e)
        | inr e3 ↦ elim (Bool-cases (name == "up" || name == "k")) [
          | inl e ↦ rw (prompt_key, e0, e1, e2, e3, e) (either name "up" "k" e)
          | inr e4 ↦ elim (Bool-cases (name == "down" || name == "j")) [
            | inl e ↦ rw (prompt_key, e0, e1, e2, e3, e4, e) (either name "down" "j" e)
            | inr e5 ↦ elim (Bool-cases (name == "enter")) [
              | inl e ↦ rw (prompt_key, e0, e1, e2, e3, e4, e5, e) ((eq_iff name "enter").0 e)
              | inr e6 ↦ rw (prompt_key, e0, e1, e2, e3, e4, e5, e6) tt
            ]
          ]
        ]
      ]
    ]
  ]
]

answer_key-Outcome :
    (k : PromptKey) (name : String) (p : PermissionPrompt) (m : Model)
    → Named k name
    → p.selected_option ≤ 3
    → Outcome name p m (answer_key k p m)
unfolding answer_key answer
answer_key-Outcome allow_key name p m e h = answered true false (allow_once name e) refl
answer_key-Outcome deny_key name p m e h = answered false false (deny name e) refl
answer_key-Outcome always_key name p m e h = answered true true (always_allow name e) refl
answer_key-Outcome deny_all_key name p m e h = answered false true (deny_all name e) refl
answer_key-Outcome up_key name p m e h = elim (Bool-cases (ltb 0 p.selected_option)) [
  | inl t ↦ moved (p.selected_option - 1) (omega arith) (rw t refl)
  | inr t ↦ ignored (rw t refl)
]
answer_key-Outcome down_key name p m e h = elim (Bool-cases (ltb p.selected_option 3)) [
  | inl t ↦ moved (p.selected_option + 1) (ground arith) (rw t refl)
  | inr t ↦ ignored (rw t refl)
]
answer_key-Outcome enter_key name p m e h = execute_selected-Outcome name p m e h
answer_key-Outcome ignored_key name p m e h = ignored refl

pub permission_key-Outcome :
    (name : String) (p : PermissionPrompt) (m : Model)
    → p.selected_option ≤ 3
    → Outcome name p m (permission_key name p m)
unfolding permission_key
permission_key-Outcome name p m h =
    answer_key-Outcome (prompt_key name) name p m (prompt_key-Named name) h

pub permission_key-IsValid :
    (name : String) (p : PermissionPrompt) (m : Model)
    → m.permission_request ≡ some p
    → IsValid m
    → IsValid (permission_key name p m).0
permission_key-IsValid name p m asked v =
    elim (permission_key-Outcome name p m (rw asked at (v.options))) [
      | answered approved always c e ↦ rw e v
      | moved n h e ↦ rw e (record { history = v.history; options = h })
      | ignored e ↦ rw e v
    ]

-- While a permission is asked for, a key sends nothing but an answer to this request, and the text
-- stays as it is.
pub update-Outcome :
    (json : Decoder) (d : Display) (edit : Msg → String → String) (k : Key) (p : PermissionPrompt)
    (m : Model)
    → m.permission_request ≡ some p
    → p.selected_option ≤ 3
    → (r : Model × Cmd) × (update json d edit (key k) m ≡ ok r) × Outcome k.name p m r
unfolding update dispatch update_text on_key
update-Outcome json d edit k p m asked h =
    (permission_key k.name p m, ground arith, permission_key-Outcome k.name p m h)
