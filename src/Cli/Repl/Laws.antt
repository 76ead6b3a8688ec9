-- ===== src/Cli/Repl/Laws.antt =====
-- The terminal program: its indices stay in range under every key.
use gm_agent.Prelude.{
  ℕ, zero, suc, ◌-◌, ◌<◌, ◌≤◌, String, Option, none, some, Option-cases, List, [], ◌∷◌, ◌≡◌, ◌⊎◌,
  ◌||◌, inl, inr, refl, ◌∙◌, length, arith, Bool-cases, List-cases, ◌==◌,
}
use gm_agent.Prelude.Result.{Result, ok}
use gm_agent.Prelude.Trim.{trim_space, trim_prefix}
use gm_agent.Cli.Repl.Screen.{
  PermissionPrompt, Model, Cmd, idle, KeyType, Display, say, get_elem?, from_end,
}
use gm_agent.Cli.Repl.Keys.{
  fields, show_entry, key_up, key_down, key_enter, plain_key, next_index, rewind_command, chat,
  session_command, run_command,
}

-- The index stands in the history.
abbrev pub Fits : Option ℕ → List String → Type 0
Fits none history = Unit
Fits (some i) history = i < length history

-- The selected option is one of four.
abbrev pub Offers : Option PermissionPrompt → Type 0
Offers none = Unit
Offers (some p) = p.selected_option ≤ 3

pub record IsValid (m : Model) : Type 0 where
  pub history : Fits m.history_index m.input_history
  pub options : Offers m.permission_request

get_elem?-some : (l : List String) (i : ℕ) → i < length l → (t : String) × (get_elem? l i ≡ some t)
unfolding get_elem?
get_elem?-some [] i h = elim h [ ]
get_elem?-some (x ∷ l) zero h = (x, refl)
get_elem?-some (x ∷ l) (suc i) h = get_elem?-some l i (omega arith)

from_end-some : (l : List String) (i : ℕ) → i < length l → (t : String) × (from_end l i ≡ some t)
unfolding from_end
from_end-some l i h =
    let (t, e) = get_elem?-some l (length l - 1 - i) (omega arith) in (t, ground arith)

-- What a step leaves alone: the history and the prompt.
record Keeps (m : Model) (r : Model × Cmd) : Type 0 where
  index : r.0.history_index ≡ m.history_index
  history : r.0.input_history ≡ m.input_history
  prompt : r.0.permission_request ≡ m.permission_request

Keeps-IsValid : {m : Model} {r : Model × Cmd} → Keeps m r → IsValid m → IsValid r.0
Keeps-IsValid k v = record {
  history = rw (k.index, k.history) v.history;
  options = rw k.prompt v.options;
}

-- A step that returns a valid model.
abbrev pub Ends : Result (Model × Cmd) → Type 0
Ends r = (m : Model) × (c : Cmd) × (r ≡ ok (m, c)) × IsValid m

module _ (d : Display) where
  show_entry-Ends :
      (i : ℕ) (m : Model) → i < length m.input_history → IsValid m → Ends (show_entry i m)
  unfolding show_entry
  show_entry-Ends i m h v =
      let (t, e) = from_end-some m.input_history i h in
      (
        record m { history_index = some i; text = t },
        idle,
        ground arith,
        record { history = h; options = v.options },
      )

  key_up-cases :
      (m : Model)
      → (key_up m ≡ ok (m, idle))
        ⊎ ((next_index m.history_index < length m.input_history)
            × (key_up m ≡ show_entry (next_index m.history_index) m))
  unfolding key_up
  key_up-cases m = ground arith

  key_up-Ends : (m : Model) → IsValid m → Ends (key_up m)
  key_up-Ends m v = elim (key_up-cases m) [
    | inl e ↦ (m, idle, e, v)
    | inr (h, e) ↦
        let (m', c, shown, v') = show_entry-Ends (next_index m.history_index) m h v in
        (m', c, e ∙ shown, v')
  ]

  key_down-cases :
      (m : Model)
      → IsValid m
      → (key_down m ≡ ok (m, idle))
        ⊎ ((key_down m ≡ ok (record m { history_index = none; text = "" }, idle))
            ⊎ ((i : ℕ) × (i < length m.input_history) × (key_down m ≡ show_entry i m)))
  unfolding key_down
  key_down-cases m v = elim (Option-cases m.history_index) [
    | inl e ↦ inl (ground arith)
    | inr (zero, e) ↦ inr (inl (ground arith))
    | inr (suc i, e) ↦ inr (inr (i, ground arith, ground arith))
  ]

  key_down-Ends : (m : Model) → IsValid m → Ends (key_down m)
  key_down-Ends m v = elim (key_down-cases m v) [
    | inl e ↦ (m, idle, e, v)
    | inr (inl e) ↦ (
      record m { history_index = none; text = "" },
      idle,
      e,
      record { history = tt; options = v.options },
    )
    | inr (inr (i, h, e)) ↦
        let (m', c, shown, v') = show_entry-Ends i m h v in (m', c, e ∙ shown, v')
  ]

  rewind_command-Keeps : (input : String) (m : Model) → Keeps m (rewind_command d input m)
  unfolding rewind_command say
  rewind_command-Keeps input m = elim (Bool-cases (m.session_id == "")) [
    | inl e ↦ rw (rewind_command, e) (record { index = refl; history = refl; prompt = refl })
    | inr e ↦ elim (List-cases (fields (trim_space (trim_prefix input "/rewind ")))) [
      | inl f ↦ rw (rewind_command, e, f) (record { index = refl; history = refl; prompt = refl })
      | inr (x, xs, f) ↦
          rw (rewind_command, e, f) (record { index = refl; history = refl; prompt = refl })
    ]
  ]

  session_command-Keeps : (input : String) (m : Model) → Keeps m (session_command d input m)
  unfolding session_command chat say
  session_command-Keeps input m = ground (arith, rewind_command-Keeps input m)

  run_command-Keeps : (input : String) (m : Model) → Keeps m (run_command d input m)
  unfolding run_command say
  run_command-Keeps input m = ground (arith, session_command-Keeps input m)

  key_enter-IsValid : (m : Model) → IsValid m → IsValid (key_enter d m).0
  unfolding key_enter
  key_enter-IsValid m v = elim (Bool-cases (m.waiting || trim_space m.text == "")) [
    | inl e ↦ rw (key_enter, e) v
    | inr e ↦
        rw (key_enter, e)
          (Keeps-IsValid (run_command-Keeps (trim_space m.text) _)
            (record { history = tt; options = v.options }))
  ]

  pub plain_key-Ends : (t : KeyType) (m : Model) → IsValid m → Ends (plain_key d t m)
  unfolding plain_key
  plain_key-Ends KeyType.ctrl_c m v = (m, Cmd.quit, refl, v)
  plain_key-Ends KeyType.esc m v = (m, Cmd.quit, refl, v)
  plain_key-Ends KeyType.up m v = key_up-Ends m v
  plain_key-Ends KeyType.down m v = key_down-Ends m v
  plain_key-Ends KeyType.enter m v =
      ((key_enter d m).0, (key_enter d m).1, refl, key_enter-IsValid m v)
  plain_key-Ends KeyType.other m v = (m, Cmd.components, refl, v)
