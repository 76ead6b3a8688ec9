-- ===== src/Tools/Edit/Effect.antt =====
-- An edit_file call that reports success has changed the first occurrence, and nothing else, of the
-- file.
use gm_agent.Prelude.{
  some, true-false, ℕ, ◌+◌, String, Bool, true, none, List, [], ◌∷◌, ◌++◌, ◌≡◌, ◌≢◌, refl, sym, ap,
  ◌∙◌, inl, inr, ◌==◌, ◌<+>◌, Bool-cases, Option-cases,
}
use gm_agent.Prelude.Result.{Error, value, ok, err, panic, value_injective, Reply-cases}
use gm_agent.Types.Tool.{FileChange}
use gm_agent.External.{External}
use gm_agent.Patch.Engine.{
  Os, ApplyDiff, PatchConfig, ApplyResult, Applied, absolute, read_current, write_file,
}
use gm_agent.Patch.Engine.Laws.{AllApplied, AllApplied-all_applied, apply-Records}
use gm_agent.Patch.Engine.Effect.{Wrote, apply-Wrote}
use gm_agent.Tools.Edit.{
  EditFileArgs, EditLib, Handled, replace, generate_diff, patch_command, apply_text, refuse, answer,
  say_edited, edit_content, handle_edit_file,
}
use gm_agent.Tools.Edit.Laws.{FirstAt, replace-cases}

err-ok : {A : Type 0} {x : Error} {a : A} → err x ≢ ok a
err-ok h = cc

panic-ok : {A : Type 0} {p : String} {a : A} → panic p ≢ ok a
panic-ok h = cc

some_injective : {A : Type 0} {a b : A} → some a ≡ some b → a ≡ b
some_injective h = cc

module _ (ext : External) {W : Type 0} (os : Os W) (apply_diff : ApplyDiff) (cfg : PatchConfig)
    (lib : EditLib) where
  -- A diff that the library made for two texts, where each of its hunks applies to the first, gives the
  -- second. Whether they apply is left open.
  abbrev pub Lawful : Type 0
  Lawful =
      (old new diff result : String) (results : List Bool)
      → generate_diff lib old new ≡ value diff
      → apply_diff diff old ≡ value (result, results)
      → AllApplied results
      → result ≡ new

  -- The world in which the file was written with the first old text, and no more, exchanged.
  abbrev pub Edited : EditFileArgs → String → List FileChange → Handled W → Type 0
  Edited args content tracker h =
      (pre : String) × (post : String) × FirstAt content args.old_content pre post
      × (w : W) × ((write_file os cfg args.path (pre <+> args.new_content <+> post) w).0 ≡ none)
      × ((write_file os cfg args.path (pre <+> args.new_content <+> post) w).1 ≡ h.world)
      × (change : FileChange) × (h.tracker ≡ tracker ++ change ∷ [])
      × (change.file_path ≡ args.path)

  -- A success is reported of a result that reports one.
  answer-ok :
      (path said : String) (a : Applied W)
      → (answer ext os apply_diff cfg lib (say_edited ext os apply_diff cfg lib path) a).reply
        ≡ ok said
      → (a.error ≡ none) × ((r : ApplyResult) × (a.result ≡ some r) × (r.success ≡ true))
  unfolding answer say_edited
  answer-ok path said a h = elim (Option-cases a.error) [
    | inr (x, e) ↦ absurd (err-ok (rw (e) at h))
    | inl fine ↦ elim (Option-cases a.result) [
      | inl e ↦ absurd (panic-ok (rw (fine, e) at h))
      | inr (r, e) ↦ elim (Bool-cases r.success) [
        | inl success ↦ (fine, (r, e, success))
        | inr failure ↦ absurd (err-ok (rw (fine, e, say_edited, failure) at h))
      ]
    ]
  ]

  apply_text-Wrote :
      (args : EditFileArgs) (content diff : String) (tracker : List FileChange) (n : ℕ) (w : W)
      (r : ApplyResult)
      → Lawful
      → read_current os cfg args.path w ≡ value content
      → generate_diff lib content (replace content args.old_content args.new_content) ≡ value diff
      → (apply_text ext os apply_diff cfg lib args.path diff tracker n w).error ≡ none
      → (apply_text ext os apply_diff cfg lib args.path diff tracker n w).result ≡ some r
      → r.success ≡ true
      → Wrote ext os apply_diff cfg args.path
          (replace content args.old_content args.new_content)
          tracker
          (apply_text ext os apply_diff cfg lib args.path diff tracker n w)
  unfolding apply_text patch_command
  apply_text-Wrote args content diff tracker n w r lawful read made fine result success =
      let cmd = patch_command ext os apply_diff cfg lib args.path diff n in
      elim (apply-Records ext os apply_diff cfg cmd tracker (n + 1) w) [
        | inl (error, _) ↦ absurd (error fine)
        | inr (r', text, new, results, _, result', _, read', applies, outcome, _) ↦
            let same : text ≡ content = value_injective (sym read' ∙ read) in
            let whole : apply_diff diff content ≡ value (new, results) = rw (same) at applies in
            elim outcome [
              | inr (failure, _) ↦ absurd (
                  true-false (
                    sym success
                    ∙ ap (λ (x : ApplyResult). x.success) (some_injective (sym result ∙ result'))
                    ∙ failure))
              | inl (_, all) ↦
                  let e =
                    lawful content (replace content args.old_content args.new_content) diff new
                      results made whole all in
                  rw (← e) (
                    apply-Wrote ext os apply_diff cfg cmd content new results tracker (n + 1) w refl
                      read whole (AllApplied-all_applied results all) fine)
            ]
      ]

  edit_content-Edited :
      (args : EditFileArgs) (content said : String) (tracker : List FileChange) (n : ℕ) (w : W)
      → Lawful
      → read_current os cfg args.path w ≡ value content
      → (edit_content ext os apply_diff cfg lib args content tracker n w).reply ≡ ok said
      → Edited args content tracker
          (edit_content ext os apply_diff cfg lib args content tracker n w)
  unfolding edit_content refuse answer apply_text
  edit_content-Edited args content said tracker n w lawful read h =
      elim (replace-cases content args.old_content args.new_content) [
        | inr (gone, _, _) ↦ absurd (err-ok (rw (gone, edit_content) at h))
        | inl (there, (pre, post, at, e)) ↦
            elim (Reply-cases
              (generate_diff lib content (replace content args.old_content args.new_content))) [
                | inr (x, fails) ↦ absurd (err-ok (rw (there, fails, edit_content) at h))
                | inl (diff, made) ↦
                    let (fine, (r, result, success)) =
                      answer-ok args.path said
                        (apply_text ext os apply_diff cfg lib args.path diff tracker n w)
                        (rw (there, made, edit_content) at h) in
                    let (v, no_error, end, change, tracked, path) =
                      apply_text-Wrote args content diff tracker n w r lawful read made fine result
                        success in
                    rw (there, made, edit_content)
                      (
                        pre,
                        post,
                        at,
                        v,
                        ap (λ (t : String). (write_file os cfg args.path t v).0) (sym e) ∙ no_error,
                        ap (λ (t : String). (write_file os cfg args.path t v).1) (sym e) ∙ end,
                        change,
                        tracked,
                        path,
                      )
              ]
      ]

  -- Where an edit_file call reports success, its file held the old text at some place; the file was then
  -- written with the new text at the first such place and the rest as it was, and the change was recorded
  -- in the tracker, for a diff library whose diffs give
  -- the text they were made for where they apply in full, and the engine's working directory as the one
  -- of the process.
  pub handle_edit_file-Edited :
      (args_json said : String) (args : EditFileArgs) (tracker : List FileChange) (n : ℕ) (w : W)
      → Lawful
      → lib.unmarshal_edit args_json ≡ value args
      → os.read_file (absolute os cfg args.path) w ≡ os.read_file args.path w
      → (handle_edit_file ext os apply_diff cfg lib args_json tracker n w).reply ≡ ok said
      → (content : String) × (os.read_file args.path w ≡ value content)
        × Edited args content tracker
            (handle_edit_file ext os apply_diff cfg lib args_json tracker n w)
  unfolding handle_edit_file refuse read_current
  handle_edit_file-Edited args_json said args tracker n w lawful parsed same h =
      elim (Bool-cases (args.path == "")) [
        | inl empty ↦ absurd (err-ok (rw (parsed, empty, handle_edit_file) at h))
        | inr given ↦ elim (Reply-cases (os.read_file args.path w)) [
          | inr (x, e) ↦ absurd (err-ok (rw (parsed, given, e, handle_edit_file) at h))
          | inl (content, e) ↦ (
            content,
            e,
            rw (parsed, given, e, handle_edit_file)
                (edit_content-Edited args content said tracker n w lawful
                  (rw (read_current, same, e) refl) (rw (parsed, given, e, handle_edit_file) at h)),
          )
        ]
      ]
