-- ===== src/Patch/Engine/Effect.antt =====
-- What an Apply without an error does to the file, where the diff applies in full.
use gm_agent.Prelude.{
  ℕ, ◌+◌, String, Bool, true, false, not, ◌&&◌, none, List, [], ◌∷◌, ◌++◌, ◌≡◌, refl, inl, inr,
  Option-cases, some-none,
}
use gm_agent.Prelude.Result.{Reply, value, failed}
use gm_agent.Types.Tool.{FileChange}
use gm_agent.Types.Command.{ApplyPatchCommand}
use gm_agent.External.{External, generate_id}
use gm_agent.Patch.Engine.{
  Os, ApplyDiff, PatchConfig, ApplyResult, Applied, all_applied, validate_path, read_current,
  write_file, stop, result_of_patch, change_of, record_change, commit, patch_file, after_backup,
  apply,
}

module _ (ext : External) {W : Type 0} (os : Os W) (apply_diff : ApplyDiff)
    (cfg : PatchConfig) where
  -- The text was the last thing written to the file, and the change was recorded.
  abbrev pub Wrote : String → String → List FileChange → Applied W → Type 0
  Wrote path text tracker a =
      (w : W) × ((write_file os cfg path text w).0 ≡ none)
      × ((write_file os cfg path text w).1 ≡ a.world)
      × (change : FileChange) × (a.tracker ≡ tracker ++ change ∷ [])
      × (change.file_path ≡ path)

  commit-Wrote :
      (r : ApplyResult) (content new : String) (tracker : List FileChange) (n : ℕ) (w : W)
      → (commit ext os apply_diff cfg r content new tracker n w).error ≡ none
      → Wrote r.file_path new tracker (commit ext os apply_diff cfg r content new tracker n w)
  unfolding commit record_change change_of
  commit-Wrote r content new tracker n w fine =
      elim (Option-cases (write_file os cfg r.file_path new w).0) [
        | inl e ↦ rw (e, commit) (w, e, refl, change_of ext os apply_diff cfg r content, refl, refl)
        | inr (x, e) ↦ absurd (some-none (rw (e, commit) at fine))
      ]

  after_backup-Wrote :
      (cmd : ApplyPatchCommand) (patch_id content new : String) (results : List Bool)
      (tracker : List FileChange) (n : ℕ) (back : Reply String × W)
      → cmd.dry_run ≡ false
      → apply_diff cmd.diff content ≡ value (new, results)
      → all_applied results ≡ true
      → (after_backup ext os apply_diff cfg cmd patch_id content tracker n back).error ≡ none
      → Wrote cmd.file_path new tracker
          (after_backup ext os apply_diff cfg cmd patch_id content tracker n back)
  unfolding after_backup patch_file result_of_patch stop
  after_backup-Wrote cmd patch_id content new results tracker n (failed x, w) real diff all fine =
      absurd (some-none fine)
  after_backup-Wrote cmd patch_id content new results tracker n (value b, w) real diff all fine =
      let r = result_of_patch ext os apply_diff cfg cmd patch_id b results in
      let runs : (not cmd.dry_run && all_applied results) ≡ true = rw (real, all) refl in
      rw (diff, runs, patch_file)
        (commit-Wrote r content new tracker n w (rw (diff, runs, patch_file) at fine))

  pub apply-Wrote :
      (cmd : ApplyPatchCommand) (content new : String) (results : List Bool)
      (tracker : List FileChange) (n : ℕ) (w : W)
      → cmd.dry_run ≡ false
      → read_current os cfg cmd.file_path w ≡ value content
      → apply_diff cmd.diff content ≡ value (new, results)
      → all_applied results ≡ true
      → (apply ext os apply_diff cfg cmd tracker n w).error ≡ none
      → Wrote cmd.file_path new tracker (apply ext os apply_diff cfg cmd tracker n w)
  unfolding apply stop
  apply-Wrote cmd content new results tracker n w real read diff all fine =
      elim (Option-cases (validate_path os cfg cmd.file_path)) [
        | inr (x, e) ↦ absurd (some-none (rw (e, apply) at fine))
        | inl accepted ↦
            rw (accepted, read, apply)
              (after_backup-Wrote cmd (generate_id ext "pch" n) content new results tracker (n + 2)
                _ real diff all (rw (accepted, read, apply) at fine))
      ]
