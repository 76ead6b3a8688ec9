-- ===== src/Patch/Engine/Laws.antt =====
-- What Apply of pkg/patch/apply.go does to the files and to the tracker, on every branch.
use gm_agent.Prelude.{
  if◌then◌else◌, some-none, true-false, sym, ◌∙◌, All, Bool, arith, ℕ, ◌+◌, String, true, false,
  not, ◌&&◌, none, some, List, [], ◌∷◌, ◌++◌, ◌≡◌, ◌≢◌, refl, ◌⊎◌, inl, inr, Bool-cases,
  Option-cases,
}
use gm_agent.Prelude.Result.{Reply, value, failed, Reply-cases}
use gm_agent.Types.Tool.{FileChange}
use gm_agent.Types.Command.{ApplyPatchCommand}
use gm_agent.External.{External, generate_id}
use gm_agent.Patch.Engine.{
  Os, ApplyDiff, all_applied, PatchConfig, ApplyResult, Applied, record_change, validate_path,
  read_current, write_file, back_up, stop, commit, result_of_patch, change_of, patch_file,
  after_backup, apply, dry_run,
}

-- Every hunk of a patch was applied.
abbrev pub AllApplied : List Bool → Type 0
AllApplied results = All (λ (applied : Bool). applied ≡ true) results

all_applied-AllApplied : (results : List Bool) → all_applied results ≡ true → AllApplied results
unfolding all_applied
all_applied-AllApplied [] h = tt
all_applied-AllApplied (b ∷ bs) h = (ground arith, all_applied-AllApplied bs (ground arith))

pub AllApplied-all_applied : (results : List Bool) → AllApplied results → all_applied results ≡ true
unfolding all_applied
AllApplied-all_applied [] h = refl
AllApplied-all_applied (b ∷ bs) (h, hs) = rw (h, AllApplied-all_applied bs hs) refl

-- The answer says whether every hunk was applied.
success-cases :
    (results : List Bool)
    → ((all_applied results ≡ true) × AllApplied results)
      ⊎ ((all_applied results ≡ false) × ¬ AllApplied results)
success-cases results = elim (Bool-cases (all_applied results)) [
  | inl all ↦ inl (all, all_applied-AllApplied results all)
  | inr fails ↦ inr (fails, λ h. true-false (sym (AllApplied-all_applied results h) ∙ fails))
]

-- What the tracker gets: nothing after an error; else the change of the result, in a real run of a
-- diff whose every hunk applied to the text of the file, and nothing in any other run.
abbrev pub Records :
    {W : Type 0}
    → Os W
    → ApplyDiff
    → PatchConfig
    → ApplyPatchCommand
    → List FileChange
    → W
    → Applied W
    → Type 0
Records os apply_diff cfg cmd tracker w a =
    ((a.error ≢ none) × (a.tracker ≡ tracker))
    ⊎ ((r : ApplyResult) × (content : String) × (new_content : String) × (results : List Bool)
        × (a.error ≡ none)
        × (a.result ≡ some r)
        × (r.file_path ≡ cmd.file_path)
        × (read_current os cfg cmd.file_path w ≡ value content)
        × (apply_diff cmd.diff content ≡ value (new_content, results))
        × (((r.success ≡ true) × AllApplied results) ⊎ ((r.success ≡ false) × ¬ AllApplied results))
        × (((cmd.dry_run ≡ false)
              × AllApplied results
              × ((change : FileChange) × (a.tracker ≡ tracker ++ change ∷ [])
                  × (change.patch_id ≡ r.patch_id)
                  × (change.file_path ≡ r.file_path)
                  × (change.backup_path ≡ r.backup_path)))
            ⊎ (((cmd.dry_run ≡ true) ⊎ ¬ AllApplied results) × (a.tracker ≡ tracker))))

module _ (ext : External) {W : Type 0} (os : Os W) (apply_diff : ApplyDiff)
    (cfg : PatchConfig) where
  commit-Records :
      (cmd : ApplyPatchCommand) (patch_id backup content new_content : String) (results : List Bool)
      (tracker : List FileChange) (n : ℕ) (before w : W)
      → read_current os cfg cmd.file_path before ≡ value content
      → apply_diff cmd.diff content ≡ value (new_content, results)
      → cmd.dry_run ≡ false
      → all_applied results ≡ true
      → Records os apply_diff cfg cmd tracker before (
          commit ext os apply_diff cfg
            (result_of_patch ext os apply_diff cfg cmd patch_id backup results)
            content
            new_content
            tracker
            n
            w)
  unfolding commit record_change change_of result_of_patch
  commit-Records cmd patch_id backup content new_content results tracker n before w read applies
        real all =
      let r = result_of_patch ext os apply_diff cfg cmd patch_id backup results in
      elim (Option-cases (write_file os cfg cmd.file_path new_content w).0) [
        | inl e ↦
            rw (e, commit)
              (inr (
                r,
                content,
                new_content,
                results,
                refl,
                refl,
                refl,
                read,
                applies,
                success-cases results,
                inl (
                  real,
                  all_applied-AllApplied results all,
                  (change_of ext os apply_diff cfg r content, refl, refl, refl, refl),
                ),
              ))
        | inr (x, e) ↦ rw (e, commit) (inl (some-none, refl))
      ]

  -- A run that writes nothing is a dry one, or has a hunk that did not apply.
  idle-cases :
      (cmd : ApplyPatchCommand) (results : List Bool)
      → (not cmd.dry_run && all_applied results) ≡ false
      → (cmd.dry_run ≡ true) ⊎ ¬ AllApplied results
  idle-cases cmd results idle = elim (success-cases results) [
    | inl (all, h) ↦ inl (ground arith)
    | inr (fails, h) ↦ inr h
  ]

  patch_file-applied :
      (cmd : ApplyPatchCommand) (patch_id backup content new_content : String) (results : List Bool)
      (tracker : List FileChange) (n : ℕ) (w : W)
      → apply_diff cmd.diff content ≡ value (new_content, results)
      → patch_file ext os apply_diff cfg cmd patch_id backup content tracker n w ≡ (
          if not cmd.dry_run && all_applied results
          then commit ext os apply_diff cfg
              (result_of_patch ext os apply_diff cfg cmd patch_id backup results)
              content
              new_content
              tracker
              n
              w
          else record {
            result = some (result_of_patch ext os apply_diff cfg cmd patch_id backup results);
            error = none;
            tracker = tracker;
            draws = n;
            world = w;
          })
  unfolding patch_file result_of_patch
  patch_file-applied cmd patch_id backup content new_content results tracker n w e =
      rw (e, patch_file) refl

  patch_file-Records :
      (cmd : ApplyPatchCommand) (patch_id backup content : String) (tracker : List FileChange)
      (n : ℕ) (before w : W)
      → read_current os cfg cmd.file_path before ≡ value content
      → Records os apply_diff cfg cmd tracker before
          (patch_file ext os apply_diff cfg cmd patch_id backup content tracker n w)
  unfolding patch_file stop result_of_patch
  patch_file-Records cmd patch_id backup content tracker n before w read =
      elim (Reply-cases (apply_diff cmd.diff content)) [
        | inl ((new_content, results), e) ↦
            let same =
              patch_file-applied cmd patch_id backup content new_content results tracker n w e in
            elim (Bool-cases (not cmd.dry_run && all_applied results)) [
              | inl real ↦
                  rw (same, real)
                    (commit-Records cmd patch_id backup content new_content results tracker n before
                      w read e (ground arith) (ground arith))
              | inr idle ↦
                  rw (same, idle)
                    (inr (
                      result_of_patch ext os apply_diff cfg cmd patch_id backup results,
                      content,
                      new_content,
                      results,
                      refl,
                      refl,
                      refl,
                      read,
                      e,
                      success-cases results,
                      inr (idle-cases cmd results idle, refl),
                    ))
            ]
        | inr (x, e) ↦ rw (e, patch_file) (inl (some-none, refl))
      ]

  after_backup-Records :
      (cmd : ApplyPatchCommand) (patch_id content : String) (tracker : List FileChange) (n : ℕ)
      (before : W) (backed : Reply String × W)
      → read_current os cfg cmd.file_path before ≡ value content
      → Records os apply_diff cfg cmd tracker before
          (after_backup ext os apply_diff cfg cmd patch_id content tracker n backed)
  unfolding after_backup stop
  after_backup-Records cmd patch_id content tracker n before (failed x, w) read =
      inl (some-none, refl)
  after_backup-Records cmd patch_id content tracker n before (value backup, w) read =
      patch_file-Records cmd patch_id backup content tracker n before w read

  apply-read :
      (cmd : ApplyPatchCommand) (content : String) (tracker : List FileChange) (n : ℕ) (w : W)
      → validate_path os cfg cmd.file_path ≡ none
      → read_current os cfg cmd.file_path w ≡ value content
      → apply ext os apply_diff cfg cmd tracker n w
        ≡ after_backup ext os apply_diff cfg cmd
            (generate_id ext "pch" n)
            content
            tracker
            (n + 2)
            (back_up ext os apply_diff cfg cmd (generate_id ext "pch" n) content (n + 1) w)
  unfolding apply
  apply-read cmd content tracker n w accepted read = rw (accepted, read, apply) refl

  -- Apply adds at most one change to the tracker. It adds none where it returns an error; where it
  -- returns none, there is a result for the file of the command, the diff was applied to the text that
  -- this file held, and the change of the result is added exactly if the run is no dry run and every
  -- hunk was applied. The result reports success exactly if every hunk was.
  pub apply-Records :
      (cmd : ApplyPatchCommand) (tracker : List FileChange) (n : ℕ) (w : W)
      → Records os apply_diff cfg cmd tracker w (apply ext os apply_diff cfg cmd tracker n w)
  unfolding apply after_backup stop
  apply-Records cmd tracker n w = elim (Option-cases (validate_path os cfg cmd.file_path)) [
    | inr (x, e) ↦ rw (e, apply) (inl (some-none, refl))
    | inl accepted ↦ elim (Reply-cases (read_current os cfg cmd.file_path w)) [
      | inr (x, e) ↦ rw (accepted, e, apply) (inl (some-none, refl))
      | inl (content, read) ↦
          rw (apply-read cmd content tracker n w accepted read)
            (after_backup-Records cmd (generate_id ext "pch" n) content tracker (n + 2) w _ read)
    ]
  ]

  -- A dry run leaves the world and the tracker as they are.
  pub dry_run-world :
      (cmd : ApplyPatchCommand) (tracker : List FileChange) (n : ℕ) (w : W)
      → ((dry_run ext os apply_diff cfg cmd tracker n w).world ≡ w)
        × ((dry_run ext os apply_diff cfg cmd tracker n w).tracker ≡ tracker)
  unfolding dry_run apply stop after_backup back_up patch_file
  dry_run-world cmd tracker n w = elim (Option-cases (validate_path os cfg cmd.file_path)) [
    | inr (x, e) ↦ rw (e, apply) (refl, refl)
    | inl accepted ↦ elim (Reply-cases (read_current os cfg cmd.file_path w)) [
      | inr (x, e) ↦ rw (accepted, e, apply) (refl, refl)
      | inl (content, read) ↦ elim (Reply-cases (apply_diff cmd.diff content)) [
        | inr (x, e) ↦ rw (accepted, read, e, apply, patch_file) (refl, refl)
        | inl ((new_content, results), e) ↦ rw (accepted, read, e, apply, patch_file) (refl, refl)
      ]
    ]
  ]
