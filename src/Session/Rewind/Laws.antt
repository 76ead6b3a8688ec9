-- ===== src/Session/Rewind/Laws.antt =====
-- What Rewind of pkg/api/service/session.go does: which patches it rolls back, in which order.
use gm_agent.Prelude.{
  ◌⊎◌, String, true, false, Option, none, some, List, [], ◌∷◌, ◌++◌, ◌≡◌, refl, ap, ◌∙◌, ◌==◌,
  eq_refl, All,
}
use gm_agent.Prelude.Result.{Error, value}
use gm_agent.Types.Tool.{FileChange}
use gm_agent.Types.State.{Checkpoint}
use gm_agent.Session.Service.{Resources, Session, Sessions, find}
use gm_agent.Session.Rewind.{
  RewindRequest, changes_until, roll_back, undo_changes, rewind_files, after_files, rewind_to,
  rewind,
}

-- The changes that the checkpoints of a list record, one checkpoint after the other.
unfoldable pub changes_of : List Checkpoint → List FileChange
changes_of [] = []
changes_of (cp ∷ cps) = cp.file_changes ++ changes_of cps

changes_until-found :
    (cp : Checkpoint) (newer older : List Checkpoint)
    → All (λ c. (c.id == cp.id) ≡ false) newer
    → changes_until cp.id (newer ++ cp ∷ older) ≡ (changes_of newer, true)
unfolding changes_until changes_of
changes_until-found cp [] older _ = rw (eq_refl cp.id) refl
changes_until-found cp (c ∷ newer) older (differs, rest) =
    rw (differs, changes_until-found cp newer older rest) refl

-- A list from its end.
unfoldable pub backwards : {A : Type 0} → List A → List A
backwards [] = []
backwards (x ∷ xs) = backwards xs ++ x ∷ []

-- The rollbacks of a list of changes, carried out in the order of the list, each in the world that the
-- one before has left, and none with an error: they lead from the first world to the second.
abbrev pub Undoes :
    {W : Type 0} → (String → W → Option Error × W) → List FileChange → W → W → Type 0
Undoes undo [] w w' = w ≡ w'
Undoes {W} undo (c ∷ cs) w w' = (v : W) × (undo c.patch_id w ≡ (none, v)) × Undoes undo cs v w'

module _ {W : Type 0} where
  rewind_files-found :
      (r : Resources W) (undo : String → W → Option Error × W) (cp : Checkpoint)
      (newer older : List Checkpoint) (w : W)
      → r.rollback ≡ some undo
      → r.list_checkpoints w ≡ value (newer ++ cp ∷ older)
      → All (λ c. (c.id == cp.id) ≡ false) newer
      → rewind_files r cp.id w ≡ undo_changes undo (changes_of newer, true) w
  unfolding rewind_files
  rewind_files-found r undo cp newer older w engine listed apart =
      rw (engine, listed, changes_until-found cp newer older apart, rewind_files) refl

  pub rewind-found :
      (id : String) (req : RewindRequest) (table : Sessions W) (w : W) (s : Session W)
      (undo : String → W → Option Error × W) (cp : Checkpoint) (newer older : List Checkpoint)
      → find id table ≡ value s
      → s.resources.rollback ≡ some undo
      → s.resources.load_checkpoint req.checkpoint_id w ≡ value cp
      → s.resources.list_checkpoints w ≡ value (newer ++ cp ∷ older)
      → All (λ c. (c.id == cp.id) ≡ false) newer
      → req.rewind_code ≡ true
      → rewind id req table w
        ≡ after_files s.resources req cp (undo_changes undo (changes_of newer, true) w)
  unfolding rewind rewind_to
  rewind-found id req table w s undo cp newer older there engine loaded listed apart code =
      let half = rewind_files-found s.resources undo cp newer older w engine listed apart in
      rw (there, loaded, code, half, rewind, rewind_to) refl

module _ {W : Type 0} (undo : String → W → Option Error × W) where
  Undoes-split :
      (cs : List FileChange) (c : FileChange) (w u : W)
      → Undoes undo (cs ++ c ∷ []) w u
      → (v : W) × Undoes undo cs w v × (undo c.patch_id v ≡ (none, u))
  Undoes-split [] c w u (x, e, same) = (w, refl, e ∙ (λ i. (none, same i)))
  Undoes-split (d ∷ cs) c w u (x, first, rest) =
      let (v, before, e) = Undoes-split cs c x u rest in (v, (x, first, before), e)

  pub Undoes-roll_back :
      (cs : List FileChange) (w u : W)
      → Undoes undo (backwards cs) w u
      → ((roll_back undo cs w).0 ≡ []) × ((roll_back undo cs w).1 ≡ u)
  unfolding roll_back backwards
  Undoes-roll_back [] w u same = (refl, same)
  Undoes-roll_back (c ∷ cs) w u h =
      let (v, before, e) = Undoes-split (backwards cs) c w u h in
      let (errors, world) = Undoes-roll_back cs w v before in
      let last : undo c.patch_id (roll_back undo cs w).1 ≡ (none, u) =
        ap (undo c.patch_id) world ∙ e in
      (
        rw (ap (λ (t : Option Error × W). t.0) last, roll_back) errors,
        ap (λ (t : Option Error × W). t.1) last,
      )

module _ {W : Type 0} where
  -- The state of the checkpoint is stored, without an error, exactly if the conversation is to go back.
  abbrev pub Stores : Resources W → RewindRequest → Checkpoint → W → W → Type 0
  Stores r req cp w w' =
      ((req.rewind_conversation ≡ false) × (w' ≡ w))
      ⊎ ((req.rewind_conversation ≡ true) × (r.save_state cp.state w ≡ (none, w')))
