-- ===== src/Session/Rewind/Success.antt =====
-- When Rewind answers with success.
use gm_agent.Prelude.{
  sym, String, true, false, Option, some, List, ◌∷◌, ◌++◌, ◌≡◌, refl, ◌==◌, All, inl, inr,
}
use gm_agent.Prelude.Result.{Error, Result, ok, err, panic, value}
use gm_agent.Types.State.{State, Checkpoint}
use gm_agent.Session.Service.{Resources, Session, Sessions, find}
use gm_agent.Session.Rewind.{
  RewindRequest, RewindResponse, undo_changes, rewind_state, after_files, rewind, report, describe,
}
use gm_agent.Session.Rewind.Laws.{
  Undoes, Stores, backwards, changes_of, rewind-found, Undoes-roll_back,
}

-- The answer is a response that reports success.
abbrev pub Succeeds : Result RewindResponse → Type 0
Succeeds (ok resp) = resp.success ≡ true
Succeeds (err x) = true ≡ false
Succeeds (panic p) = true ≡ false

report-Succeeds :
    (req : RewindRequest) (cp : Checkpoint) (state : State)
    → cp.state ≡ some state
    → Succeeds (report req cp)
unfolding report describe
report-Succeeds req cp state held = rw (held, report, describe) refl

module _ {W : Type 0} where
  Stores-Succeeds :
      (r : Resources W) (req : RewindRequest) (cp : Checkpoint) (state : State) (v u : W)
      → Stores r req cp v u
      → cp.state ≡ some state
      → Succeeds (rewind_state r req cp v).0 × ((rewind_state r req cp v).1 ≡ u)
  unfolding rewind_state
  Stores-Succeeds r req cp state v u (inl (e, same)) held =
      rw (e, rewind_state)
        (report-Succeeds (record req { rewind_conversation = false }) cp state held, sym same)
  Stores-Succeeds r req cp state v u (inr (e, saved)) held =
      rw (e, saved, rewind_state) (report-Succeeds req cp state held, refl)

  -- Rewind of the files answers with success where the checkpoint has a state and stands in the list,
  -- the rollbacks of the changes of the newer checkpoints succeed one after the other, from the last
  -- change to the first, and the store then takes the state if the conversation is to go back; the
  -- server ends in the world that these leave.
  pub rewind-Succeeds :
      (id : String) (req : RewindRequest) (table : Sessions W) (w v u : W) (s : Session W)
      (undo : String → W → Option Error × W) (cp : Checkpoint) (newer older : List Checkpoint)
      (state : State)
      → find id table ≡ value s
      → s.resources.rollback ≡ some undo
      → s.resources.load_checkpoint req.checkpoint_id w ≡ value cp
      → s.resources.list_checkpoints w ≡ value (newer ++ cp ∷ older)
      → All (λ c. (c.id == cp.id) ≡ false) newer
      → req.rewind_code ≡ true
      → Undoes undo (backwards (changes_of newer)) w v
      → Stores s.resources req cp v u
      → cp.state ≡ some state
      → Succeeds (rewind id req table w).0 × ((rewind id req table w).1 ≡ u)
  unfolding after_files undo_changes
  rewind-Succeeds id req table w v u s undo cp newer older state there engine loaded listed apart
        code undone stored held =
      let whole =
        rewind-found id req table w s undo cp newer older there engine loaded listed apart code in
      let (errors, world) = Undoes-roll_back undo (changes_of newer) w v undone in
      rw (whole, undo_changes, errors, world, after_files)
        (Stores-Succeeds s.resources req cp state v u stored held)
