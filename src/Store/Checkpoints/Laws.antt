-- ===== src/Store/Checkpoints/Laws.antt =====
-- The order of the stored checkpoints, and how the three ways to find one agree.

use gm_agent.Prelude.{
  some-none, ℕ, arith, eqb, String, Bool, true, false, Option, none, some, List, [], ◌∷◌, ◌≡◌, refl,
  sym, ap, ◌∙◌, inl, inr, ◌==◌, arith, any, ◌||◌, if◌then◌else◌, Bool-cases, Option-cases,
}
use gm_agent.Prelude.Result.{
  Reply-cases, Error, Reply, value, failed, no_checkpoint, not_found, failed-value, value_injective,
}
use gm_agent.Types.State.{State, Checkpoint}
use gm_agent.Store.Rules.Laws.{Writes, Syncs, Renames, atomic_write-read_file}
use gm_agent.Store.Checkpoints.{
  save_state, load_state, load_latest_state, state_path, Entry, CheckpointOs, name_gt, insert_entry,
  sort_entries, load_entry, first_loaded, all_loaded, first_named, find_named, in_directory,
  load_latest_checkpoint, list_stored, load_checkpoint, checkpoint_dir,
}

or_swap : (x y z : Bool) → (x || (y || z)) ≡ (y || (x || z))
or_swap x y z = ground arith

-- The first that has the identifier.
abbrev named : String → List Checkpoint → Reply Checkpoint
named id [] = failed not_found
named id (c ∷ cps) = let rest = named id cps in if c.id == id then value c else rest

named-any :
    (id : String) (cps : List Checkpoint) (cp : Checkpoint)
    → named id cps ≡ value cp
    → ((cp.id == id) ≡ true) × (any (λ c. c.id == id) cps ≡ true)
unfolding any
named-any id [] cp h = absurd (failed-value h)
named-any id (c ∷ cps) cp h = elim (Bool-cases (c.id == id)) [
  | inl same ↦
      let c≡cp : c ≡ cp = value_injective (rw (same, named) at h) in
      (ap (λ (x : Checkpoint). x.id == id) (sym c≡cp) ∙ same, rw (same, any) refl)
  | inr other ↦
      let (same, listed) = named-any id cps cp (rw (other, named) at h) in
      (same, rw (other, any) listed)
]

-- The first of a list, or the error that there is no checkpoint.
abbrev pub newest : List Checkpoint → Reply Checkpoint
newest [] = failed no_checkpoint
newest (cp ∷ cps) = value cp

eqb_refl : (n : ℕ) → eqb n n ≡ true
eqb_refl n = ground arith

module _ {W : Type 0} (os : CheckpointOs W) (root : String) where
  first_loaded-newest :
      (entries : List Entry) (w : W)
      → first_loaded os root entries w ≡ newest (all_loaded os root entries w)
  unfolding first_loaded all_loaded
  first_loaded-newest [] w = refl
  first_loaded-newest (entry ∷ entries) w = elim (Option-cases (load_entry os root entry w)) [
    | inl gone ↦ rw (gone, first_loaded, all_loaded) (first_loaded-newest entries w)
    | inr (cp, there) ↦ rw (there, first_loaded, all_loaded) refl
  ]

  newest-in_directory :
      (w : W) (read : List Entry × Option Error)
      → in_directory os root
          (failed no_checkpoint)
          (λ x. failed x)
          (λ entries. first_loaded os root (sort_entries entries) w)
          read
        ≡ elim (in_directory os root
            (value [])
            (λ x. failed x)
            (λ entries. value (all_loaded os root (sort_entries entries) w))
            read) [ failed x ↦ failed x | value cps ↦ newest cps ]
  unfolding in_directory
  newest-in_directory w ([], failure) = refl
  newest-in_directory w (entry ∷ entries, none) =
      first_loaded-newest (sort_entries (entry ∷ entries)) w
  newest-in_directory w (entry ∷ entries, some x) = elim (Bool-cases (os.files.is_not_exist x)) [
    | inl absent ↦ rw (absent) refl
    | inr other ↦ rw (other) refl
  ]

  -- Where the list of the checkpoints is `cps`, LoadLatestCheckpoint returns the first of it, and where
  -- the list fails it fails alike.
  pub load_latest_checkpoint-list_stored :
      (w : W)
      → load_latest_checkpoint os root w
        ≡ elim (list_stored os root w) [ failed x ↦ failed x | value cps ↦ newest cps ]
  unfolding load_latest_checkpoint list_stored
  load_latest_checkpoint-list_stored w =
      newest-in_directory w (os.read_dir (checkpoint_dir os root) w)

  -- Whether the checkpoint of an entry passes the test.
  passes : (Checkpoint → Bool) → Entry → W → Bool
  passes p entry w = elim (load_entry os root entry w) [ none ↦ false | some cp ↦ p cp ]

  any-all_loaded :
      (p : Checkpoint → Bool) (entry : Entry) (entries : List Entry) (w : W)
      → any p (all_loaded os root (entry ∷ entries) w)
        ≡ (passes p entry w || any p (all_loaded os root entries w))
  unfolding any all_loaded passes
  any-all_loaded p entry entries w = elim (Option-cases (load_entry os root entry w)) [
    | inl gone ↦ rw (gone, all_loaded, any, passes) refl
    | inr (cp, there) ↦ rw (there, all_loaded, any, passes) refl
  ]

  insert_entry-any :
      (p : Checkpoint → Bool) (entry : Entry) (entries : List Entry) (w : W)
      → any p (all_loaded os root (insert_entry entry entries) w)
        ≡ any p (all_loaded os root (entry ∷ entries) w)
  unfolding insert_entry
  insert_entry-any p a [] w = refl
  insert_entry-any p a (b ∷ bs) w = elim (Bool-cases (name_gt b a)) [
    | inl above ↦
        rw (above, insert_entry)
          (rw
            (
              any-all_loaded p b (insert_entry a bs) w,
              insert_entry-any p a bs w,
              any-all_loaded p a bs w,
              any-all_loaded p a (b ∷ bs) w,
              any-all_loaded p b bs w,
            )
            (or_swap (passes p b w) (passes p a w) (any p (all_loaded os root bs w))))
    | inr below ↦ rw (below, insert_entry) refl
  ]

  sort_entries-any :
      (p : Checkpoint → Bool) (entries : List Entry) (w : W)
      → any p (all_loaded os root (sort_entries entries) w) ≡ any p (all_loaded os root entries w)
  unfolding sort_entries
  sort_entries-any p [] w = refl
  sort_entries-any p (a ∷ bs) w =
      insert_entry-any p a (sort_entries bs) w
      ∙ any-all_loaded p a (sort_entries bs) w
      ∙ ap (λ (b : Bool). passes p a w || b) (sort_entries-any p bs w)
      ∙ sym (any-all_loaded p a bs w)

  first_named-named :
      (id : String) (entries : List Entry) (w : W)
      → first_named os root id entries w ≡ named id (all_loaded os root entries w)
  unfolding first_named all_loaded
  first_named-named id [] w = refl
  first_named-named id (entry ∷ entries) w = elim (Option-cases (load_entry os root entry w)) [
    | inl gone ↦ rw (gone, first_named, all_loaded) (first_named-named id entries w)
    | inr (cp, there) ↦
        rw (there, first_named, all_loaded, named, first_named-named id entries w) refl
  ]

  find_named-in_directory :
      (id : String) (w : W) (cp : Checkpoint) (read : List Entry × Option Error)
      → find_named os root id w read ≡ value cp
      → ((cp.id == id) ≡ true)
        × ((cps : List Checkpoint) × (in_directory os root
                (value [])
                (λ x. failed x)
                (λ entries. value (all_loaded os root (sort_entries entries) w))
                read
              ≡ value cps)
            × (any (λ c. c.id == id) cps ≡ true))
  unfolding in_directory find_named
  find_named-in_directory id w cp (entries, some x) h = absurd (failed-value h)
  find_named-in_directory id w cp ([], none) h = absurd (failed-value h)
  find_named-in_directory id w cp (entry ∷ entries, none) h =
      let (same, listed) =
        named-any id (all_loaded os root (entry ∷ entries) w) cp
          (sym (first_named-named id (entry ∷ entries) w) ∙ h) in
      (
        same,
        (
          all_loaded os root (sort_entries (entry ∷ entries)) w,
          refl,
          sort_entries-any (λ c. c.id == id) (entry ∷ entries) w ∙ listed,
        ),
      )

  -- A checkpoint that LoadCheckpoint finds has the identifier asked for, and ListCheckpoints then
  -- answers with a list in which a checkpoint has it.
  pub load_checkpoint-list_stored :
      (id : String) (w : W) (cp : Checkpoint)
      → load_checkpoint os root id w ≡ value cp
      → ((cp.id == id) ≡ true)
        × ((cps : List Checkpoint) × (list_stored os root w ≡ value cps)
            × (any (λ c. c.id == id) cps ≡ true))
  unfolding load_checkpoint list_stored
  load_checkpoint-list_stored id w cp h =
      find_named-in_directory id w cp (os.read_dir (checkpoint_dir os root) w) h

  -- The state that SaveState stored without an error is the state that LoadLatestState returns, and
  -- LoadState at its version, for lawful files and a codec that reads this state back.
  pub save_state-load_state :
      (state : State) (w : W)
      → Writes os.files
      → Syncs os.files
      → Renames os.files
      → ((t : String)
          → os.marshal_state (some state) ≡ value t
          → os.unmarshal_state t ≡ value state)
      → (save_state os root (some state) w).0 ≡ none
      → (load_latest_state os root (save_state os root (some state) w).1 ≡ value state)
        × (load_state os root state.version (save_state os root (some state) w).1 ≡ value state)
  unfolding save_state load_latest_state load_state
  save_state-load_state state w writes syncs renames decodes done =
      elim (Reply-cases (os.marshal_state (some state))) [
        | inr (x, e) ↦ absurd (some-none (rw (e, save_state) at done))
        | inl (text, e) ↦
            let back : load_latest_state os root (save_state os root (some state) w).1
                ≡ value state =
              rw
                (
                  e,
                  save_state,
                  load_latest_state,
                  atomic_write-read_file os.files (state_path os root) text w writes syncs renames
                      (rw (e, save_state) at done),
                )
                (decodes text e) in
            (back, rw (load_state, back, eqb_refl state.version) refl)
      ]
