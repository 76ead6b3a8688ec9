-- ===== src/Store/Checkpoints.antt =====
-- pkg/store/fs_store.go: the state file, and the checkpoints, one file each, found by their names.
pub mod Laws
mod Tests
use Prim.Native.Nat.{Ordering}
use Prim.Native.String
use gm_agent.Prelude.{
  ℕ, String, Bool, true, false, not, ◌&&◌, ◌||◌, Option, none, some, List, [], ◌∷◌, ◌==◌, ◌<+>◌,
  eqb, if◌then◌else◌,
}
use gm_agent.Prelude.Result.{Error, Reply, value, failed, message, not_found, no_checkpoint}
use gm_agent.Types.State.{State, Checkpoint}
use gm_agent.Store.Rules.{RuleOs, atomic_write}

pub record Entry : Type 0 where
  pub name : String
  pub is_dir : Bool

-- Packages os, path/filepath, fmt and encoding/json at states and checkpoints. `marshal_state` takes
-- nil too.
pub record CheckpointOs (W : Type 0) : Type 0 where
  pub files : RuleOs W
  -- the entries read, and the error met, if any
  pub read_dir : String → W → List Entry × Option Error
  pub join : String → String → String
  pub ext : String → String
  pub format_int : ℕ → String
  pub marshal_state : Option State → Reply String
  pub unmarshal_state : String → Reply State
  pub marshal_checkpoint : Checkpoint → Reply String
  pub unmarshal_checkpoint : String → Reply Checkpoint

-- `entries[i].Name() > entries[j].Name()`: the bytes in order, as Go compares texts.
unfoldable pub name_gt : Entry → Entry → Bool
name_gt a b = elim (String.compare a.name b.name) [ Ordering.gt ↦ true | _ ↦ false ]

-- The sort by name, descending. The names in a directory differ, so the order is the only one.
unfoldable pub insert_entry : Entry → List Entry → List Entry
unfolding name_gt
insert_entry a [] = a ∷ []
insert_entry a (b ∷ bs) =
    let rest = insert_entry a bs in if name_gt b a then b ∷ rest else a ∷ b ∷ bs

unfoldable pub sort_entries : List Entry → List Entry
unfolding insert_entry
sort_entries [] = []
sort_entries (a ∷ bs) = insert_entry a (sort_entries bs)

module _ {W : Type 0} (os : CheckpointOs W) (root : String) where
  unfoldable pub checkpoint_dir : String
  checkpoint_dir = os.join root "checkpoints"

  unfoldable pub state_path : String
  state_path = os.join (os.join root "state") "state.json"

  unfoldable pub save_state : Option State → W → Option Error × W
  unfolding state_path atomic_write
  save_state state w = elim (os.marshal_state state) [
    | failed x ↦ (some x, w)
    | value text ↦ atomic_write os.files state_path text w
  ]

  unfoldable pub load_latest_state : W → Reply State
  unfolding state_path
  load_latest_state w = elim (os.files.read_file state_path w) [
    | failed x ↦ if os.files.is_not_exist x then failed not_found else failed x
    | value text ↦ os.unmarshal_state text
  ]

  -- Only the tip is kept: another version is an error.
  unfoldable pub load_state : ℕ → W → Reply State
  unfolding load_latest_state
  load_state version w = elim (load_latest_state w) [
    | failed x ↦ failed x
    | value state ↦
        if eqb state.version version
        then value state
        else failed (
            message (
              "state version "
              <+> os.format_int version
              <+> " not found (fs_store only keeps latest tip)"))
  ]

  -- The name begins with the time, in nanoseconds.
  unfoldable pub save_checkpoint : Checkpoint → W → Option Error × W
  unfolding checkpoint_dir atomic_write
  save_checkpoint cp w = elim (os.marshal_checkpoint cp) [
    | failed x ↦ (some x, w)
    | value text ↦
        atomic_write os.files
          (os.join checkpoint_dir (os.format_int cp.timestamp <+> "_" <+> cp.id <+> ".json")) text w
  ]

  -- The checkpoint of an entry; what is no file of JSON, or cannot be read, is passed over.
  unfoldable pub load_entry : Entry → W → Option Checkpoint
  unfolding checkpoint_dir
  load_entry entry w =
      if entry.is_dir || not (os.ext entry.name == ".json")
      then none
      else elim (os.files.read_file (os.join checkpoint_dir entry.name) w) [
        | failed x ↦ none
        | value text ↦ elim (os.unmarshal_checkpoint text) [ failed x ↦ none | value cp ↦ some cp ]
      ]

  unfoldable pub first_loaded : List Entry → W → Reply Checkpoint
  unfolding load_entry
  first_loaded [] w = failed no_checkpoint
  first_loaded (entry ∷ entries) w =
      let rest = first_loaded entries w in
      elim (load_entry entry w) [ none ↦ rest | some cp ↦ value cp ]

  unfoldable pub all_loaded : List Entry → W → List Checkpoint
  unfolding load_entry
  all_loaded [] w = []
  all_loaded (entry ∷ entries) w =
      let rest = all_loaded entries w in
      elim (load_entry entry w) [ none ↦ rest | some cp ↦ cp ∷ rest ]

  unfoldable pub first_named : String → List Entry → W → Reply Checkpoint
  unfolding load_entry
  first_named id [] w = failed not_found
  first_named id (entry ∷ entries) w =
      let rest = first_named id entries w in
      elim (load_entry entry w) [ none ↦ rest | some cp ↦ if cp.id == id then value cp else rest ]

  -- The directory that is missing or empty, then another error, then the entries.
  unfoldable pub in_directory :
      {A : Type 0} → A → (Error → A) → (List Entry → A) → List Entry × Option Error → A
  in_directory nothing fails found ([], failure) = nothing
  in_directory nothing fails found (entry ∷ entries, none) = found (entry ∷ entries)
  in_directory nothing fails found (entry ∷ entries, some x) =
      if os.files.is_not_exist x then nothing else fails x

  unfoldable pub load_latest_checkpoint : W → Reply Checkpoint
  unfolding first_loaded sort_entries checkpoint_dir in_directory
  load_latest_checkpoint w =
      in_directory (failed no_checkpoint) (λ x. failed x)
        (λ entries. first_loaded (sort_entries entries) w) (os.read_dir checkpoint_dir w)

  unfoldable pub list_stored : W → Reply (List Checkpoint)
  unfolding all_loaded sort_entries checkpoint_dir in_directory
  list_stored w =
      in_directory (value []) (λ x. failed x)
        (λ entries. value (all_loaded (sort_entries entries) w)) (os.read_dir checkpoint_dir w)

  -- In the order of the directory.
  unfoldable pub find_named : String → W → List Entry × Option Error → Reply Checkpoint
  unfolding first_named
  find_named id w (entries, some x) = failed x
  find_named id w (entries, none) = first_named id entries w

  unfoldable pub load_checkpoint : String → W → Reply Checkpoint
  unfolding find_named checkpoint_dir
  load_checkpoint id w = find_named id w (os.read_dir checkpoint_dir w)
