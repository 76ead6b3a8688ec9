-- ===== src/Store/Artifacts.antt =====
-- pkg/store/fs_store.go: Open, and the artifacts, each a file of its data and, if it has content, a file of that.
-- ListArtifacts and DeleteArtifact only say that they are not implemented.
pub mod Laws
mod Tests
use gm_agent.Prelude.{
  [], ◌∷◌, ℕ, String, Bool, Option, none, some, List, [], ◌∷◌, ◌==◌, ◌<+>◌, ltb, length,
  if◌then◌else◌,
}
use gm_agent.Prelude.Result.{wrap, Error, Reply, value, failed, message, not_found}
use gm_agent.Types.State.{Artifact}
use gm_agent.Store.Rules.{RuleOs, atomic_write}

-- Packages os, path/filepath and encoding/json at artifacts.
pub record ArtifactOs (W : Type 0) : Type 0 where
  pub files : RuleOs W
  pub join : String → String → String
  pub marshal : Artifact → Reply String
  pub unmarshal : String → Reply Artifact
  -- bytes as the text that stands for them in a file
  pub to_text : List ℕ → String
  pub to_bytes : String → List ℕ

module _ {W : Type 0} (os : ArtifactOs W) (root : String) where
  unfoldable pub meta_path : String → String
  meta_path id = os.join (os.join root "artifacts") (id <+> ".json")

  unfoldable pub blob_path : String → String
  blob_path id = os.join (os.join root "artifacts") (id <+> ".blob")

  -- An artifact without content has no file of it written; one that is there stays.
  unfoldable pub save_artifact : Artifact → W → Option Error × W
  unfolding meta_path blob_path atomic_write
  save_artifact art w = elim (os.marshal art) [
    | failed x ↦ (some x, w)
    | value text ↦
        let (failure, w') = atomic_write os.files (meta_path art.id) text w in
        elim failure [
          | some x ↦ (some x, w')
          | none ↦
              if ltb 0 (length art.content)
              then atomic_write os.files (blob_path art.id) (os.to_text art.content) w'
              else (none, w')
        ]
  ]

  -- The file of the content, where it can be read, goes before the content of the data.
  unfoldable pub with_blob : Artifact → Reply String → Artifact
  with_blob art (failed x) = art
  with_blob art (value content) = record art { content = os.to_bytes content }

  unfoldable pub load_artifact : String → W → Reply Artifact
  unfolding meta_path blob_path with_blob
  load_artifact id w = elim (os.files.read_file (meta_path id) w) [
    | failed x ↦ if os.files.is_not_exist x then failed not_found else failed x
    | value text ↦ elim (os.unmarshal text) [
      | failed x ↦ failed x
      | value art ↦ value (with_blob art (os.files.read_file (blob_path id) w))
    ]
  ]

  -- A directory is made with those above it.
  unfoldable pub make_dirs : (String → W → Option Error × W) → List String → W → Option Error × W
  make_dirs mkdir_all [] w = (none, w)
  make_dirs mkdir_all (dir ∷ dirs) w =
      let (failure, w') = mkdir_all dir w in
      elim failure [
        | some x ↦ (some (wrap ("failed to create directory " <+> dir) x), w')
        | none ↦ make_dirs mkdir_all dirs w'
      ]

  unfoldable pub open_store : (String → W → Option Error × W) → W → Option Error × W
  unfolding make_dirs
  open_store mkdir_all w =
      make_dirs mkdir_all
        (root ∷ os.join root "state" ∷ os.join root "checkpoints" ∷ os.join root "artifacts" ∷ []) w
