-- ===== src/Store/Artifacts/Laws.antt =====
-- An artifact with content is read back as it was stored.
use gm_agent.Prelude.{
  String, true, false, none, ◌≡◌, refl, ap, ◌∙◌, inl, inr, ◌==◌, ◌<+>◌, ltb, length, Option-cases,
  some-none,
}
use gm_agent.Prelude.Result.{value, Reply-cases}
use gm_agent.Types.State.{Artifact}
use gm_agent.Store.Rules.{RuleOs, atomic_write}
use gm_agent.Store.Rules.Laws.{Writes, Syncs, Renames, atomic_write-read_file}
use gm_agent.Store.Artifacts.{
  ArtifactOs, meta_path, blob_path, save_artifact, with_blob, load_artifact,
}

module _ {W : Type 0} (os : RuleOs W) where
  -- Another file is as it was.
  pub record Frames : Type 0 where
    pub write_file-other :
        (p q t : String) (w : W)
        → (q == p) ≡ false
        → os.read_file q (os.write_file p t w).1 ≡ os.read_file q w
    pub rename-other :
        (p r q : String) (w : W)
        → (q == p) ≡ false
        → (q == r) ≡ false
        → os.read_file q (os.rename p r w).1 ≡ os.read_file q w

  atomic_write-other :
      (path q text : String) (w : W)
      → Syncs os
      → Frames
      → (q == path) ≡ false
      → (q == path <+> ".tmp") ≡ false
      → os.read_file q (atomic_write os path text w).1 ≡ os.read_file q w
  unfolding atomic_write
  atomic_write-other path q text w syncs frames other other_tmp =
      let tmp = path <+> ".tmp" in
      let w1 = (os.write_file tmp text w).1 in
      let written = frames.write_file-other tmp q text w other_tmp in
      elim (Option-cases (os.write_file tmp text w).0) [
        | inr (x, e) ↦ rw (e, atomic_write) written
        | inl e ↦ elim (Option-cases (os.sync tmp w1).0) [
          | inr (x, d) ↦ rw (e, d, atomic_write) (syncs tmp q w1 ∙ written)
          | inl d ↦
              rw (e, d, atomic_write)
                (frames.rename-other tmp path q (os.sync tmp w1).1 other_tmp other
                  ∙ syncs tmp q w1
                  ∙ written)
        ]
      ]

module _ {W : Type 0} (os : ArtifactOs W) (root : String) where
  -- An artifact with content that was stored without an error is the artifact that GetArtifact returns
  -- for its identifier, for lawful files, codecs that read its data and its content back, and paths of the content
  -- and of its temporary file that are not the path of the data.
  pub save_artifact-load_artifact :
      (art : Artifact) (w : W)
      → Writes os.files
      → Syncs os.files
      → Renames os.files
      → Frames os.files
      → ((t : String) → os.marshal art ≡ value t → os.unmarshal t ≡ value art)
      → (meta_path os root art.id == blob_path os root art.id) ≡ false
      → (meta_path os root art.id == blob_path os root art.id <+> ".tmp") ≡ false
      → os.to_bytes (os.to_text art.content) ≡ art.content
      → ltb 0 (length art.content) ≡ true
      → (save_artifact os root art w).0 ≡ none
      → load_artifact os root art.id (save_artifact os root art w).1 ≡ value art
  unfolding save_artifact load_artifact with_blob
  save_artifact-load_artifact art w writes syncs renames frames decodes other other_tmp same full
        done =
      elim (Reply-cases (os.marshal art)) [
        | inr (x, e) ↦ absurd (some-none (rw (e, save_artifact) at done))
        | inl (text, e) ↦
            let first = atomic_write os.files (meta_path os root art.id) text w in
            elim (Option-cases first.0) [
              | inr (x, d) ↦ absurd (some-none (rw (e, d, save_artifact) at done))
              | inl d ↦
                  let done' = rw (e, d, full, save_artifact) at done in
                  let meta = meta_path os root art.id in
                  let blob = blob_path os root art.id in
                  let content = os.to_text art.content in
                  let last = (atomic_write os.files blob content first.1).1 in
                  let after : (save_artifact os root art w).1 ≡ last =
                    rw (e, d, full, save_artifact) refl in
                  let described : os.files.read_file meta last ≡ value text =
                    atomic_write-other os.files blob meta content first.1 syncs frames other
                      other_tmp
                    ∙ atomic_write-read_file os.files meta text w writes syncs renames d in
                  let bytes : os.files.read_file blob last ≡ value content =
                    atomic_write-read_file os.files blob content first.1 writes syncs renames
                      done' in
                  ap (load_artifact os root art.id) after
                  ∙ rw (load_artifact, described, decodes text e, bytes, with_blob, same) refl
            ]
      ]
