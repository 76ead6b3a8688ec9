-- ===== src/Store/Artifacts/Tests.antt =====
-- An artifact of one byte, stored in an empty directory.
use gm_agent.Prelude.{
  ℕ, String, true, false, List, [], ◌∷◌, ◌≡◌, refl, sym, ◌∙◌, inl, inr, ◌==◌, eq_iff, eq_refl, ap,
  Bool-cases,
}
use gm_agent.Prelude.Dict.{Dict, lookup, insert, lookup-insert}
use gm_agent.Prelude.Result.{value, failed}
use gm_agent.Types.State.{Artifact}
use gm_agent.Store.Tests.{os, move, read, os-Writes, os-Renames}
use gm_agent.Store.Artifacts.{ArtifactOs, save_artifact, load_artifact}
use gm_agent.Store.Artifacts.Laws.{Frames, save_artifact-load_artifact}

abbrev byte_of : List ℕ → Artifact
byte_of content = record {
  id = "art_1";
  type = "file";
  name = "a";
  path = "";
  content = content;
  metadata = [];
  size = 1;
  task_id = "";
  goal_id = "";
  created_at = 0;
}

abbrev folder : List ℕ → ArtifactOs (Dict String)
folder content = record {
  files = os;
  join = λ a b. b;
  marshal = λ art. value "art";
  unmarshal = λ text. value (byte_of content);
  to_text = λ bytes. "byte";
  to_bytes = λ text. 1 ∷ [];
}

not_eq : (p q : String) → (q == p) ≡ false → (p == q) ≡ false
not_eq p q other = elim (Bool-cases (p == q)) [
  | inr differs ↦ differs
  | inl same ↦
      let e : true ≡ false =
        sym (eq_refl q) ∙ ap (λ (t : String). q == t) (sym ((eq_iff p q).0 same)) ∙ other in
      cc
]

read-insert :
    (p q t : String) (w : Dict String) → (q == p) ≡ false → read q (insert p t w) ≡ read q w
unfolding read
read-insert p q t w other = rw (read, lookup-insert p q t w, not_eq p q other) refl

os-Frames : Frames os
os-Frames = record {
  write_file-other = λ p q t w other. read-insert p q t w other;
  rename-other = λ p r q w other1 other2.
      elim (read p w) as (λ x. read q (move p r x w) ≡ read q w) [
        | value t ↦ read-insert r q t w other2
        | failed x ↦ refl
      ];
}

save_artifact-load_artifact_example :
    load_artifact
      (folder (1 ∷ []))
      ""
      "art_1"
      (save_artifact (folder (1 ∷ [])) "" (byte_of (1 ∷ [])) []).1
    ≡ value (byte_of (1 ∷ []))
unfolding save_artifact read lookup insert
save_artifact-load_artifact_example =
    save_artifact-load_artifact (folder (1 ∷ [])) "" (byte_of (1 ∷ [])) [] os-Writes (λ p q w. refl)
      os-Renames os-Frames (λ t _. refl) refl refl refl refl refl

-- An artifact without content that is stored over one with content is read back with the content of that.
stale :
    load_artifact
      (folder [])
      ""
      "art_1"
      (save_artifact
        (folder [])
        ""
        (byte_of [])
        (save_artifact (folder (1 ∷ [])) "" (byte_of (1 ∷ [])) []).1).1
    ≡ value (byte_of (1 ∷ []))
unfolding load_artifact save_artifact read lookup insert
stale = refl
