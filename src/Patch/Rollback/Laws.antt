-- ===== src/Patch/Rollback/Laws.antt =====
-- The metadata of a backup name the file that the backup was taken from.

use gm_agent.Prelude.{
  arith, none, String, false, List, ◌∷◌, ◌≡◌, refl, sym, ap, ◌∙◌, ◌==◌, ◌<+>◌, Bool-cases, inl, inr,
}
use gm_agent.Prelude.Result.{value}
use gm_agent.Patch.Engine.{Os, PatchConfig, metadata_of, write_file}
use gm_agent.Prelude.Text.{split_lines, IsLine, split_lines-line, IsLine-append}
use gm_agent.Patch.Rollback.{trim, file_path_of, restore_file, restore, rollback}
use text.Mathlib.Text.{starts_with}
use text.Mathlib.TextEquality.{starts_with_iff}
use text.Mathlib.TextLemmas.{cons-append, append_assoc, head-eq_of_cons-eq}
use text.Mathlib.TextPositions.{starts_with-append, slice-append_right, len-append}
use Prim.Native.Char.{code}

patch_line : (id : String) → starts_with ("patch_id: " <+> id) "file_path: " ≡ false
patch_line id = elim (Bool-cases (starts_with ("patch_id: " <+> id) "file_path: ")) [
  | inr e ↦ e
  | inl e ↦
      let (u, h) = (starts_with_iff ("patch_id: " <+> id) "file_path: ").0 e in
      let q =
        head-eq_of_cons-eq
          (sym (cons-append "f" "ile_path: " u) ∙ h ∙ cons-append "p" "atch_id: " id) in
      absurd (omega (arith, ap code q))
]

split_lines-labelled :
    (label name text : String)
    → IsLine label
    → IsLine name
    → split_lines (label <+> name <+> "\n" <+> text) ≡ (label <+> name) ∷ split_lines text
split_lines-labelled label name text whole_label whole_name =
    ap split_lines (sym (append_assoc label name ("\n" <+> text)))
    ∙ split_lines-line (label <+> name) text (IsLine-append label name whole_label whole_name)

trim-path : (path : String) → trim ("file_path: " <+> path) "file_path: " ≡ path
trim-path path = rw (len-append "file_path: " path) (slice-append_right "file_path: " path)

file_path_of-lines :
    (patch_id path : String) (lines : List String)
    → file_path_of (("patch_id: " <+> patch_id) ∷ ("file_path: " <+> path) ∷ lines) ≡ path
unfolding file_path_of
file_path_of-lines patch_id path lines =
    rw (patch_line patch_id, starts_with-append "file_path: " path) (trim-path path)

-- The metadata that is written for a backup names the file of the backup, where neither the
-- identifier of the patch nor the path has a line break.
pub file_path_of-metadata_of :
    (patch_id path timestamp : String)
    → IsLine patch_id
    → IsLine path
    → file_path_of (split_lines (metadata_of patch_id path timestamp)) ≡ path
unfolding metadata_of file_path_of
file_path_of-metadata_of patch_id path timestamp whole_id whole_path =
    let after = "timestamp: " <+> timestamp <+> "\n" in
    let first =
      split_lines-labelled "patch_id: " patch_id ("file_path: " <+> path <+> "\n" <+> after)
        (refl, (refl, (refl, (refl, (refl, (refl, (refl, (refl, (refl, (refl, tt))))))))))
        whole_id in
    let second =
      split_lines-labelled "file_path: " path after
        (refl, (refl, (refl, (refl, (refl, (refl, (refl, (refl, (refl, (refl, (refl, tt)))))))))))
        whole_path in
    let text =
      ap (λ (t : String). "patch_id: " <+> patch_id <+> t)
        (ap (λ (t : String). "\nfile_path: " <+> path <+> t)
            (append_assoc "\n" "timestamp: " (timestamp <+> "\n"))
          ∙ append_assoc "\n" "file_path: " (path <+> "\n" <+> after)) in
    ap (λ (t : String). file_path_of (split_lines t)) text
    ∙ ap file_path_of (first ∙ ap (λ (ls : List String). ("patch_id: " <+> patch_id) ∷ ls) second)
    ∙ file_path_of-lines patch_id path (split_lines after)

module _ {W : Type 0} (os : Os W) (cfg : PatchConfig) where
  restore_file-write :
      (backup path content : String) (w : W)
      → os.read_file backup w ≡ value content
      → ((restore_file os cfg backup path w).1 ≡ (write_file os cfg path content w).1)
        × ((write_file os cfg path content w).0 ≡ none
            → (restore_file os cfg backup path w).0 ≡ none)
  unfolding restore_file
  restore_file-write backup path content w held =
      rw (held, restore_file) (refl, λ fine. rw (fine) refl)

  -- Where the first file that the pattern finds holds the backup of a patch and its metadata stand
  -- beside it as a backup writes them, Rollback writes the text of the backup to the file of the
  -- patch, and succeeds if this write does. The identifier and the path have no line break, and the
  -- path is not empty.
  pub rollback-write_file :
      (patch_id path timestamp backup content : String) (others : List String) (w : W)
      → IsLine patch_id
      → IsLine path
      → (path == "") ≡ false
      → os.glob (os.join (os.join cfg.work_dir cfg.backup_dir) (patch_id <+> "_*.bak")) w
        ≡ value (backup ∷ others)
      → os.read_file (backup <+> ".meta") w ≡ value (metadata_of patch_id path timestamp)
      → os.read_file backup w ≡ value content
      → ((rollback os cfg patch_id w).1 ≡ (write_file os cfg path content w).1)
        × ((write_file os cfg path content w).0 ≡ none → (rollback os cfg patch_id w).0 ≡ none)
  unfolding rollback restore
  rollback-write_file patch_id path timestamp backup content others w whole_id whole_path named
        found described held =
      let back = file_path_of-metadata_of patch_id path timestamp whole_id whole_path in
      rw (found, described, back, named, rollback, restore)
        (restore_file-write backup path content w held)
