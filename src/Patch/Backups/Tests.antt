-- ===== src/Patch/Backups/Tests.antt =====
-- The metadata of a backup, and a diff with two hunks.
use gm_agent.Prelude.{[], ◌∷◌, ◌≡◌, refl}
use gm_agent.Patch.Backups.{BackupInfo, read_metadata}

abbrev blank : BackupInfo
blank = record {
  patch_id = "";
  file_path = "";
  backup_path = "b.bak";
  timestamp = "";
  diff_preview = "";
}

metadata :
    read_metadata ("patch_id: pch_1" ∷ "file_path: a: b.txt" ∷ "none" ∷ []) blank
    ≡ record blank { patch_id = "pch_1"; file_path = "a: b.txt" }
unfolding read_metadata
metadata = refl
