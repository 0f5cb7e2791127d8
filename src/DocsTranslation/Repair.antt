-- ===== src/DocsTranslation/Repair.antt =====
-- `repairFile` and `stripNav` of scripts/translate-docs.js: fixes that call no engine.
use nginx_web_ui.Prelude.{
  ℕ, ◌+◌, Bool, List, [], ◌∷◌, ◌++◌, Text, codes, text_eq, includes, length, drop, ltb, ◌==◌,
  split_lines, join_lines, if◌then◌else◌,
}
use nginx_web_ui.Regex.{replace_first}
use nginx_web_ui.FileSafety.Disk.{FilePath, backup_path, write_file}
use nginx_web_ui.FileSafety.Stamp.{FilePlatform, Race, create_backup_once, update_existing_stamp}
use nginx_web_ui.FileSafety.Program.{Program, ◌>>=◌, ◌>>◌, pure, reads, there}
use nginx_web_ui.DocsTranslation.Patterns.{hashes_re}
use nginx_web_ui.DocsTranslation.Protect.{prefix_of}
use nginx_web_ui.DocsTranslation.Nav.{strip_nav_text}

-- The body of a translated line; a heading's own hash signs are what the engine left of the prefix.
unfoldable pub repair_body : Text → Text → Text
repair_body wanted cur =
    let body = drop (length (prefix_of cur)) cur in
    if includes (codes "#") wanted then replace_first hashes_re (λ m. []) body else body

-- One line: the prefix of the original, where it has one.
unfoldable pub repair_line : Text → Text → Text
unfolding repair_body
repair_line orig cur = elim (prefix_of orig) [
  | [] ↦ cur
  | (c ∷ w) ↦ (c ∷ w) ++ repair_body (c ∷ w) cur
]

-- The lines and how many of them changed.
unfoldable pub repair_lines : List Text → List Text → List Text × ℕ
unfolding repair_line
repair_lines orig [] = ([], 0)
repair_lines [] (l ∷ ls) = (l ∷ ls, 0)
repair_lines (o ∷ os) (l ∷ ls) =
    let (rest, n) = repair_lines os ls in
    (repair_line o l ∷ rest, (if text_eq (repair_line o l) l then n else n + 1))

pub data RepairOutcome : Type 0 where
  no_backup misaligned : RepairOutcome
  repaired : ℕ → RepairOutcome

-- The platform and the race are those of `updateExistingStamp`.
module _ (w : FilePlatform) (race : Race) where
  unfoldable pub repair_text : FilePath → List Text → List Text → Program RepairOutcome
  unfolding repair_lines
  repair_text file orig cur =
      if length orig == length cur
      then (let (lines, n) = repair_lines orig cur in
          let out = join_lines lines in
          if ltb 0 n
          then (do
            write_file file out
            update_existing_stamp w race (backup_path file (codes ".out")) out
            pure (repaired n))
          else pure (repaired n))
      else pure misaligned

  unfoldable pub repair_file : FilePath → Program RepairOutcome
  unfolding repair_text
  repair_file file = do
    backed ← there (backup_path file [])
    if backed
        then (do
          orig ← reads (backup_path file [])
          cur ← reads file
          repair_text file (split_lines orig) (split_lines cur))
        else pure no_backup

  -- The number of lines removed.
  unfoldable pub strip_nav : Bool → FilePath → Program ℕ
  strip_nav dry_run file = do
    original ← reads file
    let out = (strip_nav_text original).text
    let removed = (strip_nav_text original).removed
    if removed == 0
        then pure 0
        else (if dry_run then pure removed else (do
          create_backup_once (backup_path file (codes ".pre-nav")) original
          write_file file out
          update_existing_stamp w race (backup_path file (codes ".out")) out
          pure removed))
