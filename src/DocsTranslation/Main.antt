-- ===== src/DocsTranslation/Main.antt =====
-- The two modes of `main` in scripts/translate-docs.js that call no engine: --strip-nav and --repair. The
-- report is the number of files and of lines.
use nginx_web_ui.Prelude.{ℕ, ◌+◌, Bool, List, [], ◌∷◌, take, ltb, if◌then◌else◌}
use nginx_web_ui.FileSafety.Disk.{FilePath}
use nginx_web_ui.FileSafety.Stamp.{FilePlatform, Race}
use nginx_web_ui.FileSafety.Program.{Program, ◌>>=◌, pure}
use nginx_web_ui.DocsTranslation.Repair.{
  RepairOutcome, no_backup, misaligned, repaired, repair_file, strip_nav,
}
use nginx_web_ui.DocsTranslation.Cli.{Number, infinite, not_a_number, number}

-- `slice(0, limit)`: NaN counts as 0.
abbrev pub slice_docs : Number → List FilePath → List FilePath
slice_docs infinite fs = fs
slice_docs not_a_number fs = []
slice_docs (number n) fs = take n fs

pub record Touched : Type 0 where
  pub touched : ℕ
  pub total : ℕ

abbrev pub touch : ℕ → Touched → Touched
touch n t = if ltb 0 n then record { touched = t.touched + 1; total = t.total + n } else t

abbrev touch_repair : RepairOutcome → Touched → Touched
touch_repair no_backup t = t
touch_repair misaligned t = t
touch_repair (repaired n) t = touch n t

module _ (w : FilePlatform) (race : Race) where
  unfoldable pub strip_navs : Bool → Touched → List FilePath → Program Touched
  unfolding strip_nav
  strip_navs dry_run t [] = pure t
  strip_navs dry_run t (f ∷ fs) = do
    n ← strip_nav w race dry_run f
    strip_navs dry_run (touch n t) fs

  unfoldable pub repair_files : Touched → List FilePath → Program Touched
  unfolding repair_file
  repair_files t [] = pure t
  repair_files t (f ∷ fs) = do r ← repair_file w race f; repair_files (touch_repair r t) fs

  unfoldable pub strip_mode : Bool → Number → List FilePath → Program Touched
  unfolding strip_navs
  strip_mode dry_run limit fs =
      strip_navs dry_run (record { touched = 0; total = 0 }) (slice_docs limit fs)

  unfoldable pub repair_mode : Number → List FilePath → Program Touched
  unfolding repair_files
  repair_mode limit fs = repair_files (record { touched = 0; total = 0 }) (slice_docs limit fs)
