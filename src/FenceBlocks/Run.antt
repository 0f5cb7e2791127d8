-- ===== src/FenceBlocks/Run.antt =====
-- `main` of scripts/fence-code-blocks.js: the files of a directory, with the counts of its report. The
-- report's text and the samples are not modelled.
use nginx_web_ui.Prelude.{
  ℕ, ◌+◌, Bool, true, false, List, [], ◌∷◌, Text, codes, ◌==◌, if◌then◌else◌,
}
use nginx_web_ui.FileSafety.Disk.{FilePath, backup_path, write_file}
use nginx_web_ui.FileSafety.Stamp.{create_backup_once}
use nginx_web_ui.FileSafety.Program.{Program, ◌>>=◌, ◌>>◌, pure, reads}
use nginx_web_ui.FenceBlocks.Convert.{Problem, Conversion, convert_file}

pub record Totals : Type 0 where
  pub converted : ℕ
  pub skipped : ℕ
  pub excluded : ℕ
  pub changed : ℕ
  pub bad : ℕ

abbrev pub no_totals : Totals
no_totals = record { converted = 0; skipped = 0; excluded = 0; changed = 0; bad = 0 }

abbrev pub counted : Conversion → Totals → Totals
counted r t = record t {
  converted = t.converted + r.converted;
  skipped = t.skipped + r.skipped;
  excluded = t.excluded + r.excluded;
}

abbrev pub has_problems : List Problem → Bool
has_problems [] = false
has_problems (p ∷ ps) = true

unfoldable pub write_conversion : Bool → FilePath → Text → Text → Program (Unit {0})
write_conversion apply file src text =
    if apply
    then (do create_backup_once (backup_path file (codes ".pre-fence")) src; write_file file text)
    else pure tt

abbrev pub convert_or_count : Bool → Totals → FilePath → Text → Conversion → Program Totals
convert_or_count apply t file src r =
    if has_problems r.problems
    then pure (record t { bad = t.bad + 1 })
    else (if r.converted == 0 then pure (counted r t) else (do
      write_conversion apply file src r.text
      pure (record (counted r t) { changed = t.changed + 1 })))

unfoldable pub run_text : Bool → Totals → FilePath → Text → Program Totals
unfolding write_conversion
run_text apply t file src = convert_or_count apply t file src (convert_file src)

-- The body of the loop over the names.
unfoldable pub run_file : Bool → Totals → FilePath → Program Totals
unfolding run_text
run_file apply t file = do src ← reads file; run_text apply t file src

unfoldable pub run_files : Bool → Totals → List FilePath → Program Totals
unfolding run_file
run_files apply t [] = pure t
run_files apply t (f ∷ fs) = do t' ← run_file apply t f; run_files apply t' fs
