-- ===== src/DocsTranslation/TranslateFile.antt =====
-- `translateFile` of scripts/translate-docs.js: a file is translated line by line, and what fails a
-- check keeps its text.
use nginx_web_ui.Prelude.{
  ℕ, zero, suc, ◌+◌, Bool, true, false, not, List, [], ◌∷◌, ◌++◌, map, Option, none, some, Text,
  codes, text_eq, get_elem?, length, ltb, split_lines, join_lines, if◌then◌else◌,
}
use nginx_web_ui.FileSafety.Disk.{FilePath, backup_path, write_file}
use nginx_web_ui.FileSafety.Stamp.{create_backup_once}
use nginx_web_ui.FileSafety.Program.{Program, ◌>>=◌, ◌>>◌, pure, reads, there}
use nginx_web_ui.DocsTranslation.Protect.{Protected, protect, has_substance, restore}
use nginx_web_ui.DocsTranslation.Lines.{collect_targets}
use nginx_web_ui.DocsTranslation.Safety.{Profile, SanityProblem, line_is_safe, sanity_check}

pub record FileOptions : Type 0 where
  pub force : Bool
  pub dry_run : Bool
  pub profile : Profile

-- A line that is sent: its number, what it was, and what protects it.
pub record Prepared : Type 0 where
  pub line : ℕ
  pub before : Text
  pub guard : Protected

abbrev pub prepared_at : ℕ → Option Text → List Prepared
prepared_at i none = []
prepared_at i (some l) =
    if has_substance (protect l).masked
    then record { line = i; before = l; guard = protect l } ∷ []
    else []

-- `targets.map(…protect…).filter((p) => hasSubstance(p.masked))`
unfoldable pub prepare : List Text → List ℕ → List Prepared
prepare lines [] = []
prepare lines (i ∷ is_) = prepared_at i (get_elem? lines i) ++ prepare lines is_

-- `lines`, `applied`, `restoreFailed` and `unsafe`.
pub record Tally : Type 0 where
  pub lines : List Text
  pub applied : ℕ
  pub restore_failed : ℕ
  pub unsafe : ℕ

-- `lines[i] = v`: past the end, the array grows, and the entries between are joined as empty texts.
unfoldable pub assign : List Text → ℕ → Text → List Text
assign [] zero v = v ∷ []
assign [] (suc i) v = [] ∷ assign [] i v
assign (x ∷ xs) zero v = v ∷ xs
assign (x ∷ xs) (suc i) v = x ∷ assign xs i v

-- A line that came back: its placeholders, then the check of the line, then the write.
unfoldable pub apply_text : Profile → Prepared → Text → Tally → Tally
unfolding assign
apply_text profile p out t =
    let back = restore out p.guard.slots in
    let rebuilt = p.guard.prefix ++ back.text in
    if not back.ok
    then record t { restore_failed = t.restore_failed + 1 }
    else if not (line_is_safe p.before rebuilt profile)
    then record t { unsafe = t.unsafe + 1 }
    else record t { lines = assign t.lines p.line rebuilt; applied = t.applied + 1 }

-- One round: null and the empty text keep the line.
unfoldable pub apply_result : Profile → Prepared → Option Text → Tally → Tally
unfolding apply_text
apply_result profile p none t = t
apply_result profile p (some []) t = t
apply_result profile p (some (c ∷ out)) t = apply_text profile p (c ∷ out) t

unfoldable pub apply_results : Profile → List Prepared → List (Option Text) → Tally → Tally
unfolding apply_result
apply_results profile [] rs t = t
apply_results profile (p ∷ ps) [] t = t
apply_results profile (p ∷ ps) (r ∷ rs) t = apply_results profile ps rs (apply_result profile p r t)

pub data Outcome : Type 0 where
  manual_edit : Outcome
  skipped : ℕ → Outcome
  rolled_back : ℕ → List SanityProblem → Outcome
  finished : Tally → ℕ → Outcome

-- The engine as a function of the masked lines.
abbrev pub Translate : Type 0
Translate = List Text → List (Option Text)

unfoldable pub start_tally : List Text → Tally
start_tally lines = record { lines = lines; applied = 0; restore_failed = 0; unsafe = 0 }

unfoldable pub translate_prepared : Profile → Translate → List Text → List Prepared → Tally
unfolding apply_results start_tally
translate_prepared profile engine lines prepared =
    apply_results profile prepared (engine (map (λ p. p.guard.masked) prepared)) (start_tally lines)

unfoldable pub save : FilePath → Text → Text → Program (Unit {0})
save file original translated = do
  create_backup_once (backup_path file []) original
  write_file file translated
  write_file (backup_path file (codes ".out")) translated

unfoldable pub save_where : Bool → FilePath → Text → Text → Program (Unit {0})
unfolding save
save_where some_applied file original translated =
    if some_applied then save file original translated else pure tt

abbrev pub finish_checked :
    FilePath → Text → Text → ℕ → Tally → List SanityProblem → Program Outcome
finish_checked file original translated candidates t (p ∷ ps) =
    pure (rolled_back candidates (p ∷ ps))
finish_checked file original translated candidates t [] = do
  save_where (ltb 0 t.applied) file original translated
  pure (finished t candidates)

unfoldable pub finish : FilePath → Profile → Text → ℕ → Tally → Program Outcome
unfolding save_where
finish file profile original candidates t =
    let translated = join_lines t.lines in
    finish_checked file original translated candidates t (sanity_check original translated profile)

abbrev pub differs_from_stamp : FilePath → Bool → Program Bool
differs_from_stamp file false = pure false
differs_from_stamp file true = do
  current ← reads file
  stamp ← reads (backup_path file (codes ".out"))
  pure (not (text_eq current stamp))

-- `current !== fs.readFileSync(stamp)`, where there is a stamp and no `--force`.
unfoldable pub edited_by_hand : FilePath → Bool → Program Bool
edited_by_hand file force =
    if force
    then pure false
    else do stamped ← there (backup_path file (codes ".out")); differs_from_stamp file stamped

abbrev pub read_backup : FilePath → Bool → Program Text
read_backup file true = reads (backup_path file [])
read_backup file false = reads file

-- The backup where there is one.
unfoldable pub read_source : FilePath → Program Text
read_source file = do backed ← there (backup_path file []); read_backup file backed

abbrev pub translate_targets :
    Profile → Translate → FilePath → Text → List Text → List ℕ → Program Outcome
translate_targets profile engine file original lines [] = pure (skipped 0)
translate_targets profile engine file original lines (i ∷ is_) =
    let prepared = prepare lines (i ∷ is_) in
    finish file profile original (length prepared)
      (translate_prepared profile engine lines prepared)

unfoldable pub translate_text : FileOptions → Translate → FilePath → Text → Program Outcome
unfolding prepare translate_prepared finish
translate_text opt engine file original =
    let lines = split_lines original in
    let targets = collect_targets lines in
    if opt.dry_run
    then pure (skipped (length targets))
    else translate_targets opt.profile engine file original lines targets

abbrev pub translate_unless : FileOptions → Translate → FilePath → Bool → Program Outcome
translate_unless opt engine file true = pure manual_edit
translate_unless opt engine file false = do
  original ← read_source file
  translate_text opt engine file original

unfoldable pub translate_file : FileOptions → Translate → FilePath → Program Outcome
unfolding edited_by_hand read_source translate_text
translate_file opt engine file = do
  edited ← edited_by_hand file opt.force
  translate_unless opt engine file edited
