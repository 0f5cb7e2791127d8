-- ===== src/DocsTranslation/Files.antt =====
-- When `translateFile` of scripts/translate-docs.js writes.
use nginx_web_ui.Prelude.{
  ℕ, ◌≡◌, refl, ◌∙◌, inl, inr, Bool, true, false, List, [], ◌∷◌, Text, codes, ltb, split_lines,
  join_lines, Bool-cases,
}
use nginx_web_ui.FileSafety.Disk.{FilePath, Disk, Io, done, fail, backup_path, read_file, exists}
use nginx_web_ui.FileSafety.Program.{Program, continue_with, pure}
use nginx_web_ui.FileSafety.Keeps.{Keeps, continue_with-Keeps}
use nginx_web_ui.DocsTranslation.Lines.{collect_targets}
use nginx_web_ui.DocsTranslation.Safety.{Profile, SanityProblem, sanity_check}
use nginx_web_ui.DocsTranslation.TranslateFile.{
  FileOptions, Tally, Outcome, manual_edit, skipped, rolled_back, finished, Translate, save_where,
  finish, finish_checked, differs_from_stamp, edited_by_hand, read_backup, read_source,
  translate_targets, translate_text, translate_unless, translate_file,
}

-- `fs.writeFileSync` is reached only for a finished file with an applied line.
abbrev pub writes : Outcome → Bool
writes manual_edit = false
writes (skipped n) = false
writes (rolled_back n ps) = false
writes (finished t n) = ltb 0 t.applied

-- A result without a write leaves the disk as it was.
abbrev pub Quiet : Program Outcome → Type 0
Quiet m = (d : Disk) (o : Outcome) → (m d).0 ≡ done o → writes o ≡ false → (m d).1 ≡ d

Keeps-Quiet : (m : Program Outcome) → Keeps m → Quiet m
Keeps-Quiet m h d o e w = h d

continue_with-Quiet {ℓ} :
    {A : Type ℓ} (r : Io A) (f : A → Program Outcome)
    → ((a : A) → Quiet (f a))
    → Quiet (continue_with r f)
continue_with-Quiet (done a) f h = h a
continue_with-Quiet (fail e) f h = λ d o q w. refl

differs_from_stamp-Keeps :
    (file : FilePath) (stamped : Bool) → Keeps (differs_from_stamp file stamped)
differs_from_stamp-Keeps file false d = refl
differs_from_stamp-Keeps file true d =
    continue_with-Keeps (read_file d file) _
      (λ current e.
        continue_with-Keeps (read_file e (backup_path file (codes ".out"))) _ (λ stamp c. refl) e)
      d

edited_by_hand-Keeps : (file : FilePath) (force : Bool) → Keeps (edited_by_hand file force)
unfolding edited_by_hand
edited_by_hand-Keeps file true d = refl
edited_by_hand-Keeps file false d =
    differs_from_stamp-Keeps file (exists d (backup_path file (codes ".out"))) d

read_backup-Keeps : (file : FilePath) (backed : Bool) → Keeps (read_backup file backed)
read_backup-Keeps file true d = refl
read_backup-Keeps file false d = refl

read_source-Keeps : (file : FilePath) → Keeps (read_source file)
unfolding read_source
read_source-Keeps file d = read_backup-Keeps file (exists d (backup_path file [])) d

-- Where the lines were saved, the outcome says so.
after_save :
    (r : Io (Unit {0})) (o last : Outcome) (d e : Disk)
    → writes last ≡ true
    → (continue_with r (λ u. pure last) d).0 ≡ done o
    → writes o ≡ false
    → (continue_with r (λ u. pure last) d).1 ≡ e
after_save (done u) o last d e w h q = cc
after_save (fail x) o last d e w h q = cc

finish_checked-Quiet :
    (file : FilePath) (original translated : Text) (n : ℕ) (t : Tally) (ps : List SanityProblem)
    → Quiet (finish_checked file original translated n t ps)
unfolding save_where
finish_checked-Quiet file original translated n t (p ∷ ps) d o h w = refl
finish_checked-Quiet file original translated n t [] d o h w = elim (Bool-cases (ltb 0 t.applied)) [
  | inl some_ ↦ after_save _ o (finished t n) _ d some_ h w
  | inr none_ ↦ rw none_ refl
]

finish-Quiet :
    (file : FilePath) (profile : Profile) (original : Text) (n : ℕ) (t : Tally)
    → Quiet (finish file profile original n t)
unfolding finish
finish-Quiet file profile original n t =
    finish_checked-Quiet file original (join_lines t.lines) n t
      (sanity_check original (join_lines t.lines) profile)

translate_targets-Quiet :
    (profile : Profile) (engine : Translate) (file : FilePath) (original : Text) (lines : List Text)
    (targets : List ℕ)
    → Quiet (translate_targets profile engine file original lines targets)
translate_targets-Quiet profile engine file original lines [] d o h w = refl
translate_targets-Quiet profile engine file original lines (i ∷ is_) d o h w =
    finish-Quiet file profile original _ _ d o h w

translate_text-Quiet :
    (opt : FileOptions) (engine : Translate) (file : FilePath) (original : Text)
    → Quiet (translate_text opt engine file original)
unfolding translate_text
translate_text-Quiet opt engine file original = elim (Bool-cases opt.dry_run) [
  | inl dry ↦ rw dry (λ d o h w. refl)
  | inr wet ↦ rw wet (
      translate_targets-Quiet opt.profile engine file original (split_lines original)
        (collect_targets (split_lines original)))
]

translate_unless-Quiet :
    (opt : FileOptions) (engine : Translate) (file : FilePath) (edited : Bool)
    → Quiet (translate_unless opt engine file edited)
translate_unless-Quiet opt engine file true d o h w = refl
translate_unless-Quiet opt engine file false d o h w =
    continue_with-Quiet (read_source file d).0 (translate_text opt engine file)
      (translate_text-Quiet opt engine file) (read_source file d).1 o h w
    ∙ read_source-Keeps file d

-- Where `translateFile` reports anything but a finished file with an applied line, the disk is as it
-- was: the edited, the skipped and the rolled back file are not touched, nor is any backup.
pub translate_file-quiet :
    (opt : FileOptions) (engine : Translate) (file : FilePath) (d : Disk) (o : Outcome)
    → (translate_file opt engine file d).0 ≡ done o
    → writes o ≡ false
    → (translate_file opt engine file d).1 ≡ d
unfolding translate_file
translate_file-quiet opt engine file d o h w =
    continue_with-Quiet (edited_by_hand file opt.force d).0 (translate_unless opt engine file)
      (translate_unless-Quiet opt engine file) (edited_by_hand file opt.force d).1 o h w
    ∙ edited_by_hand-Keeps file opt.force d

translate_unless-dry :
    (opt : FileOptions) (engine : Translate) (file : FilePath) (edited : Bool)
    → opt.dry_run ≡ true
    → Keeps (translate_unless opt engine file edited)
unfolding translate_text
translate_unless-dry opt engine file true dry d = refl
translate_unless-dry opt engine file false dry d =
    continue_with-Keeps (read_source file d).0 (translate_text opt engine file)
      (λ original e. rw dry refl) (read_source file d).1
    ∙ read_source-Keeps file d

-- With `--dry-run` the disk stays as it is, whatever comes back.
pub translate_file-dry :
    (opt : FileOptions) (engine : Translate) (file : FilePath) (d : Disk)
    → opt.dry_run ≡ true
    → (translate_file opt engine file d).1 ≡ d
unfolding translate_file
translate_file-dry opt engine file d dry =
    continue_with-Keeps (edited_by_hand file opt.force d).0 (translate_unless opt engine file)
      (λ edited. translate_unless-dry opt engine file edited dry)
      (edited_by_hand file opt.force d).1
    ∙ edited_by_hand-Keeps file opt.force d
