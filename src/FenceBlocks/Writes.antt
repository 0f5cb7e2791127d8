-- ===== src/FenceBlocks/Writes.antt =====
-- When scripts/fence-code-blocks.js writes, and what it has checked by then.
use nginx_web_ui.Prelude.{
  ◌≡◌, refl, sym, subst, ◌∙◌, ◌⊎◌, codes, inl, inr, Bool, true, false, List, [], ◌∷◌, ◌++◌, Text,
  text_eq, ◌==◌, split_lines, Bool-cases,
}
use nginx_web_ui.FileSafety.Disk.{
  FilePath, Disk, Io, IoError, done, fail, read_file, backup_path, write_file,
}
use nginx_web_ui.FileSafety.Stamp.{create_backup_once}
use nginx_web_ui.FileSafety.Program.{continue_with, pure}
use nginx_web_ui.FileSafety.Keeps.{Keeps, continue_with-Keeps}
use nginx_web_ui.FenceBlocks.Scan.{fence_scan, content_fingerprint}
use nginx_web_ui.FenceBlocks.Convert.{Problem, check_fingerprint, check_fences, convert_file}
use nginx_web_ui.FenceBlocks.Run.{
  Totals, has_problems, write_conversion, run_text, run_file, run_files,
}

has_problems-append :
    (ps qs : List Problem)
    → has_problems (ps ++ qs) ≡ false
    → (has_problems ps ≡ false) × (has_problems qs ≡ false)
has_problems-append [] qs h = (refl, h)
has_problems-append (p ∷ ps) qs h = cc

check_fingerprint-none :
    (result text : Text)
    → has_problems (check_fingerprint result text) ≡ false
    → text_eq (content_fingerprint result) (content_fingerprint text) ≡ true
unfolding check_fingerprint
check_fingerprint-none result text h =
    elim (Bool-cases (text_eq (content_fingerprint result) (content_fingerprint text))) [
      | inl same ↦ same
      | inr differ ↦ cc (rw differ at h)
    ]

check_fences-none :
    (result : Text) (b : Bool)
    → has_problems (check_fences result b) ≡ false
    → (fence_scan (split_lines result)).unclosed ≡ false
unfolding check_fences
check_fences-none result b h = elim (Bool-cases ((fence_scan (split_lines result)).unclosed)) [
  | inl open_ ↦ cc (rw open_ at h)
  | inr closed ↦ closed
]

-- The result keeps the content, and leaves no fence open.
abbrev pub Checked : Text → Text → Type 0
Checked src result =
    (text_eq (content_fingerprint result) (content_fingerprint src) ≡ true)
    × ((fence_scan (split_lines result)).unclosed ≡ false)

checks_none :
    (ps : List Problem) (result src : Text) (b : Bool)
    → has_problems ((ps ++ check_fingerprint result src) ++ check_fences result b) ≡ false
    → Checked src result
checks_none ps result src b h =
    let (rest, fences) =
      has_problems-append (ps ++ check_fingerprint result src) (check_fences result b) h in
    let (own, content) = has_problems-append ps (check_fingerprint result src) rest in
    (check_fingerprint-none result src content, check_fences-none result b fences)

-- A conversion without a problem keeps the content and closes every fence.
pub convert_file-Checked :
    (src : Text)
    → has_problems (convert_file src).problems ≡ false
    → Checked src (convert_file src).text
unfolding convert_file
convert_file-Checked src h = checks_none _ _ src (fence_scan (split_lines src)).unclosed h

-- The name of a file's backup.
abbrev pub fence_backup : FilePath → FilePath
fence_backup file = backup_path file (codes ".pre-fence")

-- After the backup: the result of the conversion is written, or the backup's error ends the file.
abbrev pub WrittenAfter : FilePath → Text → Io (Unit {0}) × Disk → Disk → Type 0
WrittenAfter file src (backed, kept) after =
    ((backed ≡ done tt)
      × Checked src (convert_file src).text
      × (after ≡ (write_file file (convert_file src).text kept).1))
    ⊎ ((e : IoError) × (backed ≡ fail e) × (after ≡ kept))

-- What `--apply` may do to the disk for a file with this text: the text itself goes to the backup, and only
-- when there is a backup (this one or an older one) its conversion, which passes the checks, goes to the file.
abbrev pub BackedThenWritten : FilePath → Text → Disk → Disk → Type 0
BackedThenWritten file src d after =
    WrittenAfter file src (create_backup_once (fence_backup file) src d) after

-- What the loop's body may do to the disk, where it changes it.
abbrev pub WroteChecked : Bool → FilePath → Disk → Disk → Type 0
WroteChecked apply file d after =
    (apply ≡ true)
    × (src : Text) × (read_file d file ≡ done src)
    × BackedThenWritten file src d after

-- After the write comes only a total.
after_write : (r : Io (Unit {0})) (t : Totals) (d : Disk) → (continue_with r (λ u. pure t) d).1 ≡ d
after_write (done u) t d = refl
after_write (fail e) t d = refl

written_after :
    (file : FilePath) (src : Text) (r : Io (Unit {0}) × Disk)
    → Checked src (convert_file src).text
    → WrittenAfter file src r
        (continue_with r.0 (λ u. write_file file (convert_file src).text) r.1).1
written_after file src (done u, kept) ok = inl (refl, ok, refl)
written_after file src (fail e, kept) ok = inr (e, refl, refl)

-- The backup of the text comes first, and without it the file is not written.
write_conversion-Backed :
    (file : FilePath) (src : Text) (d : Disk)
    → Checked src (convert_file src).text
    → BackedThenWritten file src d (write_conversion true file src (convert_file src).text d).1
unfolding write_conversion
write_conversion-Backed file src d ok =
    written_after file src (create_backup_once (fence_backup file) src d) ok

run_text-Checked :
    (apply : Bool) (t : Totals) (file : FilePath) (src : Text) (d : Disk)
    → ((run_text apply t file src d).1 ≡ d)
      ⊎ ((apply ≡ true) × BackedThenWritten file src d (run_text apply t file src d).1)
unfolding run_text
run_text-Checked apply t file src d = elim (Bool-cases (has_problems (convert_file src).problems)) [
  | inl bad ↦ rw bad (inl refl)
  | inr good ↦ elim (Bool-cases ((convert_file src).converted == 0)) [
    | inl none_ ↦ rw (good, none_) (inl refl)
    | inr some_ ↦ elim (Bool-cases apply) [
      | inl on ↦
          rw (good, some_, on)
            (inr (
              refl,
              subst (BackedThenWritten file src d) (sym (after_write _ _ _))
                  (write_conversion-Backed file src d (convert_file-Checked src good)),
            ))
      | inr off ↦ rw (good, some_, off) (inl refl)
    ]
  ]
]

run_text-dry : (t : Totals) (file : FilePath) (src : Text) → Keeps (run_text false t file src)
run_text-dry t file src d = elim (run_text-Checked false t file src d) [
  | inl same ↦ same
  | inr (on, wrote) ↦ cc
]

run_file-dry : (t : Totals) (file : FilePath) → Keeps (run_file false t file)
unfolding run_file
run_file-dry t file d =
    continue_with-Keeps (read_file d file) (run_text false t file) (run_text-dry t file) d

read_then :
    (apply : Bool) (t : Totals) (file : FilePath) (d : Disk) (r : Io Text)
    → read_file d file ≡ r
    → ((continue_with r (run_text apply t file) d).1 ≡ d)
      ⊎ WroteChecked apply file d (continue_with r (run_text apply t file) d).1
read_then apply t file d (fail e) h = inl refl
read_then apply t file d (done src) h = elim (run_text-Checked apply t file src d) [
  | inl same ↦ inl same
  | inr (on, wrote) ↦ inr (on, src, h, wrote)
]

-- The loop's body leaves the disk as it is, or `--apply` was given, the file's own text went to the backup
-- first, and only with a backup there the file got the text's conversion, which has the same content and every
-- fence closed.
pub run_file-Checked :
    (apply : Bool) (t : Totals) (file : FilePath) (d : Disk)
    → ((run_file apply t file d).1 ≡ d) ⊎ WroteChecked apply file d (run_file apply t file d).1
unfolding run_file
run_file-Checked apply t file d = read_then apply t file d (read_file d file) refl

-- Without `--apply`, no file of the run is changed.
pub run_files-dry :
    (t : Totals) (files : List FilePath) (d : Disk) → (run_files false t files d).1 ≡ d
unfolding run_files
run_files-dry t [] d = refl
run_files-dry t (f ∷ fs) d =
    continue_with-Keeps (run_file false t f d).0 (λ t'. run_files false t' fs)
      (λ t'. run_files-dry t' fs) (run_file false t f d).1
    ∙ run_file-dry t f d
