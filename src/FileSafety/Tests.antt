-- ===== src/FileSafety/Tests.antt =====
-- The file helpers at concrete disks.
use nginx_web_ui.Prelude.{
  ℕ, ◌++◌, take, drop, length, take-length-append, ◌≡◌, refl, true, [], ◌∷◌, none, ◌⊎◌, codes,
}
use nginx_web_ui.FileSafety.Disk.{FilePath, file, link, Disk, done, read_file, set_entry}
use nginx_web_ui.FileSafety.Stamp.{Race, FilePlatform, update_existing_stamp}
use nginx_web_ui.FileSafety.Guarantees.{
  backups, create_backup_once-first, Untouched, WroteOwn, update_existing_stamp-safe, Own,
  update_existing_stamp-text,
}

abbrev guide : FilePath
guide = record { dir = codes "docs"; name = codes "guide.md" }

abbrev stamp : FilePath
stamp = record { dir = codes "docs"; name = codes "guide.out" }

-- A disk with one file.
abbrev one_file : Disk
one_file = record {
  entries = set_entry guide (file 0) (λ p. none);
  inodes = λ i. record { nlink = 1; text = codes "old" };
  next = 1;
}

create_backup_once-first_example :
    read_file (backups stamp (codes "first" ∷ codes "second" ∷ []) one_file) stamp
    ≡ done (codes "first")
create_backup_once-first_example =
    create_backup_once-first stamp (codes "first") (codes "second" ∷ []) one_file refl

-- Another process puts a link where the file was.
abbrev hijack : Disk → Disk
hijack d = record d { entries = set_entry guide (link stamp) d.entries }

abbrev raced : Race
raced = record {
  before_stat = λ d. d;
  before_lstat = hijack;
  before_write = λ d. d;
  before_truncate = λ d. d;
}

-- A platform where each code unit is one byte.
abbrev linux : FilePlatform
linux = record {
  nofollow = true;
  over = λ t old. t ++ drop (length t) old;
  cut = λ t now. take (length t) now;
}

update_existing_stamp-safe_example :
    Untouched raced one_file (update_existing_stamp linux raced guide (codes "new") one_file).1
    ⊎ WroteOwn linux raced guide
        (codes "new")
        one_file
        (update_existing_stamp linux raced guide (codes "new") one_file).1
update_existing_stamp-safe_example =
    update_existing_stamp-safe linux raced guide (codes "new") one_file

abbrev alone : Race
alone = record {
  before_stat = λ d. d;
  before_lstat = λ d. d;
  before_write = λ d. d;
  before_truncate = λ d. d;
}

update_existing_stamp-text_example :
    Untouched alone one_file (update_existing_stamp linux alone guide (codes "new") one_file).1
    ⊎ ((i : ℕ) × Own alone guide i one_file
        × (((update_existing_stamp linux alone guide (codes "new") one_file).1.inodes i).text
            ≡ codes "new"))
update_existing_stamp-text_example =
    update_existing_stamp-text linux alone guide (codes "new") one_file
      (λ t old. take-length-append t (drop (length t) old)) (λ j e. refl)
