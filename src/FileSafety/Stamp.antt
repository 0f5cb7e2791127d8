-- ===== src/FileSafety/Stamp.antt =====
-- `createBackupOnce` and `updateExistingStamp` of scripts/docs-file-safety.js.
use nginx_web_ui.Prelude.{ℕ, Bool, true, false, ◌&&◌, Option, none, some, Text, ◌==◌, if◌then◌else◌}
use nginx_web_ui.FileSafety.Disk.{
  FilePath, Entry, file, link, folder, Disk, eexist, enoent, refused, Io, done, fail, regular,
  missing, other, resolve, write_inode, write_new,
}

-- An existing entry is left alone; no other error is hidden.
abbrev pub swallow_eexist : Io (Unit {0}) × Disk → Io (Unit {0}) × Disk
swallow_eexist (done u, d) = (done u, d)
swallow_eexist (fail eexist, d) = (done tt, d)
swallow_eexist (fail enoent, d) = (fail enoent, d)
swallow_eexist (fail refused, d) = (fail refused, d)

unfoldable pub create_backup_once : FilePath → Text → Disk → Io (Unit {0}) × Disk
unfolding write_new
create_backup_once p text d = swallow_eexist (write_new p text d)

-- `fs.openSync(p, O_RDWR | O_NOFOLLOW)`, where the platform has that flag or not: the inode.
unfoldable pub open_existing : Bool → FilePath → Disk → Io ℕ
open_existing nofollow p d =
    if nofollow
    then elim (d.entries p) [
      | none ↦ fail enoent
      | some (file i) ↦ done i
      | some (link q) ↦ fail refused
      | some folder ↦ fail refused
    ]
    else elim (resolve d p) [ regular i ↦ done i | missing q ↦ fail enoent | other ↦ fail refused ]

abbrev pub same_entry : Disk → ℕ → Option Entry → Io Bool
same_entry d i none = fail enoent
same_entry d i (some (file j)) = done ((d.inodes j).nlink == 1 && i == j)
same_entry d i (some (link q)) = done false
same_entry d i (some folder) = done false

-- `fs.lstatSync(p)` against the open inode: the name is still that file's only name.
unfoldable pub same_file : FilePath → ℕ → Disk → Io Bool
same_file p i d = same_entry d i (d.entries p)

-- What other processes do before each call that follows `openSync`.
pub record Race : Type 0 where
  pub before_stat : Disk → Disk
  pub before_lstat : Disk → Disk
  pub before_write : Disk → Disk
  pub before_truncate : Disk → Disk

-- The platform: whether it has `O_NOFOLLOW`, and the bytes of a file. `over text old` is what a file
-- with `old` has after the bytes of `text` are written at its start, and `cut text now` is `now` cut to
-- the number of those bytes.
pub record FilePlatform : Type 0 where
  pub nofollow : Bool
  pub over : Text → Text → Text
  pub cut : Text → Text → Text

abbrev pub swallow_enoent : Io (Unit {0}) × Disk → Io (Unit {0}) × Disk
swallow_enoent (done u, d) = (done u, d)
swallow_enoent (fail eexist, d) = (fail eexist, d)
swallow_enoent (fail enoent, d) = (done tt, d)
swallow_enoent (fail refused, d) = (fail refused, d)

unfoldable pub change_inode : ℕ → (Text → Text) → Disk → Disk
unfolding write_inode
change_inode i f d = write_inode i (f (d.inodes i).text) d

module _ (w : FilePlatform) (race : Race) where
  -- `writeFileSync(fd, data)` and `ftruncateSync(fd, data.length)`.
  unfoldable pub write_open : Text → ℕ → Disk → Disk
  unfolding change_inode
  write_open text i d =
      let written = change_inode i (w.over text) (race.before_write d) in
      change_inode i (w.cut text) (race.before_truncate written)

  -- The write, where the name is still the open file's.
  abbrev pub write_same : Text → ℕ → Disk → Io Bool → Io (Unit {0}) × Disk
  unfolding write_open
  write_same text i d (fail e) = (fail e, d)
  write_same text i d (done false) = (fail refused, d)
  write_same text i d (done true) = (done tt, write_open text i d)

  -- From `fstatSync` on.
  unfoldable pub update_open : FilePath → Text → ℕ → Disk → Io (Unit {0}) × Disk
  unfolding same_file write_open
  update_open p text i d =
      if (d.inodes i).nlink == 1
      then write_same text i (race.before_lstat d) (same_file p i (race.before_lstat d))
      else (fail refused, d)

  abbrev pub update_opened : FilePath → Text → Disk → Io ℕ → Io (Unit {0}) × Disk
  unfolding update_open
  update_opened p text d (fail e) = (fail e, d)
  update_opened p text d (done i) = update_open p text i (race.before_stat d)

  unfoldable pub update_existing_stamp : FilePath → Text → Disk → Io (Unit {0}) × Disk
  unfolding open_existing update_open
  update_existing_stamp p text d =
      swallow_enoent (update_opened p text d (open_existing w.nofollow p d))
