-- ===== src/FileSafety/Disk.antt =====
-- The part of a file system that the scripts use: names of regular files (by inode), of symbolic links
-- and of directories. Directories are not tracked, and neither is who may write where.
use nginx_web_ui.Prelude.{
  ℕ, zero, suc, ◌+◌, Bool, true, false, ◌&&◌, Option, none, some, Text, codes, text_eq, ◌++◌, ◌==◌,
  if◌then◌else◌,
}

-- `path.dirname` and `path.basename` of a path.
pub record FilePath : Type 0 where
  pub dir : Text
  pub name : Text

abbrev pub path_eq : FilePath → FilePath → Bool
path_eq p q = text_eq p.dir q.dir && text_eq p.name q.name

pub data Entry : Type 0 where
  file : ℕ → Entry
  link : FilePath → Entry
  folder : Entry

pub record Inode : Type 0 where
  pub nlink : ℕ
  pub text : Text

-- `next` is the number of the next new inode.
pub record Disk : Type 0 where
  pub entries : FilePath → Option Entry
  pub inodes : ℕ → Inode
  pub next : ℕ

abbrev pub set_entry : FilePath → Entry → (FilePath → Option Entry) → FilePath → Option Entry
set_entry p e m q = if path_eq p q then some e else m q

abbrev pub set_inode : ℕ → Inode → (ℕ → Inode) → ℕ → Inode
set_inode i n m j = if i == j then n else m j

-- The codes of the errors that the scripts tell apart.
pub data IoError : Type 0 where
  eexist enoent refused : IoError

pub data Io {ℓ} (A : Type ℓ) : Type ℓ where
  done : A → Io A
  fail : IoError → Io A

-- The inode at the end of at most 40 links, where the name is in use.
pub data Target : Type 0 where
  regular : ℕ → Target
  missing : FilePath → Target
  other : Target

abbrev pub follow : (FilePath → Target) → FilePath → Option Entry → Target
follow next p none = missing p
follow next p (some (file i)) = regular i
follow next p (some (link q)) = next q
follow next p (some folder) = other

unfoldable pub resolve_fuel : ℕ → Disk → FilePath → Target
resolve_fuel zero d p = other
resolve_fuel (suc f) d p = follow (λ q. resolve_fuel f d q) p (d.entries p)

unfoldable pub resolve : Disk → FilePath → Target
unfolding resolve_fuel
resolve d p = resolve_fuel 40 d p

abbrev pub read_target : Disk → Target → Io Text
read_target d (regular i) = done (d.inodes i).text
read_target d (missing q) = fail enoent
read_target d other = fail refused

-- `fs.readFileSync(p, 'utf8')`
unfoldable pub read_file : Disk → FilePath → Io Text
unfolding resolve
read_file d p = read_target d (resolve d p)

-- `fs.existsSync(p)`
unfoldable pub exists : Disk → FilePath → Bool
unfolding resolve
exists d p = elim (resolve d p) [ regular i ↦ true | missing q ↦ false | other ↦ true ]

unfoldable pub write_inode : ℕ → Text → Disk → Disk
write_inode i text d = record d {
  inodes = set_inode i (record { nlink = (d.inodes i).nlink; text = text }) d.inodes;
}

unfoldable pub create : FilePath → Text → Disk → Disk
create p text d = record {
  entries = set_entry p (file d.next) d.entries;
  inodes = set_inode d.next (record { nlink = 1; text = text }) d.inodes;
  next = d.next + 1;
}

-- `fs.writeFileSync(p, text, 'utf8')`: through links, creating what is not there.
unfoldable pub write_file : FilePath → Text → Disk → Io (Unit {0}) × Disk
unfolding resolve write_inode create
write_file p text d = elim (resolve d p) [
  | regular i ↦ (done tt, write_inode i text d)
  | missing q ↦ (done tt, create q text d)
  | other ↦ (fail refused, d)
]

abbrev pub write_unused : FilePath → Text → Disk → Option Entry → Io (Unit {0}) × Disk
write_unused p text d none = (done tt, create p text d)
write_unused p text d (some e) = (fail eexist, d)

-- The flag `wx` (`O_EXCL`): any entry of the name is in the way, a dangling link too.
unfoldable pub write_new : FilePath → Text → Disk → Io (Unit {0}) × Disk
unfolding create
write_new p text d = write_unused p text d (d.entries p)

-- `path.join(path.dirname(p), '.translate-backup', path.basename(p) + suffix)`
unfoldable pub backup_path : FilePath → Text → FilePath
backup_path p suffix = record { dir = p.dir ++ codes "/.translate-backup"; name = p.name ++ suffix }
