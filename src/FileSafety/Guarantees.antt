-- ===== src/FileSafety/Guarantees.antt =====
-- `createBackupOnce` and `updateExistingStamp` of scripts/docs-file-safety.js, and what is on the disk behind them.
use nginx_web_ui.Prelude.{
  ℕ, ◌≡◌, refl, ap, sym, ◌∙◌, Bool, true, false, ◌&&◌, List, [], ◌∷◌, Option, none, some, ◌⊎◌, inl,
  inr, Text, text_eq_refl, subst, ◌==◌, ==_iff, Bool-cases, arith,
}
use nginx_web_ui.FileSafety.Disk.{
  FilePath, path_eq, Entry, file, link, folder, Inode, Disk, IoError, eexist, enoent, refused, Io,
  done, fail, regular, follow, resolve_fuel, resolve, read_target, read_file, write_inode, create,
  write_unused, write_new,
}
use nginx_web_ui.FileSafety.Stamp.{
  create_backup_once, swallow_eexist, open_existing, same_entry, same_file, Race, FilePlatform,
  swallow_enoent, change_inode, write_open, write_same, update_open, update_opened,
  update_existing_stamp,
}

pub path_eq_refl : (p : FilePath) → path_eq p p ≡ true
path_eq_refl p = rw (text_eq_refl p.dir, text_eq_refl p.name) refl

==-refl : (n : ℕ) → (n == n) ≡ true
==-refl n = (==_iff n n).1 refl

pub create-entry :
    (p : FilePath) (a : Text) (d : Disk) → (create p a d).entries p ≡ some (file d.next)
unfolding create
create-entry p a d = rw (path_eq_refl p) refl

pub create-inode :
    (p : FilePath) (a : Text) (d : Disk)
    → (create p a d).inodes d.next ≡ record { nlink = 1; text = a }
unfolding create
create-inode p a d = rw (==-refl d.next) refl

pub resolve-file :
    (p : FilePath) (i : ℕ) (d : Disk) → d.entries p ≡ some (file i) → resolve d p ≡ regular i
unfolding resolve resolve_fuel
resolve-file p i d h = ap (follow (λ q. resolve_fuel 39 d q) p) h

pub read_file-create : (p : FilePath) (a : Text) (d : Disk) → read_file (create p a d) p ≡ done a
unfolding read_file
read_file-create p a d =
    ap (read_target (create p a d)) (resolve-file p d.next (create p a d) (create-entry p a d))
    ∙ ap (λ (n : Inode). done n.text) (create-inode p a d)

pub create_backup_once-free :
    (p : FilePath) (a : Text) (d : Disk)
    → d.entries p ≡ none
    → create_backup_once p a d ≡ (done tt, create p a d)
unfolding create_backup_once write_new
create_backup_once-free p a d h = ap (λ o. swallow_eexist (write_unused p a d o)) h

pub create_backup_once-taken :
    (p : FilePath) (a : Text) (e : Entry) (d : Disk)
    → d.entries p ≡ some e
    → create_backup_once p a d ≡ (done tt, d)
unfolding create_backup_once write_new
create_backup_once-taken p a e d h = ap (λ o. swallow_eexist (write_unused p a d o)) h

-- One backup after another, under the same name.
abbrev pub backups : FilePath → List Text → Disk → Disk
backups p [] d = d
backups p (t ∷ ts) d = backups p ts (create_backup_once p t d).1

backups-taken :
    (p : FilePath) (ts : List Text) (e : Entry) (d : Disk)
    → d.entries p ≡ some e
    → backups p ts d ≡ d
backups-taken p [] e d h = refl
backups-taken p (t ∷ ts) e d h =
    ap (λ r. backups p ts r.1) (create_backup_once-taken p t e d h) ∙ backups-taken p ts e d h

-- The first text that is backed up under a free name is the one that the name keeps.
pub create_backup_once-first :
    (p : FilePath) (a : Text) (ts : List Text) (d : Disk)
    → d.entries p ≡ none
    → read_file (backups p (a ∷ ts) d) p ≡ done a
create_backup_once-first p a ts d h =
    ap (λ r. read_file (backups p ts r.1) p) (create_backup_once-free p a d h)
    ∙ ap (λ x. read_file x p) (backups-taken p ts (file d.next) (create p a d) (create-entry p a d))
    ∙ read_file-create p a d

-- The disk when `fstatSync` and `lstatSync` look at it.
abbrev pub at_stat : Race → Disk → Disk
at_stat race d = race.before_stat d

abbrev pub at_lstat : Race → Disk → Disk
at_lstat race d = race.before_lstat (at_stat race d)

-- The inode had one name at `fstatSync`, and was the path's own file, with one name, at `lstatSync`.
abbrev pub Own : Race → FilePath → ℕ → Disk → Type 0
Own race p i d =
    (((at_stat race d).inodes i).nlink ≡ 1)
    × ((at_lstat race d).entries p ≡ some (file i))
    × (((at_lstat race d).inodes i).nlink ≡ 1)

-- Of what was done then, all went to such an inode: the bytes of the text over its start, and the cut.
abbrev pub WroteOwn : FilePlatform → Race → FilePath → Text → Disk → Disk → Type 0
WroteOwn w race p text d after =
    (i : ℕ) × Own race p i d
    × (after
        ≡ change_inode i (w.cut text) (
            race.before_truncate
              (change_inode i (w.over text) (race.before_write (at_lstat race d)))))

-- Only the others changed something.
abbrev pub Untouched : Race → Disk → Disk → Type 0
Untouched race d after = (after ≡ d) ⊎ ((after ≡ at_stat race d) ⊎ (after ≡ at_lstat race d))

same_entry-own :
    (i : ℕ) (d : Disk) (o : Option Entry)
    → same_entry d i o ≡ done true
    → (o ≡ some (file i)) × ((d.inodes i).nlink ≡ 1)
same_entry-own i d none h = cc
same_entry-own i d (some (link q)) h = cc
same_entry-own i d (some folder) h = cc
same_entry-own i d (some (file j)) h =
    let b : ((d.inodes j).nlink == 1 && i == j) ≡ true = cc in
    let same : i ≡ j = ground (arith, b) in
    let only : (d.inodes j).nlink ≡ 1 = ground (arith, b) in
    (ap (λ k. some (file k)) (sym same), ap (λ k. (d.inodes k).nlink) same ∙ only)

Io-cases : (o : Io Bool) → ((e : IoError) × (o ≡ fail e)) ⊎ ((b : Bool) × (o ≡ done b))
Io-cases (fail e) = inl (e, refl)
Io-cases (done b) = inr (b, refl)

module _ (w : FilePlatform) (race : Race) where
  write_same-safe :
      (p : FilePath) (text : Text) (i : ℕ) (d : Disk) (r : Io Bool)
      → ((at_stat race d).inodes i).nlink ≡ 1
      → same_file p i (at_lstat race d) ≡ r
      → Untouched race d (write_same w race text i (at_lstat race d) r).1
        ⊎ WroteOwn w race p text d (write_same w race text i (at_lstat race d) r).1
  unfolding same_file write_open
  write_same-safe p text i d (fail e) n h = inl (inr (inr refl))
  write_same-safe p text i d (done false) n h = inl (inr (inr refl))
  write_same-safe p text i d (done true) n h =
      let (own, only) = same_entry-own i (at_lstat race d) _ h in inr (i, (n, own, only), refl)

  update_open-safe :
      (p : FilePath) (text : Text) (i : ℕ) (d : Disk)
      → Untouched race d (update_open w race p text i (at_stat race d)).1
        ⊎ WroteOwn w race p text d (update_open w race p text i (at_stat race d)).1
  unfolding update_open
  update_open-safe p text i d = elim (Bool-cases (((at_stat race d).inodes i).nlink == 1)) [
    | inl one ↦
        rw one
          (write_same-safe p text i d (same_file p i (at_lstat race d)) ((==_iff _ _).0 one) refl)
    | inr more ↦ rw more (inl (inr (inl refl)))
  ]

  update_opened-safe :
      (p : FilePath) (text : Text) (d : Disk) (o : Io ℕ)
      → Untouched race d (update_opened w race p text d o).1
        ⊎ WroteOwn w race p text d (update_opened w race p text d o).1
  unfolding update_open
  update_opened-safe p text d (fail e) = inl (inl refl)
  update_opened-safe p text d (done i) = update_open-safe p text i d

swallow_enoent-disk : (r : Io (Unit {0}) × Disk) → (swallow_enoent r).1 ≡ r.1
swallow_enoent-disk (done u, d) = refl
swallow_enoent-disk (fail eexist, d) = refl
swallow_enoent-disk (fail enoent, d) = refl
swallow_enoent-disk (fail refused, d) = refl

-- Whatever others do before `fstat`, `lstat`, the write and the cut, and with `O_NOFOLLOW` or without it:
-- the disk is left as the others leave it, or the bytes of the text and the cut went to the open inode, which
-- had one name at `fstat` and was still that path's own file, with one name, at `lstat`.
pub update_existing_stamp-safe :
    (w : FilePlatform) (race : Race) (p : FilePath) (text : Text) (d : Disk)
    → Untouched race d (update_existing_stamp w race p text d).1
      ⊎ WroteOwn w race p text d (update_existing_stamp w race p text d).1
unfolding update_existing_stamp
update_existing_stamp-safe w race p text d =
    let opened = update_opened w race p text d (open_existing w.nofollow p d) in
    subst (λ x. Untouched race d x ⊎ WroteOwn w race p text d x) (sym (swallow_enoent-disk opened))
      (update_opened-safe w race p text d (open_existing w.nofollow p d))

change_inode-text :
    (i : ℕ) (f : Text → Text) (d : Disk)
    → ((change_inode i f d).inodes i).text ≡ f (d.inodes i).text
unfolding change_inode write_inode
change_inode-text i f d = rw (==-refl i) refl

-- Where cutting what was written to its length gives what was written, and others change no content between
-- the write and the cut: the disk is left as the others leave it, or the inode has exactly the text.
pub update_existing_stamp-text :
    (w : FilePlatform) (race : Race) (p : FilePath) (text : Text) (d : Disk)
    → ((t old : Text) → w.cut t (w.over t old) ≡ t)
    → ((j : ℕ) (e : Disk) → ((race.before_truncate e).inodes j).text ≡ (e.inodes j).text)
    → Untouched race d (update_existing_stamp w race p text d).1
      ⊎ ((i : ℕ) × Own race p i d
          × (((update_existing_stamp w race p text d).1.inodes i).text ≡ text))
update_existing_stamp-text w race p text d exact quiet =
    elim (update_existing_stamp-safe w race p text d) [
      | inl untouched ↦ inl untouched
      | inr (i, own, wrote) ↦
          let before = race.before_write (at_lstat race d) in
          let written = change_inode i (w.over text) before in
          let now : ((race.before_truncate written).inodes i).text
              ≡ w.over text (before.inodes i).text =
            quiet i written ∙ change_inode-text i (w.over text) before in
          inr (
            i,
            own,
            ap (λ (e : Disk). (e.inodes i).text) wrote
                ∙ change_inode-text i (w.cut text) (race.before_truncate written)
                ∙ ap (w.cut text) now
                ∙ exact text (before.inodes i).text,
          )
    ]
