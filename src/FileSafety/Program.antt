-- ===== src/FileSafety/Program.antt =====
-- Scripts that read and write files: what was written before an error stays written.
use nginx_web_ui.Prelude.{Bool, Text}
use nginx_web_ui.FileSafety.Disk.{FilePath, Disk, Io, done, fail, read_file, exists}

abbrev pub Program {ℓ} : Type ℓ → Type ℓ
Program A = Disk → Io A × Disk

module _ {ℓ κ} {A : Type ℓ} {B : Type κ} where
  abbrev pub continue_with : Io A → (A → Program B) → Program B
  continue_with (done a) f d = f a d
  continue_with (fail e) f d = (fail e, d)

  infixl 5 ◌>>=◌
  abbrev pub ◌>>=◌ : Program A → (A → Program B) → Program B
  ◌>>=◌ m f d = continue_with (m d).0 f (m d).1

infixl 5 ◌>>◌
abbrev pub ◌>>◌ {ℓ} : {B : Type ℓ} → Program (Unit {0}) → Program B → Program B
m >> n = m >>= λ _. n

abbrev pub pure {ℓ} : {A : Type ℓ} → A → Program A
pure a d = (done a, d)

abbrev pub reads : FilePath → Program Text
reads p d = (read_file d p, d)

abbrev pub there : FilePath → Program Bool
there p d = (done (exists d p), d)
