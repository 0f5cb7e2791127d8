-- ===== src/FileSafety/Keeps.antt =====
-- Programs that leave the disk as it is.
use nginx_web_ui.Prelude.{◌≡◌, refl}
use nginx_web_ui.FileSafety.Disk.{Disk, Io, done, fail}
use nginx_web_ui.FileSafety.Program.{Program, continue_with}

abbrev pub Keeps {ℓ} : {A : Type ℓ} → Program A → Type 0
Keeps m = (d : Disk) → (m d).1 ≡ d

pub continue_with-Keeps {ℓ κ} :
    {A : Type ℓ} {B : Type κ} (o : Io A) (f : A → Program B)
    → ((a : A) → Keeps (f a))
    → Keeps (continue_with o f)
continue_with-Keeps (done a) f h = h a
continue_with-Keeps (fail e) f h = λ d. refl
