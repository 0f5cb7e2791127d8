-- ===== src/FenceBlocks/Arguments.antt =====
-- What the command line of scripts/fence-code-blocks.js must say before anything is written.
use nginx_web_ui.Prelude.{
  ℕ, zero, suc, ◌≡◌, refl, ◌≤◌, ap, sym, ◌∙◌, subst, ◌⊎◌, inl, inr, Bool, true, false, ◌||◌, List,
  [], ◌∷◌, Option, some, arith, Text, codes, text_eq, any, length, Bool-cases, if◌then◌else◌,
}
use nginx_web_ui.FenceBlocks.Cli.{
  CliError, unknown_argument, Result, ok, err, ◌>>=◌, Options, defaults, int_arg, after_arg,
  next_arg, falsy, with_dir, parse_loop, parse_args,
}

abbrev pub mentions : Text → List Text → Bool
mentions word argv = any (λ a. text_eq a word) argv

-- If a result has `apply`, the options had it or the arguments have `--apply`.
abbrev Asked : Options → List Text → Result Options → Type 0
Asked opt argv r =
    (o : Options)
    → r ≡ ok o
    → o.apply ≡ true
    → (opt.apply ≡ true) ⊎ (mentions (codes "--apply") argv ≡ true)

choose :
    (opt : Options) (argv : List Text) (b : Bool) (x y : Result Options)
    → Asked opt argv x
    → Asked opt argv y
    → Asked opt argv (if b then x else y)
choose opt argv true x y hx hy = hx
choose opt argv false x y hx hy = hy

choose_if :
    (opt : Options) (argv : List Text) (b : Bool) (x y : Result Options)
    → (b ≡ true → Asked opt argv x)
    → Asked opt argv y
    → Asked opt argv (if b then x else y)
choose_if opt argv true x y hx hy = hx refl
choose_if opt argv false x y hx hy = hy

or_left : (a b : Bool) → a ≡ true → (a || b) ≡ true
or_left a b h = ground arith

or_right : (a b : Bool) → b ≡ true → (a || b) ≡ true
or_right a b h = ground arith

Asked-more :
    (opt : Options) (a : Text) (argv : List Text) (r : Result Options)
    → Asked opt argv r
    → Asked opt (a ∷ argv) r
Asked-more opt a argv r h o e on = elim (h o e on) [
  | inl before ↦ inl before
  | inr word ↦ inr (or_right _ _ word)
]

Asked-after :
    (opt : Options) (argv : List Text) (r : Result Options)
    → Asked opt (after_arg argv) r
    → Asked opt argv r
Asked-after opt [] r h = h
Asked-after opt (a ∷ argv) r h = Asked-more opt a argv r h

Asked-bind :
    (opt : Options) (argv : List Text) (r : Result ℕ) (f : ℕ → Result Options)
    → ((n : ℕ) → Asked opt argv (f n))
    → Asked opt argv (r >>= f)
Asked-bind opt argv (ok n) f h = h n
Asked-bind opt argv (err e) f h = λ o q on. cc

Asked-err : (opt : Options) (argv : List Text) (x : CliError) → Asked opt argv (err x)
Asked-err opt argv x o e on = cc

parse_loop-Asked :
    (to_count : Option Text → Option ℕ) (f : ℕ) (argv : List Text) (opt : Options)
    → Asked opt argv (parse_loop to_count f argv opt)
unfolding parse_loop
parse_loop-Asked to_count f [] opt = λ o e on. inl cc
parse_loop-Asked to_count zero (a ∷ argv) opt = λ o e on. inl cc
parse_loop-Asked to_count (suc f) (a ∷ argv) opt =
    let rest = after_arg argv in
    let v = next_arg argv in
    let go = λ (opt' : Options). parse_loop-Asked to_count f argv opt' in
    let go_on =
      λ (opt' : Options). Asked-after opt' argv _ (parse_loop-Asked to_count f rest opt') in
    let dry : Asked opt argv (parse_loop to_count f argv (record opt { apply = false })) = λ o e on.
      elim (go (record opt { apply = false }) o e on) [ inl no_ ↦ cc | inr word ↦ inr word ] in
    choose_if opt (a ∷ argv) (text_eq a (codes "--apply")) _ _
      (λ word o e on. inr (or_left _ _ word))
      (Asked-more opt a argv _ (
        choose opt argv (text_eq a (codes "--dry-run")) _ _ dry (
          choose opt argv (text_eq a (codes "--dir")) _ _ (go_on (record opt { dir = v })) (
            choose opt argv (text_eq a (codes "--files")) _ _ (go_on (record opt { files = v })) (
              choose opt argv (text_eq a (codes "--limit")) _ _
                (Asked-bind opt argv (int_arg to_count v) _
                  (λ n. go_on (record opt { limit = some n })))
                (choose opt argv (text_eq a (codes "--sample")) _ _
                  (Asked-bind opt argv (int_arg to_count v) _
                    (λ n. go_on (record opt { sample = n })))
                  (Asked-err opt argv (unknown_argument a))))))))

with_dir-ok : (opt o : Options) → with_dir opt ≡ ok o → (opt ≡ o) × (falsy o.dir ≡ false)
with_dir-ok opt o h = elim (Bool-cases (falsy opt.dir)) [
  | inl missing_ ↦ cc (rw missing_ at h)
  | inr given ↦
      let e : ok opt ≡ ok o = rw given at h in
      let same : opt ≡ o = cc in (same, sym (ap (λ (x : Options). falsy x.dir) same) ∙ given)
]

bind_with_dir :
    (argv : List Text) (r : Result Options) (o : Options)
    → Asked defaults argv r
    → r >>= with_dir ≡ ok o
    → (falsy o.dir ≡ false) × Asked defaults argv (ok o)
bind_with_dir argv (err e) o asked h = cc
bind_with_dir argv (ok opt) o asked h =
    let (same, dir) = with_dir-ok opt o h in
    (dir, subst (λ x. Asked defaults argv (ok x)) same asked)

-- Accepted arguments that ask for writes name a directory, and `--apply` is one of them.
pub parse_args-apply :
    (to_count : Option Text → Option ℕ) (argv : List Text) (o : Options)
    → parse_args to_count argv ≡ ok o
    → o.apply ≡ true
    → (falsy o.dir ≡ false) × (mentions (codes "--apply") argv ≡ true)
unfolding parse_args
parse_args-apply to_count argv o h on =
    let (dir, asked) =
      bind_with_dir argv (parse_loop to_count (length argv) argv defaults) o
        (parse_loop-Asked to_count (length argv) argv defaults) h in
    (dir, elim (asked o refl on) [ inl before ↦ cc | inr word ↦ word ])

if_same {ℓ} :
    {A : Type ℓ} (b : Bool) {x x' y y' : A}
    → x ≡ x'
    → y ≡ y'
    → (if b then x else y) ≡ (if b then x' else y')
if_same true hx hy = hx
if_same false hx hy = hy

bind_same : (r : Result ℕ) (f g : ℕ → Result Options) → ((n : ℕ) → f n ≡ g n) → r >>= f ≡ r >>= g
bind_same (ok n) f g h = h n
bind_same (err e) f g h = refl

length-after_arg : (argv : List Text) (f : ℕ) → length argv ≤ f → length (after_arg argv) ≤ f
length-after_arg [] f h = h
length-after_arg (a ∷ argv) f h = omega arith

-- The fuel that `parse_args` gives is enough: more of it changes nothing.
parse_loop-fuel :
    (to_count : Option Text → Option ℕ) (f g : ℕ) (argv : List Text) (opt : Options)
    → length argv ≤ f
    → length argv ≤ g
    → parse_loop to_count f argv opt ≡ parse_loop to_count g argv opt
unfolding parse_loop
parse_loop-fuel to_count f g [] opt hf hg = refl
parse_loop-fuel to_count zero g (a ∷ argv) opt hf hg = absurd (omega arith)
parse_loop-fuel to_count (suc f) zero (a ∷ argv) opt hf hg = absurd (omega arith)
parse_loop-fuel to_count (suc f) (suc g) (a ∷ argv) opt hf hg =
    let rest = after_arg argv in
    let same = λ (o : Options). parse_loop-fuel to_count f g argv o (omega arith) (omega arith) in
    let later = λ (o : Options).
      parse_loop-fuel to_count f g rest o (length-after_arg argv f (omega arith))
        (length-after_arg argv g (omega arith)) in
    let counted = int_arg to_count (next_arg argv) in
    if_same (text_eq a (codes "--apply")) (same _) (
      if_same (text_eq a (codes "--dry-run")) (same _) (
        if_same (text_eq a (codes "--dir")) (later _) (
          if_same (text_eq a (codes "--files")) (later _) (
            if_same (text_eq a (codes "--limit")) (bind_same counted _ _ (λ n. later _)) (
              if_same (text_eq a (codes "--sample")) (bind_same counted _ _ (λ n. later _))
                refl)))))
