-- ===== src/FenceBlocks/Cli.antt =====
-- The command line of scripts/fence-code-blocks.js: `intArg`, `parseArgs`, `selectFiles`, `firstDiff` and
-- `sampleAt`.
use nginx_web_ui.Prelude.{
  ℕ, zero, suc, ◌+◌, Bool, true, false, ◌&&◌, List, [], ◌∷◌, ◌++◌, Option, none, some, Text, codes,
  text_eq, take, drop, length, ltb, leb, decimal, ◌==◌, if◌then◌else◌,
}
use nginx_web_ui.Regex.{exec, test, capture}
use nginx_web_ui.FenceBlocks.Patterns.{range_re, number_re, closing_re}

pub data CliError : Type 0 where
  not_a_count : Text → CliError
  unknown_argument : Text → CliError
  dir_required : CliError
  bad_range : CliError

pub data Result {ℓ} (A : Type ℓ) : Type ℓ where
  ok : A → Result A
  err : CliError → Result A

infixl 5 ◌>>=◌
abbrev pub ◌>>=◌ {ℓ κ} : {A : Type ℓ} {B : Type κ} → Result A → (A → Result B) → Result B
ok a >>= f = f a
err e >>= f = err e

-- `limit` is `Infinity` by default.
pub record Options : Type 0 where
  pub dir : Option Text
  pub apply : Bool
  pub files : Option Text
  pub limit : Option ℕ
  pub sample : ℕ

abbrev pub defaults : Options
defaults = record {
  dir = none;
  apply = false;
  files = some (codes "all");
  limit = none;
  sample = 0;
}

abbrev pub counted_or : Option Text → Option ℕ → Result ℕ
counted_or raw (some n) = ok n
counted_or none none = err (not_a_count (codes "undefined"))
counted_or (some t) none = err (not_a_count t)

abbrev pub next_arg : List Text → Option Text
next_arg [] = none
next_arg (a ∷ as_) = some a

abbrev pub after_arg : List Text → List Text
after_arg [] = []
after_arg (a ∷ as_) = as_

abbrev pub falsy : Option Text → Bool
falsy none = true
falsy (some []) = true
falsy (some (c ∷ s)) = false

abbrev pub with_dir : Options → Result Options
with_dir opt = if falsy opt.dir then err dir_required else ok opt

-- `Number(raw)` of the platform, as far as `intArg` looks at it: the value where it is an integer
-- and not negative. `argv[++i]` past the end is `undefined`.
module _ (to_count : Option Text → Option ℕ) where
  unfoldable pub int_arg : Option Text → Result ℕ
  int_arg raw = counted_or raw (to_count raw)

  -- The loop reads an option and, for some, the argument behind it.
  unfoldable pub parse_loop : ℕ → List Text → Options → Result Options
  unfolding int_arg
  parse_loop f [] opt = ok opt
  parse_loop zero (a ∷ argv) opt = ok opt
  parse_loop (suc f) (a ∷ argv) opt =
      let v = next_arg argv in
      let rest = after_arg argv in
      let on_apply = parse_loop f argv (record opt { apply = true }) in
      let on_dry = parse_loop f argv (record opt { apply = false }) in
      let on_dir = parse_loop f rest (record opt { dir = v }) in
      let on_files = parse_loop f rest (record opt { files = v }) in
      let on_limit = int_arg v >>= (λ n. parse_loop f rest (record opt { limit = some n })) in
      let on_sample = int_arg v >>= (λ n. parse_loop f rest (record opt { sample = n })) in
      if text_eq a (codes "--apply")
      then on_apply
      else if text_eq a (codes "--dry-run")
      then on_dry
      else if text_eq a (codes "--dir")
      then on_dir
      else if text_eq a (codes "--files")
      then on_files
      else if text_eq a (codes "--limit")
      then on_limit
      else if text_eq a (codes "--sample")
      then on_sample
      else err (unknown_argument a)

  -- `argv` behind the two words of `process.argv`; each round reads at least one argument.
  unfoldable pub parse_args : List Text → Result Options
  unfolding parse_loop
  parse_args argv = parse_loop (length argv) argv defaults >>= with_dir

-- `a < b` of strings, by code units.
unfoldable pub text_lt : Text → Text → Bool
text_lt s [] = false
text_lt [] (b ∷ t) = true
text_lt (a ∷ s) (b ∷ t) = if ltb a b then true else (a == b && text_lt s t)

unfoldable pub insert_name : Text → List Text → List Text
unfolding text_lt
insert_name n [] = n ∷ []
insert_name n (m ∷ ms) = if text_lt m n then m ∷ insert_name n ms else n ∷ m ∷ ms

-- `names.slice().sort()`
unfoldable pub sort_names : List Text → List Text
unfolding insert_name
sort_names [] = []
sort_names (n ∷ ns) = insert_name n (sort_names ns)

-- `d && +d[1] >= lo && +d[1] <= hi`
unfoldable pub in_range : ℕ → ℕ → Text → Bool
unfolding decimal
in_range lo hi n = elim (exec number_re n) [
  | none ↦ false
  | some d ↦ leb lo (decimal 0 (capture 1 d)) && leb (decimal 0 (capture 1 d)) hi
]

unfoldable pub keep_range : ℕ → ℕ → List Text → List Text
unfolding in_range
keep_range lo hi [] = []
keep_range lo hi (n ∷ ns) =
    if in_range lo hi n then n ∷ keep_range lo hi ns else keep_range lo hi ns

abbrev pub slice_limit : Option ℕ → List Text → List Text
slice_limit none ns = ns
slice_limit (some k) ns = take k ns

unfoldable pub select_files : List Text → Text → Option ℕ → Result (List Text)
unfolding sort_names keep_range
select_files names files limit =
    if text_eq files (codes "all")
    then ok (slice_limit limit (sort_names names))
    else elim (exec range_re files) [
      | none ↦ err bad_range
      | some m ↦ ok (
          slice_limit limit
            (keep_range (decimal 0 (capture 1 m)) (decimal 0 (capture 2 m)) (sort_names names)))
    ]

-- `none` stands for -1; `i` is the index of the lines compared.
unfoldable pub first_diff_from : ℕ → List Text → List Text → Option ℕ
first_diff_from i [] [] = none
first_diff_from i [] (b ∷ bs) = some i
first_diff_from i (a ∷ as_) [] = some i
first_diff_from i (a ∷ as_) (b ∷ bs) =
    if text_eq a b then first_diff_from (i + 1) as_ bs else some i

unfoldable pub first_diff : List Text → List Text → Option ℕ
unfolding first_diff_from
first_diff before after = first_diff_from 0 before after

-- `max` lines at most; the loop stops behind a closing marker that is not the first line.
unfoldable pub sample_loop : List Text → ℕ → List Text → List Text
sample_loop [] max out = out
sample_loop (l ∷ ls) max out =
    let more = sample_loop ls max (out ++ l ∷ []) in
    if ltb (length out) max
    then (if ltb 1 (length out + 1) && test closing_re l then out ++ l ∷ [] else more)
    else out

unfoldable pub sample_at : List Text → ℕ → ℕ → List Text
unfolding sample_loop
sample_at lines start max = sample_loop (drop start lines) max []
