-- ===== src/Prelude/Strings.antt =====
-- JavaScript strings as lists of UTF-16 code units, and the methods of `String` that the scripts use.
use Prim.Native.Char.{code}
use Prim.Native.String.{String}
use Prim.Native.Nat.{ℕ}
use mathlib.Core.Bool.{Bool, true, false, ◌&&◌, ◌||◌}
use mathlib.Core.List.{List, [], ◌∷◌, ◌++◌}
use mathlib.Core.Path.{◌≡◌, refl, ap, sym, ◌∙◌}
use mathlib.Core.Logic.{inl, inr}
use native.Mathlib.Omega.{arith}
use nginx_web_ui.Prelude.Tests.{leb, ◌==◌, ==_iff, Bool-cases, if◌then◌else◌}

abbrev pub Text : Type 0
Text = List ℕ

-- The code units of a literal (all literals of the sources lie in the basic plane).
abbrev pub codes : String → Text
codes String.[] = []
codes (String.◌∷◌ c s) = code c ∷ codes s

abbrev pub text_eq : Text → Text → Bool
text_eq [] [] = true
text_eq [] (b ∷ t) = false
text_eq (a ∷ s) [] = false
text_eq (a ∷ s) (b ∷ t) = a == b && text_eq s t

pub text_eq_refl : (s : Text) → text_eq s s ≡ true
text_eq_refl [] = refl
text_eq_refl (c ∷ s) = ground (arith, text_eq_refl s)

abbrev pub starts_with : Text → Text → Bool
starts_with [] t = true
starts_with (a ∷ s) [] = false
starts_with (a ∷ s) (b ∷ t) = a == b && starts_with s t

-- `t.includes(s)`
abbrev pub includes : Text → Text → Bool
includes s [] = starts_with s []
includes s (b ∷ t) = starts_with s (b ∷ t) || includes s t

abbrev between : ℕ → ℕ → ℕ → Bool
between lo hi c = leb lo c && leb c hi

-- WhiteSpace and LineTerminator of the language: what `\s` matches and `trim` removes.
unfoldable pub is_space : ℕ → Bool
is_space c =
    between 9 13 c
    || c == 32
    || c == 0xa0
    || c == 0x1680
    || between 0x2000 0x200a c
    || c == 0x2028
    || c == 0x2029
    || c == 0x202f
    || c == 0x205f
    || c == 0x3000
    || c == 0xfeff

abbrev pub is_digit : ℕ → Bool
is_digit = between b'0' b'9'

abbrev pub is_lower : ℕ → Bool
is_lower = between b'a' b'z'

abbrev pub is_upper : ℕ → Bool
is_upper = between b'A' b'Z'

abbrev pub is_alpha : ℕ → Bool
is_alpha c = is_lower c || is_upper c

-- `\w`
abbrev pub is_word : ℕ → Bool
is_word c = is_alpha c || is_digit c || c == b'_'

-- The class of a set of characters, `[…]`.
abbrev pub one_of : Text → ℕ → Bool
one_of [] c = false
one_of (x ∷ xs) c = c == x || one_of xs c

unfoldable pub trim_start : Text → Text
trim_start [] = []
trim_start (c ∷ s) = if is_space c then trim_start s else c ∷ s

-- All of the text but the white space at its end.
unfoldable pub trim_end : Text → Text
trim_end [] = []
trim_end (c ∷ s) = elim (trim_end s) [
  | [] ↦ if is_space c then [] else c ∷ []
  | (d ∷ t) ↦ c ∷ d ∷ t
]

unfoldable pub trim : Text → Text
unfolding trim_start trim_end is_space
trim s = trim_start (trim_end s)

-- `!s.trim()`
unfoldable pub is_blank : Text → Bool
unfolding is_space
is_blank [] = true
is_blank (c ∷ s) = is_space c && is_blank s

-- `s.split('\n')`: the last line is what no line feed ends, so there is at least one.
unfoldable pub split_lines : Text → List Text
split_lines [] = [] ∷ []
split_lines (c ∷ s) = elim (split_lines s) [
  | [] ↦ []
  | (l ∷ ls) ↦ if c == 10 then [] ∷ l ∷ ls else (c ∷ l) ∷ ls
]

-- `text.split(x)` for a character.
unfoldable pub split_at : ℕ → Text → List Text
split_at x [] = [] ∷ []
split_at x (c ∷ s) = elim (split_at x s) [
  | [] ↦ []
  | (l ∷ ls) ↦ if c == x then [] ∷ l ∷ ls else (c ∷ l) ∷ ls
]

-- `text.split(/[…]+/)` for a class of characters.
unfoldable pub split_runs : (ℕ → Bool) → Text → List Text
split_runs sep [] = [] ∷ []
split_runs sep (c ∷ []) = if sep c then [] ∷ [] ∷ [] else (c ∷ []) ∷ []
split_runs sep (c ∷ d ∷ s) =
    let rest = split_runs sep (d ∷ s) in
    if sep c
    then (if sep d then rest else [] ∷ rest)
    else elim rest [ [] ↦ [] | (l ∷ ls) ↦ (c ∷ l) ∷ ls ]

-- `lines.join('\n')`
unfoldable pub join_lines : List Text → Text
join_lines [] = []
join_lines (l ∷ []) = l
join_lines (l ∷ ls) = l ++ 10 ∷ join_lines ls

-- The line feed cuts, or the character joins the first line.
join-cons :
    (c : ℕ) (l : Text) (ls : List Text)
    → join_lines (if c == 10 then [] ∷ l ∷ ls else (c ∷ l) ∷ ls) ≡ c ∷ join_lines (l ∷ ls)
unfolding join_lines
join-cons c l [] = elim (Bool-cases (c == 10)) [
  | inl e ↦ rw e (ap (λ x. x ∷ l) (sym ((==_iff c 10).0 e)))
  | inr e ↦ rw e refl
]
join-cons c l (k ∷ ks) = elim (Bool-cases (c == 10)) [
  | inl e ↦ rw e (ap (λ x. x ∷ join_lines (l ∷ k ∷ ks)) (sym ((==_iff c 10).0 e)))
  | inr e ↦ rw e refl
]

split_lines-some : (s : Text) → (l : Text) × (ls : List Text) × (split_lines s ≡ l ∷ ls)
unfolding split_lines
split_lines-some [] = ([], [], refl)
split_lines-some (c ∷ s) =
    let (l, ls, e) = split_lines-some s in
    elim (Bool-cases (c == 10)) [
      | inl here ↦ ([], l ∷ ls, rw (e, here) refl)
      | inr there ↦ (c ∷ l, ls, rw (e, there) refl)
    ]

-- Joining undoes splitting.
pub join-split_lines : (s : Text) → join_lines (split_lines s) ≡ s
unfolding split_lines join_lines
join-split_lines [] = refl
join-split_lines (c ∷ s) =
    let (l, ls, e) = split_lines-some s in
    rw e (join-cons c l ls ∙ ap (λ x. c ∷ x) (ap join_lines (sym e) ∙ join-split_lines s))

-- Opens the functions on text, for a test.
unfoldable pub text_functions : Unit {0}
unfolding is_space trim is_blank split_lines split_at split_runs join_lines
text_functions = tt
