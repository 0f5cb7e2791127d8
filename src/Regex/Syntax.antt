-- ===== src/Regex/Syntax.antt =====
-- The syntax of regular expressions, and the forms that abbreviate others.
use nginx_web_ui.Prelude.{
  ℕ, zero, suc, Bool, false, not, ◌||◌, List, [], ◌∷◌, Text, ◌==◌, is_upper, is_lower,
  if◌then◌else◌, ◌+◌,
}

pub data Regex : Type 0 where
  empty : Regex
  cls : (ℕ → Bool) → Regex
  seq : Regex → Regex → Regex
  alt : Regex → Regex → Regex
  -- `r*`, greedy
  star : Regex → Regex
  -- `(r)` with its number
  group : ℕ → Regex → Regex
  -- `^` and `$`
  bol : Regex
  eol : Regex
  -- `\b`
  boundary : Regex
  -- `(?<!c)` for a class of one character
  not_behind : (ℕ → Bool) → Regex

abbrev pub chr : ℕ → Regex
chr x = cls (λ c. c == x)

-- `[^…]`
abbrev pub not_in : (ℕ → Bool) → Regex
not_in p = cls (λ c. not (p c))

-- A text, character by character.
abbrev pub lit : Text → Regex
lit [] = empty
lit (x ∷ []) = chr x
lit (x ∷ xs) = seq (chr x) (lit xs)

abbrev pub plus : Regex → Regex
plus r = seq r (star r)

abbrev pub opt : Regex → Regex
opt r = alt r empty

abbrev pub cat : List Regex → Regex
cat [] = empty
cat (r ∷ []) = r
cat (r ∷ rs) = seq r (cat rs)

abbrev pub alts : List Regex → Regex
alts [] = empty
alts (r ∷ []) = r
alts (r ∷ rs) = alt r (alts rs)

-- A letter of a literal under the flag `i`.
abbrev pub ichr : ℕ → Regex
ichr x =
    cls (λ c.
      c == x || (if is_lower x then c + 32 == x else if is_upper x then c == x + 32 else false))

abbrev pub ilit : Text → Regex
ilit [] = empty
ilit (x ∷ []) = ichr x
ilit (x ∷ xs) = seq (ichr x) (ilit xs)

-- `.`
abbrev pub any_char : Regex
any_char = cls (λ c. not (c == 10 || c == 13 || c == 0x2028 || c == 0x2029))

-- `r{n}` and `r{0,n}`
abbrev pub repeat : ℕ → Regex → Regex
repeat zero r = empty
repeat (suc n) r = seq r (repeat n r)

abbrev pub at_most : ℕ → Regex → Regex
at_most zero r = empty
at_most (suc n) r = opt (seq r (at_most n r))
