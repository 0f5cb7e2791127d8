-- ===== src/Regex/Matcher.antt =====
-- The matcher. A continuation says whether what follows matches too, so an alternative or a shorter
-- repetition is tried where the rest fails.
use nginx_web_ui.Prelude.{
  ℕ, zero, suc, ◌-◌, Bool, true, false, not, List, [], ◌∷◌, Option, none, some, Text, ltb, length,
  take, is_word, if◌then◌else◌,
}
use nginx_web_ui.Regex.Syntax.{
  Regex, empty, cls, seq, alt, star, group, bol, eol, boundary, not_behind,
}

-- Where the match stands: the character before it, the text after it, and the groups so far, the
-- latest first.
pub record Cursor : Type 0 where
  pub prev : Option ℕ
  pub rest : Text
  pub groups : List (ℕ × Text)

abbrev pub Next : Type 0
Next = Cursor → Option Cursor

-- The text between a cursor and a later one.
unfoldable pub between : Cursor → Cursor → Text
between s e = take (length s.rest - length e.rest) s.rest

unfoldable pub step_cls : (ℕ → Bool) → Option ℕ → List (ℕ × Text) → Text → Next → Option Cursor
step_cls p prev groups [] k = none
step_cls p prev groups (c ∷ rest) k =
    if p c then k (record { prev = some c; rest = rest; groups = groups }) else none

-- A repetition that consumed nothing is refused, so a round of fuel for each character is enough.
unfoldable pub star_loop : ℕ → (Cursor → Next → Option Cursor) → Cursor → Next → Option Cursor
star_loop zero step s k = k s
star_loop (suc f) step s k =
    elim (step s (λ e. elim (ltb (length e.rest) (length s.rest)) [
      | true ↦ star_loop f step e k
      | false ↦ none
    ])) [ some x ↦ some x | none ↦ k s ]

abbrev pub word_at : Option ℕ → Bool
word_at none = false
word_at (some c) = is_word c

abbrev pub head_of : Text → Option ℕ
head_of [] = none
head_of (c ∷ s) = some c

abbrev pub at_start : Option ℕ → Bool
at_start none = true
at_start (some c) = false

abbrev pub at_end : Text → Bool
at_end [] = true
at_end (c ∷ s) = false

abbrev pub differ : Bool → Bool → Bool
differ true b = not b
differ false b = b

abbrev pub holds_of : (ℕ → Bool) → Option ℕ → Bool
holds_of p none = false
holds_of p (some c) = p c

unfoldable pub run : Regex → Cursor → Next → Option Cursor
unfolding step_cls star_loop between
run empty s k = k s
run (cls p) s k = step_cls p s.prev s.groups s.rest k
run (seq a b) s k = run a s (λ m. run b m k)
run (alt a b) s k = elim (run a s k) [ some x ↦ some x | none ↦ run b s k ]
run (star a) s k = star_loop (suc (length s.rest)) (run a) s k
run (group n a) s k = run a s (λ e. k (record e { groups = (n, between s e) ∷ e.groups }))
run bol s k = if at_start s.prev then k s else none
run eol s k = if at_end s.rest then k s else none
run boundary s k = if differ (word_at s.prev) (word_at (head_of s.rest)) then k s else none
run (not_behind p) s k = if holds_of p s.prev then none else k s
