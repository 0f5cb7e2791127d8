-- ===== src/Regex/Search.antt =====
-- `exec`, `test`, `match` with the flag `g`, and `replace`.
use nginx_web_ui.Prelude.{
  ℕ, zero, suc, ◌+◌, Bool, true, false, List, [], ◌∷◌, ◌++◌, Option, none, some, Text, ltb, length,
  if◌then◌else◌, ◌==◌, is_some,
}
use nginx_web_ui.Regex.Syntax.{Regex}
use nginx_web_ui.Regex.Matcher.{Cursor, between, run}

-- A match: its text, its groups and the cursor behind it.
pub record Found : Type 0 where
  pub text : Text
  pub groups : List (ℕ × Text)
  pub prev : Option ℕ
  pub rest : Text

abbrev pub start_at : Option ℕ → Text → Cursor
start_at prev s = record { prev = prev; rest = s; groups = [] }

abbrev pub found : Cursor → Cursor → Found
found s e = record { text = between s e; groups = e.groups; prev = e.prev; rest = e.rest }

abbrev pub found_of : Cursor → Option Cursor → Option Found
found_of s none = none
found_of s (some e) = some (found s e)

-- A match that begins here.
unfoldable pub match_at : Regex → Option ℕ → Text → Option Found
unfolding run between
match_at r prev s = found_of (start_at prev s) (run r (start_at prev s) some)

-- The first match at or behind a position.
unfoldable pub exec_from : Regex → Option ℕ → Text → Option Found
unfolding match_at
exec_from r prev [] = match_at r prev []
exec_from r prev (c ∷ s) = elim (match_at r prev (c ∷ s)) [
  | some m ↦ some m
  | none ↦ exec_from r (some c) s
]

unfoldable pub exec : Regex → Text → Option Found
unfolding exec_from
exec r s = exec_from r none s

unfoldable pub test : Regex → Text → Bool
unfolding exec
test r s = is_some (exec r s)

-- The latest value of a group; the empty text for one that took no part.
abbrev lookup_group : ℕ → List (ℕ × Text) → Text
lookup_group n [] = []
lookup_group n ((k, t) ∷ gs) = if k == n then t else lookup_group n gs

unfoldable pub capture : ℕ → Found → Text
capture n m = lookup_group n m.groups

-- A text under the flag `g`: the characters that no match covers, and the matches, in order.
pub data Piece : Type 0 where
  plain : ℕ → Piece
  hit : Found → Piece

unfoldable pub pieces_fuel : ℕ → Regex → Option ℕ → Text → List Piece
unfolding match_at
pieces_fuel zero r prev s = []
pieces_fuel (suc f) r prev [] = elim (match_at r prev []) [ none ↦ [] | some m ↦ hit m ∷ [] ]
pieces_fuel (suc f) r prev (c ∷ s) = elim (match_at r prev (c ∷ s)) [
  | none ↦ plain c ∷ pieces_fuel f r (some c) s
  | some m ↦ elim (ltb (length m.rest) (suc (length s))) [
    | true ↦ hit m ∷ pieces_fuel f r m.prev m.rest
    | false ↦ hit m ∷ plain c ∷ pieces_fuel f r (some c) s
  ]
]

-- Each piece takes a character, but for an empty match at the end.
unfoldable pub pieces : Regex → Text → List Piece
unfolding pieces_fuel
pieces r s = pieces_fuel (length s + 1) r none s

abbrev pub original : List Piece → Text
original [] = []
original (plain c ∷ ps) = c ∷ original ps
original (hit m ∷ ps) = m.text ++ original ps

abbrev pub render : (Found → Text) → List Piece → Text
render f [] = []
render f (plain c ∷ ps) = c ∷ render f ps
render f (hit m ∷ ps) = f m ++ render f ps

-- `s.replace(r, f)` with the flag `g`.
unfoldable pub replace_all : Regex → (Found → Text) → Text → Text
unfolding pieces
replace_all r f s = render f (pieces r s)

abbrev pub hits : List Piece → List Text
hits [] = []
hits (plain c ∷ ps) = hits ps
hits (hit m ∷ ps) = m.text ∷ hits ps

-- `s.match(r) || []` with the flag `g`.
unfoldable pub match_all : Regex → Text → List Text
unfolding pieces
match_all r s = hits (pieces r s)

-- `s.replace(r, t)` without the flag `g`.
unfoldable pub replace_from : Regex → (Found → Text) → Option ℕ → Text → Text
unfolding match_at
replace_from r f prev [] = elim (match_at r prev []) [ none ↦ [] | some m ↦ f m ]
replace_from r f prev (c ∷ s) = elim (match_at r prev (c ∷ s)) [
  | some m ↦ f m ++ m.rest
  | none ↦ c ∷ replace_from r f (some c) s
]

unfoldable pub replace_first : Regex → (Found → Text) → Text → Text
unfolding replace_from
replace_first r f s = replace_from r f none s

-- Opens the engine, for a test.
unfoldable pub engine : Unit {0}
unfolding test exec capture replace_all replace_first match_all
engine = tt
