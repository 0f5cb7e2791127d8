-- ===== src/Regex/Anchored.antt =====
-- An expression that begins with `^` matches at the start of the text only.
use nginx_web_ui.Prelude.{ℕ, ◌≡◌, refl, [], ◌∷◌, ◌++◌, none, some, Text, Option-cases, inl, inr}
use nginx_web_ui.Regex.Syntax.{Regex, seq, bol}
use nginx_web_ui.Regex.Search.{Found, match_at, exec_from, exec}
use nginx_web_ui.Regex.Pieces.{match_at-append}

match_at-inside : (r : Regex) (c : ℕ) (s : Text) → match_at (seq bol r) (some c) s ≡ none
unfolding match_at
match_at-inside r c s = refl

exec_from-inside : (r : Regex) (c : ℕ) (s : Text) → exec_from (seq bol r) (some c) s ≡ none
unfolding exec_from
exec_from-inside r c [] = match_at-inside r c []
exec_from-inside r c (d ∷ s) = exec_from-inside r d s

exec_from-start :
    (r : Regex) (s : Text) → exec_from (seq bol r) none s ≡ match_at (seq bol r) none s
unfolding exec_from
exec_from-start r [] = refl
exec_from-start r (c ∷ s) = elim (Option-cases (match_at (seq bol r) none (c ∷ s))) [
  | inl e ↦ rw e (exec_from-inside r c s)
  | inr (m, e) ↦ rw e refl
]

pub exec-start : (r : Regex) (s : Text) → exec (seq bol r) s ≡ match_at (seq bol r) none s
unfolding exec
exec-start r s = exec_from-start r s

-- The match is a start of the text.
pub exec-append :
    (r : Regex) (s : Text) (m : Found) → exec (seq bol r) s ≡ some m → s ≡ m.text ++ m.rest
exec-append r s m h = match_at-append (seq bol r) none s m (rw exec-start at h)
