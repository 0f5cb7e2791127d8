-- ===== src/Regex/Complete.antt =====
-- A greedy repetition of a class takes all that the class allows, where the rest matches behind it.
use nginx_web_ui.Prelude.{
  ℕ, zero, suc, ◌<◌, ◌≡◌, refl, ap, Bool, true, false, List, [], ◌∷◌, ◌++◌, Option, some, arith,
  Text, All, length, length-append, ltb,
}
use nginx_web_ui.Regex.Syntax.{Regex, cls, seq, star, group}
use nginx_web_ui.Regex.Search.{start_at, found, found_of, match_at}
use nginx_web_ui.Regex.Matcher.{Cursor, Next, between, step_cls, star_loop, run}

-- The cursor behind some characters.
abbrev pub after : Option ℕ → Text → Option ℕ
after prev [] = prev
after prev (c ∷ s) = after (some c) s

abbrev pub Stops : (ℕ → Bool) → Text → Type 0
Stops p [] = Unit
Stops p (c ∷ s) = p c ≡ false

abbrev pub at_cursor : Option ℕ → Text → List (ℕ × Text) → Cursor
at_cursor prev s groups = record { prev = prev; rest = s; groups = groups }

module _ (p : ℕ → Bool) where
  pub star_loop-stop :
      (f : ℕ) (prev : Option ℕ) (groups : List (ℕ × Text)) (s : Text) (k : Next)
      → Stops p s
      → star_loop f (run (cls p)) (at_cursor prev s groups) k ≡ k (at_cursor prev s groups)
  unfolding star_loop run
  star_loop-stop zero prev groups s k h = refl
  star_loop-stop (suc f) prev groups [] k h = refl
  star_loop-stop (suc f) prev groups (c ∷ s) k h = rw (h, star_loop)

  star_loop-round :
      (f : ℕ) (prev : Option ℕ) (groups : List (ℕ × Text)) (c : ℕ) (t : Text) (k : Next)
      (x : Cursor)
      → p c ≡ true
      → star_loop f (run (cls p)) (at_cursor (some c) t groups) k ≡ some x
      → star_loop (suc f) (run (cls p)) (at_cursor prev (c ∷ t) groups) k ≡ some x
  unfolding star_loop run
  star_loop-round f prev groups c t k x pc ih =
      let shorter : ltb (length t) (suc (length t)) ≡ true = ground arith in
      rw (star_loop, pc, shorter, ih)

  pub star_loop-greedy :
      (f : ℕ) (prev : Option ℕ) (groups : List (ℕ × Text)) (ds s : Text) (k : Next) (x : Cursor)
      → length ds < f
      → All (λ c. p c ≡ true) ds
      → Stops p s
      → k (at_cursor (after prev ds) s groups) ≡ some x
      → star_loop f (run (cls p)) (at_cursor prev (ds ++ s) groups) k ≡ some x
  star_loop-greedy f prev groups [] s k x h a stop ok =
      rw (star_loop-stop f prev groups s k stop) ok
  star_loop-greedy zero prev groups (d ∷ ds) s k x h a stop ok = absurd (omega arith)
  star_loop-greedy (suc f) prev groups (d ∷ ds) s k x h a stop ok =
      let ih = star_loop-greedy f (some d) groups ds s k x (omega arith) a.1 stop ok in
      star_loop-round f prev groups d (ds ++ s) k x a.0 ih

-- A match is built part by part: each step leaves what the rest has to do.
module _ (x : Cursor) where
  pub run_seq :
      (a b : Regex) (s : Cursor) (k : Next)
      → run a s (λ m. run b m k) ≡ some x
      → run (seq a b) s k ≡ some x
  unfolding run
  run_seq a b s k h = h

  pub run_cls :
      (p : ℕ → Bool) (prev : Option ℕ) (groups : List (ℕ × Text)) (c : ℕ) (t : Text) (k : Next)
      → p c ≡ true
      → k (at_cursor (some c) t groups) ≡ some x
      → run (cls p) (at_cursor prev (c ∷ t) groups) k ≡ some x
  unfolding run
  run_cls p prev groups c t k pc h = rw (pc, step_cls) h

  pub run_group :
      (n : ℕ) (a : Regex) (s : Cursor) (k : Next)
      → run a s (λ e. k (record e { groups = (n, between s e) ∷ e.groups })) ≡ some x
      → run (group n a) s k ≡ some x
  unfolding run
  run_group n a s k h = h

  pub run_star :
      (p : ℕ → Bool) (prev : Option ℕ) (groups : List (ℕ × Text)) (ds s : Text) (k : Next)
      → All (λ c. p c ≡ true) ds
      → Stops p s
      → k (at_cursor (after prev ds) s groups) ≡ some x
      → run (star (cls p)) (at_cursor prev (ds ++ s) groups) k ≡ some x
  run_star p prev groups ds s k a stop h =
      let fuel : length ds < suc (length (ds ++ s)) = omega (arith, length-append ds s) in
      unfold run in star_loop-greedy p _ prev groups ds s k x fuel a stop h

pub match_at-run :
    (r : Regex) (prev : Option ℕ) (s : Text) (e : Cursor)
    → run r (start_at prev s) some ≡ some e
    → match_at r prev s ≡ some (found (start_at prev s) e)
unfolding match_at
match_at-run r prev s e h = ap (found_of (start_at prev s)) h
