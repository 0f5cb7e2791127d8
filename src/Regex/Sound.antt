-- ===== src/Regex/Sound.antt =====
-- What the matcher accepts: a relation between cursors for each expression, that every match of
-- `run` is in it, and that a match, its place and the rest spell the text.
use nginx_web_ui.Prelude.{
  ℕ, zero, suc, ◌-◌, ◌≡◌, refl, sym, ap, ◌∙◌, ◌⊎◌, inl, inr, Bool, true, false, [], ◌∷◌, ◌++◌,
  Option, none, some, arith, Text, length, length-append, take-length-append, append_assoc,
  if◌then◌else◌, ltb, Bool-cases,
}
use nginx_web_ui.Regex.Syntax.{
  Regex, empty, cls, seq, alt, star, group, bol, eol, boundary, not_behind,
}
use nginx_web_ui.Regex.Matcher.{
  Cursor, Next, between, step_cls, star_loop, word_at, head_of, at_start, at_end, differ, holds_of,
  run,
}

pub data Repeats (R : Cursor → Cursor → Type 0) : Cursor → Cursor → Type 0 where
  done : {s : Cursor} → Repeats R s s
  more : {s m e : Cursor} → R s m → Repeats R m e → Repeats R s e

abbrev pub Reads : Regex → Cursor → Cursor → Type 0
Reads empty s e = s ≡ e
Reads (cls p) s e =
    (c : ℕ) × (s.rest ≡ c ∷ e.rest) × (p c ≡ true) × (e.prev ≡ some c) × (e.groups ≡ s.groups)
Reads (seq a b) s e = (m : Cursor) × Reads a s m × Reads b m e
Reads (alt a b) s e = Reads a s e ⊎ Reads b s e
Reads (star a) s e = Repeats (Reads a) s e
Reads (group n a) s e =
    (m : Cursor) × Reads a s m × (e ≡ record m { groups = (n, between s m) ∷ m.groups })
Reads bol s e = (s ≡ e) × (at_start s.prev ≡ true)
Reads eol s e = (s ≡ e) × (at_end s.rest ≡ true)
Reads boundary s e = (s ≡ e) × (differ (word_at s.prev) (word_at (head_of s.rest)) ≡ true)
Reads (not_behind p) s e = (s ≡ e) × (holds_of p s.prev ≡ false)

-- A result of `run` comes from a cursor that the expression reads up to.
abbrev pub Accepts : (Cursor → Cursor → Type 0) → Cursor → Next → Cursor → Type 0
Accepts R s k x = (e : Cursor) × R s e × (k e ≡ some x)

if-some :
    (b : Bool) (o : Option Cursor) {x : Cursor}
    → (if b then o else none) ≡ some x
    → (b ≡ true) × (o ≡ some x)
if-some true o h = (refl, h)
if-some false o h = cc

-- The two results of a choice that tries `o` first.
first-some :
    (o p : Option Cursor) {x : Cursor}
    → (elim o [ some y ↦ some y | none ↦ p ]) ≡ some x
    → (o ≡ some x) ⊎ (p ≡ some x)
first-some (some y) p h = inl h
first-some none p h = inr h

step_cls-Reads :
    (p : ℕ → Bool) (s : Cursor) (t : Text) (k : Next) {x : Cursor}
    → s.rest ≡ t
    → step_cls p s.prev s.groups t k ≡ some x
    → Accepts (Reads (cls p)) s k x
unfolding step_cls
step_cls-Reads p s [] k e h = cc
step_cls-Reads p s (c ∷ t) k e h =
    let (pc, kx) = if-some (p c) (k (record { prev = some c; rest = t; groups = s.groups })) h in
    (record { prev = some c; rest = t; groups = s.groups }, (c, e, pc, refl, refl), kx)

-- A loop over a sound step is sound.
module _ (R : Cursor → Cursor → Type 0) (step : Cursor → Next → Option Cursor)
    (sound : (s : Cursor) (k : Next) (x : Cursor) → step s k ≡ some x → Accepts R s k x) where
  star_loop-Repeats :
      (f : ℕ) (s : Cursor) (k : Next) (x : Cursor)
      → star_loop f step s k ≡ some x
      → Accepts (Repeats R) s k x
  unfolding star_loop
  star_loop-Repeats zero s k x h = (s, done, h)
  star_loop-Repeats (suc f) s k x h = elim (first-some _ (k s) h) [
    | inr stop ↦ (s, done, stop)
    | inl go ↦
        let (m, r, again) = sound s _ x go in
        elim (Bool-cases (ltb (length m.rest) (length s.rest))) [
          | inr stuck ↦ absurd (cc (rw stuck at again))
          | inl ok ↦
              let (e, rs, kx) = star_loop-Repeats f m k x (rw ok at again) in (e, more r rs, kx)
        ]
  ]

pub run_sound :
    (r : Regex) (s : Cursor) (k : Next) (x : Cursor) → run r s k ≡ some x → Accepts (Reads r) s k x
unfolding run
run_sound empty s k x h = (s, refl, h)
run_sound (cls p) s k x h = step_cls-Reads p s s.rest k refl h
run_sound (seq a b) s k x h =
    let (m, ra, hm) = run_sound a s (λ m. run b m k) x h in
    let (e, rb, kx) = run_sound b m k x hm in (e, (m, ra, rb), kx)
run_sound (alt a b) s k x h = elim (first-some _ _ h) [
  | inl l ↦ let (e, ra, kx) = run_sound a s k x l in (e, inl ra, kx)
  | inr r ↦ let (e, rb, kx) = run_sound b s k x r in (e, inr rb, kx)
]
run_sound (star a) s k x h =
    star_loop-Repeats (Reads a) (run a) (run_sound a) (suc (length s.rest)) s k x h
run_sound (group n a) s k x h =
    let (m, ra, kx) = run_sound a s _ x h in
    (record m { groups = (n, between s m) ∷ m.groups }, (m, ra, refl), kx)
run_sound bol s k x h = let (t, kx) = if-some _ (k s) h in (s, (refl, t), kx)
run_sound eol s k x h = let (t, kx) = if-some _ (k s) h in (s, (refl, t), kx)
run_sound boundary s k x h = let (t, kx) = if-some _ (k s) h in (s, (refl, t), kx)
run_sound (not_behind p) s k x h = elim (Bool-cases (holds_of p s.prev)) [
  | inl yes_ ↦ cc (rw yes_ at h)
  | inr no_ ↦ (s, (refl, no_), rw no_ at h)
]

abbrev Spells : (Cursor → Cursor → Type 0) → Type 0
Spells R = (s e : Cursor) → R s e → (t : Text) × (s.rest ≡ t ++ e.rest)

Repeats-append :
    (R : Cursor → Cursor → Type 0)
    → Spells R
    → {s e : Cursor} → Repeats R s e
    → (t : Text) × (s.rest ≡ t ++ e.rest)
Repeats-append R spells done = ([], refl)
Repeats-append R spells (more {s = s} {m = m} {e = e} r rs) =
    let (t, p) = spells s m r in
    let (u, q) = Repeats-append R spells rs in
    (t ++ u, p ∙ ap (λ v. t ++ v) q ∙ sym (append_assoc t u e.rest))

-- What is read and the rest spell the text.
pub Reads-append : (r : Regex) (s e : Cursor) → Reads r s e → (t : Text) × (s.rest ≡ t ++ e.rest)
Reads-append empty s e h = ([], ap (λ (c : Cursor). c.rest) h)
Reads-append (cls p) s e h = (h.0 ∷ [], h.1)
Reads-append (seq a b) s e (m, ra, rb) =
    let (t, p) = Reads-append a s m ra in
    let (u, q) = Reads-append b m e rb in
    (t ++ u, p ∙ ap (λ v. t ++ v) q ∙ sym (append_assoc t u e.rest))
Reads-append (alt a b) s e (inl h) = Reads-append a s e h
Reads-append (alt a b) s e (inr h) = Reads-append b s e h
Reads-append (star a) s e h = Repeats-append (Reads a) (Reads-append a) h
Reads-append (group n a) s e (m, ra, eq) =
    let (t, p) = Reads-append a s m ra in (t, p ∙ ap (λ (c : Cursor). t ++ c.rest) (sym eq))
Reads-append bol s e h = ([], ap (λ (c : Cursor). c.rest) h.0)
Reads-append eol s e h = ([], ap (λ (c : Cursor). c.rest) h.0)
Reads-append boundary s e h = ([], ap (λ (c : Cursor). c.rest) h.0)
Reads-append (not_behind p) s e h = ([], ap (λ (c : Cursor). c.rest) h.0)

pub between-append : (s e : Cursor) (t : Text) → s.rest ≡ t ++ e.rest → between s e ≡ t
unfolding between
between-append s e t h =
    let n : length s.rest - length e.rest ≡ length t =
      omega (arith, ap length h, length-append t e.rest) in
    rw (n, h) (take-length-append t e.rest)

pub Reads-between : (r : Regex) (s e : Cursor) → Reads r s e → s.rest ≡ between s e ++ e.rest
Reads-between r s e h = let (t, p) = Reads-append r s e h in rw (between-append s e t p) p
