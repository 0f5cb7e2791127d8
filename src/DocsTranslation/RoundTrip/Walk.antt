-- ===== src/DocsTranslation/RoundTrip/Walk.antt =====
-- What a masked text stands for: an automaton that copies characters and puts the slots in.
use nginx_web_ui.Prelude.{
  ℕ, zero, suc, ◌≤◌, ◌<◌, ◌≡◌, refl, ap, sym, ◌∙◌, true, false, List, [], ◌∷◌, ◌++◌, Option, none,
  some, arith, Text, All, All-append, subst, length, get_elem?, ◌==◌, is_digit, append_assoc,
  append-nil, decimal, if◌then◌else◌, Bool-cases, inl, inr,
}
use mathlib.Core.Option.{some-injective}
use nginx_web_ui.DocsTranslation.Patterns.{at_sign}

-- Outside a placeholder, or behind its `@` and some digits.
pub data Mode : Type 0 where
  outside : Mode
  within : Text → Mode

-- Where a walk ends, what it wrote, and the slots that it put in.
pub record Walked : Type 0 where
  pub mode : Mode
  pub text : Text
  pub refs : List ℕ

abbrev pub close : ℕ → Option Text → Option Walked
close i none = none
close i (some s) = some (record { mode = outside; text = s; refs = i ∷ [] })

abbrev pub closing : List Text → Text → Option Walked
closing slots [] = none
closing slots (d ∷ ds) = close (decimal 0 (d ∷ ds)) (get_elem? slots (decimal 0 (d ∷ ds)))

unfoldable pub step : List Text → Mode → ℕ → Option Walked
step slots outside c =
    if c == at_sign
    then some (record { mode = within []; text = []; refs = [] })
    else some (record { mode = outside; text = c ∷ []; refs = [] })
step slots (within ds) c =
    if c == at_sign
    then closing slots ds
    else if is_digit c
    then some (record { mode = within (ds ++ c ∷ []); text = []; refs = [] })
    else none

abbrev pub behind : Walked → Option Walked → Option Walked
behind w none = none
behind w (some v) =
    some (record { mode = v.mode; text = w.text ++ v.text; refs = w.refs ++ v.refs })

abbrev pub proceed : (Mode → Option Walked) → Option Walked → Option Walked
proceed k none = none
proceed k (some w) = behind w (k w.mode)

unfoldable pub walk : List Text → Mode → Text → Option Walked
walk slots m [] = some (record { mode = m; text = []; refs = [] })
walk slots m (c ∷ t) = proceed (λ n. walk slots n t) (step slots m c)

behind-behind :
    (w v : Walked) (o : Option Walked)
    → behind w (behind v o)
      ≡ behind (record { mode = v.mode; text = w.text ++ v.text; refs = w.refs ++ v.refs }) o
behind-behind w v none = refl
behind-behind w v (some u) =
    cc (append_assoc w.text v.text u.text, append_assoc w.refs v.refs u.refs)

proceed-proceed :
    (k l : Mode → Option Walked) (o : Option Walked)
    → proceed (λ n. proceed l (k n)) o ≡ proceed l (proceed k o)
proceed-proceed k l none = refl
proceed-proceed k l (some w) = go (k w.mode)
  where
    go : (o : Option Walked) → behind w (proceed l o) ≡ proceed l (behind w o)
    go none = refl
    go (some v) = behind-behind w v (l v.mode)

behind_start :
    (m : Mode) (o : Option Walked) → behind (record { mode = m; text = []; refs = [] }) o ≡ o
behind_start m none = refl
behind_start m (some v) = refl

pub walk-append :
    (slots : List Text) (m : Mode) (s t : Text)
    → walk slots m (s ++ t) ≡ proceed (λ n. walk slots n t) (walk slots m s)
unfolding walk
walk-append slots m [] t = sym (behind_start m (walk slots m t))
walk-append slots m (c ∷ s) t =
    ap (λ k. proceed k (step slots m c)) (λ i n. walk-append slots n s t i)
    ∙ proceed-proceed (λ n. walk slots n s) (λ n. walk slots n t) (step slots m c)

-- Without `@` a text outside is copied.
pub walk-plain :
    (slots : List Text) (t : Text)
    → All (λ c. (c == at_sign) ≡ false) t
    → walk slots outside t ≡ some (record { mode = outside; text = t; refs = [] })
unfolding walk step
walk-plain slots [] h = refl
walk-plain slots (c ∷ t) h = rw (h.0, walk-plain slots t h.1)

-- Slots that are added later change nothing.
get_elem?-more :
    (slots more : List Text) (i : ℕ) {s : Text}
    → get_elem? slots i ≡ some s
    → get_elem? (slots ++ more) i ≡ some s
get_elem?-more [] more i h = cc
get_elem?-more (x ∷ xs) more zero h = h
get_elem?-more (x ∷ xs) more (suc i) h = get_elem?-more xs more i h

close-some : (i : ℕ) (o : Option Text) {w : Walked} → close i o ≡ some w → (s : Text) × (o ≡ some s)
close-some i none h = cc
close-some i (some s) h = (s, refl)

closing-more :
    (slots more : List Text) (ds : Text) {w : Walked}
    → closing slots ds ≡ some w
    → closing (slots ++ more) ds ≡ some w
closing-more slots more [] h = h
closing-more slots more (d ∷ ds) h =
    let i = decimal 0 (d ∷ ds) in
    let (s, e) = close-some i (get_elem? slots i) h in
    ap (close i) (get_elem?-more slots more i e) ∙ sym (ap (close i) e) ∙ h

step-more :
    (slots more : List Text) (m : Mode) (c : ℕ) {w : Walked}
    → step slots m c ≡ some w
    → step (slots ++ more) m c ≡ some w
unfolding step
step-more slots more outside c h = h
step-more slots more (within ds) c h = elim (Bool-cases (c == at_sign)) [
  | inl e ↦ rw e (closing-more slots more ds (rw e at h))
  | inr e ↦ rw e (rw e at h)
]

behind-some :
    (u : Walked) (o : Option Walked) {w : Walked}
    → behind u o ≡ some w
    → (v : Walked) × (o ≡ some v)
      × (w ≡ record { mode = v.mode; text = u.text ++ v.text; refs = u.refs ++ v.refs })
behind-some u none h = cc
behind-some u (some v) h = (v, refl, cc)

pub proceed-some :
    (k : Mode → Option Walked) (o : Option Walked) {w : Walked}
    → proceed k o ≡ some w
    → (u v : Walked) × (o ≡ some u)
      × (k u.mode ≡ some v)
      × (w ≡ record { mode = v.mode; text = u.text ++ v.text; refs = u.refs ++ v.refs })
proceed-some k none h = cc
proceed-some k (some u) h = let (v, e, q) = behind-some u (k u.mode) h in (u, v, refl, e, q)

pub walk-more :
    (slots more : List Text) (m : Mode) (t : Text) {w : Walked}
    → walk slots m t ≡ some w
    → walk (slots ++ more) m t ≡ some w
unfolding walk
walk-more slots more m [] h = h
walk-more slots more m (c ∷ t) h =
    let (u, v, e, r, q) = proceed-some (λ n. walk slots n t) (step slots m c) h in
    rw (step-more slots more m c e) (rw (walk-more slots more u.mode t r) (ap some (sym q)))

pub proceed-of :
    (k : Mode → Option Walked) (o : Option Walked) (u v : Walked)
    → o ≡ some u
    → k u.mode ≡ some v
    → proceed k o
      ≡ some (record { mode = v.mode; text = u.text ++ v.text; refs = u.refs ++ v.refs })
proceed-of k o u v e r = ap (proceed k) e ∙ ap (behind u) r

pub walk-digit :
    (slots : List Text) (acc : Text) (d : ℕ) (t : Text)
    → is_digit d ≡ true
    → walk slots (within acc) (d ∷ t) ≡ walk slots (within (acc ++ d ∷ [])) t
unfolding walk step
walk-digit slots acc d t h =
    let e : (d == at_sign) ≡ false = ground (arith, h) in rw (e, h) (behind_start outside _)

-- The first character of a walk outside, where it is not `@`.
pub walk_plain_char :
    (slots : List Text) (c : ℕ) (t : Text) (w : Walked)
    → (c == at_sign) ≡ false
    → walk slots outside (c ∷ t) ≡ some w
    → (v : Walked) × (walk slots outside t ≡ some v)
      × (w ≡ record { mode = v.mode; text = c ∷ v.text; refs = v.refs })
unfolding walk step
walk_plain_char slots c t w e h =
    let (v, r, q) =
      behind-some (record { mode = outside; text = c ∷ []; refs = [] }) (walk slots outside t)
        (rw e at h) in
    (v, r, q)

-- The first character of a walk outside, where it is `@`.
pub walk_at :
    (slots : List Text) (c : ℕ) (t : Text) (w : Walked)
    → (c == at_sign) ≡ true
    → walk slots outside (c ∷ t) ≡ some w
    → walk slots (within []) t ≡ some w
unfolding walk step
walk_at slots c t w e h = sym (behind_start outside _) ∙ (rw e at h)

-- Digits behind an `@` are gathered.
walk-digits :
    (slots : List Text) (acc ds t : Text)
    → All (λ c. is_digit c ≡ true) ds
    → walk slots (within acc) (ds ++ t) ≡ walk slots (within (acc ++ ds)) t
unfolding walk step
walk-digits slots acc [] t h = rw append-nil
walk-digits slots acc (d ∷ ds) t h =
    walk-digit slots acc d (ds ++ t) h.0
    ∙ (walk-digits slots (acc ++ d ∷ []) ds t h.1
        ∙ ap (λ x. walk slots (within x) t) (append_assoc acc (d ∷ []) ds))

closing-of :
    (slots : List Text) (ds : Text) {s : Text}
    → 1 ≤ length ds
    → get_elem? slots (decimal 0 ds) ≡ some s
    → closing slots ds ≡ some (record { mode = outside; text = s; refs = decimal 0 ds ∷ [] })
closing-of slots [] l h = absurd (omega arith)
closing-of slots (d ∷ ds) l h = ap (close (decimal 0 (d ∷ ds))) h

-- A placeholder whose number reads as `n` stands for slot `n`.
pub walk-placeholder :
    (slots : List Text) (ds : Text) {s : Text}
    → 1 ≤ length ds
    → All (λ c. is_digit c ≡ true) ds
    → get_elem? slots (decimal 0 ds) ≡ some s
    → walk slots outside (at_sign ∷ ds ++ at_sign ∷ [])
      ≡ some (record { mode = outside; text = s; refs = decimal 0 ds ∷ [] })
unfolding walk step
walk-placeholder slots ds {s} l a h =
    behind_start outside _
    ∙ walk-digits slots [] ds (at_sign ∷ []) a
    ∙ ap (proceed (λ n. some (record { mode = n; text = []; refs = [] }))) (closing-of slots ds l h)
    ∙ ap (λ t. some (record { mode = outside; text = t; refs = decimal 0 ds ∷ [] })) (append-nil s)

get_elem?-lt : (xs : List Text) (i : ℕ) {s : Text} → get_elem? xs i ≡ some s → i < length xs
get_elem?-lt [] i h = cc
get_elem?-lt (x ∷ xs) zero h = omega arith
get_elem?-lt (x ∷ xs) (suc i) h = omega (arith, get_elem?-lt xs i h)

close-refs :
    (slots : List Text) (i : ℕ) (o : Option Text) {w : Walked}
    → get_elem? slots i ≡ o
    → close i o ≡ some w
    → All (λ i. i < length slots) w.refs
close-refs slots i none e h = cc
close-refs slots i (some s) e h =
    subst (λ (x : Walked). All (λ i. i < length slots) x.refs) (some-injective _ _ h)
      (get_elem?-lt slots i e, tt)

closing-refs :
    (slots : List Text) (ds : Text) {w : Walked}
    → closing slots ds ≡ some w
    → All (λ i. i < length slots) w.refs
closing-refs slots [] h = cc
closing-refs slots (d ∷ ds) h = close-refs slots (decimal 0 (d ∷ ds)) _ refl h

step-refs :
    (slots : List Text) (m : Mode) (c : ℕ) {w : Walked}
    → step slots m c ≡ some w
    → All (λ i. i < length slots) w.refs
unfolding step
step-refs slots outside c {w} h = elim (Bool-cases (c == at_sign)) [
  | inl e ↦
      subst (λ (x : Walked). All (λ i. i < length slots) x.refs) (some-injective _ _ (rw e at h)) tt
  | inr e ↦
      subst (λ (x : Walked). All (λ i. i < length slots) x.refs) (some-injective _ _ (rw e at h)) tt
]
step-refs slots (within ds) c {w} h = elim (Bool-cases (c == at_sign)) [
  | inl e ↦ closing-refs slots ds (rw e at h)
  | inr e ↦ elim (Bool-cases (is_digit c)) [
    | inl d ↦
        subst (λ (x : Walked). All (λ i. i < length slots) x.refs)
          (some-injective _ _ (rw (e, d) at h)) tt
    | inr d ↦ cc (rw (e, d) at h)
  ]
]

-- A walk refers to slots that are there.
pub walk-refs :
    (slots : List Text) (m : Mode) (t : Text) {w : Walked}
    → walk slots m t ≡ some w
    → All (λ i. i < length slots) w.refs
unfolding walk
walk-refs slots m [] h =
    subst (λ (x : Walked). All (λ i. i < length slots) x.refs) (some-injective _ _ h) tt
walk-refs slots m (c ∷ t) h =
    let (u, v, e, r, q) = proceed-some (λ n. walk slots n t) (step slots m c) h in
    subst (λ (x : Walked). All (λ i. i < length slots) x.refs) (sym q)
      (All-append _ u.refs v.refs (step-refs slots m c e) (walk-refs slots u.mode t r))

-- A text without `@` that begins with no digit is walked outside, and copied.
pub walk-outside :
    (slots : List Text) (mode : Mode) (c : ℕ) (t : Text) (w : Walked)
    → is_digit c ≡ false
    → All (λ c. (c == at_sign) ≡ false) (c ∷ t)
    → walk slots mode (c ∷ t) ≡ some w
    → (mode ≡ outside) × (w ≡ record { mode = outside; text = c ∷ t; refs = [] })
unfolding walk step
walk-outside slots outside c t w d a h =
    (refl, some-injective _ _ (sym h ∙ walk-plain slots (c ∷ t) a))
walk-outside slots (within ds) c t w d a h = cc (rw (a.0, d) at h)
