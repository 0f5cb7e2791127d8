-- ===== src/DocsTranslation/RoundTrip/Masking.antt =====
-- Masking keeps what a text stands for, and refers to each slot that it adds.
use nginx_web_ui.Prelude.{
  ℕ, ◌≤◌, ◌<◌, ◌≡◌, refl, ap, sym, ◌∙◌, inl, inr, Bool, true, ◌||◌, List, [], ◌∷◌, ◌++◌, some,
  arith, Text, length, length-append, get_elem?, ◌==◌, append_assoc, append-nil, decimal, print,
  decimal-print, print-digits, length-print, any, Bool-cases, ltb, ltb→lt,
}
use nginx_web_ui.Regex.{Piece, plain, hit, Found, original}
use nginx_web_ui.Regex.Pieces.{AllHits}
use nginx_web_ui.DocsTranslation.Patterns.{at_sign}
use nginx_web_ui.DocsTranslation.Protect.{placeholder, replace_slots}
use nginx_web_ui.DocsTranslation.RoundTrip.Walk.{
  Mode, outside, Walked, walk, walk-append, walk-more, proceed-some, proceed-of, walk-placeholder,
}

abbrev pub refers : ℕ → List ℕ → Bool
refers k refs = any (λ j. j == k) refs

-- The same mode and text, the old references, and one for each slot from `lo` up to `hi`.
pub record Extends (lo hi : ℕ) (w v : Walked) : Type 0 where
  pub mode : v.mode ≡ w.mode
  pub text : v.text ≡ w.text
  pub old : (k : ℕ) → refers k w.refs ≡ true → refers k v.refs ≡ true
  pub new : (k : ℕ) → lo ≤ k → k < hi → refers k v.refs ≡ true

abbrev pub Walks : List Text → List Text → Text → Mode → Walked → Type 0
Walks slots slots' t mode w =
    (v : Walked) × (walk slots' mode t ≡ some v) × Extends (length slots) (length slots') w v

-- `t` with `slots'` stands for what `s` with `slots` stands for.
pub record Masks (slots : List Text) (s : Text) (t : Text) (slots' : List Text) : Type 0 where
  pub more : List Text
  pub grows : slots' ≡ slots ++ more
  pub walks : (mode : Mode) (w : Walked) → walk slots mode s ≡ some w → Walks slots slots' t mode w

any-append {ℓ} :
    {A : Type ℓ} (p : A → Bool) (xs ys : List A) → any p (xs ++ ys) ≡ (any p xs || any p ys)
any-append p [] ys = refl
any-append p (x ∷ xs) ys = ground (arith, any-append p xs ys)

or-left : (a b : Bool) → a ≡ true → (a || b) ≡ true
or-left a b h = ground arith

or-right : (a b : Bool) → b ≡ true → (a || b) ≡ true
or-right a b h = ground arith

pushed :
    (slots : List Text) (s : Text) (w : Walked)
    → w ≡ record { mode = outside; text = s; refs = [] }
    → (n : ℕ) → n ≡ length slots
    → Extends
        (length slots)
        (length (slots ++ s ∷ []))
        w
        (record { mode = outside; text = s; refs = n ∷ [] })
pushed slots s w e n back = record {
  mode = sym (ap (λ (x : Walked). x.mode) e);
  text = sym (ap (λ (x : Walked). x.text) e);
  old = λ k r. cc (ap (λ (x : Walked). refers k x.refs) e);
  new = λ k l h. let same : n ≡ k = omega (arith, length-append slots (s ∷ [])) in ground arith;
}

Extends-refl : (n : ℕ) (w : Walked) → Extends n n w w
Extends-refl n w = record {
  mode = refl;
  text = refl;
  old = λ k h. h;
  new = λ k h l. absurd (omega arith);
}

pub Masks-refl : (slots : List Text) (s : Text) → Masks slots s s slots
Masks-refl slots s = record {
  more = [];
  grows = sym (append-nil slots);
  walks = λ mode w h. (w, h, Extends-refl (length slots) w);
}

-- One masking after another.
pub Masks-trans :
    {slots₀ slots₁ slots₂ : List Text} {s t u : Text}
    → Masks slots₀ s t slots₁
    → Masks slots₁ t u slots₂
    → Masks slots₀ s u slots₂
Masks-trans {slots₀} {slots₁} {slots₂} {s} {t} {u} a b = record {
  more = a.more ++ b.more;
  grows = b.grows ∙ ap (λ x. x ++ b.more) a.grows ∙ append_assoc slots₀ a.more b.more;
  walks = λ mode w h.
      let (v, hv, ev) = a.walks mode w h in
      let (x, hx, ex) = b.walks mode v hv in
      (
        x,
        hx,
        record {
          mode = ex.mode ∙ ev.mode;
          text = ex.text ∙ ev.text;
          old = λ k r. ex.old k (ev.old k r);
          new = λ k lo hi. elim (Bool-cases (ltb k (length slots₁))) [
            | inl small ↦ ex.old k (ev.new k lo (ltb→lt _ _ small))
            | inr large ↦ ex.new k (ground arith) hi
          ];
        },
      );
}

Extends-append :
    {lo mid hi : ℕ} {u u' v v' : Walked} (w : Walked)
    → w ≡ record { mode = v.mode; text = u.text ++ v.text; refs = u.refs ++ v.refs }
    → Extends lo mid u u'
    → Extends mid hi v v'
    → Extends lo hi w
        (record { mode = v'.mode; text = u'.text ++ v'.text; refs = u'.refs ++ v'.refs })
Extends-append {lo} {mid} {hi} {u} {u'} {v} {v'} w q eu ev = record {
  mode = ev.mode ∙ sym (ap (λ (x : Walked). x.mode) q);
  text = cc (eu.text, ev.text, ap (λ (x : Walked). x.text) q);
  old = λ k r.
      let r₁ =
        sym (any-append (λ j. j == k) u.refs v.refs)
        ∙ sym (ap (λ (x : Walked). refers k x.refs) q)
        ∙ r in
      any-append (λ j. j == k) u'.refs v'.refs ∙ ground (arith, r₁, eu.old k, ev.old k);
  new = λ k l h. any-append (λ j. j == k) u'.refs v'.refs ∙ elim (Bool-cases (ltb k mid)) [
    | inl small ↦ or-left _ _ (eu.new k l (ltb→lt _ _ small))
    | inr large ↦ or-right _ _ (ev.new k (ground arith) h)
  ];
}

-- Two parts of a text, one behind the other.
pub Masks-append :
    {slots₀ slots₁ slots₂ : List Text} {s₁ t₁ s₂ t₂ : Text}
    → Masks slots₀ s₁ t₁ slots₁
    → Masks slots₁ s₂ t₂ slots₂
    → Masks slots₀ (s₁ ++ s₂) (t₁ ++ t₂) slots₂
Masks-append {slots₀} {slots₁} {slots₂} {s₁} {t₁} {s₂} {t₂} a b = record {
  more = a.more ++ b.more;
  grows = b.grows ∙ ap (λ x. x ++ b.more) a.grows ∙ append_assoc slots₀ a.more b.more;
  walks = λ mode w h.
      let (u, v, hu, hv, q) =
        proceed-some (λ n. walk slots₀ n s₂) (walk slots₀ mode s₁)
          (sym (walk-append slots₀ mode s₁ s₂) ∙ h) in
      let (u', hu', eu) = a.walks mode u hu in
      let hv₁ : walk slots₁ u.mode s₂ ≡ some v =
        ap (λ x. walk x u.mode s₂) a.grows ∙ walk-more slots₀ a.more u.mode s₂ hv in
      let (v', hv', ev) = b.walks u.mode v hv₁ in
      let hu₂ : walk slots₂ mode t₁ ≡ some u' =
        ap (λ x. walk x mode t₁) b.grows ∙ walk-more slots₁ b.more mode t₁ hu' in
      let hv₂ : walk slots₂ u'.mode t₂ ≡ some v' = ap (λ m. walk slots₂ m t₂) eu.mode ∙ hv' in
      (
        record { mode = v'.mode; text = u'.text ++ v'.text; refs = u'.refs ++ v'.refs },
        walk-append slots₂ mode t₁ t₂ ∙ proceed-of (λ n. walk slots₂ n t₂) _ u' v' hu₂ hv₂,
        Extends-append w q eu ev,
      );
}

pub Masks-nil : (slots : List Text) → Masks slots [] [] slots
Masks-nil slots = Masks-refl slots []

get_elem?-last {ℓ} :
    {A : Type ℓ} (xs : List A) (x : A) → get_elem? (xs ++ x ∷ []) (length xs) ≡ some x
get_elem?-last [] x = refl
get_elem?-last (y ∷ ys) x = get_elem?-last ys x

-- A part without `@` that is walked outside may become a placeholder for itself.
pub Masks-push :
    (slots : List Text) (s : Text)
    → ((mode : Mode) (w : Walked)
        → walk slots mode s ≡ some w
        → (mode ≡ outside) × (w ≡ record { mode = outside; text = s; refs = [] }))
    → Masks slots s (placeholder (length slots)) (slots ++ s ∷ [])
unfolding placeholder
Masks-push slots s plainly = record {
  more = s ∷ [];
  grows = refl;
  walks = λ mode w h.
      let (m, e) = plainly mode w h in
      let n = length slots in
      let back : decimal 0 (print n) ≡ n = decimal-print n in
      let slot : get_elem? (slots ++ s ∷ []) (decimal 0 (print n)) ≡ some s =
        ap (get_elem? (slots ++ s ∷ [])) back ∙ get_elem?-last slots s in
      (
        record { mode = outside; text = s; refs = decimal 0 (print n) ∷ [] },
        ap (λ x. walk (slots ++ s ∷ []) x (at_sign ∷ print n ++ at_sign ∷ [])) m
            ∙ walk-placeholder (slots ++ s ∷ []) (print n) (length-print n) (print-digits n) slot,
        pushed slots s w e (decimal 0 (print n)) back,
      );
}

-- A callback that masks each match masks the text.
pub replace_slots-Masks :
    (f : Found → List Text → Text × List Text) (ps : List Piece) (slots : List Text)
    → AllHits (λ m. (xs : List Text) → Masks xs m.text (f m xs).0 (f m xs).1) ps
    → Masks slots (original ps) (replace_slots f ps slots).0 (replace_slots f ps slots).1
unfolding replace_slots
replace_slots-Masks f [] slots h = Masks-nil slots
replace_slots-Masks f (plain c ∷ ps) slots h =
    Masks-append {s₁ = c ∷ []} {t₁ = c ∷ []} (Masks-refl slots (c ∷ []))
      (replace_slots-Masks f ps slots h)
replace_slots-Masks f (hit m ∷ ps) slots h =
    Masks-append (h.0 slots) (replace_slots-Masks f ps (f m slots).1 h.1)
