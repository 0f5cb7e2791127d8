-- ===== src/DocsTranslation/RoundTrip/Restoring.antt =====
-- `restore` writes what the walk of a masked text writes, and sees the slots that it puts in.
use nginx_web_ui.Prelude.{
  ℕ, zero, suc, ◌+◌, ◌≤◌, ◌<◌, ◌≡◌, refl, ap, sym, ◌∙◌, true, List, [], ◌∷◌, ◌++◌, Option, none,
  some, arith, Text, All, length, length-append, get_elem?, ◌==◌, is_digit, decimal, append_assoc,
  append-nil, Bool-cases, inl, inr, ltb, ==_iff, subst,
}
use mathlib.Core.Option.{some-injective}
use nginx_web_ui.Regex.{capture, pieces_fuel, pieces}
use nginx_web_ui.Regex.Pieces.{pieces_end, pieces_plain, pieces_hit}
use nginx_web_ui.DocsTranslation.Patterns.{at_sign, ph_re}
use nginx_web_ui.DocsTranslation.Protect.{Seen, add_seen, restore_match, restore_pieces}
use nginx_web_ui.DocsTranslation.RoundTrip.Walk.{
  outside, within, Walked, step, close, closing, walk, proceed-some, walk-digit, walk_plain_char,
  walk_at,
}
use nginx_web_ui.DocsTranslation.RoundTrip.Scanning.{
  ph_found, match_at-ph, match_at-other, match_at-nil,
}
use nginx_web_ui.DocsTranslation.RoundTrip.Counting.{add_all}

-- The rest of a placeholder: its digits, the closing `@`, and what follows.
pub record Closes (slots : List Text) (acc : Text) (t : Text) (w : Walked) : Type 0 where
  pub digits : Text
  pub all_digits : All (λ c. is_digit c ≡ true) digits
  pub rest : Text
  pub spells : t ≡ digits ++ at_sign ∷ rest
  pub slot : Text
  pub some_digit : 1 ≤ length (acc ++ digits)
  pub found : get_elem? slots (decimal 0 (acc ++ digits)) ≡ some slot
  pub tail : Walked
  pub walks : walk slots outside rest ≡ some tail
  pub ends : w ≡ record {
    mode = tail.mode;
    text = slot ++ tail.text;
    refs = decimal 0 (acc ++ digits) ∷ tail.refs;
  }

close-some :
    (i : ℕ) (o : Option Text) {u : Walked}
    → close i o ≡ some u
    → (s : Text) × (o ≡ some s) × (u ≡ record { mode = outside; text = s; refs = i ∷ [] })
close-some i none h = cc
close-some i (some s) h = (s, refl, cc)

closing-some :
    (slots : List Text) (ds : Text) {u : Walked}
    → closing slots ds ≡ some u
    → (s : Text) × (1 ≤ length ds)
      × (get_elem? slots (decimal 0 ds) ≡ some s)
      × (u ≡ record { mode = outside; text = s; refs = decimal 0 ds ∷ [] })
closing-some slots [] h = cc
closing-some slots (d ∷ ds) h =
    let (s, e, q) = close-some (decimal 0 (d ∷ ds)) (get_elem? slots (decimal 0 (d ∷ ds))) h in
    (s, omega arith, e, q)

Closes-here :
    (slots : List Text) (acc : Text) (c : ℕ) (t : Text) (w u v : Walked)
    → (c == at_sign) ≡ true
    → closing slots acc ≡ some u
    → walk slots u.mode t ≡ some v
    → w ≡ record { mode = v.mode; text = u.text ++ v.text; refs = u.refs ++ v.refs }
    → Closes slots acc (c ∷ t) w
Closes-here slots acc c t w u v here e r q =
    let (s, l, g, qu) = closing-some slots acc e in
    record {
      digits = [];
      all_digits = tt;
      rest = t;
      spells = ap (λ y. y ∷ t) ((==_iff c at_sign).0 here);
      slot = s;
      some_digit = rw append-nil l;
      found = rw append-nil g;
      tail = v;
      walks = ap (λ (x : Walked). walk slots x.mode t) (sym qu) ∙ r;
      ends = rw append-nil (
          q
          ∙ ap
              (λ (x : Walked). record {
                mode = v.mode;
                text = x.text ++ v.text;
                refs = x.refs ++ v.refs;
              })
              qu);
    }

Closes-later :
    (slots : List Text) (acc : Text) (c : ℕ) (t : Text) (w : Walked)
    → is_digit c ≡ true
    → Closes slots (acc ++ c ∷ []) t w
    → Closes slots acc (c ∷ t) w
Closes-later slots acc c t w d ih =
    let e : (acc ++ c ∷ []) ++ ih.digits ≡ acc ++ (c ∷ ih.digits) =
      append_assoc acc (c ∷ []) ih.digits in
    record {
      digits = c ∷ ih.digits;
      all_digits = (d, ih.all_digits);
      rest = ih.rest;
      spells = ap (λ y. c ∷ y) ih.spells;
      slot = ih.slot;
      some_digit = subst (λ x. 1 ≤ length x) e ih.some_digit;
      found = subst (λ x. get_elem? slots (decimal 0 x) ≡ some ih.slot) e ih.found;
      tail = ih.tail;
      walks = ih.walks;
      ends =
          ih.ends
          ∙ ap
              (λ x. record {
                mode = ih.tail.mode;
                text = ih.slot ++ ih.tail.text;
                refs = decimal 0 x ∷ ih.tail.refs;
              })
              e;
    }

within-Closes :
    (slots : List Text) (acc t : Text) (w : Walked)
    → w.mode ≡ outside
    → walk slots (within acc) t ≡ some w
    → Closes slots acc t w
unfolding walk step
within-Closes slots acc [] w m h = cc (some-injective _ _ h)
within-Closes slots acc (c ∷ t) w m h =
    let (u, v, e, r, q) = proceed-some (λ n. walk slots n t) (step slots (within acc) c) h in
    elim (Bool-cases (c == at_sign)) [
      | inl here ↦ Closes-here slots acc c t w u v here (rw here at e) r q
      | inr there ↦ elim (Bool-cases (is_digit c)) [
        | inl d ↦
            Closes-later slots acc c t w d
              (within-Closes slots (acc ++ c ∷ []) t w m (sym (walk-digit slots acc c t d) ∙ h))
        | inr d ↦ cc (rw (there, d) at e)
      ]
    ]

abbrev seen_after : List ℕ → Seen → Seen
seen_after refs st = record { seen = add_all refs st.seen; failed = st.failed }

abbrev seen_one : ℕ → Seen → Seen
seen_one i st = record st { seen = add_seen i st.seen }

-- One placeholder, and then the rest.
restore_hit :
    (slots : List Text) (f : ℕ) (prev : Option ℕ) (ds rest : Text) (st : Seen) (s : Text)
    (tail : Walked)
    → 1 ≤ length ds
    → All (λ c. is_digit c ≡ true) ds
    → get_elem? slots (decimal 0 ds) ≡ some s
    → restore_pieces slots (pieces_fuel f ph_re (some at_sign) rest) (seen_one (decimal 0 ds) st)
      ≡ (tail.text, seen_after tail.refs (seen_one (decimal 0 ds) st))
    → restore_pieces slots (pieces_fuel (suc f) ph_re prev (at_sign ∷ ds ++ at_sign ∷ rest)) st
      ≡ (s ++ tail.text, seen_after (decimal 0 ds ∷ tail.refs) st)
unfolding restore_pieces restore_match capture add_all
restore_hit slots f prev [] rest st s tail l a g ih = absurd (omega arith)
restore_hit slots f prev (d ∷ ds) rest st s tail l a g ih =
    let shorter : ltb (length rest) (suc (length (d ∷ ds ++ at_sign ∷ rest))) ≡ true =
      ground (arith, length-append ds (at_sign ∷ rest)) in
    rw
      (pieces_hit f ph_re prev at_sign (d ∷ ds ++ at_sign ∷ rest) (ph_found (d ∷ ds) rest)
        (match_at-ph prev d ds rest a.0 a.1) shorter)
      (rw (g, ih) refl)

-- What `restore` does over the pieces, given what the walk of the text does.
restore_fuel-walk :
    (slots : List Text) (f : ℕ) (prev : Option ℕ) (t : Text) (st : Seen) (w : Walked)
    → length t < f
    → w.mode ≡ outside
    → walk slots outside t ≡ some w
    → restore_pieces slots (pieces_fuel f ph_re prev t) st ≡ (w.text, seen_after w.refs st)
unfolding restore_pieces add_all walk
restore_fuel-walk slots zero prev t st w l m h = absurd (omega arith)
restore_fuel-walk slots (suc f) prev [] st w l m h =
    rw (pieces_end f ph_re prev (match_at-nil prev))
      (ap (λ (x : Walked). (x.text, seen_after x.refs st)) (some-injective _ _ h))
restore_fuel-walk slots (suc f) prev (c ∷ t) st w l m h = elim (Bool-cases (c == at_sign)) [
  | inl here ↦
      let cl = within-Closes slots [] t w m (walk_at slots c t w here h) in
      let i = decimal 0 cl.digits in
      let shorter : length cl.rest < f =
        omega (arith, ap length cl.spells, length-append cl.digits (at_sign ∷ cl.rest)) in
      let tail_mode : cl.tail.mode ≡ outside = sym (ap (λ (x : Walked). x.mode) cl.ends) ∙ m in
      ap (λ x. restore_pieces slots (pieces_fuel (suc f) ph_re prev x) st)
        (ap (λ x. x ∷ t) ((==_iff c at_sign).0 here) ∙ ap (λ x. at_sign ∷ x) cl.spells)
      ∙ restore_hit slots f prev cl.digits cl.rest st cl.slot cl.tail cl.some_digit cl.all_digits
          cl.found
          (restore_fuel-walk slots f (some at_sign) cl.rest (seen_one i st) cl.tail shorter
            tail_mode cl.walks)
      ∙ ap (λ (x : Walked). (x.text, seen_after x.refs st)) (sym cl.ends)
  | inr there ↦
      let (v, hv, q) = walk_plain_char slots c t w there h in
      let vm : v.mode ≡ outside = sym (ap (λ (x : Walked). x.mode) q) ∙ m in
      rw (pieces_plain f ph_re prev c t (match_at-other prev c t there)) (
        ap (λ (r : Text × Seen). (c ∷ r.0, r.1))
          (restore_fuel-walk slots f (some c) t st v (omega arith) vm hv)
        ∙ ap (λ (x : Walked). (x.text, seen_after x.refs st)) (sym q))
]

pub restore-walk :
    (slots : List Text) (t : Text) (st : Seen) (w : Walked)
    → w.mode ≡ outside
    → walk slots outside t ≡ some w
    → restore_pieces slots (pieces ph_re t) st
      ≡ (w.text, record { seen = add_all w.refs st.seen; failed = st.failed })
unfolding pieces
restore-walk slots t st w m h = restore_fuel-walk slots (length t + 1) none t st w (omega arith) m h
