-- ===== src/Regex/Leads.antt =====
-- What the first character of a match can be.
use nginx_web_ui.Prelude.{
  ℕ, ◌≡◌, sym, ap, ◌∙◌, inl, inr, Bool, true, List, [], ◌∷◌, ◌++◌, Option, some, Text, append_assoc,
  length, length-append, take, take-length-append, arith,
}
use nginx_web_ui.Regex.Syntax.{
  Regex, empty, cls, seq, alt, star, group, bol, eol, boundary, not_behind,
}
use nginx_web_ui.Regex.Matcher.{Cursor, between}
use nginx_web_ui.Regex.Search.{Found, start_at, match_at}
use nginx_web_ui.Regex.Sound.{Reads, Reads-append, Reads-between}
use nginx_web_ui.Regex.Pieces.{match_at-Reads}

-- Every match is not empty, and `q` holds of its first character.
abbrev pub Leads : (ℕ → Bool) → Regex → Type 0
Leads q empty = ⊥
Leads q (cls p) = (c : ℕ) → p c ≡ true → q c ≡ true
Leads q (seq empty b) = Leads q b
Leads q (seq bol b) = Leads q b
Leads q (seq boundary b) = Leads q b
Leads q (seq a b) = Leads q a
Leads q (alt a b) = Leads q a × Leads q b
Leads q (group n a) = Leads q a
Leads q _ = ⊥

abbrev pub Heads : (ℕ → Bool) → Text → Text → Type 0
Heads q s rest = (c : ℕ) × (t : Text) × (s ≡ c ∷ t ++ rest) × (q c ≡ true)

Heads-seq :
    (q : ℕ → Bool) (b : Regex) (s m e : Cursor)
    → Heads q s.rest m.rest
    → Reads b m e
    → Heads q s.rest e.rest
Heads-seq q b s m e (c, t, p, h) rb =
    let (u, eq) = Reads-append b m e rb in
    (c, t ++ u, p ∙ ap (λ v. c ∷ t ++ v) eq ∙ ap (λ v. c ∷ v) (sym (append_assoc t u e.rest)), h)

Heads-after :
    (q : ℕ → Bool) {s m : Cursor} (e : Cursor)
    → s ≡ m
    → Heads q m.rest e.rest
    → Heads q s.rest e.rest
Heads-after q e eq (c, t, p, h) = (c, t, ap (λ (x : Cursor). x.rest) eq ∙ p, h)

pub Reads-Heads :
    (q : ℕ → Bool) (r : Regex) (s e : Cursor) → Leads q r → Reads r s e → Heads q s.rest e.rest
Reads-Heads q empty s e l h = elim l [ ]
Reads-Heads q (cls p) s e l (c, eq, pc, _, _) = (c, [], eq, l c pc)
Reads-Heads q (seq empty b) s e l (m, ra, rb) = Heads-after q e ra (Reads-Heads q b m e l rb)
Reads-Heads q (seq bol b) s e l (m, ra, rb) = Heads-after q e ra.0 (Reads-Heads q b m e l rb)
Reads-Heads q (seq boundary b) s e l (m, ra, rb) = Heads-after q e ra.0 (Reads-Heads q b m e l rb)
Reads-Heads q (seq (cls p) b) s e l (m, ra, rb) =
    Heads-seq q b s m e (Reads-Heads q (cls p) s m l ra) rb
Reads-Heads q (seq (seq a c) b) s e l (m, ra, rb) =
    Heads-seq q b s m e (Reads-Heads q (seq a c) s m l ra) rb
Reads-Heads q (seq (alt a c) b) s e l (m, ra, rb) =
    Heads-seq q b s m e (Reads-Heads q (alt a c) s m l ra) rb
Reads-Heads q (seq (group n a) b) s e l (m, ra, rb) =
    Heads-seq q b s m e (Reads-Heads q (group n a) s m l ra) rb
Reads-Heads q (seq (star a) b) s e l h = elim l [ ]
Reads-Heads q (seq eol b) s e l h = elim l [ ]
Reads-Heads q (seq (not_behind p) b) s e l h = elim l [ ]
Reads-Heads q (alt a b) s e l (inl h) = Reads-Heads q a s e l.0 h
Reads-Heads q (alt a b) s e l (inr h) = Reads-Heads q b s e l.1 h
Reads-Heads q (group n a) s e l (m, ra, eq) =
    let (c, t, p, h) = Reads-Heads q a s m l ra in
    (c, t, p ∙ ap (λ (x : Cursor). c ∷ t ++ x.rest) (sym eq), h)
Reads-Heads q (star a) s e l h = elim l [ ]
Reads-Heads q bol s e l h = elim l [ ]
Reads-Heads q eol s e l h = elim l [ ]
Reads-Heads q boundary s e l h = elim l [ ]
Reads-Heads q (not_behind p) s e l h = elim l [ ]

abbrev pub Led : (ℕ → Bool) → Found → Type 0
Led q m = (c : ℕ) × (t : Text) × (m.text ≡ c ∷ t) × (q c ≡ true)

append_left_unique {ℓ} : {A : Type ℓ} (xs ys zs : List A) → xs ++ zs ≡ ys ++ zs → xs ≡ ys
append_left_unique xs ys zs e =
    let n : length xs ≡ length ys =
      omega (arith, ap length e, length-append xs zs, length-append ys zs) in
    sym (take-length-append xs zs)
    ∙ ap (λ k. take k (xs ++ zs)) n
    ∙ ap (take (length ys)) e
    ∙ take-length-append ys zs

-- A match of an expression with a leading class begins with a character of that class.
pub match_at-Led :
    (q : ℕ → Bool) (r : Regex)
    → Leads q r
    → (prev : Option ℕ) (s : Text) (m : Found) → match_at r prev s ≡ some m
    → Led q m
match_at-Led q r l prev s m h =
    let (e, rd, same) = match_at-Reads r prev s m h in
    let (c, t, p, qc) = Reads-Heads q r (start_at prev s) e l rd in
    (
      c,
      t,
      ap (λ (x : Found). x.text) same
          ∙ append_left_unique (between (start_at prev s) e) (c ∷ t) e.rest
              (sym (Reads-between r (start_at prev s) e rd) ∙ p),
      qc,
    )
