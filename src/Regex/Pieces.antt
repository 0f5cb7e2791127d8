-- ===== src/Regex/Pieces.antt =====
-- Matches and their places: a match and the rest spell the text, and so do the pieces of a text.
use nginx_web_ui.Prelude.{
  ℕ, zero, suc, ◌+◌, ◌≤◌, ◌<◌, ◌≡◌, refl, sym, ap, ◌∙◌, true, false, List, [], ◌∷◌, ◌++◌, Option,
  none, some, inl, inr, arith, Text, length, length-append, All, All-split_left, All-split_right,
  Option-cases, Bool-cases, ltb, ltb→lt,
}
use nginx_web_ui.Regex.Syntax.{Regex}
use nginx_web_ui.Regex.Matcher.{Cursor, run}
use nginx_web_ui.Regex.Search.{
  Found, start_at, found, found_of, match_at, Piece, plain, hit, pieces_fuel, pieces, original,
}
use nginx_web_ui.Regex.Sound.{Reads, run_sound, Reads-between}

found_of-some :
    (s : Cursor) (o : Option Cursor) {m : Found}
    → found_of s o ≡ some m
    → (e : Cursor) × (o ≡ some e) × (m ≡ found s e)
found_of-some s none h = cc
found_of-some s (some e) h = (e, refl, cc)

-- The cursor that a match ends at.
pub match_at-Reads :
    (r : Regex) (prev : Option ℕ) (s : Text) (m : Found)
    → match_at r prev s ≡ some m
    → (e : Cursor) × Reads r (start_at prev s) e × (m ≡ found (start_at prev s) e)
unfolding match_at
match_at-Reads r prev s m h =
    let (x, ran, same) = found_of-some (start_at prev s) (run r (start_at prev s) some) h in
    let (e, rd, eq) = run_sound r (start_at prev s) some x ran in
    (e, rd, same ∙ ap (found (start_at prev s)) (cc))

pub match_at-append :
    (r : Regex) (prev : Option ℕ) (s : Text) (m : Found)
    → match_at r prev s ≡ some m
    → s ≡ m.text ++ m.rest
match_at-append r prev s m h =
    let (e, rd, same) = match_at-Reads r prev s m h in
    rw same (Reads-between r (start_at prev s) e rd)

-- The rounds of `pieces_fuel`.
module _ (f : ℕ) (r : Regex) (prev : Option ℕ) where
  pub pieces_end : match_at r prev [] ≡ none → pieces_fuel (suc f) r prev [] ≡ []
  unfolding pieces_fuel
  pieces_end e = rw (e, pieces_fuel)

  pub pieces_end_hit :
      (m : Found) → match_at r prev [] ≡ some m → pieces_fuel (suc f) r prev [] ≡ hit m ∷ []
  unfolding pieces_fuel
  pieces_end_hit m e = rw (e, pieces_fuel)

  module _ (c : ℕ) (s : Text) where
    pub pieces_plain :
        match_at r prev (c ∷ s) ≡ none
        → pieces_fuel (suc f) r prev (c ∷ s) ≡ plain c ∷ pieces_fuel f r (some c) s
    unfolding pieces_fuel
    pieces_plain e = rw (e, pieces_fuel)

    pub pieces_hit :
        (m : Found)
        → match_at r prev (c ∷ s) ≡ some m
        → ltb (length m.rest) (suc (length s)) ≡ true
        → pieces_fuel (suc f) r prev (c ∷ s) ≡ hit m ∷ pieces_fuel f r m.prev m.rest
    unfolding pieces_fuel
    pieces_hit m e t = rw (e, t, pieces_fuel)

    pub pieces_stay :
        (m : Found)
        → match_at r prev (c ∷ s) ≡ some m
        → ltb (length m.rest) (suc (length s)) ≡ false
        → pieces_fuel (suc f) r prev (c ∷ s) ≡ hit m ∷ plain c ∷ pieces_fuel f r (some c) s
    unfolding pieces_fuel
    pieces_stay m e t = rw (e, t, pieces_fuel)

append-empty_left {ℓ} :
    {A : Type ℓ} (xs ys zs : List A) → zs ≡ xs ++ ys → length zs ≤ length ys → xs ≡ []
append-empty_left [] ys zs e h = refl
append-empty_left (x ∷ xs) ys zs e h = absurd (omega (arith, ap length e, length-append xs ys))

pieces_fuel-original :
    (f : ℕ) (r : Regex) (prev : Option ℕ) (s : Text)
    → length s < f
    → original (pieces_fuel f r prev s) ≡ s
pieces_fuel-original zero r prev s h = absurd (omega arith)
pieces_fuel-original (suc f) r prev [] h = elim (Option-cases (match_at r prev [])) [
  | inl e ↦ rw (pieces_end f r prev e)
  | inr (m, e) ↦
      let empty : m.text ≡ [] =
        append-empty_left m.text m.rest [] (match_at-append r prev [] m e) (omega arith) in
      rw (pieces_end_hit f r prev m e) (rw empty)
]
pieces_fuel-original (suc f) r prev (c ∷ s) h = elim (Option-cases (match_at r prev (c ∷ s))) [
  | inl e ↦
      rw (pieces_plain f r prev c s e)
        (ap (λ t. c ∷ t) (pieces_fuel-original f r (some c) s (omega arith)))
  | inr (m, e) ↦
      let sp : c ∷ s ≡ m.text ++ m.rest = match_at-append r prev (c ∷ s) m e in
      elim (Bool-cases (ltb (length m.rest) (suc (length s)))) [
        | inl t ↦ rw (pieces_hit f r prev c s m e t) (
            ap (λ t. m.text ++ t)
              (pieces_fuel-original f r m.prev m.rest (omega (arith, ltb→lt _ _ t)))
            ∙ sym sp)
        | inr t ↦
            let empty : m.text ≡ [] = append-empty_left m.text m.rest (c ∷ s) sp (ground arith) in
            rw (pieces_stay f r prev c s m e t, empty)
              (ap (λ t. c ∷ t) (pieces_fuel-original f r (some c) s (omega arith)))
      ]
]

-- The pieces of a text spell it, whatever the expression.
pub pieces-original : (r : Regex) (s : Text) → original (pieces r s) ≡ s
unfolding pieces
pieces-original r s = pieces_fuel-original (length s + 1) r none s (omega arith)

-- `P` holds of every match.
abbrev pub AllHits : (Found → Type 0) → List Piece → Type 0
AllHits P [] = Unit
AllHits P (plain c ∷ ps) = AllHits P ps
AllHits P (hit m ∷ ps) = P m × AllHits P ps

pub AllHits-map :
    (P Q : Found → Type 0) (ps : List Piece)
    → ((m : Found) → P m → Q m)
    → AllHits P ps
    → AllHits Q ps
AllHits-map P Q [] f h = tt
AllHits-map P Q (plain c ∷ ps) f h = AllHits-map P Q ps f h
AllHits-map P Q (hit m ∷ ps) f h = (f m h.0, AllHits-map P Q ps f h.1)

pub AllHits-both :
    (P Q : Found → Type 0) (ps : List Piece)
    → AllHits P ps
    → AllHits Q ps
    → AllHits (λ m. P m × Q m) ps
AllHits-both P Q [] h k = tt
AllHits-both P Q (plain c ∷ ps) h k = AllHits-both P Q ps h k
AllHits-both P Q (hit m ∷ ps) h k = ((h.0, k.0), AllHits-both P Q ps h.1 k.1)

-- What holds of the characters of a text holds of those of its matches.
pub AllHits-original :
    (P : ℕ → Type 0) (ps : List Piece) → All P (original ps) → AllHits (λ m. All P m.text) ps
AllHits-original P [] h = tt
AllHits-original P (plain c ∷ ps) h = AllHits-original P ps h.1
AllHits-original P (hit m ∷ ps) h = (
  All-split_left P m.text (original ps) h,
  AllHits-original P ps (All-split_right P m.text (original ps) h),
)

module _ (r : Regex) (P : Found → Type 0)
    (at_match : (prev : Option ℕ) (s : Text) (m : Found) → match_at r prev s ≡ some m → P m) where
  pieces_fuel-AllHits : (f : ℕ) (prev : Option ℕ) (s : Text) → AllHits P (pieces_fuel f r prev s)
  pieces_fuel-AllHits zero prev s = unfold pieces_fuel in tt
  pieces_fuel-AllHits (suc f) prev [] = elim (Option-cases (match_at r prev [])) [
    | inl e ↦ rw (pieces_end f r prev e) tt
    | inr (m, e) ↦ rw (pieces_end_hit f r prev m e) (at_match prev [] m e, tt)
  ]
  pieces_fuel-AllHits (suc f) prev (c ∷ s) = elim (Option-cases (match_at r prev (c ∷ s))) [
    | inl e ↦ rw (pieces_plain f r prev c s e) (pieces_fuel-AllHits f (some c) s)
    | inr (m, e) ↦ elim (Bool-cases (ltb (length m.rest) (suc (length s)))) [
      | inl t ↦
          rw (pieces_hit f r prev c s m e t)
            (at_match prev (c ∷ s) m e, pieces_fuel-AllHits f m.prev m.rest)
      | inr t ↦
          rw (pieces_stay f r prev c s m e t)
            (at_match prev (c ∷ s) m e, pieces_fuel-AllHits f (some c) s)
    ]
  ]

  -- A property of the matches of an expression holds of every match in a text.
  pub pieces-AllHits : (s : Text) → AllHits P (pieces r s)
  unfolding pieces
  pieces-AllHits s = pieces_fuel-AllHits (length s + 1) none s
