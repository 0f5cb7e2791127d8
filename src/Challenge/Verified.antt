-- ===== src/Challenge/Verified.antt =====
-- The tickets and the return paths that cloudflare/challenge-worker/src/tickets.js accepts.
use nginx_web_ui.Prelude.{
  split_at, ℕ, ◌+◌, ◌≤◌, ◌<◌, ◌≡◌, refl, sym, ◌∙◌, false≢true, ◌⊎◌, inl, inr, Bool, true, false,
  not, ◌&&◌, ◌||◌, Option, none, some, arith, Text, codes, starts_with, length, ltb, leb, decimal,
  Bool-cases,
}
use nginx_web_ui.Regex.{test}
use nginx_web_ui.Challenge.Platform.{Platform}
use nginx_web_ui.Challenge.Tickets.{
  path_prefix, Ticket, TicketResult, good, expired, bad, two_parts, seven_fields, Fields, schema_ok,
  ticket_of, max_safe, control_re, check_times, unb64, safe_return, ticket_ok, check_fields,
  check_text, signed, check_bytes, check_parts, verify_request_ticket,
}

-- A path on the same host that is not the worker's own, without control characters, of 2048 bytes at
-- most.
abbrev pub SafePath : Platform → Text → Type 0
SafePath w p =
    (starts_with (codes "/") p ≡ true)
    × (starts_with (codes "//") p ≡ false)
    × (test control_re p ≡ false)
    × (starts_with path_prefix p ≡ false)
    × (length (w.encode p) ≤ 2048)

-- Some of five tests holds, or none does.
five_or :
    (a b c d e : Bool)
    → ((a || b || c || d || e) ≡ true)
      ⊎ ((a ≡ false) × (b ≡ false) × (c ≡ false) × (d ≡ false) × (e ≡ false))
five_or true b c d e = inl refl
five_or false true c d e = inl refl
five_or false false true d e = inl refl
five_or false false false true e = inl refl
five_or false false false false true = inl refl
five_or false false false false false = inr (refl, refl, refl, refl, refl)

-- Where none of five tests holds, their disjunction is false.
none_of_five :
    (a b c d e : Bool)
    → a ≡ false
    → b ≡ false
    → c ≡ false
    → d ≡ false
    → e ≡ false
    → (a || b || c || d || e) ≡ false
none_of_five a b c d e ha hb hc hd he = rw (ha, hb, hc, hd, he) refl

undo_not : (b : Bool) → not b ≡ false → b ≡ true
undo_not b h = ground arith

negated : (b : Bool) → b ≡ true → not b ≡ false
negated b h = rw h refl

not_below : (m n : ℕ) → n ≤ m → ltb m n ≡ false
not_below m n h = ground arith

-- A safe path fails none of the five tests of `safeReturn`.
SafePath-passes :
    (w : Platform) (p : Text)
    → SafePath w p
    → (not (starts_with (codes "/") p)
        || starts_with (codes "//") p
        || ltb 2048 (length (w.encode p))
        || test control_re p
        || starts_with path_prefix p)
      ≡ false
SafePath-passes w p (slash, host, control, own, short) =
    none_of_five _ _ _ _ _ (negated _ slash) host (not_below _ _ short) control own

not_longer : (m n : ℕ) → ltb m n ≡ false → n ≤ m
not_longer m n h = ground arith

-- `safeReturn` gives a safe path back, and the root for any other.
pub safe_return-SafePath :
    (w : Platform) (p : Text)
    → (SafePath w p × (safe_return w p ≡ p)) ⊎ (¬ SafePath w p × (safe_return w p ≡ codes "/"))
unfolding safe_return
safe_return-SafePath w p =
    elim (five_or (not (starts_with (codes "/") p)) (starts_with (codes "//") p)
      (ltb 2048 (length (w.encode p))) (test control_re p) (starts_with path_prefix p)) [
        | inl unsafe ↦
            inr (λ safe. false≢true (sym (SafePath-passes w p safe) ∙ unsafe), rw unsafe refl)
        | inr (a, b, c, d, e) ↦
            inl ((undo_not _ a, b, d, e, not_longer _ _ c), rw (a, b, c, d, e) refl)
      ]

-- A token whose bytes carry a good signature.
abbrev pub Signed : Platform → Text → Text → Type 0
Signed w secret token =
    (p : Text × Text) × (bytes : Text) × (sig : Text) × (two_parts (split_at b'.' token) ≡ some p)
    × (unb64 w p.0 ≡ some bytes)
    × (unb64 w p.1 ≡ some sig)
    × (signed w secret bytes sig ≡ true)

abbrev pub Fits : Platform → ℕ → TicketResult → Type 0
Fits w now bad = Unit {0}
Fits w now (expired t) = (t.exp < now) × (ticket_ok w t ≡ true)
Fits w now (good t) = (now ≤ t.exp) × (t.exp ≤ now + 300) × (ticket_ok w t ≡ true)

abbrev pub Sound : Platform → Text → ℕ → Text → TicketResult → Type 0
Sound w secret now token bad = Unit {0}
Sound w secret now token (expired t) = Signed w secret token × Fits w now (expired t)
Sound w secret now token (good t) = Signed w secret token × Fits w now (good t)

check_times-Fits :
    (w : Platform) (now : ℕ) (t : Ticket) → ticket_ok w t ≡ true → Fits w now (check_times now t)
unfolding check_times
check_times-Fits w now t ok = elim (Bool-cases (ltb t.exp now)) [
  | inl past ↦ rw past (ground arith, ok)
  | inr live ↦ elim (Bool-cases (ltb (now + 300) t.exp)) [
    | inl far ↦ rw (live, far) tt
    | inr near ↦ rw (live, near) (ground arith, ground arith, ok)
  ]
]

and3-right : (a b c : Bool) → (a && b && c) ≡ true → c ≡ true
and3-right a b c h = ground arith

check_fields-Fits : (w : Platform) (now : ℕ) (o : Option Fields) → Fits w now (check_fields w now o)
check_fields-Fits w now none = tt
check_fields-Fits w now (some f) =
    elim (Bool-cases
      (schema_ok f && leb (decimal 0 f.expiry) max_safe && ticket_ok w (ticket_of f))) [
        | inl ok ↦ rw ok (
            check_times-Fits w now (ticket_of f)
              (and3-right (schema_ok f) (leb (decimal 0 f.expiry) max_safe) _ ok))
        | inr wrong ↦ rw wrong tt
      ]

check_text-Fits : (w : Platform) (now : ℕ) (o : Option Text) → Fits w now (check_text w now o)
check_text-Fits w now none = tt
check_text-Fits w now (some t) = check_fields-Fits w now (seven_fields (split_at 10 t))

Fits-Sound :
    (w : Platform) (secret : Text) (now : ℕ) (token : Text) (r : TicketResult)
    → Signed w secret token
    → Fits w now r
    → Sound w secret now token r
Fits-Sound w secret now token bad s f = tt
Fits-Sound w secret now token (expired t) s f = (s, f)
Fits-Sound w secret now token (good t) s f = (s, f)

check_bytes-Sound :
    (w : Platform) (secret : Text) (now : ℕ) (token : Text) (p : Text × Text) (b s : Option Text)
    → two_parts (split_at b'.' token) ≡ some p
    → unb64 w p.0 ≡ b
    → unb64 w p.1 ≡ s
    → Sound w secret now token (check_bytes w secret now b s)
check_bytes-Sound w secret now token p none s e hb hs = tt
check_bytes-Sound w secret now token p (some bytes) none e hb hs = tt
check_bytes-Sound w secret now token p (some bytes) (some sig) e hb hs =
    elim (Bool-cases (signed w secret bytes sig)) [
      | inl ok ↦ rw ok (
          Fits-Sound w secret now token _ (p, bytes, sig, e, hb, hs, ok)
            (check_text-Fits w now (w.decode bytes)))
      | inr wrong ↦ rw wrong tt
    ]

check_parts-Sound :
    (w : Platform) (secret : Text) (now : ℕ) (token : Text) (o : Option (Text × Text))
    → two_parts (split_at b'.' token) ≡ o
    → Sound w secret now token (check_parts w secret now o)
check_parts-Sound w secret now token none e = tt
check_parts-Sound w secret now token (some p) e =
    check_bytes-Sound w secret now token p (unb64 w p.0) (unb64 w p.1) e refl refl

-- A ticket comes only from a token with a good signature, with a valid host, address and nonce; it is
-- accepted up to its time and not more than 300 seconds before it, and expired after it.
pub verify_request_ticket-Sound :
    (w : Platform) (secret : Text) (now : ℕ) (token : Text)
    → Sound w secret now token (verify_request_ticket w (some token) secret now)
unfolding verify_request_ticket
verify_request_ticket-Sound w secret now token =
    elim (Bool-cases (ltb 4096 (length token) || ltb max_safe now)) [
      | inl long ↦ rw long tt
      | inr short ↦
          rw short (check_parts-Sound w secret now token (two_parts (split_at b'.' token)) refl)
    ]
