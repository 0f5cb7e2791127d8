-- ===== src/Admin/Html.antt =====
-- Escaped text in the tables and tags that the pages write as HTML.
use nginx_web_ui.Prelude.{
  ℕ, ◌≡◌, refl, ap, sym, ◌∙◌, inl, inr, false, any, subst, [], ◌∷◌, ◌++◌, arith, append_assoc, Text,
  codes, ◌==◌, Bool-cases, if◌then◌else◌,
}

-- `s.replace(/c/g, t)` for a character `c`.
unfoldable pub replace_char : ℕ → Text → Text → Text
replace_char c t [] = []
replace_char c t (x ∷ s) = if x == c then t ++ replace_char c t s else x ∷ replace_char c t s

-- `escapeHtml` of denyAllow/index.js and `esc` of protectionCert/asnCatalog.js.
unfoldable pub escape_html : Text → Text
unfolding replace_char
escape_html s = replace_char b'"' (codes "&quot;") (
    replace_char b'>' (codes "&gt;")
      (replace_char b'<' (codes "&lt;") (replace_char b'&' (codes "&amp;") s)))

-- No such character in a text.
abbrev pub Lacks : ℕ → Text → Type 0
Lacks c t = any (λ x. x == c) t ≡ false

Lacks-append : (c : ℕ) (s t : Text) → Lacks c s → Lacks c t → Lacks c (s ++ t)
Lacks-append c [] t hs ht = ht
Lacks-append c (x ∷ s) t hs ht = ground (arith, Lacks-append c s t)

replace_char-append :
    (c : ℕ) (t xs ys : Text)
    → replace_char c t (xs ++ ys) ≡ replace_char c t xs ++ replace_char c t ys
unfolding replace_char
replace_char-append c t [] ys = refl
replace_char-append c t (x ∷ xs) ys = elim (Bool-cases (x == c)) [
  | inl here ↦ rw here (ap (λ z. t ++ z) (replace_char-append c t xs ys) ∙ sym (append_assoc t _ _))
  | inr there ↦ rw there (ap (λ z. x ∷ z) (replace_char-append c t xs ys))
]

escape_html-append : (xs ys : Text) → escape_html (xs ++ ys) ≡ escape_html xs ++ escape_html ys
unfolding escape_html
escape_html-append xs ys = simp replace_char-append refl

-- What a character is written as.
abbrev pub entity : ℕ → Text
entity c =
    if c == b'&'
    then codes "&amp;"
    else if c == b'<'
    then codes "&lt;"
    else if c == b'>'
    then codes "&gt;"
    else if c == b'"'
    then codes "&quot;"
    else c ∷ []

abbrev pub entities : Text → Text
entities [] = []
entities (c ∷ s) = entity c ++ entities s

escape_html-char : (c : ℕ) → escape_html (c ∷ []) ≡ entity c
unfolding escape_html replace_char
escape_html-char c = elim (Bool-cases (c == b'&')) [
  | inl amp ↦ rw amp refl
  | inr a ↦ elim (Bool-cases (c == b'<')) [
    | inl lt ↦ rw (a, lt) refl
    | inr b ↦ elim (Bool-cases (c == b'>')) [
      | inl gt ↦ rw (a, b, gt) refl
      | inr d ↦ elim (Bool-cases (c == b'"')) [
        | inl quot ↦ rw (a, b, d, quot) refl
        | inr e ↦ rw (a, b, d, e) refl
      ]
    ]
  ]
]

-- The four replacements, one after another, write each character of the text as its entity.
pub escape_html-entities : (s : Text) → escape_html s ≡ entities s
unfolding escape_html
escape_html-entities [] = refl
escape_html-entities (c ∷ s) =
    escape_html-append (c ∷ []) s
    ∙ ap (λ z. z ++ escape_html s) (escape_html-char c)
    ∙ ap (λ z. entity c ++ z) (escape_html-entities s)

entity-Lacks : (c : ℕ) → Lacks b'<' (entity c) × Lacks b'>' (entity c) × Lacks b'"' (entity c)
entity-Lacks c = elim (Bool-cases (c == b'&')) [
  | inl amp ↦ rw amp (refl, refl, refl)
  | inr a ↦ elim (Bool-cases (c == b'<')) [
    | inl lt ↦ rw (a, lt) (refl, refl, refl)
    | inr b ↦ elim (Bool-cases (c == b'>')) [
      | inl gt ↦ rw (a, b, gt) (refl, refl, refl)
      | inr d ↦ elim (Bool-cases (c == b'"')) [
        | inl quot ↦ rw (a, b, d, quot) (refl, refl, refl)
        | inr e ↦ rw (a, b, d, e) (ground (arith, b), ground (arith, d), ground (arith, e))
      ]
    ]
  ]
]

entities-Lacks :
    (s : Text) → Lacks b'<' (entities s) × Lacks b'>' (entities s) × Lacks b'"' (entities s)
entities-Lacks [] = (refl, refl, refl)
entities-Lacks (c ∷ s) =
    let (a, b, d) = entity-Lacks c in
    let (x, y, z) = entities-Lacks s in
    (
      Lacks-append b'<' (entity c) (entities s) a x,
      Lacks-append b'>' (entity c) (entities s) b y,
      Lacks-append b'"' (entity c) (entities s) d z,
    )

-- Escaped text opens and closes no tag and ends no attribute.
pub escape_html-Lacks :
    (s : Text)
    → Lacks b'<' (escape_html s) × Lacks b'>' (escape_html s) × Lacks b'"' (escape_html s)
escape_html-Lacks s =
    subst (λ t. Lacks b'<' t × Lacks b'>' t × Lacks b'"' t) (sym (escape_html-entities s))
      (entities-Lacks s)
