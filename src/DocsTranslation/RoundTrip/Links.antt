-- ===== src/DocsTranslation/RoundTrip/Links.antt =====
-- A match of the link expression is `[`, the first group, `](`, the second group and `)`.
use nginx_web_ui.Prelude.{
  ℕ, ◌≡◌, refl, ap, sym, ◌∙◌, Bool, true, not, [], ◌∷◌, ◌++◌, Option, some, Text, append_assoc,
  ==_iff, ◌==◌, ◌||◌, is_space,
}
use nginx_web_ui.Regex.{Found, capture, match_at}
use nginx_web_ui.Regex.Syntax.{cls, star}
use nginx_web_ui.Regex.Matcher.{Cursor, between}
use nginx_web_ui.Regex.Search.{start_at, found}
use nginx_web_ui.Regex.Sound.{Reads, Repeats, done, more, Reads-between, between-append}
use nginx_web_ui.Regex.Pieces.{match_at-Reads}
use nginx_web_ui.DocsTranslation.Patterns.{link_re}

Repeats-groups : (p : ℕ → Bool) {s e : Cursor} → Repeats (Reads (cls p)) s e → e.groups ≡ s.groups
Repeats-groups p done = refl
Repeats-groups p (more r rs) = Repeats-groups p rs ∙ r.4

abbrev pub LinkShape : Found → Type 0
LinkShape m = m.text ≡ b'[' ∷ (capture 1 m ++ (b']' ∷ b'(' ∷ (capture 2 m ++ b')' ∷ [])))

module _ (p q : ℕ → Bool) where
  -- The cursors of a link, in order, and what each step reads.
  link_parts :
      (s a b b' c d e' e : Cursor)
      → s.rest ≡ b'[' ∷ a.rest
      → Repeats (Reads (cls p)) a b
      → b' ≡ record b { groups = (1, between a b) ∷ b.groups }
      → b'.rest ≡ b']' ∷ c.rest
      → c.rest ≡ b'(' ∷ d.rest
      → Repeats (Reads (cls q)) d e'
      → e'.rest ≡ b')' ∷ e.rest
      → between s e ≡ b'[' ∷ (between a b ++ (b']' ∷ b'(' ∷ (between d e' ++ b')' ∷ [])))
  link_parts s a b b' c d e' e open_ label same close_ paren url last =
      between-append s e (b'[' ∷ (between a b ++ (b']' ∷ b'(' ∷ (between d e' ++ b')' ∷ [])))) (
        open_
        ∙ ap (λ t. b'[' ∷ t) (Reads-between (star (cls p)) a b label)
        ∙ ap (λ t. b'[' ∷ (between a b ++ t))
            (sym (ap (λ (x : Cursor). x.rest) same)
              ∙ close_
              ∙ ap (λ t. b']' ∷ t) paren
              ∙ ap (λ t. b']' ∷ b'(' ∷ t)
                  (Reads-between (star (cls q)) d e' url ∙ ap (λ t. between d e' ++ t) last))
        ∙ simp append_assoc)

  -- The groups at the end of a link.
  link_groups :
      (s a b b' c d e' e'' e : Cursor)
      → a.groups ≡ s.groups
      → Repeats (Reads (cls p)) a b
      → b' ≡ record b { groups = (1, between a b) ∷ b.groups }
      → c.groups ≡ b'.groups
      → d.groups ≡ c.groups
      → Repeats (Reads (cls q)) d e'
      → e'' ≡ record e' { groups = (2, between d e') ∷ e'.groups }
      → e.groups ≡ e''.groups
      → e.groups ≡ (2, between d e') ∷ (1, between a b) ∷ s.groups
  link_groups s a b b' c d e' e'' e ga label same gc gd url last ge =
      ge
      ∙ ap (λ (x : Cursor). x.groups) last
      ∙ ap (λ t. (2, between d e') ∷ t)
          (Repeats-groups q url
            ∙ gd
            ∙ gc
            ∙ ap (λ (x : Cursor). x.groups) same
            ∙ ap (λ t. (1, between a b) ∷ t) (Repeats-groups p label ∙ ga))

char_eq : (c x : ℕ) {s t : Text} → s ≡ c ∷ t → (c == x) ≡ true → s ≡ x ∷ t
char_eq c x {s} {t} e h = e ∙ ap (λ y. y ∷ t) ((==_iff c x).0 h)

-- Every match of the link expression has the shape of a link.
pub match_at-LinkShape :
    (prev : Option ℕ) (s : Text) (m : Found) → match_at link_re prev s ≡ some m → LinkShape m
unfolding capture link_re between
match_at-LinkShape prev s m h =
    let (e, rd, same) = match_at-Reads link_re prev s m h in shape e rd same
  where
    shape :
        (e : Cursor)
        → Reads link_re (start_at prev s) e
        → m ≡ found (start_at prev s) e
        → LinkShape m
    shape e
          (
            a,
            (c₁, r₁, t₁, _, g₁),
            (
              b',
              (b, label, same₁),
              (
                c,
                (c₂, r₂, t₂, _, g₂),
                (d, (c₃, r₃, t₃, _, g₃), (e'', (e', url, same₂), (c₄, r₄, t₄, _, g₄))),
              ),
            ),
          )
          same =
        let p = λ (x : ℕ). not (x == b']' || x == 10) in
        let q = λ (x : ℕ). not (x == b')' || is_space x) in
        let s₀ = start_at prev s in
        let last : e'.rest ≡ b')' ∷ e.rest =
          sym (ap (λ (x : Cursor). x.rest) same₂) ∙ char_eq c₄ b')' r₄ t₄ in
        let txt =
          link_parts p q s₀ a b b' c d e' e (char_eq c₁ b'[' r₁ t₁) label same₁
            (char_eq c₂ b']' r₂ t₂) (char_eq c₃ b'(' r₃ t₃) url last in
        let grp = link_groups p q s₀ a b b' c d e' e'' e g₁ label same₁ g₂ g₃ url same₂ g₄ in
        rw (same, grp) txt
