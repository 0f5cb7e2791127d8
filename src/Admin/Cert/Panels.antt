-- ===== src/Admin/Cert/Panels.antt =====
-- Which panels the form of a certificate shows, in adminPage/cert/index.js.
use nginx_web_ui.Prelude.{
  ◌≡◌, refl, inl, inr, Bool, true, false, List, [], ◌∷◌, Text, text_eq, any, Bool-cases,
  if◌then◌else◌,
}
use nginx_web_ui.Admin.Page.{Page, set_shown}
use nginx_web_ui.Admin.Cert.Form.{hide_all, dns_panels, check_dns_type}

-- Hiding a list of elements hides those and no other.
hide_all-shown :
    (ids : List Text) (p : Page) (x : Text)
    → (hide_all ids p).shown x ≡ (if any (λ id. text_eq x id) ids then false else p.shown x)
hide_all-shown [] p x = refl
hide_all-shown (id ∷ ids) p x = elim (Bool-cases (text_eq x id)) [
  | inl here ↦
      rw (hide_all-shown ids (set_shown id false p) x, here) (if-same (any (λ i. text_eq x i) ids))
  | inr there ↦ rw (hide_all-shown ids (set_shown id false p) x, there) refl
]
  where
    if-same : (c : Bool) → (if c then false else false) ≡ false
    if-same true = refl
    if-same false = refl

-- Of the panels of the providers, the one of the provider is shown and no other; an element
-- that is no such panel is left as it was.
pub check_dns_type-shown :
    (value : Text) (p : Page) (x : Text)
    → (check_dns_type value p).shown x ≡ (
        if text_eq x value
        then true
        else if any (λ id. text_eq x id) dns_panels
        then false
        else p.shown x)
unfolding check_dns_type
check_dns_type-shown value p x = elim (Bool-cases (text_eq x value)) [
  | inl here ↦ rw here refl
  | inr there ↦ rw there (hide_all-shown dns_panels p x)
]
