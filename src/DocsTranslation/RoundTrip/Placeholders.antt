-- ===== src/DocsTranslation/RoundTrip/Placeholders.antt =====
-- `protect` and then `restore` of scripts/translate-docs.js, on a line without `@`.
use nginx_web_ui.Prelude.{
  ℕ, ◌≡◌, refl, ap, sym, ◌∙◌, Bool, true, false, not, ◌||◌, List, [], ◌∷◌, ◌++◌, some, arith, Text,
  All, All-split_right, length, drop, drop-length-append, ◌==◌, ==_iff, is_digit, includes,
  Bool-cases, Option-cases, inl, inr, subst,
}
use nginx_web_ui.Regex.{Regex, Found, capture, pieces, exec}
use nginx_web_ui.Regex.Anchored.{exec-append}
use nginx_web_ui.Regex.Pieces.{
  AllHits-map, AllHits-both, AllHits-original, pieces-AllHits, pieces-original,
}
use nginx_web_ui.Regex.Leads.{Leads, Led, match_at-Led}
use nginx_web_ui.DocsTranslation.Patterns.{at_sign, link_re, protect_rules, prefix_re}
use nginx_web_ui.DocsTranslation.Protect.{
  push, mask_link, mask_match, mask_rules, replace_slots, prefix_of, protect, restore, Restored,
  Seen, matched_text,
}
use nginx_web_ui.DocsTranslation.RoundTrip.Walk.{
  Mode, outside, Walked, walk, walk-plain, walk-refs, walk-outside,
}
use nginx_web_ui.DocsTranslation.RoundTrip.Masking.{
  Masks, Masks-refl, Masks-trans, Masks-append, Masks-push, replace_slots-Masks,
}
use nginx_web_ui.DocsTranslation.RoundTrip.Links.{LinkShape, match_at-LinkShape}
use nginx_web_ui.DocsTranslation.RoundTrip.Restoring.{restore-walk}
use nginx_web_ui.DocsTranslation.RoundTrip.Counting.{length-add_all, add_all}

-- No `@` in a text.
abbrev pub LacksAt : Text → Type 0
LacksAt = All (λ c. (c == at_sign) ≡ false)

includes-LacksAt : (t : Text) → includes (at_sign ∷ []) t ≡ false → LacksAt t
includes-LacksAt [] h = tt
includes-LacksAt (c ∷ t) h = (ground arith, includes-LacksAt t (ground arith))

LacksAt-includes : (t : Text) → LacksAt t → includes (at_sign ∷ []) t ≡ false
LacksAt-includes [] h = refl
LacksAt-includes (c ∷ t) h = ground (arith, h.0, LacksAt-includes t h.1)

abbrev no_digit : ℕ → Bool
no_digit c = not (is_digit c)

-- Such a part of a text is walked outside a placeholder.
plainly :
    (slots : List Text) (s : Text) (c : ℕ) (t : Text)
    → s ≡ c ∷ t
    → no_digit c ≡ true
    → LacksAt s
    → (mode : Mode) (w : Walked) → walk slots mode s ≡ some w
    → (mode ≡ outside) × (w ≡ record { mode = outside; text = s; refs = [] })
plainly slots s c t e d lacks mode w h =
    let (m, q) =
      walk-outside slots mode c t w (ground arith) (subst LacksAt e lacks)
        (sym (ap (walk slots mode) e) ∙ h) in
    (m, q ∙ ap (λ x. record { mode = outside; text = x; refs = [] }) (sym e))

-- A match of a rule that holds a placeholder stays, and any other becomes one.
mask_match-Masks :
    (m : Found)
    → Led no_digit m
    → (slots : List Text) → Masks slots m.text (mask_match m slots).0 (mask_match m slots).1
unfolding mask_match push
mask_match-Masks m led slots = elim (Bool-cases (includes (at_sign ∷ []) m.text)) [
  | inl has ↦ rw has (Masks-refl slots m.text)
  | inr lacks ↦ rw lacks (
      let (c, t, e, d) = led in
      Masks-push slots m.text (plainly slots m.text c t e d (includes-LacksAt m.text lacks)))
]

Leads-rules : All (Leads no_digit) protect_rules
unfolding protect_rules
Leads-rules = (
  λ c h. ground arith,
  (
    λ c h. ground arith,
    (λ c h. ground arith, (λ c h. ground arith, ((λ c h. ground arith, λ c h. ground arith), tt))),
  ),
)

mask_rules-Masks :
    (res : List Regex) (masked : Text) (slots : List Text)
    → All (Leads no_digit) res
    → Masks slots masked (mask_rules res masked slots).0 (mask_rules res masked slots).1
unfolding mask_rules
mask_rules-Masks [] masked slots h = Masks-refl slots masked
mask_rules-Masks (re ∷ res) masked slots h =
    let next = replace_slots mask_match (pieces re masked) slots in
    Masks-trans
      (subst (λ s. Masks slots s next.0 next.1) (pieces-original re masked)
        (replace_slots-Masks mask_match (pieces re masked) slots (
          AllHits-map (Led no_digit) _ (pieces re masked) mask_match-Masks
            (pieces-AllHits re (Led no_digit) (match_at-Led no_digit re h.0) masked))))
      (mask_rules-Masks res _ _ h.1)

mask_link-Masks :
    (m : Found)
    → LinkShape m × LacksAt m.text
    → (slots : List Text) → Masks slots m.text (mask_link m slots).0 (mask_link m slots).1
unfolding mask_link push
mask_link-Masks m (shape, lacks) slots =
    let label = capture 1 m in
    let target = b']' ∷ b'(' ∷ (capture 2 m ++ b')' ∷ []) in
    let clean : LacksAt (b'[' ∷ (label ++ target)) = subst LacksAt shape lacks in
    subst (λ s. Masks slots s (mask_link m slots).0 (mask_link m slots).1) (sym shape)
      (Masks-append
        (Masks-append
          (Masks-push slots (b'[' ∷ []) (plainly slots _ b'[' [] refl refl (clean.0, tt)))
          (Masks-refl _ label))
        (Masks-push _ target
          (plainly _ target b']' _ refl refl (All-split_right _ label target clean.1))))

links-Masks :
    (body : Text)
    → LacksAt body
    → Masks [] body
        (replace_slots mask_link (pieces link_re body) []).0
        (replace_slots mask_link (pieces link_re body) []).1
links-Masks body lacks =
    let next = replace_slots mask_link (pieces link_re body) [] in
    subst (λ s. Masks [] s next.0 next.1) (pieces-original link_re body)
      (replace_slots-Masks mask_link (pieces link_re body) [] (
        AllHits-map (λ m. LinkShape m × LacksAt m.text) _ (pieces link_re body) mask_link-Masks
          (AllHits-both LinkShape (λ m. LacksAt m.text) (pieces link_re body)
            (pieces-AllHits link_re LinkShape match_at-LinkShape body)
            (AllHits-original _ (pieces link_re body)
              (subst LacksAt (sym (pieces-original link_re body)) lacks)))))

-- The prefix that is cut off, and the rest.
abbrev pub body_of : Text → Text
body_of line = drop (length (prefix_of line)) line

pub prefix_of-append : (line : Text) → prefix_of line ++ body_of line ≡ line
unfolding prefix_of prefix_re
prefix_of-append line = elim (Option-cases (exec prefix_re line)) [
  | inl e ↦ ap (λ o. matched_text o ++ drop (length (matched_text o)) line) e
  | inr (m, e) ↦
      let split = exec-append _ line m e in
      ap (λ o. matched_text o ++ drop (length (matched_text o)) line) e
      ∙ ap (λ x. m.text ++ drop (length m.text) x) split
      ∙ ap (λ x. m.text ++ x) (drop-length-append m.text m.rest)
      ∙ sym split
]

protect-Masks :
    (line : Text)
    → LacksAt (body_of line)
    → Masks [] (body_of line) (protect line).masked (protect line).slots
unfolding protect
protect-Masks line lacks =
    Masks-trans (links-Masks (body_of line) lacks) (mask_rules-Masks protect_rules _ _ Leads-rules)

abbrev verdict : List Text → Text × Seen → Restored
verdict slots r = record {
  text = r.0;
  ok = not (r.1.failed || not (length r.1.seen == length slots) || includes (at_sign ∷ []) r.0);
}

restore-Masks :
    (body masked : Text) (slots : List Text)
    → LacksAt body
    → Masks [] body masked slots
    → restore masked slots ≡ record { text = body; ok = true }
unfolding restore
restore-Masks body masked slots lacks m =
    let start : Walked = record { mode = outside; text = body; refs = [] } in
    let (w, hw, x) = m.walks outside start (walk-plain [] body lacks) in
    let size =
      length-add_all (length slots) w.refs (walk-refs slots outside masked hw)
        (λ k l. x.new k (omega arith) l) in
    let none_seen : Seen = record { seen = []; failed = false } in
    let seen = add_all w.refs [] in
    let same : (length seen == length slots) ≡ true =
      (==_iff (length seen) (length slots)).1 size in
    let clean : includes (at_sign ∷ []) w.text ≡ false =
      ap (includes (at_sign ∷ [])) x.text ∙ LacksAt-includes body lacks in
    let ok : not (not (length seen == length slots) || includes (at_sign ∷ []) w.text) ≡ true =
      rw (same, clean) refl in
    ap (verdict slots) (restore-walk slots masked none_seen w x.mode hw)
    ∙ ap (λ b. record { text = w.text; ok = b }) ok
    ∙ ap (λ t. record { text = t; ok = true }) x.text

-- A line without `@` comes back from `protect` and `restore` as it was, with `ok`.
pub restore-protect :
    (line : Text)
    → includes (at_sign ∷ []) line ≡ false
    → ((restore (protect line).masked (protect line).slots).ok ≡ true)
      × ((protect line).prefix ++ (restore (protect line).masked (protect line).slots).text ≡ line)
unfolding protect
restore-protect line h =
    let split = prefix_of-append line in
    let lacks : LacksAt (body_of line) =
      All-split_right _ (prefix_of line) (body_of line)
        (subst LacksAt (sym split) (includes-LacksAt line h)) in
    let back = restore-Masks (body_of line) _ _ lacks (protect-Masks line lacks) in
    (ap (λ (r : Restored). r.ok) back, ap (λ (r : Restored). prefix_of line ++ r.text) back ∙ split)
