-- ===== src/DocsTranslation/NavLines.antt =====
-- What `stripNavText` of scripts/translate-docs.js keeps.
use nginx_web_ui.Prelude.{
  ℕ, suc, ◌+◌, ◌≡◌, refl, ap, sym, ◌∙◌, subst, inl, inr, Bool, true, false, not, ◌&&◌, List, [],
  ◌∷◌, ◌++◌, append_assoc, append-nil, arith, Text, All, All-append, is_blank, split_lines,
  join_lines, join-split_lines, Bool-cases, if◌then◌else◌,
}
use nginx_web_ui.DocsTranslation.Nav.{
  is_nav, NavState, ends_blank, strip_line, strip_lines, nav_start, strip_nav_text,
}

abbrev pub is_content : Text → Bool
is_content l = not (is_nav l) && not (is_blank l)

-- The lines with text that are no navigation table, in order.
abbrev pub contents : List Text → List Text
contents [] = []
contents (l ∷ ls) = if is_content l then l ∷ contents ls else contents ls

abbrev pub navs : List Text → ℕ
navs [] = 0
navs (l ∷ ls) = if is_nav l then suc (navs ls) else navs ls

contents-append : (xs ys : List Text) → contents (xs ++ ys) ≡ contents xs ++ contents ys
contents-append [] ys = refl
contents-append (x ∷ xs) ys = elim (Bool-cases (is_content x)) [
  | inl e ↦ rw e (ap (λ t. x ∷ t) (contents-append xs ys))
  | inr e ↦ rw e (contents-append xs ys)
]

-- What one round does to the content, to the count and to what is free of navigation.
abbrev RoundDone : NavState → Text → NavState → Type 0
RoundDone s l t =
    (contents t.out ≡ contents s.out ++ contents (l ∷ []))
    × (t.removed ≡ s.removed + navs (l ∷ []))
    × (All (λ x. is_nav x ≡ false) s.out → All (λ x. is_nav x ≡ false) t.out)

pushed :
    (s : NavState) (l : Text) (seam : Bool)
    → is_nav l ≡ false
    → RoundDone s l (record s { out = s.out ++ l ∷ []; seam = seam })
pushed s l seam n =
    (contents-append s.out (l ∷ []), rw n (omega arith), λ h. All-append _ s.out (l ∷ []) h (n, tt))

strip_line-RoundDone : (s : NavState) (l : Text) → RoundDone s l (strip_line s l)
unfolding strip_line
strip_line-RoundDone s l = elim (Bool-cases (is_nav l)) [
  | inl nav ↦ rw nav (sym (append-nil (contents s.out)), omega arith, λ h. h)
  | inr other ↦ elim (Bool-cases (is_blank l)) [
    | inr text ↦
        let e : strip_line s l ≡ record s { out = s.out ++ l ∷ []; seam = false } =
          rw (other, text) refl in
        subst (λ t. RoundDone s l t) (sym e) (pushed s l false other)
    | inl blank ↦ elim (Bool-cases (s.seam && ends_blank s.out)) [
      | inl twice ↦
          rw (other, blank, twice) (sym (append-nil (contents s.out)), omega arith, λ h. h)
      | inr once ↦
          let e : strip_line s l ≡ record s { out = s.out ++ l ∷ [] } =
            rw (other, blank, once) refl in
          subst (λ t. RoundDone s l t) (sym e) (pushed s l s.seam other)
    ]
  ]
]

navs-cons : (l : Text) (ls : List Text) → navs (l ∷ ls) ≡ navs (l ∷ []) + navs ls
navs-cons l ls = elim (Bool-cases (is_nav l)) [
  | inl e ↦ rw e (omega arith)
  | inr e ↦ rw e (omega arith)
]

contents-step :
    (s t : NavState) (l : Text) (ls : List Text)
    → contents t.out ≡ contents s.out ++ contents (l ∷ [])
    → contents t.out ++ contents ls ≡ contents s.out ++ contents (l ∷ ls)
contents-step s t l ls h =
    ap (λ x. x ++ contents ls) h
    ∙ append_assoc (contents s.out) (contents (l ∷ [])) (contents ls)
    ∙ ap (λ x. contents s.out ++ x) (sym (contents-append (l ∷ []) ls))

abbrev Rounds : NavState → List Text → NavState → Type 0
Rounds s ls t =
    (contents t.out ≡ contents s.out ++ contents ls)
    × (t.removed ≡ s.removed + navs ls)
    × (All (λ x. is_nav x ≡ false) s.out → All (λ x. is_nav x ≡ false) t.out)

strip_lines-Rounds : (s : NavState) (ls : List Text) → Rounds s ls (strip_lines s ls)
unfolding strip_lines
strip_lines-Rounds s [] = (sym (append-nil (contents s.out)), omega arith, λ h. h)
strip_lines-Rounds s (l ∷ ls) =
    let (c₁, n₁, a₁) = strip_line-RoundDone s l in
    let (c₂, n₂, a₂) = strip_lines-Rounds (strip_line s l) ls in
    (
      c₂ ∙ contents-step s (strip_line s l) l ls c₁,
      omega (arith, n₁, n₂, navs-cons l ls),
      λ h. a₂ (a₁ h),
    )

-- Of the lines, those with text that are no navigation table stay, in order; no navigation table
-- stays; and the count is that of the navigation tables.
pub strip_lines-contents :
    (lines : List Text)
    → (contents (strip_lines nav_start lines).out ≡ contents lines)
      × (All (λ x. is_nav x ≡ false) (strip_lines nav_start lines).out)
      × ((strip_lines nav_start lines).removed ≡ navs lines)
strip_lines-contents lines =
    let (c, n, a) = strip_lines-Rounds nav_start lines in (c, a tt, omega (arith, n))

navs_nav : (l : Text) (ls : List Text) → is_nav l ≡ true → navs (l ∷ ls) ≡ suc (navs ls)
navs_nav l ls h = rw h refl

navs_other : (l : Text) (ls : List Text) → is_nav l ≡ false → navs (l ∷ ls) ≡ navs ls
navs_other l ls h = rw h refl

-- Without a navigation table, the loop copies the lines.
strip_lines-copies :
    (s : NavState) (ls : List Text)
    → navs ls ≡ 0
    → s.seam ≡ false
    → (strip_lines s ls).out ≡ s.out ++ ls
unfolding strip_lines strip_line
strip_lines-copies s [] n h = sym (append-nil s.out)
strip_lines-copies s (l ∷ ls) n h = elim (Bool-cases (is_nav l)) [
  | inl nav ↦ absurd (omega (arith, navs_nav l ls nav))
  | inr other ↦
      let rest : navs ls ≡ 0 = sym (navs_other l ls other) ∙ n in
      elim (Bool-cases (is_blank l)) [
        | inr text ↦
            let e : strip_line s l ≡ record s { out = s.out ++ l ∷ []; seam = false } =
              rw (other, text) refl in
            ap (λ (t : NavState). (strip_lines t ls).out) e
            ∙ strip_lines-copies (record s { out = s.out ++ l ∷ []; seam = false }) ls rest refl
            ∙ append_assoc s.out (l ∷ []) ls
        | inl blank ↦
            let e : strip_line s l ≡ record s { out = s.out ++ l ∷ [] } =
              rw (other, blank, h) refl in
            ap (λ (t : NavState). (strip_lines t ls).out) e
            ∙ strip_lines-copies (record s { out = s.out ++ l ∷ [] }) ls rest h
            ∙ append_assoc s.out (l ∷ []) ls
      ]
]

-- A text without a navigation table is not changed.
pub strip_nav_text-same :
    (text : Text) → (strip_nav_text text).removed ≡ 0 → (strip_nav_text text).text ≡ text
unfolding strip_nav_text
strip_nav_text-same text h =
    let (c, a, n) = strip_lines-contents (split_lines text) in
    ap join_lines (strip_lines-copies nav_start (split_lines text) (sym n ∙ h) refl)
    ∙ join-split_lines text
