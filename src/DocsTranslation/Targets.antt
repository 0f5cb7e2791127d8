-- ===== src/DocsTranslation/Targets.antt =====
-- The targets of `collectTargets` of scripts/translate-docs.js and the fences of a page.
use nginx_web_ui.Prelude.{
  ℕ, suc, ◌+◌, ◌≡◌, refl, ap, subst, inl, inr, Bool, true, ◌&&◌, List, [], ◌∷◌, some, ◌⊎◌, arith,
  Text, get_elem?, ◌==◌, ==_iff, Bool-cases,
}
use nginx_web_ui.FenceBlocks.Scan.{LineState, outside, marker, inside, fence_scan}
use nginx_web_ui.DocsTranslation.Lines.{
  is_translatable, is_outside_state, targets_from, collect_targets,
}
use nginx_web_ui.DocsTranslation.Safety.{Profile, line_is_safe}
use nginx_web_ui.DocsTranslation.TranslateFile.{prepare, Translate, translate_prepared}
use nginx_web_ui.DocsTranslation.Kept.{is_target, translate_prepared-Safely}

-- The line of that number is outside every fence, and may be translated.
abbrev pub Free : List LineState → List Text → ℕ → Type 0
Free sts ls j =
    (get_elem? sts j ≡ some outside)
    × ((l : Text) × (get_elem? ls j ≡ some l) × (is_translatable l ≡ true))

outside-state : (st : LineState) → is_outside_state st ≡ true → st ≡ outside
outside-state outside h = refl
outside-state marker h = cc
outside-state inside h = cc

and-left : (a b : Bool) → (a && b) ≡ true → a ≡ true
and-left a b h = ground arith

and-right : (a b : Bool) → (a && b) ≡ true → b ≡ true
and-right a b h = ground arith

targets_from-Free :
    (i : ℕ) (sts : List LineState) (ls : List Text) (k : ℕ)
    → is_target k (targets_from i sts ls) ≡ true
    → (j : ℕ) × (k ≡ i + j) × Free sts ls j
unfolding targets_from
targets_from-Free i [] ls k h = cc
targets_from-Free i (st ∷ sts) [] k h = cc
targets_from-Free i (st ∷ sts) (l ∷ ls) k h =
    let later = λ (rest : is_target k (targets_from (i + 1) sts ls) ≡ true).
      let (j, e, free) = targets_from-Free (i + 1) sts ls k rest in
      let shifted : k ≡ i + suc j = omega arith in
      let found : (m : ℕ) × (k ≡ i + m) × Free (st ∷ sts) (l ∷ ls) m = (suc j, shifted, free) in
      found in
    elim (Bool-cases (is_outside_state st && is_translatable l)) [
      | inr other ↦ later (rw other at h)
      | inl taken ↦ elim (Bool-cases (i == k)) [
        | inl here ↦
            let same : i ≡ k = (==_iff i k).0 here in
            (
              0,
              omega arith,
              (ap some (outside-state st (and-left _ _ taken)), (l, refl, and-right _ _ taken)),
            )
        | inr there ↦ later (rw (taken, there) at h)
      ]
    ]

-- A target is a line outside every fence that may be translated.
pub collect_targets-Free :
    (lines : List Text) (k : ℕ)
    → is_target k (collect_targets lines) ≡ true
    → Free (fence_scan lines).states lines k
unfolding collect_targets
collect_targets-Free lines k h =
    let (j, e, free) = targets_from-Free 0 (fence_scan lines).states lines k h in
    subst (λ m. Free (fence_scan lines).states lines m) (omega arith) free

-- The line of that number after the translation, for one that was `l`.
abbrev pub ChangedFree : Profile → List Text → List Text → ℕ → Text → Type 0
ChangedFree profile old new i l =
    (l' : Text) × (get_elem? new i ≡ some l')
    × ((l' ≡ l) ⊎ (Free (fence_scan old).states old i × (line_is_safe l l' profile ≡ true)))

-- Whatever the engine answers, each line of a file stays as it was, or it is outside every fence and
-- may be translated, and the new line passes `lineIsSafe` against the old one.
pub translate_prepared-fences :
    (profile : Profile) (engine : Translate) (lines : List Text) (i : ℕ) (l : Text)
    → get_elem? lines i ≡ some l
    → ChangedFree profile lines
        (translate_prepared profile engine lines (prepare lines (collect_targets lines))).lines
        i
        l
translate_prepared-fences profile engine lines i l old =
    let (len, at_) = translate_prepared-Safely profile engine lines (collect_targets lines) in
    let (l', here, change) = at_ i l old in
    (
      l',
      here,
      elim change [
        | inl kept ↦ inl kept
        | inr (target, safe) ↦ inr (collect_targets-Free lines i target, safe)
      ],
    )
