-- ===== src/DocsTranslation/Kept.antt =====
-- What the loop over the results in `translateFile` of scripts/translate-docs.js does to the lines,
-- whatever the engine answers.
use nginx_web_ui.Prelude.{
  ℕ, zero, suc, ◌≡◌, refl, ap, sym, ◌∙◌, ◌⊎◌, inl, inr, Bool, true, false, not, List, [], ◌∷◌, ◌++◌,
  Option, none, some, arith, Text, All, All-append, any, length, get_elem?, ◌==◌, ==_iff,
  Bool-cases,
}
use mathlib.Core.Option.{some-injective}
use nginx_web_ui.DocsTranslation.Protect.{protect, has_substance, restore}
use nginx_web_ui.DocsTranslation.Safety.{Profile, line_is_safe}
use nginx_web_ui.DocsTranslation.TranslateFile.{
  Prepared, assign, prepared_at, prepare, Tally, apply_text, apply_result, apply_results, Translate,
  start_tally, translate_prepared,
}

abbrev pub is_target : ℕ → List ℕ → Bool
is_target i targets = any (λ j. j == i) targets

-- The line is as it was, or it was a target and the new one passes the check of lines.
abbrev pub SafeChange : Profile → List ℕ → ℕ → Text → Text → Type 0
SafeChange profile targets i l l' =
    (l' ≡ l) ⊎ ((is_target i targets ≡ true) × (line_is_safe l l' profile ≡ true))

abbrev pub SafelyAt : Profile → List ℕ → List Text → ℕ → Text → Type 0
SafelyAt profile targets new i l =
    (l' : Text) × (get_elem? new i ≡ some l') × SafeChange profile targets i l l'

-- As many lines, each changed safely or not at all.
abbrev pub Safely : Profile → List ℕ → List Text → List Text → Type 0
Safely profile targets old new =
    (length new ≡ length old)
    × ((i : ℕ) (l : Text) → get_elem? old i ≡ some l → SafelyAt profile targets new i l)

-- A prepared line is a target, and it is the line of that number.
abbrev pub Stands : List Text → List ℕ → Prepared → Type 0
Stands lines targets p =
    (get_elem? lines p.line ≡ some p.before) × (is_target p.line targets ≡ true)

length-assign :
    (xs : List Text) (i : ℕ) (v x : Text)
    → get_elem? xs i ≡ some x
    → length (assign xs i v) ≡ length xs
unfolding assign
length-assign [] i v x h = cc
length-assign (y ∷ xs) zero v x h = refl
length-assign (y ∷ xs) (suc i) v x h = ap suc (length-assign xs i v x h)

get_elem?-assign_same :
    (xs : List Text) (i : ℕ) (v x : Text)
    → get_elem? xs i ≡ some x
    → get_elem? (assign xs i v) i ≡ some v
unfolding assign
get_elem?-assign_same [] i v x h = cc
get_elem?-assign_same (y ∷ xs) zero v x h = refl
get_elem?-assign_same (y ∷ xs) (suc i) v x h = get_elem?-assign_same xs i v x h

get_elem?-assign_other :
    (xs : List Text) (i j : ℕ) (v x : Text)
    → get_elem? xs i ≡ some x
    → (i == j) ≡ false
    → get_elem? (assign xs i v) j ≡ get_elem? xs j
unfolding assign
get_elem?-assign_other [] i j v x h other = cc
get_elem?-assign_other (y ∷ xs) zero zero v x h other = cc
get_elem?-assign_other (y ∷ xs) zero (suc j) v x h other = refl
get_elem?-assign_other (y ∷ xs) (suc i) zero v x h other = refl
get_elem?-assign_other (y ∷ xs) (suc i) (suc j) v x h other =
    get_elem?-assign_other xs i j v x h (ground arith)

Safely-refl :
    (profile : Profile) (targets : List ℕ) (lines : List Text) → Safely profile targets lines lines
Safely-refl profile targets lines = (refl, λ i l h. (l, h, inl refl))

-- A safe line written at a target's place.
Safely-assign :
    (profile : Profile) (targets : List ℕ) (old new : List Text) (p : Prepared) (line : Text)
    → Stands old targets p
    → line_is_safe p.before line profile ≡ true
    → Safely profile targets old new
    → Safely profile targets old (assign new p.line line)
Safely-assign profile targets old new p line (stands, target) safe (len, at_) =
    let (now, in_range, kept) = at_ p.line p.before stands in
    (
      length-assign new p.line line now in_range ∙ len,
      λ i l h. elim (Bool-cases (p.line == i)) [
        | inl same ↦
            let e : p.line ≡ i = (==_iff p.line i).0 same in
            let before : p.before ≡ l =
              some-injective _ _ (sym stands ∙ ap (get_elem? old) e ∙ h) in
            (
              line,
              ap (λ k. get_elem? (assign new p.line line) k) (sym e)
                  ∙ get_elem?-assign_same new p.line line now in_range,
              inr (
                ap (λ k. is_target k targets) (sym e) ∙ target,
                ap (λ b. line_is_safe b line profile) (sym before) ∙ safe,
              ),
            )
        | inr other ↦
            let (l', here, was) = at_ i l h in
            (l', get_elem?-assign_other new p.line i line now in_range other ∙ here, was)
      ],
    )

apply_text-Safely :
    (profile : Profile) (targets : List ℕ) (old : List Text) (p : Prepared) (out : Text) (t : Tally)
    → Stands old targets p
    → Safely profile targets old t.lines
    → Safely profile targets old (apply_text profile p out t).lines
unfolding apply_text
apply_text-Safely profile targets old p out t stands kept =
    let back = restore out p.guard.slots in
    elim (Bool-cases (not back.ok)) [
      | inl bad ↦ rw bad kept
      | inr good ↦ elim (Bool-cases (line_is_safe p.before (p.guard.prefix ++ back.text) profile)) [
        | inl safe ↦
            rw (good, safe) (Safely-assign profile targets old t.lines p _ stands safe kept)
        | inr unsafe ↦ rw (good, unsafe) kept
      ]
    ]

apply_result-Safely :
    (profile : Profile) (targets : List ℕ) (old : List Text) (p : Prepared) (r : Option Text)
    (t : Tally)
    → Stands old targets p
    → Safely profile targets old t.lines
    → Safely profile targets old (apply_result profile p r t).lines
unfolding apply_result
apply_result-Safely profile targets old p none t stands kept = kept
apply_result-Safely profile targets old p (some []) t stands kept = kept
apply_result-Safely profile targets old p (some (c ∷ out)) t stands kept =
    apply_text-Safely profile targets old p (c ∷ out) t stands kept

apply_results-Safely :
    (profile : Profile) (targets : List ℕ) (old : List Text) (ps : List Prepared)
    (rs : List (Option Text)) (t : Tally)
    → All (Stands old targets) ps
    → Safely profile targets old t.lines
    → Safely profile targets old (apply_results profile ps rs t).lines
unfolding apply_results
apply_results-Safely profile targets old [] rs t h kept = kept
apply_results-Safely profile targets old (p ∷ ps) [] t h kept = kept
apply_results-Safely profile targets old (p ∷ ps) (r ∷ rs) t h kept =
    apply_results-Safely profile targets old ps rs (apply_result profile p r t) h.1
      (apply_result-Safely profile targets old p r t h.0 kept)

prepared_at-Stands :
    (lines : List Text) (targets : List ℕ) (i : ℕ) (o : Option Text)
    → get_elem? lines i ≡ o
    → is_target i targets ≡ true
    → All (Stands lines targets) (prepared_at i o)
prepared_at-Stands lines targets i none h m = tt
prepared_at-Stands lines targets i (some l) h m =
    elim (Bool-cases (has_substance (protect l).masked)) [
      | inl much ↦ rw much ((h, m), tt)
      | inr little ↦ rw little tt
    ]

prepare-Stands :
    (lines : List Text) (targets is_ : List ℕ)
    → All (λ i. is_target i targets ≡ true) is_
    → All (Stands lines targets) (prepare lines is_)
unfolding prepare
prepare-Stands lines targets [] h = tt
prepare-Stands lines targets (i ∷ is_) h =
    All-append _ (prepared_at i (get_elem? lines i)) (prepare lines is_)
      (prepared_at-Stands lines targets i (get_elem? lines i) refl h.0)
      (prepare-Stands lines targets is_ h.1)

is_target-more :
    (x : ℕ) (targets is_ : List ℕ)
    → All (λ i. is_target i targets ≡ true) is_
    → All (λ i. is_target i (x ∷ targets) ≡ true) is_
is_target-more x targets [] h = tt
is_target-more x targets (i ∷ is_) h = (ground (arith, h.0), is_target-more x targets is_ h.1)

is_target-own : (targets : List ℕ) → All (λ i. is_target i targets ≡ true) targets
is_target-own [] = tt
is_target-own (x ∷ xs) = (ground arith, is_target-more x xs xs (is_target-own xs))

pub translate_prepared-Safely :
    (profile : Profile) (engine : Translate) (lines : List Text) (targets : List ℕ)
    → Safely profile targets lines
        (translate_prepared profile engine lines (prepare lines targets)).lines
unfolding translate_prepared start_tally
translate_prepared-Safely profile engine lines targets =
    apply_results-Safely profile targets lines (prepare lines targets) _ (start_tally lines)
      (prepare-Stands lines targets targets (is_target-own targets))
      (Safely-refl profile targets lines)

-- Whatever the engine answers, the loop of `translateFile` keeps the number of entries of the array of lines.
pub length-translate_prepared :
    (profile : Profile) (engine : Translate) (lines : List Text) (targets : List ℕ)
    → length (translate_prepared profile engine lines (prepare lines targets)).lines ≡ length lines
length-translate_prepared profile engine lines targets =
    (translate_prepared-Safely profile engine lines targets).0
