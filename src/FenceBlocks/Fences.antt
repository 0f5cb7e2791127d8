-- ===== src/FenceBlocks/Fences.antt =====
-- `firstDiff` of scripts/fence-code-blocks.js on whole lists of lines.
use mathlib.Core.Option.{some-injective}
use nginx_web_ui.Prelude.{
  ℕ, suc, ◌+◌, ◌≡◌, refl, ap, ◌∙◌, inl, inr, true, false, List, [], ◌∷◌, Option, none, some, arith,
  Text, text_eq, text_eq_refl, get_elem?, take, Bool-cases, ◌≢◌,
}
use nginx_web_ui.FenceBlocks.Cli.{first_diff, first_diff_from}

text_eq-same : (s t : Text) → text_eq s t ≡ true → s ≡ t
text_eq-same [] [] h = refl
text_eq-same [] (b ∷ t) h = cc
text_eq-same (a ∷ s) [] h = cc
text_eq-same (a ∷ s) (b ∷ t) h =
    let head : a ≡ b = ground arith in
    let tail : text_eq s t ≡ true = ground arith in
    ap (λ x. x ∷ s) head ∙ ap (λ x. b ∷ x) (text_eq-same s t tail)

-- The lines before the answer agree, and the lines there do not.
abbrev pub Differs : List Text → List Text → ℕ → Type 0
Differs before after j = (take j before ≡ take j after) × (get_elem? before j ≢ get_elem? after j)

abbrev pub Answer : List Text → List Text → ℕ → Option ℕ → Type 0
Answer before after i none = before ≡ after
Answer before after i (some k) = (j : ℕ) × (k ≡ i + j) × Differs before after j

Answer-cons :
    (a b : Text) (as_ bs : List Text) (i : ℕ) (o : Option ℕ)
    → a ≡ b
    → Answer as_ bs (i + 1) o
    → Answer (a ∷ as_) (b ∷ bs) i o
Answer-cons a b as_ bs i none e h = ap (λ x. x ∷ as_) e ∙ ap (λ x. b ∷ x) h
Answer-cons a b as_ bs i (some k) e (j, n, (same, other)) =
    (suc j, omega arith, (ap (λ x. x ∷ take j as_) e ∙ ap (λ x. b ∷ x) same, other))

text_eq-not : (a b : Text) → text_eq a b ≡ false → a ≢ b
text_eq-not a b h e = cc (text_eq_refl a, ap (text_eq a) e)

first_diff_from-Answer :
    (i : ℕ) (before after : List Text) → Answer before after i (first_diff_from i before after)
unfolding first_diff_from
first_diff_from-Answer i [] [] = refl
first_diff_from-Answer i [] (b ∷ bs) = (0, omega arith, (refl, λ e. cc))
first_diff_from-Answer i (a ∷ as_) [] = (0, omega arith, (refl, λ e. cc))
first_diff_from-Answer i (a ∷ as_) (b ∷ bs) = elim (Bool-cases (text_eq a b)) [
  | inl same ↦
      rw same
        (Answer-cons a b as_ bs i _ (text_eq-same a b same) (first_diff_from-Answer (i + 1) as_ bs))
  | inr other ↦ rw other (0, omega arith, (refl, λ e. text_eq-not a b other (some-injective _ _ e)))
]

-- `firstDiff` finds no difference only in equal lists; else the lines before the index that it gives
-- agree, and the lines at it differ, where one of them may be missing.
pub first_diff-Answer : (before after : List Text) → Answer before after 0 (first_diff before after)
unfolding first_diff
first_diff-Answer before after = first_diff_from-Answer 0 before after
