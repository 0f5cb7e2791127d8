-- ===== src/FenceBlocks/Nesting.antt =====
-- The lines of a page as blocks between fences, for `fenceScan` of scripts/fence-code-blocks.js.
use nginx_web_ui.Prelude.{
  ℕ, zero, suc, ◌≤◌, ◌≡◌, refl, sym, subst, ◌∙◌, inl, inr, Bool, true, false, ◌&&◌, List, [], ◌∷◌,
  ◌++◌, none, some, arith, All, Text, length, replicate, leb, ltb, is_blank, Bool-cases,
  Option-cases,
}
use mathlib.Core.Option.{some-injective}
use nginx_web_ui.Regex.{Found, exec, capture}
use nginx_web_ui.FenceBlocks.Patterns.{fence_re}
use nginx_web_ui.FenceBlocks.Scan.{
  LineState, outside, marker, inside, scan_match, scan_line, scan_from, fence_scan,
}

-- A line that is no fence, and a fence of `n` backticks.
abbrev pub Plain : Text → Type 0
Plain l = exec fence_re l ≡ none

abbrev pub Fence : ℕ → Text → Type 0
Fence n l = (m : Found) × (exec fence_re l ≡ some m) × (length (capture 1 m) ≡ n)

-- A fence of `n` backticks or more, with nothing behind them.
abbrev pub Closes : ℕ → Text → Type 0
Closes n l =
    (m : Found) × (exec fence_re l ≡ some m)
    × (n ≤ length (capture 1 m))
    × (is_blank (capture 2 m) ≡ true)

-- The lines of a block: none of them closes its fence.
abbrev pub Body : ℕ → List Text → Type 0
Body n ls = All (λ l. ¬ Closes n l) ls

-- Lines, what each is, and whether a fence is left open. A page is plain lines and blocks: a fence, a body, and the
-- first line that closes the fence, or the end of the page. A fence without backticks, which opens nothing, is
-- there since the pattern is not looked into.
pub data Fenced : List Text → List LineState → Bool → Type 0 where
  no_lines : Fenced [] [] false
  plain :
      (l : Text) (ls : List Text) (sts : List LineState) (u : Bool)
      → Plain l
      → Fenced ls sts u
      → Fenced (l ∷ ls) (outside ∷ sts) u
  bare :
      (l : Text) (ls : List Text) (sts : List LineState) (u : Bool)
      → Fence 0 l
      → Fenced ls sts u
      → Fenced (l ∷ ls) (marker ∷ sts) u
  block :
      (n : ℕ) (l c : Text) (body ls : List Text) (sts : List LineState) (u : Bool)
      → Fence n l
      → Body n body
      → Closes n c
      → Fenced ls sts u
      → Fenced (l ∷ (body ++ c ∷ ls)) (marker ∷ (replicate (length body) inside ++ marker ∷ sts)) u
  left_open :
      (n : ℕ) (l : Text) (body : List Text)
      → Fence n l
      → Body n body
      → Fenced (l ∷ body) (marker ∷ replicate (length body) inside) true

-- What is behind a fence of `n` backticks.
data Behind (n : ℕ) : List Text → List LineState → Bool → Type 0 where
  ends : (body : List Text) → Body n body → Behind n body (replicate (length body) inside) true
  closed :
      (c : Text) (body ls : List Text) (sts : List LineState) (u : Bool)
      → Body n body
      → Closes n c
      → Fenced ls sts u
      → Behind n (body ++ c ∷ ls) (replicate (length body) inside ++ marker ∷ sts) u

Behind-Fenced :
    (n : ℕ) (l : Text) (ls : List Text) (sts : List LineState) (u : Bool)
    → Fence n l
    → Behind n ls sts u
    → Fenced (l ∷ ls) (marker ∷ sts) u
Behind-Fenced n l _ _ _ fence (ends body none_) = left_open n l body fence none_
Behind-Fenced n l _ _ _ fence (closed c body ls sts u none_ closes rest) =
    block n l c body ls sts u fence none_ closes rest

Behind-line :
    (n : ℕ) (l : Text) (ls : List Text) (sts : List LineState) (u : Bool)
    → ¬ Closes n l
    → Behind n ls sts u
    → Behind n (l ∷ ls) (inside ∷ sts) u
Behind-line n l _ _ _ stays (ends body none_) = ends (l ∷ body) (stays, none_)
Behind-line n l _ _ _ stays (closed c body ls sts u none_ closes rest) =
    closed c (l ∷ body) ls sts u (stays, none_) closes rest

-- The fence of a line decides whether it closes.
Closes-none : (n : ℕ) (l : Text) → exec fence_re l ≡ none → ¬ Closes n l
Closes-none n l h (m, found, long, blank) = cc

Closes-some :
    (n : ℕ) (l : Text) (m : Found)
    → exec fence_re l ≡ some m
    → (leb n (length (capture 1 m)) && is_blank (capture 2 m)) ≡ false
    → ¬ Closes n l
Closes-some n l m h short (m', found, long, blank) =
    let same : m' ≡ m = some-injective _ _ (sym found ∙ h) in
    let l1 : n ≤ length (capture 1 m) = subst (λ x. n ≤ length (capture 1 x)) same long in
    let b1 : is_blank (capture 2 m) ≡ true =
      subst (λ x. is_blank (capture 2 x) ≡ true) same blank in
    ground (arith, short, l1, b1)

-- What the scan gives with the fence that is open.
abbrev Scanned : ℕ → List Text → Type 0
Scanned zero ls = Fenced ls (scan_from 0 ls).0 (ltb 0 (scan_from 0 ls).1)
Scanned (suc o) ls = Behind (suc o) ls (scan_from (suc o) ls).0 (ltb 0 (scan_from (suc o) ls).1)

opened :
    (l : Text) (ls : List Text) (n : ℕ)
    → Fence n l
    → Scanned n ls
    → Fenced (l ∷ ls) (marker ∷ (scan_from n ls).0) (ltb 0 (scan_from n ls).1)
opened l ls zero fence rest = bare l ls _ _ fence rest
opened l ls (suc o) fence rest = Behind-Fenced (suc o) l ls _ _ fence rest

scan_from-Scanned : (open_ : ℕ) (ls : List Text) → Scanned open_ ls
unfolding scan_from scan_line scan_match
scan_from-Scanned zero [] = no_lines
scan_from-Scanned (suc o) [] =
    let open_ : ltb 0 (suc o) ≡ true = ground arith in
    subst (λ u. Behind (suc o) [] [] u) (sym open_) (ends [] tt)
scan_from-Scanned zero (l ∷ ls) = elim (Option-cases (exec fence_re l)) [
  | inl plain_ ↦ rw plain_ (plain l ls _ _ plain_ (scan_from-Scanned 0 ls))
  | inr (m, found) ↦ rw found (
      opened l ls (length (capture 1 m)) (m, found, refl)
        (scan_from-Scanned (length (capture 1 m)) ls))
]
scan_from-Scanned (suc o) (l ∷ ls) = elim (Option-cases (exec fence_re l)) [
  | inl plain_ ↦
      rw plain_
        (Behind-line (suc o) l ls _ _ (Closes-none (suc o) l plain_) (scan_from-Scanned (suc o) ls))
  | inr (m, found) ↦
      elim (Bool-cases (leb (suc o) (length (capture 1 m)) && is_blank (capture 2 m))) [
        | inl closing ↦
            rw (found, closing)
              (closed l [] ls _ _ tt (m, found, ground (arith, closing), ground (arith, closing))
                (scan_from-Scanned 0 ls))
        | inr short ↦
            rw (found, short)
              (Behind-line (suc o) l ls _ _ (Closes-some (suc o) l m found short)
                (scan_from-Scanned (suc o) ls))
      ]
]

-- `fenceScan` reads a page as plain lines and blocks: behind a fence of `n` backticks every line is inside, other
-- fences too, up to the first that has at least `n` backticks and nothing behind them; and a fence is left open
-- exactly where there is no such line up to the end.
pub fence_scan-Fenced :
    (lines : List Text) → Fenced lines (fence_scan lines).states (fence_scan lines).unclosed
unfolding fence_scan
fence_scan-Fenced lines = scan_from-Scanned 0 lines
