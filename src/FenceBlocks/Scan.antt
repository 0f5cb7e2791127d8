-- ===== src/FenceBlocks/Scan.antt =====
-- `fenceScan` and `contentFingerprint` of scripts/fence-code-blocks.js.
use nginx_web_ui.Prelude.{
  ℕ, zero, suc, Bool, ◌&&◌, List, [], ◌∷◌, ◌++◌, Option, none, some, Text, length, leb, ltb,
  is_blank, split_lines, join_lines, if◌then◌else◌,
}
use nginx_web_ui.Regex.{Found, exec, capture, replace_first, replace_all}
use nginx_web_ui.FenceBlocks.Patterns.{fence_re, fp_quote_re, fp_escape_re, spaces_re}

-- A line and the fences: `''`, `'marker'` and `'in'`.
pub data LineState : Type 0 where
  outside marker inside : LineState

-- One round: `open` is the number of backticks of the open fence, 0 for none.
unfoldable pub scan_match : ℕ → Option Found → LineState × ℕ
scan_match zero none = (outside, 0)
scan_match zero (some m) = (marker, length (capture 1 m))
scan_match (suc o) none = (inside, suc o)
scan_match (suc o) (some m) =
    if leb (suc o) (length (capture 1 m)) && is_blank (capture 2 m)
    then (marker, 0)
    else (inside, suc o)

unfoldable pub scan_line : ℕ → Text → LineState × ℕ
unfolding scan_match
scan_line open_ l = scan_match open_ (exec fence_re l)

unfoldable pub scan_from : ℕ → List Text → List LineState × ℕ
unfolding scan_line
scan_from open_ [] = ([], open_)
scan_from open_ (l ∷ ls) =
    let (st, next) = scan_line open_ l in let (sts, last) = scan_from next ls in (st ∷ sts, last)

pub record FenceScan : Type 0 where
  pub states : List LineState
  pub unclosed : Bool

unfoldable pub fence_scan : List Text → FenceScan
unfolding scan_from
fence_scan lines =
    let (states, open_) = scan_from 0 lines in record { states = states; unclosed = ltb 0 open_ }

-- What a line adds to the fingerprint before the white space goes.
unfoldable pub fingerprint_line : LineState → Text → List Text
fingerprint_line marker l = []
fingerprint_line inside l = l ∷ []
fingerprint_line outside l =
    replace_all fp_escape_re (capture 1) (replace_first fp_quote_re (λ m. []) l) ∷ []

unfoldable pub fingerprint_lines : List LineState → List Text → List Text
unfolding fingerprint_line
fingerprint_lines [] ls = []
fingerprint_lines (st ∷ sts) [] = []
fingerprint_lines (st ∷ sts) (l ∷ ls) = fingerprint_line st l ++ fingerprint_lines sts ls

-- `.replace(/\s+/g, '')`
unfoldable pub squeeze : Text → Text
squeeze t = replace_all spaces_re (λ m. []) t

unfoldable pub content_fingerprint : Text → Text
unfolding fence_scan fingerprint_lines squeeze
content_fingerprint text =
    let lines = split_lines text in
    squeeze (join_lines (fingerprint_lines (fence_scan lines).states lines))
