-- ===== src/DocsTranslation/Lines.antt =====
-- `isTranslatable` and `collectTargets` of scripts/translate-docs.js.
use nginx_web_ui.Prelude.{
  ℕ, ◌+◌, Bool, true, false, not, ◌&&◌, ◌||◌, List, [], ◌∷◌, Text, codes, text_eq, starts_with,
  trim, if◌then◌else◌,
}
use nginx_web_ui.Regex.{test}
use nginx_web_ui.FenceBlocks.Scan.{LineState, outside, marker, inside, fence_scan}
use nginx_web_ui.DocsTranslation.Patterns.{
  cjk_re, codeish_re, rule_re, page_re, html_re, letters2_re, only_link_re,
}

abbrev is_nil : Text → Bool
is_nil [] = true
is_nil (c ∷ s) = false

-- The tests of `isTranslatable` on the trimmed line, in order.
unfoldable pub is_translatable_text : Text → Bool
is_translatable_text t =
    if is_nil t
    then false
    else if starts_with (codes "```") t || starts_with (codes "~~~") t
    then false
    else if text_eq t (codes "---") || test rule_re t
    then false
    else if test page_re t
    then false
    else if starts_with (codes "|") t
    then false
    else if test html_re t
    then false
    else if starts_with (codes ">") t && (starts_with (codes "> Source:") t || test codeish_re t)
    then false
    else if test cjk_re t
    then false
    else if not (test letters2_re t)
    then false
    else if test only_link_re t
    then false
    else true

unfoldable pub is_translatable : Text → Bool
unfolding is_translatable_text
is_translatable line = is_translatable_text (trim line)

abbrev pub is_outside_state : LineState → Bool
is_outside_state outside = true
is_outside_state marker = false
is_outside_state inside = false

unfoldable pub targets_from : ℕ → List LineState → List Text → List ℕ
targets_from i [] ls = []
targets_from i (st ∷ sts) [] = []
targets_from i (st ∷ sts) (l ∷ ls) =
    if is_outside_state st && is_translatable l
    then i ∷ targets_from (i + 1) sts ls
    else targets_from (i + 1) sts ls

unfoldable pub collect_targets : List Text → List ℕ
unfolding targets_from
collect_targets lines = targets_from 0 (fence_scan lines).states lines
