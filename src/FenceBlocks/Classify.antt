-- ===== src/FenceBlocks/Classify.antt =====
-- `isCodeBlock` and `detectLanguage` of scripts/fence-code-blocks.js.
use nginx_web_ui.Prelude.{
  Bool, true, false, not, ◌&&◌, List, [], ◌∷◌, Text, codes, trim, is_blank, any, join_lines,
  if◌then◌else◌,
}
use nginx_web_ui.Regex.{test}
use nginx_web_ui.FenceBlocks.Patterns.{
  nested_re, code_signals, prose_end_re, hunk_re, include_re, c_re, javascript_re, json_start,
  json_key, bash_re, nginx_directives, nginx_end,
}
use nginx_web_ui.FenceBlocks.Blocks.{body_lines}

abbrev at_nil : List Text → Bool
at_nil [] = true
at_nil (l ∷ ls) = false

-- `bodies[0] || ''`
abbrev first_line : List Text → Text
first_line [] = []
first_line (l ∷ ls) = l

-- `.filter((s) => s.trim())`
unfoldable pub with_text : List Text → List Text
with_text [] = []
with_text (l ∷ ls) = if is_blank l then with_text ls else l ∷ with_text ls

unfoldable pub has_code_signal : List Text → Bool
has_code_signal bodies = any (λ b. any (λ re. test re (trim b)) code_signals) bodies

unfoldable pub is_code_block : List Text → Bool
unfolding with_text has_code_signal body_lines
is_code_block lines =
    let has_nested = any (test nested_re) lines in
    let bodies = with_text (body_lines lines) in
    if at_nil bodies
    then false
    else if has_nested
    then has_code_signal bodies
    else if has_code_signal bodies
    then true
    else not (any (test prose_end_re) bodies)

unfoldable pub detect_language : List Text → Text
unfolding with_text body_lines
detect_language lines =
    let bodies = with_text (body_lines lines) in
    let joined = join_lines bodies in
    if any (λ b. test hunk_re (trim b)) bodies
    then codes "diff"
    else if any (λ b. test include_re (trim b)) bodies
    then codes "c"
    else if test c_re joined
    then codes "c"
    else if test javascript_re joined
    then codes "javascript"
    else if test json_start (first_line bodies) && test json_key joined
    then codes "json"
    else if any (λ b. test bash_re (trim b)) bodies
    then codes "bash"
    else if any (λ b. test nginx_directives (trim b)) bodies
    then codes "nginx"
    else if any (λ b. test nginx_end (trim b)) bodies
    then codes "nginx"
    else []
