-- ===== src/FenceBlocks/Render.antt =====
-- `fenceMarker`, `toFence`, `reindent` and `blockIndent` of scripts/fence-code-blocks.js.
use nginx_web_ui.Prelude.{
  List, [], ◌∷◌, ◌++◌, map, Option, none, some, Text, codes, any, all, text_eq, includes, is_blank,
  if◌then◌else◌,
}
use nginx_web_ui.Regex.{exec, capture}
use nginx_web_ui.FenceBlocks.Patterns.{indent_re}
use nginx_web_ui.FenceBlocks.Blocks.{strip_quote, body_lines}

abbrev pub ticks3 : Text
ticks3 = codes "```"

abbrev pub ticks4 : Text
ticks4 = codes "````"

unfoldable pub fence_marker : List Text → Text
fence_marker bodies = if any (includes ticks3) bodies then ticks4 else ticks3

-- `while (bodies.length && !bodies[bodies.length - 1].trim()) bodies.pop();`
unfoldable pub drop_blank_end : List Text → List Text
drop_blank_end [] = []
drop_blank_end (l ∷ ls) = elim (drop_blank_end ls) [
  | [] ↦ if is_blank l then [] else l ∷ []
  | (k ∷ ks) ↦ l ∷ k ∷ ks
]

unfoldable pub to_fence : List Text → Text → List Text
unfolding fence_marker drop_blank_end body_lines
to_fence lines lang =
    let bodies = drop_blank_end (body_lines lines) in
    let marker = fence_marker bodies in (marker ++ lang) ∷ bodies ++ marker ∷ []

unfoldable pub reindent : List Text → Text → List Text
reindent lines [] = lines
reindent lines (c ∷ indent) = map (λ l. if is_blank l then l else c ∷ indent ++ l) lines

-- `INDENT_RE.exec(l)[1]`; every line of a block is quoted, so it matches.
unfoldable pub indent_of : Text → Text
indent_of l = elim (exec indent_re l) [ none ↦ [] | some m ↦ capture 1 m ]

unfoldable pub indents : List Text → List Text
unfolding indent_of
indents [] = []
indents (l ∷ ls) = if is_blank (strip_quote l) then indents ls else indent_of l ∷ indents ls

-- `none` where the lines with text differ in their indentation.
unfoldable pub common_indent : List Text → Option Text
common_indent [] = some []
common_indent (i ∷ is_) = if all (λ s. text_eq s i) (i ∷ is_) then some i else none

unfoldable pub block_indent : List Text → Option Text
unfolding indents common_indent
block_indent lines = common_indent (indents lines)
