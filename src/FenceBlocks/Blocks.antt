-- ===== src/FenceBlocks/Blocks.antt =====
-- `splitBlocks`, `stripQuote`, `unescapeMd` and `bodyLines` of scripts/fence-code-blocks.js.
use nginx_web_ui.Prelude.{
  ℕ, ◌+◌, Bool, ◌||◌, List, [], ◌∷◌, ◌++◌, map, Option, none, some, Text, if◌then◌else◌,
}
use nginx_web_ui.Regex.{test, replace_first, replace_all, capture}
use nginx_web_ui.FenceBlocks.Patterns.{quote_re, meta_re, strip_re, escape_re}

pub record Block : Type 0 where
  pub start : ℕ
  pub end : ℕ
  pub lines : List Text

-- `cur`: the block that is being read, and whether a line of it excludes it.
pub record Open : Type 0 where
  pub block : Block
  pub excluded : Bool

unfoldable pub flush : Option Open → List Block → List Block
flush none blocks = blocks
flush (some cur) blocks = if cur.excluded then blocks else blocks ++ cur.block ∷ []

-- A quoted line, number `i`, opens a block or joins the open one.
unfoldable pub push_line : ℕ → Text → Option Open → Open
push_line i l none = record {
  block = record { start = i; end = i; lines = l ∷ [] };
  excluded = test meta_re l;
}
push_line i l (some cur) = record {
  block = record { start = cur.block.start; end = i; lines = cur.block.lines ++ l ∷ [] };
  excluded = cur.excluded || test meta_re l;
}

unfoldable pub split_loop : ℕ → List Text → Option Open → List Block → List Block
unfolding flush push_line
split_loop i [] cur blocks = flush cur blocks
split_loop i (l ∷ ls) cur blocks =
    let quoted = split_loop (i + 1) ls (some (push_line i l cur)) blocks in
    let other = split_loop (i + 1) ls none (flush cur blocks) in
    if test quote_re l then quoted else other

unfoldable pub split_blocks : List Text → List Block
unfolding split_loop
split_blocks lines = split_loop 0 lines none []

unfoldable pub strip_quote : Text → Text
strip_quote l = replace_first strip_re (λ m. []) l

unfoldable pub unescape_md : Text → Text
unescape_md s = replace_all escape_re (capture 1) s

unfoldable pub body_lines : List Text → List Text
unfolding strip_quote unescape_md
body_lines = map (λ l. unescape_md (strip_quote l))
