-- ===== src/FenceBlocks/Convert.antt =====
-- `convertFile` of scripts/fence-code-blocks.js.
use mathlib.Core.List.{reverse}
use nginx_web_ui.Prelude.{
  ℕ, ◌+◌, ◌-◌, Bool, true, false, List, [], ◌∷◌, ◌++◌, Option, none, some, Text, text_eq, length,
  take, drop, get_elem?, split_lines, join_lines, if◌then◌else◌,
}
use nginx_web_ui.FenceBlocks.Blocks.{Block, split_blocks}
use nginx_web_ui.FenceBlocks.Classify.{is_code_block, detect_language}
use nginx_web_ui.FenceBlocks.Scan.{
  LineState, outside, marker, inside, fence_scan, content_fingerprint,
}
use nginx_web_ui.FenceBlocks.Render.{to_fence, reindent, block_indent}

-- The messages of `problems`; the first names a line.
pub data Problem : Type 0 where
  uneven_indent : ℕ → Problem
  fingerprint_differs unclosed_in_input unclosed_in_output : Problem

pub record Replacement : Type 0 where
  pub block : Block
  pub out : List Text

pub record Progress : Type 0 where
  pub converted : ℕ
  pub skipped : ℕ
  pub problems : List Problem
  pub replacements : List Replacement

abbrev pub is_outside : Option LineState → Bool
is_outside none = true
is_outside (some outside) = true
is_outside (some marker) = false
is_outside (some inside) = false

-- `seen.filter((b) => !inputScan.states[b.start])`
unfoldable pub outside_fences : List LineState → List Block → List Block
outside_fences states [] = []
outside_fences states (b ∷ bs) =
    if is_outside (get_elem? states b.start)
    then b ∷ outside_fences states bs
    else outside_fences states bs

abbrev pub with_indent : Block → Progress → Option Text → Progress
with_indent b p none = record p { problems = p.problems ++ uneven_indent (b.start + 1) ∷ [] }
with_indent b p (some indent) = record p {
  converted = p.converted + 1;
  replacements =
      p.replacements
      ++ record { block = b; out = reindent (to_fence b.lines (detect_language b.lines)) indent }
        ∷ [];
}

-- One round of the loop over the blocks.
unfoldable pub convert_block : Progress → Block → Progress
convert_block p b =
    if is_code_block b.lines
    then with_indent b p (block_indent b.lines)
    else record p { skipped = p.skipped + 1 }

unfoldable pub convert_blocks : Progress → List Block → Progress
unfolding convert_block
convert_blocks p [] = p
convert_blocks p (b ∷ bs) = convert_blocks (convert_block p b) bs

-- `out.splice(start, end - start + 1, ...rep)`
unfoldable pub splice : Replacement → List Text → List Text
splice r lines =
    take r.block.start lines
    ++ r.out
    ++ drop (r.block.start + (r.block.end - r.block.start + 1)) lines

unfoldable pub splice_each : List Replacement → List Text → List Text
unfolding splice
splice_each [] lines = lines
splice_each (r ∷ rs) lines = splice_each rs (splice r lines)

-- From the last replacement to the first.
unfoldable pub splice_back : List Replacement → List Text → List Text
unfolding splice_each
splice_back rs lines = splice_each (reverse rs) lines

pub record Conversion : Type 0 where
  pub text : Text
  pub converted : ℕ
  pub skipped : ℕ
  pub excluded : ℕ
  pub problems : List Problem

unfoldable pub check_fingerprint : Text → Text → List Problem
check_fingerprint result text =
    if text_eq (content_fingerprint result) (content_fingerprint text)
    then []
    else fingerprint_differs ∷ []

unfoldable pub check_fences : Text → Bool → List Problem
check_fences result input_unclosed =
    if (fence_scan (split_lines result)).unclosed
    then (if input_unclosed then unclosed_in_input else unclosed_in_output) ∷ []
    else []

abbrev pub no_progress : Progress
no_progress = record { converted = 0; skipped = 0; problems = []; replacements = [] }

unfoldable pub convert_file : Text → Conversion
unfolding outside_fences convert_blocks splice_back check_fingerprint check_fences
convert_file text =
    let lines = split_lines text in
    let input_scan = fence_scan lines in
    let seen = split_blocks lines in
    let blocks = outside_fences input_scan.states seen in
    let p = convert_blocks no_progress blocks in
    let result = join_lines (splice_back p.replacements lines) in
    record {
      text = result;
      converted = p.converted;
      skipped = p.skipped;
      excluded = length seen - length blocks;
      problems =
          p.problems ++ check_fingerprint result text ++ check_fences result input_scan.unclosed;
    }
