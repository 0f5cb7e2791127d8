-- ===== src/FenceBlocks/Tests.antt =====
-- The functions of scripts/fence-code-blocks.js at concrete inputs.
use nginx_web_ui.Prelude.{
  true, false, List, [], ◌∷◌, ◌≡◌, ◌⊎◌, refl, none, some, All, Text, codes, join_lines,
  text_functions,
}
use nginx_web_ui.FileSafety.Disk.{FilePath, file, Disk, set_entry}
use nginx_web_ui.FenceBlocks.Cli.{Options, defaults, falsy, parse_args, first_diff}
use nginx_web_ui.FenceBlocks.Run.{no_totals, run_file, run_files}
use nginx_web_ui.FenceBlocks.Arguments.{mentions, parse_args-apply}
use nginx_web_ui.FenceBlocks.Slices.{Slice, split_blocks-Slice}
use nginx_web_ui.FenceBlocks.Fences.{Answer, first_diff-Answer}
use nginx_web_ui.FenceBlocks.Nesting.{Fenced, fence_scan-Fenced}
use nginx_web_ui.FenceBlocks.Writes.{WroteChecked, run_file-Checked, run_files-dry}
use nginx_web_ui.Regex.{engine}
use nginx_web_ui.FenceBlocks.Patterns.{fence_patterns}
use nginx_web_ui.FenceBlocks.Blocks.{split_blocks}
use nginx_web_ui.FenceBlocks.Classify.{is_code_block, detect_language}
use nginx_web_ui.FenceBlocks.Render.{to_fence}
use nginx_web_ui.FenceBlocks.Scan.{fence_scan, outside, marker, inside}

abbrev fenced : List Text
fenced = codes "```" ∷ codes "x" ∷ codes "```" ∷ []

abbrev sample : List Text
sample = codes "text" ∷ codes "> server {" ∷ codes ">     listen 80;" ∷ codes "> }" ∷ codes "" ∷ []

sample_blocks :
    split_blocks sample
    ≡ record {
      start = 1;
      end = 3;
      lines = codes "> server {" ∷ codes ">     listen 80;" ∷ codes "> }" ∷ [];
    }
      ∷ []
unfolding split_blocks text_functions engine fence_patterns
sample_blocks = refl

abbrev quoted : List Text
quoted = codes "> server {" ∷ codes ">     server\\_name a;" ∷ codes "> }" ∷ codes "> " ∷ []

quoted_code : is_code_block quoted ≡ true
unfolding is_code_block text_functions engine fence_patterns
quoted_code = refl

quoted_lang : detect_language quoted ≡ codes "nginx"
unfolding detect_language text_functions engine fence_patterns
quoted_lang = refl

quoted_fence :
    to_fence quoted (codes "nginx")
    ≡ codes "```nginx"
      ∷ codes "server {"
      ∷ codes "    server_name a;"
      ∷ codes "}"
      ∷ codes "```"
      ∷ []
unfolding to_fence text_functions engine fence_patterns
quoted_fence = refl

abbrev nested_fences : List Text
nested_fences = codes "````" ∷ codes "```" ∷ codes "````" ∷ codes "x" ∷ []

scan_nested : (fence_scan nested_fences).states ≡ marker ∷ inside ∷ marker ∷ outside ∷ []
unfolding fence_scan text_functions engine fence_patterns
scan_nested = refl

split_blocks-Slice_example : All (Slice sample) (split_blocks sample)
split_blocks-Slice_example = split_blocks-Slice sample

fence_scan-Fenced_example :
    Fenced nested_fences (fence_scan nested_fences).states (fence_scan nested_fences).unclosed
fence_scan-Fenced_example = fence_scan-Fenced nested_fences

first_diff-Answer_example : Answer sample fenced 0 (first_diff sample fenced)
first_diff-Answer_example = first_diff-Answer sample fenced

abbrev arguments : List Text
arguments = codes "--dir" ∷ codes "docs" ∷ codes "--apply" ∷ []

abbrev asked : Options
asked = record defaults { dir = some (codes "docs"); apply = true }

parse_args-apply_example : (falsy asked.dir ≡ false) × (mentions (codes "--apply") arguments ≡ true)
unfolding parse_args
parse_args-apply_example = parse_args-apply (λ raw. none) arguments asked refl refl

abbrev page_path : FilePath
page_path = record { dir = codes "docs"; name = codes "1.md" }

abbrev page_disk : Disk
page_disk = record {
  entries = set_entry page_path (file 0) (λ p. none);
  inodes = λ i. record { nlink = 1; text = join_lines sample };
  next = 1;
}

run_file-Checked_example :
    ((run_file true no_totals page_path page_disk).1 ≡ page_disk)
    ⊎ WroteChecked true page_path page_disk (run_file true no_totals page_path page_disk).1
run_file-Checked_example = run_file-Checked true no_totals page_path page_disk

run_files-dry_example :
    (run_files false no_totals (page_path ∷ page_path ∷ []) page_disk).1 ≡ page_disk
run_files-dry_example = run_files-dry no_totals (page_path ∷ page_path ∷ []) page_disk
