-- ===== src/DocsTranslation/Tests.antt =====
-- scripts/translate-docs.js at concrete inputs.
use nginx_web_ui.Prelude.{
  ℕ, ◌+◌, ◌*◌, ◌≡◌, ◌⊎◌, refl, Bool, true, false, List, [], ◌∷◌, ◌++◌, map, none, some, All, Text,
  codes, length, get_elem?, print, text_functions, Option,
}
use nginx_web_ui.Regex.{engine}
use nginx_web_ui.FileSafety.Disk.{FilePath, file, Disk, read_file, exists, backup_path, set_entry}
use nginx_web_ui.FenceBlocks.Patterns.{fence_patterns}
use nginx_web_ui.FenceBlocks.Scan.{fence_scan}
use nginx_web_ui.DocsTranslation.Patterns.{docs_patterns}
use nginx_web_ui.DocsTranslation.Protect.{protect, restore}
use nginx_web_ui.DocsTranslation.Lines.{is_translatable, collect_targets}
use nginx_web_ui.DocsTranslation.Safety.{nginx}
use nginx_web_ui.DocsTranslation.Nav.{is_nav, nav_start, strip_lines, strip_nav_text}
use nginx_web_ui.DocsTranslation.Engines.{
  failed, array, tencent_batch, Token, Round, microsoft_batch,
}
use nginx_web_ui.DocsTranslation.TranslateFile.{
  FileOptions, skipped, Translate, prepare, translate_prepared, edited_by_hand, read_source,
  translate_text, translate_file,
}
use nginx_web_ui.DocsTranslation.RoundTrip.Placeholders.{restore-protect}
use nginx_web_ui.DocsTranslation.Alignment.{tencent_batch-length, microsoft_batch-length}
use nginx_web_ui.DocsTranslation.Google.{Json, no_values, google_batch}
use nginx_web_ui.DocsTranslation.GoogleAnswers.{
  segment, translated, reply_of, google_batch-translation,
}
use nginx_web_ui.DocsTranslation.Kept.{length-translate_prepared}
use nginx_web_ui.DocsTranslation.Targets.{
  Free, collect_targets-Free, ChangedFree, translate_prepared-fences,
}
use nginx_web_ui.DocsTranslation.Files.{translate_file-quiet, translate_file-dry}
use nginx_web_ui.DocsTranslation.Workers.{
  Workers, WorkerStep, takes, WorkerRun, no_step, and_step, started, worker_count, take_file,
}
use nginx_web_ui.DocsTranslation.Pool.{times, WorkerRun-Progress}
use nginx_web_ui.DocsTranslation.Cli.{
  DocsOptions, docs_defaults, Nodes, markdown_or_other, folder, no_nodes, more_nodes, select_docs,
}
use nginx_web_ui.DocsTranslation.Listed.{Visible, SelectedAll, select_docs-Visible}
use nginx_web_ui.DocsTranslation.NavLines.{
  contents, navs, strip_lines-contents, strip_nav_text-same,
}

abbrev item : Text
item = codes "- Use `proxy_pass` or see [docs](http://a.b)"

item_masked : (protect item).masked ≡ codes "Use @2@ or see @0@docs@1@"
unfolding protect text_functions engine docs_patterns print
item_masked = refl

restore-protect_example :
    ((restore (protect item).masked (protect item).slots).ok ≡ true)
    × ((protect item).prefix ++ (restore (protect item).masked (protect item).slots).text ≡ item)
restore-protect_example = restore-protect item refl

abbrev page : List Text
page = codes "Some words here" ∷ codes "```" ∷ codes "code" ∷ codes "```" ∷ []

-- An engine that answers each line with other words.
abbrev shout : Translate
shout = map (λ t. some (codes "WORDS"))

page_targets : collect_targets page ≡ 0 ∷ []
unfolding collect_targets is_translatable fence_scan text_functions engine docs_patterns
    fence_patterns
page_targets = refl

collect_targets-Free_example : Free (fence_scan page).states page 0
unfolding collect_targets is_translatable fence_scan text_functions engine docs_patterns
    fence_patterns
collect_targets-Free_example = collect_targets-Free page 0 refl

translate_prepared-fences_example :
    ChangedFree nginx page
      (translate_prepared nginx shout page (prepare page (collect_targets page))).lines
      2
      (codes "code")
translate_prepared-fences_example = translate_prepared-fences nginx shout page 2 (codes "code") refl

length-translate_prepared_example :
    length (translate_prepared nginx shout page (prepare page (0 ∷ []))).lines ≡ 4
length-translate_prepared_example = length-translate_prepared nginx shout page (0 ∷ [])

abbrev guide : FilePath
guide = record { dir = codes "docs"; name = codes "guide.md" }

abbrev options : FileOptions
options = record { force = false; dry_run = false; profile = nginx }

-- A file that is all code.
abbrev code_disk : Disk
code_disk = record {
  entries = set_entry guide (file 0) (λ p. none);
  inodes = λ i. record { nlink = 1; text = codes "```" ++ 10 ∷ codes "code" ++ 10 ∷ codes "```" };
  next = 1;
}

translate_file-quiet_example : (translate_file options shout guide code_disk).1 ≡ code_disk
unfolding translate_file edited_by_hand read_source translate_text collect_targets fence_scan
    is_translatable read_file exists text_functions engine docs_patterns fence_patterns backup_path
translate_file-quiet_example =
    translate_file-quiet options shout guide code_disk (skipped 0) refl refl

translate_file-dry_example :
    (translate_file (record options { dry_run = true }) shout guide code_disk).1 ≡ code_disk
translate_file-dry_example =
    translate_file-dry (record options { dry_run = true }) shout guide code_disk refl

abbrev two_texts : List Text
two_texts = codes "one" ∷ codes "two" ∷ []

tencent_batch-length_example : length (tencent_batch (λ i chunk. array (none ∷ [])) two_texts) ≡ 2
tencent_batch-length_example = tencent_batch-length (λ i chunk. array (none ∷ [])) two_texts

abbrev offline : ℕ → Round
offline i = record { now = i; later = i + 1; auth = none; serve = λ token chunk. failed }

abbrev no_token : Token
no_token = record { token = none; time = 0 }

microsoft_batch-length_example : length (microsoft_batch offline no_token two_texts).0 ≡ 2
microsoft_batch-length_example = microsoft_batch-length offline no_token two_texts

-- The first request is not answered, and each other with two segments and one without a translation.
abbrev half_answered : ℕ → Text → Option Json
half_answered ℕ.zero t = none
half_answered (ℕ.suc i) t = reply_of (
    translated
      (segment (some t) no_values
        ∷ segment none no_values
        ∷ segment (some (codes "!")) no_values
        ∷ [])
      no_values)

google_batch-translation_example :
    get_elem? (google_batch 0 half_answered two_texts) 1 ≡ some (some (codes "two!"))
google_batch-translation_example =
    google_batch-translation half_answered two_texts 1 (codes "two")
      (translated
        (segment (some (codes "two")) no_values
          ∷ segment none no_values
          ∷ segment (some (codes "!")) no_values
          ∷ [])
        no_values)
      refl refl

abbrev nav_page : List Text
nav_page =
    codes "Title"
    ∷ []
    ∷ codes "<table><tr><td><a href=x>Prev</a></td></tr></table>"
    ∷ []
    ∷ codes "End"
    ∷ []

strip_lines-contents_example :
    (contents (strip_lines nav_start nav_page).out ≡ contents nav_page)
    × (All (λ x. is_nav x ≡ false) (strip_lines nav_start nav_page).out)
    × ((strip_lines nav_start nav_page).removed ≡ navs nav_page)
strip_lines-contents_example = strip_lines-contents nav_page

strip_nav_text-same_example : (strip_nav_text (codes "Title")).text ≡ codes "Title"
unfolding strip_nav_text text_functions engine docs_patterns
strip_nav_text-same_example = strip_nav_text-same (codes "Title") refl

abbrev two_files : List FilePath
two_files = guide ∷ guide ∷ []

-- One worker has taken the first of two files.
abbrev first_taken : Workers
first_taken = take_file guide (guide ∷ []) 1 (started two_files 2)

one_step : WorkerRun (started two_files 2) 1 first_taken
unfolding started worker_count
one_step = and_step no_step (takes guide (guide ∷ []) 1 refl refl)

WorkerRun-Progress_example :
    ((v : Workers) × WorkerStep first_taken v)
    ⊎ ((1 ≡ 2 * length two_files)
        × ((p : FilePath → Bool) → times p first_taken.seen ≡ times p two_files))
WorkerRun-Progress_example = WorkerRun-Progress two_files 2 one_step

-- A directory with a backup, a page, a folder of backups and a folder of pages.
abbrev tree : Nodes
tree = more_nodes (markdown_or_other (codes ".page.md")) (
    more_nodes (markdown_or_other (codes "7page.MD")) (
      more_nodes
        (folder (codes ".translate-backup")
          (more_nodes (markdown_or_other (codes "8.md")) no_nodes))
        (more_nodes
          (folder (codes "more") (more_nodes (markdown_or_other (codes "9b.mdx")) no_nodes))
          no_nodes)))

abbrev seven : DocsOptions
seven = record docs_defaults { files = some (codes "7-8"); recursive = true }

select_docs-Visible_example :
    SelectedAll
      (Visible true (codes "docs") tree)
      (select_docs (λ p. none) seven (codes "docs") tree)
select_docs-Visible_example = select_docs-Visible (λ p. none) seven (codes "docs") tree
