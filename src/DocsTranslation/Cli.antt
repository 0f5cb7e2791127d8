-- ===== src/DocsTranslation/Cli.antt =====
-- The command line of scripts/translate-docs.js: `parseArgs`, `listMarkdown` and `selectFiles`.
use nginx_web_ui.Prelude.{
  ℕ, zero, suc, Bool, true, false, ◌||◌, List, [], ◌∷◌, ◌++◌, Option, none, some, Text, codes,
  text_eq, length, decimal, one_of, starts_with, if◌then◌else◌,
}
use nginx_web_ui.Regex.{Regex, chr, cls, opt, eol, cat, exec, test, capture}
use nginx_web_ui.FileSafety.Disk.{FilePath}
use nginx_web_ui.FenceBlocks.Patterns.{range_re}
use nginx_web_ui.FenceBlocks.Cli.{text_lt, next_arg, after_arg, in_range}

-- `parseInt` gives NaN where there is no number; a negative number is not modelled.
pub data Number : Type 0 where
  infinite not_a_number : Number
  number : ℕ → Number

pub record DocsOptions : Type 0 where
  pub dir : Option Text
  pub files : Option Text
  pub engine : Option Text
  pub lang : Option Text
  pub dry_run : Bool
  pub limit : Number
  pub concurrency : Number
  pub shows : Number
  pub pattern : Option Text
  pub recursive : Bool
  pub profile : Option Text
  pub force : Bool
  pub repair : Bool
  pub strips_nav : Bool

abbrev pub docs_defaults : DocsOptions
docs_defaults = record {
  dir = none;
  files = some (codes "all");
  engine = some (codes "tencent");
  lang = some (codes "zh-TW");
  dry_run = false;
  limit = infinite;
  concurrency = number 2;
  shows = number 0;
  pattern = none;
  recursive = true;
  profile = some (codes "nginx");
  force = false;
  repair = false;
  strips_nav = false;
}

-- `--help` prints the usage and ends the process.
pub data Parsed : Type 0 where
  parsed : DocsOptions → Parsed
  helped : Parsed
  unknown : Text → Parsed
  dir_required : Parsed
  dir_missing : Text → Parsed

-- What an option without an argument of its own does.
abbrev flag : Text → DocsOptions → Option DocsOptions
flag a o =
    if text_eq a (codes "--dry-run")
    then some (record o { dry_run = true })
    else if text_eq a (codes "--no-recursive")
    then some (record o { recursive = false })
    else if text_eq a (codes "--force")
    then some (record o { force = true })
    else if text_eq a (codes "--repair")
    then some (record o { repair = true })
    else if text_eq a (codes "--strip-nav")
    then some (record o { strips_nav = true })
    else none

-- `parseInt(argv, 10)`, and whether a directory is there. `argv[++i]` past the end is `undefined`.
module _ (parse_int : Option Text → Number) (dir_exists : Text → Bool) where
  -- What an option does with the argument behind it.
  abbrev valued : Text → Option Text → DocsOptions → Option DocsOptions
  valued a v o =
      if text_eq a (codes "--print")
      then some (record o { shows = parse_int v })
      else if text_eq a (codes "--dir")
      then some (record o { dir = v })
      else if text_eq a (codes "--files")
      then some (record o { files = v })
      else if text_eq a (codes "--match")
      then some (record o { pattern = v })
      else if text_eq a (codes "--profile")
      then some (record o { profile = v })
      else if text_eq a (codes "--engine")
      then some (record o { engine = v })
      else if text_eq a (codes "--lang")
      then some (record o { lang = v })
      else if text_eq a (codes "--limit")
      then some (record o { limit = parse_int v })
      else if text_eq a (codes "--concurrency")
      then some (record o { concurrency = parse_int v })
      else none

  abbrev check_dir : DocsOptions → Option Text → Parsed
  check_dir o none = dir_required
  check_dir o (some []) = dir_required
  check_dir o (some (c ∷ d)) = if dir_exists (c ∷ d) then parsed o else dir_missing (c ∷ d)

  -- The loop over the arguments; a round reads one or two.
  unfoldable pub docs_loop : ℕ → List Text → DocsOptions → Parsed
  docs_loop f [] o = check_dir o o.dir
  docs_loop zero (a ∷ argv) o = check_dir o o.dir
  docs_loop (suc f) (a ∷ argv) o =
      if text_eq a (codes "--help") || text_eq a (codes "-h") then helped else elim (flag a o) [
        | some p ↦ docs_loop f argv p
        | none ↦ elim (valued a (next_arg argv) o) [
          | some p ↦ docs_loop f (after_arg argv) p
          | none ↦ unknown a
        ]
      ]

  -- `argv` behind the two words of `process.argv`.
  unfoldable pub docs_args : List Text → Parsed
  unfolding docs_loop
  docs_args argv = docs_loop (length argv) argv docs_defaults

-- What a directory has, in the order of `readdirSync`.
mutual
  pub data Node : Type 0 where
    markdown_or_other : Text → Node
    folder : Text → Nodes → Node

  pub data Nodes : Type 0 where
    no_nodes : Nodes
    more_nodes : Node → Nodes → Nodes

-- /\.mdx?$/i
unfoldable pub markdown_re : Regex
markdown_re = cat (
    chr b'.'
    ∷ cls (one_of (codes "mM"))
    ∷ cls (one_of (codes "dD"))
    ∷ opt (cls (one_of (codes "xX")))
    ∷ eol
    ∷ [])

-- `path.join(dir, name)`
abbrev pub full_path : FilePath → Text
full_path p = p.dir ++ b'/' ∷ p.name

unfoldable pub insert_path : FilePath → List FilePath → List FilePath
unfolding text_lt
insert_path p [] = p ∷ []
insert_path p (q ∷ qs) =
    if text_lt (full_path q) (full_path p) then q ∷ insert_path p qs else p ∷ q ∷ qs

unfoldable pub sort_paths : List FilePath → List FilePath
unfolding insert_path
sort_paths [] = []
sort_paths (p ∷ ps) = insert_path p (sort_paths ps)

-- `listMarkdown`: names that begin in a dot are skipped, and a directory's files come in the order of their
-- paths.
unfoldable mutual
  unfolding sort_paths markdown_re

  pub list_node : Bool → Text → Node → List FilePath
  list_node recursive dir (markdown_or_other name) =
      if starts_with (codes ".") name
      then []
      else if test markdown_re name
      then record { dir = dir; name = name } ∷ []
      else []
  list_node recursive dir (folder name nodes) =
      let inner = sort_paths (list_nodes recursive (dir ++ b'/' ∷ name) nodes) in
      if starts_with (codes ".") name then [] else if recursive then inner else []

  pub list_nodes : Bool → Text → Nodes → List FilePath
  list_nodes recursive dir no_nodes = []
  list_nodes recursive dir (more_nodes n ns) =
      list_node recursive dir n ++ list_nodes recursive dir ns

unfoldable pub list_markdown : Bool → Text → Nodes → List FilePath
unfolding list_nodes sort_paths
list_markdown recursive dir nodes = sort_paths (list_nodes recursive dir nodes)

-- `files.filter`
unfoldable pub keep_files : (FilePath → Bool) → List FilePath → List FilePath
keep_files p [] = []
keep_files p (f ∷ fs) = if p f then f ∷ keep_files p fs else keep_files p fs

pub data Selected : Type 0 where
  selected : List FilePath → Selected
  bad_pattern bad_range : Selected

unfoldable pub select_range : Option Text → List FilePath → Selected
unfolding keep_files in_range
select_range none fs = bad_range
select_range (some files) fs =
    if text_eq files (codes "all") then selected fs else elim (exec range_re files) [
      | none ↦ bad_range
      | some m ↦
          selected (
            keep_files (λ p. in_range (decimal 0 (capture 1 m)) (decimal 0 (capture 2 m)) p.name)
              fs)
    ]

unfoldable pub select_test : Option (Text → Bool) → Option Text → List FilePath → Selected
unfolding keep_files select_range
select_test none files fs = bad_pattern
select_test (some matches) files fs = select_range files (keep_files (λ p. matches p.name) fs)

-- RE2 compiles a pattern to a test, or refuses it.
module _ (compile : Text → Option (Text → Bool)) where
  -- `opt.match` where it is not empty, then the range.
  unfoldable pub select_matches : Option Text → Option Text → List FilePath → Selected
  unfolding select_range select_test
  select_matches none files fs = select_range files fs
  select_matches (some []) files fs = select_range files fs
  select_matches (some (c ∷ s)) files fs = select_test (compile (c ∷ s)) files fs

  unfoldable pub select_docs : DocsOptions → Text → Nodes → Selected
  unfolding list_markdown select_matches
  select_docs o dir nodes = select_matches o.pattern o.files (list_markdown o.recursive dir nodes)
