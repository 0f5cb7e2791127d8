-- ===== src/DocsTranslation/Listed.antt =====
-- What `selectFiles` of scripts/translate-docs.js can give.
use nginx_web_ui.Prelude.{
  ◌≡◌, refl, inl, inr, Bool, true, false, List, [], ◌∷◌, ◌++◌, All, All-append, Option, none, some,
  Text, codes, text_eq, starts_with, Bool-cases, Option-cases,
}
use nginx_web_ui.Regex.{test, exec}
use nginx_web_ui.FileSafety.Disk.{FilePath}
use nginx_web_ui.FenceBlocks.Patterns.{range_re}
use nginx_web_ui.FenceBlocks.Cli.{text_lt}
use nginx_web_ui.DocsTranslation.Cli.{
  DocsOptions, Node, Nodes, markdown_or_other, folder, no_nodes, more_nodes, markdown_re, full_path,
  insert_path, sort_paths, list_node, list_nodes, list_markdown, keep_files, Selected, selected,
  bad_pattern, bad_range, select_range, select_test, select_matches, select_docs,
}

-- A visible markdown file of a directory and what it has: it stands there, or where folders are entered, in a folder
-- whose name does not begin in a dot.
pub data Visible (recursive : Bool) : Text → Nodes → FilePath → Type 0 where
  in_place :
      (dir name : Text) (rest : Nodes)
      → starts_with (codes ".") name ≡ false
      → test markdown_re name ≡ true
      → Visible recursive dir
          (more_nodes (markdown_or_other name) rest)
          (record { dir = dir; name = name })
  deeper :
      (dir name : Text) (nodes rest : Nodes) (p : FilePath)
      → recursive ≡ true
      → starts_with (codes ".") name ≡ false
      → Visible recursive (dir ++ b'/' ∷ name) nodes p
      → Visible recursive dir (more_nodes (folder name nodes) rest) p
  further :
      (dir : Text) (n : Node) (rest : Nodes) (p : FilePath)
      → Visible recursive dir rest p
      → Visible recursive dir (more_nodes n rest) p

All-weaken :
    (P Q : FilePath → Type 0) (ps : List FilePath)
    → ((p : FilePath) → P p → Q p)
    → All P ps
    → All Q ps
All-weaken P Q [] f h = tt
All-weaken P Q (p ∷ ps) f h = (f p h.0, All-weaken P Q ps f h.1)

insert_path-All :
    (P : FilePath → Type 0) (p : FilePath) (ps : List FilePath)
    → P p
    → All P ps
    → All P (insert_path p ps)
unfolding insert_path
insert_path-All P p [] h hs = (h, tt)
insert_path-All P p (q ∷ qs) h hs = elim (Bool-cases (text_lt (full_path q) (full_path p))) [
  | inl later ↦ rw later (hs.0, insert_path-All P p qs h hs.1)
  | inr here ↦ rw here (h, hs)
]

sort_paths-All : (P : FilePath → Type 0) (ps : List FilePath) → All P ps → All P (sort_paths ps)
unfolding sort_paths
sort_paths-All P [] h = tt
sort_paths-All P (p ∷ ps) h = insert_path-All P p (sort_paths ps) h.0 (sort_paths-All P ps h.1)

mutual
  unfolding list_node list_nodes

  list_node-Visible :
      (recursive : Bool) (dir : Text) (n : Node) (rest : Nodes)
      → All (Visible recursive dir (more_nodes n rest)) (list_node recursive dir n)
  list_node-Visible recursive dir (markdown_or_other name) rest =
      elim (Bool-cases (starts_with (codes ".") name)) [
        | inl hidden ↦ rw hidden tt
        | inr visible ↦ elim (Bool-cases (test markdown_re name)) [
          | inl markdown ↦ rw (visible, markdown) (in_place dir name rest visible markdown, tt)
          | inr other ↦ rw (visible, other) tt
        ]
      ]
  list_node-Visible false dir (folder name nodes) rest =
      elim (Bool-cases (starts_with (codes ".") name)) [
        | inl hidden ↦ rw hidden tt
        | inr visible ↦ rw visible tt
      ]
  list_node-Visible true dir (folder name nodes) rest =
      elim (Bool-cases (starts_with (codes ".") name)) [
        | inl hidden ↦ rw hidden tt
        | inr visible ↦
            let inner = dir ++ b'/' ∷ name in
            let found = list_nodes true inner nodes in
            rw visible (
              All-weaken (Visible true inner nodes) _ (sort_paths found)
                (λ p. deeper dir name nodes rest p refl visible)
                (sort_paths-All (Visible true inner nodes) found
                  (list_nodes-Visible true inner nodes)))
      ]

  list_nodes-Visible :
      (recursive : Bool) (dir : Text) (ns : Nodes)
      → All (Visible recursive dir ns) (list_nodes recursive dir ns)
  list_nodes-Visible recursive dir no_nodes = tt
  list_nodes-Visible recursive dir (more_nodes n ns) =
      All-append (Visible recursive dir (more_nodes n ns)) (list_node recursive dir n)
        (list_nodes recursive dir ns) (list_node-Visible recursive dir n ns)
        (All-weaken (Visible recursive dir ns) _ (list_nodes recursive dir ns) (further dir n ns)
          (list_nodes-Visible recursive dir ns))

keep_files-All :
    (P : FilePath → Type 0) (p : FilePath → Bool) (fs : List FilePath)
    → All P fs
    → All P (keep_files p fs)
unfolding keep_files
keep_files-All P p [] h = tt
keep_files-All P p (f ∷ fs) h = elim (Bool-cases (p f)) [
  | inl kept ↦ rw kept (h.0, keep_files-All P p fs h.1)
  | inr dropped ↦ rw dropped (keep_files-All P p fs h.1)
]

-- What is selected has a property; a refusal has any.
abbrev pub SelectedAll : (FilePath → Type 0) → Selected → Type 0
SelectedAll P (selected fs) = All P fs
SelectedAll P bad_pattern = Unit {0}
SelectedAll P bad_range = Unit {0}

select_range-All :
    (P : FilePath → Type 0) (files : Option Text) (fs : List FilePath)
    → All P fs
    → SelectedAll P (select_range files fs)
unfolding select_range
select_range-All P none fs h = tt
select_range-All P (some files) fs h = elim (Bool-cases (text_eq files (codes "all"))) [
  | inl every ↦ rw every h
  | inr range ↦ elim (Option-cases (exec range_re files)) [
    | inl none_ ↦ rw (range, none_) tt
    | inr (m, found) ↦ rw (range, found) (keep_files-All P _ fs h)
  ]
]

list_markdown-Visible :
    (recursive : Bool) (dir : Text) (ns : Nodes)
    → All (Visible recursive dir ns) (list_markdown recursive dir ns)
unfolding list_markdown
list_markdown-Visible recursive dir ns =
    sort_paths-All (Visible recursive dir ns) (list_nodes recursive dir ns)
      (list_nodes-Visible recursive dir ns)

select_test-All :
    (P : FilePath → Type 0) (t : Option (Text → Bool)) (files : Option Text) (fs : List FilePath)
    → All P fs
    → SelectedAll P (select_test t files fs)
unfolding select_test
select_test-All P none files fs h = tt
select_test-All P (some matches) files fs h =
    select_range-All P files (keep_files (λ p. matches p.name) fs)
      (keep_files-All P (λ p. matches p.name) fs h)

select_matches-All :
    (compile : Text → Option (Text → Bool)) (P : FilePath → Type 0) (pattern files : Option Text)
    (fs : List FilePath)
    → All P fs
    → SelectedAll P (select_matches compile pattern files fs)
unfolding select_matches
select_matches-All compile P none files fs h = select_range-All P files fs h
select_matches-All compile P (some []) files fs h = select_range-All P files fs h
select_matches-All compile P (some (c ∷ s)) files fs h =
    select_test-All P (compile (c ∷ s)) files fs h

-- Whatever the options and the pattern, every file that is selected stands in the directory that was given: itself,
-- or with --recursive in folders whose names do not begin in a dot; and it is markdown, and its name does not begin in
-- a dot.
pub select_docs-Visible :
    (compile : Text → Option (Text → Bool)) (o : DocsOptions) (dir : Text) (ns : Nodes)
    → SelectedAll (Visible o.recursive dir ns) (select_docs compile o dir ns)
unfolding select_docs
select_docs-Visible compile o dir ns =
    select_matches-All compile (Visible o.recursive dir ns) o.pattern o.files
      (list_markdown o.recursive dir ns) (list_markdown-Visible o.recursive dir ns)
