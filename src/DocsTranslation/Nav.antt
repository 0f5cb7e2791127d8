-- ===== src/DocsTranslation/Nav.antt =====
-- `stripNavText` of scripts/translate-docs.js: navigation tables go, and the blank lines that meet
-- where one stood become one.
use nginx_web_ui.Prelude.{
  ℕ, ◌+◌, Bool, true, false, ◌&&◌, List, [], ◌∷◌, ◌++◌, Text, trim, is_blank, split_lines,
  join_lines, if◌then◌else◌,
}
use nginx_web_ui.Regex.{test}
use nginx_web_ui.DocsTranslation.Patterns.{nav_table_re}

unfoldable pub is_nav : Text → Bool
is_nav line = test nav_table_re (trim line)

pub record NavState : Type 0 where
  pub out : List Text
  pub removed : ℕ
  pub seam : Bool

-- `out.length && !out[out.length - 1].trim()`
unfoldable pub ends_blank : List Text → Bool
ends_blank [] = false
ends_blank (l ∷ []) = is_blank l
ends_blank (l ∷ ls) = ends_blank ls

-- One round of the loop.
unfoldable pub strip_line : NavState → Text → NavState
unfolding is_nav ends_blank
strip_line s line =
    if is_nav line
    then record s { removed = s.removed + 1; seam = true }
    else if is_blank line
    then (if s.seam && ends_blank s.out then s else record s { out = s.out ++ line ∷ [] })
    else record s { out = s.out ++ line ∷ []; seam = false }

unfoldable pub strip_lines : NavState → List Text → NavState
unfolding strip_line
strip_lines s [] = s
strip_lines s (l ∷ ls) = strip_lines (strip_line s l) ls

pub record Stripped : Type 0 where
  pub text : Text
  pub removed : ℕ

abbrev pub nav_start : NavState
nav_start = record { out = []; removed = 0; seam = false }

unfoldable pub strip_nav_text : Text → Stripped
unfolding strip_lines
strip_nav_text text =
    let s = strip_lines nav_start (split_lines text) in
    record { text = join_lines s.out; removed = s.removed }
