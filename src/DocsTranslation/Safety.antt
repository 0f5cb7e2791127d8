-- ===== src/DocsTranslation/Safety.antt =====
-- `count`, `lineIsSafe` and `sanityCheck` of scripts/translate-docs.js.
use nginx_web_ui.Prelude.{
  ℕ, Bool, true, false, not, ◌&&◌, List, [], ◌∷◌, ◌++◌, Text, codes, ltb, ◌==◌, any, all, length,
  if◌then◌else◌,
}
use nginx_web_ui.Regex.{Regex, chr, cat, ilit, test, match_all}
use nginx_web_ui.DocsTranslation.Patterns.{tag_re, damage_patterns}

-- `--profile`: the checks for nginx, or none of them.
pub data Profile : Type 0 where
  nginx none_ : Profile

abbrev is_nginx : Profile → Bool
is_nginx nginx = true
is_nginx none_ = false

unfoldable pub count : Text → Regex → ℕ
count s re = length (match_all re s)

-- /`/g, /\[/g, /\]/g, /\]\(/g, /<[^>]+>/g, /#/g
unfoldable pub line_marks : List Regex
line_marks = chr 96 ∷ chr b'[' ∷ chr b']' ∷ cat (chr b']' ∷ chr b'(' ∷ []) ∷ tag_re ∷ chr b'#' ∷ []

unfoldable pub same_counts : List Regex → Text → Text → Bool
unfolding count
same_counts res original out = all (λ re. count original re == count out re) res

unfoldable pub line_is_safe : Text → Text → Profile → Bool
unfolding same_counts line_marks
line_is_safe original out profile =
    if is_nginx profile && any (λ re. test re out) damage_patterns
    then false
    else if not (same_counts line_marks original out)
    then false
    else if ltb (count out (chr b';')) (count original (chr b';'))
    then false
    else true

-- The messages of `problems`: the number of a damage pattern or of a mark.
pub data SanityProblem : Type 0 where
  damage : Regex → SanityProblem
  count_differs : Regex → ℕ → ℕ → SanityProblem
  fewer_semicolons : SanityProblem

unfoldable pub damages : List Regex → Text → List SanityProblem
damages [] translated = []
damages (re ∷ res) translated =
    if test re translated then damage re ∷ damages res translated else damages res translated

-- /```/g, /<table/gi, /<pre/gi, /\n/g, /`/g, /\]\(/g, /\[/g, /\]/g
unfoldable pub file_marks : List Regex
file_marks =
    cat (chr 96 ∷ chr 96 ∷ chr 96 ∷ [])
    ∷ cat (chr b'<' ∷ ilit (codes "table") ∷ [])
    ∷ cat (chr b'<' ∷ ilit (codes "pre") ∷ [])
    ∷ chr 10
    ∷ chr 96
    ∷ cat (chr b']' ∷ chr b'(' ∷ [])
    ∷ chr b'['
    ∷ chr b']'
    ∷ []

unfoldable pub count_problems : List Regex → Text → Text → List SanityProblem
unfolding count
count_problems [] original translated = []
count_problems (re ∷ res) original translated =
    if count original re == count translated re
    then count_problems res original translated
    else count_differs re (count original re) (count translated re)
      ∷ count_problems res original translated

unfoldable pub sanity_check : Text → Text → Profile → List SanityProblem
unfolding damages count_problems file_marks
sanity_check original translated profile =
    (if is_nginx profile then damages damage_patterns translated else [])
    ++ count_problems file_marks original translated
    ++ (if ltb (count translated (chr b';')) (count original (chr b';'))
        then fewer_semicolons ∷ []
        else [])
