-- ===== src/DocsTranslation/Patterns.antt =====
-- The regular expressions of scripts/translate-docs.js, literal by literal.
use nginx_web_ui.Prelude.{
  ℕ, zero, suc, Bool, ◌&&◌, ◌||◌, List, [], ◌∷◌, map, Text, codes, ◌==◌, leb, is_space, is_digit,
  is_lower, is_alpha, one_of,
}
use nginx_web_ui.Regex.{
  Regex, cls, seq, alt, star, group, bol, eol, boundary, chr, not_in, lit, ilit, plus, opt, cat,
  alts, any_char,
}
use nginx_web_ui.FenceBlocks.Patterns.{space, digit}

-- `PH_L` and `PH_R`
abbrev pub at_sign : ℕ
at_sign = b'@'

abbrev pub letter : Regex
letter = cls is_alpha

-- /@\s*(\d+)\s*@/g
unfoldable pub ph_re : Regex
ph_re = cat (chr at_sign ∷ star space ∷ group 1 (plus digit) ∷ star space ∷ chr at_sign ∷ [])

-- /\[([^\]\n]*)\]\(([^)\s]*)\)/g
unfoldable pub link_re : Regex
link_re = cat (
    chr b'['
    ∷ group 1 (star (not_in (λ c. c == b']' || c == 10)))
    ∷ chr b']'
    ∷ chr b'('
    ∷ group 2 (star (not_in (λ c. c == b')' || is_space c)))
    ∷ chr b')'
    ∷ [])

-- /<[^>]+>/g
unfoldable pub tag_re : Regex
tag_re = cat (chr b'<' ∷ plus (not_in (λ c. c == b'>')) ∷ chr b'>' ∷ [])

-- /`[^`\n]*`/g
unfoldable pub inline_code_re : Regex
inline_code_re = cat (chr 96 ∷ star (not_in (λ c. c == 96 || c == 10)) ∷ chr 96 ∷ [])

-- /https?:\/\/\S+/g
unfoldable pub url_re : Regex
url_re = cat (lit (codes "http") ∷ opt (chr b's') ∷ lit (codes "://") ∷ plus (not_in is_space) ∷ [])

abbrev lower_or_digit : ℕ → Bool
lower_or_digit c = is_lower c || is_digit c

-- /\b[a-z][a-z0-9]*(?:\\?_[a-z0-9]+)+\b/g
unfoldable pub directive_name_re : Regex
directive_name_re = cat (
    boundary
    ∷ cls is_lower
    ∷ star (cls lower_or_digit)
    ∷ plus (cat (opt (chr 92) ∷ chr b'_' ∷ plus (cls lower_or_digit) ∷ []))
    ∷ boundary
    ∷ [])

-- /&[a-z]+;|&#\d+;/gi
unfoldable pub entity_re : Regex
entity_re =
    alt (cat (chr b'&' ∷ plus letter ∷ chr b';' ∷ []))
      (cat (chr b'&' ∷ chr b'#' ∷ plus digit ∷ chr b';' ∷ []))

unfoldable pub protect_rules : List Regex
unfolding tag_re inline_code_re url_re directive_name_re entity_re
protect_rules = tag_re ∷ inline_code_re ∷ url_re ∷ directive_name_re ∷ entity_re ∷ []

-- `r{1,n}` for `n` at least 1
abbrev up_to : ℕ → Regex → Regex
up_to zero r = r
up_to (suc n) r = seq r (opt (up_to n r))

-- /^(?:\s*(?:#{1,6}|[-*+]|\d+\.|>)\s+)+/
unfoldable pub prefix_re : Regex
prefix_re = seq bol (
    plus (
      cat (
        star space
        ∷ alts (
            up_to 5 (chr b'#')
            ∷ cls (one_of (codes "-*+"))
            ∷ seq (plus digit) (chr b'.')
            ∷ chr b'>'
            ∷ [])
        ∷ plus space
        ∷ [])))

-- /[A-Za-z]{2,}/g
unfoldable pub word2_re : Regex
word2_re = cat (letter ∷ letter ∷ star letter ∷ [])

-- /[㐀-鿿]/
unfoldable pub cjk_re : Regex
cjk_re = cls (λ c. leb 0x3400 c && leb c 0x9fff)

-- /[{};]|^\s*>\s*(?:\.\/|nginx\b|kill\b|…|configure\b)/
unfoldable pub codeish_re : Regex
codeish_re =
    let word = λ (w : Text). seq (lit w) boundary in
    alt (cls (one_of (codes "{};"))) (
      cat (
        bol
        ∷ star space
        ∷ chr b'>'
        ∷ star space
        ∷ alts (
            lit (codes "./")
            ∷ word (codes "nginx")
            ∷ word (codes "kill")
            ∷ word (codes "service")
            ∷ word (codes "systemctl")
            ∷ word (codes "ps")
            ∷ word (codes "curl")
            ∷ word (codes "sudo")
            ∷ word (codes "make")
            ∷ word (codes "configure")
            ∷ [])
        ∷ []))

abbrev three_up : Regex → Regex
three_up r = cat (r ∷ r ∷ r ∷ star r ∷ [])

-- /^[-=*_]{3,}$/
unfoldable pub rule_re : Regex
rule_re = cat (bol ∷ three_up (cls (one_of (codes "-=*_"))) ∷ eol ∷ [])

-- /^#+\s*page$/i
unfoldable pub page_re : Regex
page_re = cat (bol ∷ plus (chr b'#') ∷ star space ∷ ilit (codes "page") ∷ eol ∷ [])

-- /<(table|pre|code|tbody|tr|td|th)\b/i
unfoldable pub html_re : Regex
html_re = cat (
    chr b'<'
    ∷ group 1 (
        alts (
          map ilit (
            codes "table"
            ∷ codes "pre"
            ∷ codes "code"
            ∷ codes "tbody"
            ∷ codes "tr"
            ∷ codes "td"
            ∷ codes "th"
            ∷ [])))
    ∷ boundary
    ∷ [])

-- /[A-Za-z]{2}/
unfoldable pub letters2_re : Regex
letters2_re = seq letter letter

-- /^\[[^\]]*\]\([^)]*\)$/
unfoldable pub only_link_re : Regex
only_link_re = cat (
    bol
    ∷ chr b'['
    ∷ star (not_in (λ c. c == b']'))
    ∷ chr b']'
    ∷ chr b'('
    ∷ star (not_in (λ c. c == b')'))
    ∷ chr b')'
    ∷ eol
    ∷ [])

-- /^<table\s+width="100%">.*<\/table>$/
unfoldable pub nav_table_re : Regex
nav_table_re = cat (
    bol
    ∷ lit (codes "<table")
    ∷ plus space
    ∷ lit (codes "width=\"100%\">")
    ∷ star any_char
    ∷ lit (codes "</table>")
    ∷ eol
    ∷ [])

-- /^#+\s*/
unfoldable pub hashes_re : Regex
hashes_re = cat (bol ∷ plus (chr b'#') ∷ star space ∷ [])

-- /伺服器\s*\{/, /地點\s*\//, /位置\s*\/\w/, /根\s*\/[\w數]/, /錯誤\\?_log/, /訪問\\?_log/, /服務\s+nginx/, /殺死\s+-s/
unfoldable pub damage_patterns : List Regex
damage_patterns =
    cat (lit (codes "伺服器") ∷ star space ∷ chr b'{' ∷ [])
    ∷ cat (lit (codes "地點") ∷ star space ∷ chr b'/' ∷ [])
    ∷ cat (
        lit (codes "位置")
        ∷ star space
        ∷ chr b'/'
        ∷ cls (λ c. lower_or_digit c || is_alpha c || c == b'_')
        ∷ [])
    ∷ cat (
        lit (codes "根")
        ∷ star space
        ∷ chr b'/'
        ∷ cls (λ c. lower_or_digit c || is_alpha c || one_of (codes "_數") c)
        ∷ [])
    ∷ cat (lit (codes "錯誤") ∷ opt (chr 92) ∷ lit (codes "_log") ∷ [])
    ∷ cat (lit (codes "訪問") ∷ opt (chr 92) ∷ lit (codes "_log") ∷ [])
    ∷ cat (lit (codes "服務") ∷ plus space ∷ lit (codes "nginx") ∷ [])
    ∷ cat (lit (codes "殺死") ∷ plus space ∷ lit (codes "-s") ∷ [])
    ∷ []

-- Opens the expressions, for a test.
unfoldable pub docs_patterns : Unit {0}
unfolding ph_re link_re protect_rules prefix_re word2_re cjk_re codeish_re rule_re page_re html_re
    letters2_re only_link_re nav_table_re hashes_re damage_patterns
docs_patterns = tt
