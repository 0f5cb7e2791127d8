-- ===== src/FenceBlocks/Patterns.antt =====
-- The regular expressions of scripts/fence-code-blocks.js, literal by literal.
use nginx_web_ui.Prelude.{
  ◌||◌, List, [], ◌∷◌, map, Text, codes, ◌==◌, is_space, is_digit, is_lower, is_alpha, one_of,
}
use nginx_web_ui.Regex.{
  Regex, cls, seq, alt, star, group, bol, eol, boundary, not_behind, chr, not_in, lit, plus, opt,
  cat, alts, any_char,
}

-- `\s` and `\d`
abbrev pub space : Regex
space = cls is_space

abbrev pub digit : Regex
digit = cls is_digit

-- /^\s*>/
unfoldable pub quote_re : Regex
quote_re = cat (bol ∷ star space ∷ chr b'>' ∷ [])

-- /^\s*>\s*(?:Source:|翻譯\s*[:：])/
unfoldable pub meta_re : Regex
meta_re = cat (
    bol
    ∷ star space
    ∷ chr b'>'
    ∷ star space
    ∷ alt (lit (codes "Source:"))
        (cat (lit (codes "翻譯") ∷ star space ∷ cls (one_of (codes ":：")) ∷ []))
    ∷ [])

-- /^\s*>\s*>/
unfoldable pub nested_re : Regex
nested_re = cat (bol ∷ star space ∷ chr b'>' ∷ star space ∷ chr b'>' ∷ [])

-- /^\s*>\s?/
unfoldable pub strip_re : Regex
strip_re = cat (bol ∷ star space ∷ chr b'>' ∷ opt space ∷ [])

-- The ASCII punctuation that a backslash escapes: the class of /\\([…])/g.
abbrev pub escapable : Text
escapable = 92 ∷ 34 ∷ codes "!#$%&'()*+,-./:;<=>?@[]^_`{|}~"

-- /\\([!"#$%&'()*+,\-./:;<=>?@[\\\]^_`{|}~])/g
unfoldable pub escape_re : Regex
escape_re = seq (chr 92) (group 1 (cls (one_of escapable)))

-- A word of a list, then `\b`, at the start.
abbrev word_start : List Text → Regex
word_start ws = cat (bol ∷ group 1 (alts (map lit ws)) ∷ boundary ∷ [])

-- /[{}]\s*$/
unfoldable pub brace_end : Regex
brace_end = cat (cls (one_of (codes "{}")) ∷ star space ∷ eol ∷ [])

-- /;\s*$/
unfoldable pub semicolon_end : Regex
semicolon_end = cat (chr b';' ∷ star space ∷ eol ∷ [])

-- /^#include\b/
unfoldable pub include_re : Regex
include_re = cat (bol ∷ lit (codes "#include") ∷ boundary ∷ [])

-- /^@@ -\d+/
unfoldable pub hunk_re : Regex
hunk_re = cat (bol ∷ lit (codes "@@ -") ∷ plus digit ∷ [])

-- /^(\.\/configure|nginx|kill|…|end)\b/
unfoldable pub command_re : Regex
command_re = word_start (
    codes "./configure"
    ∷ codes "nginx"
    ∷ codes "kill"
    ∷ codes "service"
    ∷ codes "systemctl"
    ∷ codes "ps"
    ∷ codes "curl"
    ∷ codes "sudo"
    ∷ codes "make"
    ∷ codes "kldload"
    ∷ codes "options"
    ∷ codes "expr"
    ∷ codes "set"
    ∷ codes "memory"
    ∷ codes "dump"
    ∷ codes "while"
    ∷ codes "end"
    ∷ [])

-- /^[a-z_][a-z0-9_]*\s+[a-z0-9_$/.:*-]+\s*$/i
unfoldable pub directive_re : Regex
directive_re = cat (
    bol
    ∷ cls (λ c. is_alpha c || c == b'_')
    ∷ star (cls (λ c. is_alpha c || is_digit c || c == b'_'))
    ∷ plus space
    ∷ plus (cls (λ c. is_alpha c || is_digit c || one_of (codes "_$/.:*-") c))
    ∷ star space
    ∷ eol
    ∷ [])

unfoldable pub code_signals : List Regex
unfolding brace_end semicolon_end include_re hunk_re command_re directive_re
code_signals = brace_end ∷ semicolon_end ∷ include_re ∷ hunk_re ∷ command_re ∷ directive_re ∷ []

-- /[.。！!？?:：]\s*$/
unfoldable pub prose_end_re : Regex
prose_end_re = cat (cls (one_of (codes ".。！!？?:：")) ∷ star space ∷ eol ∷ [])

-- /^(location|server|…|debug_connection)\b/
unfoldable pub nginx_directives : Regex
nginx_directives = word_start (
    codes "location"
    ∷ codes "server"
    ∷ codes "http"
    ∷ codes "events"
    ∷ codes "stream"
    ∷ codes "upstream"
    ∷ codes "mail"
    ∷ codes "types"
    ∷ codes "map"
    ∷ codes "geo"
    ∷ codes "split_clients"
    ∷ codes "limit_req_zone"
    ∷ codes "limit_conn_zone"
    ∷ codes "proxy_pass"
    ∷ codes "listen"
    ∷ codes "root"
    ∷ codes "index"
    ∷ codes "error_log"
    ∷ codes "access_log"
    ∷ codes "include"
    ∷ codes "ssl_certificate"
    ∷ codes "add_header"
    ∷ codes "rewrite"
    ∷ codes "return"
    ∷ codes "aio"
    ∷ codes "sendfile"
    ∷ codes "directio"
    ∷ codes "output_buffers"
    ∷ codes "resolver"
    ∷ codes "acme_issuer"
    ∷ codes "debug_connection"
    ∷ [])

-- /\bngx_[a-z_]+_t\b|\bstatic\s+ngx_|\bu_char\b|(?<!-)->|\bngx_[a-z_]+\s*\(/
unfoldable pub c_re : Regex
c_re =
    let lower_ = cls (λ c. is_lower c || c == b'_') in
    alts (
      cat (boundary ∷ lit (codes "ngx_") ∷ plus lower_ ∷ lit (codes "_t") ∷ boundary ∷ [])
      ∷ cat (boundary ∷ lit (codes "static") ∷ plus space ∷ lit (codes "ngx_") ∷ [])
      ∷ cat (boundary ∷ lit (codes "u_char") ∷ boundary ∷ [])
      ∷ cat (not_behind (λ c. c == b'-') ∷ lit (codes "->") ∷ [])
      ∷ cat (boundary ∷ lit (codes "ngx_") ∷ plus lower_ ∷ star space ∷ chr b'(' ∷ [])
      ∷ [])

-- /\b(?:function|import|export|await|async|const|let)\b|\bvar\s+[A-Za-z_$]|=>/
unfoldable pub javascript_re : Regex
javascript_re = alts (
    cat (
      boundary
      ∷ alts (
          map lit (
            codes "function"
            ∷ codes "import"
            ∷ codes "export"
            ∷ codes "await"
            ∷ codes "async"
            ∷ codes "const"
            ∷ codes "let"
            ∷ []))
      ∷ boundary
      ∷ [])
    ∷ cat (
        boundary
        ∷ lit (codes "var")
        ∷ plus space
        ∷ cls (λ c. is_alpha c || one_of (codes "_$") c)
        ∷ [])
    ∷ lit (codes "=>")
    ∷ [])

-- /^\s*[[{]/
unfoldable pub json_start : Regex
json_start = cat (bol ∷ star space ∷ cls (one_of (codes "[{")) ∷ [])

-- /"[^"]+"\s*:/
unfoldable pub json_key : Regex
json_key = cat (chr 34 ∷ plus (not_in (λ c. c == 34)) ∷ chr 34 ∷ star space ∷ chr b':' ∷ [])

-- /^(\.\/configure|nginx\s|kill\s|service\s|systemctl\s|ps\s|curl\s|sudo\s|make\b|kldload\s|apt\s|yum\s)/
unfoldable pub bash_re : Regex
bash_re =
    let spaced = λ (w : Text). seq (lit w) space in
    seq bol (
      group 1 (
        alts (
          lit (codes "./configure")
          ∷ spaced (codes "nginx")
          ∷ spaced (codes "kill")
          ∷ spaced (codes "service")
          ∷ spaced (codes "systemctl")
          ∷ spaced (codes "ps")
          ∷ spaced (codes "curl")
          ∷ spaced (codes "sudo")
          ∷ seq (lit (codes "make")) boundary
          ∷ spaced (codes "kldload")
          ∷ spaced (codes "apt")
          ∷ spaced (codes "yum")
          ∷ [])))

-- /[{};]\s*$/
unfoldable pub nginx_end : Regex
nginx_end = cat (cls (one_of (codes "{};")) ∷ star space ∷ eol ∷ [])

-- /^\s*(`{3,})(.*)$/
unfoldable pub fence_re : Regex
fence_re = cat (
    bol
    ∷ star space
    ∷ group 1 (cat (chr 96 ∷ chr 96 ∷ chr 96 ∷ star (chr 96) ∷ []))
    ∷ group 2 (star any_char)
    ∷ eol
    ∷ [])

-- /^\s*>\s?/ of the fingerprint, written a second time in the source
unfoldable pub fp_quote_re : Regex
fp_quote_re = cat (bol ∷ star space ∷ chr b'>' ∷ opt space ∷ [])

-- /\\([…])/g of the fingerprint, written a second time in the source
unfoldable pub fp_escape_re : Regex
fp_escape_re = seq (chr 92) (group 1 (cls (one_of escapable)))

-- /\s+/g
unfoldable pub spaces_re : Regex
spaces_re = plus space

-- /^(\s*)>/
unfoldable pub indent_re : Regex
indent_re = cat (bol ∷ group 1 (star space) ∷ chr b'>' ∷ [])

-- /^\s*`{3,}\s*$/
unfoldable pub closing_re : Regex
closing_re =
    cat (bol ∷ star space ∷ chr 96 ∷ chr 96 ∷ chr 96 ∷ star (chr 96) ∷ star space ∷ eol ∷ [])

-- /\.md$/i
unfoldable pub md_re : Regex
md_re =
    cat
      (chr b'.' ∷ cls (λ c. c == b'm' || c == b'M') ∷ cls (λ c. c == b'd' || c == b'D') ∷ eol ∷ [])

-- /^(\d+)-(\d+)$/
unfoldable pub range_re : Regex
range_re = cat (bol ∷ group 1 (plus digit) ∷ chr b'-' ∷ group 2 (plus digit) ∷ eol ∷ [])

-- /^(\d+)/
unfoldable pub number_re : Regex
number_re = seq bol (group 1 (plus digit))

-- Opens the expressions, for a test.
unfoldable pub fence_patterns : Unit {0}
unfolding quote_re meta_re nested_re strip_re escape_re code_signals prose_end_re nginx_directives
    c_re javascript_re json_start json_key bash_re nginx_end fence_re fp_quote_re fp_escape_re
    spaces_re indent_re closing_re md_re range_re number_re
fence_patterns = tt
