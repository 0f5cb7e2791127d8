-- ===== src/Admin/IpTags/Addresses.antt =====
-- `isValidIp` of adminPage/denyAllow/index.js.
use nginx_web_ui.Prelude.{
  Bool, true, ◌&&◌, ◌||◌, List, [], ◌∷◌, Text, codes, text_eq, all, leb, decimal, is_digit, one_of,
  trim, split_at, if◌then◌else◌,
}
use nginx_web_ui.Regex.{Regex, cls, seq, bol, eol, chr, opt, cat, repeat, at_most, test}

abbrev digits_upto3 : Regex
digits_upto3 = seq (cls is_digit) (at_most 2 (cls is_digit))

-- /^(\d{1,3}\.){3}\d{1,3}(\/\d{1,2})?$/
unfoldable pub tag_ipv4_re : Regex
tag_ipv4_re = cat (
    bol
    ∷ repeat 3 (seq digits_upto3 (chr b'.'))
    ∷ digits_upto3
    ∷ opt (cat (chr b'/' ∷ cls is_digit ∷ opt (cls is_digit) ∷ []))
    ∷ eol
    ∷ [])

abbrev hex_upto4 : Regex
hex_upto4 = at_most 4 (cls (λ c. is_digit c || one_of (codes "abcdefABCDEF") c))

-- /^([0-9a-fA-F]{0,4}:){1,7}[0-9a-fA-F]{0,4}(\/\d{1,3})?$/
unfoldable pub tag_ipv6_re : Regex
tag_ipv6_re = cat (
    bol
    ∷ seq (seq hex_upto4 (chr b':')) (at_most 6 (seq hex_upto4 (chr b':')))
    ∷ hex_upto4
    ∷ opt (seq (chr b'/') digits_upto3)
    ∷ eol
    ∷ [])

-- The parts before and behind the first slash; `none` stands for undefined.
abbrev pub first_part : List Text → Text
first_part [] = []
first_part (a ∷ as_) = a

abbrev pub prefix_ok : List Text → Bool
prefix_ok [] = true
prefix_ok (a ∷ []) = true
prefix_ok (a ∷ b ∷ rest) = leb (decimal 0 b) 32

-- The numbers of an address that has the form of an IPv4 address.
unfoldable pub numbers_ok : Text → Bool
numbers_ok s =
    all (λ n. leb (decimal 0 n) 255) (split_at b'.' (first_part (split_at b'/' s)))
    && prefix_ok (split_at b'/' s)

unfoldable pub tag_is_valid : Text → Bool
unfolding numbers_ok
tag_is_valid s =
    if text_eq s (codes "all")
    then true
    else if test tag_ipv4_re s
    then numbers_ok s
    else test tag_ipv6_re s

unfoldable pub is_valid_ip : Text → Bool
unfolding tag_is_valid
is_valid_ip s = tag_is_valid (trim s)
