-- ===== src/Challenge/Tickets.antt =====
-- cloudflare/challenge-worker/src/tickets.js: the tickets of the hand-over between nginx and the worker.
use nginx_web_ui.Prelude.{
  ℕ, ◌+◌, ◌%◌, Bool, true, false, not, ◌&&◌, ◌||◌, List, [], ◌∷◌, ◌++◌, map, Option, none, some,
  Text, codes, text_eq, starts_with, includes, length, all, any, ltb, leb, ◌==◌, decimal, print,
  is_digit, is_alpha, one_of, split_at, join_lines, if◌then◌else◌,
}
use nginx_web_ui.Regex.{
  Regex, cls, seq, star, bol, eol, chr, plus, opt, cat, repeat, at_most, test, replace_first,
}
use nginx_web_ui.Challenge.Platform.{Platform}

abbrev pub path_prefix : Text
path_prefix = codes "/.well-known/nwu-challenge/"

abbrev is_hex : ℕ → Bool
is_hex c = is_digit c || one_of (codes "abcdefABCDEF") c

abbrev is_alnum : ℕ → Bool
is_alnum c = is_alpha c || is_digit c

-- /^[A-Za-z0-9_-]+$/, /=+$/
unfoldable pub b64_re : Regex
b64_re = cat (bol ∷ plus (cls (λ c. is_alnum c || one_of (codes "_-") c)) ∷ eol ∷ [])

unfoldable pub padding_re : Regex
padding_re = cat (plus (chr b'=') ∷ eol ∷ [])

-- /^\[[0-9a-fA-F:.]+\]$/
unfoldable pub bracket_re : Regex
bracket_re =
    cat (bol ∷ chr b'[' ∷ plus (cls (λ c. is_hex c || one_of (codes ":.") c)) ∷ chr b']' ∷ eol ∷ [])

-- /^[a-z0-9](?:[a-z0-9-]{0,61}[a-z0-9])?(?:\.[a-z0-9](?:[a-z0-9-]{0,61}[a-z0-9])?)*$/i
abbrev host_label : Regex
host_label =
    seq (cls is_alnum) (opt (seq (at_most 61 (cls (λ c. is_alnum c || c == b'-'))) (cls is_alnum)))

unfoldable pub host_re : Regex
host_re = cat (bol ∷ host_label ∷ star (seq (chr b'.') host_label) ∷ eol ∷ [])

-- /^(?:\d{1,3}\.){3}\d{1,3}$/
abbrev octet : Regex
octet = seq (cls is_digit) (at_most 2 (cls is_digit))

unfoldable pub ipv4_re : Regex
ipv4_re = cat (bol ∷ repeat 3 (seq octet (chr b'.')) ∷ octet ∷ eol ∷ [])

-- /^[a-fA-F0-9:.]+$/
unfoldable pub ipv6_re : Regex
ipv6_re = cat (bol ∷ plus (cls (λ c. is_hex c || one_of (codes ":.") c)) ∷ eol ∷ [])

-- /^[a-fA-F0-9]{32}$/, /^\d+$/
unfoldable pub nonce_re : Regex
nonce_re = cat (bol ∷ repeat 32 (cls is_hex) ∷ eol ∷ [])

unfoldable pub expiry_re : Regex
expiry_re = cat (bol ∷ plus (cls is_digit) ∷ eol ∷ [])

-- /[\x00-\x1f\x7f\\]/, /[\r\x00]/
unfoldable pub control_re : Regex
control_re = cls (λ c. ltb c 32 || c == 127 || c == 92)

unfoldable pub break_re : Regex
break_re = cls (λ c. c == 13 || c == 0)

abbrev to_url_letter : ℕ → ℕ
to_url_letter c = if c == b'+' then b'-' else if c == b'/' then b'_' else c

abbrev from_url_letter : ℕ → ℕ
from_url_letter c = if c == b'-' then b'+' else if c == b'_' then b'/' else c

abbrev is_nil : Text → Bool
is_nil [] = true
is_nil (c ∷ s) = false

pub record Ticket : Type 0 where
  pub kind : Text
  pub exp : ℕ
  pub ip : Text
  pub host : Text
  pub path : Text
  pub nonce : Text

-- A ticket, a `TicketError` with the ticket that expired, and any other `TicketError`.
pub data TicketResult : Type 0 where
  good expired : Ticket → TicketResult
  bad : TicketResult

-- The two parts of a token, and the seven fields of a payload.
abbrev pub two_parts : List Text → Option (Text × Text)
two_parts [] = none
two_parts (a ∷ []) = none
two_parts (a ∷ b ∷ []) = some (a, b)
two_parts (a ∷ b ∷ c ∷ rest) = none

pub record Fields : Type 0 where
  pub version : Text
  pub kind : Text
  pub expiry : Text
  pub ip : Text
  pub host : Text
  pub path : Text
  pub nonce : Text

abbrev pub seven_fields : List Text → Option Fields
seven_fields (v ∷ k ∷ e ∷ i ∷ h ∷ p ∷ n ∷ []) =
    some (record { version = v; kind = k; expiry = e; ip = i; host = h; path = p; nonce = n })
seven_fields (v ∷ k ∷ e ∷ i ∷ h ∷ p ∷ n ∷ x ∷ rest) = none
seven_fields [] = none
seven_fields (v ∷ []) = none
seven_fields (v ∷ k ∷ []) = none
seven_fields (v ∷ k ∷ e ∷ []) = none
seven_fields (v ∷ k ∷ e ∷ i ∷ []) = none
seven_fields (v ∷ k ∷ e ∷ i ∷ h ∷ []) = none
seven_fields (v ∷ k ∷ e ∷ i ∷ h ∷ p ∷ []) = none

-- `!v || /[\r\x00]/.test(v)`
unfoldable pub is_bad_field : Text → Bool
is_bad_field v = is_nil v || test break_re v

unfoldable pub schema_ok : Fields → Bool
unfolding is_bad_field
schema_ok f =
    text_eq f.version (codes "nwu1")
    && text_eq f.kind (codes "req")
    && test expiry_re f.expiry
    && not
        (any is_bad_field (f.version ∷ f.kind ∷ f.expiry ∷ f.ip ∷ f.host ∷ f.path ∷ f.nonce ∷ []))

-- `Number.MAX_SAFE_INTEGER`
abbrev pub max_safe : ℕ
max_safe = 9007199254740991

abbrev pub ticket_of : Fields → Ticket
ticket_of f = record {
  kind = f.kind;
  exp = decimal 0 f.expiry;
  ip = f.ip;
  host = f.host;
  path = f.path;
  nonce = f.nonce;
}

-- The times, for a ticket that is well formed.
unfoldable pub check_times : ℕ → Ticket → TicketResult
check_times now t =
    if ltb t.exp now then expired t else if ltb (now + 300) t.exp then bad else good t

module _ (w : Platform) where
  unfoldable pub b64 : Text → Text
  b64 bytes = replace_first padding_re (λ m. []) (map to_url_letter (w.btoa bytes))

  abbrev pub same_b64 : Text → Option Text → Option Text
  same_b64 text none = none
  same_b64 text (some bytes) = if text_eq (b64 bytes) text then some bytes else none

  unfoldable pub unb64 : Text → Option Text
  unfolding b64
  unb64 text =
      if not (test b64_re text) || length text % 4 == 1
      then none
      else same_b64 text (w.atob (map from_url_letter text))

  unfoldable pub valid_host : Text → Bool
  valid_host host =
      if is_nil host || ltb 253 (length host)
      then false
      else if test bracket_re host
      then w.is_url (codes "https://" ++ host ++ codes "/")
      else test host_re host

  unfoldable pub valid_ip : Text → Bool
  valid_ip ip =
      if test ipv4_re ip
      then all (λ n. leb (decimal 0 n) 255) (split_at b'.' ip)
      else if not (test ipv6_re ip) || not (includes (codes ":") ip)
      then false
      else w.is_url (codes "https://[" ++ ip ++ codes "]/")

  unfoldable pub safe_return : Text → Text
  safe_return path =
      if not (starts_with (codes "/") path)
        || starts_with (codes "//") path
        || ltb 2048 (length (w.encode path))
        || test control_re path
        || starts_with path_prefix path
      then codes "/"
      else path

  unfoldable pub ticket_ok : Ticket → Bool
  unfolding valid_host valid_ip
  ticket_ok t = valid_ip t.ip && valid_host t.host && test nonce_re t.nonce

  -- The tests of the fields, in order.
  abbrev pub check_fields : ℕ → Option Fields → TicketResult
  check_fields now none = bad
  check_fields now (some f) =
      if schema_ok f && leb (decimal 0 f.expiry) max_safe && ticket_ok (ticket_of f)
      then check_times now (ticket_of f)
      else bad

  abbrev pub check_text : ℕ → Option Text → TicketResult
  check_text now none = bad
  check_text now (some t) = check_fields now (seven_fields (split_at 10 t))

  -- The signature, over the bytes as they came.
  unfoldable pub signed : Text → Text → Text → Bool
  signed secret bytes sig =
      length sig == 20 && not (is_nil secret) && w.hmac_verify secret sig bytes

  abbrev pub check_bytes : Text → ℕ → Option Text → Option Text → TicketResult
  check_bytes secret now none sig = bad
  check_bytes secret now (some bytes) none = bad
  check_bytes secret now (some bytes) (some sig) =
      if signed secret bytes sig then check_text now (w.decode bytes) else bad

  abbrev pub check_parts : Text → ℕ → Option (Text × Text) → TicketResult
  check_parts secret now none = bad
  check_parts secret now (some p) = check_bytes secret now (unb64 p.0) (unb64 p.1)

  -- `token` is a string or null.
  unfoldable pub verify_request_ticket : Option Text → Text → ℕ → TicketResult
  unfolding unb64 signed check_times ticket_ok schema_ok split_at
  verify_request_ticket none secret now = bad
  verify_request_ticket (some token) secret now =
      if ltb 4096 (length token) || ltb max_safe now
      then bad
      else check_parts secret now (two_parts (split_at b'.' token))

  -- The payload of a response.
  unfoldable pub response_payload : Ticket → ℕ → Text
  unfolding safe_return
  response_payload t now = join_lines (
      codes "nwu1"
      ∷ codes "resp"
      ∷ print (now + 60)
      ∷ t.ip
      ∷ t.host
      ∷ safe_return t.path
      ∷ t.nonce
      ∷ [])

  unfoldable pub sign_response_ticket : Ticket → Text → ℕ → Option Text
  unfolding ticket_ok response_payload b64
  sign_response_ticket t secret now =
      let bytes = w.encode (response_payload t now) in
      if leb now max_safe && ticket_ok t && not (is_nil secret)
      then some (b64 bytes ++ codes "." ++ b64 (w.hmac_sign secret bytes))
      else none

  unfoldable pub callback_url : Text → Text → Option Text
  unfolding valid_host
  callback_url host token =
      if valid_host host
      then some (
          codes "https://"
          ++ host
          ++ path_prefix
          ++ codes "callback?token="
          ++ w.encode_uri_component token)
      else none
