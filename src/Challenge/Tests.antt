-- ===== src/Challenge/Tests.antt =====
-- The worker on a platform that takes every signature and decodes every payload to one ticket.
use nginx_web_ui.Prelude.{
  ◌≡◌, refl, true, [], ◌∷◌, Option, none, some, ◌⊎◌, Text, codes, decimal, join_lines,
  text_functions,
}
use nginx_web_ui.Regex.{engine}
use nginx_web_ui.Challenge.Platform.{Platform}
use nginx_web_ui.Challenge.Tickets.{
  safe_return, verify_request_ticket, good, control_re, unb64, b64, signed, check_times, ticket_ok,
  valid_ip, valid_host, schema_ok, is_bad_field, b64_re, padding_re, break_re, expiry_re, nonce_re,
  ipv4_re, bracket_re, host_re,
}
use nginx_web_ui.Challenge.Turnstile.{Fetched, response, answer}
use nginx_web_ui.Challenge.Handler.{Env, Request, Form, handle}
use nginx_web_ui.Challenge.Verified.{
  SafePath, safe_return-SafePath, Sound, verify_request_ticket-Sound,
}
use nginx_web_ui.Challenge.Redirects.{EarnedIn, handle-Earned}

abbrev nonce : Text
nonce = codes "0123456789abcdef0123456789abcdef"

-- The seven fields of a ticket.
abbrev payload : Text
payload = join_lines (
    codes "nwu1"
    ∷ codes "req"
    ∷ codes "150"
    ∷ codes "1.2.3.4"
    ∷ codes "a.example"
    ∷ codes "/x"
    ∷ nonce
    ∷ [])

abbrev plain : Platform
plain = record {
  hmac_verify = λ key sig bytes. true;
  hmac_sign = λ key bytes. key;
  encode = λ t. t;
  decode = λ bytes. some payload;
  atob = λ t. some t;
  btoa = λ t. t;
  is_url = λ t. true;
  encode_uri_component = λ t. t;
  to_lower_case = λ t. t;
}

safe_plain : safe_return plain (codes "/a/b") ≡ codes "/a/b"
unfolding safe_return engine control_re
safe_plain = refl

safe_outside : safe_return plain (codes "//evil.example/") ≡ codes "/"
unfolding safe_return engine control_re
safe_outside = refl

safe_return-SafePath_example :
    (SafePath plain (codes "/a/b") × (safe_return plain (codes "/a/b") ≡ codes "/a/b"))
    ⊎ (¬ SafePath plain (codes "/a/b") × (safe_return plain (codes "/a/b") ≡ codes "/"))
safe_return-SafePath_example = safe_return-SafePath plain (codes "/a/b")

abbrev token : Text
token = codes "payload.aaaaaaaaaaaaaaaaaaaa"

accepted :
    verify_request_ticket plain (some token) (codes "key") 100
    ≡ good (record {
      kind = codes "req";
      exp = 150;
      ip = codes "1.2.3.4";
      host = codes "a.example";
      path = codes "/x";
      nonce = nonce;
    })
unfolding verify_request_ticket unb64 b64 signed check_times ticket_ok valid_ip valid_host schema_ok
    is_bad_field text_functions decimal engine b64_re padding_re break_re expiry_re nonce_re ipv4_re
    bracket_re host_re
accepted = refl

verify_request_ticket-Sound_example :
    Sound plain (codes "key") 100 token (verify_request_ticket plain (some token) (codes "key") 100)
verify_request_ticket-Sound_example = verify_request_ticket-Sound plain (codes "key") 100 token

abbrev form_of : Text → Option Form
form_of bytes = some ((codes "t", token) ∷ (codes "cf-turnstile-response", codes "answer") ∷ [])

abbrev solved : Text → Text → Fetched
solved secret challenge = response 200 (
    answer (record {
      success = true;
      hostname = some (codes "a.example");
      action = some (codes "nwu_challenge");
      cdata = some nonce;
    }))

abbrev env : Env
env = record {
  ticket_secret = some (codes "key");
  turnstile_secret = some (codes "s");
  site_key = some (codes "k");
  hostname = some (codes "a.example");
}

abbrev posted : Request
posted = record {
  method = codes "POST";
  path = codes "/verify";
  tokens = [];
  own_origin = codes "https://a.example";
  origin = some (codes "https://a.example");
  fetch_site = none;
  fetch_mode = none;
  media_type = some (codes "application/x-www-form-urlencoded");
  body = codes "t=x" ∷ [];
}

handle-Earned_example :
    EarnedIn plain form_of solved 100 101 env (handle plain form_of solved 100 101 env posted)
handle-Earned_example = handle-Earned plain form_of solved 100 101 env posted
