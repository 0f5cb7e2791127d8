-- ===== src/Challenge/Handler.antt =====
-- `createHandler` of cloudflare/challenge-worker/src/index.js. Of a page, what decides its content is
-- modelled; the parsing of URLs, headers and forms is the platform's.
use nginx_web_ui.Prelude.{
  ℕ, ◌+◌, Bool, true, false, not, ◌&&◌, ◌||◌, List, [], ◌∷◌, ◌++◌, Option, none, some, Text, codes,
  text_eq, any, length, ltb, is_blank, if◌then◌else◌,
}
use nginx_web_ui.Challenge.Platform.{Platform}
use nginx_web_ui.Challenge.Tickets.{
  Ticket, TicketResult, good, expired, bad, verify_request_ticket, sign_response_ticket,
  callback_url, safe_return,
}
use nginx_web_ui.Challenge.Turnstile.{Fetched, validate_turnstile}

-- The variables of `required`; `none` where one is no string.
pub record Env : Type 0 where
  pub ticket_secret : Option Text
  pub turnstile_secret : Option Text
  pub site_key : Option Text
  pub hostname : Option Text

pub record Request : Type 0 where
  pub method : Text
  pub path : Text
  -- `url.searchParams.getAll('t')`
  pub tokens : List Text
  -- `url.origin`, and the headers
  pub own_origin : Text
  pub origin : Option Text
  pub fetch_site : Option Text
  pub fetch_mode : Option Text
  -- the media type of `content-type`, trimmed and in lower case
  pub media_type : Option Text
  -- the chunks of the body
  pub body : List Text

pub data PageError : Type 0 where
  invalid_ticket service_unavailable : PageError

-- `model`: the ticket whose challenge the page shows, and where its button leads to.
pub record Page : Type 0 where
  pub ticket : Option Text
  pub nonce : Option Text
  pub ip : Text
  pub return_url : Option Text

pub data Response : Type 0 where
  page : ℕ → Option PageError → Page → Response
  client_script style_sheet : Response
  redirect : Text → Response

abbrev pub blank_page : Page
blank_page = record { ticket = none; nonce = none; ip = []; return_url = none }

-- `retain(token, ticket)`
abbrev pub retain : Text → Ticket → Page
retain token t = record { ticket = some token; nonce = some t.nonce; ip = t.ip; return_url = none }

abbrev pub is_text : Option Text → Text → Bool
is_text none t = false
is_text (some s) t = text_eq s t

abbrev is_set : Option Text → Bool
is_set none = false
is_set (some s) = not (is_blank s)

abbrev pub text_of : Option Text → Text
text_of none = []
text_of (some s) = s

unfoldable pub env_ok : Env → Bool
env_ok e =
    is_set e.ticket_secret && is_set e.turnstile_secret && is_set e.site_key && is_set e.hostname

-- `readForm`: the body, up to 16384 bytes.
unfoldable pub read_chunks : ℕ → List Text → Option Text
read_chunks read [] = some []
read_chunks read (c ∷ cs) =
    let rest = read_chunks (read + length c) cs in
    if ltb 16384 (read + length c) then none else elim rest [ none ↦ none | some t ↦ some (c ++ t) ]

abbrev pub Form : Type 0
Form = List (Text × Text)

-- `form.get(key)`
unfoldable pub get : Text → Form → Option Text
get key [] = none
get key (f ∷ fs) = if text_eq f.0 key then some f.1 else get key fs

-- Some key has several values.
unfoldable pub repeated : Form → Bool
repeated [] = false
repeated (f ∷ fs) = any (λ g. text_eq g.0 f.0) fs || repeated fs

unfoldable pub same_origin : Request → Bool
same_origin r =
    is_text r.origin r.own_origin
    || (is_text r.origin (codes "null")
        && is_text r.fetch_site (codes "same-origin")
        && is_text r.fetch_mode (codes "navigate"))

-- `!challenge || challenge.length > 2048`, the other way round.
abbrev pub challenge_of : Option Text → Option Text
challenge_of none = none
challenge_of (some []) = none
challenge_of (some (c ∷ s)) = if ltb 2048 (length (c ∷ s)) then none else some (c ∷ s)

abbrev denied : Page → Response
denied p = page 429 (some invalid_ticket) p

-- `form`: `URLSearchParams` of the decoded body, or `none` where it is no UTF-8. `fetched`: the answer
-- of the challenge service to a secret and a challenge. `now` is the time of the first check, and
-- `final` that of the second.
module _ (w : Platform) (form : Text → Option Form) (fetched : Text → Text → Fetched)
    (now final : ℕ) where
  -- The `catch` of a `TicketError`.
  unfoldable pub expired_page : Ticket → Page → Page
  expired_page t p = record p {
    ip = t.ip;
    return_url = some (codes "https://" ++ t.host ++ safe_return w t.path);
  }

  abbrev pub redirect_to : Page → Option Text → Response
  redirect_to p none = denied p
  redirect_to p (some url) = redirect url

  abbrev pub signed_reply : Page → Ticket → Option Text → Response
  signed_reply p t none = denied p
  signed_reply p t (some token) = redirect_to p (callback_url w t.host token)

  -- The second check, and the response ticket.
  abbrev pub checked_again : Env → Page → Ticket → TicketResult → Response
  checked_again e p t bad = denied p
  checked_again e p t (expired old) = denied (expired_page old p)
  checked_again e p t (good again) =
      signed_reply p t (sign_response_ticket w t (text_of e.ticket_secret) final)

  abbrev pub solved_reply : Env → Text → Ticket → Option Bool → Response
  solved_reply e token t none = page 503 (some service_unavailable) (retain token t)
  solved_reply e token t (some false) = denied (retain token t)
  solved_reply e token t (some true) =
      checked_again e (retain token t) t
        (verify_request_ticket w (some token) (text_of e.ticket_secret) final)

  abbrev pub verified_reply : Env → Text → Text → TicketResult → Response
  verified_reply e token challenge bad = denied blank_page
  verified_reply e token challenge (expired old) = denied (expired_page old blank_page)
  verified_reply e token challenge (good t) = solved_reply e token t (
      validate_turnstile w (text_of e.hostname) t.nonce
        (fetched (text_of e.turnstile_secret) challenge))

  abbrev pub token_reply : Env → Option Text → Option Text → Response
  token_reply e token none = denied blank_page
  token_reply e none (some challenge) = denied blank_page
  token_reply e (some token) (some challenge) =
      verified_reply e token challenge
        (verify_request_ticket w (some token) (text_of e.ticket_secret) now)

  abbrev pub form_reply : Env → Option Form → Response
  form_reply e none = denied blank_page
  form_reply e (some f) =
      if repeated f
      then denied blank_page
      else token_reply e (get (codes "t") f) (challenge_of (get (codes "cf-turnstile-response") f))

  abbrev pub body_reply : Env → Option Text → Response
  body_reply e none = page 413 (some invalid_ticket) blank_page
  body_reply e (some bytes) = form_reply e (form bytes)

  -- `POST /verify`
  unfoldable pub post_reply : Env → Request → Response
  unfolding expired_page read_chunks repeated get same_origin
  post_reply e r =
      if not (same_origin r)
      then denied blank_page
      else if not (is_text r.media_type (codes "application/x-www-form-urlencoded"))
      then page 415 (some invalid_ticket) blank_page
      else body_reply e (read_chunks 0 r.body)

  abbrev pub shown_reply : Text → TicketResult → Response
  shown_reply token bad = denied blank_page
  shown_reply token (expired old) = denied (expired_page old blank_page)
  shown_reply token (good t) = page 200 none (retain token t)

  -- `GET /` (and `GET /client.js` and `GET /style.css` do not come here)
  abbrev pub get_reply : Env → List Text → Response
  get_reply e [] = page 200 none blank_page
  get_reply e (a ∷ b ∷ rest) = denied blank_page
  get_reply e (a ∷ []) =
      shown_reply a (verify_request_ticket w (some a) (text_of e.ticket_secret) now)

  unfoldable pub handle : Env → Request → Response
  unfolding post_reply env_ok
  handle e r =
      let verify = text_eq r.path (codes "/verify") in
      let script = text_eq r.path (codes "/client.js") in
      let style = text_eq r.path (codes "/style.css") in
      if not (text_eq r.path (codes "/") || verify || script || style)
      then page 404 (some invalid_ticket) blank_page
      else if not (text_eq r.method (if verify then codes "POST" else codes "GET"))
      then page 405 (some invalid_ticket) blank_page
      else if script
      then client_script
      else if style
      then style_sheet
      else if not (env_ok e)
      then page 503 (some service_unavailable) blank_page
      else if text_eq r.method (codes "GET")
      then get_reply e r.tokens
      else post_reply e r
