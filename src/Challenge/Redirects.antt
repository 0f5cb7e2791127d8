-- ===== src/Challenge/Redirects.antt =====
-- What `createHandler` of cloudflare/challenge-worker/src/index.js has checked before it redirects.
use nginx_web_ui.Prelude.{
  ℕ, ◌≡◌, refl, Bool, true, false, not, ◌||◌, List, [], ◌∷◌, Option, none, some, Text, codes,
  text_eq, if◌then◌else◌,
}
use nginx_web_ui.Challenge.Platform.{Platform}
use nginx_web_ui.Challenge.Tickets.{
  Ticket, TicketResult, good, expired, bad, verify_request_ticket, sign_response_ticket,
  callback_url,
}
use nginx_web_ui.Challenge.Turnstile.{Fetched, validate_turnstile}
use nginx_web_ui.Challenge.Handler.{
  Env, Request, Response, page, client_script, style_sheet, redirect, Page, retain, Form, is_text,
  text_of, env_ok, get, repeated, read_chunks, same_origin, challenge_of, redirect_to, signed_reply,
  checked_again, solved_reply, verified_reply, token_reply, form_reply, body_reply, post_reply,
  shown_reply, get_reply, handle,
}

module _ (w : Platform) (form : Text → Option Form) (fetched : Text → Text → Fetched)
    (now final : ℕ) where
  -- The token was good at both times, the service confirmed the challenge for the ticket's nonce, and
  -- the address is that of the ticket's host with a response that was signed for the ticket.
  pub record Earned (e : Env) (url : Text) : Type 0 where
    pub token : Text
    pub challenge : Text
    pub ticket : Ticket
    pub again : Ticket
    pub reply : Text
    pub first : verify_request_ticket w (some token) (text_of e.ticket_secret) now ≡ good ticket
    pub solved :
        validate_turnstile w
          (text_of e.hostname)
          ticket.nonce
          (fetched (text_of e.turnstile_secret) challenge)
        ≡ some true
    pub second : verify_request_ticket w (some token) (text_of e.ticket_secret) final ≡ good again
    pub signs : sign_response_ticket w ticket (text_of e.ticket_secret) final ≡ some reply
    pub leads : callback_url w ticket.host reply ≡ some url

  abbrev pub EarnedIn : Env → Response → Type 0
  EarnedIn e (page status error p) = Unit {0}
  EarnedIn e client_script = Unit {0}
  EarnedIn e style_sheet = Unit {0}
  EarnedIn e (redirect url) = Earned e url

  if-EarnedIn :
      (e : Env) (b : Bool) (x y : Response)
      → EarnedIn e x
      → EarnedIn e y
      → EarnedIn e (if b then x else y)
  if-EarnedIn e true x y hx hy = hx
  if-EarnedIn e false x y hx hy = hy

  redirect_to-Earned :
      (e : Env) (token challenge : Text) (t again : Ticket) (reply : Text) (p : Page)
      (o : Option Text)
      → verify_request_ticket w (some token) (text_of e.ticket_secret) now ≡ good t
      → validate_turnstile w
          (text_of e.hostname)
          t.nonce
          (fetched (text_of e.turnstile_secret) challenge)
        ≡ some true
      → verify_request_ticket w (some token) (text_of e.ticket_secret) final ≡ good again
      → sign_response_ticket w t (text_of e.ticket_secret) final ≡ some reply
      → callback_url w t.host reply ≡ o
      → EarnedIn e (redirect_to w form fetched now final p o)
  redirect_to-Earned e token challenge t again reply p none a b c d h = tt
  redirect_to-Earned e token challenge t again reply p (some url) a b c d h = record {
    token = token;
    challenge = challenge;
    ticket = t;
    again = again;
    reply = reply;
    first = a;
    solved = b;
    second = c;
    signs = d;
    leads = h;
  }

  signed_reply-Earned :
      (e : Env) (token challenge : Text) (t again : Ticket) (p : Page) (o : Option Text)
      → verify_request_ticket w (some token) (text_of e.ticket_secret) now ≡ good t
      → validate_turnstile w
          (text_of e.hostname)
          t.nonce
          (fetched (text_of e.turnstile_secret) challenge)
        ≡ some true
      → verify_request_ticket w (some token) (text_of e.ticket_secret) final ≡ good again
      → sign_response_ticket w t (text_of e.ticket_secret) final ≡ o
      → EarnedIn e (signed_reply w form fetched now final p t o)
  signed_reply-Earned e token challenge t again p none a b c h = tt
  signed_reply-Earned e token challenge t again p (some reply) a b c h =
      redirect_to-Earned e token challenge t again reply p (callback_url w t.host reply) a b c h
        refl

  checked_again-Earned :
      (e : Env) (token challenge : Text) (t : Ticket) (p : Page) (r : TicketResult)
      → verify_request_ticket w (some token) (text_of e.ticket_secret) now ≡ good t
      → validate_turnstile w
          (text_of e.hostname)
          t.nonce
          (fetched (text_of e.turnstile_secret) challenge)
        ≡ some true
      → verify_request_ticket w (some token) (text_of e.ticket_secret) final ≡ r
      → EarnedIn e (checked_again w form fetched now final e p t r)
  checked_again-Earned e token challenge t p bad a b h = tt
  checked_again-Earned e token challenge t p (expired old) a b h = tt
  checked_again-Earned e token challenge t p (good again) a b h =
      signed_reply-Earned e token challenge t again p _ a b h refl

  solved_reply-Earned :
      (e : Env) (token challenge : Text) (t : Ticket) (o : Option Bool)
      → verify_request_ticket w (some token) (text_of e.ticket_secret) now ≡ good t
      → validate_turnstile w
          (text_of e.hostname)
          t.nonce
          (fetched (text_of e.turnstile_secret) challenge)
        ≡ o
      → EarnedIn e (solved_reply w form fetched now final e token t o)
  solved_reply-Earned e token challenge t none a h = tt
  solved_reply-Earned e token challenge t (some false) a h = tt
  solved_reply-Earned e token challenge t (some true) a h =
      checked_again-Earned e token challenge t (retain token t) _ a h refl

  verified_reply-Earned :
      (e : Env) (token challenge : Text) (r : TicketResult)
      → verify_request_ticket w (some token) (text_of e.ticket_secret) now ≡ r
      → EarnedIn e (verified_reply w form fetched now final e token challenge r)
  verified_reply-Earned e token challenge bad h = tt
  verified_reply-Earned e token challenge (expired old) h = tt
  verified_reply-Earned e token challenge (good t) h =
      solved_reply-Earned e token challenge t _ h refl

  token_reply-Earned :
      (e : Env) (token challenge : Option Text)
      → EarnedIn e (token_reply w form fetched now final e token challenge)
  token_reply-Earned e token none = tt
  token_reply-Earned e none (some challenge) = tt
  token_reply-Earned e (some token) (some challenge) =
      verified_reply-Earned e token challenge _ refl

  form_reply-Earned :
      (e : Env) (o : Option Form) → EarnedIn e (form_reply w form fetched now final e o)
  form_reply-Earned e none = tt
  form_reply-Earned e (some f) = if-EarnedIn e (repeated f) _ _ tt (
      token_reply-Earned e (get (codes "t") f)
        (challenge_of (get (codes "cf-turnstile-response") f)))

  body_reply-Earned :
      (e : Env) (o : Option Text) → EarnedIn e (body_reply w form fetched now final e o)
  body_reply-Earned e none = tt
  body_reply-Earned e (some bytes) = form_reply-Earned e (form bytes)

  post_reply-Earned : (e : Env) (r : Request) → EarnedIn e (post_reply w form fetched now final e r)
  unfolding post_reply
  post_reply-Earned e r = if-EarnedIn e (not (same_origin r)) _ _ tt (
      if-EarnedIn e (not (is_text r.media_type (codes "application/x-www-form-urlencoded"))) _ _ tt
        (body_reply-Earned e (read_chunks 0 r.body)))

  shown_reply-Earned :
      (e : Env) (token : Text) (r : TicketResult)
      → EarnedIn e (shown_reply w form fetched now final token r)
  shown_reply-Earned e token bad = tt
  shown_reply-Earned e token (expired old) = tt
  shown_reply-Earned e token (good t) = tt

  get_reply-Earned :
      (e : Env) (tokens : List Text) → EarnedIn e (get_reply w form fetched now final e tokens)
  get_reply-Earned e [] = tt
  get_reply-Earned e (a ∷ b ∷ rest) = tt
  get_reply-Earned e (a ∷ []) =
      shown_reply-Earned e a (verify_request_ticket w (some a) (text_of e.ticket_secret) now)

  -- Whatever the request, the form and the service: the worker redirects only where the token was
  -- good at both times, the service confirmed the challenge for the ticket's nonce, and then to the
  -- callback of the ticket's host with a response that was signed for the ticket.
  pub handle-Earned : (e : Env) (r : Request) → EarnedIn e (handle w form fetched now final e r)
  unfolding handle
  handle-Earned e r =
      let verify = text_eq r.path (codes "/verify") in
      let script = text_eq r.path (codes "/client.js") in
      let style = text_eq r.path (codes "/style.css") in
      if-EarnedIn e (not (text_eq r.path (codes "/") || verify || script || style)) _ _ tt (
        if-EarnedIn e (not (text_eq r.method (if verify then codes "POST" else codes "GET"))) _ _ tt
          (if-EarnedIn e script _ _ tt (
            if-EarnedIn e style _ _ tt (
              if-EarnedIn e (not (env_ok e)) _ _ tt (
                if-EarnedIn e (text_eq r.method (codes "GET")) _ _ (get_reply-Earned e r.tokens)
                  (post_reply-Earned e r))))))
