-- ===== src/Challenge/Platform.antt =====
-- What cloudflare/challenge-worker/src/tickets.js uses of the platform: a byte array is a list of
-- numbers, and a call that throws gives `none` or `false`.
use nginx_web_ui.Prelude.{Bool, Option, Text}

pub record Platform : Type 0 where
  -- `crypto.subtle.verify` and `sign` with HMAC: the key, the signature, and the bytes.
  pub hmac_verify : Text → Text → Text → Bool
  pub hmac_sign : Text → Text → Text
  -- `TextEncoder`, and `TextDecoder` with `fatal`
  pub encode : Text → Text
  pub decode : Text → Option Text
  pub atob : Text → Option Text
  pub btoa : Text → Text
  -- whether `new URL` accepts the text
  pub is_url : Text → Bool
  pub encode_uri_component : Text → Text
  pub to_lower_case : Text → Text
