-- ===== src/Challenge/Turnstile.antt =====
-- cloudflare/challenge-worker/src/turnstile.js: the check of a challenge with the service that set it.
use nginx_web_ui.Prelude.{
  ℕ, Bool, false, ◌&&◌, Option, none, some, Text, codes, text_eq, ◌==◌, if◌then◌else◌,
}
use nginx_web_ui.Challenge.Platform.{Platform}

-- The members that are read of the service's answer; `none` where one is no string.
pub record SiteVerify : Type 0 where
  pub success : Bool
  pub hostname : Option Text
  pub action : Option Text
  pub cdata : Option Text

-- `fetch`: an error or a timeout, or a status with a body. A body that is no JSON is `broken`, and one
-- without members is `empty`.
pub data Body : Type 0 where
  broken empty : Body
  answer : SiteVerify → Body

pub data Fetched : Type 0 where
  unreachable : Fetched
  response : ℕ → Body → Fetched

abbrev same_text : Option Text → Text → Bool
same_text none t = false
same_text (some s) t = text_eq s t

module _ (w : Platform) where
  abbrev same_host : Option Text → Text → Bool
  same_host none t = false
  same_host (some s) t = text_eq (w.to_lower_case s) (w.to_lower_case t)

  unfoldable pub is_solved : Text → Text → SiteVerify → Bool
  is_solved hostname nonce r =
      r.success
      && same_host r.hostname hostname
      && same_text r.action (codes "nwu_challenge")
      && same_text r.cdata nonce

  abbrev pub check_body : Text → Text → Body → Option Bool
  check_body hostname nonce broken = none
  check_body hostname nonce empty = some false
  check_body hostname nonce (answer r) = some (is_solved hostname nonce r)

  -- `none` stands for a `ServiceError`.
  unfoldable pub validate_turnstile : Text → Text → Fetched → Option Bool
  unfolding is_solved
  validate_turnstile hostname nonce unreachable = none
  validate_turnstile hostname nonce (response status body) =
      if status == 200 then check_body hostname nonce body else none
