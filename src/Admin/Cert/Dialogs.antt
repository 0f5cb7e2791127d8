-- ===== src/Admin/Cert/Dialogs.antt =====
-- A certificate is edited, copied and saved in adminPage/cert/index.js.
use nginx_web_ui.Prelude.{
  Bool, true, false, not, ◌&&◌, List, [], ◌∷◌, Option, none, some, Text, codes, text_eq, any,
  split_at, if◌then◌else◌,
}
use nginx_web_ui.Admin.Page.{
  Page, message, alert, render_form, get_request, post_form, sent, emit, ◌|>◌, set_val, set_html,
  set_disabled, set_greyed, Reply, success, refused, broken, or_empty, unless_null,
}
use nginx_web_ui.Admin.Cert.Form.{
  CertNames, loosely, check_type, check_dns_type, credential_fields, unlock_domain, lock_encryption,
  clear_files, clear_times, show_window,
}

-- The fields of a certificate that the server answers; `none` stands for null.
abbrev pub Cert : Type 0
Cert = Text → Option Text

-- `path[path.length - 1]`
unfoldable pub last_part : Text → Text
last_part s = go (split_at b'/' s)
  where
    go : List Text → Text
    go [] = []
    go (t ∷ []) = t
    go (t ∷ u ∷ ts) = go (u ∷ ts)

abbrev pub show_fields : List (Text × Text) → Cert → Page → Page
show_fields [] cert p = p
show_fields (f ∷ fs) cert p = show_fields fs cert (set_val f.0 (or_empty (cert f.1)) p)

abbrev pub is_filled : Option Text → Bool
is_filled none = false
is_filled (some t) = not (text_eq t [])

-- A certificate that was issued has both files.
unfoldable pub is_issued : Cert → Bool
is_issued cert = is_filled (cert (codes "pem")) && is_filled (cert (codes "key"))

-- A page, or the page at the error that stops the script.
pub data Outcome : Type 0 where
  goes_on stops : Page → Outcome

-- `cert.pem.split('/')` fails where the field is null.
abbrev pub show_file : Text → Text → Option Text → Outcome → Outcome
show_file id html file (stops p) = stops p
show_file id html none (goes_on p) = stops p
show_file id html (some path) (goes_on p) = goes_on (set_html html (last_part path) p)

abbrev pub show_time : Text → Option Text → Page → Page
show_time id none p = p
show_time id (some t) p = set_val id t p

abbrev pub go_on : (Page → Page) → Outcome → Outcome
go_on f (goes_on p) = goes_on (f p)
go_on f (stops p) = stops p

abbrev pub and_then : Outcome → (Page → Page) → Page
and_then (goes_on p) f = f p
and_then (stops p) f = p

-- A date as a text, and the time of one.
module _ (to_date to_time : Text → Text) (n : CertNames) where
  unfoldable pub edit : Text → Page → Page
  edit id p =
      p
      |> set_val n.id id
      |> emit (get_request (codes "/adminPage/cert/detail") ((codes "id", id) ∷ []))

  -- The fields that a copy has too.
  unfoldable pub show_cert : Cert → Page → Page
  show_cert cert p =
      p
      |> set_val (codes "domain") (or_empty (cert (codes "domain")))
      |> set_val (codes "type") (or_empty (cert (codes "type")))
      |> set_val (codes "dnsType") (unless_null (codes "ali") (cert (codes "dnsType")))
      |> set_val (codes "encryption") (unless_null (codes "RSA") (cert (codes "encryption")))
      |> show_fields credential_fields cert

  abbrev date_of : Option Text → Option Text
  date_of none = none
  date_of (some t) = some (to_date t)

  abbrev pub show_times : Cert → Page → Page
  show_times cert q =
      q
      |> show_time (codes "makeTime") (date_of (cert (codes "makeTime")))
      |> show_time (codes "endTime") (date_of (cert (codes "endTime")))

  -- An issued certificate keeps its type and its encryption.
  unfoldable pub lock_edited : Cert → Page → Page
  unfolding is_issued
  lock_edited cert p =
      p
      |> set_disabled (codes "domain") true
      |> set_greyed (codes "domain") true
      |> lock_encryption (is_issued cert)
      |> set_val n.id (or_empty (cert (codes "id")))
      |> set_val (codes "pem") (or_empty (cert (codes "pem")))
      |> set_val (codes "key") (or_empty (cert (codes "key")))

  -- The branch of a certificate that is edited.
  unfoldable pub show_edited : Cert → Page → Outcome
  unfolding lock_edited last_part
  show_edited cert p =
      goes_on (lock_edited cert p)
      |> show_file (codes "pem") (codes "pemPath") (cert (codes "pem"))
      |> show_file (codes "key") (codes "keyPath") (cert (codes "key"))
      |> go_on (show_times cert)

  -- The branch of a copy.
  unfoldable pub show_copy : Page → Page
  show_copy p =
      p |> unlock_domain |> lock_encryption false |> set_val n.id [] |> clear_files |> clear_times

  unfoldable pub edited : Bool → Reply Cert → Page → Page
  unfolding show_cert show_edited show_copy check_type check_dns_type show_window
  edited clone (success cert) p =
      let shown = show_cert cert p in
      let branch = if clone then goes_on (show_copy shown) else show_edited cert shown in
      and_then branch (λ q.
        q
        |> check_type (cert (codes "type"))
        |> check_dns_type (unless_null (codes "ali") (cert (codes "dnsType")))
        |> emit render_form
        |> show_window n (codes "certStr.edit"))
  edited clone (refused msg) p = emit (message msg) p
  edited clone broken p = emit (alert (codes "commonStr.errorInfo")) p

  -- The credentials that `addOver` asks for with a provider.
  unfoldable pub required : Text → List Text
  required dns =
      if text_eq dns (codes "ali")
      then codes "aliKey" ∷ codes "aliSecret" ∷ []
      else if text_eq dns (codes "dp")
      then codes "dpId" ∷ codes "dpKey" ∷ []
      else if text_eq dns (codes "cf")
      then codes "cfEmail" ∷ codes "cfKey" ∷ []
      else if text_eq dns (codes "cfToken")
      then codes "cft" ∷ []
      else if text_eq dns (codes "gd")
      then codes "gdKey" ∷ codes "gdSecret" ∷ []
      else if text_eq dns (codes "hw")
      then codes "hwUsername" ∷ codes "hwPassword" ∷ codes "hwDomainName" ∷ []
      else if text_eq dns (codes "aws")
      then codes "awsAccessKeyId" ∷ codes "awsSecretAccessKey" ∷ []
      else if text_eq dns (codes "ipv64")
      then codes "ipv64Token" ∷ []
      else []

  unfoldable pub lacks : Page → Bool
  unfolding required
  lacks p = any (λ id. text_eq (p.values id) []) (required (p.values (codes "dnsType")))

  abbrev pub stamp : Text → Page → Page
  stamp id p = if text_eq (p.values id) [] then p else set_val id (to_time (p.values id)) p

  unfoldable pub add_over : Page → Page
  unfolding lacks
  add_over p =
      let type = some (p.values (codes "type")) in
      let stamped = p |> stamp (codes "makeTime") |> stamp (codes "endTime") in
      if text_eq (p.values (codes "domain")) []
      then emit (message (codes "certStr.error1")) p
      else if loosely 0 type && lacks p
      then emit (message (codes "commonStr.IncompleteEntry")) p
      else if loosely 1 type && text_eq (p.values (codes "pem")) (p.values (codes "key"))
      then emit (message (codes "certStr.error5")) p
      else emit
          (post_form (codes "/adminPage/cert/addOver") n.form
            (sent stamped.values stamped.disabled))
          stamped
