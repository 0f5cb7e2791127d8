-- ===== src/Admin/Cert/Form.antt =====
-- The form of a certificate in adminPage/cert/index.js: the panels that it shows, and a new one.
use nginx_web_ui.Prelude.{
  ℕ, Bool, true, false, ◌&&◌, List, [], ◌∷◌, Option, none, some, Text, codes, all, is_digit,
  decimal, trim, ◌==◌, if◌then◌else◌,
}
use nginx_web_ui.Admin.Page.{
  Page, open_window, render_form, submit, emit, ◌|>◌, set_val, set_html, set_disabled, set_greyed,
  set_shown,
}

-- The names that differ between the page and the tab.
pub record CertNames : Type 0 where
  pub id : Text
  pub search_form : Text
  pub form : Text
  pub window : Text
  pub notice : Text
  pub records : Text

-- `s == n` for a text and a number: a text that is not a number of digits equals none.
abbrev pub loosely : ℕ → Option Text → Bool
loosely n none = false
loosely n (some s) = all is_digit (trim s) && decimal 0 (trim s) == n

abbrev pub hide_all : List Text → Page → Page
hide_all [] p = p
hide_all (id ∷ ids) p = hide_all ids (set_shown id false p)

abbrev pub dns_panels : List Text
dns_panels =
    codes "ali"
    ∷ codes "dp"
    ∷ codes "tencent"
    ∷ codes "aws"
    ∷ codes "cf"
    ∷ codes "cfToken"
    ∷ codes "gd"
    ∷ codes "hw"
    ∷ codes "ipv64"
    ∷ []

unfoldable pub check_dns_type : Text → Page → Page
check_dns_type value p = p |> hide_all dns_panels |> set_shown value true

unfoldable pub check_type : Option Text → Page → Page
check_type value p =
    let hidden = hide_all (codes "type0" ∷ codes "type1" ∷ codes "encryptionDiv" ∷ []) p in
    let apply =
      if loosely 0 value
      then hidden |> set_shown (codes "type0") true |> set_shown (codes "encryptionDiv") true
      else hidden in
    let manual = if loosely 1 value then set_shown (codes "type1") true apply else apply in
    if loosely 2 value then set_shown (codes "encryptionDiv") true manual else manual

-- The elements of the credentials, and the fields of a certificate that they show.
abbrev pub credential_fields : List (Text × Text)
credential_fields =
    (codes "aliKey", codes "aliKey")
    ∷ (codes "aliSecret", codes "aliSecret")
    ∷ (codes "dpId", codes "dpId")
    ∷ (codes "dpKey", codes "dpKey")
    ∷ (codes "tencentSecretId", codes "tencentSecretId")
    ∷ (codes "tencentSecretKey", codes "tencentSecretKey")
    ∷ (codes "awsAccessKeyId", codes "awsAccessKeyId")
    ∷ (codes "awsSecretAccessKey", codes "awsSecretAccessKey")
    ∷ (codes "cfEmail", codes "cfEmail")
    ∷ (codes "cfKey", codes "cfKey")
    ∷ (codes "cft", codes "cfToken")
    ∷ (codes "cfAccountId", codes "cfAccountId")
    ∷ (codes "cfZoneId", codes "cfZoneId")
    ∷ (codes "gdKey", codes "gdKey")
    ∷ (codes "gdSecret", codes "gdSecret")
    ∷ (codes "ipv64Token", codes "ipv64Token")
    ∷ (codes "hwUsername", codes "hwUsername")
    ∷ (codes "hwPassword", codes "hwPassword")
    ∷ (codes "hwDomainName", codes "hwDomainName")
    ∷ []

abbrev pub clear_fields : List (Text × Text) → Page → Page
clear_fields [] p = p
clear_fields (f ∷ fs) p = clear_fields fs (set_val f.0 [] p)

-- The buttons that lock a field.
abbrev pub unlock_domain : Page → Page
unlock_domain p = p |> set_disabled (codes "domain") false |> set_greyed (codes "domain") false

abbrev pub lock_encryption : Bool → Page → Page
lock_encryption b p =
    p
    |> set_disabled (codes "type") b
    |> set_disabled (codes "encryption") b
    |> set_greyed (codes "encryption") b

abbrev pub clear_files : Page → Page
clear_files p =
    p
    |> set_val (codes "pem") []
    |> set_val (codes "key") []
    |> set_html (codes "pemPath") []
    |> set_html (codes "keyPath") []

abbrev pub clear_times : Page → Page
clear_times p = p |> set_val (codes "makeTime") [] |> set_val (codes "endTime") []

module _ (n : CertNames) where
  unfoldable pub search : Page → Page
  search p = p |> set_val (codes "curr") (codes "1") |> emit (submit n.search_form)

  unfoldable pub show_window : Text → Page → Page
  show_window title p = emit (open_window title n.window) p

  -- The first options of the selects are 2, ali and RSA, in the page of the script.
  unfoldable pub add : Page → Page
  unfolding check_type check_dns_type show_window
  add p =
      p
      |> set_val n.id []
      |> set_val (codes "domain") []
      |> set_val (codes "type") (codes "2")
      |> set_val (codes "dnsType") (codes "ali")
      |> set_val (codes "encryption") (codes "RSA")
      |> clear_fields credential_fields
      |> clear_files
      |> unlock_domain
      |> lock_encryption false
      |> clear_times
      |> check_type (some (codes "2"))
      |> check_dns_type (codes "ali")
      |> emit render_form
      |> show_window (codes "certStr.add")
