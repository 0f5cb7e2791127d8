-- ===== src/Admin/Asn/Gates.antt =====
-- The profile of the protection in adminPage/protectionCert/asnCatalog.js, and what it allows.
use nginx_web_ui.Prelude.{
  ℕ, Bool, true, false, not, ◌&&◌, ◌||◌, List, [], ◌∷◌, Option, none, some, Text, codes, text_eq,
  if◌then◌else◌,
}
use nginx_web_ui.Admin.Page.{
  Page, message, choose, close_window, render_form, get_request, post_request, emit, ◌|>◌, set_html,
  set_disabled, set_greyed, set_shown, Reply, success, refused, broken, or_else,
}

-- The variables of the script, the radio buttons of the profile that are checked, by their value, and the
-- page. The numbers are those of the catalog's pages.
pub record Asn : Type 0 where
  pub profile : Text
  pub configured : Bool
  pub curr : ℕ
  pub limit : ℕ
  pub count : ℕ
  -- `profileForm` is set
  pub has_form : Bool
  pub applying : Bool
  pub checked : Text → Bool
  pub page : Page

-- The variables before the page is initialised.
unfoldable pub initial : Page → Asn
initial p = record {
  profile = codes "light";
  configured = false;
  curr = 1;
  limit = 10;
  count = 0;
  has_form = false;
  applying = false;
  checked = λ v. false;
  page = p;
}

abbrev pub on_page : (Page → Page) → Asn → Asn
on_page f a = record a { page = f a.page }

unfoldable pub can_create_intent : Asn → Bool
can_create_intent a = text_eq a.profile (codes "manual") || text_eq a.profile (codes "strict")

unfoldable pub can_push : Asn → Bool
can_push a = can_create_intent a && a.configured

unfoldable pub can_suggest : Asn → Bool
can_suggest a = text_eq a.profile (codes "strict")

-- `tipFn ? tipFn() : ''`
unfoldable pub profile_tip : Text → Text
profile_tip profile =
    if text_eq profile (codes "light")
    then codes "asnStr.profileLightTip"
    else if text_eq profile (codes "manual")
    then codes "asnStr.profileManualTip"
    else if text_eq profile (codes "strict")
    then codes "asnStr.profileStrictTip"
    else []

-- The property `disabled` and the class of a button, or of all the buttons of a class.
abbrev pub gate : Text → Bool → Page → Page
gate id off p = p |> set_disabled id off |> set_greyed id off

unfoldable pub apply_ui_gates : Asn → Asn
unfolding can_create_intent can_push can_suggest profile_tip
apply_ui_gates a =
    let intent_disabled = not (can_create_intent a) in
    let push_disabled = not (can_push a) in
    on_page
      (λ p.
        p
        |> gate (codes "btnAsnAddIntent") intent_disabled
        |> set_shown (codes "btnAsnSuggestHosting") (can_suggest a)
        |> set_shown (codes "asnCrowdsecBanner") (not a.configured)
        |> set_shown (codes "asnBulkWarnBanner")
            (text_eq a.profile (codes "manual") || text_eq a.profile (codes "strict"))
        |> set_html (codes "asnProfileTip") (profile_tip a.profile)
        |> gate (codes "asn-add-intent-btn") intent_disabled
        |> gate (codes "asn-push-btn") push_disabled
        |> gate (codes "asn-revoke-btn") (not a.configured))
      a

unfoldable pub set_radio_checked : Text → Asn → Asn
set_radio_checked val a =
    let drawn = if a.has_form then emit render_form a.page else a.page in
    record a { checked = λ v. text_eq v val; page = drawn; applying = false }

unfoldable pub load_profile : Asn → Asn
load_profile a = on_page (emit (get_request (codes "/adminPage/asn/profile") [])) a

unfoldable pub post_set_profile : Text → Option Text → Asn → Asn
post_set_profile next none a =
    on_page (emit (post_request (codes "/adminPage/asn/setProfile") ((codes "profile", next) ∷ [])))
      a
post_set_profile next (some mode) a =
    on_page
      (emit (
        post_request (codes "/adminPage/asn/setProfile")
          ((codes "profile", next) ∷ (codes "revokeMode", mode) ∷ [])))
      a

-- The answer to `setProfile`.
unfoldable pub profile_posted : Reply (Unit {0}) → Asn → Asn
unfolding load_profile
profile_posted (success u) a = load_profile a
profile_posted (refused msg) a =
    load_profile (on_page (emit (message (or_else (codes "error") (some msg)))) a)
profile_posted broken a = load_profile a

-- The buttons of the question for the light profile: without CrowdSec nothing can be revoked.
unfoldable pub light_buttons : Bool → List Text
light_buttons false = codes "asnStr.switchLightKeep" ∷ codes "commonStr.close" ∷ []
light_buttons true =
    codes "asnStr.switchLightKeep" ∷ codes "asnStr.switchLightRevoke" ∷ codes "commonStr.close" ∷ []

unfoldable pub on_profile_change : Text → Asn → Asn
unfolding light_buttons post_set_profile
on_profile_change next a =
    if a.applying
    then a
    else if text_eq next a.profile
    then a
    else if text_eq next (codes "light") && not (text_eq a.profile (codes "light"))
    then on_page (emit (choose (codes "asnStr.switchLightMsg") (light_buttons a.configured))) a
    else post_set_profile next none a

-- How the question for the light profile is answered.
pub data LightAnswer : Type 0 where
  keeps revokes closes cancels : LightAnswer

unfoldable pub light_answered : LightAnswer → Asn → Asn
unfolding post_set_profile set_radio_checked
light_answered keeps a =
    post_set_profile (codes "light") (some (codes "keep")) (on_page (emit close_window) a)
light_answered revokes a =
    post_set_profile (codes "light") (some (codes "revoke")) (on_page (emit close_window) a)
light_answered closes a = on_page (emit close_window) (set_radio_checked a.profile a)
light_answered cancels a = set_radio_checked a.profile a
