-- ===== src/Admin/Cert/Requests.antt =====
-- The other requests of adminPage/cert/index.js: deletion, issue and renewal, the files and the records of
-- a host. A download opens a window of the browser and is not modelled.
use nginx_web_ui.Prelude.{Bool, true, false, List, [], ◌∷◌, ◌++◌, Text, codes, if◌then◌else◌}
use nginx_web_ui.Admin.Page.{
  Page, message, alert, open_window, close_window, close_all, reload, loading, loaded, post_request,
  emit, ◌|>◌, set_val, set_html, Reply, success, refused, broken, join_commas,
}
use nginx_web_ui.Admin.Cert.Form.{CertNames}
use nginx_web_ui.Admin.Cert.Dialogs.{last_part, edit}

-- The switch of the automatic renewal.
unfoldable pub set_auto_renew : Text → Bool → Page → Page
set_auto_renew id on p =
    emit
      (post_request (codes "/adminPage/cert/setAutoRenew")
        ((codes "id", id) ∷ (codes "autoRenew", if on then codes "1" else codes "0") ∷ []))
      p

unfoldable pub auto_renew_set : Reply (Unit {0}) → Page → Page
auto_renew_set (success u) p = p
auto_renew_set (refused msg) p = emit (message msg) p
auto_renew_set broken p = emit (alert (codes "commonStr.errorInfo")) p

-- A file was uploaded for the field `id`.
unfoldable uploaded : Text → Text → Reply Text → Page → Page
unfolding last_part
uploaded id html (success path) p = p |> set_val id path |> set_html html (last_part path)
uploaded id html (refused msg) p = p
uploaded id html broken p = p

unfoldable pub pem_uploaded : Reply Text → Page → Page
unfolding uploaded
pem_uploaded r p = uploaded (codes "pem") (codes "pemPath") r p

unfoldable pub key_uploaded : Reply Text → Page → Page
unfolding uploaded
key_uploaded r p = uploaded (codes "key") (codes "keyPath") r p

-- A file of the server was chosen.
unfoldable pub select_pem : Text → Page → Page
select_pem rs p = p |> set_val (codes "pem") rs |> set_html (codes "pemPath") rs

unfoldable pub select_key : Text → Page → Page
select_key rs p = p |> set_val (codes "key") rs |> set_html (codes "keyPath") rs

-- `confirm` gave `sure`, here and below.
unfoldable pub del : Bool → Text → Page → Page
del sure id p =
    if sure then emit (post_request (codes "/adminPage/cert/del") ((codes "id", id) ∷ [])) p else p

unfoldable pub del_many : Bool → List Text → Page → Page
del_many false ids p = p
del_many true [] p = emit (message (codes "commonStr.unselected")) p
del_many true (i ∷ ids) p =
    emit (post_request (codes "/adminPage/cert/del") ((codes "id", join_commas (i ∷ ids)) ∷ [])) p

-- The answer to the deletion of many; the text of the last case is not one of the message files.
unfoldable pub many_deleted : Reply (Unit {0}) → Page → Page
many_deleted (success u) p = emit reload p
many_deleted (refused msg) p = emit (message msg) p
many_deleted broken p = emit (alert (codes "请求失败，请刷新重试")) p

abbrev apply : Text → Bool → Text → Page → Page
apply kind sure id p =
    if sure
    then p
      |> emit loading
      |> emit (
          post_request (codes "/adminPage/cert/apply")
            ((codes "id", id) ∷ (codes "type", kind) ∷ []))
    else p

-- What was applied for has come; the page is loaded again when the message is closed.
abbrev applied : Text → Reply (Unit {0}) → Page → Page
applied done (success u) p = p |> emit loaded |> emit (alert done)
applied done (refused msg) p = p |> emit loaded |> emit (open_window [] msg)
applied done broken p = p |> emit loaded |> emit (alert (codes "commonStr.errorInfo"))

unfoldable pub issue : Bool → Text → Page → Page
issue sure id p = apply (codes "issue") sure id p

unfoldable pub issued : Reply (Unit {0}) → Page → Page
issued r p = applied (codes "certStr.applySuccess") r p

unfoldable pub renew : Bool → Text → Page → Page
renew sure id p = apply (codes "renew") sure id p

unfoldable pub renewed : Reply (Unit {0}) → Page → Page
renewed r p = applied (codes "certStr.renewSuccess") r p

unfoldable pub apply_closed : Page → Page
apply_closed p = p |> emit close_window |> emit reload

unfoldable pub get_txt_value : Bool → Text → Page → Page
get_txt_value sure id p =
    if sure
    then p
      |> emit loading
      |> emit (post_request (codes "/adminPage/cert/getTxtValue") ((codes "id", id) ∷ []))
    else p

-- A record of a host: its domain, type and value.
abbrev pub HostRecord : Type 0
HostRecord = Text × Text × Text

-- The white space between the tags is left out.
unfoldable pub txt_rows : List HostRecord → Text
txt_rows [] = []
txt_rows ((domain, type, value) ∷ rows) =
    codes "<tr><td>"
    ++ domain
    ++ codes "</td><td>"
    ++ type
    ++ codes "</td><td>"
    ++ value
    ++ codes "</td></tr>"
    ++ txt_rows rows

unfoldable pub txt_value_come : CertNames → Reply (List HostRecord) → Page → Page
unfolding txt_rows
txt_value_come n (success rows) p =
    p
    |> emit loaded
    |> set_html n.notice (txt_rows rows)
    |> emit (open_window (codes "certStr.hostRecords") n.records)
txt_value_come n (refused msg) p = p |> emit loaded |> emit (alert msg)
txt_value_come n broken p = p |> emit close_all |> emit (alert (codes "commonStr.errorInfo"))

-- `clone` asks first; the answer to the request of `edit` then comes to `edited true`.
unfoldable pub clone : (to_date to_time : Text → Text) → CertNames → Bool → Text → Page → Page
unfolding edit
clone to_date to_time n sure id p = if sure then edit to_date to_time n id p else p
