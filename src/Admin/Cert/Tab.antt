-- ===== src/Admin/Cert/Tab.antt =====
-- The certificates in a tab, adminPage/protectionCert/cert.js: the script of adminPage/cert/index.js with
-- names of its own.
use nginx_web_ui.Prelude.{Bool, List, Option, Text, codes}
use nginx_web_ui.Admin.Page.{Page, Reply}
use nginx_web_ui.Admin.Cert.Form.{CertNames, search, show_window, add, check_dns_type, check_type}
use nginx_web_ui.Admin.Cert.Dialogs.{Cert, edit, edited, add_over}
use nginx_web_ui.Admin.Cert.Requests.{
  HostRecord, set_auto_renew, pem_uploaded, key_uploaded, select_pem, select_key, del, del_many,
  issue, renew, get_txt_value, clone, issued, renewed, txt_value_come, auto_renew_set,
}

-- The names of adminPage/cert/index.js.
abbrev pub page_names : CertNames
page_names = record {
  id = codes "id";
  search_form = codes "searchForm";
  form = codes "addForm";
  window = codes "windowDiv";
  notice = codes "notice";
  records = codes "txtDiv";
}

abbrev pub tab_names : CertNames
tab_names = record {
  id = codes "certHidId";
  search_form = codes "certSearchForm";
  form = codes "certAddForm";
  window = codes "certWindowDiv";
  notice = codes "certNotice";
  records = codes "certTxtDiv";
}

unfoldable pub tab_search : Page → Page
unfolding search
tab_search p = search tab_names p

unfoldable pub tab_show_window : Text → Page → Page
unfolding show_window
tab_show_window title p = show_window tab_names title p

unfoldable pub tab_check_dns_type : Text → Page → Page
unfolding check_dns_type
tab_check_dns_type value p = check_dns_type value p

unfoldable pub tab_check_type : Option Text → Page → Page
unfolding check_type
tab_check_type value p = check_type value p

unfoldable pub tab_add : Page → Page
unfolding add
tab_add p = add tab_names p

unfoldable pub tab_del : Bool → Text → Page → Page
unfolding del
tab_del sure id p = del sure id p

unfoldable pub tab_del_many : Bool → List Text → Page → Page
unfolding del_many
tab_del_many sure ids p = del_many sure ids p

unfoldable pub tab_issue : Bool → Text → Page → Page
unfolding issue
tab_issue sure id p = issue sure id p

unfoldable pub tab_renew : Bool → Text → Page → Page
unfolding renew
tab_renew sure id p = renew sure id p

unfoldable pub tab_issued : Reply (Unit {0}) → Page → Page
unfolding issued
tab_issued r p = issued r p

unfoldable pub tab_renewed : Reply (Unit {0}) → Page → Page
unfolding renewed
tab_renewed r p = renewed r p

unfoldable pub tab_txt_value_come : Reply (List HostRecord) → Page → Page
unfolding txt_value_come
tab_txt_value_come r p = txt_value_come tab_names r p

unfoldable pub tab_auto_renew_set : Reply (Unit {0}) → Page → Page
unfolding auto_renew_set
tab_auto_renew_set r p = auto_renew_set r p

unfoldable pub tab_auto_renew : Text → Bool → Page → Page
unfolding set_auto_renew
tab_auto_renew id on p = set_auto_renew id on p

unfoldable pub tab_pem_uploaded : Reply Text → Page → Page
unfolding pem_uploaded
tab_pem_uploaded r p = pem_uploaded r p

unfoldable pub tab_key_uploaded : Reply Text → Page → Page
unfolding key_uploaded
tab_key_uploaded r p = key_uploaded r p

unfoldable pub tab_select_pem : Text → Page → Page
unfolding select_pem
tab_select_pem rs p = select_pem rs p

unfoldable pub tab_select_key : Text → Page → Page
unfolding select_key
tab_select_key rs p = select_key rs p

unfoldable pub tab_get_txt_value : Bool → Text → Page → Page
unfolding get_txt_value
tab_get_txt_value sure id p = get_txt_value sure id p

module _ (to_date to_time : Text → Text) where
  unfoldable pub tab_edit : Text → Page → Page
  unfolding edit
  tab_edit id p = edit to_date to_time tab_names id p

  unfoldable pub tab_edited : Bool → Reply Cert → Page → Page
  unfolding edited
  tab_edited copy r p = edited to_date to_time tab_names copy r p

  unfoldable pub tab_add_over : Page → Page
  unfolding add_over
  tab_add_over p = add_over to_date to_time tab_names p

  unfoldable pub tab_clone : Bool → Text → Page → Page
  unfolding clone
  tab_clone sure id p = clone to_date to_time tab_names sure id p
