-- ===== src/Admin/IpTags/Protection.antt =====
-- adminPage/protectionCert/denyAllow.js: the same editor, with a type and with two lists to delete from.
use nginx_web_ui.Prelude.{ℕ, Bool, true, List, Option, Text, codes, text_eq, if◌then◌else◌}
use nginx_web_ui.Admin.Page.{Page, set_val, Reply, or_else}
use nginx_web_ui.Admin.IpTags.Addresses.{is_valid_ip}
use nginx_web_ui.Admin.IpTags.Editor.{
  Names, Tag, Editor, add_ip, remove_tag, render_tags, sync_to_textarea, load_from_textarea,
  process_import_text, show_batch_import, do_batch_import, key_down, pasted,
}
use nginx_web_ui.Admin.IpTags.Dialogs.{
  Detail, add, do_save, add_over, edit, edited, del, del_many, show_window,
}

abbrev pub protection_names : Names
protection_names = record {
  tag = codes "da-tag-";
  remove = codes "denyAllowNS.removeTag";
  area = codes "daIp";
  container = codes "daTagContainer";
  has_container = true;
  stats = codes "daTagStats";
  has_stats = true;
  input = codes "daTagInput";
  search = codes "daTagSearch";
  batch_text = codes "daBatchText";
  batch_file = codes "daBatchFile";
  batch_window = codes "daBatchImportDiv";
  id = codes "daId";
  name = codes "daName";
  source_url = codes "daSourceUrl";
  fetch_time = codes "daFetchTime";
  form = codes "daAddForm";
  window = codes "daWindowDiv";
}

-- `$("#daType").val(type || 'deny')`
unfoldable pub set_kind : Option Text → Page → Page
set_kind kind p = set_val (codes "daType") (or_else (codes "deny") kind) p

module _ (lower : Text → Text) where
  unfoldable pub protection_add_ip : Text → Editor → Editor
  unfolding add_ip
  protection_add_ip = add_ip lower protection_names

  unfoldable pub protection_remove_tag : ℕ → Editor → Editor
  unfolding remove_tag
  protection_remove_tag = remove_tag lower protection_names

  unfoldable pub protection_render_tags : Editor → Editor
  unfolding render_tags
  protection_render_tags = render_tags lower protection_names

  unfoldable pub protection_load : Option Text → Editor → Editor
  unfolding load_from_textarea
  protection_load = load_from_textarea lower protection_names

  unfoldable pub protection_show_import : Editor → Editor
  unfolding show_batch_import
  protection_show_import = show_batch_import lower protection_names

  unfoldable pub protection_do_import : Option Text → Editor → Editor
  unfolding do_batch_import
  protection_do_import = do_batch_import lower protection_names

  unfoldable pub protection_import : Text → Editor → Editor
  unfolding process_import_text
  protection_import = process_import_text lower protection_names

  unfoldable pub protection_key_down : ℕ → Editor → Editor
  unfolding key_down
  protection_key_down = key_down lower protection_names

  unfoldable pub protection_pasted : Editor → Editor
  unfolding pasted
  protection_pasted = pasted lower protection_names

  unfoldable pub protection_add : Option Text → Editor → Editor
  unfolding add set_kind
  protection_add kind = add lower protection_names (set_kind kind)

  unfoldable pub protection_save : Editor → Editor
  unfolding do_save
  protection_save = do_save lower protection_names

  unfoldable pub protection_add_over : Editor → Editor
  unfolding add_over
  protection_add_over = add_over lower protection_names

  unfoldable pub protection_edit : Text → Editor → Editor
  unfolding edit
  protection_edit = edit lower protection_names

  unfoldable pub protection_edited : Reply Detail → Editor → Editor
  unfolding edited set_kind
  protection_edited = edited lower protection_names set_kind

-- The boxes of the list that the button belongs to.
unfoldable pub protection_del_many : Bool → Text → List Text → List Text → Page → Page
unfolding del_many
protection_del_many sure scope white black p =
    del_many sure (if text_eq scope (codes "white") then white else black) p

unfoldable pub protection_del : Bool → Text → Page → Page
unfolding del
protection_del sure id p = del sure id p

unfoldable pub protection_show_window : Text → Page → Page
unfolding show_window
protection_show_window title p = show_window (λ t. t) protection_names title p

unfoldable pub protection_is_valid : Text → Bool
unfolding is_valid_ip
protection_is_valid s = is_valid_ip s

unfoldable pub protection_sync : List Tag → Page → Page
unfolding sync_to_textarea
protection_sync ts p = sync_to_textarea (λ t. t) protection_names ts p
