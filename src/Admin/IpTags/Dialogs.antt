-- ===== src/Admin/IpTags/Dialogs.antt =====
-- The dialogs of adminPage/denyAllow/index.js: a list is added, edited, saved and deleted. The answer of the
-- server comes to a function of its own, and so does the answer to a question.
use nginx_web_ui.Prelude.{
  Bool, true, false, ◌&&◌, List, [], ◌∷◌, ◌++◌, Option, Text, codes, text_eq, ltb, print, is_blank,
  if◌then◌else◌,
}
use nginx_web_ui.Admin.Page.{
  Page, message, alert, ask, open_window, close_window, render_form, submit, get_request,
  post_request, post_form, sent, set_val, set_vals, emit, ◌|>◌, Reply, success, refused, broken,
  or_empty, join_commas,
}
use nginx_web_ui.Admin.IpTags.Editor.{
  Names, Tag, Editor, invalid_count, sync_to_textarea, render_tags, load_from_textarea,
}

-- What `detail` answers; `none` stands for null.
pub record Detail : Type 0 where
  pub id : Text
  pub name : Text
  pub source_url : Option Text
  pub fetch_time : Option Text
  pub kind : Option Text
  pub ip : Option Text

abbrev pub on_page : (Page → Page) → Editor → Editor
on_page f e = record e { page = f e.page }

unfoldable pub search : Page → Page
search p = p |> set_val (codes "curr") (codes "1") |> emit (submit (codes "searchForm"))

-- `confirm` gave `sure`.
unfoldable pub del : Bool → Text → Page → Page
del sure id p =
    if sure
    then emit (post_request (codes "/adminPage/denyAllow/del") ((codes "id", id) ∷ [])) p
    else p

-- `ids` are the boxes that are checked.
unfoldable pub del_many : Bool → List Text → Page → Page
del_many false ids p = p
del_many true [] p = emit (message (codes "commonStr.unselected")) p
del_many true (i ∷ ids) p =
    emit
      (post_request (codes "/adminPage/denyAllow/del") ((codes "id", join_commas (i ∷ ids)) ∷ [])) p

-- `extra` is what a page does with the type of a list.
module _ (lower : Text → Text) (n : Names) where
  unfoldable pub show_window : Text → Page → Page
  show_window title p = emit (open_window title n.window) p

  unfoldable pub add : (Page → Page) → Editor → Editor
  unfolding render_tags show_window
  add extra e =
      let cleared =
        e.page
        |> set_vals ((n.id, []) ∷ (n.name, []) ∷ (n.source_url, []) ∷ (n.fetch_time, []) ∷ [])
        |> extra
        |> set_val n.search [] in
      on_page (show_window (codes "commonStr.add"))
        (render_tags lower n (record { tags = []; filter = []; page = cleared }))

  unfoldable pub do_save : Editor → Editor
  unfolding sync_to_textarea
  do_save e =
      let p = sync_to_textarea lower n e.tags e.page in
      record e {
        page =
            emit
              (post_form (codes "/adminPage/denyAllow/addOver") n.form (sent p.values p.disabled))
              p;
      }

  abbrev pub no_tags : List Tag → Bool
  no_tags [] = true
  no_tags (t ∷ ts) = false

  unfoldable pub add_over : Editor → Editor
  unfolding do_save
  add_over e =
      let invalid = invalid_count e.tags in
      if text_eq (e.page.values n.name) []
      then on_page (emit (message (codes "serverStr.noFill"))) e
      else if no_tags e.tags && is_blank (e.page.values n.source_url)
      then on_page (emit (message (codes "denyAllowStr.emptyList"))) e
      else if ltb 0 invalid
      then on_page (emit (ask (codes "denyAllowStr.invalidWarn " ++ print invalid))) e
      else do_save e

  -- The button that submits, in the question of `addOver`.
  unfoldable pub save_anyway : Editor → Editor
  unfolding do_save
  save_anyway e = do_save (on_page (emit close_window) e)

  unfoldable pub edit : Text → Editor → Editor
  edit id e = record {
    tags = e.tags;
    filter = [];
    page =
        e.page
        |> set_val n.id id
        |> set_val n.search []
        |> emit (get_request (codes "/adminPage/denyAllow/detail") ((codes "id", id) ∷ []));
  }

  unfoldable pub edited : (Option Text → Page → Page) → Reply Detail → Editor → Editor
  unfolding load_from_textarea show_window
  edited extra (success d) e =
      on_page (λ p. p |> emit render_form |> show_window (codes "commonStr.edit"))
        (load_from_textarea lower n d.ip (
          on_page
            (λ p.
              p
              |> set_vals (
                  (n.id, d.id)
                  ∷ (n.name, d.name)
                  ∷ (n.source_url, or_empty d.source_url)
                  ∷ (n.fetch_time, or_empty d.fetch_time)
                  ∷ [])
              |> extra d.kind)
            e))
  edited extra (refused msg) e = on_page (emit (message msg)) e
  edited extra broken e = on_page (emit (alert (codes "commonStr.errorInfo"))) e

-- adminPage/denyAllow/index.js has no type.
abbrev pub list_names : Names
list_names = record {
  tag = codes "tag-";
  remove = codes "removeTag";
  area = codes "ip";
  container = codes "tagContainer";
  has_container = true;
  stats = codes "tagStats";
  has_stats = true;
  input = codes "tagInput";
  search = codes "tagSearch";
  batch_text = codes "batchText";
  batch_file = codes "batchFile";
  batch_window = codes "batchImportDiv";
  id = codes "id";
  name = codes "name";
  source_url = codes "sourceUrl";
  fetch_time = codes "fetchTime";
  form = codes "addForm";
  window = codes "windowDiv";
}
