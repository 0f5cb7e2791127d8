-- ===== src/Admin/IpTags/Editor.antt =====
-- The tags of adminPage/denyAllow/index.js: addresses that are added, removed, shown and kept in a text
-- area. The short flash of a tag that is there already is not modelled.
use nginx_web_ui.Prelude.{
  ℕ, zero, suc, ◌+◌, Bool, true, false, not, ◌&&◌, ◌||◌, List, [], ◌∷◌, ◌++◌, Option, none, some,
  Text, codes, text_eq, length, includes, ltb, ◌==◌, is_space, is_blank, one_of, print, trim,
  join_lines, split_runs, if◌then◌else◌,
}
use nginx_web_ui.Regex.{chr, seq, eol, replace_first}
use nginx_web_ui.Admin.Page.{
  Page, message, open_window, close_window, set_val, set_html, emit, ◌|>◌,
}
use nginx_web_ui.Admin.Html.{escape_html}
use nginx_web_ui.Admin.IpTags.Addresses.{is_valid_ip}

-- The names that a page gives to its elements, and to the function of a tag's button. An element that
-- the page lacks is skipped.
pub record Names : Type 0 where
  pub tag : Text
  pub remove : Text
  pub area : Text
  pub container : Text
  pub has_container : Bool
  pub stats : Text
  pub has_stats : Bool
  pub input : Text
  pub search : Text
  pub batch_text : Text
  pub batch_file : Text
  pub batch_window : Text
  pub id : Text
  pub name : Text
  pub source_url : Text
  pub fetch_time : Text
  pub form : Text
  pub window : Text

pub record Tag : Type 0 where
  pub ip : Text
  pub valid : Bool

-- `ipTags`, `searchFilter` and the page.
pub record Editor : Type 0 where
  pub tags : List Tag
  pub filter : Text
  pub page : Page

abbrev pub tag_of : Text → Tag
tag_of v = record { ip = v; valid = is_valid_ip v }

abbrev pub ips : List Tag → List Text
ips [] = []
ips (t ∷ ts) = t.ip ∷ ips ts

-- Some tag has the address.
abbrev pub has_ip : Text → List Tag → Bool
has_ip v [] = false
has_ip v (t ∷ ts) = text_eq t.ip v || has_ip v ts

abbrev pub invalid_count : List Tag → ℕ
invalid_count [] = 0
invalid_count (t ∷ ts) = if t.valid then invalid_count ts else suc (invalid_count ts)

-- `splice(idx, 1)`
unfoldable pub remove_at : ℕ → List Tag → List Tag
remove_at i [] = []
remove_at zero (t ∷ ts) = ts
remove_at (suc i) (t ∷ ts) = t ∷ remove_at i ts

abbrev pub is_nil : Text → Bool
is_nil [] = true
is_nil (c ∷ s) = false

-- `text.split(/[\n,;\s]+/)`; a white space is a `\n` and a `\r` too.
abbrev pub separates : ℕ → Bool
separates c = one_of (codes ",;") c || is_space c

-- `[\s,;]+$` does not occur: only one comma at the end goes, `/,$/`.
abbrev pub drop_comma : Text → Text
drop_comma s = replace_first (seq (chr b',') eol) (λ m. []) s

-- `toLowerCase` of the platform.
module _ (lower : Text → Text) (n : Names) where
  abbrev is_hidden : Text → Tag → Bool
  is_hidden filter t = not (is_nil filter) && not (includes filter (lower t.ip))

  abbrev pub tag_html : ℕ → Tag → Text
  tag_html i t =
      codes "<span id=\""
      ++ n.tag
      ++ print i
      ++ codes "\" class=\""
      ++ (if t.valid then codes "ip-tag ip-tag-valid" else codes "ip-tag ip-tag-invalid")
      ++ codes "\">"
      ++ escape_html t.ip
      ++ codes " <i class=\"layui-icon layui-icon-close\" onclick=\""
      ++ n.remove
      ++ codes "("
      ++ print i
      ++ codes ")\"></i></span>"

  -- The tags that the filter leaves, and how many they are.
  unfoldable pub tags_html : Text → ℕ → List Tag → Text × ℕ
  tags_html filter i [] = ([], 0)
  tags_html filter i (t ∷ ts) =
      let (html, visible) = tags_html filter (i + 1) ts in
      if is_hidden filter t then (html, visible) else (tag_html i t ++ html, visible + 1)

  abbrev container_html : Text → List Tag → Text × ℕ → Text
  container_html filter [] r =
      codes "<div class=\"ip-empty-state\"><i class=\"layui-icon layui-icon-note\"></i>"
      ++ codes "denyAllowStr.inputPlaceholder"
      ++ codes "</div>"
  container_html filter (t ∷ ts) r =
      if not (is_nil filter) && r.1 == 0
      then codes "<div class=\"ip-empty-state\">--</div>"
      else r.0

  abbrev stats_html : Text → List Tag → ℕ → Text
  stats_html filter ts visible =
      codes "denyAllowStr.totalIps"
      ++ codes ": "
      ++ print (length ts)
      ++ (if ltb 0 (invalid_count ts)
          then codes "  <span style=\"color:#FF5722;\">"
            ++ codes "denyAllowStr.invalidIps"
            ++ codes ": "
            ++ print (invalid_count ts)
            ++ codes "</span>"
          else [])
      ++ (if is_nil filter then [] else codes "  (" ++ print visible ++ codes " matched)")

  unfoldable pub sync_to_textarea : List Tag → Page → Page
  sync_to_textarea ts p = set_val n.area (join_lines (ips ts)) p

  unfoldable pub render_tags : Editor → Editor
  unfolding tags_html sync_to_textarea
  render_tags e =
      let filter = lower e.filter in
      let r = tags_html filter 0 e.tags in
      let shown = set_html n.container (container_html filter e.tags r) e.page in
      let counted =
        if n.has_stats then set_html n.stats (stats_html filter e.tags r.1) shown else shown in
      if n.has_container then record e { page = sync_to_textarea e.tags counted } else e

  unfoldable pub add_ip : Text → Editor → Editor
  unfolding render_tags
  add_ip raw e =
      let val = trim raw in
      if is_nil val
      then e
      else if has_ip val e.tags
      then e
      else render_tags (record e { tags = e.tags ++ tag_of val ∷ [] })

  unfoldable pub remove_tag : ℕ → Editor → Editor
  unfolding remove_at render_tags
  remove_tag i e = render_tags (record e { tags = remove_at i e.tags })

  -- The loop of `loadFromTextarea`.
  unfoldable pub load_tags : List Text → List Tag
  load_tags [] = []
  load_tags (l ∷ ls) = if is_nil (trim l) then load_tags ls else tag_of (trim l) ∷ load_tags ls

  -- `none` stands for null.
  unfoldable pub load_from_textarea : Option Text → Editor → Editor
  unfolding load_tags render_tags
  load_from_textarea none e = render_tags (record e { tags = [] })
  load_from_textarea (some []) e = render_tags (record e { tags = [] })
  load_from_textarea (some (c ∷ s)) e =
      render_tags (record e { tags = load_tags (split_runs separates (c ∷ s)) })

  -- The loop of `processImportText`: the tags, and the number of new ones.
  unfoldable pub import_tags : List Text → List Tag → List Tag × ℕ
  import_tags [] ts = (ts, 0)
  import_tags (l ∷ ls) ts =
      let v = trim l in
      let kept = import_tags ls ts in
      let (more, count) = import_tags ls (ts ++ tag_of v ∷ []) in
      if is_nil v then kept else if has_ip v ts then kept else (more, count + 1)

  unfoldable pub process_import_text : Text → Editor → Editor
  unfolding import_tags render_tags
  process_import_text text e =
      let (ts, count) = import_tags (split_runs separates text) e.tags in
      let done = render_tags (record e { tags = ts }) in
      if ltb 0 count
      then record done {
        page = emit (message (codes "denyAllowStr.importedCount " ++ print count)) done.page;
      }
      else done

  -- Each part of what was typed or pasted.
  unfoldable pub add_parts : List Text → Editor → Editor
  unfolding add_ip
  add_parts [] e = e
  add_parts (l ∷ ls) e =
      if is_nil (trim l) then add_parts ls e else add_parts ls (add_ip (trim l) e)

  abbrev pub clear_input : Editor → Editor
  clear_input e = record e { page = set_val n.input [] e.page }

  unfoldable pub enter_tags : Text → Editor → Editor
  unfolding add_parts
  enter_tags val e = if is_nil val then e else add_parts (split_runs separates val) e

  -- A key in the field of a tag: enter and comma add what stands there.
  unfoldable pub key_down : ℕ → Editor → Editor
  unfolding enter_tags
  key_down key e =
      if key == 13 || key == 188
      then clear_input (enter_tags (drop_comma (trim (e.page.values n.input))) e)
      else e

  -- After text was pasted there.
  unfoldable pub pasted : Editor → Editor
  unfolding add_parts
  pasted e =
      let val = e.page.values n.input in
      if includes (10 ∷ []) val || includes (codes ",") val || includes (codes " ") val
      then clear_input (add_parts (split_runs separates val) e)
      else e

  unfoldable pub search_tags : Text → Editor → Editor
  unfolding render_tags
  search_tags filter e = render_tags (record e { filter = filter })

  unfoldable pub show_batch_import : Editor → Editor
  show_batch_import e = record e {
    page =
        e.page
        |> set_val n.batch_text []
        |> set_val n.batch_file []
        |> emit (open_window (codes "denyAllowStr.batchImport") n.batch_window);
  }

  abbrev pub close_batch : Editor → Editor
  close_batch e = record e { page = emit close_window e.page }

  -- `file` is the text of the file that was chosen.
  unfoldable pub do_batch_import : Option Text → Editor → Editor
  unfolding process_import_text
  do_batch_import (some file) e = close_batch (process_import_text file e)
  do_batch_import none e = close_batch (
      if is_blank (e.page.values n.batch_text)
      then e
      else process_import_text (e.page.values n.batch_text) e)
