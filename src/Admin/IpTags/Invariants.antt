-- ===== src/Admin/IpTags/Invariants.antt =====
-- The steps of the editor of adminPage/denyAllow/index.js, and its tags and its text area in each of them.
use nginx_web_ui.Prelude.{
  ℕ, zero, suc, ◌≡◌, refl, inl, inr, true, false, List, [], ◌∷◌, ◌++◌, Option, none, some, All,
  All-append, Text, text_eq, text_eq_refl, trim, split_runs, join_lines, ltb, Bool-cases,
}
use nginx_web_ui.Admin.Page.{Page, set_val}
use nginx_web_ui.Admin.IpTags.Addresses.{is_valid_ip}
use nginx_web_ui.Admin.IpTags.Editor.{
  Names, Tag, Editor, tag_of, ips, has_ip, is_nil, remove_at, separates, clear_input, render_tags,
  sync_to_textarea, add_ip, remove_tag, load_tags, load_from_textarea, import_tags,
  process_import_text, add_parts, enter_tags, key_down, pasted, search_tags, show_batch_import,
  do_batch_import,
}
use nginx_web_ui.Admin.IpTags.Dialogs.{add, add_over, save_anyway, edit}

-- The flag of a tag is that of its address, and the address is not empty.
abbrev pub TagOk : Tag → Type 0
TagOk t = (t.valid ≡ is_valid_ip t.ip) × (is_nil t.ip ≡ false)

-- The text area has the addresses, one to a line.
abbrev pub Good : Names → Editor → Type 0
Good n e = All TagOk e.tags × (e.page.values n.area ≡ join_lines (ips e.tags))

-- The page has the element of the tags, and the text area is none of the other fields.
pub record Apart (n : Names) : Type 0 where
  pub container : n.has_container ≡ true
  pub input : text_eq n.area n.input ≡ false
  pub search : text_eq n.area n.search ≡ false
  pub batch_text : text_eq n.area n.batch_text ≡ false
  pub batch_file : text_eq n.area n.batch_file ≡ false
  pub id : text_eq n.area n.id ≡ false

-- What a person or an answer of the server does in the editor.
pub data Step (lower : Text → Text) (n : Names) : Editor → Editor → Type 0 where
  adds : {e : Editor} → (raw : Text) → Step lower n e (add_ip lower n raw e)
  removes : {e : Editor} → (i : ℕ) → Step lower n e (remove_tag lower n i e)
  loads : {e : Editor} → (t : Option Text) → Step lower n e (load_from_textarea lower n t e)
  imports : {e : Editor} → (file : Option Text) → Step lower n e (do_batch_import lower n file e)
  opens : {e : Editor} → Step lower n e (show_batch_import lower n e)
  types : {e : Editor} → (key : ℕ) → Step lower n e (key_down lower n key e)
  pastes : {e : Editor} → Step lower n e (pasted lower n e)
  searches : {e : Editor} → (filter : Text) → Step lower n e (search_tags lower n filter e)
  starts : {e : Editor} → (extra : Page → Page) → Step lower n e (add lower n extra e)
  edits : {e : Editor} → (id : Text) → Step lower n e (edit lower n id e)
  submits : {e : Editor} → Step lower n e (add_over lower n e)
  insists : {e : Editor} → Step lower n e (save_anyway lower n e)

pub data Steps (lower : Text → Text) (n : Names) : Editor → Editor → Type 0 where
  none_ : {e : Editor} → Steps lower n e e
  then_ : {e f g : Editor} → Steps lower n e f → Step lower n f g → Steps lower n e g

module _ (lower : Text → Text) (n : Names) (apart : Apart n) where
  tag_of-TagOk : (v : Text) → is_nil v ≡ false → TagOk (tag_of v)
  tag_of-TagOk v h = (refl, h)

  pub render_tags-Good : (e : Editor) → All TagOk e.tags → Good n (render_tags lower n e)
  unfolding render_tags sync_to_textarea
  render_tags-Good e h = rw (apart.container, text_eq_refl n.area) (h, refl)

  pub set_val-Good :
      (id v : Text) (e : Editor)
      → text_eq n.area id ≡ false
      → Good n e
      → Good n (record e { page = set_val id v e.page })
  set_val-Good id v e other (h, sync) = (h, rw other sync)

  pub add_ip-Good : (raw : Text) (e : Editor) → Good n e → Good n (add_ip lower n raw e)
  unfolding add_ip
  add_ip-Good raw e good = elim (Bool-cases (is_nil (trim raw))) [
    | inl empty ↦ rw empty good
    | inr some_ ↦ elim (Bool-cases (has_ip (trim raw) e.tags)) [
      | inl there ↦ rw (some_, there) good
      | inr new ↦
          rw (some_, new)
            (render_tags-Good (record e { tags = e.tags ++ tag_of (trim raw) ∷ [] })
              (All-append TagOk e.tags (tag_of (trim raw) ∷ []) good.0
                (tag_of-TagOk (trim raw) some_, tt)))
    ]
  ]

  pub remove_at-TagOk : (i : ℕ) (ts : List Tag) → All TagOk ts → All TagOk (remove_at i ts)
  unfolding remove_at
  remove_at-TagOk i [] h = tt
  remove_at-TagOk zero (t ∷ ts) h = h.1
  remove_at-TagOk (suc i) (t ∷ ts) h = (h.0, remove_at-TagOk i ts h.1)

  load_tags-TagOk : (ls : List Text) → All TagOk (load_tags lower n ls)
  unfolding load_tags
  load_tags-TagOk [] = tt
  load_tags-TagOk (l ∷ ls) = elim (Bool-cases (is_nil (trim l))) [
    | inl empty ↦ rw empty (load_tags-TagOk ls)
    | inr some_ ↦ rw some_ (tag_of-TagOk (trim l) some_, load_tags-TagOk ls)
  ]

  pub load_from_textarea-Good :
      (t : Option Text) (e : Editor) → Good n (load_from_textarea lower n t e)
  unfolding load_from_textarea
  load_from_textarea-Good none e = render_tags-Good (record e { tags = [] }) tt
  load_from_textarea-Good (some []) e = render_tags-Good (record e { tags = [] }) tt
  load_from_textarea-Good (some (c ∷ s)) e =
      render_tags-Good (record e { tags = load_tags lower n (split_runs separates (c ∷ s)) })
        (load_tags-TagOk (split_runs separates (c ∷ s)))

  import_tags-TagOk :
      (ls : List Text) (ts : List Tag) → All TagOk ts → All TagOk (import_tags lower n ls ts).0
  unfolding import_tags
  import_tags-TagOk [] ts h = h
  import_tags-TagOk (l ∷ ls) ts h = elim (Bool-cases (is_nil (trim l))) [
    | inl empty ↦ rw empty (import_tags-TagOk ls ts h)
    | inr some_ ↦ elim (Bool-cases (has_ip (trim l) ts)) [
      | inl there ↦ rw (some_, there) (import_tags-TagOk ls ts h)
      | inr new ↦
          rw (some_, new)
            (import_tags-TagOk ls (ts ++ tag_of (trim l) ∷ [])
              (All-append TagOk ts (tag_of (trim l) ∷ []) h (tag_of-TagOk (trim l) some_, tt)))
    ]
  ]

  pub process_import_text-Good :
      (text : Text) (e : Editor) → Good n e → Good n (process_import_text lower n text e)
  unfolding process_import_text
  process_import_text-Good text e good =
      let (ts, count) = import_tags lower n (split_runs separates text) e.tags in
      let done = render_tags-Good (record e { tags = ts }) (import_tags-TagOk _ e.tags good.0) in
      elim (Bool-cases (ltb 0 count)) [ inl new ↦ rw new done | inr old ↦ rw old done ]

  pub add_parts-Good : (ls : List Text) (e : Editor) → Good n e → Good n (add_parts lower n ls e)
  unfolding add_parts
  add_parts-Good [] e good = good
  add_parts-Good (l ∷ ls) e good = elim (Bool-cases (is_nil (trim l))) [
    | inl empty ↦ rw empty (add_parts-Good ls e good)
    | inr some_ ↦
        rw some_ (add_parts-Good ls (add_ip lower n (trim l) e) (add_ip-Good (trim l) e good))
  ]

  pub clear_input-Good : (e : Editor) → Good n e → Good n (clear_input lower n e)
  clear_input-Good e good = set_val-Good n.input [] e apart.input good

  pub enter_tags-Good : (val : Text) (e : Editor) → Good n e → Good n (enter_tags lower n val e)
  unfolding enter_tags
  enter_tags-Good [] e good = good
  enter_tags-Good (c ∷ s) e good = add_parts-Good (split_runs separates (c ∷ s)) e good
