-- ===== src/Admin/IpTags/Reach.antt =====
-- The invariant of the editor of adminPage/denyAllow/index.js over any sequence of steps.
use nginx_web_ui.Prelude.{
  ℕ, refl, inl, inr, ◌&&◌, ◌||◌, [], ◌∷◌, none, some, Option, Text, codes, text_eq, text_eq_refl,
  ltb, is_blank, trim, split_runs, includes, ◌==◌, Bool-cases,
}
use nginx_web_ui.Admin.Page.{Page, close_window, emit}
use nginx_web_ui.Admin.IpTags.Editor.{
  Names, Editor, invalid_count, separates, drop_comma, sync_to_textarea, remove_tag, add_parts,
  enter_tags, key_down, pasted, search_tags, show_batch_import, do_batch_import, remove_at,
}
use nginx_web_ui.Admin.IpTags.Dialogs.{add, do_save, add_over, save_anyway, edit, no_tags, on_page}
use nginx_web_ui.Admin.IpTags.Invariants.{
  Good, Apart, Step, adds, removes, loads, imports, opens, types, pastes, searches, starts, edits,
  submits, insists, Steps, none_, then_, render_tags-Good, add_ip-Good, remove_at-TagOk,
  load_from_textarea-Good, process_import_text-Good, add_parts-Good, clear_input-Good,
  enter_tags-Good,
}

module _ (lower : Text → Text) (n : Names) (apart : Apart n) where
  key_down-Good : (key : ℕ) (e : Editor) → Good n e → Good n (key_down lower n key e)
  unfolding key_down
  key_down-Good key e good = elim (Bool-cases (key == 13 || key == 188)) [
    | inl hit ↦
        let val = drop_comma (trim (e.page.values n.input)) in
        rw hit (
          clear_input-Good lower n apart (enter_tags lower n val e)
            (enter_tags-Good lower n apart val e good))
    | inr other ↦ rw other good
  ]

  pasted-Good : (e : Editor) → Good n e → Good n (pasted lower n e)
  unfolding pasted
  pasted-Good e good =
      let val = e.page.values n.input in
      elim (Bool-cases
        (includes (10 ∷ []) val || includes (codes ",") val || includes (codes " ") val)) [
          | inl many ↦
              let parts = split_runs separates val in
              rw many (
                clear_input-Good lower n apart (add_parts lower n parts e)
                  (add_parts-Good lower n apart parts e good))
          | inr one ↦ rw one good
        ]

  do_batch_import-Good :
      (file : Option Text) (e : Editor) → Good n e → Good n (do_batch_import lower n file e)
  unfolding do_batch_import
  do_batch_import-Good (some t) e good = process_import_text-Good lower n apart t e good
  do_batch_import-Good none e good = elim (Bool-cases (is_blank (e.page.values n.batch_text))) [
    | inl empty ↦ rw empty good
    | inr some_ ↦
        rw some_ (process_import_text-Good lower n apart (e.page.values n.batch_text) e good)
  ]

  show_batch_import-Good : (e : Editor) → Good n e → Good n (show_batch_import lower n e)
  unfolding show_batch_import
  show_batch_import-Good e (h, sync) = (h, rw (apart.batch_text, apart.batch_file) sync)

  edit-Good : (id : Text) (e : Editor) → Good n e → Good n (edit lower n id e)
  unfolding edit
  edit-Good id e (h, sync) = (h, rw (apart.id, apart.search) sync)

  do_save-Good : (e : Editor) → Good n e → Good n (do_save lower n e)
  unfolding do_save sync_to_textarea
  do_save-Good e (h, sync) = (h, rw (text_eq_refl n.area) refl)

  add_over-Good : (e : Editor) → Good n e → Good n (add_over lower n e)
  unfolding add_over
  add_over-Good e good = elim (Bool-cases (text_eq (e.page.values n.name) [])) [
    | inl unnamed ↦ rw unnamed good
    | inr named ↦
        elim (Bool-cases (no_tags lower n e.tags && is_blank (e.page.values n.source_url))) [
          | inl empty ↦ rw (named, empty) good
          | inr filled ↦ elim (Bool-cases (ltb 0 (invalid_count e.tags))) [
            | inl doubtful ↦ rw (named, filled, doubtful) good
            | inr valid ↦ rw (named, filled, valid) (do_save-Good e good)
          ]
        ]
  ]

  add-Good : (extra : Page → Page) (e : Editor) → Good n (add lower n extra e)
  unfolding add
  add-Good extra e = render_tags-Good lower n apart _ tt

  Step-Good : {e f : Editor} → Step lower n e f → Good n e → Good n f
  unfolding remove_tag search_tags save_anyway
  Step-Good {e} (adds raw) good = add_ip-Good lower n apart raw e good
  Step-Good {e} (removes i) good =
      render_tags-Good lower n apart (record e { tags = remove_at i e.tags })
        (remove_at-TagOk lower n apart i e.tags good.0)
  Step-Good {e} (loads t) good = load_from_textarea-Good lower n apart t e
  Step-Good {e} (imports file) good = do_batch_import-Good file e good
  Step-Good {e} opens good = show_batch_import-Good e good
  Step-Good {e} (types key) good = key_down-Good key e good
  Step-Good {e} pastes good = pasted-Good e good
  Step-Good {e} (searches filter) good =
      render_tags-Good lower n apart (record e { filter = filter }) good.0
  Step-Good {e} (starts extra) good = add-Good extra e
  Step-Good {e} (edits id) good = edit-Good id e good
  Step-Good {e} submits good = add_over-Good e good
  Step-Good {e} insists good = do_save-Good (on_page (emit close_window) e) good

  -- From a state where it holds, whatever is typed, pasted, imported, loaded, removed, searched and
  -- saved, in any order: the flag of each tag is that of its address, no address is empty, and the
  -- text area that is sent to the server has the addresses of the tags, one to a line. The page has
  -- the element of the tags, and the text area is none of the other fields.
  pub Steps-Good : {e f : Editor} → Steps lower n e f → Good n e → Good n f
  Steps-Good none_ good = good
  Steps-Good (then_ before step) good = Step-Good step (Steps-Good before good)
