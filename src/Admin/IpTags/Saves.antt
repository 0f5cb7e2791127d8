-- ===== src/Admin/IpTags/Saves.antt =====
-- What `addOver` of adminPage/denyAllow/index.js asks for before it saves.
use nginx_web_ui.Prelude.{
  ◌≡◌, ◌<◌, refl, inl, inr, ◌⊎◌, true, false, ◌&&◌, List, [], ◌∷◌, ◌++◌, arith, All, Text, codes,
  text_eq, text_eq_refl, ltb, is_blank, print, join_lines, Bool-cases,
}
use nginx_web_ui.Admin.Page.{message, ask, post_form, sent, emit}
use nginx_web_ui.Admin.IpTags.Editor.{Names, Tag, Editor, ips, invalid_count, sync_to_textarea}
use nginx_web_ui.Admin.IpTags.Dialogs.{on_page, no_tags, do_save, add_over}

module _ (lower : Text → Text) (n : Names) where
  -- One request, with the fields that are not disabled and the addresses of the tags in the text area.
  pub record Posted (e f : Editor) : Type 0 where
    pub values : Text → Text
    pub area : values n.area ≡ join_lines (ips e.tags)
    pub log :
        f.page.log
        ≡ e.page.log
          ++ post_form (codes "/adminPage/denyAllow/addOver") n.form (sent values e.page.disabled)
            ∷ []

  -- It has a name, an address or a source, and no address that is not valid.
  pub record Complete (e : Editor) : Type 0 where
    pub named : text_eq (e.page.values n.name) [] ≡ false
    pub filled : (no_tags lower n e.tags && is_blank (e.page.values n.source_url)) ≡ false
    pub valid : All (λ t. t.valid ≡ true) e.tags

  none_invalid : (ts : List Tag) → ltb 0 (invalid_count ts) ≡ false → All (λ t. t.valid ≡ true) ts
  none_invalid [] h = tt
  none_invalid (t ∷ ts) h = elim (Bool-cases t.valid) [
    | inl yes_ ↦ (yes_, none_invalid ts (rw yes_ at h))
    | inr no_ ↦ absurd (ground (arith, no_))
  ]

  do_save-Posted : (e : Editor) → Posted e (do_save lower n e)
  unfolding do_save sync_to_textarea
  do_save-Posted e = record {
    values = (sync_to_textarea lower n e.tags e.page).values;
    area = rw (text_eq_refl n.area) refl;
    log = refl;
  }

  -- `addOver` saves a complete list at once, asks first where an address is not valid, and shows a
  -- message in any other case.
  pub add_over-Posted :
      (e : Editor)
      → (Complete e × Posted e (add_over lower n e))
        ⊎ (((0 < invalid_count e.tags)
              × (add_over lower n e
                  ≡ on_page
                      (emit
                        (ask (codes "denyAllowStr.invalidWarn " ++ print (invalid_count e.tags))))
                      e))
            ⊎ ((msg : Text) × (add_over lower n e ≡ on_page (emit (message msg)) e)))
  unfolding add_over
  add_over-Posted e = elim (Bool-cases (text_eq (e.page.values n.name) [])) [
    | inl unnamed ↦ inr (inr (codes "serverStr.noFill", rw unnamed refl))
    | inr named ↦
        elim (Bool-cases (no_tags lower n e.tags && is_blank (e.page.values n.source_url))) [
          | inl empty ↦ inr (inr (codes "denyAllowStr.emptyList", rw (named, empty) refl))
          | inr filled ↦ elim (Bool-cases (ltb 0 (invalid_count e.tags))) [
            | inl doubtful ↦ inr (inl (ground (arith, doubtful), rw (named, filled, doubtful) refl))
            | inr valid ↦ inl (
              record { named = named; filled = filled; valid = none_invalid e.tags valid },
              rw (named, filled, valid) (do_save-Posted e),
            )
          ]
        ]
  ]
