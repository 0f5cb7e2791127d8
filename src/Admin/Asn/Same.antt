-- ===== src/Admin/Asn/Same.antt =====
-- Which operations of adminPage/protectionCert/asnCatalog.js keep the profile and the buttons.
use nginx_web_ui.Prelude.{
  ◌≡◌, refl, inl, inr, Bool, not, ◌&&◌, List, Option, some, Text, codes, text_eq, leb, trim,
  Bool-cases,
}
use nginx_web_ui.Regex.{test}
use nginx_web_ui.Admin.Page.{message, emit, or_else, Reply, success, refused, broken}
use nginx_web_ui.Admin.Asn.Gates.{
  Asn, can_create_intent, can_push, can_suggest, apply_ui_gates, set_radio_checked, load_profile,
  post_set_profile, profile_posted, on_profile_change, LightAnswer, keeps, revokes, closes, cancels,
  light_answered, on_page,
}
use nginx_web_ui.Admin.Asn.Tables.{
  Clock, CatalogPage, Intent, catalog_loaded, catalog_shown, intents_shown, intents_loaded,
  profile_loaded, search, prev_page, next_page, load_catalog, load_intents, page_count,
}
use nginx_web_ui.Admin.Asn.Requests.{
  meta_synced, add_intent_from_catalog, catalog_intent_added, prompt_add_intent, intent_prompted,
  digits_re, prompted_intent_added, push_intent, intent_changed, revoke_intent, suggest_hosting,
  hosting_suggested, is_falsy, add_request,
}

-- The buttons of the page, and what the variables allow.
abbrev pub Gated : Asn → Type 0
Gated a =
    (a.page.disabled (codes "btnAsnAddIntent") ≡ not (can_create_intent a))
    × (a.page.disabled (codes "asn-add-intent-btn") ≡ not (can_create_intent a))
    × (a.page.disabled (codes "asn-push-btn") ≡ not (can_push a))
    × (a.page.disabled (codes "asn-revoke-btn") ≡ not a.configured)
    × (a.page.shown (codes "btnAsnSuggestHosting") ≡ can_suggest a)

-- Only the profile and the buttons matter.
abbrev pub Same : Asn → Asn → Type 0
Same a b =
    (b.profile ≡ a.profile)
    × (b.configured ≡ a.configured)
    × (b.page.disabled ≡ a.page.disabled)
    × (b.page.shown ≡ a.page.shown)

pub Same-Gated : (a b : Asn) → Same a b → Gated a → Gated b
unfolding can_create_intent can_push can_suggest
Same-Gated a b (profile, configured, disabled, shown) g =
    rw (profile, configured, disabled, shown) g

pub apply_ui_gates-Gated : (a : Asn) → Gated (apply_ui_gates a)
unfolding apply_ui_gates can_create_intent can_push can_suggest
apply_ui_gates-Gated a = (refl, refl, refl, refl, refl)

-- A page whose log has grown.
abbrev pub same : (a : Asn) → Same a a
same a = (refl, refl, refl, refl)

pub set_radio_checked-Same : (val : Text) (a : Asn) → Same a (set_radio_checked val a)
unfolding set_radio_checked
set_radio_checked-Same val a = elim (Bool-cases a.has_form) [
  | inl form ↦ rw form (same a)
  | inr formless ↦ rw formless (same a)
]

pub profile_posted-Same : (r : Reply (Unit {0})) (a : Asn) → Same a (profile_posted r a)
unfolding profile_posted load_profile
profile_posted-Same (success u) a = same a
profile_posted-Same (refused msg) a = same a
profile_posted-Same broken a = same a

pub on_profile_change-Same : (next : Text) (a : Asn) → Same a (on_profile_change next a)
unfolding on_profile_change post_set_profile
on_profile_change-Same next a = elim (Bool-cases a.applying) [
  | inl busy ↦ rw busy (same a)
  | inr idle ↦ elim (Bool-cases (text_eq next a.profile)) [
    | inl there ↦ rw (idle, there) (same a)
    | inr new ↦
        elim (Bool-cases
          (text_eq next (codes "light") && not (text_eq a.profile (codes "light")))) [
            | inl asked ↦ rw (idle, new, asked) (same a)
            | inr set ↦ rw (idle, new, set) (same a)
          ]
  ]
]

pub light_answered-Same : (r : LightAnswer) (a : Asn) → Same a (light_answered r a)
unfolding light_answered post_set_profile
light_answered-Same keeps a = same a
light_answered-Same revokes a = same a
light_answered-Same closes a = set_radio_checked-Same a.profile a
light_answered-Same cancels a = set_radio_checked-Same a.profile a

pub catalog_loaded-Gated : (r : Reply CatalogPage) (a : Asn) → Gated a → Gated (catalog_loaded r a)
unfolding catalog_loaded
catalog_loaded-Gated (success answer) a g = apply_ui_gates-Gated (catalog_shown answer a)
catalog_loaded-Gated (refused msg) a g =
    Same-Gated a (on_page (emit (message (or_else (codes "error") (some msg)))) a) (same a) g
catalog_loaded-Gated broken a g = g

pub requests-Same :
    (id : Text) (a : Asn)
    → Same a (add_intent_from_catalog id a)
      × Same a (push_intent id a)
      × Same a (revoke_intent id a)
unfolding add_request add_intent_from_catalog push_intent revoke_intent
requests-Same id a = (
  elim (Bool-cases (can_create_intent a)) [
    | inl yes_ ↦ elim (Bool-cases (is_falsy id)) [
      | inl missing ↦ rw (yes_, missing) (same a)
      | inr there ↦ rw (yes_, there) (same a)
    ]
    | inr no_ ↦ rw no_ (same a)
  ],
  elim (Bool-cases (can_push a)) [
    | inl yes_ ↦ elim (Bool-cases (is_falsy id)) [
      | inl missing ↦ rw (yes_, missing) (same a)
      | inr there ↦ rw (yes_, there) (same a)
    ]
    | inr no_ ↦ rw no_ (same a)
  ],
  elim (Bool-cases a.configured) [
    | inl yes_ ↦ elim (Bool-cases (is_falsy id)) [
      | inl missing ↦ rw (yes_, missing) (refl, refl, refl, refl)
      | inr there ↦ rw (yes_, there) (refl, refl, refl, refl)
    ]
    | inr no_ ↦ rw no_ (refl, refl, refl, refl)
  ],
)

pub asks-Same :
    (value : Text) (a : Asn)
    → Same a (prompt_add_intent a) × Same a (suggest_hosting a) × Same a (intent_prompted value a)
unfolding prompt_add_intent suggest_hosting intent_prompted add_request
asks-Same value a = (
  elim (Bool-cases (can_create_intent a)) [
    | inl yes_ ↦ rw yes_ (same a)
    | inr no_ ↦ rw no_ (same a)
  ],
  elim (Bool-cases (can_suggest a)) [ inl yes_ ↦ rw yes_ (same a) | inr no_ ↦ rw no_ (same a) ],
  elim (Bool-cases (test digits_re (trim value))) [
    | inl yes_ ↦ rw yes_ (same a)
    | inr no_ ↦ rw no_ (same a)
  ],
)

pub answers-Same :
    (r : Reply (Unit {0})) (a : Asn)
    → Same a (meta_synced r a)
      × Same a (catalog_intent_added r a)
      × Same a (prompted_intent_added r a)
      × Same a (intent_changed r a)
unfolding meta_synced catalog_intent_added prompted_intent_added intent_changed load_intents
answers-Same (success u) a = (same a, same a, same a, same a)
answers-Same (refused msg) a = (same a, same a, same a, same a)
answers-Same broken a = (same a, same a, same a, same a)

pub hosting_suggested-Same : (r : Reply (Text × Bool)) (a : Asn) → Same a (hosting_suggested r a)
unfolding hosting_suggested load_intents
hosting_suggested-Same (success r) a = same a
hosting_suggested-Same (refused msg) a = same a
hosting_suggested-Same broken a = same a

module _ (upper : Text → Text) (clock : Clock) where
  pub intents_loaded-Gated :
      (r : Reply (List Intent)) (a : Asn) → Gated a → Gated (intents_loaded upper clock r a)
  unfolding intents_loaded
  intents_loaded-Gated (success items) a g =
      apply_ui_gates-Gated (intents_shown upper clock items a)
  intents_loaded-Gated (refused msg) a g = g
  intents_loaded-Gated broken a g = g

  pub profile_loaded-Gated :
      (profile : Option Text) (configured : Bool) (a : Asn)
      → Gated (profile_loaded upper clock (success (some (profile, configured))) a)
  unfolding profile_loaded load_catalog load_intents can_create_intent can_push can_suggest
  profile_loaded-Gated profile configured a =
      let b = record a { profile = or_else (codes "light") profile; configured = configured } in
      apply_ui_gates-Gated (set_radio_checked b.profile b)

  pub pages-Same :
      (a : Asn)
      → Same a (prev_page upper clock a)
        × Same a (next_page upper clock a)
        × Same a (search upper clock a)
  unfolding prev_page next_page search load_catalog
  pages-Same a = (
    elim (Bool-cases (leb a.curr 1)) [
      | inl first ↦ rw first (same a)
      | inr later ↦ rw later (same a)
    ],
    elim (Bool-cases (leb (page_count a.count a.limit) a.curr)) [
      | inl last ↦ rw last (same a)
      | inr more ↦ rw more (same a)
    ],
    same a,
  )
