-- ===== src/Admin/Asn/Reach.antt =====
-- What is done and answered on the page of adminPage/protectionCert/asnCatalog.js, in any order, and its buttons.
use nginx_web_ui.Prelude.{
  ◌≡◌, refl, sym, ap, false≢true, Bool, true, false, not, List, [], ◌∷◌, Option, none, some, Text,
  codes, if◌then◌else◌,
}
use nginx_web_ui.Admin.Page.{
  Effect, message, ask, emit, post_request, Reply, success, refused, broken,
}
use nginx_web_ui.Admin.Asn.Gates.{
  Asn, can_push, can_create_intent, load_profile, profile_posted, on_profile_change, LightAnswer,
  light_answered, on_page,
}
use nginx_web_ui.Admin.Asn.Tables.{
  Clock, CatalogPage, Intent, catalog_loaded, intents_loaded, profile_loaded, search, prev_page,
  next_page,
}
use nginx_web_ui.Admin.Asn.Same.{
  Gated, Same, Same-Gated, same, profile_posted-Same, on_profile_change-Same, light_answered-Same,
  catalog_loaded-Gated, requests-Same, asks-Same, answers-Same, hosting_suggested-Same,
  intents_loaded-Gated, profile_loaded-Gated, pages-Same,
}
use nginx_web_ui.Admin.Asn.Requests.{
  sync_meta, meta_synced, add_intent_from_catalog, catalog_intent_added, prompt_add_intent,
  intent_prompted, prompted_intent_added, push_intent, intent_changed, revoke_intent,
  revoke_confirmed, suggest_hosting, suggest_confirmed, hosting_suggested, is_falsy, duration,
  add_request,
}

-- What a person does on the page, and what the server answers.
pub data Event : Type 0 where
  profile_comes : Reply (Option (Option Text × Bool)) → Event
  catalog_comes : Reply CatalogPage → Event
  intents_come : Reply (List Intent) → Event
  chooses : Text → Event
  answers : LightAnswer → Event
  profile_set meta_comes added prompt_added changed : Reply (Unit {0}) → Event
  reloads searches goes_back goes_on syncs asks_intent asks_suggest suggests : Event
  adds prompts pushes asks_revoke revokes_it : Text → Event
  suggested : Reply (Text × Bool) → Event

module _ (upper : Text → Text) (clock : Clock) where
  unfoldable pub handle : Event → Asn → Asn
  handle (profile_comes r) a = profile_loaded upper clock r a
  handle (catalog_comes r) a = catalog_loaded r a
  handle (intents_come r) a = intents_loaded upper clock r a
  handle (chooses next) a = on_profile_change next a
  handle (answers r) a = light_answered r a
  handle (profile_set r) a = profile_posted r a
  handle (meta_comes r) a = meta_synced r a
  handle (added r) a = catalog_intent_added r a
  handle (prompt_added r) a = prompted_intent_added r a
  handle (changed r) a = intent_changed r a
  handle reloads a = load_profile a
  handle searches a = search upper clock a
  handle goes_back a = prev_page upper clock a
  handle goes_on a = next_page upper clock a
  handle syncs a = sync_meta a
  handle asks_intent a = prompt_add_intent a
  handle asks_suggest a = suggest_hosting a
  handle suggests a = suggest_confirmed a
  handle (adds asn) a = add_intent_from_catalog asn a
  handle (prompts value) a = intent_prompted value a
  handle (pushes id) a = push_intent id a
  handle (asks_revoke id) a = revoke_intent id a
  handle (revokes_it id) a = revoke_confirmed id a
  handle (suggested r) a = hosting_suggested r a

  unfoldable pub run : List Event → Asn → Asn
  unfolding handle
  run [] a = a
  run (e ∷ es) a = run es (handle e a)

  kept : (a b : Asn) → Gated a → Same a b → Gated b
  kept a b g s = Same-Gated a b s g

  handle-Gated : (e : Event) (a : Asn) → Gated a → Gated (handle e a)
  unfolding handle load_profile sync_meta suggest_confirmed revoke_confirmed profile_loaded
  handle-Gated (profile_comes (success (some (profile, configured)))) a g =
      profile_loaded-Gated upper clock profile configured a
  handle-Gated (profile_comes (success none)) a g = g
  handle-Gated (profile_comes (refused msg)) a g = g
  handle-Gated (profile_comes broken) a g = g
  handle-Gated (catalog_comes r) a g = catalog_loaded-Gated r a g
  handle-Gated (intents_come r) a g = intents_loaded-Gated upper clock r a g
  handle-Gated (chooses next) a g =
      kept a (on_profile_change next a) g (on_profile_change-Same next a)
  handle-Gated (answers r) a g = kept a (light_answered r a) g (light_answered-Same r a)
  handle-Gated (profile_set r) a g = kept a (profile_posted r a) g (profile_posted-Same r a)
  handle-Gated (meta_comes r) a g = kept a (meta_synced r a) g (answers-Same r a).0
  handle-Gated (added r) a g = kept a (catalog_intent_added r a) g (answers-Same r a).1
  handle-Gated (prompt_added r) a g = kept a (prompted_intent_added r a) g (answers-Same r a).2
  handle-Gated (changed r) a g = kept a (intent_changed r a) g (answers-Same r a).3
  handle-Gated reloads a g = kept a (load_profile a) g (same a)
  handle-Gated searches a g = kept a (search upper clock a) g (pages-Same upper clock a).2
  handle-Gated goes_back a g = kept a (prev_page upper clock a) g (pages-Same upper clock a).0
  handle-Gated goes_on a g = kept a (next_page upper clock a) g (pages-Same upper clock a).1
  handle-Gated syncs a g = kept a (sync_meta a) g (same a)
  handle-Gated asks_intent a g = kept a (prompt_add_intent a) g (asks-Same [] a).0
  handle-Gated asks_suggest a g = kept a (suggest_hosting a) g (asks-Same [] a).1
  handle-Gated suggests a g = kept a (suggest_confirmed a) g (same a)
  handle-Gated (adds asn) a g = kept a (add_intent_from_catalog asn a) g (requests-Same asn a).0
  handle-Gated (prompts value) a g = kept a (intent_prompted value a) g (asks-Same value a).2
  handle-Gated (pushes id) a g = kept a (push_intent id a) g (requests-Same id a).1
  handle-Gated (asks_revoke id) a g = kept a (revoke_intent id a) g (requests-Same id a).2
  handle-Gated (revokes_it id) a g = kept a (revoke_confirmed id a) g (same a)
  handle-Gated (suggested r) a g = kept a (hosting_suggested r a) g (hosting_suggested-Same r a)

  run-keeps : (es : List Event) (a : Asn) → Gated a → Gated (run es a)
  unfolding run
  run-keeps [] a g = g
  run-keeps (e ∷ es) a g = run-keeps es (handle e a) (handle-Gated e a g)

  -- A button that is off shows a message and nothing else; one that is on does what it is for.
  abbrev pub Acts : Bool → Effect → Asn → Asn → Type 0
  Acts true effect a b = (msg : Text) × (b ≡ on_page (emit (message msg)) a)
  Acts false effect a b = b ≡ on_page (emit effect) a

  -- The effect of a button whose look agrees with the guard `off`.
  Acts-guard :
      (look off : Bool) (effect : Effect) (msg : Text) (a b : Asn)
      → look ≡ off
      → b ≡ (if off then on_page (emit (message msg)) a else on_page (emit effect) a)
      → Acts look effect a b
  Acts-guard true true effect msg a b agree is = (msg, is)
  Acts-guard false false effect msg a b agree is = is
  Acts-guard true false effect msg a b agree is = absurd (false≢true (sym agree))
  Acts-guard false true effect msg a b agree is = absurd (false≢true agree)

  -- Once a profile has come from the server, whatever is done on the page and answered afterwards, in
  -- any order: each button for an intent is disabled, and the one for suggestions hidden, exactly where the profile and
  -- CrowdSec do not allow it.
  pub run-Gated :
      (es : List Event) (profile : Option Text) (configured : Bool) (a : Asn)
      → Gated (run es (profile_loaded upper clock (success (some (profile, configured))) a))
  run-Gated es profile configured a =
      run-keeps es _ (profile_loaded-Gated upper clock profile configured a)

  -- The buttons for an intent, in a table or on the page, and the one for suggestions, which is off where it is hidden.
  abbrev pub ButtonsAct : Text → Asn → Type 0
  ButtonsAct id a =
      Acts (a.page.disabled (codes "asn-push-btn"))
        (post_request (codes "/adminPage/asn/pushIntent") ((codes "id", id) ∷ [])) a
        (push_intent id a)
      × Acts (a.page.disabled (codes "asn-revoke-btn")) (ask (codes "commonStr.confirmDel")) a
          (revoke_intent id a)
      × Acts (a.page.disabled (codes "asn-add-intent-btn"))
          (post_request (codes "/adminPage/asn/addIntent")
            ((codes "asn", id) ∷ (codes "duration", duration a) ∷ (codes "note", []) ∷ []))
          a (add_intent_from_catalog id a)
      × Acts (a.page.disabled (codes "btnAsnAddIntent")) (ask (codes "asnStr.addIntent")) a
          (prompt_add_intent a)
      × Acts (not (a.page.shown (codes "btnAsnSuggestHosting")))
          (ask (codes "asnStr.suggestConfirm")) a (suggest_hosting a)

  Gated-Acts : (id : Text) (a : Asn) → is_falsy id ≡ false → Gated a → ButtonsAct id a
  unfolding push_intent revoke_intent add_intent_from_catalog add_request prompt_add_intent
      suggest_hosting
  Gated-Acts id a there (all_, catalog, push, revoke, suggest) = (
    Acts-guard _ (not (can_push a))
        (post_request (codes "/adminPage/asn/pushIntent") ((codes "id", id) ∷ []))
        (if not a.configured
          then codes "asnStr.crowdsecRequired"
          else codes "asnStr.profileDisallowsPush")
        a (push_intent id a) push (rw there refl),
    Acts-guard _ (not a.configured) (ask (codes "commonStr.confirmDel"))
        (codes "asnStr.crowdsecRequired") a (revoke_intent id a) revoke (rw there refl),
    Acts-guard _ (not (can_create_intent a))
        (post_request (codes "/adminPage/asn/addIntent")
          ((codes "asn", id) ∷ (codes "duration", duration a) ∷ (codes "note", []) ∷ []))
        (codes "asnStr.profileDisallowsIntent") a (add_intent_from_catalog id a) catalog
        (rw there refl),
    Acts-guard _ _ _ _ a _ all_ refl,
    Acts-guard _ _ _ _ a _ (ap not suggest) refl,
  )

  -- Once a profile has come from the server, after whatever was done on the page and answered since, in any order,
  -- and for a datum that is not falsy: what a button looks like is what it does. A button that is disabled, or
  -- hidden, only shows a message; one that is not posts its request or asks its question, once.
  pub buttons-Agree :
      (es : List Event) (profile : Option Text) (configured : Bool) (before : Asn) (id : Text)
      → is_falsy id ≡ false
      → ButtonsAct id
          (run es (profile_loaded upper clock (success (some (profile, configured))) before))
  buttons-Agree es profile configured before id there =
      Gated-Acts id
        (run es (profile_loaded upper clock (success (some (profile, configured))) before)) there
        (run-Gated es profile configured before)
