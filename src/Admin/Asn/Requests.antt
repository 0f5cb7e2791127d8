-- ===== src/Admin/Asn/Requests.antt =====
-- What the buttons of adminPage/protectionCert/asnCatalog.js ask of the server, and what is done with its answers.
use nginx_web_ui.Prelude.{
  Bool, true, not, ◌||◌, List, [], ◌∷◌, ◌++◌, some, Text, codes, text_eq, is_digit, trim,
  if◌then◌else◌,
}
use nginx_web_ui.Regex.{Regex, bol, cls, eol, plus, cat, test}
use nginx_web_ui.Admin.Page.{
  message, ask, close_window, post_request, emit, Reply, success, refused, broken, or_else,
}
use nginx_web_ui.Admin.Asn.Gates.{Asn, on_page, can_create_intent, can_push, can_suggest}
use nginx_web_ui.Admin.Asn.Tables.{load_intents}

abbrev told : Text → Asn → Asn
told msg a = on_page (emit (message msg)) a

abbrev posts : Text → List (Text × Text) → Asn → Asn
posts path params a = on_page (emit (post_request path params)) a

abbrev reason : Text → Text
reason msg = or_else (codes "error") (some msg)

unfoldable pub sync_meta : Asn → Asn
sync_meta a = posts (codes "/adminPage/asn/syncMeta") [] a

unfoldable pub meta_synced : Reply (Unit {0}) → Asn → Asn
meta_synced (success u) a = told (codes "asnStr.syncStarted") a
meta_synced (refused msg) a = told (or_else (codes "asnStr.syncInProgress") (some msg)) a
meta_synced broken a = a

-- `(v || '24h').trim() || '24h'`
unfoldable pub duration : Asn → Text
duration a =
    or_else (codes "24h")
      (some (trim (or_else (codes "24h") (some (a.page.values (codes "asnIntentDuration"))))))

unfoldable pub add_request : Text → Asn → Asn
unfolding duration
add_request asn a =
    posts (codes "/adminPage/asn/addIntent")
      ((codes "asn", asn) ∷ (codes "duration", duration a) ∷ (codes "note", []) ∷ []) a

-- `!v` for the datum `v` of a button, which jQuery reads as a number (NaN included), a Boolean or null where it
-- is written as one.
unfoldable pub is_falsy : Text → Bool
is_falsy [] = true
is_falsy (c ∷ s) =
    text_eq (c ∷ s) (codes "0")
    || text_eq (c ∷ s) (codes "NaN")
    || text_eq (c ∷ s) (codes "false")
    || text_eq (c ∷ s) (codes "null")

-- `asn` is the datum of the button.
unfoldable pub add_intent_from_catalog : Text → Asn → Asn
unfolding can_create_intent is_falsy add_request
add_intent_from_catalog asn a =
    if not (can_create_intent a)
    then told (codes "asnStr.profileDisallowsIntent") a
    else if is_falsy asn
    then a
    else add_request asn a

unfoldable pub catalog_intent_added : Reply (Unit {0}) → Asn → Asn
unfolding load_intents
catalog_intent_added (success u) a = load_intents (told (codes "commonStr.success") a)
catalog_intent_added (refused msg) a = told (reason msg) a
catalog_intent_added broken a = a

unfoldable pub prompt_add_intent : Asn → Asn
unfolding can_create_intent
prompt_add_intent a =
    if not (can_create_intent a)
    then told (codes "asnStr.profileDisallowsIntent") a
    else on_page (emit (ask (codes "asnStr.addIntent"))) a

-- /^\d+$/
unfoldable pub digits_re : Regex
digits_re = cat (bol ∷ plus (cls is_digit) ∷ eol ∷ [])

-- What was typed in the prompt.
unfoldable pub intent_prompted : Text → Asn → Asn
unfolding digits_re add_request
intent_prompted value a =
    let asn = trim value in
    if not (test digits_re asn) then told (codes "asnStr.invalidAsn") a else add_request asn a

unfoldable pub prompted_intent_added : Reply (Unit {0}) → Asn → Asn
unfolding load_intents
prompted_intent_added (success u) a = load_intents (on_page (emit close_window) a)
prompted_intent_added (refused msg) a = told (reason msg) a
prompted_intent_added broken a = a

unfoldable pub push_intent : Text → Asn → Asn
unfolding can_push is_falsy
push_intent id a =
    if not (can_push a)
    then told
        (if not a.configured
          then codes "asnStr.crowdsecRequired"
          else codes "asnStr.profileDisallowsPush")
        a
    else if is_falsy id
    then a
    else posts (codes "/adminPage/asn/pushIntent") ((codes "id", id) ∷ []) a

-- The answer to a push, and to a revocation.
unfoldable pub intent_changed : Reply (Unit {0}) → Asn → Asn
unfolding load_intents
intent_changed (success u) a = load_intents (told (codes "commonStr.success") a)
intent_changed (refused msg) a = load_intents (told (reason msg) a)
intent_changed broken a = a

unfoldable pub revoke_intent : Text → Asn → Asn
unfolding is_falsy
revoke_intent id a =
    if not a.configured
    then told (codes "asnStr.crowdsecRequired") a
    else if is_falsy id
    then a
    else on_page (emit (ask (codes "commonStr.confirmDel"))) a

-- The question of `revokeIntent` was confirmed.
unfoldable pub revoke_confirmed : Text → Asn → Asn
revoke_confirmed id a =
    posts (codes "/adminPage/asn/revokeIntent") ((codes "id", id) ∷ [])
      (on_page (emit close_window) a)

unfoldable pub suggest_hosting : Asn → Asn
unfolding can_suggest
suggest_hosting a =
    if not (can_suggest a)
    then told (codes "asnStr.profileDisallowsSuggest") a
    else on_page (emit (ask (codes "asnStr.suggestConfirm"))) a

unfoldable pub suggest_confirmed : Asn → Asn
suggest_confirmed a =
    posts (codes "/adminPage/asn/suggestCandidates") ((codes "category", codes "hosting") ∷ [])
      (on_page (emit close_window) a)

-- The number of candidates, as a text, and whether it was capped.
unfoldable pub hosting_suggested : Reply (Text × Bool) → Asn → Asn
unfolding load_intents
hosting_suggested (success (n, capped)) a = load_intents (
    told
      (codes "asnStr.suggestAdded " ++ n ++ (if capped then codes " asnStr.suggestCapped" else []))
      a)
hosting_suggested (refused msg) a = told (reason msg) a
hosting_suggested broken a = a
