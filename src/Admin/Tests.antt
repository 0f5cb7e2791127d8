-- ===== src/Admin/Tests.antt =====
-- The theorems on the pages of the administration at concrete pages.
use nginx_web_ui.Prelude.{
  ◌≡◌, ◌<◌, ◌≤◌, ◌+◌, ◌*◌, ◌/◌, ◌%◌, ◌⊎◌, refl, true, false, List, [], ◌∷◌, ◌++◌, none, some, Text,
  codes, text_eq, map, leb, ◌&&◌, arith, join_lines, print, if◌then◌else◌, text_functions,
}
use nginx_web_ui.Admin.Page.{Page, message, ask, emit, success, update}
use nginx_web_ui.Admin.Asn.Gates.{Asn, initial}
use nginx_web_ui.Admin.Asn.Tables.{Clock, profile_loaded, next_page, prev_page}
use nginx_web_ui.Admin.Asn.Requests.{is_falsy}
use nginx_web_ui.Admin.Asn.Same.{Gated}
use nginx_web_ui.Admin.Asn.Reach.{run, chooses, pushes, run-Gated, ButtonsAct, buttons-Agree}
use nginx_web_ui.Admin.Asn.Paging.{page_request, next_page-Within}
use nginx_web_ui.Admin.Cert.Dialogs.{Cert, edited, add_over as cert_add_over}
use nginx_web_ui.Admin.Cert.Tab.{page_names}
use nginx_web_ui.Admin.Cert.Saves.{
  Complete as CompleteCert, Posted as PostedCert, add_over-Complete,
}
use nginx_web_ui.Admin.Cert.Copies.{Distinct, CopyOf, edited-CopyOf, edited-stale_times}
use nginx_web_ui.Admin.Html.{escape_html, entities, escape_html-entities}
use nginx_web_ui.Admin.IpTags.Editor.{
  Editor, Tag, tag_of, ips, invalid_count, add_ip, load_from_textarea,
}
use nginx_web_ui.Admin.IpTags.Dialogs.{add_over, list_names}
use nginx_web_ui.Admin.IpTags.Invariants.{Good, Apart, adds, submits, none_, then_}
use nginx_web_ui.Admin.IpTags.Reach.{Steps-Good}
use nginx_web_ui.Admin.IpTags.Saves.{Complete, Posted, add_over-Posted}
use nginx_web_ui.Admin.IpTags.Reload.{load_from_textarea-ips}

abbrev to_lower : Text → Text
to_lower t = map (λ c. if leb 65 c && leb c 90 then c + 32 else c) t

abbrev blank : Page
blank = record {
  values = λ id. [];
  htmls = λ id. [];
  disabled = λ id. false;
  greyed = λ id. false;
  shown = λ id. false;
  log = [];
}

abbrev named : Page
named = record blank { values = update (λ id. []) (codes "name") (codes "office") }

abbrev start : Editor
start = record { tags = []; filter = []; page = named }

abbrev home : Text
home = codes "10.0.0.1"

list_names-Apart : Apart list_names
list_names-Apart = record {
  container = refl;
  input = refl;
  search = refl;
  batch_text = refl;
  batch_file = refl;
  id = refl;
}

start-Good : Good list_names start
unfolding text_functions
start-Good = (tt, refl)

escape_html-entities_example : escape_html (codes "a<\"b\"&") ≡ entities (codes "a<\"b\"&")
escape_html-entities_example = escape_html-entities (codes "a<\"b\"&")

Steps-Good_example :
    Good list_names (add_over to_lower list_names (add_ip to_lower list_names home start))
Steps-Good_example =
    Steps-Good to_lower list_names list_names-Apart {e = start}
      (then_ (then_ none_ (adds home)) submits) start-Good

add_over-Posted_example :
    let e = add_ip to_lower list_names home start in
    (Complete to_lower list_names e × Posted to_lower list_names e (add_over to_lower list_names e))
    ⊎ (((0 < invalid_count e.tags)
          × (add_over to_lower list_names e ≡ record e {
            page =
                emit
                  (ask (codes "denyAllowStr.invalidWarn " ++ print (invalid_count e.tags)))
                  e.page;
          }))
        ⊎ ((msg : Text) × (add_over to_lower list_names e
              ≡ record e { page = emit (message msg) e.page })))
add_over-Posted_example =
    add_over-Posted to_lower list_names (add_ip to_lower list_names home start)

abbrev two_tags : List Tag
two_tags = tag_of home ∷ tag_of (codes "::1") ∷ []

load_from_textarea-ips_example :
    (load_from_textarea to_lower list_names (some (join_lines (ips two_tags))) start).tags
    ≡ two_tags
unfolding text_functions
load_from_textarea-ips_example =
    load_from_textarea-ips to_lower list_names two_tags start ((refl, refl), ((refl, refl), tt))
      (
        (refl, (refl, (refl, (refl, (refl, (refl, (refl, (refl, (refl, tt))))))))),
        ((refl, (refl, (refl, (refl, tt)))), tt),
      )

-- Hours and minutes from the epoch.
abbrev clock : Clock
clock ms = some (1970, 0, 1, ms / 3600000, ms / 60000 % 60)

run-Gated_example : Gated (
    run to_lower clock (pushes (codes "7") ∷ chooses (codes "light") ∷ []) (
      profile_loaded to_lower clock (success (some (some (codes "strict"), true))) (initial blank)))
run-Gated_example =
    run-Gated to_lower clock (pushes (codes "7") ∷ chooses (codes "light") ∷ [])
      (some (codes "strict")) true (initial blank)

seven_there : is_falsy (codes "7") ≡ false
unfolding is_falsy
seven_there = refl

buttons-Agree_example : ButtonsAct to_lower clock (codes "7") (
    run to_lower clock (pushes (codes "7") ∷ chooses (codes "light") ∷ []) (
      profile_loaded to_lower clock (success (some (some (codes "manual"), true))) (initial blank)))
buttons-Agree_example =
    buttons-Agree to_lower clock (pushes (codes "7") ∷ chooses (codes "light") ∷ [])
      (some (codes "manual")) true (initial blank) (codes "7") seven_there

abbrev counted : Asn
counted = record {
  profile = codes "light";
  configured = false;
  curr = 2;
  limit = 10;
  count = 25;
  has_form = false;
  applying = false;
  checked = λ v. false;
  page = blank;
}

next_page-Within_example :
    ((counted.count ≤ counted.curr * counted.limit) × (next_page to_lower clock counted ≡ counted))
    ⊎ ((counted.curr * counted.limit < counted.count)
        × ((next_page to_lower clock counted).curr ≡ counted.curr + 1)
        × ((next_page to_lower clock counted).page.log
            ≡ counted.page.log ++ page_request to_lower clock (counted.curr + 1) counted ∷ [])
        × ((prev_page to_lower clock (next_page to_lower clock counted)).curr ≡ counted.curr)
        × ((prev_page to_lower clock (next_page to_lower clock counted)).page.log
            ≡ (counted.page.log ++ page_request to_lower clock (counted.curr + 1) counted ∷ [])
              ++ page_request to_lower clock counted.curr counted ∷ []))
next_page-Within_example = next_page-Within to_lower clock counted (omega arith) (omega arith)

add_over-Complete_example :
    (CompleteCert to_lower to_lower page_names named
      × PostedCert to_lower to_lower page_names named
          (cert_add_over to_lower to_lower page_names named))
    ⊎ ((msg : Text) × (cert_add_over to_lower to_lower page_names named ≡ emit (message msg) named))
add_over-Complete_example = add_over-Complete to_lower to_lower page_names named

page_names-Distinct : Distinct page_names
page_names-Distinct = record {
  domain = refl;
  type = refl;
  pem = refl;
  key = refl;
  make_time = refl;
  end_time = refl;
  made = refl;
  ended = refl;
}

-- A certificate that was uploaded by hand.
abbrev by_hand : Cert
by_hand id = if text_eq id (codes "type") then some (codes "1") else none

edited-CopyOf_example :
    let q = edited to_lower to_lower page_names true (success by_hand) named in
    CopyOf page_names by_hand q.values q.disabled
edited-CopyOf_example = edited-CopyOf to_lower to_lower page_names page_names-Distinct by_hand named

edited-stale_times_example :
    let q = edited to_lower to_lower page_names false (success by_hand) named in
    (q.values (codes "makeTime") ≡ named.values (codes "makeTime"))
    × (q.values (codes "endTime") ≡ named.values (codes "endTime"))
edited-stale_times_example =
    edited-stale_times to_lower to_lower page_names page_names-Distinct by_hand named refl refl
