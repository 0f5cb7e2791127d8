-- ===== src/Admin/Asn/Tables.antt =====
-- The tables of adminPage/protectionCert/asnCatalog.js: the catalog, page by page, and the intents.
use nginx_web_ui.Prelude.{
  ℕ, zero, suc, ◌+◌, ◌-◌, ◌/◌, Bool, false, List, [], ◌∷◌, ◌++◌, Option, none, some, Text, codes,
  leb, ltb, length, print, trim, if◌then◌else◌,
}
use nginx_web_ui.Admin.Page.{
  message, get_request, emit, ◌|>◌, set_html, set_disabled, Reply, success, refused, broken,
  or_else, or_empty,
}
use nginx_web_ui.Admin.Html.{escape_html}
use nginx_web_ui.Admin.Asn.Gates.{Asn, on_page, apply_ui_gates, set_radio_checked}

-- A field that is missing or null is `none`.
pub record CatalogItem : Type 0 where
  pub asn : Option Text
  pub handle : Option Text
  pub description : Option Text
  pub country_code : Option Text
  pub category : Option Text

pub record CatalogPage : Type 0 where
  pub records : List CatalogItem
  pub count : Option ℕ
  pub curr : Option ℕ
  pub limit : Option ℕ

pub record Intent : Type 0 where
  pub id : Option Text
  pub asn : Option Text
  pub status : Option Text
  pub duration : Option Text
  pub last_push_at : Option ℕ
  pub last_error : Option Text

-- `n < 10 ? '0' + n : '' + n`
abbrev two_digits : ℕ → Text
two_digits n = if ltb n 10 then b'0' ∷ print n else print n

-- Year, month from 0, day, hour and minute of a time; `none` is an invalid date.
abbrev pub Clock : Type 0
Clock = ℕ → Option (ℕ × ℕ × ℕ × ℕ × ℕ)

unfoldable pub fmt_time : Clock → Option ℕ → Text
fmt_time clock none = codes "--"
fmt_time clock (some zero) = codes "--"
fmt_time clock (some (suc ms)) = elim (clock (suc ms)) [
  | none ↦ codes "--"
  | some (y, mo, d, h, mi) ↦
      print y
      ++ b'-' ∷ two_digits (mo + 1)
      ++ b'-' ∷ two_digits d
      ++ b' ' ∷ two_digits h
      ++ b':' ∷ two_digits mi
]

abbrev cell : Text → Text
cell s = codes "<td>" ++ escape_html s ++ codes "</td>"

abbrev no_rows : Text
no_rows = codes "<tr><td colspan=\"6\" style=\"text-align:center;color:#999;\">--</td></tr>"

unfoldable pub catalog_row : CatalogItem → Text
catalog_row item =
    codes "<tr>"
    ++ cell (or_empty item.asn)
    ++ cell (or_empty item.handle)
    ++ cell (or_empty item.description)
    ++ cell (or_empty item.country_code)
    ++ cell (or_empty item.category)
    ++ codes "<td>"
    ++ codes
        "<button type=\"button\" class=\"layui-btn layui-btn-xs layui-btn-normal asn-add-intent-btn\" data-asn=\""
    ++ escape_html (or_empty item.asn)
    ++ codes "\" onclick=\"asnCatalogNS.addIntentFromCatalog(this)\">"
    ++ escape_html (codes "asnStr.addIntent")
    ++ codes "</button>"
    ++ codes "</td>"
    ++ codes "</tr>"

unfoldable pub catalog_rows : List CatalogItem → Text
unfolding catalog_row
catalog_rows [] = []
catalog_rows (item ∷ items) = catalog_row item ++ catalog_rows items

abbrev catalog_html : List CatalogItem → Text
catalog_html [] = no_rows
catalog_html (item ∷ items) = catalog_rows (item ∷ items)

-- `Math.ceil(catalogCount / catalogLimit)`
unfoldable pub page_count : ℕ → ℕ → ℕ
page_count count limit = if ltb 0 limit then (count + (limit - 1)) / limit else 1

-- `Math.max(1, …)`
unfoldable pub total_pages : ℕ → ℕ → ℕ
unfolding page_count
total_pages count limit = if ltb (page_count count limit) 1 then 1 else page_count count limit

abbrev or_number : ℕ → Option ℕ → ℕ
or_number d none = d
or_number d (some n) = n

-- The numbers and the rows of a page of the catalog.
unfoldable pub catalog_shown : CatalogPage → Asn → Asn
unfolding catalog_rows total_pages
catalog_shown answer a =
    let b = record a {
      count = or_number (length answer.records) answer.count;
      curr = or_number a.curr answer.curr;
      limit = or_number a.limit answer.limit;
    } in
    let total = total_pages b.count b.limit in
    on_page
      (λ p.
        p
        |> set_html (codes "asnCatalogBody") (catalog_html answer.records)
        |> set_disabled (codes "asn-add-intent-btn") false
        |> set_html (codes "asnCatalogPageInfo")
            (codes "asnStr.pageInfo " ++ print b.curr ++ b' ' ∷ print total ++ b' ' ∷ print b.count)
        |> set_disabled (codes "btnAsnCatalogPrev") (leb b.curr 1)
        |> set_disabled (codes "btnAsnCatalogNext") (leb total b.curr))
      b

-- The answer to the request for a page of the catalog.
unfoldable pub catalog_loaded : Reply CatalogPage → Asn → Asn
unfolding catalog_shown apply_ui_gates
catalog_loaded (success answer) a = apply_ui_gates (catalog_shown answer a)
catalog_loaded (refused msg) a = on_page (emit (message (or_else (codes "error") (some msg)))) a
catalog_loaded broken a = a

unfoldable pub load_intents : Asn → Asn
load_intents a = on_page (emit (get_request (codes "/adminPage/asn/intents") [])) a

-- `toUpperCase` and the clock of the platform.
module _ (upper : Text → Text) (clock : Clock) where
  unfoldable pub load_catalog : Asn → Asn
  load_catalog a =
      let q = trim (a.page.values (codes "asnCatalogQ")) in
      let category = trim (a.page.values (codes "asnCatalogCategory")) in
      let country_code = upper (trim (a.page.values (codes "asnCatalogCountry"))) in
      on_page
        (emit (
          get_request (codes "/adminPage/asn/catalog") (
            (codes "curr", print a.curr)
            ∷ (codes "limit", print a.limit)
            ∷ (codes "q", q)
            ∷ (codes "category", category)
            ∷ (codes "countryCode", country_code)
            ∷ [])))
        a

  unfoldable pub intent_row : Intent → Text
  unfolding fmt_time
  intent_row item =
      codes "<tr>"
      ++ cell (or_empty item.asn)
      ++ cell (or_empty item.status)
      ++ cell (or_empty item.duration)
      ++ cell (fmt_time clock item.last_push_at)
      ++ codes "<td style=\"max-width:240px;word-break:break-all;\">"
      ++ escape_html (or_empty item.last_error)
      ++ codes "</td>"
      ++ codes "<td>"
      ++ codes "<button type=\"button\" class=\"layui-btn layui-btn-xs asn-push-btn\" data-id=\""
      ++ escape_html (or_empty item.id)
      ++ codes "\" onclick=\"asnCatalogNS.pushIntent(this)\">"
      ++ escape_html (codes "asnStr.push")
      ++ codes "</button> "
      ++ codes
          "<button type=\"button\" class=\"layui-btn layui-btn-xs layui-btn-danger asn-revoke-btn\" data-id=\""
      ++ escape_html (or_empty item.id)
      ++ codes "\" onclick=\"asnCatalogNS.revokeIntent(this)\">"
      ++ escape_html (codes "asnStr.revoke")
      ++ codes "</button>"
      ++ codes "</td>"
      ++ codes "</tr>"

  unfoldable pub intent_rows : List Intent → Text
  unfolding intent_row
  intent_rows [] = []
  intent_rows (item ∷ items) = intent_row item ++ intent_rows items

  abbrev intents_html : List Intent → Text
  intents_html [] = no_rows
  intents_html (item ∷ items) = intent_rows (item ∷ items)

  unfoldable pub intents_shown : List Intent → Asn → Asn
  unfolding intent_rows
  intents_shown items a =
      on_page
        (λ p.
          p
          |> set_html (codes "asnIntentBody") (intents_html items)
          |> set_disabled (codes "asn-push-btn") false
          |> set_disabled (codes "asn-revoke-btn") false)
        a

  unfoldable pub intents_loaded : Reply (List Intent) → Asn → Asn
  unfolding intents_shown apply_ui_gates
  intents_loaded (success items) a = apply_ui_gates (intents_shown items a)
  intents_loaded (refused msg) a = a
  intents_loaded broken a = a

  -- The answer to the request for the profile: `none` is no object.
  unfoldable pub profile_loaded : Reply (Option (Option Text × Bool)) → Asn → Asn
  unfolding set_radio_checked apply_ui_gates load_catalog load_intents
  profile_loaded (success (some (profile, configured))) a =
      let b = record a { profile = or_else (codes "light") profile; configured = configured } in
      load_intents (load_catalog (apply_ui_gates (set_radio_checked b.profile b)))
  profile_loaded (success none) a = a
  profile_loaded (refused msg) a = a
  profile_loaded broken a = a

  unfoldable pub search : Asn → Asn
  unfolding load_catalog
  search a = load_catalog (record a { curr = 1 })

  unfoldable pub prev_page : Asn → Asn
  unfolding load_catalog
  prev_page a = if leb a.curr 1 then a else load_catalog (record a { curr = a.curr - 1 })

  unfoldable pub next_page : Asn → Asn
  unfolding page_count load_catalog
  next_page a =
      if leb (page_count a.count a.limit) a.curr
      then a
      else load_catalog (record a { curr = a.curr + 1 })
