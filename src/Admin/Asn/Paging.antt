-- ===== src/Admin/Asn/Paging.antt =====
-- The pages of the catalog of adminPage/protectionCert/asnCatalog.js.
use nginx_web_ui.Prelude.{
  ℕ, suc, ◌≡◌, ◌<◌, ◌≤◌, ◌+◌, ◌-◌, ◌*◌, ◌⊎◌, ◌↔◌, refl, ap, inl, inr, true, false, [], ◌∷◌, ◌++◌,
  print, trim, codes, arith, Text, leb, ltb, Bool-cases,
}
use native.Mathlib.Nat.{le-div_iff_mul-le, suc-mul}
use nginx_web_ui.Admin.Page.{Effect, get_request}
use nginx_web_ui.Admin.Asn.Gates.{Asn}
use nginx_web_ui.Admin.Asn.Tables.{Clock, page_count, prev_page, next_page, load_catalog}

-- A page comes after page `curr` exactly where the catalog has more rows than the pages up to it.
page_count-more :
    (count curr limit : ℕ) → 0 < limit → (curr < page_count count limit) ↔ (curr * limit < count)
unfolding page_count
page_count-more count curr limit some_ =
    let positive : ltb 0 limit ≡ true = ground arith in
    let (there, back) =
      le-div_iff_mul-le {k = limit} {x = suc curr} {y = count + (limit - 1)} some_ in
    let more : suc curr * limit ≡ curr * limit + limit = suc-mul curr limit in
    rw positive (
      (λ h. let m = there (omega (arith, h)) in omega (arith, m, more)),
      (λ h. let m = back (omega (arith, h, more)) in omega (arith, m)),
    )

module _ (upper : Text → Text) (clock : Clock) where
  -- The request for a page of the catalog, with the page's size and filters.
  abbrev pub page_request : ℕ → Asn → Effect
  page_request n a = get_request (codes "/adminPage/asn/catalog") (
      (codes "curr", print n)
      ∷ (codes "limit", print a.limit)
      ∷ (codes "q", trim (a.page.values (codes "asnCatalogQ")))
      ∷ (codes "category", trim (a.page.values (codes "asnCatalogCategory")))
      ∷ (codes "countryCode", upper (trim (a.page.values (codes "asnCatalogCountry"))))
      ∷ [])

  -- With a page size and a page number above 0: where the catalog has no more rows than the pages so far, the
  -- button for the next page changes nothing and asks for nothing; where it has more, that button asks for the next
  -- page, with the size and the filters of the page, and the button for the page before then asks for this one.
  pub next_page-Within :
      (a : Asn)
      → 0 < a.limit
      → 0 < a.curr
      → ((a.count ≤ a.curr * a.limit) × (next_page upper clock a ≡ a))
        ⊎ ((a.curr * a.limit < a.count)
            × ((next_page upper clock a).curr ≡ a.curr + 1)
            × ((next_page upper clock a).page.log ≡ a.page.log ++ page_request (a.curr + 1) a ∷ [])
            × ((prev_page upper clock (next_page upper clock a)).curr ≡ a.curr)
            × ((prev_page upper clock (next_page upper clock a)).page.log
                ≡ (a.page.log ++ page_request (a.curr + 1) a ∷ []) ++ page_request a.curr a ∷ []))
  unfolding next_page prev_page load_catalog
  next_page-Within a some_ first =
      let (there, back) = page_count-more a.count a.curr a.limit some_ in
      elim (Bool-cases (leb (page_count a.count a.limit) a.curr)) [
        | inl last ↦ inl (ground (arith, last, back), rw last refl)
        | inr more ↦
            let later : leb (a.curr + 1) 1 ≡ false = ground (arith, first) in
            let same : a.curr + 1 - 1 ≡ a.curr = omega arith in
            inr (
              there (ground (arith, more)),
              rw more refl,
              rw more refl,
              rw (more, later) same,
              rw (more, later)
                  (ap
                    (λ n. (a.page.log ++ page_request (a.curr + 1) a ∷ []) ++ page_request n a ∷ [])
                    same),
            )
      ]
