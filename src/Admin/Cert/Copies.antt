-- ===== src/Admin/Cert/Copies.antt =====
-- A copy of a certificate in adminPage/cert/index.js, and what editing one leaves in the form.
use nginx_web_ui.Prelude.{
  ◌≡◌, refl, ap, sym, subst, ◌∙◌, inl, inr, Bool, true, false, List, [], ◌∷◌, Option, none, some,
  Text, codes, text_eq, text_eq_refl, trim, decimal, if◌then◌else◌, Bool-cases,
}
use nginx_web_ui.Admin.Page.{
  Page, set_shown, message, emit, render_form, success, or_empty, unless_null,
}
use nginx_web_ui.Admin.Cert.Form.{
  CertNames, check_type, check_dns_type, hide_all, dns_panels, show_window, loosely,
}
use nginx_web_ui.Admin.Cert.Dialogs.{
  Cert, Outcome, goes_on, stops, and_then, go_on, show_file, show_times, lock_edited, edited,
  show_cert, show_copy, show_edited, add_over,
}

-- The field of the id is none of the others.
pub record Distinct (n : CertNames) : Type 0 where
  pub domain : text_eq (codes "domain") n.id ≡ false
  pub type : text_eq (codes "type") n.id ≡ false
  pub pem : text_eq n.id (codes "pem") ≡ false
  pub key : text_eq n.id (codes "key") ≡ false
  pub make_time : text_eq n.id (codes "makeTime") ≡ false
  pub end_time : text_eq n.id (codes "endTime") ≡ false
  pub made : text_eq (codes "makeTime") n.id ≡ false
  pub ended : text_eq (codes "endTime") n.id ≡ false

-- What is kept where panels are shown and hidden.
abbrev Kept : Page → Page → Type 0
Kept p q = (q.values ≡ p.values) × (q.disabled ≡ p.disabled)

shown_if : (c : Bool) (id : Text) (p : Page) → Kept p (if c then set_shown id true p else p)
shown_if true id p = (refl, refl)
shown_if false id p = (refl, refl)

hide_all-Kept : (ids : List Text) (p : Page) → Kept p (hide_all ids p)
hide_all-Kept [] p = (refl, refl)
hide_all-Kept (id ∷ ids) p = hide_all-Kept ids (set_shown id false p)

Kept-trans : (p q r : Page) → Kept p q → Kept q r → Kept p r
Kept-trans p q r (a, b) (c, d) = (c ∙ a, d ∙ b)

check_type-Kept : (t : Option Text) (p : Page) → Kept p (check_type t p)
unfolding check_type
check_type-Kept t p = elim (Bool-cases (loosely 0 t)) [
  | inl zero_ ↦ elim (Bool-cases (loosely 1 t)) [
    | inl one_ ↦ rw (zero_, one_) (shown_if (loosely 2 t) (codes "encryptionDiv") _)
    | inr other ↦ rw (zero_, other) (shown_if (loosely 2 t) (codes "encryptionDiv") _)
  ]
  | inr other_ ↦ elim (Bool-cases (loosely 1 t)) [
    | inl one_ ↦ rw (other_, one_) (shown_if (loosely 2 t) (codes "encryptionDiv") _)
    | inr other ↦ rw (other_, other) (shown_if (loosely 2 t) (codes "encryptionDiv") _)
  ]
]

check_dns_type-Kept : (v : Text) (p : Page) → Kept p (check_dns_type v p)
unfolding check_dns_type
check_dns_type-Kept v p = hide_all-Kept dns_panels p

-- The fields of the form of a copy.
pub record CopyOf (n : CertNames) (cert : Cert) (values : Text → Text) (disabled : Text → Bool)
    : Type 0 where
  pub id : values n.id ≡ []
  pub pem : values (codes "pem") ≡ []
  pub key : values (codes "key") ≡ []
  pub make_time : values (codes "makeTime") ≡ []
  pub end_time : values (codes "endTime") ≡ []
  pub domain : values (codes "domain") ≡ or_empty (cert (codes "domain"))
  pub type : values (codes "type") ≡ or_empty (cert (codes "type"))
  pub free_domain : disabled (codes "domain") ≡ false
  pub free_type : disabled (codes "type") ≡ false
  pub free_encryption : disabled (codes "encryption") ≡ false

module _ (to_date to_time : Text → Text) (n : CertNames) (distinct : Distinct n) where
  shown_after : Cert → Page → Page
  unfolding show_window
  shown_after cert p = show_window n (codes "certStr.edit") (
      emit render_form (
        check_dns_type (unless_null (codes "ali") (cert (codes "dnsType")))
          (check_type (cert (codes "type")) p)))

  shown_after-Kept : (cert : Cert) (p : Page) → Kept p (shown_after cert p)
  unfolding shown_after show_window
  shown_after-Kept cert p =
      let typed = check_type (cert (codes "type")) p in
      Kept-trans p typed (check_dns_type (unless_null (codes "ali") (cert (codes "dnsType"))) typed)
        (check_type-Kept (cert (codes "type")) p)
        (check_dns_type-Kept (unless_null (codes "ali") (cert (codes "dnsType"))) typed)

  show_copy-CopyOf :
      (cert : Cert) (p : Page)
      → let q = show_copy to_date to_time n (show_cert to_date to_time n cert p) in
        CopyOf n cert q.values q.disabled
  unfolding show_copy show_cert
  show_copy-CopyOf cert p = record {
    id =
        rw (distinct.pem, distinct.key, distinct.make_time, distinct.end_time, text_eq_refl n.id)
          refl;
    pem = refl;
    key = refl;
    make_time = refl;
    end_time = refl;
    domain = rw distinct.domain refl;
    type = rw distinct.type refl;
    free_domain = refl;
    free_type = refl;
    free_encryption = refl;
  }

  -- Where the field of the id is none of the others, the form of a copy has the domain and the type
  -- of the certificate and neither its id, its files nor its times, whatever it had before, and the
  -- fields that an issued certificate locks are free.
  pub edited-CopyOf :
      (cert : Cert) (p : Page)
      → let q = edited to_date to_time n true (success cert) p in CopyOf n cert q.values q.disabled
  unfolding edited shown_after
  edited-CopyOf cert p =
      let copy = show_copy to_date to_time n (show_cert to_date to_time n cert p) in
      let (values, disabled) = shown_after-Kept cert copy in
      subst (λ v. CopyOf n cert v (shown_after cert copy).disabled) (sym values)
        (subst (λ d. CopyOf n cert copy.values d) (sym disabled) (show_copy-CopyOf cert p))

  no_files :
      (q : Page)
      → q.values (codes "type") ≡ codes "1"
      → q.values (codes "pem") ≡ q.values (codes "key")
      → (msg : Text) × (add_over to_date to_time n q ≡ emit (message msg) q)
  unfolding add_over trim decimal
  no_files q type files =
      let not_zero : loosely 0 (some (q.values (codes "type"))) ≡ false =
        ap (λ t. loosely 0 (some t)) type in
      let manual : loosely 1 (some (q.values (codes "type"))) ≡ true =
        ap (λ t. loosely 1 (some t)) type in
      let equal : text_eq (q.values (codes "pem")) (q.values (codes "key")) ≡ true =
        ap (λ t. text_eq t (q.values (codes "key"))) files
        ∙ text_eq_refl (q.values (codes "key")) in
      elim (Bool-cases (text_eq (q.values (codes "domain")) [])) [
        | inl unnamed ↦ (codes "certStr.error1", rw unnamed refl)
        | inr named ↦ (codes "certStr.error5", rw (named, not_zero, manual, equal) refl)
      ]

  -- Where the field of the id is none of the others, a copy of a certificate whose files were
  -- uploaded by hand cannot be saved as it is: it has no files, which `addOver` takes for one file
  -- given twice, and it only shows a message.
  pub edited-add_over :
      (cert : Cert) (p : Page)
      → cert (codes "type") ≡ some (codes "1")
      → (msg : Text) × (add_over to_date to_time n (edited to_date to_time n true (success cert) p)
          ≡ emit (message msg) (edited to_date to_time n true (success cert) p))
  edited-add_over cert p manual =
      let copy = edited-CopyOf cert p in
      no_files (edited to_date to_time n true (success cert) p) (copy.type ∙ ap or_empty manual)
        (copy.pem ∙ sym copy.key)

  page_of : Outcome → Page
  page_of (goes_on p) = p
  page_of (stops p) = p

  and_then-values :
      (cert : Cert) (o : Outcome) (id : Text)
      → (and_then o (shown_after cert)).values id ≡ (page_of o).values id
  unfolding page_of
  and_then-values cert (goes_on p) id = ap (λ v. v id) (shown_after-Kept cert p).0
  and_then-values cert (stops p) id = refl

  show_file-values :
      (id html : Text) (file : Option Text) (o : Outcome)
      → (page_of (show_file id html file o)).values ≡ (page_of o).values
  unfolding page_of
  show_file-values id html file (stops p) = refl
  show_file-values id html none (goes_on p) = refl
  show_file-values id html (some path) (goes_on p) = refl

  go_on-values :
      (f : Page → Page)
      → ((q : Page) → (f q).values ≡ q.values)
      → (o : Outcome) → (page_of (go_on f o)).values ≡ (page_of o).values
  unfolding page_of
  go_on-values f keeps (goes_on p) = keeps p
  go_on-values f keeps (stops p) = refl

  show_edited-times :
      (cert : Cert) (p : Page) (id : Text)
      → cert (codes "makeTime") ≡ none
      → cert (codes "endTime") ≡ none
      → text_eq id n.id ≡ false
      → text_eq id (codes "pem") ≡ false
      → text_eq id (codes "key") ≡ false
      → (page_of (show_edited to_date to_time n cert p)).values id ≡ p.values id
  unfolding show_edited lock_edited page_of
  show_edited-times cert p id no_make no_end other not_pem not_key =
      let locked = goes_on (lock_edited to_date to_time n cert p) in
      let with_pem = show_file (codes "pem") (codes "pemPath") (cert (codes "pem")) locked in
      let with_key = show_file (codes "key") (codes "keyPath") (cert (codes "key")) with_pem in
      ap (λ v. v id)
        (go_on-values (show_times to_date to_time n cert) (λ q. rw (no_make, no_end) refl) with_key
          ∙ show_file-values (codes "key") (codes "keyPath") (cert (codes "key")) with_pem
          ∙ show_file-values (codes "pem") (codes "pemPath") (cert (codes "pem")) locked)
      ∙ rw (not_key, not_pem, other) refl

  -- Where the field of the id is none of the others, a certificate with neither the time of its
  -- issue nor that of its end is shown with what the form had there before.
  pub edited-stale_times :
      (cert : Cert) (p : Page)
      → cert (codes "makeTime") ≡ none
      → cert (codes "endTime") ≡ none
      → ((edited to_date to_time n false (success cert) p).values (codes "makeTime")
          ≡ p.values (codes "makeTime"))
        × ((edited to_date to_time n false (success cert) p).values (codes "endTime")
            ≡ p.values (codes "endTime"))
  unfolding edited shown_after show_cert
  edited-stale_times cert p no_make no_end =
      let shown = show_cert to_date to_time n cert p in
      let o = show_edited to_date to_time n cert shown in
      (
        and_then-values cert o (codes "makeTime")
            ∙ show_edited-times cert shown (codes "makeTime") no_make no_end distinct.made refl
                refl,
        and_then-values cert o (codes "endTime")
            ∙ show_edited-times cert shown (codes "endTime") no_make no_end distinct.ended refl
                refl,
      )
