-- ===== src/Admin/Cert/Saves.antt =====
-- What `addOver` of adminPage/cert/index.js asks for before it saves a certificate.
use nginx_web_ui.Prelude.{
  ◌≡◌, ◌⊎◌, refl, ap, ◌∙◌, inl, inr, Bool, true, false, ◌&&◌, ◌||◌, List, [], ◌∷◌, ◌++◌, All, some,
  Text, codes, text_eq, any, arith, Bool-cases,
}
use nginx_web_ui.Admin.Page.{Page, Effect, message, post_form, sent, emit}
use nginx_web_ui.Admin.Cert.Form.{CertNames, loosely}
use nginx_web_ui.Admin.Cert.Dialogs.{required, lacks, stamp, add_over}

none_empty :
    (p : Page) (ids : List Text)
    → any (λ id. text_eq (p.values id) []) ids ≡ false
    → All (λ id. text_eq (p.values id) [] ≡ false) ids
none_empty p [] h = tt
none_empty p (id ∷ ids) h = elim (Bool-cases (text_eq (p.values id) [])) [
  | inl empty ↦ absurd (ground (arith, empty))
  | inr filled ↦ (filled, none_empty p ids (rw filled at h))
]

module _ (to_date to_time : Text → Text) (n : CertNames) where
  -- The form that may be saved.
  pub record Complete (p : Page) : Type 0 where
    pub domain : text_eq (p.values (codes "domain")) [] ≡ false
    pub credentials :
        (loosely 0 (some (p.values (codes "type"))) ≡ false)
        ⊎ All
            (λ id. text_eq (p.values id) [] ≡ false)
            (required to_date to_time n (p.values (codes "dnsType")))
    pub files :
        (loosely 1 (some (p.values (codes "type"))) ≡ false)
        ⊎ (text_eq (p.values (codes "pem")) (p.values (codes "key")) ≡ false)

  -- One request was sent, with the page's values of the fields that are not disabled.
  pub record Posted (p q : Page) : Type 0 where
    pub values : Text → Text
    pub log :
        q.log
        ≡ p.log ++ post_form (codes "/adminPage/cert/addOver") n.form (sent values p.disabled) ∷ []
    pub same :
        (id : Text)
        → (text_eq id (codes "makeTime") || text_eq id (codes "endTime")) ≡ false
        → values id ≡ p.values id

  and_cases : (a b : Bool) → (a && b) ≡ false → (a ≡ false) ⊎ (b ≡ false)
  and_cases true b h = inr h
  and_cases false b h = inl refl

  stamp-same :
      (id : Text) (p : Page) (x : Text)
      → text_eq x id ≡ false
      → (stamp to_date to_time n id p).values x ≡ p.values x
  stamp-same id p x other = elim (Bool-cases (text_eq (p.values id) [])) [
    | inl empty ↦ rw empty refl
    | inr filled ↦ rw (filled, other) refl
  ]

  or_left : (a b : Bool) → (a || b) ≡ false → a ≡ false
  or_left false b h = refl
  or_left true b h = h

  or_right : (a b : Bool) → (a || b) ≡ false → b ≡ false
  or_right false b h = h
  or_right true b h = absurd (ground (arith, h))

  stamped : Page → Page
  stamped p =
      stamp to_date to_time n (codes "endTime") (stamp to_date to_time n (codes "makeTime") p)

  stamp-log : (id : Text) (p : Page) → (stamp to_date to_time n id p).log ≡ p.log
  stamp-log id p = elim (Bool-cases (text_eq (p.values id) [])) [
    | inl empty ↦ rw empty refl
    | inr filled ↦ rw filled refl
  ]

  stamp-disabled : (id : Text) (p : Page) → (stamp to_date to_time n id p).disabled ≡ p.disabled
  stamp-disabled id p = elim (Bool-cases (text_eq (p.values id) [])) [
    | inl empty ↦ rw empty refl
    | inr filled ↦ rw filled refl
  ]

  posted : (Text → Text) → (Text → Bool) → Effect
  posted values disabled = post_form (codes "/adminPage/cert/addOver") n.form (sent values disabled)

  stamped-Posted :
      (p : Page) → Posted p (emit (posted (stamped p).values (stamped p).disabled) (stamped p))
  unfolding stamped posted
  stamped-Posted p =
      let first = stamp to_date to_time n (codes "makeTime") p in
      record {
        values = (stamped p).values;
        log =
            ap (λ l. l ++ posted (stamped p).values (stamped p).disabled ∷ [])
              (stamp-log (codes "endTime") first ∙ stamp-log (codes "makeTime") p)
            ∙ ap (λ d. p.log ++ posted (stamped p).values d ∷ [])
                (stamp-disabled (codes "endTime") first ∙ stamp-disabled (codes "makeTime") p);
        same = λ id h.
            stamp-same (codes "endTime") first id (or_right (text_eq id (codes "makeTime")) _ h)
            ∙ stamp-same (codes "makeTime") p id (or_left (text_eq id (codes "makeTime")) _ h);
      }

  given_cases :
      (p : Page)
      → (loosely 0 (some (p.values (codes "type"))) ≡ false) ⊎ (lacks to_date to_time n p ≡ false)
      → (loosely 0 (some (p.values (codes "type"))) ≡ false)
        ⊎ All
            (λ id. text_eq (p.values id) [] ≡ false)
            (required to_date to_time n (p.values (codes "dnsType")))
  unfolding lacks
  given_cases p (inl other) = inl other
  given_cases p (inr given) = inr (none_empty p _ given)

  -- `addOver` shows a message, or the page has a domain, the credentials that are required of its provider and
  -- two different files, where its type has them, and one form is sent: with the page's values but for the two
  -- times, and without the disabled fields.
  pub add_over-Complete :
      (p : Page)
      → (Complete p × Posted p (add_over to_date to_time n p))
        ⊎ ((msg : Text) × (add_over to_date to_time n p ≡ emit (message msg) p))
  unfolding add_over stamped posted
  add_over-Complete p = elim (Bool-cases (text_eq (p.values (codes "domain")) [])) [
    | inl unnamed ↦ inr (codes "certStr.error1", rw unnamed refl)
    | inr named ↦
        elim (Bool-cases
          (loosely 0 (some (p.values (codes "type"))) && lacks to_date to_time n p)) [
            | inl lacking ↦ inr (codes "commonStr.IncompleteEntry", rw (named, lacking) refl)
            | inr given ↦
                elim (Bool-cases (
                  loosely 1 (some (p.values (codes "type")))
                  && text_eq (p.values (codes "pem")) (p.values (codes "key")))) [
                    | inl same ↦ inr (codes "certStr.error5", rw (named, given, same) refl)
                    | inr different ↦ inl (
                      record {
                        domain = named;
                        credentials = given_cases p (and_cases _ _ given);
                        files = and_cases _ _ different;
                      },
                      rw (named, given, different) (stamped-Posted p),
                    )
                  ]
          ]
  ]
