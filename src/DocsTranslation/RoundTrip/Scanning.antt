-- ===== src/DocsTranslation/RoundTrip/Scanning.antt =====
-- Where the placeholder's expression matches in a masked text: at every `@` that opens a placeholder.
use nginx_web_ui.Prelude.{
  ℕ, ◌≡◌, refl, ap, sym, ◌∙◌, true, false, [], ◌∷◌, ◌++◌, Option, none, some, arith, Text, All,
  ◌==◌, is_digit, is_space, append_assoc,
}
use nginx_web_ui.Regex.{Found, match_at, run, between}
use nginx_web_ui.Regex.Search.{start_at}
use nginx_web_ui.Regex.Complete.{
  at_cursor, after, run_seq, run_cls, run_group, run_star, match_at-run,
}
use nginx_web_ui.Regex.Sound.{between-append}
use nginx_web_ui.DocsTranslation.Patterns.{at_sign, ph_re}

digit-not-space : (c : ℕ) → is_digit c ≡ true → is_space c ≡ false
unfolding is_space
digit-not-space c h = ground arith

at-not-space : is_space at_sign ≡ false
unfolding is_space
at-not-space = refl

abbrev pub ph_found : Text → Text → Found
ph_found ds rest = record {
  text = at_sign ∷ ds ++ at_sign ∷ [];
  groups = (1, ds) ∷ [];
  prev = some at_sign;
  rest = rest;
}

module _ (prev : Option ℕ) (d : ℕ) (ds rest : Text) (hd : is_digit d ≡ true)
    (hds : All (λ c. is_digit c ≡ true) ds) where
  captured :
      between
        (at_cursor (some at_sign) (d ∷ ds ++ at_sign ∷ rest) [])
        (at_cursor (after (some d) ds) (at_sign ∷ rest) [])
      ≡ d ∷ ds
  captured = between-append _ _ (d ∷ ds) refl

  run-ph :
      run ph_re (start_at prev (at_sign ∷ d ∷ ds ++ at_sign ∷ rest)) some
      ≡ some (at_cursor (some at_sign) rest ((1, d ∷ ds) ∷ []))
  unfolding ph_re
  run-ph = run_seq _ _ _ _ _ (
      run_cls _ _ _ _ _ _ _ refl (
        run_seq _ _ _ _ _ (
          run_star _ is_space _ [] [] _ _ tt (digit-not-space d hd) (
            run_seq _ _ _ _ _ (
              run_group _ _ _ _ _ (
                run_seq _ _ _ _ _ (
                  run_cls _ _ _ _ _ _ _ hd (
                    run_star _ is_digit _ [] ds _ _ hds refl (
                      rw captured (
                        run_seq _ _ _ _ _ (
                          run_star _ is_space _ _ [] _ _ tt at-not-space
                            (run_cls _ _ _ _ _ _ _ refl refl))))))))))))

  whole :
      between
        (start_at prev (at_sign ∷ d ∷ ds ++ at_sign ∷ rest))
        (at_cursor (some at_sign) rest ((1, d ∷ ds) ∷ []))
      ≡ at_sign ∷ d ∷ ds ++ at_sign ∷ []
  whole =
      between-append (start_at prev (at_sign ∷ d ∷ ds ++ at_sign ∷ rest))
        (at_cursor (some at_sign) rest ((1, d ∷ ds) ∷ [])) (at_sign ∷ d ∷ ds ++ at_sign ∷ [])
        (ap (λ t. at_sign ∷ d ∷ t) (sym (append_assoc ds (at_sign ∷ []) rest)))

  -- A placeholder is matched whole, and its number is the first group.
  pub match_at-ph :
      match_at ph_re prev (at_sign ∷ d ∷ ds ++ at_sign ∷ rest) ≡ some (ph_found (d ∷ ds) rest)
  match_at-ph =
      match_at-run ph_re prev _ _ run-ph
      ∙ ap
          (λ t.
            some (record { text = t; groups = (1, d ∷ ds) ∷ []; prev = some at_sign; rest = rest }))
          whole

-- No match begins at another character.
pub match_at-other :
    (prev : Option ℕ) (c : ℕ) (s : Text)
    → (c == at_sign) ≡ false
    → match_at ph_re prev (c ∷ s) ≡ none
unfolding match_at ph_re
match_at-other prev c s h = rw h

pub match_at-nil : (prev : Option ℕ) → match_at ph_re prev [] ≡ none
unfolding match_at ph_re
match_at-nil prev = refl
