-- ===== src/Admin/BlockEditor/RoundTrip.antt =====
-- A draft that is set in the editor of adminPage/common/blockEditor.js, and the draft that is read from it.
use nginx_web_ui.Prelude.{
  ◌≡◌, refl, inl, inr, Bool, false, [], ◌∷◌, ◌++◌, some, arith, Text, codes, text_eq, text_eq_refl,
  is_space, Bool-cases, if◌then◌else◌, trim_start,
}
use nginx_web_ui.Admin.BlockEditor.Draft.{
  Draft, Block, is_upstream, behind, drop_upstream, refresh, get_draft, set_draft,
}

-- The header as the editor shows it: a word in front of it is dropped for an upstream.
abbrev pub begins_in_space : Text → Bool
begins_in_space [] = false
begins_in_space (c ∷ s) = is_space c

behind-append : (p s : Text) → behind p (p ++ s) ≡ some s
unfolding behind
behind-append [] s = refl
behind-append (c ∷ p) s = rw (text_eq_refl (c ∷ [])) (behind-append p s)

trim_start-begun : (s : Text) → begins_in_space s ≡ false → trim_start s ≡ s
unfolding trim_start
trim_start-begun [] h = refl
trim_start-begun (c ∷ s) h = rw h refl

drop_upstream-word :
    (s : Text) → begins_in_space s ≡ false → drop_upstream (codes "upstream " ++ s) ≡ s
unfolding drop_upstream is_space behind
drop_upstream-word s h = trim_start-begun s h

-- The draft that is set comes back, line breaks included, as long as nobody types: for a name of one
-- line that does not begin in a space, as the header behind the word that an upstream has, and a
-- context that is not empty.
pub get_draft-set_draft :
    (in_line in_area : Text → Text) (name body context : Text) (b : Block)
    → in_line name ≡ name
    → begins_in_space name ≡ false
    → text_eq context [] ≡ false
    → let header = (if is_upstream b.state then codes "upstream " else []) ++ name in
      let draft : Draft = record { header = header; body = body; context = context } in
      get_draft (set_draft in_line in_area draft b) ≡ draft
unfolding get_draft set_draft refresh
get_draft-set_draft in_line in_area name body [] b line begun there = absurd (ground (arith, there))
get_draft-set_draft in_line in_area name body (c ∷ s) b line begun there =
    elim (Bool-cases (is_upstream b.state)) [
      | inl upstream ↦
          rw (upstream, drop_upstream-word name begun, line, text_eq_refl (in_area body)) refl
      | inr stream ↦ rw (stream, line, text_eq_refl (in_area body)) refl
    ]
