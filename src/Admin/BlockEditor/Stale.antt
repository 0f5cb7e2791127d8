-- ===== src/Admin/BlockEditor/Stale.antt =====
-- Answers that come too late in adminPage/common/blockEditor.js.
use nginx_web_ui.Prelude.{
  ℕ, suc, ◌+◌, zero, ◌≡◌, ◌≤◌, ◌⊎◌, refl, sym, ap, subst, inl, inr, Bool, true, false, not, ◌&&◌,
  List, [], ◌∷◌, Option, none, some, arith, Text, codes, ◌==◌, ==_iff, Bool-cases,
}
use nginx_web_ui.Admin.Page.{set_html, or_else}
use nginx_web_ui.Admin.BlockEditor.Draft.{
  on_page, is_stream, header_typed, body_typed, context_chosen, Options, Draft, Block, get_draft,
  set_draft, open_editor, ended,
}
use nginx_web_ui.Admin.BlockEditor.Posts.{
  Refusal, Answer, given, declined, failed, posted, preview, preview_answered, show_output, parse,
  parse_answered, take_parsed, save, save_answered, same_text, is_asked, titles_differ, place_caret,
  no_answer, error, post,
}

-- An answer to a request that waits: which, in which generation, and what was asked.
pub data Late : Type 0 where
  preview_late : Draft → Answer Text → Late
  parse_late : Bool → Draft → Answer Draft → Late
  save_late : Answer (Unit {0}) → Late

module _ (in_line in_area : Text → Text) where
  unfoldable pub arrives : ℕ → Late → Block → Block
  unfolding preview_answered parse_answered save_answered
  arrives g (preview_late asked r) b = preview_answered g asked r b
  arrives g (parse_late sure asked r) b = parse_answered in_line in_area sure g asked r b
  arrives g (save_late r) b = save_answered g r b

  posted-late {ℓ} :
      {A : Type ℓ} (g : ℕ) (done : A → Block → Block) (r : Answer A) (b : Block)
      → (g == b.generation) ≡ false
      → posted g done r b ≡ b
  unfolding posted
  posted-late g done (given a) b late = rw late refl
  posted-late g done (declined r) b late = rw late refl
  posted-late g done failed b late = rw late refl

  arrives-late : (g : ℕ) (l : Late) (b : Block) → (g == b.generation) ≡ false → arrives g l b ≡ b
  unfolding arrives preview_answered parse_answered save_answered
  arrives-late g (preview_late asked r) b late = posted-late g _ r b late
  arrives-late g (parse_late sure asked r) b late = posted-late g _ r b late
  arrives-late g (save_late r) b late = posted-late g _ r b late

  -- What is done with the editor: it is opened, given a draft and closed, its fields are changed, it asks, and
  -- it gets answers of any generation.
  pub data Act : Type 0 where
    opens : Options → Act
    drafts : Draft → Act
    types_header types_body chooses_context : Text → Act
    closes : ℕ → Act
    previews parses : Act
    saves : Bool → Act
    gets : ℕ → Late → Act

  unfoldable pub act : Act → Block → Block
  unfolding open_editor set_draft header_typed body_typed context_chosen ended preview parse save
      arrives
  act (opens o) b = open_editor in_line in_area o b
  act (drafts d) b = set_draft in_line in_area d b
  act (types_header v) b = header_typed v b
  act (types_body v) b = body_typed v b
  act (chooses_context v) b = context_chosen v b
  act (closes g) b = ended g b
  act previews b = preview b
  act parses b = parse b
  act (saves sure) b = save sure b
  act (gets g l) b = arrives g l b

  unfoldable pub acts : List Act → Block → Block
  unfolding act
  acts [] b = b
  acts (a ∷ as_) b = acts as_ (act a b)

  place_caret-generation :
      (line column : Option ℕ) (b : Block) → (place_caret line column b).generation ≡ b.generation
  unfolding place_caret
  place_caret-generation none column b = refl
  place_caret-generation (some zero) column b = refl
  place_caret-generation (some (suc l)) column b = refl

  error-generation : (r : Refusal) (b : Block) → (error r b).generation ≡ b.generation
  unfolding error
  error-generation r b = place_caret-generation r.line r.column (
      on_page (set_html (codes "blockError") (or_else (codes "commonStr.errorInfo") (some r.msg)))
        b)

  -- What an answer does keeps the generation, if what it does with a success keeps it.
  posted-generation {ℓ} :
      {A : Type ℓ} (g : ℕ) (done : A → Block → Block) (r : Answer A) (b : Block)
      → ((a : A) → (done a b).generation ≡ b.generation)
      → (posted g done r b).generation ≡ b.generation
  unfolding posted
  posted-generation g done (given a) b keeps = elim (Bool-cases (g == b.generation)) [
    | inl now ↦ rw now (keeps a)
    | inr late ↦ rw late refl
  ]
  posted-generation g done (declined r) b keeps = elim (Bool-cases (g == b.generation)) [
    | inl now ↦ rw now (error-generation r b)
    | inr late ↦ rw late refl
  ]
  posted-generation g done failed b keeps = elim (Bool-cases (g == b.generation)) [
    | inl now ↦ rw now (error-generation no_answer b)
    | inr late ↦ rw late refl
  ]

  show_output-generation :
      (asked : Draft) (output : Text) (b : Block)
      → (show_output asked output b).generation ≡ b.generation
  unfolding show_output
  show_output-generation asked output b = elim (Bool-cases (same_text (get_draft b) asked)) [
    | inl same ↦ rw same refl
    | inr typed ↦ rw typed refl
  ]

  take_parsed-cases :
      (sure : Bool) (asked parsed : Draft) (b : Block)
      → (take_parsed in_line in_area sure asked parsed b ≡ b)
        ⊎ ((is_asked asked b ≡ true)
            × (take_parsed in_line in_area sure asked parsed b
                ≡ set_draft in_line in_area (record parsed { context = asked.context }) b))
  unfolding take_parsed
  take_parsed-cases sure asked parsed b = elim (Bool-cases (is_asked asked b)) [
    | inl current ↦ elim (Bool-cases (titles_differ asked parsed b && not sure)) [
      | inl refused ↦ inl (rw (current, refused) refl)
      | inr taken ↦ inr (current, rw (current, taken) refl)
    ]
    | inr typed ↦ inl (rw typed refl)
  ]

  take_parsed-generation :
      (sure : Bool) (asked parsed : Draft) (b : Block)
      → (take_parsed in_line in_area sure asked parsed b).generation ≡ b.generation
  unfolding set_draft
  take_parsed-generation sure asked parsed b = elim (take_parsed-cases sure asked parsed b) [
    | inl stays ↦ ap (λ c. c.generation) stays
    | inr (current, set) ↦ ap (λ c. c.generation) set
  ]

  arrives-generation : (g : ℕ) (l : Late) (b : Block) → (arrives g l b).generation ≡ b.generation
  unfolding arrives preview_answered parse_answered save_answered
  arrives-generation g (preview_late asked r) b =
      posted-generation g _ r b (λ o. show_output-generation asked o b)
  arrives-generation g (parse_late sure asked r) b =
      posted-generation g _ r b (λ d. take_parsed-generation sure asked d b)
  arrives-generation g (save_late r) b = posted-generation g _ r b (λ u. refl)

  act-generation : (a : Act) (b : Block) → b.generation ≤ (act a b).generation
  unfolding act open_editor set_draft header_typed body_typed context_chosen ended preview parse
      save post
  act-generation (opens o) b = omega arith
  act-generation (drafts d) b = omega arith
  act-generation (types_header v) b = omega arith
  act-generation (types_body v) b = omega arith
  act-generation (chooses_context v) b = omega arith
  act-generation (closes g) b = elim (Bool-cases (b.generation == g)) [
    | inl now ↦ rw now (omega arith)
    | inr other ↦ rw other (omega arith)
  ]
  act-generation previews b = elim (Bool-cases (is_stream b.state)) [
    | inl stream ↦ rw stream (omega arith)
    | inr shown ↦ rw shown (omega arith)
  ]
  act-generation parses b = omega arith
  act-generation (saves sure) b = elim (Bool-cases (b.state.convert_legacy && not sure)) [
    | inl stays ↦ rw stays (omega arith)
    | inr goes ↦ rw goes (omega arith)
  ]
  act-generation (gets g l) b =
      subst (λ n. b.generation ≤ n) (sym (arrives-generation g l b)) (omega arith)

  acts-generation : (as_ : List Act) (b : Block) → b.generation ≤ (acts as_ b).generation
  unfolding acts
  acts-generation [] b = omega arith
  acts-generation (a ∷ as_) b = omega (arith, act-generation a b, acts-generation as_ (act a b))

  -- The answer to a request from before the editor was opened anew changes nothing, however the editor was opened,
  -- closed, typed in, given drafts, asked and answered since: it neither overwrites what was typed nor shows a
  -- message of another block.
  pub acts-late :
      (g : ℕ) (l : Late) (o : Options) (as_ : List Act) (b : Block)
      → g ≤ b.generation
      → arrives g l (acts as_ (open_editor in_line in_area o b))
        ≡ acts as_ (open_editor in_line in_area o b)
  unfolding open_editor set_draft
  acts-late g l o as_ b before =
      let c = open_editor in_line in_area o b in
      let more : b.generation + 1 ≤ (acts as_ c).generation = acts-generation as_ c in
      arrives-late g l (acts as_ c) (ground (arith, before, more))

  place_caret-values :
      (line column : Option ℕ) (b : Block) → (place_caret line column b).page.values ≡ b.page.values
  unfolding place_caret
  place_caret-values none column b = refl
  place_caret-values (some zero) column b = refl
  place_caret-values (some (suc l)) column b = refl

  -- An answer to a parse changes no field of the editor unless it is of this generation and the header, the text
  -- and the context are still those that were asked about; what a person typed since stays.
  pub parse_answered-Keeps :
      (sure : Bool) (g : ℕ) (asked : Draft) (r : Answer Draft) (b : Block)
      → ((parse_answered in_line in_area sure g asked r b).page.values ≡ b.page.values)
        ⊎ ((g ≡ b.generation) × (is_asked asked b ≡ true))
  unfolding parse_answered posted error
  parse_answered-Keeps sure g asked (given d) b = elim (Bool-cases (g == b.generation)) [
    | inl now ↦ elim (take_parsed-cases sure asked d b) [
      | inl stays ↦ inl (rw now (ap (λ c. c.page.values) stays))
      | inr (current, set) ↦ inr ((==_iff g b.generation).0 now, current)
    ]
    | inr late ↦ inl (rw late refl)
  ]
  parse_answered-Keeps sure g asked (declined r) b = elim (Bool-cases (g == b.generation)) [
    | inl now ↦ inl (rw now (place_caret-values r.line r.column _))
    | inr late ↦ inl (rw late refl)
  ]
  parse_answered-Keeps sure g asked failed b = elim (Bool-cases (g == b.generation)) [
    | inl now ↦ inl (rw now refl)
    | inr late ↦ inl (rw late refl)
  ]
