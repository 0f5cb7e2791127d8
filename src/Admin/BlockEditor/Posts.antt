-- ===== src/Admin/BlockEditor/Posts.antt =====
-- What the editor of adminPage/common/blockEditor.js asks of the server, and what it does with the answers. An
-- answer comes with the generation and the draft in which it was asked for.
use nginx_web_ui.Prelude.{
  ℕ, ◌+◌, ◌-◌, zero, suc, Bool, true, false, not, ◌&&◌, List, [], ◌∷◌, ◌++◌, Option, none, some,
  Text, codes, text_eq, split_lines, join_lines, length, take, ltb, ◌==◌, if◌then◌else◌,
}
use nginx_web_ui.Admin.Page.{
  reload, post_request, emit, ◌|>◌, set_html, set_shown, or_else, or_empty,
}
use nginx_web_ui.Admin.BlockEditor.Draft.{
  Draft, Block, on_page, is_upstream, is_stream, get_draft, set_draft, render,
}

-- A refusal: its message, and the line and the column that it is about.
pub record Refusal : Type 0 where
  pub msg : Text
  pub line : Option ℕ
  pub column : Option ℕ

pub data Answer {ℓ} (A : Type ℓ) : Type ℓ where
  given : A → Answer A
  declined : Refusal → Answer A
  failed : Answer A

-- `lines.slice(0, line - 1).join('\n').length`, one more past the first line, and the column from 1.
unfoldable pub caret_offset : Text → ℕ → Option ℕ → ℕ
caret_offset body line column =
    length (join_lines (take (line - 1) (split_lines body)))
    + (if ltb 1 line then 1 else 0)
    + (column_of column - 1)
  where
    column_of : Option ℕ → ℕ
    column_of none = 1
    column_of (some zero) = 1
    column_of (some (suc c)) = suc c

-- The caret goes to the line of a refusal, where it has one.
unfoldable pub place_caret : Option ℕ → Option ℕ → Block → Block
unfolding caret_offset
place_caret none column b = b
place_caret (some zero) column b = b
place_caret (some (suc l)) column b = record b {
  caret = some (caret_offset (b.page.values (codes "blockBody")) (suc l) column);
}

unfoldable pub error : Refusal → Block → Block
unfolding place_caret
error r b =
    place_caret r.line r.column (
      on_page (set_html (codes "blockError") (or_else (codes "commonStr.errorInfo") (some r.msg)))
        b)

-- `error({msg: commonStr.errorInfo})`
abbrev pub no_answer : Refusal
no_answer = record { msg = codes "commonStr.errorInfo"; line = none; column = none }

unfoldable pub post : Text → List (Text × Text) → Block → Block
post action params b =
    on_page
      (λ p.
        p
        |> set_html (codes "blockError") []
        |> emit (post_request (codes "/adminPage/" ++ b.state.kind ++ b'/' ∷ action) params))
      b

-- The callbacks of `post` for a request of generation `g`.
unfoldable pub posted {ℓ} : {A : Type ℓ} → ℕ → (A → Block → Block) → Answer A → Block → Block
unfolding error
posted g done (given a) b = if g == b.generation then done a b else b
posted g done (declined r) b = if g == b.generation then error r b else b
posted g done failed b = if g == b.generation then error no_answer b else b

unfoldable pub preview : Block → Block
unfolding render get_draft post
preview b =
    let draft = get_draft b in
    if not (is_stream b.state)
    then on_page
        (λ p.
          p
          |> set_html (codes "blockOutput") (render b)
          |> set_shown (codes "blockOutput") (not (p.shown (codes "blockOutput"))))
        b
    else post (codes "previewBlock")
        ((codes "id", or_empty b.state.id)
          ∷ (codes "header", draft.header)
          ∷ (codes "rawContent", draft.body)
          ∷ [])
        (on_page (set_shown (codes "blockOutput") false) b)

abbrev pub same_text : Draft → Draft → Bool
same_text d e = text_eq d.header e.header && text_eq d.body e.body

unfoldable pub show_output : Draft → Text → Block → Block
unfolding get_draft
show_output asked output b =
    if same_text (get_draft b) asked
    then on_page
        (λ p. p |> set_html (codes "blockOutput") output |> set_shown (codes "blockOutput") true) b
    else b

unfoldable pub preview_answered : ℕ → Draft → Answer Text → Block → Block
unfolding posted show_output
preview_answered g asked r b = posted g (show_output asked) r b

unfoldable pub parse : Block → Block
unfolding get_draft post
parse b =
    let draft = get_draft b in
    post (codes "parseBlock") ((codes "text", draft.body) ∷ (codes "context", draft.context) ∷ []) b

abbrev is_nil : Text → Bool
is_nil [] = true
is_nil (c ∷ s) = false

-- The editor has what was asked about.
unfoldable pub is_asked : Draft → Block → Bool
unfolding get_draft
is_asked asked b = same_text (get_draft b) asked && text_eq (get_draft b).context asked.context

-- A title was typed and the parsed one differs.
unfoldable pub titles_differ : Draft → Draft → Block → Bool
titles_differ asked parsed b =
    not (is_nil (b.page.values (codes "blockHeader"))) && not (text_eq parsed.header asked.header)

-- `sure` is the answer to the question on a title that differs.
module _ (in_line in_area : Text → Text) (sure : Bool) where
  unfoldable pub take_parsed : Draft → Draft → Block → Block
  unfolding is_asked titles_differ set_draft
  take_parsed asked parsed b =
      let kept = set_draft in_line in_area (record parsed { context = asked.context }) b in
      if not (is_asked asked b)
      then b
      else if titles_differ asked parsed b && not sure
      then b
      else kept

  unfoldable pub parse_answered : ℕ → Draft → Answer Draft → Block → Block
  unfolding posted take_parsed
  parse_answered g asked r b = posted g (take_parsed asked) r b

-- `sure` is the answer to the question on a block of the old form.
unfoldable pub save : Bool → Block → Block
unfolding get_draft post
save sure b =
    let draft = get_draft b in
    let shared =
      (codes "id", or_empty b.state.id)
      ∷ (codes "rawContent", draft.body)
      ∷ (codes "convertLegacy", if b.state.convert_legacy then codes "true" else codes "false")
      ∷ [] in
    let own =
      if is_upstream b.state
      then (codes "name", b.page.values (codes "blockHeader"))
        ∷ (
          codes "proxyType",
          if text_eq draft.context (codes "http-upstream") then codes "0" else codes "1",
        )
        ∷ []
      else (codes "header", draft.header) ∷ [] in
    if b.state.convert_legacy && not sure then b else post (codes "saveBlock") (shared ++ own) b

unfoldable pub save_answered : ℕ → Answer (Unit {0}) → Block → Block
unfolding posted
save_answered g r b = posted g (λ u c. on_page (emit reload) c) r b
