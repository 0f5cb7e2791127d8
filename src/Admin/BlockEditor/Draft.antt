-- ===== src/Admin/BlockEditor/Draft.antt =====
-- The text of the editor of adminPage/common/blockEditor.js. The elements that `init` creates are the page's.
use nginx_web_ui.Prelude.{
  ℕ, zero, suc, ◌+◌, Bool, false, List, [], ◌∷◌, ◌++◌, Option, none, some, Text, codes, text_eq,
  is_space, trim_start, split_lines, join_lines, length, print, ◌==◌, if◌then◌else◌,
}
use nginx_web_ui.Admin.Page.{
  Page, open_window, emit, ◌|>◌, set_val, set_html, set_disabled, set_shown, or_else,
}

-- What a page opens the editor with.
pub record Options : Type 0 where
  pub kind : Text
  pub id : Option Text
  pub header : Option Text
  pub body : Option Text
  pub context : Text
  pub convert_legacy : Bool

pub record Draft : Type 0 where
  pub header : Text
  pub body : Text
  pub context : Text

-- The variables of the script, and the position of the caret in the text once it was set.
pub record Block : Type 0 where
  pub state : Options
  pub original : Text
  pub normalized : Text
  pub generation : ℕ
  pub caret : Option ℕ
  pub page : Page

abbrev pub on_page : (Page → Page) → Block → Block
on_page f b = record b { page = f b.page }

abbrev pub is_upstream : Options → Bool
is_upstream o = text_eq o.kind (codes "upstream")

abbrev pub is_stream : Options → Bool
is_stream o = text_eq o.kind (codes "stream")

-- The text behind a prefix.
unfoldable pub behind : Text → Text → Option Text
behind [] s = some s
behind (c ∷ p) [] = none
behind (c ∷ p) (x ∷ s) = if text_eq (x ∷ []) (c ∷ []) then behind p s else none

-- `header.replace(/^upstream\s+/, '')`
unfoldable pub drop_upstream : Text → Text
unfolding behind
drop_upstream s = elim (behind (codes "upstream") s) [
  | none ↦ s
  | some rest ↦ elim rest [ [] ↦ s | x ∷ r ↦ if is_space x then trim_start r else s ]
]

-- The numbers of `count` lines.
unfoldable pub numbers : ℕ → ℕ → List Text
numbers from zero = []
numbers from (suc count) = print from ∷ numbers (from + 1) count

unfoldable pub refresh : Page → Page
unfolding numbers
refresh p =
    p
    |> set_html (codes "blockLines")
        (join_lines (numbers 1 (length (split_lines (p.values (codes "blockBody"))))))
    |> set_shown (codes "blockOutput") false

-- A person types a header or a text, or chooses a context: the listeners of `init`.
unfoldable pub header_typed : Text → Block → Block
unfolding refresh
header_typed v b = on_page (λ p. refresh (set_val (codes "blockHeader") v p)) b

unfoldable pub body_typed : Text → Block → Block
unfolding refresh
body_typed v b = on_page (λ p. refresh (set_val (codes "blockBody") v p)) b

unfoldable pub context_chosen : Text → Block → Block
context_chosen v b = record b {
  state = record b.state { context = v };
  page = set_val (codes "blockContext") v b.page;
}

unfoldable pub get_draft : Block → Draft
get_draft b =
    let body = b.page.values (codes "blockBody") in
    record {
      header =
          (if is_upstream b.state then codes "upstream " else [])
          ++ b.page.values (codes "blockHeader");
      body = if text_eq body b.normalized then b.original else body;
      context = b.page.values (codes "blockContext");
    }

-- `endsWith('\n')`
unfoldable pub ends_in_line_feed : Text → Bool
ends_in_line_feed [] = false
ends_in_line_feed (c ∷ []) = c == 10
ends_in_line_feed (c ∷ d ∷ s) = ends_in_line_feed (d ∷ s)

unfoldable pub render : Block → Text
unfolding get_draft ends_in_line_feed
render b =
    let d = get_draft b in
    d.header
    ++ codes " {"
    ++ d.body
    ++ (if ends_in_line_feed d.body then [] else 10 ∷ [])
    ++ codes "}"

-- What a field of one line and a text area make of a text that they are given: the first drops the line
-- breaks, the second writes each as a line feed. The pages give the select of the context only its own options, and
-- it takes what it is given.
module _ (in_line in_area : Text → Text) where
  unfoldable pub set_draft : Draft → Block → Block
  unfolding drop_upstream refresh
  set_draft d b =
      let header = if is_upstream b.state then drop_upstream d.header else d.header in
      let shown =
        b.page
        |> set_val (codes "blockHeader") (in_line header)
        |> set_val (codes "blockBody") (in_area d.body)
        |> set_val (codes "blockContext") (or_else b.state.context (some d.context)) in
      record b { original = d.body; normalized = in_area d.body; page = refresh shown }

  -- The window is opened anew: what was asked before is out of date.
  unfoldable pub open_editor : Options → Block → Block
  unfolding set_draft
  open_editor o b =
      let kind = is_stream o in
      let begun = record b {
        state = o;
        generation = b.generation + 1;
        page =
            b.page
            |> set_html (codes "blockError") []
            |> set_shown (codes "blockOutput") false
            |> set_disabled (codes "blockContext") kind
            |> set_shown (codes "blockPrefix") (is_upstream o)
            |> set_shown (codes "blockSnapshot") o.convert_legacy
            |> set_shown (codes "blockMonitorNote") (is_upstream o)
            |> set_shown (codes "blockStreamHelp") kind;
      } in
      let draft : Draft = record {
        header = or_else [] o.header;
        body = or_else [] o.body;
        context = o.context;
      } in
      on_page (emit (open_window (codes "blockEditorStr.title") (codes "blockEditor")))
        (set_draft draft begun)

-- The window that was opened in a generation is closed.
unfoldable pub ended : ℕ → Block → Block
ended opened b = if b.generation == opened then record b { generation = b.generation + 1 } else b
