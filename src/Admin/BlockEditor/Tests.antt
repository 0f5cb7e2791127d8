-- ===== src/Admin/BlockEditor/Tests.antt =====
-- The theorems on the editor of blocks at concrete texts.
use nginx_web_ui.Prelude.{
  ◌≡◌, ◌⊎◌, ◌==◌, ◌||◌, refl, true, false, [], ◌∷◌, ◌++◌, none, Text, codes, arith, if◌then◌else◌,
  text_functions,
}
use nginx_web_ui.Admin.Page.{Page}
use nginx_web_ui.Admin.BlockEditor.Draft.{Options, Draft, Block, open_editor, get_draft, set_draft}
use nginx_web_ui.Admin.BlockEditor.Posts.{given, is_asked, parse_answered}
use nginx_web_ui.Admin.BlockEditor.RoundTrip.{get_draft-set_draft}
use nginx_web_ui.Admin.BlockEditor.Stale.{
  save_late, arrives, acts, parses, types_body, acts-late, parse_answered-Keeps,
}

abbrev blank : Page
blank = record {
  values = λ id. [];
  htmls = λ id. [];
  disabled = λ id. false;
  greyed = λ id. false;
  shown = λ id. false;
  log = [];
}

-- What a field of one line makes of a text.
abbrev in_line : Text → Text
in_line [] = []
in_line (c ∷ s) = if c == 10 || c == 13 then in_line s else c ∷ in_line s

-- What a text area makes of a text with CR LF and LF.
abbrev in_area : Text → Text
in_area [] = []
in_area (c ∷ s) = if c == 13 then in_area s else c ∷ in_area s

abbrev upstream : Options
upstream = record {
  kind = codes "upstream";
  id = none;
  header = none;
  body = none;
  context = codes "http-upstream";
  convert_legacy = false;
}

abbrev block : Block
block = record {
  state = upstream;
  original = [];
  normalized = [];
  generation = 3;
  caret = none;
  page = blank;
}

-- A body with a CR LF.
abbrev body : Text
body = codes "server a;" ++ 13 ∷ 10 ∷ codes "server b;"

get_draft-set_draft_example :
    let draft : Draft = record {
      header = codes "upstream " ++ codes "web";
      body = body;
      context = codes "http-upstream";
    } in
    get_draft (set_draft in_line in_area draft block) ≡ draft
unfolding text_functions
get_draft-set_draft_example =
    get_draft-set_draft in_line in_area (codes "web") body (codes "http-upstream") block refl refl
      refl

acts-late_example :
    let later =
      acts in_line in_area
        (parses ∷ types_body (codes "typed") ∷ [])
        (open_editor in_line in_area upstream block) in
    arrives in_line in_area 3 (save_late (given tt)) later ≡ later
acts-late_example =
    acts-late in_line in_area 3 (save_late (given tt)) upstream
      (parses ∷ types_body (codes "typed") ∷ []) block (omega arith)

abbrev parsed : Draft
parsed = record { header = codes "upstream web"; body = body; context = [] }

parse_answered-Keeps_example :
    ((parse_answered in_line in_area true 3 parsed (given parsed) block).page.values
      ≡ block.page.values)
    ⊎ ((3 ≡ block.generation) × (is_asked parsed block ≡ true))
parse_answered-Keeps_example =
    parse_answered-Keeps in_line in_area true 3 parsed (given parsed) block
