-- ===== src/Admin/Page.antt =====
-- A page as its scripts see it through jQuery and layui: the values and the content of its elements, by
-- id, and what was shown, asked and sent, in order. The markup, the styles and the layout are not
-- modelled, and a text of the message files stands for itself by its name.
use nginx_web_ui.Prelude.{
  Bool, List, [], ◌∷◌, ◌++◌, Option, none, some, Text, codes, text_eq, if◌then◌else◌,
}

-- What a script asks of the browser. A form is sent as `.serialize()` gives it at that time: for the id of
-- each field its value, or nothing where it is disabled. Which fields a form has is the markup's.
pub data Effect : Type 0 where
  -- `layer.msg`, `layer.alert`, `layer.confirm`
  message alert ask : Text → Effect
  -- `layer.confirm` with buttons of its own
  choose : Text → List Text → Effect
  -- `layer.open` with a title and an element, `layer.close` and `layer.closeAll`
  open_window : Text → Text → Effect
  close_window close_all reload render_form loading loaded : Effect
  submit : Text → Effect
  get_request post_request : Text → List (Text × Text) → Effect
  post_form : Text → Text → (Text → Option Text) → Effect

pub record Page : Type 0 where
  pub values : Text → Text
  pub htmls : Text → Text
  pub disabled : Text → Bool
  -- the class `disabled`
  pub greyed : Text → Bool
  pub shown : Text → Bool
  pub log : List Effect

abbrev pub update {ℓ} : {A : Type ℓ} → (Text → A) → Text → A → Text → A
update f id a x = if text_eq x id then a else f x

-- What `.serialize()` has of a field.
abbrev pub sent : (Text → Text) → (Text → Bool) → Text → Option Text
sent values disabled id = if disabled id then none else some (values id)

-- `$("#id").val(v)`, `.html(v)`, `.attr("disabled", b)`, `.addClass("disabled")`
abbrev pub set_val : Text → Text → Page → Page
set_val id v p = record p { values = update p.values id v }

abbrev pub set_html : Text → Text → Page → Page
set_html id v p = record p { htmls = update p.htmls id v }

abbrev pub set_disabled : Text → Bool → Page → Page
set_disabled id b p = record p { disabled = update p.disabled id b }

abbrev pub set_greyed : Text → Bool → Page → Page
set_greyed id b p = record p { greyed = update p.greyed id b }

-- `.show()` and `.hide()`
abbrev pub set_shown : Text → Bool → Page → Page
set_shown id b p = record p { shown = update p.shown id b }

abbrev pub emit : Effect → Page → Page
emit e p = record p { log = p.log ++ e ∷ [] }

-- Statements, one after another.
infixl 4 ◌|>◌
abbrev pub ◌|>◌ {ℓ κ} : {A : Type ℓ} {B : Type κ} → A → (A → B) → B
a |> f = f a

abbrev pub set_vals : List (Text × Text) → Page → Page
set_vals [] p = p
set_vals (kv ∷ kvs) p = set_vals kvs (set_val kv.0 kv.1 p)

-- `data.success`, the message of a refusal, and the `error` of a request.
pub data Reply {ℓ} (A : Type ℓ) : Type ℓ where
  success : A → Reply A
  refused : Text → Reply A
  broken : Reply A

-- A value that is null or missing in an answer: `.val(null)` empties the element.
abbrev pub or_empty : Option Text → Text
or_empty none = []
or_empty (some t) = t

-- `x || d` and `x != null ? x : d`
abbrev pub or_else : Text → Option Text → Text
or_else d none = d
or_else d (some []) = d
or_else d (some (c ∷ s)) = c ∷ s

abbrev pub unless_null : Text → Option Text → Text
unless_null d none = d
unless_null d (some t) = t

-- The callbacks of a request that answers no data.
unfoldable pub answered : Reply (Unit {0}) → Page → Page
answered (success u) p = emit reload p
answered (refused msg) p = emit (message msg) p
answered broken p = emit (alert (codes "commonStr.errorInfo")) p

-- `ids.join(",")`
abbrev pub join_commas : List Text → Text
join_commas [] = []
join_commas (t ∷ []) = t
join_commas (t ∷ ts) = t ++ b',' ∷ join_commas ts
