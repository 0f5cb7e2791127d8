-- ===== src/DocsTranslation/Protect.antt =====
-- `protect`, `hasSubstance` and `restore` of scripts/translate-docs.js: what must not be translated
-- becomes numbered placeholders, and comes back for them.
use nginx_web_ui.Prelude.{
  ℕ, Bool, true, false, not, ◌||◌, List, [], ◌∷◌, ◌++◌, Option, none, some, Text, any, ◌==◌,
  includes, length, get_elem?, drop, print, decimal, leb, if◌then◌else◌,
}
use nginx_web_ui.Regex.{
  Regex, Found, Piece, plain, hit, exec, capture, pieces, replace_all, match_all,
}
use nginx_web_ui.DocsTranslation.Patterns.{
  at_sign, ph_re, link_re, protect_rules, prefix_re, word2_re,
}

-- `ph(n)`
unfoldable pub placeholder : ℕ → Text
placeholder n = at_sign ∷ print n ++ at_sign ∷ []

-- `.replace(re, callback)` where the callback pushes onto `slots`.
unfoldable pub replace_slots :
    (Found → List Text → Text × List Text) → List Piece → List Text → Text × List Text
replace_slots f [] slots = ([], slots)
replace_slots f (plain c ∷ ps) slots = let (t, slots') = replace_slots f ps slots in (c ∷ t, slots')
replace_slots f (hit m ∷ ps) slots =
    let (u, pushed) = f m slots in let (t, slots') = replace_slots f ps pushed in (u ++ t, slots')

-- `push(s)`: the placeholder of the slot that `s` gets.
unfoldable pub push : Text → List Text → Text × List Text
unfolding placeholder
push s slots = (placeholder (length slots), slots ++ s ∷ [])

-- A link: `[` and `](url)` go, the label stays.
unfoldable pub mask_link : Found → List Text → Text × List Text
unfolding push
mask_link m slots =
    let (l, slots₁) = push (b'[' ∷ []) slots in
    let (r, slots₂) = push (b']' ∷ b'(' ∷ capture 2 m ++ b')' ∷ []) slots₁ in
    (l ++ capture 1 m ++ r, slots₂)

-- A match that holds a placeholder stays as it is.
unfoldable pub mask_match : Found → List Text → Text × List Text
unfolding push
mask_match m slots = if includes (at_sign ∷ []) m.text then (m.text, slots) else push m.text slots

unfoldable pub mask_rules : List Regex → Text → List Text → Text × List Text
unfolding replace_slots mask_match
mask_rules [] masked slots = (masked, slots)
mask_rules (re ∷ res) masked slots =
    let (masked', slots') = replace_slots mask_match (pieces re masked) slots in
    mask_rules res masked' slots'

pub record Protected : Type 0 where
  pub prefix : Text
  pub masked : Text
  pub slots : List Text

-- `(… || [''])[0]`
abbrev pub matched_text : Option Found → Text
matched_text none = []
matched_text (some m) = m.text

-- `(PREFIX_RE.exec(line) || [''])[0]`
unfoldable pub prefix_of : Text → Text
prefix_of line = matched_text (exec prefix_re line)

unfoldable pub protect : Text → Protected
unfolding prefix_of replace_slots mask_link mask_rules
protect line =
    let prefix = prefix_of line in
    let (linked, slots) = replace_slots mask_link (pieces link_re (drop (length prefix) line)) [] in
    let (masked, slots') = mask_rules protect_rules linked slots in
    record { prefix = prefix; masked = masked; slots = slots' }

unfoldable pub has_substance : Text → Bool
has_substance masked = leb 2 (length (match_all word2_re (replace_all ph_re (λ m. 32 ∷ []) masked)))

-- `seen` and `failed` of `restore`.
pub record Seen : Type 0 where
  pub seen : List ℕ
  pub failed : Bool

-- `seen.add(i)` of a `Set`.
unfoldable pub add_seen : ℕ → List ℕ → List ℕ
add_seen i seen = if any (λ j. j == i) seen then seen else i ∷ seen

abbrev pub fill : ℕ → Option Text → Seen → Text × Seen
fill i none st = ([], record st { failed = true })
fill i (some s) st = (s, record st { seen = add_seen i st.seen })

-- The callback: the slot of a placeholder's number.
unfoldable pub restore_match : List Text → Found → Seen → Text × Seen
unfolding add_seen
restore_match slots m st = let i = decimal 0 (capture 1 m) in fill i (get_elem? slots i) st

unfoldable pub restore_pieces : List Text → List Piece → Seen → Text × Seen
unfolding restore_match
restore_pieces slots [] st = ([], st)
restore_pieces slots (plain c ∷ ps) st = let (t, st') = restore_pieces slots ps st in (c ∷ t, st')
restore_pieces slots (hit m ∷ ps) st =
    let (u, st₁) = restore_match slots m st in
    let (t, st₂) = restore_pieces slots ps st₁ in (u ++ t, st₂)

pub record Restored : Type 0 where
  pub text : Text
  pub ok : Bool

unfoldable pub restore : Text → List Text → Restored
unfolding restore_pieces
restore masked slots =
    let (text, st) =
      restore_pieces slots (pieces ph_re masked) (record { seen = []; failed = false }) in
    record {
      text = text;
      ok = not (st.failed || not (length st.seen == length slots) || includes (at_sign ∷ []) text);
    }
