-- ===== src/DocsTranslation/Google.antt =====
-- `google.translateBatch` of scripts/translate-docs.js: the JSON of an answer, and the array of a batch.
use nginx_web_ui.Prelude.{
  ℕ, ◌+◌, Bool, true, false, not, List, [], ◌∷◌, ◌++◌, Option, none, some, Text, codes, text_eq,
  if◌then◌else◌,
}

-- A value of JSON. A number is what `String` writes of it, and of an object only the member `0` is looked at.
mutual
  pub data Json : Type 0 where
    json_null json_object : Json
    json_boolean : Bool → Json
    json_number json_string : Text → Json
    json_array : Values → Json
    json_object_at : Json → Json

  pub data Values : Type 0 where
    no_values : Values
    more_values : Json → Values → Values

unfoldable pub truthy : Json → Bool
truthy json_null = false
truthy json_object = true
truthy (json_boolean b) = b
truthy (json_number t) = not (text_eq t (codes "0"))
truthy (json_string []) = false
truthy (json_string (c ∷ s)) = true
truthy (json_array vs) = true
truthy (json_object_at v) = true

-- `v[0]`. Of a null there is none, where the source throws: it reads it only in the `try`, or behind `s &&`.
unfoldable pub first : Json → Option Json
first json_null = none
first json_object = none
first (json_boolean b) = none
first (json_number t) = none
first (json_string []) = none
first (json_string (c ∷ s)) = some (json_string (c ∷ []))
first (json_array no_values) = none
first (json_array (more_values v vs)) = some v
first (json_object_at v) = some v

-- What `join` writes of an item.
unfoldable mutual
  pub joined : Json → Text
  joined json_null = []
  joined json_object = codes "[object Object]"
  joined (json_boolean true) = codes "true"
  joined (json_boolean false) = codes "false"
  joined (json_number t) = t
  joined (json_string t) = t
  joined (json_array vs) = joined_values vs
  joined (json_object_at v) = codes "[object Object]"

  pub joined_values : Values → Text
  joined_values no_values = []
  joined_values (more_values v no_values) = joined v
  joined_values (more_values v (more_values w vs)) =
      joined v ++ b',' ∷ joined_values (more_values w vs)

-- `s[0]`, where it is truthy.
unfoldable pub first_text : Option Json → Text
unfolding truthy joined
first_text none = []
first_text (some v) = if truthy v then joined v else []

-- `.filter((s) => s && s[0]).map((s) => s[0]).join('')`
unfoldable pub segments : Values → Text
unfolding truthy first first_text
segments no_values = []
segments (more_values s ss) = (if truthy s then first_text (first s) else []) ++ segments ss

-- `data[0]` has to be an array, else the `catch` gives a null.
abbrev pub item_of : Option Json → Option Text
item_of (some (json_array vs)) = some (segments vs)
item_of o = none

-- `none` is a request that failed, or an answer that is not JSON.
unfoldable pub google_item : Option Json → Option Text
unfolding first segments
google_item none = none
google_item (some data_) = item_of (first data_)

-- A request for each text, by its number.
unfoldable pub google_batch : ℕ → (ℕ → Text → Option Json) → List Text → List (Option Text)
unfolding google_item
google_batch i server [] = []
google_batch i server (t ∷ ts) = google_item (server i t) ∷ google_batch (i + 1) server ts
