-- ===== src/DocsTranslation/GoogleAnswers.antt =====
-- What Google's engine of scripts/translate-docs.js makes of the answers to its requests.
use mathlib.Core.Option.{some-injective}
use nginx_web_ui.Prelude.{
  ℕ, zero, suc, ◌+◌, ◌≡◌, refl, ap, ◌∙◌, List, [], ◌∷◌, ◌++◌, Option, none, some, arith, Text,
  get_elem?,
}
use nginx_web_ui.DocsTranslation.Google.{
  Json, json_null, json_string, json_array, json_object, Values, no_values, more_values, truthy,
  first, joined, first_text, segments, google_item, google_batch,
}

-- A segment of an answer: its translation, which may be null, and what follows it. Some are null themselves.
pub data Segment : Type 0 where
  nothing : Segment
  segment : Option Text → Values → Segment

abbrev pub segment_json : Segment → Json
segment_json nothing = json_null
segment_json (segment none more) = json_array (more_values json_null more)
segment_json (segment (some t) more) = json_array (more_values (json_string t) more)

abbrev pub segment_text : Segment → Text
segment_text nothing = []
segment_text (segment none more) = []
segment_text (segment (some t) more) = t

abbrev pub segments_json : List Segment → Values
segments_json [] = no_values
segments_json (s ∷ ss) = more_values (segment_json s) (segments_json ss)

abbrev pub segments_text : List Segment → Text
segments_text [] = []
segments_text (s ∷ ss) = segment_text s ++ segments_text ss

-- How the server answers: not at all, with an object without segments, or with segments and more.
pub data Answer : Type 0 where
  no_answer no_segments : Answer
  translated : List Segment → Values → Answer

abbrev pub reply_of : Answer → Option Json
reply_of no_answer = none
reply_of no_segments = some json_object
reply_of (translated ss more) = some (json_array (more_values (json_array (segments_json ss)) more))

abbrev pub translation_of : Answer → Option Text
translation_of no_answer = none
translation_of no_segments = none
translation_of (translated ss more) = some (segments_text ss)

segments-text : (ss : List Segment) → segments (segments_json ss) ≡ segments_text ss
unfolding segments truthy first first_text joined
segments-text [] = refl
segments-text (nothing ∷ ss) = segments-text ss
segments-text (segment none more ∷ ss) = segments-text ss
segments-text (segment (some []) more ∷ ss) = segments-text ss
segments-text (segment (some (c ∷ s)) more ∷ ss) = ap (λ t. (c ∷ s) ++ t) (segments-text ss)

google_item-translation : (a : Answer) → google_item (reply_of a) ≡ translation_of a
unfolding google_item first
google_item-translation no_answer = refl
google_item-translation no_segments = refl
google_item-translation (translated ss more) = ap some (segments-text ss)

google_from :
    (i : ℕ) (server : ℕ → Text → Option Json) (texts : List Text) (k : ℕ) (t : Text)
    → get_elem? texts k ≡ some t
    → get_elem? (google_batch i server texts) k ≡ some (google_item (server (i + k) t))
unfolding google_batch
google_from i server [] k t h = cc
google_from i server (u ∷ us) zero t h =
    ap (λ j. some (google_item (server j u))) (omega arith)
    ∙ ap (λ x. some (google_item (server (i + 0) x))) (some-injective _ _ h)
google_from i server (u ∷ us) (suc k) t h =
    google_from (i + 1) server us k t h ∙ ap (λ j. some (google_item (server j t))) (omega arith)

-- Where the request for a line is answered with segments, the array of Google's engine has at that line's place
-- the translations of the segments, in order and one behind the other; where it fails or there are no segments, a
-- null. How the other requests are answered does not matter.
pub google_batch-translation :
    (server : ℕ → Text → Option Json) (texts : List Text) (k : ℕ) (t : Text) (a : Answer)
    → get_elem? texts k ≡ some t
    → server k t ≡ reply_of a
    → get_elem? (google_batch 0 server texts) k ≡ some (translation_of a)
google_batch-translation server texts k t a h answered =
    google_from 0 server texts k t h
    ∙ ap (λ j. some (google_item (server j t))) (omega arith)
    ∙ ap (λ r. some (google_item r)) answered
    ∙ ap some (google_item-translation a)
