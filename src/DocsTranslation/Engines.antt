-- ===== src/DocsTranslation/Engines.antt =====
-- The engines of scripts/translate-docs.js. What a server answers is a parameter of each round.
use nginx_web_ui.Prelude.{
  ℕ, zero, suc, ◌+◌, List, [], ◌∷◌, ◌++◌, Option, none, some, Text, codes, text_eq, ◌||◌, ltb, ◌==◌,
  length, take, drop, replicate, if◌then◌else◌,
}

-- What a request for a batch comes back with: an HTTP or network failure, a body that is no array,
-- or an array. An item of the array is `none` where reading its text throws.
pub data Reply : Type 0 where
  failed not_array : Reply
  array : List (Option Text) → Reply

-- `assertSameLength`: the items, or the error that the caller catches.
unfoldable pub assert_same_length : Reply → List Text → Option (List (Option Text))
assert_same_length failed chunk = none
assert_same_length not_array chunk = none
assert_same_length (array got) chunk = if length got == length chunk then some got else none

-- `data.map((item) => item.translations[0].text)`: one item that throws fails the batch.
unfoldable pub all_texts : List (Option Text) → Option (List (Option Text))
all_texts [] = some []
all_texts (none ∷ items) = none
all_texts (some t ∷ items) = elim (all_texts items) [ none ↦ none | some ts ↦ some (some t ∷ ts) ]

abbrev pub or_nulls : List Text → Option (List (Option Text)) → List (Option Text)
or_nulls chunk none = replicate (length chunk) none
or_nulls chunk (some ts) = ts

-- One batch of `tencent`: the answers, or a null for each line.
unfoldable pub tencent_chunk : Reply → List Text → List (Option Text)
unfolding assert_same_length
tencent_chunk reply chunk = or_nulls chunk (assert_same_length reply chunk)

abbrev pub bind_texts : Option (List (Option Text)) → Option (List (Option Text))
bind_texts none = none
bind_texts (some got) = all_texts got

unfoldable pub microsoft_chunk : Reply → List Text → List (Option Text)
unfolding assert_same_length all_texts
microsoft_chunk reply chunk = or_nulls chunk (bind_texts (assert_same_length reply chunk))

-- `for (let b = 0; b < texts.length; b += size)`: the rounds, with their number.
unfoldable pub batches :
    ℕ → ℕ → ℕ → (ℕ → List Text → List (Option Text)) → List Text → List (Option Text)
batches zero i size ask texts = []
batches (suc f) i size ask [] = []
batches (suc f) i size ask (t ∷ ts) =
    ask i (take size (t ∷ ts)) ++ batches f (i + 1) size ask (drop size (t ∷ ts))

-- `tencent.translateBatch`, by batches of 20.
unfoldable pub tencent_batch : (ℕ → List Text → Reply) → List Text → List (Option Text)
unfolding batches tencent_chunk
tencent_batch server texts =
    batches (length texts) 0 20 (λ i chunk. tencent_chunk (server i chunk) chunk) texts

-- `microsoft`'s token and the time it was got at, in milliseconds.
pub record Token : Type 0 where
  pub token : Option Text
  pub time : ℕ

-- What a round of `microsoft` meets: the clock before and after the request for a token, the answer
-- to that request, and the server of translations for a token.
pub record Round : Type 0 where
  pub now : ℕ
  pub later : ℕ
  pub auth : Option Text
  pub serve : Text → List Text → Reply

-- `getToken`: a token that is younger than eight minutes is used again. An empty one is not.
unfoldable pub fresh_token : Round → Token → Option Text
fresh_token r st = elim st.token [
  | none ↦ none
  | some t ↦ if text_eq t [] then none else if ltb r.now (st.time + 480000) then some t else none
]

unfoldable pub get_token : Round → Token → Option Text × Token
unfolding fresh_token
get_token r st = elim (fresh_token r st) [
  | some t ↦ (some t, st)
  | none ↦ elim r.auth [
    | none ↦ (none, st)
    | some t ↦ (some t, record { token = some t; time = r.later })
  ]
]

abbrev pub reply_for : Round → Option Text → List Text → Reply
reply_for r none chunk = failed
reply_for r (some token) chunk = r.serve token chunk

-- `microsoft.translateBatch`, by batches of 25.
unfoldable pub microsoft_rounds :
    ℕ → ℕ → (ℕ → Round) → Token → List Text → List (Option Text) × Token
unfolding get_token microsoft_chunk
microsoft_rounds zero i world st texts = ([], st)
microsoft_rounds (suc f) i world st [] = ([], st)
microsoft_rounds (suc f) i world st (t ∷ ts) =
    let chunk = take 25 (t ∷ ts) in
    let (token, st') = get_token (world i) st in
    let (rest, last) = microsoft_rounds f (i + 1) world st' (drop 25 (t ∷ ts)) in
    (microsoft_chunk (reply_for (world i) token chunk) chunk ++ rest, last)

unfoldable pub microsoft_batch : (ℕ → Round) → Token → List Text → List (Option Text) × Token
unfolding microsoft_rounds
microsoft_batch world st texts = microsoft_rounds (length texts) 0 world st texts

-- `langCode` of the engines.
unfoldable pub microsoft_lang : Text → Text
microsoft_lang l =
    if text_eq l (codes "zh") || text_eq l (codes "zh-CN")
    then codes "zh-Hans"
    else if text_eq l (codes "zh-TW")
    then codes "zh-Hant"
    else l

unfoldable pub tencent_lang : Text → Text
tencent_lang l = if text_eq l (codes "zh-CN") then codes "zh" else l
