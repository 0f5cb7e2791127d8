-- ===== src/DocsTranslation/Alignment.antt =====
-- The lengths of the arrays that the engines of Microsoft and of Tencent in scripts/translate-docs.js answer with.
use mathlib.Core.Option.{some-injective}
use nginx_web_ui.Prelude.{
  Option-cases, ℕ, zero, suc, ◌+◌, ◌≤◌, ◌≡◌, refl, ap, sym, ◌∙◌, inl, inr, List, [], ◌∷◌, Option,
  none, some, arith, Text, length, length-append, take, drop, take-append-drop, replicate, ◌==◌,
  ==_iff, Bool-cases,
}
use nginx_web_ui.DocsTranslation.Engines.{
  Reply, failed, not_array, array, assert_same_length, all_texts, or_nulls, bind_texts,
  tencent_chunk, microsoft_chunk, batches, tencent_batch, Token, Round, get_token, reply_for,
  microsoft_rounds, microsoft_batch,
}

length-replicate {ℓ} : {A : Type ℓ} (n : ℕ) (a : A) → length (replicate n a) ≡ n
length-replicate zero a = refl
length-replicate (suc n) a = omega (arith, length-replicate n a)

-- A list that is as long as the texts is what `or_nulls` gives.
or_nulls-length :
    (chunk : List Text) (o : Option (List (Option Text)))
    → ((ts : List (Option Text)) → o ≡ some ts → length ts ≡ length chunk)
    → length (or_nulls chunk o) ≡ length chunk
or_nulls-length chunk none h = length-replicate (length chunk) none
or_nulls-length chunk (some ts) h = h ts refl

assert_same_length-some :
    (reply : Reply) (chunk : List Text) (ts : List (Option Text))
    → assert_same_length reply chunk ≡ some ts
    → length ts ≡ length chunk
unfolding assert_same_length
assert_same_length-some failed chunk ts h = cc
assert_same_length-some not_array chunk ts h = cc
assert_same_length-some (array got) chunk ts h = elim (Bool-cases (length got == length chunk)) [
  | inl same ↦
      let e : some got ≡ some ts = rw same at h in
      ap length (sym (some-injective _ _ e)) ∙ (==_iff _ _).0 same
  | inr other ↦ cc (rw other at h)
]

all_texts-length :
    (items ts : List (Option Text)) → all_texts items ≡ some ts → length ts ≡ length items
unfolding all_texts
all_texts-length [] ts h = ap length (sym (some-injective _ _ h))
all_texts-length (none ∷ items) ts h = cc
all_texts-length (some t ∷ items) ts h = elim (Option-cases (all_texts items)) [
  | inl e ↦ cc (rw e at h)
  | inr (us, e) ↦
      let q : some (some t ∷ us) ≡ some ts = rw e at h in
      ap length (sym (some-injective _ _ q)) ∙ ap suc (all_texts-length items us e)
]

tencent_chunk-length :
    (reply : Reply) (chunk : List Text) → length (tencent_chunk reply chunk) ≡ length chunk
unfolding tencent_chunk
tencent_chunk-length reply chunk =
    or_nulls-length chunk (assert_same_length reply chunk) (assert_same_length-some reply chunk)

bind_texts-length :
    (chunk : List Text) (o : Option (List (Option Text)))
    → ((ts : List (Option Text)) → o ≡ some ts → length ts ≡ length chunk)
    → (ts : List (Option Text)) → bind_texts o ≡ some ts
    → length ts ≡ length chunk
bind_texts-length chunk none h ts e = cc
bind_texts-length chunk (some got) h ts e = all_texts-length got ts e ∙ h got refl

microsoft_chunk-length :
    (reply : Reply) (chunk : List Text) → length (microsoft_chunk reply chunk) ≡ length chunk
unfolding microsoft_chunk
microsoft_chunk-length reply chunk =
    or_nulls-length chunk (bind_texts (assert_same_length reply chunk)) (
      bind_texts-length chunk (assert_same_length reply chunk)
        (assert_same_length-some reply chunk))

length-drop :
    (n : ℕ) (t : Text) (ts : List Text) → 1 ≤ n → suc (length (drop n (t ∷ ts))) ≤ length (t ∷ ts)
length-drop zero t ts h = omega arith
length-drop (suc zero) t ts h = omega arith
length-drop (suc (suc n)) t [] h = omega arith
length-drop (suc (suc n)) t (u ∷ us) h = omega (arith, length-drop (suc n) u us (omega arith))

batches-length :
    (f i size : ℕ) (ask : ℕ → List Text → List (Option Text)) (texts : List Text)
    → 1 ≤ size
    → length texts ≤ f
    → ((j : ℕ) (chunk : List Text) → length (ask j chunk) ≡ length chunk)
    → length (batches f i size ask texts) ≡ length texts
unfolding batches
batches-length zero i size ask [] s l h = refl
batches-length zero i size ask (t ∷ ts) s l h = absurd (omega arith)
batches-length (suc f) i size ask [] s l h = refl
batches-length (suc f) i size ask (t ∷ ts) s l h =
    let cut = take size (t ∷ ts) in
    let rest = drop size (t ∷ ts) in
    omega (
      arith,
      length-append (ask i cut) (batches f (i + 1) size ask rest),
      h i cut,
      batches-length f (i + 1) size ask rest s (omega (arith, length-drop size t ts s)) h,
      length-append cut rest,
      ap length (take-append-drop size (t ∷ ts)),
    )

-- Whatever the server answers, the array of Tencent's engine has an item for each line.
pub tencent_batch-length :
    (server : ℕ → List Text → Reply) (texts : List Text)
    → length (tencent_batch server texts) ≡ length texts
unfolding tencent_batch
tencent_batch-length server texts =
    batches-length (length texts) 0 20 _ texts (omega arith) (omega arith)
      (λ j chunk. tencent_chunk-length (server j chunk) chunk)

microsoft_rounds-length :
    (f i : ℕ) (world : ℕ → Round) (st : Token) (texts : List Text)
    → length texts ≤ f
    → length (microsoft_rounds f i world st texts).0 ≡ length texts
unfolding microsoft_rounds
microsoft_rounds-length zero i world st [] l = refl
microsoft_rounds-length zero i world st (t ∷ ts) l = absurd (omega arith)
microsoft_rounds-length (suc f) i world st [] l = refl
microsoft_rounds-length (suc f) i world st (t ∷ ts) l =
    let cut = take 25 (t ∷ ts) in
    let rest = drop 25 (t ∷ ts) in
    let (token, next) = get_token (world i) st in
    let reply = reply_for (world i) token cut in
    omega (
      arith,
      length-append (microsoft_chunk reply cut) (microsoft_rounds f (i + 1) world next rest).0,
      microsoft_chunk-length reply cut,
      microsoft_rounds-length f (i + 1) world next rest
          (omega (arith, length-drop 25 t ts (omega arith))),
      length-append cut rest,
      ap length (take-append-drop 25 (t ∷ ts)),
    )

-- Whatever the servers of tokens and of translations answer and whatever the clock shows, the array
-- of Microsoft's engine has an item for each line.
pub microsoft_batch-length :
    (world : ℕ → Round) (st : Token) (texts : List Text)
    → length (microsoft_batch world st texts).0 ≡ length texts
unfolding microsoft_batch
microsoft_batch-length world st texts =
    microsoft_rounds-length (length texts) 0 world st texts (omega arith)
