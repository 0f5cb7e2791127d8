-- ===== src/DocsTranslation/RoundTrip/Counting.antt =====
-- A set that got every number below `n`, and no other, has `n` members.
use nginx_web_ui.Prelude.{
  ℕ, zero, suc, ◌≤◌, ◌<◌, ◌≡◌, refl, ap, sym, ◌∙◌, true, false, ◌||◌, List, [], ◌∷◌, arith, All,
  length, ◌==◌, if◌then◌else◌, Bool-cases, inl, inr,
}
use nginx_web_ui.DocsTranslation.Protect.{add_seen}
use nginx_web_ui.DocsTranslation.RoundTrip.Masking.{refers}

-- How many of the numbers below `n` are in the list.
tally : ℕ → List ℕ → ℕ
tally zero xs = 0
tally (suc n) xs = if refers n xs then suc (tally n xs) else tally n xs

tally_all : (n : ℕ) (xs : List ℕ) → ((k : ℕ) → k < n → refers k xs ≡ true) → tally n xs ≡ n
unfolding tally
tally_all zero xs h = refl
tally_all (suc n) xs h = rw (h n (omega arith)) (ap suc (tally_all n xs (λ k l. h k (omega arith))))

tally_nil : (n : ℕ) → tally n [] ≡ 0
unfolding tally
tally_nil zero = refl
tally_nil (suc n) = tally_nil n

-- A number that is not counted changes nothing.
tally_above : (n i : ℕ) (xs : List ℕ) → n ≤ i → tally n (i ∷ xs) ≡ tally n xs
unfolding tally
tally_above zero i xs h = refl
tally_above (suc n) i xs h = ground (arith, tally_above n i xs)

tally_new :
    (n i : ℕ) (xs : List ℕ) → i < n → refers i xs ≡ false → tally n (i ∷ xs) ≡ suc (tally n xs)
unfolding tally
tally_new zero i xs h new = absurd (omega arith)
tally_new (suc n) i xs h new = elim (Bool-cases (i == n)) [
  | inl e ↦ ground (arith, tally_above n i xs)
  | inr e ↦ ground (arith, tally_new n i xs)
]

unfoldable pub add_all : List ℕ → List ℕ → List ℕ
add_all [] seen = seen
add_all (i ∷ is_) seen = add_all is_ (add_seen i seen)

add_seen-tally :
    (n i : ℕ) (seen : List ℕ)
    → i < n
    → length seen ≡ tally n seen
    → length (add_seen i seen) ≡ tally n (add_seen i seen)
unfolding add_seen
add_seen-tally n i seen l h = elim (Bool-cases (refers i seen)) [
  | inl e ↦ rw e h
  | inr e ↦ rw e (omega (arith, tally_new n i seen l e))
]

add_all-tally :
    (n : ℕ) (is_ seen : List ℕ)
    → All (λ i. i < n) is_
    → length seen ≡ tally n seen
    → length (add_all is_ seen) ≡ tally n (add_all is_ seen)
unfolding add_all
add_all-tally n [] seen a h = h
add_all-tally n (i ∷ is_) seen a h =
    add_all-tally n is_ (add_seen i seen) a.1 (add_seen-tally n i seen a.0 h)

add_seen-refers :
    (k i : ℕ) (seen : List ℕ) → refers k (add_seen i seen) ≡ ((i == k) || refers k seen)
unfolding add_seen
add_seen-refers k i seen = elim (Bool-cases (refers i seen)) [
  | inl e ↦ rw e (elim (Bool-cases (i == k)) [ inl s ↦ ground arith | inr s ↦ rw s refl ])
  | inr e ↦ rw e refl
]

add_all-refers :
    (k : ℕ) (is_ seen : List ℕ)
    → (refers k is_ || refers k seen) ≡ true
    → refers k (add_all is_ seen) ≡ true
unfolding add_all
add_all-refers k [] seen h = h
add_all-refers k (i ∷ is_) seen h =
    add_all-refers k is_ (add_seen i seen) (ground (arith, add_seen-refers k i seen))

-- The size of the set of all references.
pub length-add_all :
    (n : ℕ) (refs : List ℕ)
    → All (λ i. i < n) refs
    → ((k : ℕ) → k < n → refers k refs ≡ true)
    → length (add_all refs []) ≡ n
length-add_all n refs a h =
    add_all-tally n refs [] a (sym (tally_nil n))
    ∙ tally_all n (add_all refs []) (λ k l. add_all-refers k refs [] (ground (arith, h k l)))
