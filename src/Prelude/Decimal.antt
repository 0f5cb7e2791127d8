-- ===== src/Prelude/Decimal.antt =====
-- Decimal numbers as text: `${n}` and `Number(digits)` of a natural number.
use Prim.Native.Nat.{ℕ, zero, suc, ◌+◌, ◌-◌, ◌*◌, ◌/◌, ◌%◌, ◌≤◌, ◌<◌}
use mathlib.Core.Path.{◌≡◌}
use mathlib.Core.Bool.{true}
use mathlib.Core.List.{[], ◌∷◌}
use native.Mathlib.Omega.{arith}
use nginx_web_ui.Prelude.Tests.{ltb, if◌then◌else◌}
use nginx_web_ui.Prelude.Lists.{length, All}
use nginx_web_ui.Prelude.Strings.{Text, is_digit}

-- The number that decimal digits spell behind `n`.
unfoldable pub decimal : ℕ → Text → ℕ
decimal n [] = n
decimal n (c ∷ s) = decimal (n * 10 + (c - b'0')) s

-- A round for each digit; there are at most `n + 1` of them.
unfoldable pub print_loop : ℕ → ℕ → Text → Text
print_loop zero n out = out
print_loop (suc f) n out =
    let more = print_loop f (n / 10) ((b'0' + n % 10) ∷ out) in
    if ltb n 10 then (b'0' + n) ∷ out else more

unfoldable pub print : ℕ → Text
unfolding print_loop
print n = print_loop (n + 1) n []

decimal-print_loop : (f n : ℕ) (out : Text) → n < f → decimal 0 (print_loop f n out) ≡ decimal n out
unfolding decimal print_loop
decimal-print_loop zero n out h = absurd (omega arith)
decimal-print_loop (suc f) n out h =
    ground (arith, decimal-print_loop f (n / 10) ((b'0' + n % 10) ∷ out))

-- A printed number is read back.
pub decimal-print : (n : ℕ) → decimal 0 (print n) ≡ n
unfolding print decimal
decimal-print n = decimal-print_loop (n + 1) n [] (omega arith)

print_loop-digits :
    (f n : ℕ) (out : Text)
    → All (λ c. is_digit c ≡ true) out
    → All (λ c. is_digit c ≡ true) (print_loop f n out)
unfolding print_loop
print_loop-digits zero n out h = h
print_loop-digits (suc f) n out h =
    ground (arith, print_loop-digits f (n / 10) ((b'0' + n % 10) ∷ out))

-- A printed number is made of digits.
pub print-digits : (n : ℕ) → All (λ c. is_digit c ≡ true) (print n)
unfolding print
print-digits n = print_loop-digits (n + 1) n [] tt

length-print_loop : (f n : ℕ) (out : Text) → n < f → suc (length out) ≤ length (print_loop f n out)
unfolding print_loop
length-print_loop zero n out h = absurd (omega arith)
length-print_loop (suc f) n out h =
    ground (arith, length-print_loop f (n / 10) ((b'0' + n % 10) ∷ out))

pub length-print : (n : ℕ) → 1 ≤ length (print n)
unfolding print
length-print n = length-print_loop (n + 1) n [] (omega arith)
