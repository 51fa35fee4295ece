-- ===== src/Prelude/Decimal.antt =====
-- Numbers as template literals print them, and the value of a text of digits.
use Prim.Native.Nat.{ℕ, zero, suc, ◌+◌, ◌-◌, ◌*◌, ◌/◌, ◌%◌, ◌≤◌, ◌<◌}
use mathlib.Core.Path.{◌≡◌, refl}
use mathlib.Core.Bool.{Bool, true, ◌&&◌}
use mathlib.Core.List.{[], ◌∷◌}
use native.Mathlib.Omega.{arith}
use silence_watch.Prelude.Tests.{if◌then◌else◌, leb, ltb}
use silence_watch.Prelude.Lists.{all, length}
use silence_watch.Prelude.Keys.{Text}

-- The digits of `n` in front of `acc`. A number has fewer digits than its value plus one.
print_from : ℕ → ℕ → Text → Text
print_from zero n acc = acc
print_from (suc fuel) n acc =
    let rest = print_from fuel (n / 10) ((b'0' + n % 10) ∷ acc) in
    if ltb n 10 then (b'0' + n) ∷ acc else rest

unfoldable pub decimal : ℕ → Text
unfolding print_from
decimal n = print_from (suc n) n []

abbrev pub is_decimal : ℕ → Bool
is_decimal c = leb b'0' c && leb c b'9'

-- What digits behind the number `n` spell.
abbrev pub digits_value : ℕ → Text → ℕ
digits_value n [] = n
digits_value n (c ∷ s) = digits_value (n * 10 + (c - b'0')) s

abbrev pub pow10 : ℕ → ℕ
pow10 zero = 1
pow10 (suc k) = 10 * pow10 k

print_from-value :
    (fuel n : ℕ) (acc : Text)
    → n < fuel
    → digits_value 0 (print_from fuel n acc) ≡ digits_value n acc
unfolding print_from
print_from-value zero n acc h = omega arith
print_from-value (suc fuel) n acc h =
    ground (arith, print_from-value fuel (n / 10) ((b'0' + n % 10) ∷ acc))

print_from-all :
    (fuel n : ℕ) (acc : Text)
    → all is_decimal acc ≡ true
    → all is_decimal (print_from fuel n acc) ≡ true
unfolding print_from
print_from-all zero n acc h = h
print_from-all (suc fuel) n acc h =
    ground (arith, print_from-all fuel (n / 10) ((b'0' + n % 10) ∷ acc))

print_from-length :
    (fuel n k : ℕ) (acc : Text)
    → n < pow10 k
    → n < fuel
    → 0 < k
    → (length acc < length (print_from fuel n acc))
      × (length (print_from fuel n acc) ≤ k + length acc)
unfolding print_from
print_from-length zero n k acc h e p = omega arith
print_from-length (suc fuel) n zero acc h e p = omega arith
print_from-length (suc fuel) n (suc zero) acc h e p = ground arith
print_from-length (suc fuel) n (suc (suc k)) acc h e p =
    ground (arith, print_from-length fuel (n / 10) (suc k) ((b'0' + n % 10) ∷ acc))

pub decimal-value : (n : ℕ) → digits_value 0 (decimal n) ≡ n
unfolding decimal
decimal-value n = print_from-value (suc n) n [] (omega arith)

pub decimal-all : (n : ℕ) → all is_decimal (decimal n) ≡ true
unfolding decimal
decimal-all n = print_from-all (suc n) n [] refl

pub decimal-length :
    (n k : ℕ) → n < pow10 k → 0 < k → (0 < length (decimal n)) × (length (decimal n) ≤ k)
unfolding decimal
decimal-length n k h p = ground (arith, print_from-length (suc n) n k [] h (omega arith) p)
