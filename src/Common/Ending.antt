-- ===== src/Common/Ending.antt =====
-- The last characters of texts, which tell names with a fixed ending from names that end in a number.
use Prim.Native.Char.{code}
use Prim.Native.Nat.{ℕ, zero, suc, ◌/◌, ◌%◌, ◌≤◌}
use Prim.Native.String.{String, ◌++◌}
use mathlib.Core.Path.{◌≡◌, ap, ◌∙◌}
use mathlib.Core.Logic.{◌≢◌, inl, inr}
use text.Mathlib.TextLemmas.{nil-append, cons-append}
use native.Mathlib.Omega.{arith}
use nifi_operator.Common.Tests.{ltb, Bool-cases}
use nifi_operator.Common.Decimal.{print, print_fuel, digit}

-- The code of the last character, `d` where there is none.
abbrev pub last_code : ℕ → String → ℕ
last_code d String.[] = d
last_code d (String.◌∷◌ c s) = last_code (code c) s

pub last_code-append : (d : ℕ) (s t : String) → last_code d (s ++ t) ≡ last_code (last_code d s) t
last_code-append d String.[] t = ap (last_code d) (nil-append t)
last_code-append d (String.◌∷◌ c s) t =
    ap (last_code d) (cons-append c s t) ∙ last_code-append (code c) s t

abbrev pub IsDigit : ℕ → Type 0
IsDigit c = (48 ≤ c) × (c ≤ 57)

last_code-digit : (d n : ℕ) → IsDigit (last_code d (digit n))
unfolding digit
last_code-digit d zero = omega arith
last_code-digit d (suc zero) = omega arith
last_code-digit d (suc (suc zero)) = omega arith
last_code-digit d (suc (suc (suc zero))) = omega arith
last_code-digit d (suc (suc (suc (suc zero)))) = omega arith
last_code-digit d (suc (suc (suc (suc (suc zero))))) = omega arith
last_code-digit d (suc (suc (suc (suc (suc (suc zero)))))) = omega arith
last_code-digit d (suc (suc (suc (suc (suc (suc (suc zero))))))) = omega arith
last_code-digit d (suc (suc (suc (suc (suc (suc (suc (suc zero)))))))) = omega arith
last_code-digit d (suc (suc (suc (suc (suc (suc (suc (suc (suc n))))))))) = omega arith

-- A number ends in a digit.
pub last_code-print : (d n : ℕ) → IsDigit (last_code d (print n))
unfolding print print_fuel
last_code-print d n = elim (Bool-cases (ltb n 10)) [
  | inl small ↦ rw (small, print_fuel) (last_code-digit d n)
  | inr large ↦
      rw (large, print_fuel, last_code-append)
        (last_code-digit (last_code d (print_fuel n (n / 10))) (n % 10))
]

pub ne_of_last_code : {s t : String} → last_code 0 s ≢ last_code 0 t → s ≢ t
ne_of_last_code h e = h (ap (last_code 0) e)

-- The code of the first character, 0 where there is none.
abbrev pub first_code : String → ℕ
first_code String.[] = 0
first_code (String.◌∷◌ c s) = code c

pub first_code-append : (s t : String) → first_code s ≢ 0 → first_code (s ++ t) ≡ first_code s
first_code-append String.[] t h = absurd (omega (arith, h))
first_code-append (String.◌∷◌ c s) t h = ap first_code (cons-append c s t)
