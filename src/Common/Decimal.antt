-- ===== src/Common/Decimal.antt =====
-- `%d` of Go's fmt and `strconv.Itoa`: decimal digits, and that two numbers never print alike.
use Prim.Native.Nat.{ℕ, zero, suc, ◌/◌, ◌%◌, ◌≤◌, ◌<◌}
use Prim.Native.String.{String, ◌++◌, count}
use mathlib.Core.Path.{◌≡◌, refl, ap, sym, ◌∙◌}
use mathlib.Core.Logic.{inl, inr}
use mathlib.Core.Bool.{true, false}
use native.Mathlib.Omega.{arith}
use text.Mathlib.Text.{◌==◌}
use text.Mathlib.TextLemmas.{length-append, append_inj}
use nifi_operator.Common.Tests.{ltb, if◌then◌else◌, Bool-cases, ℤ, pos, negsuc}

unfoldable pub digit : ℕ → String
digit zero = "0"
digit (suc zero) = "1"
digit (suc (suc zero)) = "2"
digit (suc (suc (suc zero))) = "3"
digit (suc (suc (suc (suc zero)))) = "4"
digit (suc (suc (suc (suc (suc zero))))) = "5"
digit (suc (suc (suc (suc (suc (suc zero)))))) = "6"
digit (suc (suc (suc (suc (suc (suc (suc zero))))))) = "7"
digit (suc (suc (suc (suc (suc (suc (suc (suc zero)))))))) = "8"
digit (suc (suc (suc (suc (suc (suc (suc (suc (suc n))))))))) = "9"

undigit : String → ℕ
undigit s =
    if s == "0"
    then 0
    else if s == "1"
    then 1
    else if s == "2"
    then 2
    else if s == "3"
    then 3
    else if s == "4"
    then 4
    else if s == "5"
    then 5
    else if s == "6"
    then 6
    else if s == "7"
    then 7
    else if s == "8"
    then 8
    else 9

undigit-digit : (n : ℕ) → n < 10 → undigit (digit n) ≡ n
unfolding digit undigit
undigit-digit zero h = refl
undigit-digit (suc zero) h = refl
undigit-digit (suc (suc zero)) h = refl
undigit-digit (suc (suc (suc zero))) h = refl
undigit-digit (suc (suc (suc (suc zero)))) h = refl
undigit-digit (suc (suc (suc (suc (suc zero))))) h = refl
undigit-digit (suc (suc (suc (suc (suc (suc zero)))))) h = refl
undigit-digit (suc (suc (suc (suc (suc (suc (suc zero))))))) h = refl
undigit-digit (suc (suc (suc (suc (suc (suc (suc (suc zero)))))))) h = refl
undigit-digit (suc (suc (suc (suc (suc (suc (suc (suc (suc n))))))))) h = omega arith

pub count-digit : (n : ℕ) → count (digit n) ≡ 1
unfolding digit
count-digit zero = refl
count-digit (suc zero) = refl
count-digit (suc (suc zero)) = refl
count-digit (suc (suc (suc zero))) = refl
count-digit (suc (suc (suc (suc zero)))) = refl
count-digit (suc (suc (suc (suc (suc zero))))) = refl
count-digit (suc (suc (suc (suc (suc (suc zero)))))) = refl
count-digit (suc (suc (suc (suc (suc (suc (suc zero))))))) = refl
count-digit (suc (suc (suc (suc (suc (suc (suc (suc zero)))))))) = refl
count-digit (suc (suc (suc (suc (suc (suc (suc (suc (suc n))))))))) = refl

-- The fuel is more than the number, and each round divides the number by ten.
unfoldable pub print_fuel : ℕ → ℕ → String
print_fuel zero n = ""
print_fuel (suc f) n = elim (ltb n 10) [
  | true ↦ digit n
  | false ↦ print_fuel f (n / 10) ++ digit (n % 10)
]

unfoldable pub print : ℕ → String
unfolding print_fuel digit
print n = print_fuel (suc n) n

-- `%d` of an `int32`
unfoldable pub print_int : ℤ → String
unfolding print
print_int (pos n) = print n
print_int (negsuc n) = "-" ++ print (suc n)

pub print_short : (f n : ℕ) → n < 10 → print_fuel (suc f) n ≡ digit n
unfolding print_fuel
print_short f n h = ground arith

pub print_long : (f n : ℕ) → 10 ≤ n → print_fuel (suc f) n ≡ print_fuel f (n / 10) ++ digit (n % 10)
unfolding print_fuel
print_long f n h = ground arith

print_fuel-pos : (f n : ℕ) → n < f → 1 ≤ count (print_fuel f n)
print_fuel-pos zero n h = elim h [ ]
print_fuel-pos (suc f) n h = elim (Bool-cases (ltb n 10)) [
  | inl small ↦ rw (print_short f n (ground arith)) (omega (arith, count-digit n))
  | inr big ↦
      rw (print_long f n (ground arith)) (
        omega (arith, length-append (print_fuel f (n / 10)) (digit (n % 10)), count-digit (n % 10)))
]

print_fuel-long : (f n : ℕ) → 10 ≤ n → n < suc f → 2 ≤ count (print_fuel (suc f) n)
print_fuel-long f n big h = rw (print_long f n big) (
    omega (
      arith,
      length-append (print_fuel f (n / 10)) (digit (n % 10)),
      count-digit (n % 10),
      print_fuel-pos f (n / 10) (omega arith),
    ))

digit_inj : (m n : ℕ) → m < 10 → n < 10 → digit m ≡ digit n → m ≡ n
digit_inj m n hm hn e = sym (undigit-digit m hm) ∙ ap undigit e ∙ undigit-digit n hn

last_digits : (s t : String) (a b : ℕ) → s ++ digit a ≡ t ++ digit b → (s ≡ t) × (digit a ≡ digit b)
last_digits s t a b e = append_inj e (
    omega (
      arith,
      ap count e,
      length-append s (digit a),
      length-append t (digit b),
      count-digit a,
      count-digit b,
    ))

print_fuel_inj : (f g m n : ℕ) → m < f → n < g → print_fuel f m ≡ print_fuel g n → m ≡ n
print_fuel_inj zero g m n hm hn e = elim hm [ ]
print_fuel_inj (suc f) zero m n hm hn e = elim hn [ ]
print_fuel_inj (suc f) (suc g) m n hm hn e = elim (Bool-cases (ltb m 10)) [
  | inl ms ↦ elim (Bool-cases (ltb n 10)) [
    | inl ns ↦
        digit_inj m n (ground arith) (ground arith)
          (sym (print_short f m (ground arith)) ∙ e ∙ print_short g n (ground arith))
    | inr nl ↦ absurd (
        omega (
          arith,
          ap count (sym (print_short f m (ground arith)) ∙ e),
          count-digit m,
          print_fuel-long g n (ground arith) hn,
        ))
  ]
  | inr ml ↦ elim (Bool-cases (ltb n 10)) [
    | inl ns ↦ absurd (
        omega (
          arith,
          ap count (e ∙ print_short g n (ground arith)),
          count-digit n,
          print_fuel-long f m (ground arith) hm,
        ))
    | inr nl ↦
        let parts =
          last_digits (print_fuel f (m / 10)) (print_fuel g (n / 10)) (m % 10) (n % 10)
            (sym (print_long f m (ground arith)) ∙ e ∙ print_long g n (ground arith)) in
        let tens = print_fuel_inj f g (m / 10) (n / 10) (ground arith) (ground arith) parts.0 in
        let unit = digit_inj (m % 10) (n % 10) (omega arith) (omega arith) parts.1 in
        omega (arith, tens, unit)
  ]
]

-- Two numbers that print alike are equal.
pub print_inj : (m n : ℕ) → print m ≡ print n → m ≡ n
unfolding print
print_inj m n e = print_fuel_inj (suc m) (suc n) m n (omega arith) (omega arith) e

print_9443 : print 9443 ≡ "9443"
unfolding print
print_9443 = refl
