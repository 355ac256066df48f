-- ===== src/Common/Label.antt =====
-- The names that Kubernetes takes for containers and volumes: labels of RFC 1123.
use Prim.Native.Char.{code}
use Prim.Native.Nat.{ℕ, zero, suc, ◌+◌, ◌*◌, ◌/◌, ◌%◌, ◌≤◌, ◌<◌}
use Prim.Native.String.{String, ◌++◌, count}
use mathlib.Core.Path.{◌≡◌, refl, ◌∙◌, ap}
use mathlib.Core.Logic.{◌≢◌, inl, inr}
use mathlib.Core.Bool.{Bool, true, ◌&&◌, ◌||◌}
use text.Mathlib.TextLemmas.{nil-append, cons-append, length-append}
use native.Mathlib.Omega.{arith}
use nifi_operator.Common.Tests.{ltb, nat_eqb, Bool-cases}
use nifi_operator.Common.Decimal.{print, print_fuel, digit, count-digit, print_short, print_long}
use nifi_operator.Common.Ending.{
  first_code, first_code-append, last_code, last_code-append, last_code-print, IsDigit,
}

-- A digit or a lower-case letter.
abbrev pub is_alphanumeric : ℕ → Bool
is_alphanumeric c = (ltb 47 c && ltb c 58) || (ltb 96 c && ltb c 123)

-- Or a dash.
abbrev pub is_label_char : ℕ → Bool
is_label_char c = is_alphanumeric c || nat_eqb c 45

abbrev pub all_chars : (ℕ → Bool) → String → Bool
all_chars p String.[] = true
all_chars p (String.◌∷◌ c s) = p (code c) && all_chars p s

pub record IsLabel (s : String) : Type 0 where
  pub chars : all_chars is_label_char s ≡ true
  pub first : is_alphanumeric (first_code s) ≡ true
  pub last : is_alphanumeric (last_code 0 s) ≡ true
  pub short : count s ≤ 63

all_chars-append :
    (p : ℕ → Bool) (s t : String) → all_chars p (s ++ t) ≡ all_chars p s && all_chars p t
all_chars-append p String.[] t = ap (all_chars p) (nil-append t)
all_chars-append p (String.◌∷◌ c s) t =
    ap (all_chars p) (cons-append c s t) ∙ ground (arith, all_chars-append p s t)

all_chars-digit : (n : ℕ) → all_chars is_label_char (digit n) ≡ true
unfolding digit
all_chars-digit zero = refl
all_chars-digit (suc zero) = refl
all_chars-digit (suc (suc zero)) = refl
all_chars-digit (suc (suc (suc zero))) = refl
all_chars-digit (suc (suc (suc (suc zero)))) = refl
all_chars-digit (suc (suc (suc (suc (suc zero))))) = refl
all_chars-digit (suc (suc (suc (suc (suc (suc zero)))))) = refl
all_chars-digit (suc (suc (suc (suc (suc (suc (suc zero))))))) = refl
all_chars-digit (suc (suc (suc (suc (suc (suc (suc (suc zero)))))))) = refl
all_chars-digit (suc (suc (suc (suc (suc (suc (suc (suc (suc n))))))))) = refl

all_chars-print_fuel : (f n : ℕ) → all_chars is_label_char (print_fuel f n) ≡ true
unfolding print_fuel
all_chars-print_fuel zero n = refl
all_chars-print_fuel (suc f) n = elim (Bool-cases (ltb n 10)) [
  | inl small ↦ rw (small, print_fuel) (all_chars-digit n)
  | inr large ↦ rw (
    large,
    print_fuel,
    all_chars-append,
    all_chars-print_fuel f (n / 10),
    all_chars-digit (n % 10),
  )
]

-- The powers of ten.
abbrev pub power_of_10 : ℕ → ℕ
power_of_10 zero = 1
power_of_10 (suc k) = 10 * power_of_10 k

-- A number below a power of ten has at most as many digits as the power has zeros.
count-print_fuel : (k f n : ℕ) → n < f → n < power_of_10 (suc k) → count (print_fuel f n) ≤ suc k
count-print_fuel k zero n h b = elim h [ ]
count-print_fuel zero (suc f) n h b =
    rw (print_short f n (omega arith)) (omega (arith, count-digit n))
count-print_fuel (suc k) (suc f) n h b = elim (Bool-cases (ltb n 10)) [
  | inl small ↦ rw (print_short f n (ground arith)) (omega (arith, count-digit n))
  | inr large ↦ rw (print_long f n (ground arith)) (
      omega (
        arith,
        length-append (print_fuel f (n / 10)) (digit (n % 10)),
        count-digit (n % 10),
        count-print_fuel k f (n / 10) (ground arith) (omega arith),
      ))
]

all_chars-print : (n : ℕ) → all_chars is_label_char (print n) ≡ true
unfolding print
all_chars-print n = all_chars-print_fuel (suc n) n

count-print : (k n : ℕ) → n < power_of_10 (suc k) → count (print n) ≤ suc k
unfolding print
count-print k n b = count-print_fuel k (suc n) n (omega arith) b

is_alphanumeric-IsDigit : (c : ℕ) → IsDigit c → is_alphanumeric c ≡ true
is_alphanumeric-IsDigit c d = ground arith

-- A prefix that begins like a label, and a number.
pub numbered-IsLabel :
    (p : String) (k n : ℕ)
    → all_chars is_label_char p ≡ true
    → is_alphanumeric (first_code p) ≡ true
    → first_code p ≢ 0
    → count p + suc k ≤ 63
    → n < power_of_10 (suc k)
    → IsLabel (p ++ print n)
numbered-IsLabel p k n chars first filled short below = record {
  chars = rw (all_chars-append, chars, all_chars-print n);
  first = rw (first_code-append p (print n) filled) first;
  last =
      rw (last_code-append 0 p (print n))
        (is_alphanumeric-IsDigit _ (last_code-print (last_code 0 p) n));
  short = omega (arith, length-append p (print n), count-print k n below);
}

-- The same with an ending that ends like a label.
pub wrapped-IsLabel :
    (p q : String) (k n : ℕ)
    → all_chars is_label_char p ≡ true
    → all_chars is_label_char q ≡ true
    → is_alphanumeric (first_code p) ≡ true
    → first_code p ≢ 0
    → ((d : ℕ) → is_alphanumeric (last_code d q) ≡ true)
    → count p + suc k + count q ≤ 63
    → n < power_of_10 (suc k)
    → IsLabel (p ++ (print n ++ q))
wrapped-IsLabel p q k n chars chars' first filled last short below = record {
  chars = rw (all_chars-append, chars, all_chars-append, all_chars-print n, chars');
  first = rw (first_code-append p (print n ++ q) filled) first;
  last =
      rw (last_code-append 0 p (print n ++ q), last_code-append (last_code 0 p) (print n) q)
        (last (last_code (last_code 0 p) (print n)));
  short =
      omega
        (arith, length-append p (print n ++ q), length-append (print n) q, count-print k n below);
}
