-- ===== src/Common/Lists.antt =====
-- Lists by native numbers and texts, and predicates on lists that compute to tuples.
use Prim.Native.Nat.{ℕ, zero, suc}
use Prim.Native.String
use Prim.Native.String.{String}
use mathlib.Core.Path.{◌≡◌, refl, sym, ◌∙◌, ap}
use mathlib.Core.Logic.{◌≢◌}
use mathlib.Core.Bool.{Bool, true, false, ◌||◌}
use mathlib.Core.Option.{Option, none, some}
use mathlib.Core.List.{List, [], ◌∷◌, ◌++◌, map, append_assoc}
use native.Mathlib.Omega.{arith}
use text.Mathlib.Text.{◌==◌}
use text.Mathlib.TextPositions.{eq_refl}
use nifi_operator.Common.Tests.{if◌then◌else◌}

module _ {ℓ} {A : Type ℓ} where
  abbrev pub length : List A → ℕ
  length [] = 0
  length (x ∷ xs) = suc (length xs)

  abbrev pub take : ℕ → List A → List A
  take zero xs = []
  take (suc n) [] = []
  take (suc n) (x ∷ xs) = x ∷ take n xs

  -- `map` with the position, from `i` on.
  abbrev pub map_from {κ} : {B : Type κ} → (ℕ → A → B) → ℕ → List A → List B
  map_from f i [] = []
  map_from f i (x ∷ xs) = f i x ∷ map_from f (suc i) xs

  abbrev pub filter_by : (A → Bool) → List A → List A
  filter_by p [] = []
  filter_by p (x ∷ xs) = let rest = filter_by p xs in if p x then x ∷ rest else rest

  -- The values that the absent keep out.
  abbrev pub present : Option A → List A
  present none = []
  present (some a) = a ∷ []

module _ {ℓ κ} {A : Type ℓ} (P : A → Type κ) where
  abbrev pub All : List A → Type κ
  All [] = Unit
  All (x ∷ xs) = P x × All xs

  pub All-append : (xs ys : List A) → All xs → All ys → All (xs ++ ys)
  All-append [] ys _ k = k
  All-append (x ∷ xs) ys (p, h) k = (p, All-append xs ys h k)

pub All-imp {ℓ κ μ} :
    {A : Type ℓ} (P : A → Type κ) (Q : A → Type μ) (xs : List A)
    → ((x : A) → P x → Q x)
    → All P xs
    → All Q xs
All-imp P Q [] f _ = tt
All-imp P Q (x ∷ xs) f (p, h) = (f x p, All-imp P Q xs f h)

-- No value stands twice.
abbrev pub Distinct {ℓ} : {A : Type ℓ} → List A → Type ℓ
Distinct [] = Unit
Distinct (x ∷ xs) = All (λ y. x ≢ y) xs × Distinct xs

abbrev pub contains : List String → String → Bool
contains [] a = false
contains (x ∷ xs) a = x == a || contains xs a

pub contains-append_right :
    (xs ys : List String) (a : String) → contains ys a ≡ true → contains (xs ++ ys) a ≡ true
contains-append_right [] ys a h = h
contains-append_right (x ∷ xs) ys a h = ground (arith, contains-append_right xs ys a h)

pub contains-append_left :
    (xs ys : List String) (a : String) → contains xs a ≡ true → contains (xs ++ ys) a ≡ true
contains-append_left [] ys a h = cc
contains-append_left (x ∷ xs) ys a h = ground (arith, contains-append_left xs ys a)

pub contains-cons :
    (n m : String) (ns : List String) → contains ns m ≡ true → contains (n ∷ ns) m ≡ true
contains-cons n m ns h = ground arith

pub contains_self : (n : String) (ns : List String) → contains (n ∷ ns) n ≡ true
contains_self n ns = ground (arith, eq_refl n)

-- The first value of a key in an association list.
abbrev pub find_key {ℓ} : {V : Type ℓ} → String → List (String × V) → Option V
find_key k [] = none
find_key k ((j, v) ∷ m) = if j == k then some v else find_key k m

-- `strings.Join`
abbrev pub join : String → List String → String
join sep [] = ""
join sep (x ∷ []) = x
join sep (x ∷ y ∷ xs) = String.◌++◌ x (String.◌++◌ sep (join sep (y ∷ xs)))

abbrev pub is_empty {ℓ} : {A : Type ℓ} → List A → Bool
is_empty [] = true
is_empty (_ ∷ _) = false

pub is_empty-eq {ℓ} : {A : Type ℓ} (xs : List A) → is_empty xs ≡ true → xs ≡ []
is_empty-eq [] e = refl
is_empty-eq (x ∷ xs) e = cc

pub Distinct-append {ℓ} :
    {A : Type ℓ} (xs ys : List A)
    → Distinct xs
    → Distinct ys
    → All (λ x. All (λ y. x ≢ y) ys) xs
    → Distinct (xs ++ ys)
Distinct-append [] ys h k apart = k
Distinct-append (x ∷ xs) ys (new, h) k (a, apart) =
    (All-append (λ y. x ≢ y) xs ys new a, Distinct-append xs ys h k apart)

pub All-map_from {ℓ κ μ} :
    {A : Type ℓ} {B : Type κ} (P : B → Type μ) (f : ℕ → A → B)
    → ((i : ℕ) (x : A) → P (f i x))
    → (i : ℕ) (xs : List A) → All P (map_from f i xs)
All-map_from P f h i [] = tt
All-map_from P f h i (x ∷ xs) = (h i x, All-map_from P f h (suc i) xs)

pub All-map {ℓ κ μ} :
    {A : Type ℓ} {B : Type κ} (P : B → Type μ) (f : A → B) (xs : List A)
    → All (λ x. P (f x)) xs
    → All P (map f xs)
All-map P f [] h = tt
All-map P f (x ∷ xs) (p, h) = (p, All-map P f xs h)

-- The lists that a function gives, one behind the other.
abbrev pub values {ℓ κ} : {A : Type ℓ} {B : Type κ} → (A → List B) → List A → List B
values f [] = []
values f (x ∷ xs) = f x ++ values f xs

pub values-append {ℓ κ} :
    {A : Type ℓ} {B : Type κ} (f : A → List B) (xs ys : List A)
    → values f (xs ++ ys) ≡ values f xs ++ values f ys
values-append f [] ys = refl
values-append f (x ∷ xs) ys =
    ap (λ l. f x ++ l) (values-append f xs ys)
    ∙ sym (append_assoc (f x) (values f xs) (values f ys))
