-- ===== src/Common/Results.antt =====
-- What a Go function with an `error` result gives: a value, an error with its text, or a panic (a
-- nil pointer that is followed).
use Prim.Native.String.{String, ◌++◌}
use mathlib.Core.Path.{◌≡◌, refl, ap}
use mathlib.Core.Bool.{Bool, true, false}
use mathlib.Core.Option.{Option, none, some}

pub data Result {ℓ} (A : Type ℓ) : Type ℓ where
  ok : A → Result A
  err : (text : String) → Result A
  panic : Result A

-- Following a pointer.
abbrev pub deref {ℓ} : {A : Type ℓ} → Option A → Result A
deref (some a) = ok a
deref none = panic

-- `fmt.Errorf("...: %w", err)`
abbrev pub wrap {ℓ} : {A : Type ℓ} → String → Result A → Result A
wrap prefix panic = panic
wrap prefix (err text) = err (prefix ++ text)
wrap prefix (ok a) = ok a

-- A Go function goes on with the value, and stops at an error or a panic.
module _ {ℓ κ} {V : Type ℓ} {W : Type κ} where
  infixl 5 ◌>>=◌
  abbrev pub ◌>>=◌ : Result V → (V → Result W) → Result W
  panic >>= _ = panic
  err text >>= _ = err text
  ok value >>= next = next value

  pub >>=-eq-ok :
      (m : Result V) (next : V → Result W) {w : W}
      → (m >>= next) ≡ ok w
      → (v : V) × (m ≡ ok v) × (next v ≡ ok w)
  >>=-eq-ok (ok value) next h = (value, refl, h)
  >>=-eq-ok (err text) next h = cc
  >>=-eq-ok panic next h = cc

  pub >>=-ok : {m : Result V} {v : V} (next : V → Result W) → m ≡ ok v → (m >>= next) ≡ next v
  >>=-ok next e = ap (λ m. m >>= next) e

  pub >>=-panic : {m : Result V} (next : V → Result W) → m ≡ panic → (m >>= next) ≡ panic
  >>=-panic next e = ap (λ m. m >>= next) e

module _ {ℓ} {V : Type ℓ} where
  pub wrap-eq-ok : (t : String) (m : Result V) {v : V} → wrap t m ≡ ok v → m ≡ ok v
  wrap-eq-ok t (ok x) e = e
  wrap-eq-ok t (err x) e = cc
  wrap-eq-ok t panic e = cc

  pub deref-eq-ok : (p : Option V) {v : V} → deref p ≡ ok v → p ≡ some v
  deref-eq-ok none e = cc
  deref-eq-ok (some x) e = cc

pub ok-inj {ℓ} : {A : Type ℓ} {a b : A} → ok a ≡ ok b → a ≡ b
ok-inj {a = a} e = ap (λ r. elim r [ ok x ↦ x | _ ↦ a ]) e

abbrev pub is_ok {ℓ} : {A : Type ℓ} → Result A → Bool
is_ok (ok a) = true
is_ok (err text) = false
is_ok panic = false

-- How a call ends, without its value.
pub data Status : Type 0 where
  succeeds : Status
  fails : (text : String) → Status
  panics : Status

abbrev pub status {ℓ} : {A : Type ℓ} → Result A → Status
status (ok a) = succeeds
status (err text) = fails text
status panic = panics

pub status-succeeds {ℓ} : {A : Type ℓ} (m : Result A) → status m ≡ succeeds → (a : A) × (m ≡ ok a)
status-succeeds (ok a) e = (a, refl)
status-succeeds (err t) e = cc
status-succeeds panic e = cc

-- Two calls end alike: in related values, in the same error, or both in a nil pointer.
abbrev pub Agree : {V W : Type 0} → (V → W → Type 0) → Result V → Result W → Type 0
Agree R (ok v) (ok w) = R v w
Agree R (err s) (err t) = s ≡ t
Agree R panic panic = Unit {0}
Agree R _ _ = ⊥

pub >>=-Agree :
    {V W X Y : Type 0} (R : V → W → Type 0) (S : X → Y → Type 0) (m : Result V) (n : Result W)
    (f : V → Result X) (g : W → Result Y)
    → Agree R m n
    → ((v : V) (w : W) → R v w → Agree S (f v) (g w))
    → Agree S (m >>= f) (n >>= g)
>>=-Agree R S (ok v) (ok w) f g h k = k v w h
>>=-Agree R S (err s) (err t) f g h k = h
>>=-Agree R S panic panic f g h k = tt
>>=-Agree R S (ok v) (err t) f g h k = absurd h
>>=-Agree R S (ok v) panic f g h k = absurd h
>>=-Agree R S (err s) (ok w) f g h k = absurd h
>>=-Agree R S (err s) panic f g h k = absurd h
>>=-Agree R S panic (ok w) f g h k = absurd h
>>=-Agree R S panic (err t) f g h k = absurd h

-- Both go on with the value of one call.
pub >>=-Agree_self :
    {V X Y : Type 0} (S : X → Y → Type 0) (m : Result V) (f : V → Result X) (g : V → Result Y)
    → ((v : V) → Agree S (f v) (g v))
    → Agree S (m >>= f) (m >>= g)
>>=-Agree_self S (ok v) f g k = k v
>>=-Agree_self S (err s) f g k = refl
>>=-Agree_self S panic f g k = tt

pub Agree-of_status :
    {V W : Type 0} (R : V → W → Type 0) (m : Result V) (n : Result W)
    → status m ≡ status n
    → ((v : V) (w : W) → m ≡ ok v → n ≡ ok w → R v w)
    → Agree R m n
Agree-of_status R (ok v) (ok w) e h = h v w refl refl
Agree-of_status R (ok v) (err t) e h = cc
Agree-of_status R (ok v) panic e h = cc
Agree-of_status R (err s) (ok w) e h = cc
Agree-of_status R (err s) (err t) e h = cc
Agree-of_status R (err s) panic e h = cc
Agree-of_status R panic (ok w) e h = cc
Agree-of_status R panic (err t) e h = cc
Agree-of_status R panic panic e h = tt
