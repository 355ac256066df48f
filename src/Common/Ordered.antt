-- ===== src/Common/Ordered.antt =====
-- Sorting by name, as `sort.Slice` and `slices.Sorted` do it where the names are distinct. Go
-- compares texts byte by byte, which for UTF-8 is the order of the code points.
use Prim.Native.Nat.{ℕ, Ordering, compare as compare_ℕ}
use Prim.Native.Char.{code}
use Prim.Native.String.compare
use Prim.Native.String.{String, compare, then as followed_by}
use mathlib.Core.Path.{◌≡◌, refl, sym, ap, ap₂, ◌∙◌, subst}
use mathlib.Core.Logic.{◌≢◌, inl, inr}
use mathlib.Core.Bool.{Bool, true, false}
use mathlib.Core.List.Permᴰ as PermD
use mathlib.Core.List.{List, [], ◌∷◌, Permᴰ}
use native.Mathlib.Omega.{arith}
use text.Mathlib.TextEquality.{path_by_compare}
use nifi_operator.Common.Tests.{if◌then◌else◌, Bool-cases}
use nifi_operator.Common.Lists.{All, All-imp, Distinct}

abbrev pub str_ltb : String → String → Bool
str_ltb s t = elim (compare s t) [ Ordering.lt ↦ true | _ ↦ false ]

abbrev flip : Ordering → Ordering
flip Ordering.lt = Ordering.gt
flip Ordering.eq = Ordering.eq
flip Ordering.gt = Ordering.lt

flip-followed_by : (o p : Ordering) → flip (followed_by o p) ≡ followed_by (flip o) (flip p)
flip-followed_by Ordering.lt p = refl
flip-followed_by Ordering.eq p = refl
flip-followed_by Ordering.gt p = refl

flip-compare_ℕ : (m n : ℕ) → compare_ℕ n m ≡ flip (compare_ℕ m n)
flip-compare_ℕ m n = ground arith

flip-compare : (s t : String) → compare t s ≡ flip (compare s t)
flip-compare String.[] String.[] = refl
flip-compare String.[] (String.◌∷◌ d t) = rw (compare.nil-cons, compare.cons-nil)
flip-compare (String.◌∷◌ c s) String.[] = rw (compare.nil-cons, compare.cons-nil)
flip-compare (String.◌∷◌ c s) (String.◌∷◌ d t) =
    rw (compare.cons-cons, compare.cons-cons, flip-followed_by)
      (ap₂ followed_by (flip-compare_ℕ (code c) (code d)) (flip-compare s t))

followed_by_trans :
    (a b c : ℕ) (p q r : Ordering)
    → followed_by (compare_ℕ a b) p ≡ Ordering.lt
    → followed_by (compare_ℕ b c) q ≡ Ordering.lt
    → (p ≡ Ordering.lt → q ≡ Ordering.lt → r ≡ Ordering.lt)
    → followed_by (compare_ℕ a c) r ≡ Ordering.lt
followed_by_trans a b c p q r h k f = ground arith

pub str_lt_trans :
    (s t u : String)
    → compare s t ≡ Ordering.lt
    → compare t u ≡ Ordering.lt
    → compare s u ≡ Ordering.lt
str_lt_trans String.[] String.[] u h k = k
str_lt_trans String.[] (String.◌∷◌ d t) String.[] h k = cc (sym (compare.cons-nil d t) ∙ k)
str_lt_trans String.[] (String.◌∷◌ d t) (String.◌∷◌ e u) h k = compare.nil-cons e u
str_lt_trans (String.◌∷◌ c s) String.[] u h k = cc (sym (compare.cons-nil c s) ∙ h)
str_lt_trans (String.◌∷◌ c s) (String.◌∷◌ d t) String.[] h k = cc (sym (compare.cons-nil d t) ∙ k)
str_lt_trans (String.◌∷◌ c s) (String.◌∷◌ d t) (String.◌∷◌ e u) h k = rw compare.cons-cons (
    followed_by_trans (code c) (code d) (code e) (compare s t) (compare t u) (compare s u)
      (sym (compare.cons-cons c d s t) ∙ h) (sym (compare.cons-cons d e t u) ∙ k)
      (str_lt_trans s t u))

pub str_ltb_trans : (a b c : String) → str_ltb a b ≡ true → str_ltb b c ≡ true → str_ltb a c ≡ true
str_ltb_trans a b c h k = rw (str_lt_trans a b c (ground arith) (ground arith), str_ltb)

pub str_ltb_asym : (a b : String) → str_ltb a b ≡ true → str_ltb b a ≡ false
str_ltb_asym a b h = ground (arith, flip-compare a b)

pub str_ltb_total : (a b : String) → a ≢ b → str_ltb a b ≡ false → str_ltb b a ≡ true
str_ltb_total a b ne h =
    ground (arith, flip-compare a b, λ (e : compare a b ≡ Ordering.eq). ne (path_by_compare a b e))

eq_of_not-ltb : (a b : String) → str_ltb a b ≡ false → str_ltb b a ≡ false → a ≡ b
eq_of_not-ltb a b h k = path_by_compare a b (ground (arith, flip-compare a b))

-- `a` comes before `b`, or is `b`.
abbrev pub NameLe : String → String → Type 0
NameLe a b = str_ltb b a ≡ false

pub NameLe-trans : (a b c : String) → NameLe a b → NameLe b c → NameLe a c
NameLe-trans a b c h k = elim (Bool-cases (str_ltb c a)) [
  | inr done ↦ done
  | inl less ↦ elim (Bool-cases (str_ltb a b)) [
    | inl ab ↦ cc (str_ltb_trans c a b less ab)
    | inr ba ↦ cc (eq_of_not-ltb a b ba h)
  ]
]

module _ {ℓ} {V : Type ℓ} where
  abbrev pub names : List (String × V) → List String
  names [] = []
  names ((k, _) ∷ xs) = k ∷ names xs

  unfoldable pub insert_named : String × V → List (String × V) → List (String × V)
  insert_named (k, v) [] = (k, v) ∷ []
  insert_named (k, v) ((j, w) ∷ xs) =
      if str_ltb k j then (k, v) ∷ (j, w) ∷ xs else (j, w) ∷ insert_named (k, v) xs

  unfoldable pub sort_by_name : List (String × V) → List (String × V)
  unfolding insert_named
  sort_by_name [] = []
  sort_by_name (x ∷ xs) = insert_named x (sort_by_name xs)

  insert_comm :
      (k j : String) (v w : V) (xs : List (String × V))
      → k ≢ j
      → insert_named (k, v) (insert_named (j, w) xs) ≡ insert_named (j, w) (insert_named (k, v) xs)
  unfolding insert_named
  insert_comm k j v w [] ne = ground (arith, str_ltb_asym k j, str_ltb_total k j ne)
  insert_comm k j v w ((i, u) ∷ xs) ne = ground (
    arith,
    str_ltb_asym k j,
    str_ltb_total k j ne,
    str_ltb_asym j k,
    str_ltb_trans k i j,
    NameLe-trans i k j,
    NameLe-trans i j k,
    insert_comm k j v w xs ne,
  )

  pub All-names-perm {κ} :
      (P : String → Type κ) {xs ys : List (String × V)}
      → Permᴰ xs ys
      → All P (names xs)
      → All P (names ys)
  All-names-perm P Permᴰ.nil h = h
  All-names-perm P (Permᴰ.cons e p) (h, hs) =
      (subst (λ (x : String × V). P x.0) e h, All-names-perm P p hs)
  All-names-perm P (Permᴰ.swap e₁ e₂) (h, (k, hs)) =
      (subst (λ (x : String × V). P x.0) e₂ k, (subst (λ (x : String × V). P x.0) e₁ h, hs))
  All-names-perm P (Permᴰ.trans p q) h = All-names-perm P q (All-names-perm P p h)

  Distinct-names-perm :
      {xs ys : List (String × V)} → Permᴰ xs ys → Distinct (names xs) → Distinct (names ys)
  Distinct-names-perm Permᴰ.nil h = h
  Distinct-names-perm (Permᴰ.cons {l₁} e p) (h, hs) = (
    All-names-perm _ p (subst (λ (x : String × V). All (λ y. x.0 ≢ y) (names l₁)) e h),
    Distinct-names-perm p hs,
  )
  Distinct-names-perm (Permᴰ.swap {l} e₁ e₂) ((ne, h), (k, hs)) = (
    (
      λ q. ne (ap (λ (x : String × V). x.0) e₁ ∙ sym q ∙ sym (ap (λ (x : String × V). x.0) e₂)),
      subst (λ (x : String × V). All (λ y. x.0 ≢ y) (names l)) e₂ k,
    ),
    (subst (λ (x : String × V). All (λ y. x.0 ≢ y) (names l)) e₁ h, hs),
  )
  Distinct-names-perm (Permᴰ.trans p q) h = Distinct-names-perm q (Distinct-names-perm p h)

  -- The order in which a map's entries are met does not show in the sorted list.
  pub sort_by_name-perm :
      {xs ys : List (String × V)}
      → Permᴰ xs ys
      → Distinct (names xs)
      → sort_by_name xs ≡ sort_by_name ys
  unfolding sort_by_name
  sort_by_name-perm Permᴰ.nil h = refl
  sort_by_name-perm (Permᴰ.cons e p) (h, hs) = ap₂ insert_named e (sort_by_name-perm p hs)
  sort_by_name-perm (Permᴰ.swap {a} {b} {l} e₁ e₂) ((ne, h), hs) =
      insert_comm a.0 b.0 a.1 b.1 (sort_by_name l) ne
      ∙ ap₂ (λ x y. insert_named x (insert_named y (sort_by_name l))) e₂ e₁
  sort_by_name-perm (Permᴰ.trans p q) h =
      sort_by_name-perm p h ∙ sort_by_name-perm q (Distinct-names-perm p h)

  -- Each name stands before those behind it.
  abbrev pub SortedNames : List (String × V) → Type 0
  SortedNames [] = Unit
  SortedNames (x ∷ xs) = All (NameLe x.0) (names xs) × SortedNames xs

  All-insert_named {κ} :
      (P : String → Type κ) (x : String × V) (xs : List (String × V))
      → P x.0
      → All P (names xs)
      → All P (names (insert_named x xs))
  unfolding insert_named
  All-insert_named P (k, v) [] h _ = (h, tt)
  All-insert_named P (k, v) ((j, w) ∷ xs) h (q, hs) =
      ground (arith, All-insert_named P (k, v) xs h hs)

  All-sort_by_name {κ} :
      (P : String → Type κ) (xs : List (String × V))
      → All P (names xs)
      → All P (names (sort_by_name xs))
  unfolding sort_by_name
  All-sort_by_name P [] h = h
  All-sort_by_name P (x ∷ xs) (h, hs) =
      All-insert_named P x (sort_by_name xs) h (All-sort_by_name P xs hs)

  insert_named-SortedNames :
      (x : String × V) (xs : List (String × V)) → SortedNames xs → SortedNames (insert_named x xs)
  unfolding insert_named
  insert_named-SortedNames (k, v) [] _ = (tt, tt)
  insert_named-SortedNames (k, v) ((j, w) ∷ xs) (h, hs) = elim (Bool-cases (str_ltb k j)) [
    | inl less ↦
        let kj = str_ltb_asym k j less in
        rw less ((kj, All-imp _ _ (names xs) (λ y. NameLe-trans k j y kj) h), (h, hs))
    | inr more ↦
        rw more
          (All-insert_named (NameLe j) (k, v) xs more h, insert_named-SortedNames (k, v) xs hs)
  ]

  pub sort_by_name-SortedNames : (xs : List (String × V)) → SortedNames (sort_by_name xs)
  unfolding sort_by_name
  sort_by_name-SortedNames [] = tt
  sort_by_name-SortedNames (x ∷ xs) =
      insert_named-SortedNames x (sort_by_name xs) (sort_by_name-SortedNames xs)

  insert_named-perm : (x : String × V) (xs : List (String × V)) → Permᴰ (x ∷ xs) (insert_named x xs)
  unfolding insert_named
  insert_named-perm (k, v) [] = Permᴰ.cons refl Permᴰ.nil
  insert_named-perm (k, v) ((j, w) ∷ xs) = elim (Bool-cases (str_ltb k j)) [
    | inl less ↦ rw less (PermD.refl _)
    | inr more ↦
        rw more (Permᴰ.trans (Permᴰ.swap refl refl) (Permᴰ.cons refl (insert_named-perm (k, v) xs)))
  ]

  -- Sorting keeps the entries, each as often as it was.
  pub sort_by_name_perm : (xs : List (String × V)) → Permᴰ xs (sort_by_name xs)
  unfolding sort_by_name
  sort_by_name_perm [] = Permᴰ.nil
  sort_by_name_perm (x ∷ xs) =
      Permᴰ.trans (Permᴰ.cons refl (sort_by_name_perm xs)) (insert_named-perm x (sort_by_name xs))
