-- ===== src/ReportingTask/Candidates.antt =====
-- The role groups that getReportingTaskServiceSelectorPod of
-- internal/controller/reporting_task/service.go chooses among, in any order of the map.
use mathlib.Core.List.{Permᴰ}
use mathlib.Core.List.Permᴰ as PermD
use mathlib.Core.Path.{subst, subst₂, ap₂}
use nifi_operator.Common.{
  suc, length, ◌||◌, String, Bool, true, false, List, [], ◌∷◌, ◌≡◌, refl, ap, ◌∙◌, arith, All,
  contains, ◌==◌, if◌then◌else◌,
}
use nifi_operator.Common.Ordered.{NameLe, names, All-names-perm}
use nifi_operator.Api.{RoleGroupSpec}
use nifi_operator.ReportingTask.{has_replicas}

or_swap : (a b c : Bool) → (a || (b || c)) ≡ (b || (a || c))
or_swap a b c = ground arith

module _ {Overrides : Type 0} where
  -- The groups that run at least one replica.
  abbrev pub scaled :
      List (String × RoleGroupSpec Overrides) → List (String × RoleGroupSpec Overrides)
  scaled [] = []
  scaled ((name, rg) ∷ more) =
      let rest = scaled more in if has_replicas rg then (name, rg) ∷ rest else rest

  -- The groups to choose from: those with replicas, and all of them if none has any.
  abbrev pub first_choice :
      List (String × RoleGroupSpec Overrides)
      → List (String × RoleGroupSpec Overrides)
      → List (String × RoleGroupSpec Overrides)
  first_choice groups [] = groups
  first_choice groups (g ∷ gs) = g ∷ gs

  abbrev pub candidates :
      List (String × RoleGroupSpec Overrides) → List (String × RoleGroupSpec Overrides)
  candidates groups = first_choice groups (scaled groups)

  -- `name` is that of a group in the list, and none of the list's names comes before it.
  abbrev pub IsFirstName : String → List (String × RoleGroupSpec Overrides) → Type 0
  IsFirstName name groups = (contains (names groups) name ≡ true) × All (NameLe name) (names groups)

  pub length-perm :
      {xs ys : List (String × RoleGroupSpec Overrides)} → Permᴰ xs ys → length xs ≡ length ys
  length-perm Permᴰ.nil = refl
  length-perm (Permᴰ.cons e p) = ap suc (length-perm p)
  length-perm (Permᴰ.swap e₁ e₂) = refl
  length-perm (Permᴰ.trans p q) = length-perm p ∙ length-perm q

  scaled_cons :
      (x : String × RoleGroupSpec Overrides) (xs ys : List (String × RoleGroupSpec Overrides))
      → Permᴰ (scaled xs) (scaled ys)
      → Permᴰ (scaled (x ∷ xs)) (scaled (x ∷ ys))
  scaled_cons (n, rg) xs ys p = choose (has_replicas rg)
    where
      choose :
          (b : Bool)
          → Permᴰ
              (if b then (n, rg) ∷ scaled xs else scaled xs)
              (if b then (n, rg) ∷ scaled ys else scaled ys)
      choose true = Permᴰ.cons refl p
      choose false = p

  scaled_swap :
      (x y : String × RoleGroupSpec Overrides) (l : List (String × RoleGroupSpec Overrides))
      → Permᴰ (scaled (x ∷ y ∷ l)) (scaled (y ∷ x ∷ l))
  scaled_swap (n, rg) (m, sg) l = choose (has_replicas rg) (has_replicas sg)
    where
      choose :
          (b c : Bool)
          → let with_m = if c then (m, sg) ∷ scaled l else scaled l in
            let with_n = if b then (n, rg) ∷ scaled l else scaled l in
            Permᴰ (if b then (n, rg) ∷ with_m else with_m) (if c then (m, sg) ∷ with_n else with_n)
      choose true true = Permᴰ.swap refl refl
      choose true false = PermD.refl _
      choose false true = PermD.refl _
      choose false false = PermD.refl _

  pub scaled-perm :
      {xs ys : List (String × RoleGroupSpec Overrides)}
      → Permᴰ xs ys
      → Permᴰ (scaled xs) (scaled ys)
  scaled-perm Permᴰ.nil = Permᴰ.nil
  scaled-perm (Permᴰ.cons {a} {l₁} {l₂} e p) =
      subst (λ (x : String × RoleGroupSpec Overrides). Permᴰ (scaled (a ∷ l₁)) (scaled (x ∷ l₂))) e
        (scaled_cons a l₁ l₂ (scaled-perm p))
  scaled-perm (Permᴰ.swap {a} {b} {l} e₁ e₂) =
      subst₂
        (λ (x y : String × RoleGroupSpec Overrides).
          Permᴰ (scaled (a ∷ b ∷ l)) (scaled (x ∷ y ∷ l)))
        e₂ e₁ (scaled_swap a b l)
  scaled-perm (Permᴰ.trans p q) = Permᴰ.trans (scaled-perm p) (scaled-perm q)

  pub first_choice-perm :
      (xs ys s t : List (String × RoleGroupSpec Overrides))
      → Permᴰ xs ys
      → Permᴰ s t
      → Permᴰ (first_choice xs s) (first_choice ys t)
  first_choice-perm xs ys [] [] p q = p
  first_choice-perm xs ys [] (y ∷ t) p q = absurd (omega (arith, length-perm q))
  first_choice-perm xs ys (x ∷ s) [] p q = absurd (omega (arith, length-perm q))
  first_choice-perm xs ys (x ∷ s) (y ∷ t) p q = q

  contains-names-perm :
      (n : String) {xs ys : List (String × RoleGroupSpec Overrides)}
      → Permᴰ xs ys
      → contains (names xs) n ≡ contains (names ys) n
  contains-names-perm n Permᴰ.nil = refl
  contains-names-perm n (Permᴰ.cons e p) =
      ap₂ (λ (x : String × RoleGroupSpec Overrides) (b : Bool). x.0 == n || b) e
        (contains-names-perm n p)
  contains-names-perm n (Permᴰ.swap {a} {b} {l} e₁ e₂) =
      or_swap (a.0 == n) (b.0 == n) (contains (names l) n)
      ∙ ap₂
          (λ (x y : String × RoleGroupSpec Overrides).
            x.0 == n || (y.0 == n || contains (names l) n))
          e₂ e₁
  contains-names-perm n (Permᴰ.trans p q) = contains-names-perm n p ∙ contains-names-perm n q

  pub IsFirstName-perm :
      (n : String) {xs ys : List (String × RoleGroupSpec Overrides)}
      → Permᴰ xs ys
      → IsFirstName n ys
      → IsFirstName n xs
  IsFirstName-perm n p (c, h) =
      (contains-names-perm n p ∙ c, All-names-perm (NameLe n) (PermD.symm p) h)
