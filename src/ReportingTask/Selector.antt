-- ===== src/ReportingTask/Selector.antt =====
-- getReportingTaskServiceSelectorPod of internal/controller/reporting_task/service.go: which pod the
-- Service selects, and that the order of the map does not matter.
use mathlib.Core.List.{Permᴰ}
use text.Mathlib.TextPositions.{compare_refl}
use nifi_operator.Common.{
  String, ◌<>◌, List, [], ◌∷◌, ◌≡◌, ◌≢◌, refl, ◌⊎◌, inl, inr, arith, ok, err, All, Distinct, eq_iff,
  eq_refl,
}
use nifi_operator.Common.Ordered.{
  str_ltb, NameLe, names, sort_by_name, sort_by_name-perm, sort_by_name_perm, SortedNames,
  sort_by_name-SortedNames, All-names-perm,
}
use nifi_operator.Api.{RoleGroupSpec}
use nifi_operator.ReportingTask.{select_role_group, get_reporting_task_service_selector_pod}
use nifi_operator.ReportingTask.Candidates.{
  scaled, first_choice, candidates, IsFirstName, length-perm, scaled-perm, first_choice-perm,
  IsFirstName-perm,
}

NameLe-refl : (n : String) → NameLe n n
NameLe-refl n = rw (compare_refl n, str_ltb)

module _ {Overrides : Type 0} where
  -- Two runs that meet the entries of the map in different orders select the same pod, or fail
  -- alike, where the names of the groups are distinct.
  pub get_reporting_task_service_selector_pod-perm :
      (cluster_name : String) {xs ys : List (String × RoleGroupSpec Overrides)}
      → Permᴰ xs ys
      → Distinct (names xs)
      → get_reporting_task_service_selector_pod cluster_name xs
        ≡ get_reporting_task_service_selector_pod cluster_name ys
  unfolding get_reporting_task_service_selector_pod
  get_reporting_task_service_selector_pod-perm cluster_name p d = rw (sort_by_name-perm p d)

  abbrev head_name : String → List (String × RoleGroupSpec Overrides) → String
  head_name d [] = d
  head_name d ((name, _) ∷ _) = name

  select_role_group-head_name :
      (s : String) (xs : List (String × RoleGroupSpec Overrides))
      → s ≢ ""
      → select_role_group s xs ≡ head_name s (scaled xs)
  unfolding select_role_group
  select_role_group-head_name s [] ne = refl
  select_role_group-head_name s ((name, rg) ∷ xs) ne =
      ground (arith, eq_iff s "", select_role_group-head_name s xs ne)

  select_role_group-candidates :
      (name : String) (rg : RoleGroupSpec Overrides) (xs : List (String × RoleGroupSpec Overrides))
      → name ≢ ""
      → select_role_group "" ((name, rg) ∷ xs) ≡ head_name "" (candidates ((name, rg) ∷ xs))
  unfolding select_role_group
  select_role_group-candidates name rg xs ne =
      ground (arith, select_role_group-head_name name xs ne)

  All-names-scaled :
      (P : String → Type 0) (xs : List (String × RoleGroupSpec Overrides))
      → All P (names xs)
      → All P (names (scaled xs))
  All-names-scaled P [] h = h
  All-names-scaled P ((name, rg) ∷ xs) (h, hs) = ground (arith, All-names-scaled P xs hs)

  scaled-SortedNames :
      (xs : List (String × RoleGroupSpec Overrides)) → SortedNames xs → SortedNames (scaled xs)
  scaled-SortedNames [] h = h
  scaled-SortedNames ((name, rg) ∷ xs) (h, hs) =
      ground (arith, scaled-SortedNames xs hs, All-names-scaled (NameLe name) xs h)

  first_choice-SortedNames :
      (xs ys : List (String × RoleGroupSpec Overrides))
      → SortedNames xs
      → SortedNames ys
      → SortedNames (first_choice xs ys)
  first_choice-SortedNames xs [] h k = h
  first_choice-SortedNames xs (y ∷ ys) h k = k

  head_name-IsFirstName :
      (x : String × RoleGroupSpec Overrides) (xs : List (String × RoleGroupSpec Overrides))
      → SortedNames (x ∷ xs)
      → IsFirstName x.0 (x ∷ xs)
  head_name-IsFirstName (n, rg) xs (h, _) = (ground (arith, eq_refl n), (NameLe-refl n, h))

  head_name-first_choice :
      (x : String × RoleGroupSpec Overrides) (xs ys : List (String × RoleGroupSpec Overrides))
      → SortedNames (first_choice (x ∷ xs) ys)
      → All (λ n. n ≢ "") (names (first_choice (x ∷ xs) ys))
      → (head_name "" (first_choice (x ∷ xs) ys) ≢ "")
        × IsFirstName (head_name "" (first_choice (x ∷ xs) ys)) (first_choice (x ∷ xs) ys)
  head_name-first_choice x xs [] h (ne, _) = (ne, head_name-IsFirstName x xs h)
  head_name-first_choice x xs (y ∷ ys) h (ne, _) = (ne, head_name-IsFirstName y ys h)

  All-names-first_choice :
      (P : String → Type 0) (xs ys : List (String × RoleGroupSpec Overrides))
      → All P (names xs)
      → All P (names ys)
      → All P (names (first_choice xs ys))
  All-names-first_choice P xs [] h k = h
  All-names-first_choice P xs (y ∷ ys) h k = k

  -- The outcome of the loop over a sorted copy of the groups.
  Selected : List (String × RoleGroupSpec Overrides) → String → Type 0
  Selected groups name =
      ((groups ≡ []) × (name ≡ "")) ⊎ ((name ≢ "") × IsFirstName name (candidates groups))

  select_role_group-Selected :
      (groups s : List (String × RoleGroupSpec Overrides))
      → Permᴰ groups s
      → SortedNames s
      → All (λ n. n ≢ "") (names s)
      → Selected groups (select_role_group "" s)
  unfolding Selected select_role_group
  select_role_group-Selected [] [] p h ne = inl (refl, refl)
  select_role_group-Selected [] (y ∷ s) p h ne = absurd (omega (arith, length-perm p))
  select_role_group-Selected (x ∷ groups) [] p h ne = absurd (omega (arith, length-perm p))
  select_role_group-Selected (x ∷ groups) ((n, rg) ∷ s) p h ne =
      let sorted = (n, rg) ∷ s in
      let (filled, first) =
        head_name-first_choice (n, rg) s (scaled sorted)
          (first_choice-SortedNames sorted (scaled sorted) h (scaled-SortedNames sorted h))
          (All-names-first_choice _ sorted (scaled sorted) ne (All-names-scaled _ sorted ne)) in
      rw (select_role_group-candidates n rg s ne.0) (
        inr (
          filled,
          IsFirstName-perm _
              (first_choice-perm (x ∷ groups) sorted (scaled (x ∷ groups)) (scaled sorted) p
                (scaled-perm p))
              first,
        ))

  -- Where no group has an empty name: without groups the call fails with the error of the source,
  -- and with groups it gives pod 0 of one group, whose name is the first in the order of texts among
  -- the groups that run at least one replica, or among all groups if none runs any.
  pub get_reporting_task_service_selector_pod_lem :
      (cluster_name : String) (groups : List (String × RoleGroupSpec Overrides))
      → All (λ n. n ≢ "") (names groups)
      → ((groups ≡ [])
          × (get_reporting_task_service_selector_pod cluster_name groups
              ≡ err "no role groups defined for reporting task service"))
        ⊎ ((name : String) × (get_reporting_task_service_selector_pod cluster_name groups
              ≡ ok (cluster_name <> "-node-" <> name <> "-0"))
            × IsFirstName name (candidates groups))
  unfolding get_reporting_task_service_selector_pod Selected
  get_reporting_task_service_selector_pod_lem cluster_name groups ne =
      let p = sort_by_name_perm groups in
      elim (select_role_group-Selected groups (sort_by_name groups) p
        (sort_by_name-SortedNames groups) (All-names-perm _ p ne)) [
          | inl (none_given, empty) ↦ inl (none_given, rw empty)
          | inr (filled, first) ↦ inr (
            select_role_group "" (sort_by_name groups),
            ground (arith, eq_iff (select_role_group "" (sort_by_name groups)) ""),
            first,
          )
        ]
