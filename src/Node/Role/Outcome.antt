-- ===== src/Node/Role/Outcome.antt =====
-- How RegisterResources of internal/controller/node/role.go ends, by the configuration.
use nifi_operator.Common.{
  String, Option, none, some, List, [], ◌∷◌, ◌++◌, ℤ, ◌≡◌, refl, sym, ◌∙◌, inl, inr, Result, ok,
  err, panic, ◌>>=◌, wrap, deref, Option-cases, Status, succeeds, panics, status,
}
use nifi_operator.Api.{ClusterConfigSpec, ConfigSpec, RoleGroupSpec, NodesSpec}
use nifi_operator.OperatorGo.{OperatorGo}
use nifi_operator.Security.Authentication.{Authentication, new_authentication}
use nifi_operator.GitSync.{new_git_sync_resources}
use nifi_operator.Node.StatefulSet.Build.{new_stateful_set_builder}
use nifi_operator.Node.Role.{
  RoleGroupResource, RoleReconciler, get_authentication, register_resource_with_role_group,
  register_role_groups, register_resources,
}

-- The library merges any two values.
pub record IsMerging {Overrides : Type 0} (r : RoleReconciler Overrides) : Type 0 where
  pub config_merged :
      (base own : Option ConfigSpec) → (c : Option ConfigSpec) × (r.merge_config base own ≡ ok c)
  pub overrides_merged :
      (base own : Option Overrides) → (c : Option Overrides) × (r.merge_overrides base own ≡ ok c)

module _ {Overrides : Type 0} where
  -- How the registration of any one group ends.
  abbrev pub group_status : RoleReconciler Overrides → Status
  group_status r = elim r.cluster_config [
    | none ↦ panics
    | some c ↦ elim c.authentication [
      | none ↦ panics
      | some specs ↦ status (
          wrap "failed to get authentication: " (
            wrap "failed to create authentication: "
              (new_authentication r.get r.cluster_name specs)))
    ]
  ]

  -- How the registration of the role ends.
  abbrev pub role_status : RoleReconciler Overrides → Status
  role_status r = elim r.spec [
    | none ↦ panics
    | some spec ↦ elim spec.role_groups [ [] ↦ succeeds | _ ∷ _ ↦ group_status r ]
  ]

module _ {Overrides : Type 0} (o : OperatorGo) (r : RoleReconciler Overrides) where
  authenticated_status :
      (m : Result Authentication) (replicas : Option ℤ) (group : String)
      (overrides : Option Overrides) (config : Option ConfigSpec) (c : ClusterConfigSpec)
      → r.cluster_config ≡ some c
      → get_authentication r.get r.cluster_name (some c)
        ≡ (wrap "failed to create authentication: " m >>= λ a. ok (some a))
      → status (register_resource_with_role_group o r replicas group overrides config)
        ≡ status
            (wrap "failed to get authentication: " (wrap "failed to create authentication: " m))
  unfolding register_resource_with_role_group new_stateful_set_builder new_git_sync_resources
  authenticated_status (ok a) replicas group overrides config c given loaded =
      rw (register_resource_with_role_group, given, loaded)
  authenticated_status (err e) replicas group overrides config c given loaded =
      rw (register_resource_with_role_group, given, loaded)
  authenticated_status panic replicas group overrides config c given loaded =
      rw (register_resource_with_role_group, given, loaded)

  group_status_lem :
      (replicas : Option ℤ) (group : String) (overrides : Option Overrides)
      (config : Option ConfigSpec)
      → status (register_resource_with_role_group o r replicas group overrides config)
        ≡ group_status r
  unfolding register_resource_with_role_group new_stateful_set_builder new_git_sync_resources
      get_authentication
  group_status_lem replicas group overrides config = elim (Option-cases r.cluster_config) [
    | inl e ↦ rw (register_resource_with_role_group, group_status, e)
    | inr (c, e) ↦ elim (Option-cases c.authentication) [
      | inl none_given ↦
          rw (register_resource_with_role_group, group_status, e, none_given, get_authentication)
      | inr (specs, given) ↦
          authenticated_status (new_authentication r.get r.cluster_name specs) replicas group
            overrides config c e (rw (get_authentication, given))
          ∙ sym (rw (group_status, e, given))
    ]
  ]

  -- A loop over at least one group ends as each group does.
  module _ (merging : IsMerging r) where
    loop_status :
        (spec : NodesSpec Overrides) (groups : List (String × RoleGroupSpec Overrides))
        (added : List (RoleGroupResource Overrides))
        → status (register_role_groups o r spec groups added)
          ≡ elim groups [ [] ↦ succeeds | _ ∷ _ ↦ group_status r ]
    unfolding register_role_groups
    loop_status spec [] added = refl
    loop_status spec ((name, rg) ∷ more) added =
        let (config, merged) = merging.config_merged spec.config rg.config in
        let (overrides, merged') = merging.overrides_merged spec.overrides rg.overrides in
        rw (merged, merged')
          (go more (register_resource_with_role_group o r rg.replicas name overrides config)
            (group_status_lem rg.replicas name overrides config)
            (λ new. loop_status spec more (added ++ new)))
      where
        go :
            (more : List (String × RoleGroupSpec Overrides))
            (m : Result (List (RoleGroupResource Overrides)))
            → status m ≡ group_status r
            → ((new : List (RoleGroupResource Overrides))
                → status (register_role_groups o r spec more (added ++ new))
                  ≡ elim more [ [] ↦ succeeds | _ ∷ _ ↦ group_status r ])
            → status (m >>= λ new. register_role_groups o r spec more (added ++ new))
              ≡ group_status r
        go [] (ok new) e rest = e
        go (g ∷ gs) (ok new) e rest = rest new
        go more (err t) e rest = e
        go more panic e rest = e

    -- Where any two values are merged: the registration of a role without groups succeeds. With
    -- groups it ends as the creation of the authentication does, with the two texts of the callers in
    -- front of an error, if the cluster configuration names an authentication; and in a nil pointer
    -- if it names none, if there is no cluster configuration, or if there is no specification.
    pub register_resources-status : status (register_resources o r) ≡ role_status r
    unfolding register_resources
    register_resources-status = go r.spec
      where
        go :
            (s : Option (NodesSpec Overrides))
            → status (deref s >>= λ spec. register_role_groups o r spec spec.role_groups [])
              ≡ elim s [
                | none ↦ panics
                | some spec ↦ elim spec.role_groups [ [] ↦ succeeds | _ ∷ _ ↦ group_status r ]
              ]
        go none = refl
        go (some spec) = loop_status spec spec.role_groups []
