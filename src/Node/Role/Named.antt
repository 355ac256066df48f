-- ===== src/Node/Role/Named.antt =====
-- The names of the resources that internal/controller/node/role.go registers, group by group.
use mathlib.Core.List.{append-nil, append_assoc}
use nifi_operator.Common.{
  values, values-append, deref-eq-ok, String, Option, some, List, [], ◌∷◌, ◌++◌, map, ℤ, ◌≡◌, refl,
  sym, ◌∙◌, ap, ok, wrap, deref, ok-inj, >>=-eq-ok,
}
use nifi_operator.Common.Ordered.{names}
use nifi_operator.Api.{ClusterConfigSpec, ConfigSpec, RoleGroupSpec, NodesSpec}
use nifi_operator.OperatorGo.{OperatorGo}
use nifi_operator.Security.{AuthenticatorType, ldap, oidc, static_user}
use nifi_operator.Security.Authentication.{Authenticator, Authentication}
use nifi_operator.Security.Secrets.{SecretReconciler}
use nifi_operator.Node.StatefulSet.{StatefulSetBuilder}
use nifi_operator.Node.StatefulSet.Build.{new_stateful_set_builder}
use nifi_operator.Node.Role.{
  RoleGroupResource, config_map, stateful_set, service, admin_secret, RoleReconciler,
  get_authentication, admin_secrets, role_group_resources, register_resource_with_role_group,
  register_role_groups, register_resources,
}
use nifi_operator.Node.Role.Registered.{builder-Fits}

module _ {Overrides : Type 0} (o : OperatorGo) where
  abbrev pub stateful_set_name : RoleGroupResource Overrides → List String
  stateful_set_name (config_map _) = []
  stateful_set_name (stateful_set b _ _ _ _) = b.name ∷ []
  stateful_set_name (service _) = []
  stateful_set_name (admin_secret _) = []

  abbrev pub service_name : RoleGroupResource Overrides → List String
  service_name (config_map _) = []
  service_name (stateful_set _ _ _ _ _) = []
  service_name (service s) = s.name ∷ []
  service_name (admin_secret _) = []

  abbrev pub config_map_name : RoleGroupResource Overrides → List String
  config_map_name (config_map m) = o.get_full_name m.cluster_name m.role_name m.role_group_name ∷ []
  config_map_name (stateful_set _ _ _ _ _) = []
  config_map_name (service _) = []
  config_map_name (admin_secret _) = []

module _ {Overrides : Type 0} (o : OperatorGo) (r : RoleReconciler Overrides) where
  abbrev pub full_names : List (String × RoleGroupSpec Overrides) → List String
  full_names groups = map (o.get_full_name r.cluster_name r.role_name) (names groups)

  -- What each resource is asked for: one name for each group, none for a secret.
  IsPerGroup : (RoleGroupResource Overrides → List String) → Type 0
  IsPerGroup f =
      ((c : ClusterConfigSpec) (a : Authentication) (b : StatefulSetBuilder) (replicas : Option ℤ)
          (group : String) (overrides : Option Overrides) (config : Option ConfigSpec)
        → b.name ≡ o.get_full_name r.cluster_name r.role_name group
        → values f (role_group_resources o r c a b replicas group overrides config)
          ≡ o.get_full_name r.cluster_name r.role_name group ∷ [])

  no_values :
      (f : RoleGroupResource Overrides → List String)
      → ((x : SecretReconciler) → f (admin_secret x) ≡ [])
      → (m : List (AuthenticatorType × List Authenticator))
      → values f (admin_secrets r.cluster_name m) ≡ []
  unfolding admin_secrets
  no_values f h [] = refl
  no_values f h ((ldap, _) ∷ m) = rw (h _, no_values f h m)
  no_values f h ((oidc, _) ∷ m) = no_values f h m
  no_values f h ((static_user, _) ∷ m) = no_values f h m

  stateful_set_name-IsPerGroup : IsPerGroup (stateful_set_name o)
  unfolding IsPerGroup role_group_resources
  stateful_set_name-IsPerGroup c a b replicas group overrides config e =
      rw (e, no_values (stateful_set_name o) (λ _. refl) a.authenticators)

  service_name-IsPerGroup : IsPerGroup (service_name o)
  unfolding IsPerGroup role_group_resources
  service_name-IsPerGroup c a b replicas group overrides config e =
      rw (no_values (service_name o) (λ _. refl) a.authenticators)

  config_map_name-IsPerGroup : IsPerGroup (config_map_name o)
  unfolding IsPerGroup role_group_resources
  config_map_name-IsPerGroup c a b replicas group overrides config e =
      rw (no_values (config_map_name o) (λ _. refl) a.authenticators)

  group_values :
      (f : RoleGroupResource Overrides → List String)
      → IsPerGroup f
      → (replicas : Option ℤ) (group : String) (overrides : Option Overrides)
        (config : Option ConfigSpec) (xs : List (RoleGroupResource Overrides))
      → register_resource_with_role_group o r replicas group overrides config ≡ ok xs
      → values f xs ≡ o.get_full_name r.cluster_name r.role_name group ∷ []
  unfolding register_resource_with_role_group IsPerGroup
  group_values f per replicas group overrides config xs e =
      let load = get_authentication r.get r.cluster_name r.cluster_config in
      let (auth, _, e1) = >>=-eq-ok (wrap "failed to get authentication: " load) _ e in
      let (c, _, e2) = >>=-eq-ok (deref r.cluster_config) _ e1 in
      let name = o.get_full_name r.cluster_name r.role_name group in
      let (b, built, e3) =
        >>=-eq-ok (new_stateful_set_builder name r.cluster_name r.role_name c (some r.image) auth) _
          e2 in
      let (a, _, last) = >>=-eq-ok (deref auth) _ e3 in
      let (_, _, _, _, named) = builder-Fits o r c auth name b built in
      ap (values f) (sym (ok-inj last)) ∙ per c a b replicas group overrides config named

  groups_values :
      (f : RoleGroupResource Overrides → List String)
      → IsPerGroup f
      → (spec : NodesSpec Overrides) (groups : List (String × RoleGroupSpec Overrides))
        (added xs : List (RoleGroupResource Overrides))
      → register_role_groups o r spec groups added ≡ ok xs
      → values f xs ≡ values f added ++ full_names groups
  unfolding register_role_groups
  groups_values f per spec [] added xs e =
      ap (values f) (sym (ok-inj e)) ∙ sym (append-nil (values f added))
  groups_values f per spec ((name, rg) ∷ more) added xs e =
      let (config, _, e1) = >>=-eq-ok (r.merge_config spec.config rg.config) _ e in
      let (overrides, _, e2) = >>=-eq-ok (r.merge_overrides spec.overrides rg.overrides) _ e1 in
      let (new, made, e3) =
        >>=-eq-ok (register_resource_with_role_group o r rg.replicas name overrides config) _ e2 in
      let own = group_values f per rg.replicas name overrides config new made in
      groups_values f per spec more (added ++ new) xs e3
      ∙ ap (λ l. l ++ full_names more)
          (values-append f added new ∙ ap (λ l. values f added ++ l) own)
      ∙ append_assoc (values f added) _ (full_names more)

  -- Of any role: if its resources are registered, there is exactly one ConfigMap, one StatefulSet and
  -- one Service for each role group, in the groups' order, and each has the full name of its group.
  pub register_resources-full_names :
      (xs : List (RoleGroupResource Overrides))
      → register_resources o r ≡ ok xs
      → (spec : NodesSpec Overrides) × (r.spec ≡ some spec)
        × (values (config_map_name o) xs ≡ full_names spec.role_groups)
        × (values (stateful_set_name o) xs ≡ full_names spec.role_groups)
        × (values (service_name o) xs ≡ full_names spec.role_groups)
  unfolding register_resources
  register_resources-full_names xs e =
      let (spec, given, run) = >>=-eq-ok (deref r.spec) _ e in
      (
        spec,
        deref-eq-ok r.spec given,
        groups_values (config_map_name o) config_map_name-IsPerGroup spec spec.role_groups [] xs
            run,
        groups_values (stateful_set_name o) stateful_set_name-IsPerGroup spec spec.role_groups [] xs
            run,
        groups_values (service_name o) service_name-IsPerGroup spec spec.role_groups [] xs run,
      )
