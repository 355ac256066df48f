-- ===== src/Node/Role/Registered.antt =====
-- That the resources of a role group, registered by internal/controller/node/role.go, fit together.
use nifi_operator.Common.{
  wrap-eq-ok, deref-eq-ok, String, true, Option, some, List, [], ◌∷◌, ◌++◌, ℤ, ◌≡◌, refl, sym, ◌∙◌,
  ap, inl, inr, ok, wrap, deref, ok-inj, >>=-eq-ok, is_some, All, All-append, All-imp, Option-cases,
  subst,
}
use nifi_operator.Api.{ClusterConfigSpec, ConfigSpec, RoleGroupSpec, NodesSpec}
use nifi_operator.GitSync.{new_git_sync_resources}
use nifi_operator.OperatorGo.{OperatorGo}
use nifi_operator.Security.{AuthenticatorType, ldap, oidc, static_user}
use nifi_operator.Security.Oidc.{oidc_admin_password_secretname}
use nifi_operator.Security.Secrets.{secret_name, new_admin_secret_reconciler}
use nifi_operator.Security.Authentication.{Authenticator, Authentication}
use nifi_operator.Node.{ports}
use nifi_operator.Node.StatefulSet.{StatefulSetBuilder}
use nifi_operator.Node.StatefulSet.Build.{new_stateful_set_builder}
use nifi_operator.Node.Role.{
  RoleGroupResource, config_map, stateful_set, service, admin_secret, RoleReconciler,
  get_authentication, admin_secrets, role_group_resources, register_resource_with_role_group,
  register_role_groups, register_resources,
}

module _ {Overrides : Type 0} (o : OperatorGo) (r : RoleReconciler Overrides) where
  -- One resource of a group, for a cluster configuration and an authentication that all share.
  abbrev pub Fits :
      ClusterConfigSpec → Authentication → String → RoleGroupResource Overrides → Type 0
  Fits c a group (config_map m) =
      (m.cluster_config ≡ c)
      × (m.authentication ≡ some a)
      × (m.image ≡ some r.image)
      × (m.cluster_name ≡ r.cluster_name)
      × (o.get_full_name m.cluster_name m.role_name m.role_group_name
          ≡ o.get_full_name r.cluster_name r.role_name group)
  Fits c a group (stateful_set b _ stopped _ _) =
      (b.cluster_config ≡ c)
      × (b.authentication ≡ some a)
      × (b.image ≡ some r.image)
      × (b.cluster_name ≡ r.cluster_name)
      × (b.name ≡ o.get_full_name r.cluster_name r.role_name group)
      × (stopped ≡ r.cluster_stopped)
      × (new_stateful_set_builder b.name r.cluster_name r.role_name c (some r.image) (some a)
          ≡ ok b)
  Fits c a group (service s) =
      (s.name ≡ o.get_full_name r.cluster_name r.role_name group)
      × (s.ports ≡ ports)
      × (s.headless ≡ true)
  Fits c a group (admin_secret x) = secret_name x ≡ oidc_admin_password_secretname r.cluster_name

  -- A resource of some group, where the cluster configuration names an authentication that is loaded.
  abbrev pub Registered : RoleGroupResource Overrides → Type 0
  Registered x =
      (c : ClusterConfigSpec) × (a : Authentication) × (group : String) × (r.cluster_config
        ≡ some c)
      × (is_some c.authentication ≡ true)
      × (get_authentication r.get r.cluster_name (some c) ≡ ok (some a))
      × Fits c a group x

  admin_secrets-Fits :
      (c : ClusterConfigSpec) (a : Authentication) (group : String)
      (m : List (AuthenticatorType × List Authenticator))
      → All (Fits c a group) (admin_secrets r.cluster_name m)
  unfolding admin_secrets new_admin_secret_reconciler
  admin_secrets-Fits c a group [] = tt
  admin_secrets-Fits c a group ((ldap, _) ∷ m) = (refl, admin_secrets-Fits c a group m)
  admin_secrets-Fits c a group ((oidc, _) ∷ m) = admin_secrets-Fits c a group m
  admin_secrets-Fits c a group ((static_user, _) ∷ m) = admin_secrets-Fits c a group m

  pub builder-Fits :
      (c : ClusterConfigSpec) (auth : Option Authentication) (name : String)
      (b : StatefulSetBuilder)
      → new_stateful_set_builder name r.cluster_name r.role_name c (some r.image) auth ≡ ok b
      → (b.cluster_config ≡ c)
        × (b.authentication ≡ auth)
        × (b.image ≡ some r.image)
        × (b.cluster_name ≡ r.cluster_name)
        × (b.name ≡ name)
  unfolding new_stateful_set_builder
  builder-Fits c auth name b e =
      let (_, _, last) =
        >>=-eq-ok
          (wrap "building git-sync resources: "
            (new_git_sync_resources c.custom_components_git_sync))
          _ e in
      let same = sym (ok-inj last) in
      (
        ap (λ x. x.cluster_config) same,
        ap (λ x. x.authentication) same,
        ap (λ x. x.image) same,
        ap (λ x. x.cluster_name) same,
        ap (λ x. x.name) same,
      )

  -- Without an authentication in the configuration there is none.
  pub get_authentication-is_some :
      (c : ClusterConfigSpec) (a : Authentication)
      → get_authentication r.get r.cluster_name (some c) ≡ ok (some a)
      → is_some c.authentication ≡ true
  unfolding get_authentication
  get_authentication-is_some c a e = elim (Option-cases c.authentication) [
    | inl given ↦ cc (rw (given, get_authentication) at e)
    | inr (specs, given) ↦ rw given
  ]

  pub resources-Fits :
      (c : ClusterConfigSpec) (a : Authentication) (b : StatefulSetBuilder) (replicas : Option ℤ)
      (group : String) (overrides : Option Overrides) (config : Option ConfigSpec)
      → Fits c a group (stateful_set b replicas r.cluster_stopped overrides config)
      → All (Fits c a group) (role_group_resources o r c a b replicas group overrides config)
  unfolding role_group_resources
  resources-Fits c a b replicas group overrides config h = (
    (refl, refl, refl, refl, refl),
    (h, ((refl, refl, refl), admin_secrets-Fits c a group a.authenticators)),
  )

  -- What the registration of one group goes through where it succeeds.
  pub register_resource_with_role_group-parts :
      (replicas : Option ℤ) (group : String) (overrides : Option Overrides)
      (config : Option ConfigSpec) (xs : List (RoleGroupResource Overrides))
      → register_resource_with_role_group o r replicas group overrides config ≡ ok xs
      → (c : ClusterConfigSpec) × (a : Authentication) × (b : StatefulSetBuilder)
        × (r.cluster_config ≡ some c)
        × (get_authentication r.get r.cluster_name (some c) ≡ ok (some a))
        × Fits c a group (stateful_set b replicas r.cluster_stopped overrides config)
        × (xs ≡ role_group_resources o r c a b replicas group overrides config)
  unfolding register_resource_with_role_group
  register_resource_with_role_group-parts replicas group overrides config xs e =
      let load = get_authentication r.get r.cluster_name r.cluster_config in
      let (auth, loaded, e1) = >>=-eq-ok (wrap "failed to get authentication: " load) _ e in
      let (c, given, e2) = >>=-eq-ok (deref r.cluster_config) _ e1 in
      let name = o.get_full_name r.cluster_name r.role_name group in
      let (b, built, e3) =
        >>=-eq-ok (new_stateful_set_builder name r.cluster_name r.role_name c (some r.image) auth) _
          e2 in
      let (a, held, last) = >>=-eq-ok (deref auth) _ e3 in
      let there = deref-eq-ok r.cluster_config given in
      let has = deref-eq-ok auth held in
      let loaded' : get_authentication r.get r.cluster_name (some c) ≡ ok (some a) =
        rw (← there, ← has) (wrap-eq-ok "failed to get authentication: " load loaded) in
      let (f1, f2, f3, f4, f5) = builder-Fits c auth name b built in
      let built' =
        ap (λ n. new_stateful_set_builder n r.cluster_name r.role_name c (some r.image) (some a)) f5
        ∙ ap (new_stateful_set_builder name r.cluster_name r.role_name c (some r.image)) (sym has)
        ∙ built in
      (c, a, b, there, loaded', (f1, f2 ∙ has, f3, f4, f5, refl, built'), sym (ok-inj last))

  group-Registered :
      (replicas : Option ℤ) (group : String) (overrides : Option Overrides)
      (config : Option ConfigSpec) (xs : List (RoleGroupResource Overrides))
      → register_resource_with_role_group o r replicas group overrides config ≡ ok xs
      → All Registered xs
  group-Registered replicas group overrides config xs e =
      let (c, a, b, there, loaded, stateful, is) =
        register_resource_with_role_group-parts replicas group overrides config xs e in
      let fits = resources-Fits c a b replicas group overrides config stateful in
      let named = get_authentication-is_some c a loaded in
      let rs = role_group_resources o r c a b replicas group overrides config in
      subst (All Registered) (sym is) (
        All-imp (Fits c a group) Registered rs (λ x f. (c, a, group, there, named, loaded, f)) fits)

  role_groups-Registered :
      (spec : NodesSpec Overrides) (groups : List (String × RoleGroupSpec Overrides))
      (added xs : List (RoleGroupResource Overrides))
      → All Registered added
      → register_role_groups o r spec groups added ≡ ok xs
      → All Registered xs
  unfolding register_role_groups
  role_groups-Registered spec [] added xs h e = subst (All Registered) (ok-inj e) h
  role_groups-Registered spec ((name, rg) ∷ more) added xs h e =
      let (config, _, e1) = >>=-eq-ok (r.merge_config spec.config rg.config) _ e in
      let (overrides, _, e2) = >>=-eq-ok (r.merge_overrides spec.overrides rg.overrides) _ e1 in
      let (new, made, e3) =
        >>=-eq-ok (register_resource_with_role_group o r rg.replicas name overrides config) _ e2 in
      let fresh = group-Registered rg.replicas name overrides config new made in
      role_groups-Registered spec more (added ++ new) xs (All-append Registered added new h fresh)
        e3

  -- Of any role: if its resources are registered, each belongs to a group, under a cluster
  -- configuration that names an authentication and an authentication that was loaded for it. The
  -- ConfigMap and the StatefulSet of a group share these two, the image and the cluster's name; the
  -- ConfigMap has the name of the StatefulSet, whose pods mount it, and the headless Service has it
  -- too, with NiFi's ports; the StatefulSet's builder is the one that is made for them, and it is
  -- stopped just as the role is told; and a secret for the administrator bears the name that the pods
  -- of OIDC mount.
  pub register_resources-Registered :
      (xs : List (RoleGroupResource Overrides)) → register_resources o r ≡ ok xs → All Registered xs
  unfolding register_resources
  register_resources-Registered xs e =
      let (spec, _, run) = >>=-eq-ok (deref r.spec) _ e in
      role_groups-Registered spec spec.role_groups [] xs tt run
