-- ===== src/Node/Role/Grouped.antt =====
-- How the resources that internal/controller/node/role.go registers divide into those of the role
-- groups, and that the resources of one group belong together.
use mathlib.Core.List.{append_assoc, append-nil}
use nifi_operator.Common.{
  deref-eq-ok, String, true, Option, some, List, [], ◌∷◌, ◌++◌, map, ◌≡◌, refl, sym, ◌∙◌, ap, ok,
  deref, ok-inj, >>=-eq-ok, is_some, All, subst,
}
use nifi_operator.Api.{ClusterConfigSpec, ConfigSpec, RoleGroupSpec, NodesSpec}
use nifi_operator.OperatorGo.{OperatorGo, RoleGroupInfo}
use nifi_operator.Security.{AuthenticatorType, ldap, oidc, static_user}
use nifi_operator.Security.Secrets.{SecretReconciler, new_admin_secret_reconciler}
use nifi_operator.Security.Authentication.{Authenticator, Authentication}
use nifi_operator.Node.{ports, NifiConfigMapBuilder}
use nifi_operator.Node.ConfigMap.{new_config_reconciler}
use nifi_operator.Node.Service.{ServiceBuilder, new_service_reconciler}
use nifi_operator.Node.StatefulSet.{StatefulSetBuilder}
use nifi_operator.Node.Role.Registered.{
  Fits, resources-Fits, register_resource_with_role_group-parts, get_authentication-is_some,
}
use nifi_operator.Node.Role.{
  RoleGroupResource, config_map, stateful_set, service, admin_secret, RoleReconciler,
  get_authentication, admin_secrets, role_group_resources, register_resource_with_role_group,
  register_role_groups, register_resources,
}

module _ {Overrides : Type 0} (o : OperatorGo) (r : RoleReconciler Overrides) where
  -- The resources of a group that is called `name`, with its merged configuration and overrides.
  abbrev pub Belong :
      String
      → RoleGroupSpec Overrides
      → Option ConfigSpec
      → Option Overrides
      → List (RoleGroupResource Overrides)
      → Type 0
  Belong name rg config overrides own =
      (c : ClusterConfigSpec) × (a : Authentication) × (m : NifiConfigMapBuilder)
      × (b : StatefulSetBuilder) × (s : ServiceBuilder) × (secrets : List SecretReconciler)
      × (r.cluster_config ≡ some c)
      × (is_some c.authentication ≡ true)
      × (get_authentication r.get r.cluster_name (some c) ≡ ok (some a))
      × (own
          ≡ config_map m
            ∷ stateful_set b rg.replicas r.cluster_stopped overrides config
            ∷ service s
            ∷ map admin_secret secrets)
      × (m.role_group_name ≡ name)
      × (m.config ≡ config)
      × All (Fits o r c a name) own

  -- Resources that are, one group after the other, those of the groups.
  abbrev pub ByGroup :
      NodesSpec Overrides
      → List (String × RoleGroupSpec Overrides)
      → List (RoleGroupResource Overrides)
      → Type 0
  ByGroup spec [] xs = xs ≡ []
  ByGroup spec ((name, rg) ∷ more) xs =
      (own rest : List (RoleGroupResource Overrides)) × (config : Option ConfigSpec)
      × (overrides : Option Overrides) × (xs ≡ own ++ rest)
      × (r.merge_config spec.config rg.config ≡ ok config)
      × (r.merge_overrides spec.overrides rg.overrides ≡ ok overrides)
      × Belong name rg config overrides own
      × ByGroup spec more rest

  only_secrets :
      (m : List (AuthenticatorType × List Authenticator))
      → (secrets : List SecretReconciler) × (admin_secrets {Overrides = Overrides} r.cluster_name m
          ≡ map admin_secret secrets)
  unfolding admin_secrets
  only_secrets [] = ([], refl)
  only_secrets ((ldap, _) ∷ m) =
      let (secrets, same) = only_secrets m in
      let x = new_admin_secret_reconciler r.cluster_name in
      (x ∷ secrets, ap (λ (l : List (RoleGroupResource Overrides)). admin_secret x ∷ l) same)
  only_secrets ((oidc, _) ∷ m) = only_secrets m
  only_secrets ((static_user, _) ∷ m) = only_secrets m

  resources-Belong :
      (name : String) (rg : RoleGroupSpec Overrides) (config : Option ConfigSpec)
      (overrides : Option Overrides) (c : ClusterConfigSpec) (a : Authentication)
      (b : StatefulSetBuilder)
      → r.cluster_config ≡ some c
      → get_authentication r.get r.cluster_name (some c) ≡ ok (some a)
      → Fits o r c a name (stateful_set b rg.replicas r.cluster_stopped overrides config)
      → Belong name rg config overrides
          (role_group_resources o r c a b rg.replicas name overrides config)
  unfolding role_group_resources
  resources-Belong name rg config overrides c a b given load fits =
      let (secrets, same) = only_secrets a.authenticators in
      let info : RoleGroupInfo = record {
        cluster_name = r.cluster_name;
        role_name = r.role_name;
        role_group_name = name;
      } in
      let full = o.get_full_name r.cluster_name r.role_name name in
      let m = new_config_reconciler c (some r.image) info config (some a) in
      let s = new_service_reconciler full ports r.external_unstable true in
      (
        c,
        a,
        m,
        b,
        s,
        secrets,
        given,
        get_authentication-is_some o r c a load,
        load,
        ap
            (λ (l : List (RoleGroupResource Overrides)).
              config_map m
              ∷ stateful_set b rg.replicas r.cluster_stopped overrides config
              ∷ service s
              ∷ l)
            same,
        refl,
        refl,
        resources-Fits o r c a b rg.replicas name overrides config fits,
      )

  group-Belong :
      (name : String) (rg : RoleGroupSpec Overrides) (config : Option ConfigSpec)
      (overrides : Option Overrides) (own : List (RoleGroupResource Overrides))
      → register_resource_with_role_group o r rg.replicas name overrides config ≡ ok own
      → Belong name rg config overrides own
  group-Belong name rg config overrides own e =
      let (c, a, b, given, load, fits, is) =
        register_resource_with_role_group-parts o r rg.replicas name overrides config own e in
      subst (Belong name rg config overrides) (sym is)
        (resources-Belong name rg config overrides c a b given load fits)

  role_groups-ByGroup :
      (spec : NodesSpec Overrides) (groups : List (String × RoleGroupSpec Overrides))
      (added xs : List (RoleGroupResource Overrides))
      → register_role_groups o r spec groups added ≡ ok xs
      → (new : List (RoleGroupResource Overrides)) × (xs ≡ added ++ new) × ByGroup spec groups new
  unfolding register_role_groups
  role_groups-ByGroup spec [] added xs e = ([], sym (ok-inj e) ∙ sym (append-nil added), refl)
  role_groups-ByGroup spec ((name, rg) ∷ more) added xs e =
      let (config, c_merged, e1) = >>=-eq-ok (r.merge_config spec.config rg.config) _ e in
      let (overrides, o_merged, e2) =
        >>=-eq-ok (r.merge_overrides spec.overrides rg.overrides) _ e1 in
      let (own, made, e3) =
        >>=-eq-ok (register_resource_with_role_group o r rg.replicas name overrides config) _ e2 in
      let (rest, is, divided) = role_groups-ByGroup spec more (added ++ own) xs e3 in
      let own_fits = group-Belong name rg config overrides own made in
      let divided' : ByGroup spec ((name, rg) ∷ more) (own ++ rest) =
        (own, rest, config, overrides, refl, c_merged, o_merged, own_fits, divided) in
      (own ++ rest, is ∙ append_assoc added own rest, divided')

  -- If a role's resources are registered, then the role is configured, and its resources are, one role
  -- group after the other in the order in which the map is met, those of the groups: for each group
  -- exactly a ConfigMap, a StatefulSet, a Service and then secrets for the administrator, all under
  -- a cluster configuration that names an authentication and an authentication that was loaded for
  -- it. The ConfigMap and the StatefulSet have the configuration that the merge of the role's with
  -- the group's gives, the StatefulSet also the merged overrides, the group's replicas and the role's
  -- stop flag; the ConfigMap is for the role group of that name; the full names of ConfigMap,
  -- StatefulSet and Service are the one of this role group; ConfigMap and StatefulSet share the
  -- cluster configuration, the authentication, the image and the cluster's name, and the StatefulSet's
  -- builder is the one that is made for them; the Service is headless with NiFi's ports; and a secret
  -- bears the name that the pods of OIDC mount.
  pub register_resources-ByGroup :
      (xs : List (RoleGroupResource Overrides))
      → register_resources o r ≡ ok xs
      → (spec : NodesSpec Overrides) × (r.spec ≡ some spec) × ByGroup spec spec.role_groups xs
  unfolding register_resources
  register_resources-ByGroup xs e =
      let (spec, given, run) = >>=-eq-ok (deref r.spec) _ e in
      let (new, is, divided) = role_groups-ByGroup spec spec.role_groups [] xs run in
      (spec, deref-eq-ok r.spec given, subst (ByGroup spec spec.role_groups) (sym is) divided)
