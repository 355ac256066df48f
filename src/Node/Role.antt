-- ===== src/Node/Role.antt =====
-- The role of the NiFi nodes: internal/controller/node/role.go, which registers the resources of each
-- role group. A resource stands here as the builder that its reconciler is given.
pub mod Registered
pub mod Grouped
pub mod Named
pub mod Outcome
pub mod Started
pub mod Reordered
use nifi_operator.Common.{
  String, Bool, true, Option, none, some, List, [], ◌∷◌, ◌++◌, ℤ, Result, ok, wrap, deref, ◌>>=◌,
  if◌then◌else◌,
}
use nifi_operator.Api.{ClusterConfigSpec, ConfigSpec, RoleGroupSpec, NodesSpec}
use nifi_operator.OperatorGo.{OperatorGo, Image, RoleGroupInfo, GetResult}
use nifi_operator.Security.{AuthenticatorType, ldap, oidc, static_user, AuthenticationProvider}
use nifi_operator.Security.Secrets.{SecretReconciler, new_admin_secret_reconciler}
use nifi_operator.Security.Authentication.{Authenticator, Authentication, new_authentication}
use nifi_operator.Node.{ports, NifiConfigMapBuilder}
use nifi_operator.Node.StatefulSet.{StatefulSetBuilder}
use nifi_operator.Node.StatefulSet.Build.{new_stateful_set_builder}
use nifi_operator.Node.Service.{ServiceBuilder, new_service_reconciler}
use nifi_operator.Node.ConfigMap.{new_config_reconciler}

pub data RoleGroupResource (Overrides : Type 0) : Type 0 where
  config_map : NifiConfigMapBuilder → RoleGroupResource Overrides
  stateful_set :
      (builder : StatefulSetBuilder)
      → (replicas : Option ℤ) → (stopped : Bool) → (overrides : Option Overrides)
      → (role_group_config : Option ConfigSpec) → RoleGroupResource Overrides
  service : ServiceBuilder → RoleGroupResource Overrides
  admin_secret : SecretReconciler → RoleGroupResource Overrides

-- The role's reconciler, with the library's `MergeObject` for the configuration and for the overrides.
pub record RoleReconciler (Overrides : Type 0) : Type 0 where
  pub get : String → GetResult (Option AuthenticationProvider)
  pub merge_config : Option ConfigSpec → Option ConfigSpec → Result (Option ConfigSpec)
  pub merge_overrides : Option Overrides → Option Overrides → Result (Option Overrides)
  pub external_unstable : String
  pub cluster_stopped : Bool
  pub cluster_config : Option ClusterConfigSpec
  pub cluster_name : String
  pub role_name : String
  pub image : Image
  pub spec : Option (NodesSpec Overrides)

-- `NewReconciler`. What the client and the library give is taken from `base`.
abbrev pub new_reconciler :
    {Overrides : Type 0}
    → RoleReconciler Overrides
    → (cluster_stopped : Bool) → Option ClusterConfigSpec
    → (cluster_name role_name : String) → Image
    → Option (NodesSpec Overrides)
    → RoleReconciler Overrides
new_reconciler base cluster_stopped cluster_config cluster_name role_name image spec = record base {
  cluster_stopped = cluster_stopped;
  cluster_config = cluster_config;
  cluster_name = cluster_name;
  role_name = role_name;
  image = image;
  spec = spec;
}

-- `getAuthentrication`, and `getAuthentication` of cluster.go
unfoldable pub get_authentication :
    (String → GetResult (Option AuthenticationProvider))
    → String
    → Option ClusterConfigSpec
    → Result (Option Authentication)
get_authentication get cluster_name none = ok none
get_authentication get cluster_name (some c) = elim c.authentication [
  | none ↦ ok none
  | some specs ↦
      wrap "failed to create authentication: " (new_authentication get cluster_name specs) >>= λ a.
      ok (some a)
]

module _ {Overrides : Type 0} where
  -- The loop over the keys of the authenticators.
  unfoldable pub admin_secrets :
      String → List (AuthenticatorType × List Authenticator) → List (RoleGroupResource Overrides)
  admin_secrets cluster_name [] = []
  admin_secrets cluster_name ((ldap, _) ∷ more) =
      admin_secret (new_admin_secret_reconciler cluster_name) ∷ admin_secrets cluster_name more
  admin_secrets cluster_name ((oidc, _) ∷ more) = admin_secrets cluster_name more
  admin_secrets cluster_name ((static_user, _) ∷ more) = admin_secrets cluster_name more

  module _ (o : OperatorGo) (r : RoleReconciler Overrides) where
    -- The reconcilers of a role group whose authentication is loaded.
    unfoldable pub role_group_resources :
        ClusterConfigSpec
        → Authentication
        → StatefulSetBuilder
        → Option ℤ
        → String
        → Option Overrides
        → Option ConfigSpec
        → List (RoleGroupResource Overrides)
    role_group_resources c auth builder replicas group overrides role_group_config =
        let info : RoleGroupInfo = record {
          cluster_name = r.cluster_name;
          role_name = r.role_name;
          role_group_name = group;
        } in
        config_map (new_config_reconciler c (some r.image) info role_group_config (some auth))
        ∷ stateful_set builder replicas r.cluster_stopped overrides role_group_config
        ∷ service (
            new_service_reconciler (o.get_full_name r.cluster_name r.role_name group) ports
              r.external_unstable true)
        ∷ admin_secrets r.cluster_name auth.authenticators

    -- The authenticators of a missing authentication are followed without a test.
    unfoldable pub register_resource_with_role_group :
        Option ℤ
        → String
        → Option Overrides
        → Option ConfigSpec
        → Result (List (RoleGroupResource Overrides))
    register_resource_with_role_group replicas group overrides role_group_config = do
      auth ←
          wrap "failed to get authentication: "
            (get_authentication r.get r.cluster_name r.cluster_config)
      c ← deref r.cluster_config
      let name = o.get_full_name r.cluster_name r.role_name group
      builder ← new_stateful_set_builder name r.cluster_name r.role_name c (some r.image) auth
      a ← deref auth
      ok (role_group_resources c a builder replicas group overrides role_group_config)

    -- The loop of `RegisterResources`, with the resources that are added so far.
    unfoldable pub register_role_groups :
        NodesSpec Overrides
        → List (String × RoleGroupSpec Overrides)
        → List (RoleGroupResource Overrides)
        → Result (List (RoleGroupResource Overrides))
    register_role_groups spec [] added = ok added
    register_role_groups spec ((name, rg) ∷ more) added = do
      config ← r.merge_config spec.config rg.config
      overrides ← r.merge_overrides spec.overrides rg.overrides
      reconcilers ← register_resource_with_role_group rg.replicas name overrides config
      register_role_groups spec more (added ++ reconcilers)

    unfoldable pub register_resources : Result (List (RoleGroupResource Overrides))
    register_resources = do spec ← deref r.spec; register_role_groups spec spec.role_groups []
