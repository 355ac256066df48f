-- ===== src/Node/ConfigMap.antt =====
-- The ConfigMap of a role group: Build of NifiConfigMapBuilder in
-- internal/controller/node/configmap.go. An item is a file name and the file's text.
pub mod Files
pub mod Built
use nifi_operator.Common.{String, Option, none, some, List, [], ◌∷◌, ◌++◌, Result, ok, deref, ◌>>=◌}
use nifi_operator.Api.{ClusterConfigSpec, ConfigSpec}
use nifi_operator.OperatorGo.{OperatorGo, Image, RoleGroupInfo, PropertiesApi, GetResult}
use nifi_operator.Security.{AuthenticationProvider}
use nifi_operator.Security.Authentication.{Authentication, get_login_identity_provider}
use nifi_operator.Node.{NifiConfigMapBuilder, new_nifi_config_builder}
use nifi_operator.Node.Bootstrap.{get_bootstrap_config}
use nifi_operator.Node.StateManagement.{get_state_management_config}
use nifi_operator.Node.Properties.Build.{get_nifi_properties}

-- `NewConfigReconciler`: a reconciler is its builder here.
abbrev pub new_config_reconciler :
    ClusterConfigSpec
    → Option Image
    → RoleGroupInfo
    → Option ConfigSpec
    → Option Authentication
    → NifiConfigMapBuilder
new_config_reconciler cluster_config image info config authentication =
    new_nifi_config_builder cluster_config image info config authentication

module _ (o : OperatorGo) where
  -- The method is called on a pointer that may be nil.
  unfoldable pub login_identity_items : NifiConfigMapBuilder → Result (List (String × String))
  login_identity_items b = elim b.cluster_config.authentication [
    | none ↦ ok []
    | some _ ↦ deref b.authentication >>= λ a.
        ok (("login-identity-providers.xml", get_login_identity_provider o a) ∷ [])
  ]

  module _ (namespace : String) (P : PropertiesApi)
      (get : String → GetResult (Option AuthenticationProvider)) where
    unfoldable pub build : NifiConfigMapBuilder → Result (List (String × String))
    build b = do
      bootstrap ← get_bootstrap_config b.config
      nifi_properties ← get_nifi_properties o namespace P get b
      login ← login_identity_items b
      let state_management = get_state_management_config o b.cluster_config
      ok (
          ("bootstrap.conf", bootstrap) ∷ ("nifi.properties", nifi_properties) ∷ login
          ++ ("state-management.xml", state_management) ∷ [])
