-- ===== src/Node/Properties/Build.antt =====
-- getNifiProperties of internal/controller/node/configmap.go: the entries that depend on the
-- cluster, the loop over the authenticator's properties, and the text of the file.
use nifi_operator.Common.{
  String, ◌<>◌, Bool, false, ◌&&◌, Option, none, some, List, [], ◌∷◌, ◌++◌, Result, ok, wrap, ◌>>=◌,
  not, is_some, ◌==◌, if◌then◌else◌,
}
use nifi_operator.Common.Decimal.{print}
use nifi_operator.Common.FilePath
use nifi_operator.Api.{ClusterConfigSpec}
use nifi_operator.OperatorGo.{OperatorGo, PropertiesApi, GetResult}
use nifi_operator.Security.{AuthenticationProvider}
use nifi_operator.Security.Authentication.{new_authentication, extend_nifi_properties}
use nifi_operator.Node.{get_port, is_nifi_1, is_job_enabled, NifiConfigMapBuilder}
use nifi_operator.Node.Properties.{
  directory_entries, state_files_entries, state_provider, flow_entries, flowfile_entries,
  content_entries, provenance_entries, status_entries, tls_entries, web_entries, security_entries,
  cluster_entries,
}

-- NiFi 1.x, with the Job for its reporting task.
unfoldable pub expects_reporting_task : NifiConfigMapBuilder → Bool
expects_reporting_task b =
    elim b.image [ none ↦ false | some image ↦ is_nifi_1 image ] && is_job_enabled b.cluster_config

unfoldable pub proxy_entries : String → NifiConfigMapBuilder → List (String × String)
proxy_entries namespace b =
    if expects_reporting_task b
    then (
      "nifi.web.proxy.host",
      b.cluster_name
          <> "-reporting-task."
          <> namespace
          <> ".svc.cluster.local:"
          <> print (get_port "https"),
    )
      ∷ []
    else []

unfoldable pub algorithm_entries : ClusterConfigSpec → List (String × String)
algorithm_entries c = elim c.sensitive_properties [
  | none ↦ []
  | some s ↦
      if not (s.algorithm == "") then ("nifi.sensitive.props.algorithm", s.algorithm) ∷ [] else []
]

module _ (P : PropertiesApi) where
  open P use {Properties, add}

  unfoldable pub add_all : Properties → List (String × String) → Properties
  add_all p [] = p
  add_all p ((k, v) ∷ more) = add_all (add p k v) more

  -- The loop over the keys: the value of a key that is absent would be the empty text.
  unfoldable pub add_keys : Properties → Properties → List String → Properties
  add_keys q p [] = p
  add_keys q p (k ∷ ks) = add_keys q (add p k (elim (P.get q k) [ none ↦ "" | some v ↦ v ])) ks

  unfoldable pub auth_properties :
      (String → GetResult (Option AuthenticationProvider))
      → NifiConfigMapBuilder
      → Result (Option Properties)
  auth_properties get b = elim b.cluster_config.authentication [
    | none ↦ ok none
    | some specs ↦
        wrap "failed to create authentication: " (new_authentication get b.cluster_name specs)
        >>= extend_nifi_properties P
  ]

module _ (o : OperatorGo) (namespace : String) where
  unfoldable pub key_entries : List (String × String)
  key_entries =
      (
        "nifi.sensitive.props.key",
        "${file:UTF-8:"
            <> FilePath.join (o.kubedoop_root ∷ "sensitiveproperty" ∷ "nifiSensitivePropsKey" ∷ [])
            <> "}",
      )
      ∷ ("nifi.sensitive.props.key.protected", "")
      ∷ []

  -- Every key and value that is added before the authenticator's.
  unfoldable pub nifi_entries : NifiConfigMapBuilder → List (String × String)
  nifi_entries b =
      directory_entries o
      ++ state_files_entries o
      ++ ("nifi.state.management.provider.cluster", state_provider b.cluster_config)
        ∷ flow_entries o
      ++ flowfile_entries o
      ++ content_entries o
      ++ provenance_entries o
      ++ status_entries o
      ++ (if is_some b.cluster_config.tls then tls_entries o else [])
      ++ web_entries o
      ++ proxy_entries namespace b
      ++ key_entries
      ++ algorithm_entries b.cluster_config
      ++ security_entries o
      ++ cluster_entries b.cluster_config

  module _ (P : PropertiesApi) (get : String → GetResult (Option AuthenticationProvider)) where
    open P use {Properties, new_properties, keys, marshal}

    unfoldable pub nifi_properties : NifiConfigMapBuilder → Result Properties
    nifi_properties b = do
      q ← auth_properties P get b
      let p = add_all P new_properties (nifi_entries b)
      ok (elim q [ none ↦ p | some q ↦ add_keys P q p (keys q) ])

    unfoldable pub get_nifi_properties : NifiConfigMapBuilder → Result String
    get_nifi_properties b = do p ← nifi_properties b; marshal p
