-- ===== src/Tests/NodeTests.antt =====
-- Runs of internal/controller/node.
use nifi_operator.Common.{
  String, is_ok, ◌<>◌, true, Option, none, some, List, [], ◌∷◌, map, ◌≡◌, refl, ok, All,
  if◌then◌else◌,
}
use nifi_operator.Api.{NodesSpec}
use nifi_operator.Common.Decimal.{print}
use nifi_operator.Common.FilePath
use nifi_operator.GitSync.{new_git_sync_resources}
use nifi_operator.GitSync.Loop.{resources_of, new_git_sync_resources_lem}
use nifi_operator.Security.Authentication
use nifi_operator.Security.StaticUser
use nifi_operator.Security.Oidc
use nifi_operator.Node.{find_port, nifi_server_tls_dir, NifiConfigMapBuilder}
use nifi_operator.Node.Bootstrap.{get_bootstrap_config}
use nifi_operator.Node.Properties.Build.{
  nifi_entries, auth_properties, nifi_properties, get_nifi_properties,
}
use nifi_operator.Node.Properties.Entries.{
  last_value, or_else, authenticated_value, nifi_properties-get,
}
use nifi_operator.Node.Properties.Modes.{is_named, is_reported, nifi_entries_lem}
use nifi_operator.Node.ConfigMap
use nifi_operator.Node.ConfigMap.Files.{holds_templates, file_name, build-templates}
use nifi_operator.Node.StatefulSet
use nifi_operator.Node.StatefulSet.{StatefulSetBuilder, Probe, NodeContainer, PodSpec}
use nifi_operator.Node.StatefulSet.Build.{
  new_stateful_set_builder, pod_parts, get_main_container, get_prepare_container,
}
use nifi_operator.Node.StatefulSet.Usable.{pod_parts-usable}
use nifi_operator.Security.{static_user}
use nifi_operator.Security.Authentication.{static_authenticator}
use nifi_operator.Node.StatefulSet.Probes.{get_main_container-probes}
use nifi_operator.Node.Role.{
  RoleGroupResource, get_authentication, register_resource_with_role_group, register_role_groups,
  register_resources,
}
use nifi_operator.Node.Role.Grouped.{ByGroup, register_resources-ByGroup}
use nifi_operator.ReportingTask.{reporting_task_fqdn_service_name}
use nifi_operator.Common.Ordered.{sort_by_name}
use nifi_operator.Node.Bootstrap.{bootstrap_settings, get_bootstrap_config}
use nifi_operator.Kube.{EnvVar}
use nifi_operator.Node.Templates.{
  IsDefined, all_variables, cluster_templates, get_container_env-IsDefined,
}
use nifi_operator.Node.Bootstrap.RoundTrip.{parse_settings, get_bootstrap_config-parse_settings}
use nifi_operator.Tests.{library, properties, properties-IsProperties, ok_value}
use nifi_operator.Tests.Inputs.{
  classes, oidc_spec, static_authentication, cluster_config, image, config_map_builder, role,
}

-- The builder with the users of an OpenID Connect provider.
abbrev oidc_builder : NifiConfigMapBuilder
oidc_builder = record config_map_builder {
  cluster_config = record cluster_config { authentication = some (oidc_spec ∷ []) };
}

properties_built :
    (p : List (String × String)) × (nifi_properties library "data" properties classes oidc_builder
      ≡ ok p)
unfolding nifi_properties auth_properties Authentication.new_authentication
    Authentication.collect_authenticators Authentication.get_auth_provider
    Authentication.choose_authenticator Authentication.offered Authentication.append_at
    Authentication.is_supported Authentication.extend_nifi_properties Authentication.find_single
    Authentication.properties_of Oidc.extend_nifi_properties
properties_built = ok_value _ refl

nifi_properties-get_example :
    (q : Option (List (String × String))) × (auth_properties properties classes oidc_builder ≡ ok q)
    × ((k : String)
        → properties.get properties_built.0 k
          ≡ or_else
              (authenticated_value properties q k)
              (last_value k (nifi_entries library "data" oidc_builder)))
nifi_properties-get_example =
    nifi_properties-get library "data" properties properties-IsProperties classes oidc_builder
      properties_built.0 properties_built.1

nifi_entries_example :
    let value : String → Option String =
      λ k. last_value k (nifi_entries library "data" config_map_builder) in
    let zookeeper = is_named cluster_config.zookeeper_config_map_name in
    let tls = true in
    (value "nifi.state.management.provider.cluster"
      ≡ some (if zookeeper then "zk-provider" else "kubernetes-provider"))
    × (value "nifi.cluster.leader.election.implementation"
        ≡ some (
            if zookeeper
            then "CuratorLeaderElectionManager"
            else "KubernetesLeaderElectionManager"))
    × (value "nifi.zookeeper.connect.string"
        ≡ (if zookeeper then some "{{ getenv \"ZOOKEEPER_HOSTS\" }}" else none))
    × (value "nifi.zookeeper.root.node"
        ≡ (if zookeeper then some "{{ getenv \"ZOOKEEPER_CHROOT\" }}" else none))
    × (value "nifi.cluster.leader.election.kubernetes.lease.prefix"
        ≡ (if zookeeper then none else some "{{ getenv \"STACKLET_NAME\" }}"))
    × (value "nifi.cluster.protocol.is.secure" ≡ some (if tls then "true" else "false"))
    × (value "nifi.web.https.port" ≡ (if tls then some "9443" else none))
    × (value "nifi.web.http.port" ≡ some "8088")
    × (value "nifi.security.keystore" ≡ (
        if tls
        then some (FilePath.join (nifi_server_tls_dir library ∷ "keystore.p12" ∷ []))
        else none))
    × (value "nifi.web.proxy.host" ≡ (
        if is_reported config_map_builder.image cluster_config.create_reporting_task_job
        then some (reporting_task_fqdn_service_name "nifi" "data" <> ":9443")
        else none))
nifi_entries_example = nifi_entries_lem library "data" config_map_builder

items_built :
    (items : List (String × String)) × (ConfigMap.build library "data" properties classes
        config_map_builder
      ≡ ok items)
unfolding ConfigMap.build ConfigMap.login_identity_items get_bootstrap_config get_nifi_properties
    nifi_properties auth_properties Authentication.new_authentication
    Authentication.collect_authenticators Authentication.get_auth_provider
    Authentication.choose_authenticator Authentication.offered Authentication.append_at
    Authentication.is_supported Authentication.extend_nifi_properties Authentication.find_single
    Authentication.properties_of StaticUser.extend_nifi_properties
items_built = ok_value _ refl

build-templates_example : holds_templates (map file_name items_built.0) ≡ true
build-templates_example =
    build-templates library "data" properties classes config_map_builder items_built.0 items_built.1

abbrev made : StatefulSetBuilder
made = record {
  name = "nifi-node-default";
  image = some image;
  cluster_config = cluster_config;
  cluster_name = "nifi";
  role_name = "node";
  authentication = some static_authentication;
  git_sync_resources = resources_of cluster_config.custom_components_git_sync;
}

made_eq :
    new_stateful_set_builder "nifi-node-default" "nifi" "node" cluster_config
      (some image)
      (some static_authentication)
    ≡ ok made
unfolding new_stateful_set_builder
made_eq = rw (new_git_sync_resources_lem cluster_config.custom_components_git_sync)

parts_built : (p : PodSpec) × (pod_parts library "data" made ≡ ok p)
unfolding pod_parts get_prepare_container get_main_container StatefulSet.get_container_template
    StatefulSet.get_container_env StatefulSet.get_volume_mounts StatefulSet.get_volumes
    StatefulSet.authenticated Authentication.get_env_vars Authentication.get_volumes
    Authentication.get_volume_mounts Authentication.find_single Authentication.env_vars_of
    Authentication.volumes_of Authentication.volume_mounts_of
parts_built = ok_value _ refl

main_built : (c : NodeContainer) × (get_main_container library made ≡ ok c)
unfolding get_main_container StatefulSet.get_container_template StatefulSet.get_container_env
    StatefulSet.get_volume_mounts StatefulSet.authenticated Authentication.get_env_vars
    Authentication.get_volume_mounts Authentication.find_single Authentication.env_vars_of
    Authentication.volume_mounts_of
main_built = ok_value _ refl

get_main_container-probes_example :
    (p q : Probe) × (main_built.0.liveness_probe ≡ some p)
    × (main_built.0.startup_probe ≡ some q)
    × (p.tcp_socket_port ≡ q.tcp_socket_port)
    × (last_value
          ("nifi.web." <> p.tcp_socket_port <> ".port")
          (nifi_entries library "data" config_map_builder)
        ≡ some (print (find_port p.tcp_socket_port main_built.0.ports)))
get_main_container-probes_example =
    get_main_container-probes library "data" made config_map_builder main_built.0 refl main_built.1

resources_registered :
    (xs : List (RoleGroupResource Unit)) × (register_resources library role ≡ ok xs)
unfolding register_resources register_role_groups register_resource_with_role_group
    new_stateful_set_builder new_git_sync_resources get_authentication
    Authentication.new_authentication Authentication.collect_authenticators
    Authentication.get_auth_provider Authentication.choose_authenticator Authentication.offered
    Authentication.append_at Authentication.is_supported
resources_registered = ok_value _ refl

register_resources-ByGroup_example :
    (spec : NodesSpec Unit) × (role.spec ≡ some spec)
    × ByGroup library role spec spec.role_groups resources_registered.0
register_resources-ByGroup_example =
    register_resources-ByGroup library role resources_registered.0 resources_registered.1

pod_parts-usable_example : is_ok (pod_parts library "data" made) ≡ true
pod_parts-usable_example =
    pod_parts-usable library "data" made static_authentication
      (static_authenticator (record {
        cluster_name = "nifi";
        provider = record { user_credentials_secret_name = "admin-user" };
      }))
      refl (static_user, refl)

get_bootstrap_config-parse_settings_example :
    (text : String) × (get_bootstrap_config
        (some (record { role_group_config = some (record { graceful_shutdown_timeout = "30s" }) }))
      ≡ ok text)
    × (parse_settings text ≡ sort_by_name (bootstrap_settings "30s"))
get_bootstrap_config-parse_settings_example =
    get_bootstrap_config-parse_settings (record { graceful_shutdown_timeout = "30s" }) refl

env_built : (env : List EnvVar) × (StatefulSet.get_container_env made ≡ ok env)
unfolding StatefulSet.get_container_env StatefulSet.authenticated Authentication.get_env_vars
    Authentication.find_single Authentication.env_vars_of
env_built = ok_value _ refl

get_container_env-IsDefined_example :
    All (IsDefined env_built.0) (all_variables (cluster_templates cluster_config))
get_container_env-IsDefined_example = get_container_env-IsDefined made env_built.0 env_built.1
