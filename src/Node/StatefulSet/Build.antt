-- ===== src/Node/StatefulSet/Build.antt =====
-- The two containers of NiFi and Build of StatefulSetBuilder, and NewStatefulSetReconciler:
-- internal/controller/node/statefulset.go.
use nifi_operator.Common.{
  String, ◌<>◌, Option, none, some, [], ◌∷◌, ◌++◌, map, Result, ok, wrap, ◌>>=◌,
}
use nifi_operator.Common.FilePath
use nifi_operator.Api.{ClusterConfigSpec}
use nifi_operator.OperatorGo.{OperatorGo, Image}
use nifi_operator.GitSync.{new_git_sync_resources}
use nifi_operator.Security.Authentication.{Authentication, get_init_args}
use nifi_operator.Node.{ports, nifi_config_dir, nifi_service_account_name}
use nifi_operator.Node.StatefulSet.{
  StatefulSetBuilder, NodeContainer, node_container, git_sync_container, PodSpec,
  get_container_template, get_volumes, setup_main_container_probe,
}

module _ (o : OperatorGo) where
  -- The line of the script that fills in one template.
  unfoldable pub gomplate : String → String
  gomplate file =
      "gomplate -f "
      <> o.kubedoop_config_dir_mount
      <> "/"
      <> file
      <> " -o "
      <> nifi_config_dir o
      <> "/"
      <> file
      <> "\n"

  unfoldable pub get_prepare_container_args : String → StatefulSetBuilder → String
  get_prepare_container_args namespace b =
      let node_address : String =
        "$POD_NAME." <> b.name <> "." <> namespace <> ".svc.cluster.local" in
      let auth_args : String = elim b.authentication [ none ↦ "" | some a ↦ get_init_args o a ] in
      o.indent_tab4_spaces (
        "\ncp "
        <> FilePath.join (o.kubedoop_config_dir_mount ∷ "*" ∷ [])
        <> " "
        <> nifi_config_dir o
        <> "\n\nexport NODE_ADDRESS=\""
        <> node_address
        <> "\"\n"
        <> auth_args
        <> "\n\n"
        <> gomplate "nifi.properties"
        <> gomplate "login-identity-providers.xml"
        <> gomplate "state-management.xml")

  unfoldable pub get_prepare_container : String → StatefulSetBuilder → Result NodeContainer
  get_prepare_container namespace b = do
    container ← get_container_template o "prepare" b
    ok (record container { args = get_prepare_container_args namespace b ∷ [] })

  unfoldable pub get_main_container_args : String
  get_main_container_args = o.indent_tab4_spaces (
      o.common_bash_trap_functions <> "\n\n" <> o.remove_vector_shutdown_file_command
      <> "\n\nprepare_signal_handlers\n\n# sleep infinity\n\nbin/nifi.sh run &\n\n"
      <> "wait_for_termination $!\n\n" <> o.create_vector_shutdown_file_command <> "\n")

  unfoldable pub get_main_container : StatefulSetBuilder → Result NodeContainer
  get_main_container b = do
    container ← get_container_template o b.role_name b
    let filled = record container { args = get_main_container_args ∷ []; ports = ports }
    ok (setup_main_container_probe b.cluster_config filled)

  -- What `Build` hands to the embedded builder, in the order of its calls.
  unfoldable pub pod_parts : String → StatefulSetBuilder → Result PodSpec
  pod_parts namespace b = do
    prepare ← get_prepare_container namespace b
    main ← get_main_container b
    volumes ← get_volumes o b
    let resources = b.git_sync_resources
    let mounts = main.volume_mounts ++ resources.git_sync_volume_mounts
    ok (record {
      init_containers =
          node_container prepare ∷ map git_sync_container resources.git_sync_init_containers;
      containers =
          node_container (record main { volume_mounts = mounts })
          ∷ map git_sync_container resources.git_sync_containers;
      volumes = volumes;
      service_account_name = "";
    })

  -- The embedded builder's `Build`, which applies the overrides, is a parameter.
  unfoldable pub build : (PodSpec → Result PodSpec) → String → StatefulSetBuilder → Result PodSpec
  build build_base namespace b = do
    parts ← pod_parts namespace b
    pod ← build_base parts
    ok (record pod { service_account_name = nifi_service_account_name b.cluster_name })

unfoldable pub new_stateful_set_builder :
    String
    → String
    → String
    → ClusterConfigSpec
    → Option Image
    → Option Authentication
    → Result StatefulSetBuilder
new_stateful_set_builder name cluster_name role_name c image authentication = do
  resources ←
      wrap "building git-sync resources: " (new_git_sync_resources c.custom_components_git_sync)
  ok (record {
    name = name;
    image = image;
    cluster_config = c;
    cluster_name = cluster_name;
    role_name = role_name;
    authentication = authentication;
    git_sync_resources = resources;
  })
