-- ===== src/Node/StateManagement.antt =====
-- state-management.xml, getStateManagementConfig of internal/controller/node/configmap.go.
use nifi_operator.Common.{String, ◌<>◌, if◌then◌else◌}
use nifi_operator.Api.{ClusterConfigSpec}
use nifi_operator.OperatorGo.{OperatorGo}
use nifi_operator.Node.{repository_mount_path, use_zookeeper_state_provider}

unfoldable pub zookeeper_provider_block : String
zookeeper_provider_block =
    "\n\t<cluster-provider>\n" <> "\t\t<id>zk-provider</id>\n"
    <> "\t\t<class>org.apache.nifi.controller.state.providers.zookeeper.ZooKeeperStateProvider</class>\n"
    <> "\t\t<property name=\"Connect String\">{{ getenv \"ZOOKEEPER_HOSTS\" }}</property>\n"
    <> "\t\t<property name=\"Root Node\">{{ getenv \"ZOOKEEPER_CHROOT\" }}</property>\n"
    <> "\t\t<property name=\"Session Timeout\">15 seconds</property>\n"
    <> "\t\t<property name=\"Access Control\">Open</property>\n" <> "\t</cluster-provider>"

unfoldable pub kubernetes_provider_block : String
kubernetes_provider_block =
    "\n\t<cluster-provider>\n" <> "\t\t<id>kubernetes-provider</id>\n"
    <> "\t\t<class>org.apache.nifi.kubernetes.state.provider.KubernetesConfigMapStateProvider</class>\n"
    <> "\t\t<property name=\"ConfigMap Name Prefix\">{{ getenv \"STACKLET_NAME\" }}</property>\n"
    <> "\t</cluster-provider>"

unfoldable pub cluster_provider_block : ClusterConfigSpec → String
cluster_provider_block c =
    if use_zookeeper_state_provider c then zookeeper_provider_block else kubernetes_provider_block

module _ (o : OperatorGo) where
  unfoldable pub local_provider_block : String
  local_provider_block =
      "\n\t<local-provider>\n"
      <> "\t\t<id>local-provider</id>\n"
      <> "\t\t<class>org.apache.nifi.controller.state.providers.local.WriteAheadLocalStateProvider</class>\n"
      <> "\t\t<property name=\"Directory\">"
      <> repository_mount_path o "state"
      <> "</property>\n"
      <> "\t\t<property name=\"Always Sync\">false</property>\n"
      <> "\t\t<property name=\"Partitions\">16</property>\n"
      <> "\t\t<property name=\"Checkpoint Interval\">2 mins</property>\n"
      <> "\t</local-provider>"

  unfoldable pub get_state_management_config : ClusterConfigSpec → String
  get_state_management_config c = o.indent_tab4_spaces (
      "<?xml version=\"1.0\" encoding=\"UTF-8\" standalone=\"yes\"?>\n<stateManagement>"
      <> local_provider_block
      <> cluster_provider_block c
      <> "\n</stateManagement>\n")
