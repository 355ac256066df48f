-- ===== src/Node/StatefulSet.antt =====
-- The pod of a role group: internal/controller/node/statefulset.go. Of a container that operator-go
-- builds, the arguments of the calls of its builder stand here; what the two containers of NiFi
-- share is in this file.
pub mod Build
pub mod Wiring
pub mod Usable
pub mod Probes
pub mod Unique
use nifi_operator.Common.{
  ℕ, String, ◌<>◌, Bool, true, false, Option, none, some, List, [], ◌∷◌, ◌++◌, map, Result, ok,
  wrap, ◌>>=◌, is_some, ◌==◌, not, if◌then◌else◌,
}
use nifi_operator.Common.FilePath
use nifi_operator.Kube.{
  EnvVar, literal, field_ref, config_map_key_ref, Volume, config_map, empty_dir, VolumeMount,
  ContainerPort, Container,
}
use nifi_operator.Api.{ClusterConfigSpec}
use nifi_operator.OperatorGo.{OperatorGo, Image}
use nifi_operator.GitSync.{GitSyncResources, new_git_sync_resources}
use nifi_operator.Security.Authentication
use nifi_operator.Security.Authentication.{Authentication}
use nifi_operator.Node.{ports, nifi_config_dir, nifi_service_account_name}

abbrev pub nifi_config_volume_name : String
nifi_config_volume_name = "nifi-config"

abbrev pub empty_dir_volume_name : String
empty_dir_volume_name = "empty-dir"

pub record StatefulSetBuilder : Type 0 where
  -- `Name` of the embedded builder: the full name of the role group.
  pub name : String
  pub image : Option Image
  pub cluster_config : ClusterConfigSpec
  pub cluster_name : String
  pub role_name : String
  pub authentication : Option Authentication
  pub git_sync_resources : GitSyncResources

-- A probe that opens a TCP connection to a port, by the port's name.
pub record Probe : Type 0 where
  pub failure_threshold : ℕ
  pub initial_delay_seconds : ℕ
  pub period_seconds : ℕ
  pub success_threshold : ℕ
  pub timeout_seconds : ℕ
  pub tcp_socket_port : String

pub record NodeContainer : Type 0 where
  pub name : String
  pub image : Option Image
  pub run_as_user : ℕ
  pub run_as_group : ℕ
  pub run_as_non_root : Bool
  pub command : List String
  pub args : List String
  pub env : List EnvVar
  pub volume_mounts : List VolumeMount
  pub ports : List ContainerPort
  pub liveness_probe : Option Probe
  pub startup_probe : Option Probe

pub data PodContainer : Type 0 where
  node_container : NodeContainer → PodContainer
  git_sync_container : Container → PodContainer

pub record PodSpec : Type 0 where
  pub init_containers : List PodContainer
  pub containers : List PodContainer
  pub volumes : List Volume
  pub service_account_name : String

-- A call on the authentication, if there is one, for a list that is appended.
unfoldable pub authenticated {ℓ} :
    {A : Type ℓ} → (Authentication → Result (List A)) → Option Authentication → Result (List A)
authenticated f none = ok []
authenticated f (some a) = f a

unfoldable pub zookeeper_env : ClusterConfigSpec → List EnvVar
zookeeper_env c = elim c.zookeeper_config_map_name [
  | none ↦ []
  | some name ↦
      if not (name == "")
      then record { name = "ZOOKEEPER_HOSTS"; source = config_map_key_ref name "ZOOKEEPER_HOSTS" }
        ∷ record { name = "ZOOKEEPER_CHROOT"; source = config_map_key_ref name "ZOOKEEPER_CHROOT" }
        ∷ []
      else []
]

unfoldable pub get_container_env : StatefulSetBuilder → Result (List EnvVar)
get_container_env b = do
  more ← authenticated Authentication.get_env_vars b.authentication
  ok (
      record { name = "POD_NAME"; source = field_ref "metadata.name" }
        ∷ record { name = "STACKLET_NAME"; source = literal b.cluster_name }
        ∷ zookeeper_env b.cluster_config
      ++ more)

unfoldable pub probe_port : ClusterConfigSpec → String
probe_port c = if is_some c.tls then "https" else "http"

unfoldable pub probe : ℕ → String → Probe
probe failure_threshold port = record {
  failure_threshold = failure_threshold;
  initial_delay_seconds = 10;
  period_seconds = 10;
  success_threshold = 1;
  timeout_seconds = 3;
  tcp_socket_port = port;
}

unfoldable pub setup_main_container_probe : ClusterConfigSpec → NodeContainer → NodeContainer
unfolding probe
setup_main_container_probe c container = record container {
  liveness_probe = some (probe 30 (probe_port c));
  startup_probe = some (probe 120 (probe_port c));
}

module _ (o : OperatorGo) where
  abbrev pub config_volume_mount : VolumeMount
  config_volume_mount = record {
    name = nifi_config_volume_name;
    mount_path = o.kubedoop_config_dir_mount;
    sub_path = "";
    read_only = true;
  }

  abbrev pub empty_dir_volume_mount : VolumeMount
  empty_dir_volume_mount = record {
    name = empty_dir_volume_name;
    mount_path = nifi_config_dir o;
    sub_path = "config";
    read_only = false;
  }

  unfoldable pub get_volume_mounts : StatefulSetBuilder → Result (List VolumeMount)
  get_volume_mounts b = do
    more ← authenticated (Authentication.get_volume_mounts o) b.authentication
    ok (config_volume_mount ∷ empty_dir_volume_mount ∷ more)

  unfoldable pub get_volumes : StatefulSetBuilder → Result (List Volume)
  get_volumes b = do
    more ← authenticated (Authentication.get_volumes o) b.authentication
    ok (
        (record { name = nifi_config_volume_name; source = config_map b.name }
          ∷ record { name = empty_dir_volume_name; source = empty_dir }
          ∷ more)
        ++ b.git_sync_resources.git_sync_volumes)

  unfoldable pub get_container_template : String → StatefulSetBuilder → Result NodeContainer
  get_container_template name b = do
    env ← get_container_env b
    volume_mounts ← get_volume_mounts b
    ok (record {
      name = name;
      image = b.image;
      run_as_user = 0;
      run_as_group = 0;
      run_as_non_root = false;
      command = "/bin/bash" ∷ "-x" ∷ "-euo" ∷ "pipefail" ∷ "-c" ∷ [];
      args = [];
      env = env;
      volume_mounts = volume_mounts;
      ports = [];
      liveness_probe = none;
      startup_probe = none;
    })
