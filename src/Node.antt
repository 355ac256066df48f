-- ===== src/Node.antt =====
-- internal/controller/node: what one role group of NiFi nodes runs on. The ports of port.go and the
-- directories of configmap.go stand here.
pub mod Properties
pub mod StateManagement
pub mod Bootstrap
pub mod ConfigMap
pub mod StatefulSet
pub mod Templates
pub mod Service
pub mod Role
use nifi_operator.Common.{
  ℕ, zero, String, ◌<>◌, Bool, true, false, not, Option, none, some, List, [], ◌∷◌, find_key, ◌==◌,
  starts_with, if◌then◌else◌,
}
use nifi_operator.Common.FilePath
use nifi_operator.Kube.{ContainerPort}
use nifi_operator.Api.{ClusterConfigSpec, ConfigSpec}
use nifi_operator.OperatorGo.{OperatorGo, Image, RoleGroupInfo}
use nifi_operator.Security.Authentication.{Authentication}

abbrev pub ports : List ContainerPort
ports =
    record { name = "http"; container_port = 8088 }
    ∷ record { name = "https"; container_port = 9443 }
    ∷ record { name = "protocol"; container_port = 9088 }
    ∷ record { name = "balance"; container_port = 6243 }
    ∷ record { name = "metrics"; container_port = 8081 }
    ∷ []

-- The loop of `GetPort`.
unfoldable pub find_port : String → List ContainerPort → ℕ
find_port name [] = 0
find_port name (port ∷ more) =
    if port.name == name then port.container_port else find_port name more

unfoldable pub get_port : String → ℕ
unfolding find_port
get_port name = find_port name ports

-- `NifiServiceAccountName` of statefulset.go
unfoldable pub nifi_service_account_name : String → String
nifi_service_account_name cluster_name = cluster_name <> "-nifi"

nifi_repository : String → String
nifi_repository name = name <> "-repository"

module _ (o : OperatorGo) where
  unfoldable pub nifi_root : String
  nifi_root = FilePath.join (o.kubedoop_root ∷ "nifi" ∷ [])

  unfoldable pub nifi_config_dir : String
  nifi_config_dir = FilePath.join (nifi_root ∷ "conf" ∷ [])

  unfoldable pub nifi_server_tls_dir : String
  nifi_server_tls_dir = FilePath.join (nifi_root ∷ "server-tls" ∷ [])

  repository_dir : String → String
  unfolding nifi_repository
  repository_dir name = FilePath.join (o.kubedoop_data_dir ∷ nifi_repository name ∷ [])

  -- `NifiRepositoryMouhtPath`
  nifi_repository_mount_paths : List (String × String)
  nifi_repository_mount_paths =
      ("database", repository_dir "data")
      ∷ ("flowfile", repository_dir "flowfile")
      ∷ ("content", repository_dir "content")
      ∷ ("provenance", repository_dir "provenance")
      ∷ ("state", repository_dir "state")
      ∷ ("status", repository_dir "status")
      ∷ ("server-tls", repository_dir "server_tls")
      ∷ []

  -- An index into the map: a key that is absent gives the empty text.
  unfoldable pub repository_mount_path : String → String
  unfolding nifi_repository_mount_paths repository_dir
  repository_mount_path name = elim (find_key name nifi_repository_mount_paths) [
    | none ↦ ""
    | some dir ↦ dir
  ]

pub record NifiConfigMapBuilder : Type 0 where
  pub cluster_config : ClusterConfigSpec
  pub image : Option Image
  pub cluster_name : String
  pub role_name : String
  pub role_group_name : String
  pub config : Option ConfigSpec
  pub authentication : Option Authentication

abbrev pub new_nifi_config_builder :
    ClusterConfigSpec
    → Option Image
    → RoleGroupInfo
    → Option ConfigSpec
    → Option Authentication
    → NifiConfigMapBuilder
new_nifi_config_builder cluster_config image info config authentication = record {
  cluster_config = cluster_config;
  image = image;
  cluster_name = info.cluster_name;
  role_name = info.role_name;
  role_group_name = info.role_group_name;
  config = config;
  authentication = authentication;
}

-- A ConfigMap with ZooKeeper's address is named.
unfoldable pub use_zookeeper_state_provider : ClusterConfigSpec → Bool
use_zookeeper_state_provider c = elim c.zookeeper_config_map_name [
  | none ↦ false
  | some name ↦ not (name == "")
]

-- `strings.HasPrefix(image.ProductVersion, "1.")`
unfoldable pub is_nifi_1 : Image → Bool
is_nifi_1 image = starts_with image.product_version "1."

-- The Job for the reporting task is configured and enabled.
unfoldable pub is_job_enabled : ClusterConfigSpec → Bool
is_job_enabled c = elim c.create_reporting_task_job [ none ↦ false | some job ↦ job.enable ]
