-- ===== src/Api.antt =====
-- The NifiCluster resource: api/v1alpha1/clusterconfig_types.go, nificluster_types.go and
-- image_types.go. A pointer is an `Option`, and a map is the list of its entries in the order in
-- which a loop meets them. A slice that is compared with nil is an `Option` of a list. Of the types
-- of operator-go and of Kubernetes the fields stand here that the program reads or that
-- config/crd/bases/nifi.kubedoop.dev_nificlusters.yaml lists for a type which the program only passes
-- on; `Overrides` is operator-go's OverridesSpec, which the program only passes on too.
use nifi_operator.Common.{String, Option, List, Bool, ℤ}

-- `RawExtension` of apimachinery: the text of any JSON object.
pub record RawExtension : Type 0 where
  pub raw : String

pub record GitSyncSpec : Type 0 where
  pub repo : String
  pub branch : String
  pub credentials_secret : String
  pub depth : ℤ
  pub git_folder : String
  pub git_sync_config : List (String × String)
  pub wait : String

-- `OidcSpec` of operator-go
pub record OidcSpec : Type 0 where
  pub client_credentials_secret : String
  pub extra_scopes : List String

pub record AuthenticationSpec : Type 0 where
  pub authentication_class : String
  pub oidc : Option OidcSpec

pub record CreateReportingTaskJobSpec : Type 0 where
  pub enable : Bool
  pub pod_overrides : Option RawExtension

pub record SensitivePropertiesSpec : Type 0 where
  pub algorithm : String
  pub auto_generate : Bool
  pub key_secret : String

pub record TlsSpec : Type 0 where
  pub server_secret_class : String

pub record ClusterConfigSpec : Type 0 where
  pub authentication : Option (List AuthenticationSpec)
  pub create_reporting_task_job : Option CreateReportingTaskJobSpec
  pub extra_volumes : Option RawExtension
  pub sensitive_properties : Option SensitivePropertiesSpec
  pub custom_components_git_sync : List GitSyncSpec
  pub tls : Option TlsSpec
  pub listener_class : String
  pub vector_aggregator_config_map_name : String
  pub zookeeper_config_map_name : Option String

-- `RoleGroupConfigSpec` of operator-go
pub record RoleGroupConfigSpec : Type 0 where
  pub graceful_shutdown_timeout : String

pub record ConfigSpec : Type 0 where
  pub role_group_config : Option RoleGroupConfigSpec

pub record JvmArgumentOverridesSpec : Type 0 where
  pub add : List String
  pub remove : List String
  pub remove_regex : List String

pub record RoleGroupSpec (Overrides : Type 0) : Type 0 where
  pub replicas : Option ℤ
  pub config : Option ConfigSpec
  pub overrides : Option Overrides
  pub jvm_argument_overrides : Option JvmArgumentOverridesSpec

-- `PodDisruptionBudgetSpec` and `RoleConfigSpec` of operator-go
pub record PodDisruptionBudgetSpec : Type 0 where
  pub enabled : Bool
  pub max_unavailable : Option ℤ

pub record RoleConfigSpec : Type 0 where
  pub pod_disruption_budget : Option PodDisruptionBudgetSpec

pub record NodesSpec (Overrides : Type 0) : Type 0 where
  pub role_groups : List (String × RoleGroupSpec Overrides)
  pub role_config : Option RoleConfigSpec
  pub config : Option ConfigSpec
  pub overrides : Option Overrides
  pub jvm_argument_overrides : Option JvmArgumentOverridesSpec

pub record ImageSpec : Type 0 where
  pub custom : String
  pub repo : String
  pub kubedoop_version : String
  pub product_version : String
  pub pull_policy : Option String
  pub pull_secret_name : String

abbrev pub default_repository : String
default_repository = "quay.io/zncdatadev"

abbrev pub default_product_version : String
default_product_version = "2.4.0"

abbrev pub default_product_name : String
default_product_name = "nifi"

-- `ClusterOperationSpec` of operator-go
pub record ClusterOperationSpec : Type 0 where
  pub reconciliation_paused : Bool
  pub stopped : Bool

pub record NifiClusterSpec (Overrides : Type 0) : Type 0 where
  pub cluster_config : Option ClusterConfigSpec
  pub cluster_operation : Option ClusterOperationSpec
  pub image : Option ImageSpec
  pub nodes : Option (NodesSpec Overrides)

-- `Condition` of apimachinery
pub record Condition : Type 0 where
  pub type_name : String
  pub status : String
  pub observed_generation : ℤ
  pub last_transition_time : String
  pub reason : String
  pub message : String

pub record NifiClusterStatus : Type 0 where
  pub conditions : List Condition

-- Of the object's metadata, its name and its namespace.
pub record NifiCluster (Overrides : Type 0) : Type 0 where
  pub name : String
  pub namespace : String
  pub spec : NifiClusterSpec Overrides
  pub status : NifiClusterStatus

pub record NifiClusterList (Overrides : Type 0) : Type 0 where
  pub items : List (NifiCluster Overrides)

-- `schema.GroupVersion` of apimachinery
pub record GroupVersion : Type 0 where
  pub group : String
  pub version : String

abbrev pub group_version : GroupVersion
group_version = record { group = "nifi.kubedoop.dev"; version = "v1alpha1" }
