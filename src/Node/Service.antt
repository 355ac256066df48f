-- ===== src/Node/Service.antt =====
-- The Service of a role group: internal/controller/node/service.go. The object itself is built by
-- operator-go.
use nifi_operator.Common.{String, Bool, true, List, ◌==◌, if◌then◌else◌}
use nifi_operator.Kube.{ContainerPort}

-- What operator-go's builder is given.
pub record ServiceBuilder : Type 0 where
  pub name : String
  pub ports : List ContainerPort
  pub listener_class : String
  pub headless : Bool

abbrev pub new_service_builder :
    (name : String) → List ContainerPort → (listener_class : String) → Bool → ServiceBuilder
new_service_builder name ports listener_class headless = record {
  name = name;
  ports = ports;
  listener_class = listener_class;
  headless = headless;
}

-- `NewServiceReconciler`: a reconciler is its builder here.
abbrev pub new_service_reconciler :
    (name : String) → List ContainerPort → (listener_class : String) → Bool → ServiceBuilder
new_service_reconciler name ports listener_class headless =
    new_service_builder name ports listener_class headless

-- The fields of the Service that `Build` reads or sets.
pub record Service : Type 0 where
  pub name : String
  pub ports : List ContainerPort
  pub cluster_ip : String
  pub publish_not_ready_addresses : Bool

-- `ClusterIPNone` of k8s.io/api
abbrev cluster_ip_none : String
cluster_ip_none = "None"

-- `get_object` is `GetObject` of operator-go's builder.
unfoldable pub build : (ServiceBuilder → Service) → ServiceBuilder → Service
build get_object b =
    let service = get_object b in
    if service.cluster_ip == cluster_ip_none
    then record service { publish_not_ready_addresses = true }
    else service
