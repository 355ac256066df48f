-- ===== src/Tests/ClusterTests.antt =====
-- Runs of internal/controller/node/role.go, internal/controller/cluster and the controller.
use mathlib.Core.List.{Permᴰ}
use nifi_operator.Common.{
  values, String, ◌<>◌, Option, Agree, Distinct, [], ℕ, suc, ap, ◌∙◌, ◌==◌, if◌then◌else◌, none,
  some, List, ◌∷◌, ◌++◌, ◌≡◌, ◌≢◌, refl, is_ok, true, ◌&&◌, subst, ◌↔◌, ok, All, some-inj, succeeds,
  status,
}
use nifi_operator.Common.Ordered.{names, sort_by_name}
use nifi_operator.Api.{NodesSpec, RoleGroupSpec}
use nifi_operator.OperatorGo.{found, not_found, failed, IsLabelling}
use nifi_operator.Security.Authentication
use nifi_operator.GitSync.{new_git_sync_resources}
use nifi_operator.Node.{is_nifi_1, is_job_enabled}
use nifi_operator.Node.ConfigMap
use nifi_operator.Node.ConfigMap.Built.{has_timeout, build-is_ok}
use nifi_operator.Security.{static_user}
use nifi_operator.Security.Authentication.{static_authenticator, new_authentication}
use nifi_operator.Node.StatefulSet.Build.{new_stateful_set_builder}
use nifi_operator.Node.Role
use nifi_operator.Node.Role.{RoleGroupResource, RoleReconciler, get_authentication}
use nifi_operator.Node.Role.Named.{
  config_map_name, stateful_set_name, service_name, full_names, register_resources-full_names,
}
use nifi_operator.Node.Role.Started.{IsStarting, register_resources-IsStarting}
use nifi_operator.Node.Role.Outcome.{IsMerging, role_status, register_resources-status}
use nifi_operator.ReportingTask.{get_reporting_task_service_selector_pod, select_role_group}
use nifi_operator.ReportingTask.Service.{new_reporting_task_service_builder}
use nifi_operator.Cluster
use nifi_operator.Cluster.{
  ClusterReconciler, Resource, node_role, get_image, new_reconciler,
  register_reporting_task_resources,
}
use nifi_operator.Cluster.Names.{
  stateful_set_names, config_map_names, service_names, register_resources-Distinct,
}
use nifi_operator.Cluster.Pods.{HasAdmissiblePods, register_resources-HasAdmissiblePods}
use nifi_operator.Cluster.Reordered.{in_order, SameButNodes, register_resources-in_order}
use nifi_operator.Cluster.Selects.{SelectsOne, register_resources-SelectsOne}
use nifi_operator.Cluster.Outcome.{IsComplete, register_resources-IsComplete}
use nifi_operator.Api.{NifiCluster}
use nifi_operator.Controller.{NifiClusterReconciler, cluster_reconciler, reconcile}
use nifi_operator.Controller.Branches.{Reconciles, reconcile-Reconciles}
use nifi_operator.Tests.{library, library-IsNaming, properties, apart, ok_value}
use nifi_operator.Tests.Inputs.{
  classes, static_spec, static_authentication, config_map_builder, config, nodes, role, cluster,
  role_group, cluster_config,
}

resources_registered :
    (xs : List (RoleGroupResource Unit)) × (Role.register_resources library role ≡ ok xs)
unfolding Role.register_resources Role.register_role_groups Role.register_resource_with_role_group
    new_stateful_set_builder new_git_sync_resources get_authentication
    Authentication.new_authentication Authentication.collect_authenticators
    Authentication.get_auth_provider Authentication.choose_authenticator Authentication.offered
    Authentication.append_at Authentication.is_supported
resources_registered = ok_value _ refl

register_resources-full_names_example :
    (spec : NodesSpec Unit) × (some nodes ≡ some spec)
    × (values (config_map_name library) resources_registered.0
        ≡ full_names library role spec.role_groups)
    × (values (stateful_set_name library) resources_registered.0
        ≡ full_names library role spec.role_groups)
    × (values (service_name library) resources_registered.0
        ≡ full_names library role spec.role_groups)
register_resources-full_names_example =
    register_resources-full_names library role resources_registered.0 resources_registered.1

register_resources-IsStarting_example : All (IsStarting library role) resources_registered.0
register_resources-IsStarting_example =
    register_resources-IsStarting library role resources_registered.0 resources_registered.1

role-IsMerging : IsMerging role
role-IsMerging = record {
  config_merged = λ base own. (base, refl);
  overrides_merged = λ base own. (base, refl);
}

-- The role without an authentication.
abbrev open_role : RoleReconciler Unit
open_role = record role { cluster_config = some (record cluster_config { authentication = none }) }

open_role-IsMerging : IsMerging open_role
open_role-IsMerging = record {
  config_merged = λ base own. (base, refl);
  overrides_merged = λ base own. (base, refl);
}

register_resources-status_example :
    status (Role.register_resources library open_role) ≡ role_status open_role
register_resources-status_example = register_resources-status library open_role open_role-IsMerging

cluster_registered :
    (rs : List (Resource Unit)) × (Cluster.register_resources library cluster ≡ ok rs)
unfolding Cluster.register_resources Cluster.sensitive_key_reconciler Cluster.node_reconciler
    Role.register_resources Role.register_role_groups Role.register_resource_with_role_group
    new_stateful_set_builder new_git_sync_resources register_reporting_task_resources
    Cluster.reporting_task_resources get_image is_nifi_1 is_job_enabled get_authentication
    Authentication.new_authentication Authentication.collect_authenticators
    Authentication.get_auth_provider Authentication.choose_authenticator Authentication.offered
    Authentication.append_at Authentication.is_supported new_reporting_task_service_builder
    get_reporting_task_service_selector_pod select_role_group sort_by_name
cluster_registered = ok_value _ refl

abbrev named_groups : All (λ n. n ≢ "") (names nodes.role_groups)
named_groups = (apart "default" "" refl, (apart "spare" "" refl, tt))

-- The labels of a pod.
abbrev pod_labels : (cluster role group pod : String) → String → Option String
pod_labels c n g p k =
    if k == "app.kubernetes.io/instance"
    then some c
    else if k == "app.kubernetes.io/managed-by"
    then some "kubedoop.dev"
    else if k == "app.kubernetes.io/component"
    then some n
    else if k == "app.kubernetes.io/role-group"
    then some g
    else if k == "statefulset.kubernetes.io/pod-name"
    then some p
    else none

pod_labels-IsLabelling : IsLabelling library pod_labels
pod_labels-IsLabelling = record {
  instance_label = λ c n g p. refl;
  managed_by_label = λ c n g p. refl;
  component_label = λ c n g p. refl;
  pod_label = λ c n g p. refl;
}

full_name : (c n g : String) → library.get_full_name c n g ≡ c <> "-" <> n <> "-" <> g
full_name c n g = refl

register_resources-SelectsOne_example :
    (role_groups : List (RoleGroupResource Unit)) × (before after : List (Resource Unit))
    × (cluster_registered.0 ≡ before ++ node_role role_groups ∷ after)
    × All (SelectsOne library cluster pod_labels role_groups) cluster_registered.0
register_resources-SelectsOne_example =
    register_resources-SelectsOne library cluster pod_labels full_name pod_labels-IsLabelling nodes
      cluster_registered.0 refl named_groups cluster_registered.1

nodes_named :
    (spec : NodesSpec Unit) → some nodes ≡ some spec → All (λ n. n ≢ "") (names spec.role_groups)
nodes_named spec e =
    subst (λ (x : NodesSpec Unit). All (λ n. n ≢ "") (names x.role_groups)) (some-inj e)
      named_groups

register_resources-IsComplete_example :
    (status (Cluster.register_resources library cluster) ≡ succeeds) ↔ IsComplete library cluster
register_resources-IsComplete_example =
    register_resources-IsComplete library cluster role-IsMerging nodes_named

abbrev nifi : NifiCluster Unit
nifi = record {
  name = "nifi";
  namespace = "data";
  spec = cluster.spec;
  status = record { conditions = [] };
}

-- A controller of one cluster, whose runs are counted.
abbrev controller : NifiClusterReconciler Unit ℕ
controller = record {
  get = λ namespace name. if name == "nifi" then found nifi else not_found;
  base = λ i. cluster;
  run = λ rs n. ok (suc n);
}

one_cluster : (i : NifiCluster Unit) → found nifi ≡ found i → nifi ≡ i
one_cluster i e = ap (λ g. elim g [ found x ↦ x | not_found ↦ nifi | failed _ ↦ nifi ]) e

controller-IsMerging :
    (i : NifiCluster Unit)
    → found nifi ≡ found i
    → IsMerging (cluster_reconciler library controller i).role
unfolding cluster_reconciler new_reconciler
controller-IsMerging i e = role-IsMerging

controller_named :
    (i : NifiCluster Unit) (spec : NodesSpec Unit)
    → found nifi ≡ found i
    → (cluster_reconciler library controller i).spec.nodes ≡ some spec
    → All (λ n. n ≢ "") (names spec.role_groups)
unfolding cluster_reconciler new_reconciler
controller_named i spec e given =
    nodes_named spec (ap (λ (x : NifiCluster Unit). x.spec.nodes) (one_cluster i e) ∙ given)

reconcile-Reconciles_example :
    Reconciles library controller (found nifi) 4 (reconcile library controller "data" "nifi" 4)
reconcile-Reconciles_example =
    reconcile-Reconciles library controller "data" "nifi" 4 controller-IsMerging controller_named

class_loaded : new_authentication classes "nifi" (static_spec ∷ []) ≡ ok static_authentication
unfolding new_authentication Authentication.collect_authenticators Authentication.get_auth_provider
    Authentication.choose_authenticator Authentication.offered Authentication.append_at
    Authentication.is_supported
class_loaded = refl

build-is_ok_example :
    is_ok (ConfigMap.build library "data" properties classes config_map_builder)
    ≡ has_timeout (some config) && true
build-is_ok_example =
    build-is_ok properties classes library "data" (λ p. (_, refl)) config_map_builder
      (static_spec ∷ []) static_authentication
      (static_authenticator (record {
        cluster_name = "nifi";
        provider = record { user_credentials_secret_name = "admin-user" };
      }))
      refl class_loaded refl (static_user, refl)

-- The role groups of `nodes` met the other way round.
abbrev swapped_groups : List (String × RoleGroupSpec Unit)
swapped_groups = ("spare", record role_group { replicas = none }) ∷ ("default", role_group) ∷ []

register_resources-in_order_example :
    Agree SameButNodes
      (Cluster.register_resources library (in_order cluster nodes nodes.role_groups))
      (Cluster.register_resources library (in_order cluster nodes swapped_groups))
register_resources-in_order_example =
    register_resources-in_order library cluster nodes role-IsMerging (Permᴰ.swap refl refl)
      ((apart "default" "spare" refl, tt), (tt, tt))

register_resources-Distinct_example :
    Distinct (stateful_set_names library cluster_registered.0)
    × Distinct (config_map_names library cluster_registered.0)
    × Distinct (service_names library cluster_registered.0)
register_resources-Distinct_example =
    register_resources-Distinct library cluster (λ c n g. refl) nodes cluster_registered.0 refl
      ((apart "default" "spare" refl, tt), (tt, tt)) cluster_registered.1

register_resources-HasAdmissiblePods_example :
    (role_groups : List (RoleGroupResource Unit)) × (before after : List (Resource Unit))
    × (cluster_registered.0 ≡ before ++ node_role role_groups ∷ after)
    × All (HasAdmissiblePods library) role_groups
register_resources-HasAdmissiblePods_example =
    register_resources-HasAdmissiblePods library cluster library-IsNaming cluster_registered.0
      cluster_registered.1
