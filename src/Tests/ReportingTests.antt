-- ===== src/Tests/ReportingTests.antt =====
-- Runs of internal/controller/reporting_task and of internal/controller/cluster.
use nifi_operator.Common.{
  is_empty, String, ◌<>◌, true, false, none, some, List, [], ◌∷◌, ◌≡◌, ◌⊎◌, refl, ok, err, All,
}
use nifi_operator.Common.Ordered.{sort_by_name}
use nifi_operator.Kube.{MountsIn}
use nifi_operator.Api.{RoleGroupSpec}
use nifi_operator.ReportingTask.{select_role_group, get_reporting_task_service_selector_pod}
use nifi_operator.ReportingTask.Candidates.{IsFirstName, candidates}
use nifi_operator.ReportingTask.Selector.{get_reporting_task_service_selector_pod_lem}
use nifi_operator.ReportingTask.Service.{
  ReportingTaskServiceBuilder, new_reporting_task_service_builder,
}
use nifi_operator.ReportingTask.Job
use nifi_operator.ReportingTask.Job.{ReportingTaskJobBuilder, nifi_connect_url}
use nifi_operator.ReportingTask.Job.Wiring.{build-MountsIn}
use nifi_operator.Security.Authentication
use nifi_operator.Node.{is_nifi_1, is_job_enabled}
use nifi_operator.GitSync.{new_git_sync_resources}
use nifi_operator.Node.StatefulSet.Build.{new_stateful_set_builder}
use nifi_operator.Cluster.Accounts.{RunsAs, register_resources-accounts}
use nifi_operator.Node.Role
use nifi_operator.Node.Role.{RoleGroupResource, get_authentication}
use nifi_operator.Cluster
use nifi_operator.Cluster.{
  PolicyRule, service_account, role, role_binding, node_role, Resource, reporting_task_service,
  reporting_task_job, register_reporting_task_resources, get_image,
}
use nifi_operator.Cluster.Reported.{proxy_host_value, register_reporting_task_resources-admitted}
use nifi_operator.Tests.{library, library-IsNaming, apart, ok_value}
use nifi_operator.Tests.Inputs.{
  role_group, image, cluster, cluster_config, config_map_builder, static_authentication,
}

abbrev idle : RoleGroupSpec Unit
idle = record role_group { replicas = none }

abbrev groups : List (String × RoleGroupSpec Unit)
groups = ("large", role_group) ∷ ("idle", idle) ∷ []

get_reporting_task_service_selector_pod_example :
    ((groups ≡ [])
      × (get_reporting_task_service_selector_pod "nifi" groups
          ≡ err "no role groups defined for reporting task service"))
    ⊎ ((name : String) × (get_reporting_task_service_selector_pod "nifi" groups
          ≡ ok ("nifi" <> "-node-" <> name <> "-0"))
        × IsFirstName name (candidates groups))
get_reporting_task_service_selector_pod_example =
    get_reporting_task_service_selector_pod_lem "nifi" groups
      (apart "large" "" refl, (apart "idle" "" refl, tt))

abbrev job_builder : ReportingTaskJobBuilder
job_builder = record {
  name = "nifi-create-reporting-task-1-28-1";
  image = image;
  cluster_name = "nifi";
  namespace = "data";
  https_port = 9443;
  metrics_port = 8081;
  authentication = some static_authentication;
  tls_enabled = true;
  tls_secret_class = "tls";
}

job_built : (j : Job.Job) × (Job.build library job_builder ≡ ok j)
unfolding Job.build Job.build_container Job.build_volumes Job.build_volume_mounts
    Authentication.get_volumes Authentication.get_volume_mounts Authentication.find_single
    Authentication.volumes_of Authentication.volume_mounts_of
job_built = ok_value _ refl

build-MountsIn_example :
    (is_empty job_built.0.containers ≡ false)
    × All (λ c. MountsIn job_built.0.volumes c.volume_mounts) job_built.0.containers
build-MountsIn_example = build-MountsIn library library-IsNaming job_builder job_built.0 job_built.1

reporting_registered :
    (rs : List (Resource Unit)) × (register_reporting_task_resources library cluster cluster_config
      ≡ ok rs)
unfolding register_reporting_task_resources Cluster.reporting_task_resources get_image is_nifi_1
    is_job_enabled get_authentication Authentication.new_authentication
    Authentication.collect_authenticators Authentication.get_auth_provider
    Authentication.choose_authenticator Authentication.offered Authentication.append_at
    Authentication.is_supported new_reporting_task_service_builder
    get_reporting_task_service_selector_pod select_role_group sort_by_name
reporting_registered = ok_value _ refl

image_got : get_image library "0.0.0" cluster.spec.image ≡ ok image
unfolding get_image
image_got = refl

register_reporting_task_resources-admitted_example :
    ((reporting_registered.0 ≡ []) × (proxy_host_value library cluster config_map_builder ≡ none))
    ⊎ ((s : ReportingTaskServiceBuilder) × (j : ReportingTaskJobBuilder) × (host : String)
        × (reporting_registered.0 ≡ reporting_task_service s ∷ reporting_task_job j ∷ [])
        × (proxy_host_value library cluster config_map_builder ≡ some host)
        × (nifi_connect_url j ≡ "https://" <> host <> "/nifi-api"))
register_reporting_task_resources-admitted_example =
    register_reporting_task_resources-admitted library cluster cluster_config image
      config_map_builder reporting_registered.0 image_got refl refl refl refl reporting_registered.1

cluster_registered :
    (rs : List (Resource Unit)) × (Cluster.register_resources library cluster ≡ ok rs)
unfolding Cluster.register_resources Cluster.sensitive_key_reconciler Cluster.node_reconciler
    Role.register_resources Role.register_role_groups Role.register_resource_with_role_group
    new_stateful_set_builder new_git_sync_resources register_reporting_task_resources
    Cluster.reporting_task_resources get_image is_nifi_1 is_job_enabled get_authentication
    Authentication.new_authentication Authentication.collect_authenticators
    Authentication.get_auth_provider Authentication.choose_authenticator Authentication.offered
    Authentication.append_at Authentication.is_supported new_reporting_task_service_builder
    get_reporting_task_service_selector_pod select_role_group sort_by_name
cluster_registered = ok_value _ refl

register_resources-accounts_example :
    (account name : String) × (rules : List PolicyRule) × (binding : String) × (role_groups : List
      (RoleGroupResource Unit))
    × (rest : List (Resource Unit)) × (cluster_registered.0
        ≡ service_account account
          ∷ role name rules
          ∷ role_binding binding account name
          ∷ node_role role_groups
          ∷ rest)
    × All (RunsAs library account (cluster.is_stopped cluster.spec.cluster_operation)) role_groups
register_resources-accounts_example =
    register_resources-accounts library cluster cluster_registered.0 cluster_registered.1
