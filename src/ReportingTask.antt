-- ===== src/ReportingTask.antt =====
-- internal/controller/reporting_task: the Service and the Job that install the Prometheus reporting
-- task of NiFi 1.x. The names and the choice of the pod stand here.
pub mod Candidates
pub mod Selector
pub mod Service
pub mod Job
use nifi_operator.Common.{
  String, ◌<>◌, Bool, false, Option, none, some, List, [], ◌∷◌, is_positive, Result, ok, err, ◌==◌,
  if◌then◌else◌,
}
use nifi_operator.Common.Ordered.{sort_by_name}
use nifi_operator.Api.{RoleGroupSpec}

abbrev pub reporting_task_container_name : String
reporting_task_container_name = "reporting-task"

unfoldable pub reporting_task_service_name : String → String
reporting_task_service_name cluster_name = cluster_name <> "-" <> reporting_task_container_name

unfoldable pub reporting_task_fqdn_service_name : String → String → String
unfolding reporting_task_service_name
reporting_task_fqdn_service_name cluster_name namespace =
    reporting_task_service_name cluster_name <> "." <> namespace <> ".svc.cluster.local"

module _ {Overrides : Type 0} where
  -- `rg.Replicas != nil && *rg.Replicas > 0`
  abbrev pub has_replicas : RoleGroupSpec Overrides → Bool
  has_replicas rg = elim rg.replicas [ none ↦ false | some n ↦ is_positive n ]

  -- The loop over the sorted role groups, with `selectorRoleGroup` so far.
  unfoldable pub select_role_group : String → List (String × RoleGroupSpec Overrides) → String
  select_role_group selected [] = selected
  select_role_group selected ((name, rg) ∷ more) =
      let selected' = if selected == "" then name else selected in
      let rest = select_role_group selected' more in if has_replicas rg then name else rest

  unfoldable pub get_reporting_task_service_selector_pod :
      String → List (String × RoleGroupSpec Overrides) → Result String
  get_reporting_task_service_selector_pod cluster_name role_groups =
      let selector_role_group = select_role_group "" (sort_by_name role_groups) in
      if selector_role_group == ""
      then err "no role groups defined for reporting task service"
      else ok (cluster_name <> "-node-" <> selector_role_group <> "-0")
