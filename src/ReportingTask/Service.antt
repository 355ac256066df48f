-- ===== src/ReportingTask/Service.antt =====
-- The Service of the reporting task: internal/controller/reporting_task/service.go.
use nifi_operator.Common.{ℕ, String, Option, List, [], ◌∷◌, Result, ok, deref, ◌>>=◌}
use nifi_operator.Kube.{ContainerPort}
use nifi_operator.Api.{NodesSpec}
use nifi_operator.OperatorGo.{OperatorGo}
use nifi_operator.ReportingTask.{
  reporting_task_service_name, get_reporting_task_service_selector_pod,
}

-- What operator-go's builder is given.
pub record ReportingTaskServiceBuilder : Type 0 where
  pub name : String
  pub ports : List ContainerPort
  pub matching_labels : List (String × String)

abbrev pub pod_name_label : String
pod_name_label = "statefulset.kubernetes.io/pod-name"

unfoldable pub new_reporting_task_service_builder :
    {Overrides : Type 0}
    → OperatorGo
    → String
    → Option (NodesSpec Overrides)
    → ℕ
    → Result ReportingTaskServiceBuilder
new_reporting_task_service_builder o cluster_name nodes https_port = do
  spec ← deref nodes
  selector_pod ← get_reporting_task_service_selector_pod cluster_name spec.role_groups
  ok (record {
    name = reporting_task_service_name cluster_name;
    ports = record { name = "https"; container_port = https_port } ∷ [];
    matching_labels =
        (o.label_kubernetes_instance, cluster_name)
        ∷ (o.label_kubernetes_managed_by, o.kubedoop_domain)
        ∷ (o.label_kubernetes_component, "node")
        ∷ (pod_name_label, selector_pod)
        ∷ [];
  })

-- `NewReportingTaskServiceReconciler`: a reconciler is its builder here.
abbrev pub new_reporting_task_service_reconciler :
    {Overrides : Type 0}
    → OperatorGo
    → String
    → Option (NodesSpec Overrides)
    → ℕ
    → Result ReportingTaskServiceBuilder
new_reporting_task_service_reconciler o cluster_name nodes https_port =
    new_reporting_task_service_builder o cluster_name nodes https_port
