-- ===== src/Cluster/Reports.antt =====
-- When getReportingTaskResources and registerReportingTaskResources of
-- internal/controller/cluster/cluster.go succeed.
use nifi_operator.Common.{
  is_empty, is_empty-eq, ℕ, String, true, false, ◌&&◌, some, List, [], ◌≡◌, ◌≢◌, sym, ◌∙◌, ap,
  subst, inl, inr, ok, Bool-cases, All, contains, status-succeeds, if◌then◌else◌,
}
use nifi_operator.Common.Ordered.{names}
use nifi_operator.Api.{ClusterConfigSpec, AuthenticationSpec, RoleGroupSpec, NodesSpec}
use nifi_operator.OperatorGo.{OperatorGo, Image}
use nifi_operator.Security.Authentication.{Authentication, new_authentication}
use nifi_operator.Node.{is_nifi_1, is_job_enabled}
use nifi_operator.Node.Role.{get_authentication}
use nifi_operator.ReportingTask.Candidates.{candidates}
use nifi_operator.ReportingTask.Selector.{get_reporting_task_service_selector_pod_lem}
use nifi_operator.ReportingTask.Service.{
  ReportingTaskServiceBuilder, new_reporting_task_service_builder,
}
use nifi_operator.Cluster.Parts.{web_port, behind_guards}
use nifi_operator.Cluster.{
  Resource, ClusterReconciler, get_image, reporting_task_resources,
  register_reporting_task_resources,
}

module _ {Overrides : Type 0} (o : OperatorGo) (r : ClusterReconciler Overrides) where
  -- The authentication that the configuration names is loaded.
  abbrev pub IsAuthenticated : ClusterConfigSpec → Type 0
  IsAuthenticated c =
      (specs : List AuthenticationSpec) × (a : Authentication) × (c.authentication ≡ some specs)
      × (new_authentication r.get r.cluster_name specs ≡ ok a)

  -- The Service of the reporting task can be made exactly if there is a role group.
  service_made :
      (spec : NodesSpec Overrides) (port : ℕ)
      → All (λ n. n ≢ "") (names spec.role_groups)
      → is_empty spec.role_groups ≡ false
      → (s : ReportingTaskServiceBuilder) × (new_reporting_task_service_builder o r.cluster_name
            (some spec)
            port
          ≡ ok s)
  unfolding new_reporting_task_service_builder
  service_made spec port named filled =
      elim (get_reporting_task_service_selector_pod_lem r.cluster_name spec.role_groups named) [
        | inl (empty, _) ↦ cc (sym filled ∙ ap is_empty empty)
        | inr (_, gives, _) ↦ status-succeeds _ (rw gives)
      ]

  service_filled :
      (spec : NodesSpec Overrides) (port : ℕ) (s : ReportingTaskServiceBuilder)
      → All (λ n. n ≢ "") (names spec.role_groups)
      → new_reporting_task_service_builder o r.cluster_name (some spec) port ≡ ok s
      → is_empty spec.role_groups ≡ false
  unfolding new_reporting_task_service_builder
  service_filled spec port s named e =
      elim (get_reporting_task_service_selector_pod_lem r.cluster_name spec.role_groups named) [
        | inl (_, refused) ↦ cc (rw refused at e)
        | inr (name, gives, (there, _)) ↦ elim (Bool-cases (is_empty spec.role_groups)) [
          | inr filled ↦ filled
          | inl empty ↦ cc (
              subst
                (λ (g : List (String × RoleGroupSpec Overrides)).
                  contains (names (candidates g)) name ≡ true)
                (is_empty-eq spec.role_groups empty) there)
        ]
      ]

  pub reports_filled :
      (spec : NodesSpec Overrides) (c : ClusterConfigSpec) (image : Image)
      (rs : List (Resource Overrides))
      → All (λ n. n ≢ "") (names spec.role_groups)
      → r.spec.nodes ≡ some spec
      → reporting_task_resources o r c image ≡ ok rs
      → is_empty spec.role_groups ≡ false
  reports_filled spec c image rs named given e =
      let (s, _, _, made) = behind_guards o r c image rs e in
      service_filled spec (web_port o r c) s named (
        subst (λ n. new_reporting_task_service_builder o r.cluster_name n (web_port o r c) ≡ ok s)
          given made)

  pub reports_made :
      (spec : NodesSpec Overrides) (c : ClusterConfigSpec) (image : Image)
      → All (λ n. n ≢ "") (names spec.role_groups)
      → r.spec.nodes ≡ some spec
      → is_empty spec.role_groups ≡ false
      → IsAuthenticated c
      → (rs : List (Resource Overrides)) × (reporting_task_resources o r c image ≡ ok rs)
  unfolding reporting_task_resources get_authentication
  reports_made spec c image named given filled (specs, a, asked, loaded) =
      let (s, made) = service_made spec (web_port o r c) named filled in
      status-succeeds _ (rw (asked, loaded, given, made))

  -- The reporting task is registered behind its two guards.
  pub reports_guarded :
      (c : ClusterConfigSpec) (image : Image)
      → get_image o r.build_version r.spec.image ≡ ok image
      → register_reporting_task_resources o r c ≡ (
          if is_job_enabled c && is_nifi_1 image
          then reporting_task_resources o r c image
          else ok [])
  unfolding register_reporting_task_resources
  reports_guarded c image got = elim (Bool-cases (is_job_enabled c)) [
    | inl j ↦ rw (j, got)
    | inr j ↦ rw j
  ]
