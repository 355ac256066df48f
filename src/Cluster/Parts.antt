-- ===== src/Cluster/Parts.antt =====
-- What RegisterResources and registerReportingTaskResources of internal/controller/cluster/cluster.go
-- have made where they succeed.
use nifi_operator.Common.{
  wrap-eq-ok, deref-eq-ok, ℕ, some, List, [], ◌∷◌, ◌++◌, ◌≡◌, sym, ◌∙◌, ap, ◌⊎◌, inl, inr, ok, wrap,
  deref, ok-inj, >>=-eq-ok, Bool-cases, is_some, if◌then◌else◌,
}
use nifi_operator.Api.{ClusterConfigSpec}
use nifi_operator.OperatorGo.{OperatorGo, Image}
use nifi_operator.Security.Secrets.{SecretReconciler}
use nifi_operator.Node.{get_port, is_nifi_1, is_job_enabled}
use nifi_operator.Node.Role
use nifi_operator.Node.Role.{RoleGroupResource, get_authentication}
use nifi_operator.ReportingTask.Service.{
  ReportingTaskServiceBuilder, new_reporting_task_service_builder,
}
use nifi_operator.ReportingTask.Job.{ReportingTaskJobBuilder}
use nifi_operator.Cluster.{
  Resource, node_role, sensitive_key, reporting_task_service, reporting_task_job, ClusterReconciler,
  get_image, rbac_resources, sensitive_key_reconciler, node_reconciler, reporting_task_resources,
  register_reporting_task_resources, register_resources,
}

module _ {Overrides : Type 0} (o : OperatorGo) (r : ClusterReconciler Overrides) where
  key_parts :
      (c : ClusterConfigSpec) (key : Resource Overrides)
      → sensitive_key_reconciler c ≡ ok key
      → (x : SecretReconciler) × (key ≡ sensitive_key x)
  unfolding sensitive_key_reconciler
  key_parts c key e =
      let (s, _, last) = >>=-eq-ok (deref c.sensitive_properties) _ e in (_, sym (ok-inj last))

  -- The accounts, the role of the nodes, the sensitive key and what the reporting task needs.
  pub register_resources-parts :
      (rs : List (Resource Overrides))
      → register_resources o r ≡ ok rs
      → (image : Image) × (nodes : List (RoleGroupResource Overrides)) × (c : ClusterConfigSpec)
        × (key : SecretReconciler) × (reporting : List (Resource Overrides)) × (get_image o
              r.build_version r.spec.image
            ≡ ok image)
        × (Role.register_resources o (node_reconciler o r image) ≡ ok nodes)
        × (r.spec.cluster_config ≡ some c)
        × (register_reporting_task_resources o r c ≡ ok reporting)
        × (rs ≡ rbac_resources r.cluster_name ++ node_role nodes ∷ sensitive_key key ∷ reporting)
  unfolding register_resources
  register_resources-parts rs e =
      let (image, got, e1) = >>=-eq-ok (get_image o r.build_version r.spec.image) _ e in
      let (nodes, made, e2) =
        >>=-eq-ok (Role.register_resources o (node_reconciler o r image)) _ e1 in
      let (c, there, e3) = >>=-eq-ok (deref r.spec.cluster_config) _ e2 in
      let (key, keyed, e4) = >>=-eq-ok (sensitive_key_reconciler {Overrides = Overrides} c) _ e3 in
      let (reporting, asked, last) = >>=-eq-ok (register_reporting_task_resources o r c) _ e4 in
      let (x, is) = key_parts c key keyed in
      (
        image,
        nodes,
        c,
        x,
        reporting,
        got,
        made,
        deref-eq-ok r.spec.cluster_config there,
        asked,
        sym (ok-inj last)
            ∙ ap (λ k. rbac_resources r.cluster_name ++ node_role nodes ∷ k ∷ reporting) is,
      )

  -- The port of the web server.
  abbrev pub web_port : ClusterConfigSpec → ℕ
  web_port c = if is_some c.tls then get_port "https" else get_port "http"

  -- One Service and one Job.
  pub behind_guards :
      (c : ClusterConfigSpec) (image : Image) (rs : List (Resource Overrides))
      → reporting_task_resources o r c image ≡ ok rs
      → (s : ReportingTaskServiceBuilder) × (j : ReportingTaskJobBuilder) × (rs
          ≡ reporting_task_service s ∷ reporting_task_job j ∷ [])
        × (new_reporting_task_service_builder o r.cluster_name r.spec.nodes (web_port c) ≡ ok s)
  unfolding reporting_task_resources
  behind_guards c image rs e =
      let load = get_authentication r.get r.cluster_name (some c) in
      let (auth, _, e1) =
        >>=-eq-ok (wrap "failed to get authentication for reporting task: " load) _ e in
      let make = new_reporting_task_service_builder o r.cluster_name r.spec.nodes (web_port c) in
      let (s, made, last) =
        >>=-eq-ok (wrap "failed to create reporting task service reconciler: " make) _ e1 in
      (s, _, sym (ok-inj last), wrap-eq-ok _ make made)

  -- Nothing, or one Service and one Job.
  pub register_reporting_task_resources-parts :
      (c : ClusterConfigSpec) (image : Image) (rs : List (Resource Overrides))
      → get_image o r.build_version r.spec.image ≡ ok image
      → register_reporting_task_resources o r c ≡ ok rs
      → (rs ≡ [])
        ⊎ ((s : ReportingTaskServiceBuilder) × (j : ReportingTaskJobBuilder) × (rs
              ≡ reporting_task_service s ∷ reporting_task_job j ∷ [])
            × (new_reporting_task_service_builder o r.cluster_name r.spec.nodes (web_port c)
                ≡ ok s))
  unfolding register_reporting_task_resources
  register_reporting_task_resources-parts c image rs got e = elim (Bool-cases (is_job_enabled c)) [
    | inl j ↦ elim (Bool-cases (is_nifi_1 image)) [
      | inl v ↦ inr (behind_guards c image rs (rw (j, got, v) at e))
      | inr v ↦ inl (sym (ok-inj (rw (j, got, v) at e)))
    ]
    | inr j ↦ inl (sym (ok-inj (rw j at e)))
  ]
