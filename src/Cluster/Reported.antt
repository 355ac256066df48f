-- ===== src/Cluster/Reported.antt =====
-- When internal/controller/cluster/cluster.go registers the reporting task, and that NiFi admits the
-- host which its Job, of internal/controller/reporting_task/job.go, calls.
use nifi_operator.Common.{
  String, ◌<>◌, Bool, true, false, ◌&&◌, Option, none, some, List, [], ◌∷◌, ◌≡◌, refl, sym, ◌∙◌, ap,
  ◌⊎◌, inl, inr, ok, wrap, ok-inj, >>=-eq-ok, is_some, Bool-cases, if◌then◌else◌,
}
use text.Mathlib.TextLemmas.{append_assoc}
use nifi_operator.Common.Decimal.{print}
use nifi_operator.Api.{ClusterConfigSpec}
use nifi_operator.OperatorGo.{OperatorGo, Image}
use nifi_operator.Node.{get_port, is_nifi_1, is_job_enabled, NifiConfigMapBuilder}
use nifi_operator.Node.Role.{get_authentication}
use nifi_operator.Node.Properties.Build.{expects_reporting_task, nifi_entries}
use nifi_operator.Node.Properties.Entries.{last_value}
use nifi_operator.Node.Properties.Modes.{nifi_entries_guarded}
use nifi_operator.ReportingTask.{reporting_task_fqdn_service_name}
use nifi_operator.ReportingTask.Service.{
  ReportingTaskServiceBuilder, new_reporting_task_service_builder,
}
use nifi_operator.ReportingTask.Job.{
  ReportingTaskJobBuilder, new_reporting_task_job_builder, nifi_connect_url,
}
use nifi_operator.Cluster.{
  Resource, reporting_task_service, reporting_task_job, ClusterReconciler, get_image,
  reporting_task_resources, register_reporting_task_resources,
}

regroup : (f p : String) → (f <> ":" <> p) <> "/nifi-api" ≡ f <> ":" <> p <> "/nifi-api"
regroup f p =
    append_assoc f (":" <> p) "/nifi-api" ∙ ap (λ t. f <> t) (append_assoc ":" p "/nifi-api")

and_false : (b : Bool) → b && false ≡ false
and_false true = refl
and_false false = refl

module _ {Overrides : Type 0} (o : OperatorGo) (r : ClusterReconciler Overrides) where
  abbrev pub proxy_host_value : (m : NifiConfigMapBuilder) → Option String
  proxy_host_value m = last_value "nifi.web.proxy.host" (nifi_entries o r.namespace m)

  -- The guards of the code are the condition under which nifi.properties names the host.
  guarded :
      (c : ClusterConfigSpec) (image : Image) (m : NifiConfigMapBuilder)
      (rs : List (Resource Overrides))
      → get_image o r.build_version r.spec.image ≡ ok image
      → m.cluster_config ≡ c
      → m.image ≡ some image
      → register_reporting_task_resources o r c ≡ ok rs
      → ((expects_reporting_task m ≡ false) × (rs ≡ []))
        ⊎ ((expects_reporting_task m ≡ true) × (reporting_task_resources o r c image ≡ ok rs))
  unfolding register_reporting_task_resources expects_reporting_task
  guarded c image m rs got same imaged e = elim (Bool-cases (is_job_enabled c)) [
    | inl j ↦ elim (Bool-cases (is_nifi_1 image)) [
      | inl v ↦ inr (rw (same, imaged, v, j), rw (j, got, v) at e)
      | inr v ↦ inl (rw (same, imaged, v), sym (ok-inj (rw (j, got, v) at e)))
    ]
    | inr j ↦ inl (rw (same, imaged, j) (and_false (is_nifi_1 image)), sym (ok-inj (rw j at e)))
  ]

  -- The service and the job that are registered.
  registered :
      (c : ClusterConfigSpec) (image : Image) (rs : List (Resource Overrides))
      → is_some c.tls ≡ true
      → reporting_task_resources o r c image ≡ ok rs
      → (s : ReportingTaskServiceBuilder) × (j : ReportingTaskJobBuilder) × (rs
          ≡ reporting_task_service s ∷ reporting_task_job j ∷ [])
        × (nifi_connect_url j
            ≡ "https://"
              <> reporting_task_fqdn_service_name r.cluster_name r.namespace
              <> ":"
              <> print (get_port "https")
              <> "/nifi-api")
  unfolding reporting_task_resources nifi_connect_url new_reporting_task_job_builder
  registered c image rs tls e =
      let load = get_authentication r.get r.cluster_name (some c) in
      let (auth, _, e1) =
        >>=-eq-ok (wrap "failed to get authentication for reporting task: " load) _ e in
      let make =
        new_reporting_task_service_builder o r.cluster_name r.spec.nodes
          (if is_some c.tls then get_port "https" else get_port "http") in
      let (s, _, last) =
        >>=-eq-ok (wrap "failed to create reporting task service reconciler: " make) _ e1 in
      (s, _, sym (ok-inj last), rw tls)

  -- Of any cluster with TLS, and any builder of nifi.properties for its configuration, its image and
  -- its name: if the reporting task's resources are registered without an error, then either there
  -- are none and nifi.properties has no nifi.web.proxy.host, or they are one Service and one Job, and
  -- the Job calls NiFi over HTTPS at the very host and port that nifi.web.proxy.host admits.
  pub register_reporting_task_resources-admitted :
      (c : ClusterConfigSpec) (image : Image) (m : NifiConfigMapBuilder)
      (rs : List (Resource Overrides))
      → get_image o r.build_version r.spec.image ≡ ok image
      → m.cluster_config ≡ c
      → m.image ≡ some image
      → m.cluster_name ≡ r.cluster_name
      → is_some c.tls ≡ true
      → register_reporting_task_resources o r c ≡ ok rs
      → ((rs ≡ []) × (proxy_host_value m ≡ none))
        ⊎ ((s : ReportingTaskServiceBuilder) × (j : ReportingTaskJobBuilder) × (host : String) × (rs
              ≡ reporting_task_service s ∷ reporting_task_job j ∷ [])
            × (proxy_host_value m ≡ some host)
            × (nifi_connect_url j ≡ "https://" <> host <> "/nifi-api"))
  register_reporting_task_resources-admitted c image m rs got same imaged named tls e =
      let (_, _, _, _, _, _, _, _, _, proxied) = nifi_entries_guarded o r.namespace m in
      elim (guarded c image m rs got same imaged e) [
        | inl (g, empty) ↦ inl (empty, rw g at proxied)
        | inr (g, made) ↦
            let (s, j, listed, called) = registered c image rs tls made in
            let fqdn = reporting_task_fqdn_service_name m.cluster_name r.namespace in
            let port = print (get_port "https") in
            inr (
              s,
              j,
              fqdn <> ":" <> port,
              listed,
              rw g at proxied,
              called
                  ∙ ap
                      (λ n.
                        "https://"
                        <> reporting_task_fqdn_service_name n r.namespace
                        <> ":"
                        <> port
                        <> "/nifi-api")
                      (sym named)
                  ∙ ap (λ t. "https://" <> t) (sym (regroup fqdn port)),
            )
      ]
