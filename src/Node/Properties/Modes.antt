-- ===== src/Node/Properties/Modes.antt =====
-- The keys of nifi.properties that depend on the cluster, in getNifiProperties of
-- internal/controller/node/configmap.go.
use mathlib.Core.Bool.{and-false}
use nifi_operator.Common.{
  Bool, false, true, not, ◌&&◌, ◌==◌, ==-cons, starts_with, refl, ap, String, ◌<>◌, Option, none,
  some, [], ◌∷◌, ◌≡◌, is_some, if◌then◌else◌, Option-cases, arith,
}
use nifi_operator.Api.{ClusterConfigSpec, CreateReportingTaskJobSpec}
use nifi_operator.OperatorGo.{OperatorGo, Image}
use nifi_operator.Common.Decimal.{print, print_fuel}
use nifi_operator.Common.FilePath
use text.Mathlib.TextLemmas.{append_assoc}
use nifi_operator.ReportingTask.{reporting_task_service_name, reporting_task_fqdn_service_name}
use nifi_operator.Node.{
  get_port, find_port, is_nifi_1, is_job_enabled, nifi_server_tls_dir, NifiConfigMapBuilder,
  use_zookeeper_state_provider,
}
use nifi_operator.Node.Properties.{
  directory_entries, state_files_entries, state_provider, flow_entries, flowfile_entries,
  content_entries, provenance_entries, status_entries, tls_entries, web_entries, security_entries,
  cluster_entries,
}
use nifi_operator.Node.Properties.Build.{
  expects_reporting_task, proxy_entries, algorithm_entries, key_entries, nifi_entries,
}
use nifi_operator.Node.Properties.Entries.{last_value, or_else, last_value-append}

module _ (o : OperatorGo) (namespace : String) (b : NifiConfigMapBuilder) where
  split :
      (k : String)
      → last_value k (nifi_entries o namespace b)
        ≡ or_else (last_value k (cluster_entries b.cluster_config)) (
            or_else (last_value k (security_entries o)) (
              or_else (last_value k (algorithm_entries b.cluster_config)) (
                or_else (last_value k (key_entries o namespace)) (
                  or_else (last_value k (proxy_entries namespace b)) (
                    or_else (last_value k (web_entries o)) (
                      or_else
                        (last_value k (if is_some b.cluster_config.tls then tls_entries o else []))
                        (or_else (last_value k (status_entries o)) (
                          or_else (last_value k (provenance_entries o)) (
                            or_else (last_value k (content_entries o)) (
                              or_else (last_value k (flowfile_entries o)) (
                                or_else
                                  (last_value k (
                                    (
                                      "nifi.state.management.provider.cluster",
                                      state_provider b.cluster_config,
                                    )
                                    ∷ flow_entries o))
                                  (or_else
                                    (last_value k (state_files_entries o))
                                    (last_value k (directory_entries o))))))))))))))
  unfolding nifi_entries
  split k = simp last_value-append

address :
    (a n p : String)
    → ((a <> "-reporting-task") <> "." <> n <> ".svc.cluster.local") <> ":" <> p
      ≡ a <> "-reporting-task." <> n <> ".svc.cluster.local:" <> p
address a n p =
    let tail = n <> ".svc.cluster.local" <> ":" <> p in
    rw (
      append_assoc (a <> "-reporting-task") ("." <> n <> ".svc.cluster.local") (":" <> p),
      append_assoc a "-reporting-task" (("." <> n <> ".svc.cluster.local") <> ":" <> p),
      append_assoc "." (n <> ".svc.cluster.local") (":" <> p),
      append_assoc n ".svc.cluster.local" (":" <> p),
      append_assoc ".svc.cluster.local" ":" p,
      append_assoc "-reporting-task" "." tail,
    )

proxy_host :
    (cluster_name namespace : String)
    → reporting_task_fqdn_service_name cluster_name namespace <> ":" <> print (get_port "https")
      ≡ cluster_name
        <> "-reporting-task."
        <> namespace
        <> ".svc.cluster.local:"
        <> print (get_port "https")
unfolding reporting_task_fqdn_service_name reporting_task_service_name
proxy_host cluster_name namespace = address cluster_name namespace (print (get_port "https"))

-- By the code's own tests.
pub nifi_entries_guarded :
    (o : OperatorGo) (namespace : String) (b : NifiConfigMapBuilder)
    → let value : String → Option String = λ k. last_value k (nifi_entries o namespace b) in
      let zookeeper = use_zookeeper_state_provider b.cluster_config in
      let tls = is_some b.cluster_config.tls in
      (value "nifi.state.management.provider.cluster"
        ≡ some (if zookeeper then "zk-provider" else "kubernetes-provider"))
      × (value "nifi.cluster.leader.election.implementation"
          ≡ some (
              if zookeeper
              then "CuratorLeaderElectionManager"
              else "KubernetesLeaderElectionManager"))
      × (value "nifi.zookeeper.connect.string"
          ≡ (if zookeeper then some "{{ getenv \"ZOOKEEPER_HOSTS\" }}" else none))
      × (value "nifi.zookeeper.root.node"
          ≡ (if zookeeper then some "{{ getenv \"ZOOKEEPER_CHROOT\" }}" else none))
      × (value "nifi.cluster.leader.election.kubernetes.lease.prefix"
          ≡ (if zookeeper then none else some "{{ getenv \"STACKLET_NAME\" }}"))
      × (value "nifi.cluster.protocol.is.secure" ≡ some (if tls then "true" else "false"))
      × (value "nifi.web.https.port" ≡ (if tls then some (print (get_port "https")) else none))
      × (value "nifi.web.http.port" ≡ some (print (get_port "http")))
      × (value "nifi.security.keystore" ≡ (
          if tls then some (FilePath.join (nifi_server_tls_dir o ∷ "keystore.p12" ∷ [])) else none))
      × (value "nifi.web.proxy.host" ≡ (
          if expects_reporting_task b
          then some (
              reporting_task_fqdn_service_name b.cluster_name namespace
              <> ":"
              <> print (get_port "https"))
          else none))
unfolding directory_entries state_files_entries state_provider flow_entries flowfile_entries
    content_entries provenance_entries status_entries tls_entries web_entries security_entries
    key_entries cluster_entries algorithm_entries proxy_entries
nifi_entries_guarded o namespace b =
    let sensitive = Option-cases b.cluster_config.sensitive_properties in
    (
      rw (split o namespace b) (ground (arith, sensitive)),
      rw (split o namespace b) (ground (arith, sensitive)),
      rw (split o namespace b) (ground (arith, sensitive)),
      rw (split o namespace b) (ground (arith, sensitive)),
      rw (split o namespace b) (ground (arith, sensitive)),
      rw (split o namespace b) (ground (arith, sensitive)),
      rw (split o namespace b) (ground (arith, sensitive)),
      rw (split o namespace b) (ground (arith, sensitive)),
      rw (split o namespace b) (ground (arith, sensitive)),
      rw (split o namespace b)
          (rw (proxy_host b.cluster_name namespace) (ground (arith, sensitive))),
    )

-- A name is given, and it is not empty.
abbrev pub is_named : Option String → Bool
is_named none = false
is_named (some String.[]) = false
is_named (some (String.◌∷◌ c s)) = true

-- A version of NiFi 1, with a Job that is enabled.
abbrev pub is_reported : Option Image → Option CreateReportingTaskJobSpec → Bool
is_reported none job = false
is_reported (some image) none = false
is_reported (some image) (some job) = starts_with image.product_version "1." && job.enable

use_zookeeper_state_provider_lem :
    (c : ClusterConfigSpec) → use_zookeeper_state_provider c ≡ is_named c.zookeeper_config_map_name
unfolding use_zookeeper_state_provider
use_zookeeper_state_provider_lem c = given c.zookeeper_config_map_name
  where
    given :
        (name : Option String)
        → (elim name [ none ↦ false | some n ↦ not (n == "") ]) ≡ is_named name
    given none = refl
    given (some String.[]) = refl
    given (some (String.◌∷◌ c s)) = ap not (==-cons c s)

expects_reporting_task_lem :
    (b : NifiConfigMapBuilder)
    → expects_reporting_task b ≡ is_reported b.image b.cluster_config.create_reporting_task_job
unfolding expects_reporting_task is_nifi_1 is_job_enabled
expects_reporting_task_lem b = given b.image b.cluster_config.create_reporting_task_job
  where
    given :
        (image : Option Image) (job : Option CreateReportingTaskJobSpec)
        → (elim image [ none ↦ false | some i ↦ starts_with i.product_version "1." ]
            && elim job [ none ↦ false | some j ↦ j.enable ])
          ≡ is_reported image job
    given none job = refl
    given (some image) none = and-false (starts_with image.product_version "1.")
    given (some image) (some job) = refl

-- Of any builder, the keys of nifi.properties that depend on the cluster, by their last entries:
-- with a ZooKeeper ConfigMap, whose name is given and not empty, the state provider is
-- "zk-provider", the leader is elected by Curator and the two ZooKeeper keys are set; without it the
-- state provider is "kubernetes-provider", the leader is elected over Kubernetes and the prefix of
-- its leases is set; the HTTPS port, the key store and a secure cluster protocol stand there just
-- with TLS; and the host that the proxy check admits is the address of the reporting task's
-- Service, at the HTTPS port, just for an image whose version begins with "1." with a Job that is
-- enabled. The ports are 9443 for HTTPS and 8088 for HTTP.
pub nifi_entries_lem :
    (o : OperatorGo) (namespace : String) (b : NifiConfigMapBuilder)
    → let value : String → Option String = λ k. last_value k (nifi_entries o namespace b) in
      let zookeeper = is_named b.cluster_config.zookeeper_config_map_name in
      let tls = is_some b.cluster_config.tls in
      (value "nifi.state.management.provider.cluster"
        ≡ some (if zookeeper then "zk-provider" else "kubernetes-provider"))
      × (value "nifi.cluster.leader.election.implementation"
          ≡ some (
              if zookeeper
              then "CuratorLeaderElectionManager"
              else "KubernetesLeaderElectionManager"))
      × (value "nifi.zookeeper.connect.string"
          ≡ (if zookeeper then some "{{ getenv \"ZOOKEEPER_HOSTS\" }}" else none))
      × (value "nifi.zookeeper.root.node"
          ≡ (if zookeeper then some "{{ getenv \"ZOOKEEPER_CHROOT\" }}" else none))
      × (value "nifi.cluster.leader.election.kubernetes.lease.prefix"
          ≡ (if zookeeper then none else some "{{ getenv \"STACKLET_NAME\" }}"))
      × (value "nifi.cluster.protocol.is.secure" ≡ some (if tls then "true" else "false"))
      × (value "nifi.web.https.port" ≡ (if tls then some "9443" else none))
      × (value "nifi.web.http.port" ≡ some "8088")
      × (value "nifi.security.keystore" ≡ (
          if tls then some (FilePath.join (nifi_server_tls_dir o ∷ "keystore.p12" ∷ [])) else none))
      × (value "nifi.web.proxy.host" ≡ (
          if is_reported b.image b.cluster_config.create_reporting_task_job
          then some (reporting_task_fqdn_service_name b.cluster_name namespace <> ":9443")
          else none))
unfolding get_port find_port print print_fuel
nifi_entries_lem o namespace b =
    rw (← use_zookeeper_state_provider_lem b.cluster_config, ← expects_reporting_task_lem b)
      (nifi_entries_guarded o namespace b)
