-- ===== src/Cluster.antt =====
-- The resources of one NifiCluster: internal/controller/cluster/cluster.go.
pub mod Parts
pub mod Reported
pub mod Accounts
pub mod Selects
pub mod Reports
pub mod Outcome
pub mod Reordered
pub mod Names
pub mod Pods
use nifi_operator.Common.{
  ℕ, String, ◌<>◌, Bool, true, false, Option, none, some, List, [], ◌∷◌, ◌++◌, Result, ok, err,
  wrap, deref, ◌>>=◌, ◌==◌, is_some, if◌then◌else◌,
}
use nifi_operator.Api.{
  ClusterConfigSpec, ClusterOperationSpec, ImageSpec, NifiClusterSpec, default_product_name,
  default_product_version,
}
use nifi_operator.OperatorGo.{OperatorGo, ClusterInfo, Image, GetResult}
use nifi_operator.Security.{AuthenticationProvider}
use nifi_operator.Security.Secrets.{SecretReconciler, new_sensitive_key_reconciler}
use nifi_operator.Security.Authentication.{Authentication}
use nifi_operator.Node.{get_port, is_nifi_1, is_job_enabled, nifi_service_account_name}
use nifi_operator.Node.Role
use nifi_operator.Node.Role.{RoleReconciler, RoleGroupResource}
use nifi_operator.ReportingTask.Service.{
  ReportingTaskServiceBuilder, new_reporting_task_service_reconciler,
}
use nifi_operator.ReportingTask.Job.{ReportingTaskJobBuilder, new_reporting_task_job_reconciler}

pub record PolicyRule : Type 0 where
  pub api_groups : List String
  pub resources : List String
  pub verbs : List String

pub data Resource (Overrides : Type 0) : Type 0 where
  service_account : (name : String) → Resource Overrides
  role : (name : String) → (rules : List PolicyRule) → Resource Overrides
  role_binding : (name : String) → (subject : String) → (role_ref : String) → Resource Overrides
  node_role : List (RoleGroupResource Overrides) → Resource Overrides
  sensitive_key : SecretReconciler → Resource Overrides
  reporting_task_service : ReportingTaskServiceBuilder → Resource Overrides
  reporting_task_job : ReportingTaskJobBuilder → Resource Overrides

-- The cluster's reconciler: what it takes from the library, and the cluster.
pub record ClusterReconciler (Overrides : Type 0) : Type 0 where
  -- the reconciler of the nodes' role, but for the fields that `RegisterResources` gives it
  pub role : RoleReconciler Overrides
  pub get : String → GetResult (Option AuthenticationProvider)
  pub namespace : String
  pub cluster_name : String
  pub build_version : String
  -- `IsStopped` of the library, from the cluster's operation
  pub is_stopped : Option ClusterOperationSpec → Bool
  pub spec : NifiClusterSpec Overrides

all_verbs : List String
all_verbs = "get" ∷ "list" ∷ "watch" ∷ "create" ∷ "update" ∷ "patch" ∷ "delete" ∷ []

policy_rules : List PolicyRule
unfolding all_verbs
policy_rules =
    record { api_groups = "coordination.k8s.io" ∷ []; resources = "leases" ∷ []; verbs = all_verbs }
    ∷ record { api_groups = "" ∷ []; resources = "configmaps" ∷ []; verbs = all_verbs }
    ∷ []

module _ (o : OperatorGo) where
  -- `GetImage`: the image and its pull policy are followed without a test.
  unfoldable pub get_image : String → Option ImageSpec → Result Image
  get_image build_version spec = do
    s ← deref spec
    let product_version =
        if s.product_version == "" then default_product_version else s.product_version
    pull_policy ← deref s.pull_policy
    let image =
        o.new_image default_product_name build_version product_version s.custom s.repo pull_policy
    ok (
        if s.kubedoop_version == ""
        then image
        else record image { kubedoop_version = s.kubedoop_version })

module _ {Overrides : Type 0} where
  -- `NewReconciler`. What the client and the library give is taken from `base`; of the cluster's
  -- information, the library uses the kind and the program the name.
  unfoldable pub new_reconciler :
      ClusterReconciler Overrides
      → (namespace : String) → ClusterInfo
      → NifiClusterSpec Overrides
      → ClusterReconciler Overrides
  new_reconciler base namespace info spec = record base {
    namespace = namespace;
    cluster_name = info.cluster_name;
    spec = spec;
  }

  unfoldable pub rbac_resources : String → List (Resource Overrides)
  unfolding policy_rules
  rbac_resources cluster_name =
      service_account (nifi_service_account_name cluster_name)
      ∷ role (cluster_name <> "-nifi") policy_rules
      ∷ role_binding (cluster_name <> "-nifi") (nifi_service_account_name cluster_name)
          (cluster_name <> "-nifi")
      ∷ []

  unfoldable pub sensitive_key_reconciler : ClusterConfigSpec → Result (Resource Overrides)
  sensitive_key_reconciler c = do
    s ← deref c.sensitive_properties
    ok (sensitive_key (new_sensitive_key_reconciler s.key_secret s.auto_generate))

  module _ (o : OperatorGo) (r : ClusterReconciler Overrides) where
    -- `getAuthentication`, which has the body of the role's.
    abbrev pub get_authentication : Option ClusterConfigSpec → Result (Option Authentication)
    get_authentication cluster_config = Role.get_authentication r.get r.cluster_name cluster_config

    -- The part of `registerReportingTaskResources` behind its two guards.
    unfoldable pub reporting_task_resources :
        ClusterConfigSpec → Image → Result (List (Resource Overrides))
    reporting_task_resources c image = do
      auth ← wrap "failed to get authentication for reporting task: " (get_authentication (some c))
      let tls_enabled = is_some c.tls
      let tls_secret_class : String = elim c.tls [ none ↦ "" | some tls ↦ tls.server_secret_class ]
      let web_port = if tls_enabled then get_port "https" else get_port "http"
      service ←
          wrap "failed to create reporting task service reconciler: "
            (new_reporting_task_service_reconciler o r.cluster_name r.spec.nodes web_port)
      let job =
          new_reporting_task_job_reconciler r.namespace r.cluster_name image web_port 8081 auth
            tls_enabled tls_secret_class
      ok (reporting_task_service service ∷ reporting_task_job job ∷ [])

    unfoldable pub register_reporting_task_resources :
        ClusterConfigSpec → Result (List (Resource Overrides))
    register_reporting_task_resources c =
        if is_job_enabled c
        then (get_image o r.build_version r.spec.image >>= λ image.
            if is_nifi_1 image then reporting_task_resources c image else ok [])
        else ok []

    -- The reconciler that `NewReconciler` of the node package makes.
    unfoldable pub node_reconciler : Image → RoleReconciler Overrides
    node_reconciler image =
        Role.new_reconciler (record r.role { get = r.get }) (r.is_stopped r.spec.cluster_operation)
          r.spec.cluster_config r.cluster_name "node" image r.spec.nodes

    unfoldable pub register_resources : Result (List (Resource Overrides))
    register_resources = do
      image ← get_image o r.build_version r.spec.image
      nodes ← Role.register_resources o (node_reconciler image)
      c ← deref r.spec.cluster_config
      key ← sensitive_key_reconciler c
      reporting ← register_reporting_task_resources c
      ok (rbac_resources r.cluster_name ++ node_role nodes ∷ key ∷ reporting)
