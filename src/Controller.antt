-- ===== src/Controller.antt =====
-- Reconcile of internal/controller/nificluster_controller.go. The answers of the API server, the parts
-- that the library gives to a cluster's reconciler, and `Run` of the registered resources are
-- parameters.
pub mod Branches
use nifi_operator.Common.{String, List, Result, ok, err, ◌>>=◌}
use nifi_operator.Api.{NifiCluster, group_version}
use nifi_operator.OperatorGo.{OperatorGo, ClusterInfo, GetResult, found, not_found, failed}
use nifi_operator.Cluster.{ClusterReconciler, Resource, new_reconciler, register_resources}

-- The controller's client and the library, as far as a request depends on them.
pub record NifiClusterReconciler {ℓ} (Overrides : Type 0) (State : Type ℓ) : Type ℓ where
  -- the object with a name in a namespace
  pub get : (namespace name : String) → GetResult (NifiCluster Overrides)
  -- what the library makes of the client
  pub base : NifiCluster Overrides → ClusterReconciler Overrides
  pub run : List (Resource Overrides) → State → Result State

module _ {ℓ} {Overrides : Type 0} {State : Type ℓ} (o : OperatorGo)
    (r : NifiClusterReconciler Overrides State) where
  cluster_info : NifiCluster Overrides → ClusterInfo
  cluster_info instance' = record {
    group = group_version.group;
    version = group_version.version;
    kind = "NifiCluster";
    cluster_name = instance'.name;
  }

  -- The reconciler of one cluster.
  unfoldable pub cluster_reconciler : NifiCluster Overrides → ClusterReconciler Overrides
  unfolding cluster_info
  cluster_reconciler instance' =
      new_reconciler (r.base instance') instance'.namespace (cluster_info instance') instance'.spec

  -- A request whose object is gone is done.
  unfoldable pub reconcile : (namespace name : String) → State → Result State
  reconcile namespace name s = elim (r.get namespace name) [
    | failed e ↦ err e
    | not_found ↦ ok s
    | found instance' ↦ register_resources o (cluster_reconciler instance') >>= λ rs. r.run rs s
  ]
