-- ===== src/Cluster/Pods.antt =====
-- That the API server can take the pods which internal/controller/cluster/cluster.go registers.
use nifi_operator.Common.{String, List, ◌∷◌, ◌++◌, map, ◌≡◌, ok, All, All-imp, Distinct}
use nifi_operator.Kube.{volume_name, MountsIn}
use nifi_operator.OperatorGo.{OperatorGo, IsNaming, Image}
use nifi_operator.Node.StatefulSet.{PodSpec}
use nifi_operator.Node.StatefulSet.Build.{pod_parts}
use nifi_operator.Node.StatefulSet.Wiring.{mounts_of, pod_parts-MountsIn}
use nifi_operator.Node.StatefulSet.Unique.{pod_parts-Distinct}
use nifi_operator.Node.StatefulSet.Unique.Names.{pod_container_names}
use nifi_operator.Node.Role.{RoleGroupResource, config_map, stateful_set, service, admin_secret}
use nifi_operator.Node.Role.Registered.{Registered, register_resources-Registered}
use nifi_operator.Cluster.Parts.{register_resources-parts}
use nifi_operator.Cluster.{
  Resource, node_role, sensitive_key, ClusterReconciler, rbac_resources, node_reconciler,
  register_resources,
}

-- Each mount names a volume, and no two volumes and no two containers have one name.
abbrev pub IsAdmissible : PodSpec → Type 0
IsAdmissible p =
    All (λ k. MountsIn p.volumes (mounts_of k)) (p.init_containers ++ p.containers)
    × Distinct (map volume_name p.volumes)
    × Distinct (pod_container_names p)

-- The parts of the pods, in any namespace, if they are given.
abbrev pub HasAdmissiblePods :
    OperatorGo → {Overrides : Type 0} → RoleGroupResource Overrides → Type 0
HasAdmissiblePods o (stateful_set b _ _ _ _) =
    (namespace : String) (p : PodSpec) → pod_parts o namespace b ≡ ok p → IsAdmissible p
HasAdmissiblePods o (config_map _) = Unit
HasAdmissiblePods o (service _) = Unit
HasAdmissiblePods o (admin_secret _) = Unit

module _ {Overrides : Type 0} (o : OperatorGo) (r : ClusterReconciler Overrides)
    (naming : IsNaming o) where
  has_admissible_pods :
      (image : Image) (x : RoleGroupResource Overrides)
      → Registered o (node_reconciler o r image) x
      → HasAdmissiblePods o x
  unfolding node_reconciler
  has_admissible_pods image (stateful_set b _ _ _ _) (c, _, _, _, _, _, fits) = λ namespace p given.
      let wired =
        pod_parts-MountsIn o naming namespace b.name r.cluster_name "node" c _ _ b p fits.6 given in
      let (volumes, containers) =
        pod_parts-Distinct o naming namespace b.name r.cluster_name c _ _ b p fits.6 given in
      (wired, volumes, containers)
  has_admissible_pods image (config_map _) h = tt
  has_admissible_pods image (service _) h = tt
  has_admissible_pods image (admin_secret _) h = tt

  -- Where a secret volume bears the name that it is built with: if the resources of a cluster are
  -- registered, then in the pods of every StatefulSet of its nodes whose parts are given, each mount of
  -- each container, init containers and git-sync's among them, names one of the pod's volumes, no two
  -- volumes have one name, and no two containers have one name.
  pub register_resources-HasAdmissiblePods :
      (rs : List (Resource Overrides))
      → register_resources o r ≡ ok rs
      → (nodes : List (RoleGroupResource Overrides)) × (before after : List (Resource Overrides))
        × (rs ≡ before ++ node_role nodes ∷ after)
        × All (HasAdmissiblePods o) nodes
  register_resources-HasAdmissiblePods rs e =
      let (image, nodes, c, key, reporting, _, made, _, _, all) =
        register_resources-parts o r rs e in
      (
        nodes,
        rbac_resources r.cluster_name,
        sensitive_key key ∷ reporting,
        all,
        All-imp _ (HasAdmissiblePods o) nodes (has_admissible_pods image)
            (register_resources-Registered o (node_reconciler o r image) nodes made),
      )
