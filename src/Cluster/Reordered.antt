-- ===== src/Cluster/Reordered.antt =====
-- That the order in which internal/controller/cluster/cluster.go meets the role groups of a cluster
-- does not matter.
use mathlib.Core.List.{Permᴰ}
use nifi_operator.Common.{
  String, some, List, ◌∷◌, ◌++◌, ◌≡◌, refl, Result, ok, ◌>>=◌, deref, Agree, >>=-Agree,
  >>=-Agree_self, Distinct,
}
use nifi_operator.Common.Ordered.{names}
use nifi_operator.Api.{ClusterConfigSpec, RoleGroupSpec, NodesSpec}
use nifi_operator.OperatorGo.{OperatorGo}
use nifi_operator.Cluster.Outcome.{nodes-IsMerging}
use nifi_operator.Node.Role.{RoleGroupResource}
use nifi_operator.Node.Role.Outcome.{IsMerging}
use nifi_operator.Node.Role.Reordered.{register_resources-perm}
use nifi_operator.ReportingTask.Selector.{get_reporting_task_service_selector_pod-perm}
use nifi_operator.ReportingTask.Service.{new_reporting_task_service_builder}
use nifi_operator.Cluster.{
  Resource, node_role, ClusterReconciler, get_image, rbac_resources, sensitive_key_reconciler,
  node_reconciler, reporting_task_resources, register_reporting_task_resources, register_resources,
}

module _ {Overrides : Type 0} where
  -- The cluster with the groups of its nodes met in some order.
  abbrev pub in_order :
      ClusterReconciler Overrides
      → NodesSpec Overrides
      → List (String × RoleGroupSpec Overrides)
      → ClusterReconciler Overrides
  in_order r spec groups = record r {
    spec = record r.spec { nodes = some (record spec { role_groups = groups }) };
  }

  -- The same resources in the same order, but for those of the nodes' role, which are the same in
  -- any order.
  abbrev pub SameButNodes : List (Resource Overrides) → List (Resource Overrides) → Type 0
  SameButNodes xs ys =
      (before : List (Resource Overrides)) × (after : List (Resource Overrides)) × (ns : List
        (RoleGroupResource Overrides))
      × (ms : List (RoleGroupResource Overrides)) × (xs ≡ before ++ node_role ns ∷ after)
      × (ys ≡ before ++ node_role ms ∷ after)
      × Permᴰ ns ms

  in_place :
      (before : List (Resource Overrides)) (ns ms : List (RoleGroupResource Overrides))
      (key : Resource Overrides) (m : Result (List (Resource Overrides)))
      → Permᴰ ns ms
      → Agree SameButNodes
          (m >>= λ reporting. ok (before ++ node_role ns ∷ key ∷ reporting))
          (m >>= λ reporting. ok (before ++ node_role ms ∷ key ∷ reporting))
  in_place before ns ms key m p =
      >>=-Agree_self SameButNodes m _ _
        λ reporting. (before, key ∷ reporting, ns, ms, refl, refl, p)

module _ {Overrides : Type 0} (o : OperatorGo) (r : ClusterReconciler Overrides)
    (spec : NodesSpec Overrides) where
  register_reporting_task_resources-perm :
      {xs ys : List (String × RoleGroupSpec Overrides)}
      → Permᴰ xs ys
      → Distinct (names xs)
      → (c : ClusterConfigSpec)
      → register_reporting_task_resources o (in_order r spec xs) c
        ≡ register_reporting_task_resources o (in_order r spec ys) c
  unfolding register_reporting_task_resources reporting_task_resources
      new_reporting_task_service_builder
  register_reporting_task_resources-perm p d c =
      rw (get_reporting_task_service_selector_pod-perm r.cluster_name p d)

  -- Where any two values are merged and the names of the groups are distinct: two runs that meet the
  -- role groups of a cluster in different orders register the same resources, those of the nodes'
  -- role up to their order, or end in the same error, or both in a nil pointer.
  pub register_resources-in_order :
      IsMerging r.role
      → {xs ys : List (String × RoleGroupSpec Overrides)} → Permᴰ xs ys
      → Distinct (names xs)
      → Agree SameButNodes
          (register_resources o (in_order r spec xs))
          (register_resources o (in_order r spec ys))
  unfolding register_resources node_reconciler
  register_resources-in_order merging {xs} {ys} p d =
      >>=-Agree_self SameButNodes (get_image o r.build_version r.spec.image) _ _ λ image.
        >>=-Agree Permᴰ SameButNodes _ _ _ _
          (register_resources-perm o (node_reconciler o r image) (nodes-IsMerging o r merging image)
            spec p)
          λ ns ms same. >>=-Agree_self SameButNodes (deref r.spec.cluster_config) _ _ λ c.
            >>=-Agree_self SameButNodes (sensitive_key_reconciler c) _ _ λ key.
              rw (register_reporting_task_resources-perm p d c) (
                in_place (rbac_resources r.cluster_name) ns ms key
                  (register_reporting_task_resources o (in_order r spec ys) c) same)
