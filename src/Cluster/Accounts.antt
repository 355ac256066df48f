-- ===== src/Cluster/Accounts.antt =====
-- That the pods which internal/controller/cluster/cluster.go registers run under the account that it
-- binds to a role.
use nifi_operator.Common.{
  String, ◌<>◌, Bool, List, ◌∷◌, ◌≡◌, ap, Result, ok, err, panic, ◌>>=◌, All, All-imp,
}
use nifi_operator.OperatorGo.{OperatorGo, Image}
use nifi_operator.Node.{nifi_service_account_name}
use nifi_operator.Node.StatefulSet.{StatefulSetBuilder, PodSpec}
use nifi_operator.Node.StatefulSet.Build.{pod_parts, build}
use nifi_operator.Node.Role.{RoleGroupResource, config_map, stateful_set, service, admin_secret}
use nifi_operator.Node.Role.Registered.{Registered, register_resources-Registered}
use nifi_operator.Cluster.Parts.{register_resources-parts}
use nifi_operator.Cluster.{
  sensitive_key, PolicyRule, Resource, service_account, role, role_binding, node_role,
  ClusterReconciler, rbac_resources, node_reconciler, register_resources,
}

-- A pod, if there is one, has the account.
abbrev pub HasAccount : String → Result PodSpec → Type 0
HasAccount n (ok p) = p.service_account_name ≡ n
HasAccount n (err _) = Unit
HasAccount n panic = Unit

-- The pods of a StatefulSet have the account, whatever the library makes of their parts, and it is
-- stopped or not.
abbrev pub RunsAs :
    OperatorGo → String → Bool → {Overrides : Type 0} → RoleGroupResource Overrides → Type 0
RunsAs o n stop (stateful_set b _ stopped _ _) =
    ((build_base : PodSpec → Result PodSpec) (namespace : String)
      → HasAccount n (build o build_base namespace b))
    × (stopped ≡ stop)
RunsAs o n stop (config_map _) = Unit
RunsAs o n stop (service _) = Unit
RunsAs o n stop (admin_secret _) = Unit

named :
    (n : String) (f : String) (m : Result PodSpec)
    → f ≡ n
    → HasAccount n (m >>= λ pod. ok (record pod { service_account_name = f }))
named n f (ok p) e = e
named n f (err _) e = tt
named n f panic e = tt

build-HasAccount :
    (o : OperatorGo) (b : StatefulSetBuilder) (n : String)
    → nifi_service_account_name b.cluster_name ≡ n
    → (build_base : PodSpec → Result PodSpec) (namespace : String)
    → HasAccount n (build o build_base namespace b)
unfolding build
build-HasAccount o b n e build_base namespace = go (pod_parts o namespace b)
  where
    go :
        (m : Result PodSpec)
        → HasAccount n (
            m >>= λ parts. build_base parts >>= λ pod.
            ok (record pod { service_account_name = nifi_service_account_name b.cluster_name }))
    go (ok parts) = named n (nifi_service_account_name b.cluster_name) (build_base parts) e
    go (err _) = tt
    go panic = tt

module _ {Overrides : Type 0} (o : OperatorGo) (r : ClusterReconciler Overrides) where
  runs :
      (image : Image) (x : RoleGroupResource Overrides)
      → Registered o (node_reconciler o r image) x
      → RunsAs o
          (nifi_service_account_name r.cluster_name)
          (r.is_stopped r.spec.cluster_operation)
          x
  unfolding node_reconciler
  runs image (stateful_set b _ _ _ _) (_, _, _, _, _, _, (_, _, _, same, _, stops, _)) = (
    build-HasAccount o b (nifi_service_account_name r.cluster_name)
        (ap nifi_service_account_name same),
    stops,
  )
  runs image (config_map _) h = tt
  runs image (service _) h = tt
  runs image (admin_secret _) h = tt

  -- Of any cluster: if its resources are registered, they begin with one account, one role and the
  -- binding of this role to this account, and then the role of the nodes, all of whose pods run under
  -- the account, and all of whose StatefulSets are stopped just if the library says so of the cluster's
  -- operation.
  pub register_resources-accounts :
      (rs : List (Resource Overrides))
      → register_resources o r ≡ ok rs
      → (account name : String) × (rules : List PolicyRule) × (binding : String) × (nodes : List
          (RoleGroupResource Overrides))
        × (rest : List (Resource Overrides)) × (rs
            ≡ service_account account
              ∷ role name rules
              ∷ role_binding binding account name
              ∷ node_role nodes
              ∷ rest)
        × All (RunsAs o account (r.is_stopped r.spec.cluster_operation)) nodes
  unfolding rbac_resources node_reconciler
  register_resources-accounts rs e =
      let (image, nodes, c, key, reporting, _, made, _, _, all) =
        register_resources-parts o r rs e in
      let account = nifi_service_account_name r.cluster_name in
      let fits = register_resources-Registered o (node_reconciler o r image) nodes made in
      (
        account,
        r.cluster_name <> "-nifi",
        _,
        r.cluster_name <> "-nifi",
        nodes,
        sensitive_key key ∷ reporting,
        all,
        All-imp (Registered o (node_reconciler o r image)) (RunsAs o account _) nodes (runs image)
            fits,
      )
