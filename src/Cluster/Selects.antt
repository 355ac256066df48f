-- ===== src/Cluster/Selects.antt =====
-- That the Service of the reporting task, registered by internal/controller/cluster/cluster.go, selects
-- a pod that the role of the nodes has.
use text.Mathlib.TextLemmas.{append_assoc}
use mathlib.Core.Bool.{and-true, and_assoc}
use nifi_operator.Common.{
  values, ℕ, String, ◌<>◌, Option, none, some, Bool, true, false, ◌&&◌, List, [], ◌∷◌, ◌++◌, map,
  ◌≡◌, ◌≢◌, sym, ◌∙◌, ap, subst, inl, inr, ok, ok-inj, >>=-eq-ok, Bool-cases, All, contains,
  some-inj, ◌==◌, eq_iff, eq_refl, arith,
}
use nifi_operator.Common.Ordered.{names}
use nifi_operator.Api.{ClusterConfigSpec, RoleGroupSpec, NodesSpec}
use nifi_operator.OperatorGo.{OperatorGo, Image, IsLabelling}
use nifi_operator.Node.Role.{RoleGroupResource}
use nifi_operator.Node.Role.Named.{stateful_set_name, full_names, register_resources-full_names}
use nifi_operator.ReportingTask.{get_reporting_task_service_selector_pod}
use nifi_operator.ReportingTask.Candidates.{scaled, first_choice}
use nifi_operator.ReportingTask.Selector.{get_reporting_task_service_selector_pod_lem}
use nifi_operator.ReportingTask.Service.{
  ReportingTaskServiceBuilder, new_reporting_task_service_builder,
}
use nifi_operator.Cluster.Parts.{
  web_port, register_resources-parts, register_reporting_task_resources-parts,
}
use nifi_operator.Cluster.{
  Resource, service_account, role, role_binding, node_role, sensitive_key, reporting_task_service,
  reporting_task_job, ClusterReconciler, get_image, rbac_resources, node_reconciler,
  register_reporting_task_resources, register_resources,
}

contains-map :
    (f : String → String) (xs : List String) (n : String)
    → contains xs n ≡ true
    → contains (map f xs) (f n) ≡ true
contains-map f [] n h = cc
contains-map f (x ∷ xs) n h = elim (Bool-cases (x == n)) [
  | inl e ↦ ground (arith, eq_refl (f n), ap f ((eq_iff x n).0 e))
  | inr e ↦ ground (arith, contains-map f xs n)
]

module _ {Overrides : Type 0} where
  contains-scaled :
      (groups : List (String × RoleGroupSpec Overrides)) (n : String)
      → contains (names (scaled groups)) n ≡ true
      → contains (names groups) n ≡ true
  contains-scaled [] n h = h
  contains-scaled ((name, rg) ∷ more) n h = ground (arith, contains-scaled more n)

  contains-first_choice :
      (groups chosen : List (String × RoleGroupSpec Overrides)) (n : String)
      → (contains (names chosen) n ≡ true → contains (names groups) n ≡ true)
      → contains (names (first_choice groups chosen)) n ≡ true
      → contains (names groups) n ≡ true
  contains-first_choice groups [] n sub h = h
  contains-first_choice groups (g ∷ gs) n sub h = sub h

  -- The pod that is chosen is the first one of a group.
  selected_group :
      (cluster_name pod : String) (groups : List (String × RoleGroupSpec Overrides))
      → All (λ n. n ≢ "") (names groups)
      → get_reporting_task_service_selector_pod cluster_name groups ≡ ok pod
      → (name : String) × (pod ≡ cluster_name <> "-node-" <> name <> "-0")
        × (contains (names groups) name ≡ true)
  selected_group cluster_name pod groups named e =
      elim (get_reporting_task_service_selector_pod_lem cluster_name groups named) [
        | inl (_, fails) ↦ cc (sym fails ∙ e)
        | inr (name, gives, (there, _)) ↦ (
          name,
          ok-inj (sym e ∙ gives),
          contains-first_choice groups (scaled groups) name (contains-scaled groups name) there,
        )
      ]

abbrev has_label : Option String → String → Bool
has_label none v = false
has_label (some x) v = x == v

-- Whether a Service that asks for labels selects a pod with given ones.
abbrev pub selects : List (String × String) → (String → Option String) → Bool
selects [] labels = true
selects ((k, v) ∷ more) labels = has_label (labels k) v && selects more labels

module _ {Overrides : Type 0} (o : OperatorGo) (r : ClusterReconciler Overrides)
    (labels : (cluster role group pod : String) → String → Option String) where
  -- A Service of the reporting task selects, of all pods of any cluster, role and group, those of this
  -- cluster's nodes that bear the name of pod 0 of one StatefulSet, which is registered.
  abbrev pub SelectsOne : List (RoleGroupResource Overrides) → Resource Overrides → Type 0
  SelectsOne nodes (reporting_task_service s) =
      (name : String) × (contains (values (stateful_set_name o) nodes) name ≡ true)
      × ((c n g pod : String)
          → selects s.matching_labels (labels c n g pod)
            ≡ (c == r.cluster_name && n == "node" && pod == name <> "-0"))
  SelectsOne nodes (reporting_task_job _) = Unit
  SelectsOne nodes (service_account _) = Unit
  SelectsOne nodes (role _ _) = Unit
  SelectsOne nodes (role_binding _ _ _) = Unit
  SelectsOne nodes (node_role _) = Unit
  SelectsOne nodes (sensitive_key _) = Unit

module _ {Overrides : Type 0} (o : OperatorGo) (r : ClusterReconciler Overrides)
    (labels : (cluster role group pod : String) → String → Option String)
    (full_name : (c n g : String) → o.get_full_name c n g ≡ c <> "-" <> n <> "-" <> g)
    (labelled : IsLabelling o labels) where
  regroup :
      (name : String)
      → r.cluster_name <> "-node-" <> name <> "-0"
        ≡ o.get_full_name r.cluster_name "node" name <> "-0"
  regroup name =
      let dashed = append_assoc "-node" "-" name ∙ append_assoc "-" "node" ("-" <> name) in
      let joined = full_name r.cluster_name "node" name in
      sym (
        ap (λ t. t <> "-0") (joined ∙ ap (λ t. r.cluster_name <> t) (sym dashed))
        ∙ append_assoc r.cluster_name ("-node-" <> name) "-0"
        ∙ ap (λ t. r.cluster_name <> t) (append_assoc "-node-" name "-0"))

  selected_pods :
      (pod c n g p : String)
      → selects
          ((o.label_kubernetes_instance, r.cluster_name)
            ∷ (o.label_kubernetes_managed_by, o.kubedoop_domain)
            ∷ (o.label_kubernetes_component, "node")
            ∷ ("statefulset.kubernetes.io/pod-name", pod)
            ∷ [])
          (labels c n g p)
        ≡ (c == r.cluster_name && n == "node" && p == pod)
  selected_pods pod c n g p =
      rw
        (
          labelled.instance_label c n g p,
          labelled.managed_by_label c n g p,
          labelled.component_label c n g p,
          labelled.pod_label c n g p,
          eq_refl o.kubedoop_domain,
        )
        (simp (and-true, and_assoc))

  service-SelectsOne :
      (image : Image) (nodes : List (RoleGroupResource Overrides)) (spec : NodesSpec Overrides)
      (port : ℕ) (s : ReportingTaskServiceBuilder)
      → values (stateful_set_name o) nodes
        ≡ full_names o (node_reconciler o r image) spec.role_groups
      → All (λ n. n ≢ "") (names spec.role_groups)
      → new_reporting_task_service_builder o r.cluster_name (some spec) port ≡ ok s
      → SelectsOne o r labels nodes (reporting_task_service s)
  unfolding new_reporting_task_service_builder node_reconciler
  service-SelectsOne image nodes spec port s registered named e =
      let (pod, chosen, last) =
        >>=-eq-ok (get_reporting_task_service_selector_pod r.cluster_name spec.role_groups) _ e in
      let (name, is, there) = selected_group r.cluster_name pod spec.role_groups named chosen in
      let full = o.get_full_name r.cluster_name "node" name in
      (
        full,
        rw registered (
            contains-map (o.get_full_name r.cluster_name "node") (names spec.role_groups) name
              there),
        λ c n g p.
            ap (λ x. selects x.matching_labels (labels c n g p)) (sym (ok-inj last))
            ∙ selected_pods pod c n g p
            ∙ ap (λ t. c == r.cluster_name && n == "node" && p == t) (is ∙ regroup name),
      )

  reporting-SelectsOne :
      (image : Image) (nodes : List (RoleGroupResource Overrides)) (spec : NodesSpec Overrides)
      (c : ClusterConfigSpec) (rs : List (Resource Overrides))
      → values (stateful_set_name o) nodes
        ≡ full_names o (node_reconciler o r image) spec.role_groups
      → All (λ n. n ≢ "") (names spec.role_groups)
      → r.spec.nodes ≡ some spec
      → get_image o r.build_version r.spec.image ≡ ok image
      → register_reporting_task_resources o r c ≡ ok rs
      → All (SelectsOne o r labels nodes) rs
  reporting-SelectsOne image nodes spec c rs registered named given got e =
      elim (register_reporting_task_resources-parts o r c image rs got e) [
        | inl nothing ↦ subst (All (SelectsOne o r labels nodes)) (sym nothing) tt
        | inr (s, j, both, made) ↦
            let made' =
              subst
                (λ n. new_reporting_task_service_builder o r.cluster_name n (web_port o r c) ≡ ok s)
                given made in
            subst (All (SelectsOne o r labels nodes)) (sym both) (
              service-SelectsOne image nodes spec (web_port o r c) s registered named made',
              (tt, tt),
            )
      ]

  -- Where the library joins the names of the cluster, of the role and of the group by dashes, a pod
  -- has labels with its cluster, the operator's domain, its role and its own name, and no role group
  -- has an empty name: if the resources of a cluster are registered, then the Service of the reporting
  -- task, if there is one, selects, of all pods of any cluster and role, exactly those of this
  -- cluster's role "node" that are called like a StatefulSet that is registered for the role of the
  -- nodes, with -0 behind it.
  pub register_resources-SelectsOne :
      (spec : NodesSpec Overrides) (rs : List (Resource Overrides))
      → r.spec.nodes ≡ some spec
      → All (λ n. n ≢ "") (names spec.role_groups)
      → register_resources o r ≡ ok rs
      → (nodes : List (RoleGroupResource Overrides)) × (before after : List (Resource Overrides))
        × (rs ≡ before ++ node_role nodes ∷ after)
        × All (SelectsOne o r labels nodes) rs
  unfolding rbac_resources node_reconciler
  register_resources-SelectsOne spec rs given named e =
      let (image, nodes, c, key, reporting, got, made, _, asked, all) =
        register_resources-parts o r rs e in
      let (spec', is, _, registered, _) =
        register_resources-full_names o (node_reconciler o r image) nodes made in
      let same : spec' ≡ spec = some-inj (sym is ∙ given) in
      let registered' =
        subst
          (λ (x : NodesSpec Overrides).
            values (stateful_set_name o) nodes
            ≡ full_names o (node_reconciler o r image) x.role_groups)
          same registered in
      let chosen =
        reporting-SelectsOne image nodes spec c reporting registered' named given got asked in
      (
        nodes,
        rbac_resources r.cluster_name,
        sensitive_key key ∷ reporting,
        all,
        subst (All (SelectsOne o r labels nodes)) (sym all) (tt, (tt, (tt, (tt, (tt, chosen))))),
      )
