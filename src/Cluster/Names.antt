-- ===== src/Cluster/Names.antt =====
-- That the objects which internal/controller/cluster/cluster.go registers do not take each other's names.
use mathlib.Core.Path.{ap₂}
use text.Mathlib.TextLemmas.{append_cancel_left}
use nifi_operator.Common.{
  values, some-inj, String, ◌<>◌, some, List, [], ◌∷◌, ◌++◌, map, ◌≡◌, ◌≢◌, sym, ◌∙◌, ap, subst,
  ◌⊎◌, inl, inr, arith, ok, deref, ok-inj, >>=-eq-ok, All, All-imp, Distinct, Distinct-append,
}
use nifi_operator.Common.Ending.{first_code, first_code-append}
use nifi_operator.Common.Ordered.{names}
use nifi_operator.Api.{ClusterConfigSpec, RoleGroupSpec, NodesSpec}
use nifi_operator.OperatorGo.{OperatorGo, Image}
use nifi_operator.Security.Secrets.{SecretReconciler}
use nifi_operator.Node.Role.{RoleGroupResource}
use nifi_operator.Node.Role.Named.{
  stateful_set_name, service_name, config_map_name, full_names, register_resources-full_names,
}
use nifi_operator.ReportingTask.{
  reporting_task_service_name, get_reporting_task_service_selector_pod,
}
use nifi_operator.ReportingTask.Job.{ReportingTaskJobBuilder}
use nifi_operator.ReportingTask.Service.{
  ReportingTaskServiceBuilder, new_reporting_task_service_builder,
}
use nifi_operator.Cluster.Parts.{register_resources-parts, register_reporting_task_resources-parts}
use nifi_operator.Cluster.{
  Resource, service_account, role, role_binding, node_role, sensitive_key, reporting_task_service,
  reporting_task_job, ClusterReconciler, get_image, rbac_resources, node_reconciler,
  register_reporting_task_resources, register_resources,
}

module _ {Overrides : Type 0} where
  -- The names of one kind of object, from the resources of the role groups and the Service of the
  -- reporting task.
  abbrev pub names_of :
      (RoleGroupResource Overrides → List String)
      → (ReportingTaskServiceBuilder → List String)
      → Resource Overrides
      → List String
  names_of f g (service_account _) = []
  names_of f g (role _ _) = []
  names_of f g (role_binding _ _ _) = []
  names_of f g (node_role rs) = values f rs
  names_of f g (sensitive_key _) = []
  names_of f g (reporting_task_service s) = g s
  names_of f g (reporting_task_job _) = []

  abbrev pub stateful_set_names : OperatorGo → List (Resource Overrides) → List String
  stateful_set_names o = values (names_of (stateful_set_name o) (λ _. []))

  abbrev pub config_map_names : OperatorGo → List (Resource Overrides) → List String
  config_map_names o = values (names_of (config_map_name o) (λ _. []))

  abbrev pub service_names : OperatorGo → List (Resource Overrides) → List String
  service_names o = values (names_of (service_name o) (λ s. s.name ∷ []))

Distinct-map {ℓ κ} :
    {A : Type ℓ} {B : Type κ} (f : A → B) (xs : List A)
    → ((x y : A) → f x ≡ f y → x ≡ y)
    → Distinct xs
    → Distinct (map f xs)
Distinct-map f [] inj h = tt
Distinct-map {A = A} f (x ∷ xs) inj (new, h) = (others xs new, Distinct-map f xs inj h)
  where
    others : (ys : List A) → All (λ y. x ≢ y) ys → All (λ n. f x ≢ n) (map f ys)
    others [] k = tt
    others (y ∷ ys) (a, k) = ((λ e. a (inj x y e)), others ys k)

module _ (c : String) where
  dashed_inj :
      (g h : String) → c <> "-" <> "node" <> "-" <> g ≡ c <> "-" <> "node" <> "-" <> h → g ≡ h
  dashed_inj g h e =
      append_cancel_left "-" g h
        (append_cancel_left "node" _ _ (append_cancel_left "-" _ _ (append_cancel_left c _ _ e)))

  dashed-ne-reporting_task_service_name :
      (g : String) → c <> "-" <> "node" <> "-" <> g ≢ reporting_task_service_name c
  unfolding reporting_task_service_name
  dashed-ne-reporting_task_service_name g e =
      let rest =
        append_cancel_left "-" ("node" <> "-" <> g) "reporting-task" (append_cancel_left c _ _ e) in
      let first = first_code-append "node" ("-" <> g) (λ f. absurd (omega arith)) in
      absurd (omega (arith, sym first ∙ ap first_code rest))

module _ {Overrides : Type 0} (o : OperatorGo) (r : ClusterReconciler Overrides) where
  -- What the reporting task adds to the names: its Service, or nothing.
  reporting-names :
      (c : ClusterConfigSpec) (image : Image) (rs : List (Resource Overrides))
      → get_image o r.build_version r.spec.image ≡ ok image
      → register_reporting_task_resources o r c ≡ ok rs
      → (rs ≡ [])
        ⊎ ((s : ReportingTaskServiceBuilder) × (j : ReportingTaskJobBuilder) × (rs
              ≡ reporting_task_service s ∷ reporting_task_job j ∷ [])
            × (s.name ≡ reporting_task_service_name r.cluster_name))
  unfolding new_reporting_task_service_builder
  reporting-names c image rs got e =
      elim (register_reporting_task_resources-parts o r c image rs got e) [
        | inl nothing ↦ inl nothing
        | inr (s, j, both, made) ↦
            let (spec, _, rest) = >>=-eq-ok (deref r.spec.nodes) _ made in
            let (pod, _, last) =
              >>=-eq-ok (get_reporting_task_service_selector_pod r.cluster_name spec.role_groups) _
                rest in
            inr (s, j, both, ap (λ x. x.name) (sym (ok-inj last)))
      ]

  reporting-no_names :
      (c : ClusterConfigSpec) (image : Image) (rs : List (Resource Overrides))
      → get_image o r.build_version r.spec.image ≡ ok image
      → register_reporting_task_resources o r c ≡ ok rs
      → (f : RoleGroupResource Overrides → List String) → values (names_of f (λ _. [])) rs ≡ []
  reporting-no_names c image rs got e f = elim (reporting-names c image rs got e) [
    | inl nothing ↦ ap (values (names_of f (λ _. []))) nothing
    | inr (s, j, both, _) ↦ ap (values (names_of f (λ _. []))) both
  ]

  module _ (full_name : (c n g : String) → o.get_full_name c n g ≡ c <> "-" <> n <> "-" <> g) where
    full_names-Distinct :
        (image : Image) (groups : List (String × RoleGroupSpec Overrides))
        → Distinct (names groups)
        → Distinct (full_names o (node_reconciler o r image) groups)
    unfolding node_reconciler
    full_names-Distinct image groups =
        Distinct-map (o.get_full_name r.cluster_name "node") (names groups) λ g h e.
          dashed_inj r.cluster_name g h
            (sym (full_name r.cluster_name "node" g) ∙ e ∙ full_name r.cluster_name "node" h)

    full_names-ne :
        (image : Image) (groups : List (String × RoleGroupSpec Overrides))
        → All
            (λ n. n ≢ reporting_task_service_name r.cluster_name)
            (full_names o (node_reconciler o r image) groups)
    unfolding node_reconciler
    full_names-ne image [] = tt
    full_names-ne image ((g, _) ∷ groups) = (
      λ e.
          dashed-ne-reporting_task_service_name r.cluster_name g
            (sym (full_name r.cluster_name "node" g) ∙ e),
      full_names-ne image groups,
    )

    collected-Distinct :
        (f : RoleGroupResource Overrides → List String)
        (g : ReportingTaskServiceBuilder → List String) (fulls more : List String)
        (nodes : List (RoleGroupResource Overrides)) (key : SecretReconciler)
        (reporting rs : List (Resource Overrides))
        → rs ≡ rbac_resources r.cluster_name ++ node_role nodes ∷ sensitive_key key ∷ reporting
        → values f nodes ≡ fulls
        → values (names_of f g) reporting ≡ more
        → Distinct fulls
        → Distinct more
        → All (λ n. All (λ m. n ≢ m) more) fulls
        → Distinct (values (names_of f g) rs)
    unfolding rbac_resources
    collected-Distinct f g fulls more nodes key reporting rs all own rest h k apart =
        subst Distinct
          (sym (ap (values (names_of f g)) all ∙ ap₂ (λ (xs ys : List String). xs ++ ys) own rest))
          (Distinct-append fulls more h k apart)

    -- Where the library joins the names of the cluster, of the role and of the group by dashes, and
    -- the names of the role groups are distinct: if the resources of a cluster are registered, no two
    -- of its StatefulSets, no two of its ConfigMaps and no two of its Services have one name, the
    -- Service of the reporting task included.
    pub register_resources-Distinct :
        (spec : NodesSpec Overrides) (rs : List (Resource Overrides))
        → r.spec.nodes ≡ some spec
        → Distinct (names spec.role_groups)
        → register_resources o r ≡ ok rs
        → Distinct (stateful_set_names o rs)
          × Distinct (config_map_names o rs)
          × Distinct (service_names o rs)
    unfolding rbac_resources node_reconciler
    register_resources-Distinct spec rs given named e =
        let (image, nodes, c, key, reporting, got, made, _, asked, all) =
          register_resources-parts o r rs e in
        let (spec', is, configs, sets, services) =
          register_resources-full_names o (node_reconciler o r image) nodes made in
        let same : spec' ≡ spec = some-inj (sym is ∙ given) in
        let own =
          full_names-Distinct image spec'.role_groups (
            subst (λ (x : NodesSpec Overrides). Distinct (names x.role_groups)) (sym same) named) in
        let ne = full_names-ne image spec'.role_groups in
        let alone = All-imp _ (λ n. All (λ m. n ≢ m) []) _ (λ n h. tt) ne in
        let others = λ (f : RoleGroupResource Overrides → List String).
          reporting-no_names c image reporting got asked f in
        (
          collected-Distinct _ _ _ [] nodes key reporting rs all sets (others (stateful_set_name o))
              own tt alone,
          collected-Distinct _ _ _ [] nodes key reporting rs all configs
              (others (config_map_name o)) own tt alone,
          elim (reporting-names c image reporting got asked) [
            | inl nothing ↦
                collected-Distinct _ _ _ [] nodes key reporting rs all services
                  (ap (values (names_of (service_name o) (λ s. s.name ∷ []))) nothing) own tt alone
            | inr (s, j, both, is_named) ↦
                collected-Distinct _ _ _ (reporting_task_service_name r.cluster_name ∷ []) nodes key
                  reporting rs all services
                  (ap (values (names_of (service_name o) (λ s. s.name ∷ []))) both
                    ∙ ap (λ n. n ∷ []) is_named)
                  own (tt, tt) (All-imp _ _ _ (λ n h. (h, tt)) ne)
          ],
        )
