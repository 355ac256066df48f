-- ===== src/Cluster/Outcome.antt =====
-- When RegisterResources of internal/controller/cluster/cluster.go succeeds.
use nifi_operator.Common.{
  wrap-eq-ok, deref-eq-ok, is_empty, String, true, false, ◌&&◌, none, some, List, [], ◌∷◌, ◌≡◌, ◌≢◌,
  refl, sym, ◌∙◌, ap, ◌↔◌, ◌⊎◌, inl, inr, ok, deref, >>=-eq-ok, >>=-ok, Bool-cases, Option-cases,
  All, Status, succeeds, panics, status, status-succeeds,
}
use nifi_operator.Common.Ordered.{names}
use nifi_operator.Api.{ClusterConfigSpec, SensitivePropertiesSpec, RoleGroupSpec, NodesSpec}
use nifi_operator.OperatorGo.{OperatorGo, Image}
use nifi_operator.Security.Authentication.{new_authentication}
use nifi_operator.Node.{is_nifi_1, is_job_enabled}
use nifi_operator.Node.Role
use nifi_operator.Node.Role.{RoleReconciler, get_authentication}
use nifi_operator.Node.Role.Outcome.{
  IsMerging, group_status, role_status, register_resources-status,
}
use nifi_operator.Cluster.{
  Resource, ClusterReconciler, get_image, sensitive_key_reconciler, node_reconciler,
  register_reporting_task_resources, register_resources,
}
use nifi_operator.Cluster.Reports.{IsAuthenticated, reports_filled, reports_made, reports_guarded}

module _ {Overrides : Type 0} (o : OperatorGo) (r : ClusterReconciler Overrides) where
  -- A configuration with all that the registration needs: an image with a pull policy, a cluster
  -- configuration with sensitive properties, nodes, and an authentication if there are role groups;
  -- without role groups, no reporting task.
  abbrev pub IsComplete : Type 0
  IsComplete =
      (image : Image) × (c : ClusterConfigSpec) × (s : SensitivePropertiesSpec) × (spec : NodesSpec
        Overrides)
      × (get_image o r.build_version r.spec.image ≡ ok image)
      × (r.spec.cluster_config ≡ some c)
      × (c.sensitive_properties ≡ some s)
      × (r.spec.nodes ≡ some spec)
      × (((is_empty spec.role_groups ≡ true) × (is_job_enabled c && is_nifi_1 image ≡ false))
          ⊎ ((is_empty spec.role_groups ≡ false) × IsAuthenticated o r c))

  pub nodes-IsMerging : IsMerging r.role → (image : Image) → IsMerging (node_reconciler o r image)
  unfolding node_reconciler
  nodes-IsMerging m image = record {
    config_merged = m.config_merged;
    overrides_merged = m.overrides_merged;
  }

  group_status-succeeds :
      (image : Image) (c : ClusterConfigSpec)
      → r.spec.cluster_config ≡ some c
      → (group_status (node_reconciler o r image) ≡ succeeds) ↔ IsAuthenticated o r c
  unfolding node_reconciler
  group_status-succeeds image c given = (
    λ e. elim (Option-cases c.authentication) [
      | inl none_given ↦ cc (rw (group_status, given, none_given) at e)
      | inr (specs, named) ↦
          let m = new_authentication r.get r.cluster_name specs in
          let (a, made) = status-succeeds _ (rw (group_status, given, named) at e) in
          (specs, a, named, wrap-eq-ok _ m (wrap-eq-ok _ _ made))
    ],
    λ (specs, a, named, made). rw (group_status, given, named, made),
  )

  Ready : NodesSpec Overrides → ClusterConfigSpec → Type 0
  Ready spec c =
      (is_empty spec.role_groups ≡ true)
      ⊎ ((is_empty spec.role_groups ≡ false) × IsAuthenticated o r c)

  loop_status : Status → List (String × RoleGroupSpec Overrides) → Status
  loop_status s [] = succeeds
  loop_status s (_ ∷ _) = s

  role_status-loop_status :
      (image : Image) (spec : NodesSpec Overrides)
      → r.spec.nodes ≡ some spec
      → role_status (node_reconciler o r image)
        ≡ loop_status (group_status (node_reconciler o r image)) spec.role_groups
  unfolding node_reconciler loop_status
  role_status-loop_status image spec given =
      ap
        (λ n. elim n [
          | none ↦ panics
          | some s ↦ elim s.role_groups [
            | [] ↦ succeeds
            | _ ∷ _ ↦ group_status (node_reconciler o r image)
          ]
        ])
        given
      ∙ go spec.role_groups
    where
      go :
          (groups : List (String × RoleGroupSpec Overrides))
          → (elim groups [ [] ↦ succeeds | _ ∷ _ ↦ group_status (node_reconciler o r image) ])
            ≡ loop_status (group_status (node_reconciler o r image)) groups
      go [] = refl
      go (g ∷ gs) = refl

  module _ (merging : IsMerging r.role) where
    nodes-Ready :
        (image : Image) (spec : NodesSpec Overrides) (c : ClusterConfigSpec)
        → r.spec.nodes ≡ some spec
        → r.spec.cluster_config ≡ some c
        → (status (Role.register_resources o (node_reconciler o r image)) ≡ succeeds) ↔ Ready spec c
    unfolding Ready loop_status
    nodes-Ready image spec c given config =
        let ends =
          register_resources-status o (node_reconciler o r image) (nodes-IsMerging merging image)
          ∙ role_status-loop_status image spec given in
        go spec.role_groups ends
      where
        go :
            {s : Status} (groups : List (String × RoleGroupSpec Overrides))
            → s ≡ loop_status (group_status (node_reconciler o r image)) groups
            → (s ≡ succeeds)
              ↔ ((is_empty groups ≡ true) ⊎ ((is_empty groups ≡ false) × IsAuthenticated o r c))
        go [] e = (λ _. inl refl, λ _. e)
        go (g ∷ gs) e = (
          λ h. inr (refl, (group_status-succeeds image c config).0 (sym e ∙ h)),
          λ h. e ∙ elim h [ inl f ↦ cc | inr (_, a) ↦ (group_status-succeeds image c config).1 a ],
        )

  Needs : Image → NodesSpec Overrides → ClusterConfigSpec → Type 0
  Needs image spec c =
      ((is_empty spec.role_groups ≡ true) × (is_job_enabled c && is_nifi_1 image ≡ false))
      ⊎ ((is_empty spec.role_groups ≡ false) × IsAuthenticated o r c)

  Needs-Ready :
      (image : Image) (spec : NodesSpec Overrides) (c : ClusterConfigSpec)
      → Needs image spec c
      → Ready spec c
  unfolding Needs Ready
  Needs-Ready image spec c (inl (empty, _)) = inl empty
  Needs-Ready image spec c (inr h) = inr h

  needed :
      (image : Image) (spec : NodesSpec Overrides) (c : ClusterConfigSpec)
      (rs : List (Resource Overrides))
      → All (λ n. n ≢ "") (names spec.role_groups)
      → r.spec.nodes ≡ some spec
      → get_image o r.build_version r.spec.image ≡ ok image
      → register_reporting_task_resources o r c ≡ ok rs
      → Ready spec c
      → Needs image spec c
  unfolding Needs Ready
  needed image spec c rs named given got e (inr h) = inr h
  needed image spec c rs named given got e (inl empty) =
      elim (Bool-cases (is_job_enabled c && is_nifi_1 image)) [
        | inr off ↦ inl (empty, off)
        | inl on ↦
            let made = rw on at (sym (reports_guarded o r c image got) ∙ e) in
            cc (sym empty ∙ reports_filled o r spec c image rs named given made)
      ]

  reporting_made :
      (image : Image) (spec : NodesSpec Overrides) (c : ClusterConfigSpec)
      → All (λ n. n ≢ "") (names spec.role_groups)
      → r.spec.nodes ≡ some spec
      → get_image o r.build_version r.spec.image ≡ ok image
      → Needs image spec c
      → (rs : List (Resource Overrides)) × (register_reporting_task_resources o r c ≡ ok rs)
  unfolding Needs
  reporting_made image spec c named given got (inl (_, off)) =
      ([], reports_guarded o r c image got ∙ rw off)
  reporting_made image spec c named given got (inr (filled, known)) =
      elim (Bool-cases (is_job_enabled c && is_nifi_1 image)) [
        | inr off ↦ ([], reports_guarded o r c image got ∙ rw off)
        | inl on ↦
            let (rs, made) = reports_made o r spec c image named given filled known in
            (rs, reports_guarded o r c image got ∙ rw on made)
      ]

  -- Where any two values are merged and no role group has an empty name: the resources of a cluster
  -- are registered, without an error and without a nil pointer, exactly if its configuration is
  -- complete.
  pub register_resources-IsComplete :
      IsMerging r.role
      → ((spec : NodesSpec Overrides)
          → r.spec.nodes ≡ some spec
          → All (λ n. n ≢ "") (names spec.role_groups))
      → (status (register_resources o r) ≡ succeeds) ↔ IsComplete
  unfolding register_resources sensitive_key_reconciler node_reconciler Needs Ready
      Role.register_resources
  register_resources-IsComplete merging named = (forward, backward)
    where
      forward : status (register_resources o r) ≡ succeeds → IsComplete
      forward h =
          let (rs, e) = status-succeeds (register_resources o r) h in
          let (image, got, e1) = >>=-eq-ok (get_image o r.build_version r.spec.image) _ e in
          let (nodes, made, e2) =
            >>=-eq-ok (Role.register_resources o (node_reconciler o r image)) _ e1 in
          let (c, configured, e3) = >>=-eq-ok (deref r.spec.cluster_config) _ e2 in
          let (key, keyed, e4) =
            >>=-eq-ok (sensitive_key_reconciler {Overrides = Overrides} c) _ e3 in
          let (s, held, _) = >>=-eq-ok (deref c.sensitive_properties) _ keyed in
          let (reporting, asked, _) = >>=-eq-ok (register_reporting_task_resources o r c) _ e4 in
          let config = deref-eq-ok r.spec.cluster_config configured in
          let (spec, there, _) = >>=-eq-ok (deref r.spec.nodes) _ made in
          let given = deref-eq-ok r.spec.nodes there in
          let ready = (nodes-Ready merging image spec c given config).0 (ap status made) in
          (
            image,
            c,
            s,
            spec,
            got,
            config,
            deref-eq-ok c.sensitive_properties held,
            given,
            needed image spec c reporting (named spec given) given got asked ready,
          )

      backward : IsComplete → status (register_resources o r) ≡ succeeds
      backward (image, c, s, spec, got, config, held, given, needs) =
          let (nodes, made) =
            status-succeeds (Role.register_resources o (node_reconciler o r image)) (
              (nodes-Ready merging image spec c given config).1 (Needs-Ready image spec c needs)) in
          let (reporting, asked) = reporting_made image spec c (named spec given) given got needs in
          ap status (
            >>=-ok _ got
            ∙ >>=-ok _ made
            ∙ >>=-ok _ (ap deref config)
            ∙ >>=-ok _ (>>=-ok _ (ap deref held))
            ∙ >>=-ok _ asked)
