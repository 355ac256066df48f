-- ===== src/Controller/Branches.antt =====
-- What Reconcile of internal/controller/nificluster_controller.go does on each of its branches.
use nifi_operator.Common.{
  String, List, ◌≡◌, ◌≢◌, refl, sym, ◌∙◌, ap, ◌⊎◌, ◌↔◌, inl, inr, Result, ok, err, panic, ◌>>=◌,
  All, some, succeeds, status,
}
use nifi_operator.Common.Ordered.{names}
use nifi_operator.Api.{NodesSpec}
use nifi_operator.OperatorGo.{OperatorGo, GetResult, found, not_found, failed}
use nifi_operator.Node.Role.Outcome.{IsMerging}
use nifi_operator.Cluster.{Resource, register_resources}
use nifi_operator.Cluster.Outcome.{IsComplete, register_resources-IsComplete}
use nifi_operator.Api.{NifiCluster}
use nifi_operator.Controller.{NifiClusterReconciler, cluster_reconciler, reconcile}

-- A call that fails as a call of another type does.
abbrev pub SameFailure {ℓ κ} : {A : Type ℓ} {B : Type κ} → Result A → Result B → Type 0
SameFailure m n = (status m ≢ succeeds) × (status n ≡ status m)

module _ {ℓ} {Overrides : Type 0} {State : Type ℓ} (o : OperatorGo)
    (r : NifiClusterReconciler Overrides State) where
  -- How a request ends, by the answer of the API server.
  abbrev pub Reconciles : GetResult (NifiCluster Overrides) → State → Result State → Type ℓ
  Reconciles (failed e) s m = m ≡ err e
  Reconciles not_found s m = m ≡ ok s
  Reconciles (found i) s m =
      ((rs : List (Resource Overrides)) × IsComplete o (cluster_reconciler o r i)
        × (register_resources o (cluster_reconciler o r i) ≡ ok rs)
        × (m ≡ r.run rs s))
      ⊎ (¬ IsComplete o (cluster_reconciler o r i)
          × SameFailure (register_resources o (cluster_reconciler o r i)) m)

  module _ (i : NifiCluster Overrides) (merging : IsMerging (cluster_reconciler o r i).role)
      (named : (spec : NodesSpec Overrides)
        → (cluster_reconciler o r i).spec.nodes ≡ some spec
        → All (λ n. n ≢ "") (names spec.role_groups)) where
    complete :
        (status (register_resources o (cluster_reconciler o r i)) ≡ succeeds)
        ↔ IsComplete o (cluster_reconciler o r i)
    complete = register_resources-IsComplete o (cluster_reconciler o r i) merging named

    incomplete :
        (m : Result (List (Resource Overrides)))
        → status m ≢ succeeds
        → register_resources o (cluster_reconciler o r i) ≡ m
        → ¬ IsComplete o (cluster_reconciler o r i)
    incomplete m failing e c = failing (sym (ap status e) ∙ complete.1 c)

    found-Reconciles :
        (s : State) (m : Result (List (Resource Overrides)))
        → register_resources o (cluster_reconciler o r i) ≡ m
        → Reconciles (found i) s (m >>= λ rs. r.run rs s)
    found-Reconciles s (ok rs) e = inl (rs, complete.0 (ap status e), e, refl)
    found-Reconciles s (err t) e =
        inr (incomplete (err t) (λ h. cc) e, (λ h. cc (sym (ap status e) ∙ h), sym (ap status e)))
    found-Reconciles s panic e =
        inr (incomplete panic (λ h. cc) e, (λ h. cc (sym (ap status e) ∙ h), sym (ap status e)))

  -- Where any two values are merged and no role group of the cluster has an empty name: an error of
  -- the API server is passed on, and a cluster that is gone leaves the state as it is. For a cluster
  -- that is found with a complete configuration, the request is one run of the registered resources.
  -- With a configuration that is not complete, the request fails as the registration does, with its
  -- text or in a nil pointer, whatever a run would do.
  pub reconcile-Reconciles :
      (namespace name : String) (s : State)
      → ((i : NifiCluster Overrides)
          → r.get namespace name ≡ found i
          → IsMerging (cluster_reconciler o r i).role)
      → ((i : NifiCluster Overrides) (spec : NodesSpec Overrides)
          → r.get namespace name ≡ found i
          → (cluster_reconciler o r i).spec.nodes ≡ some spec
          → All (λ n. n ≢ "") (names spec.role_groups))
      → Reconciles (r.get namespace name) s (reconcile o r namespace name s)
  unfolding reconcile
  reconcile-Reconciles namespace name s merging named = go (r.get namespace name) refl
    where
      go :
          (g : GetResult (NifiCluster Overrides))
          → r.get namespace name ≡ g
          → Reconciles g s (elim g [
            | failed e ↦ err e
            | not_found ↦ ok s
            | found i ↦ register_resources o (cluster_reconciler o r i) >>= λ rs. r.run rs s
          ])
      go (failed e) h = refl
      go not_found h = refl
      go (found i) h =
          found-Reconciles i (merging i h) (λ spec. named i spec h) s
            (register_resources o (cluster_reconciler o r i)) refl
