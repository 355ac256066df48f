-- ===== src/Node/Role/Reordered.antt =====
-- That the order in which internal/controller/node/role.go meets the role groups does not matter.
use mathlib.Core.List.{Permᴰ, append-nil, append_assoc}
use mathlib.Core.List.Permᴰ as PermD
use mathlib.Core.Path.{subst, subst₂, fun_ext}
use nifi_operator.Common.{
  values, String, some, List, [], ◌∷◌, ◌++◌, ◌≡◌, refl, sym, ◌∙◌, ap, Result, ok, err, panic,
  ok-inj, ◌>>=◌, >>=-eq-ok, Agree, Agree-of_status, arith,
}
use nifi_operator.Api.{RoleGroupSpec, NodesSpec}
use nifi_operator.OperatorGo.{OperatorGo}
use nifi_operator.Node.Role.{
  RoleGroupResource, RoleReconciler, register_resource_with_role_group, register_role_groups,
  register_resources, role_group_resources,
}
use nifi_operator.Node.Role.Outcome.{IsMerging, role_status, register_resources-status}
use nifi_operator.ReportingTask.Candidates.{length-perm}

values_swap {ℓ κ} :
    {A : Type ℓ} {B : Type κ} (f : A → List B) (a b : A) (l : List A)
    → Permᴰ (values f (a ∷ b ∷ l)) (values f (b ∷ a ∷ l))
values_swap f a b l =
    subst₂ Permᴰ (append_assoc (f a) (f b) (values f l)) (append_assoc (f b) (f a) (values f l))
      (PermD.append_right (values f l) (PermD.append_comm (f a) (f b)))

values-perm {ℓ κ} :
    {A : Type ℓ} {B : Type κ} (f : A → List B) {xs ys : List A}
    → Permᴰ xs ys
    → Permᴰ (values f xs) (values f ys)
values-perm f Permᴰ.nil = Permᴰ.nil
values-perm f (Permᴰ.cons {a} {l₁} {l₂} e p) =
    subst (λ x. Permᴰ (values f (a ∷ l₁)) (values f (x ∷ l₂))) e
      (PermD.append_left (f a) (values-perm f p))
values-perm f (Permᴰ.swap {a} {b} {l} e₁ e₂) =
    subst₂ (λ x y. Permᴰ (values f (a ∷ b ∷ l)) (values f (x ∷ y ∷ l))) e₂ e₁ (values_swap f a b l)
values-perm f (Permᴰ.trans p q) = Permᴰ.trans (values-perm f p) (values-perm f q)

module _ {Overrides : Type 0} (o : OperatorGo) (r : RoleReconciler Overrides) where
  value_or_nil : Result (List (RoleGroupResource Overrides)) → List (RoleGroupResource Overrides)
  value_or_nil (ok rs) = rs
  value_or_nil (err t) = []
  value_or_nil panic = []

  -- What one group adds, whatever the groups before it have added.
  own_resources :
      NodesSpec Overrides → String × RoleGroupSpec Overrides → List (RoleGroupResource Overrides)
  own_resources spec (name, rg) = value_or_nil (
      r.merge_config spec.config rg.config >>= λ config.
      r.merge_overrides spec.overrides rg.overrides >>= λ overrides.
      register_resource_with_role_group o r rg.replicas name overrides config)

  register_role_groups-values :
      (spec : NodesSpec Overrides) (groups : List (String × RoleGroupSpec Overrides))
      (added xs : List (RoleGroupResource Overrides))
      → register_role_groups o r spec groups added ≡ ok xs
      → xs ≡ added ++ values (own_resources spec) groups
  unfolding register_role_groups own_resources value_or_nil
  register_role_groups-values spec [] added xs e = sym (ok-inj e) ∙ sym (append-nil added)
  register_role_groups-values spec ((name, rg) ∷ more) added xs e =
      let (config, merged, e1) = >>=-eq-ok (r.merge_config spec.config rg.config) _ e in
      let (overrides, merged', e2) =
        >>=-eq-ok (r.merge_overrides spec.overrides rg.overrides) _ e1 in
      let (new, made, e3) =
        >>=-eq-ok (register_resource_with_role_group o r rg.replicas name overrides config) _ e2 in
      let own : own_resources spec (name, rg) ≡ new = rw (merged, merged', made) in
      register_role_groups-values spec more (added ++ new) xs e3
      ∙ append_assoc added new _
      ∙ ap (λ l. added ++ (l ++ values (own_resources spec) more)) (sym own)

-- The role with the groups met in another order.
abbrev pub with_groups :
    {Overrides : Type 0}
    → RoleReconciler Overrides
    → NodesSpec Overrides
    → List (String × RoleGroupSpec Overrides)
    → RoleReconciler Overrides
with_groups r spec groups = record r { spec = some (record spec { role_groups = groups }) }

module _ {Overrides : Type 0} (o : OperatorGo) (r : RoleReconciler Overrides)
    (merging : IsMerging r) where
  with_groups-IsMerging :
      (spec : NodesSpec Overrides) (groups : List (String × RoleGroupSpec Overrides))
      → IsMerging (with_groups r spec groups)
  with_groups-IsMerging spec groups = record {
    config_merged = merging.config_merged;
    overrides_merged = merging.overrides_merged;
  }

  role_status-perm :
      (spec : NodesSpec Overrides) {xs ys : List (String × RoleGroupSpec Overrides)}
      → Permᴰ xs ys
      → role_status (with_groups r spec xs) ≡ role_status (with_groups r spec ys)
  role_status-perm spec {xs = []} {ys = []} p = refl
  role_status-perm spec {xs = []} {ys = y ∷ ys} p = absurd (omega (arith, length-perm p))
  role_status-perm spec {xs = x ∷ xs} {ys = []} p = absurd (omega (arith, length-perm p))
  role_status-perm spec {xs = x ∷ xs} {ys = y ∷ ys} p = refl

  own_resources_same :
      (spec : NodesSpec Overrides) (groups : List (String × RoleGroupSpec Overrides))
      → own_resources o (with_groups r spec groups) (record spec { role_groups = groups })
        ≡ own_resources o r spec
  unfolding own_resources register_resource_with_role_group role_group_resources value_or_nil
  own_resources_same spec groups = fun_ext (λ (name, rg). refl)

  registered :
      (spec : NodesSpec Overrides) (groups : List (String × RoleGroupSpec Overrides))
      (rs : List (RoleGroupResource Overrides))
      → register_resources o (with_groups r spec groups) ≡ ok rs
      → values (own_resources o r spec) groups ≡ rs
  unfolding register_resources
  registered spec groups rs e = sym (
      register_role_groups-values o (with_groups r spec groups)
        (record spec { role_groups = groups }) groups [] rs e
      ∙ ap (λ f. values f groups) (own_resources_same spec groups))

  -- Where any two values are merged: two runs that meet the groups in different orders register the
  -- same resources up to their order, or end alike.
  pub register_resources-perm :
      (spec : NodesSpec Overrides) {xs ys : List (String × RoleGroupSpec Overrides)}
      → Permᴰ xs ys
      → Agree Permᴰ
          (register_resources o (with_groups r spec xs))
          (register_resources o (with_groups r spec ys))
  unfolding register_resources
  register_resources-perm spec {xs = xs} {ys = ys} p =
      Agree-of_status Permᴰ _ _
        (register_resources-status o (with_groups r spec xs) (with_groups-IsMerging spec xs)
          ∙ role_status-perm spec p
          ∙ sym
              (register_resources-status o (with_groups r spec ys) (with_groups-IsMerging spec ys)))
        (λ rs ts e f.
          subst₂ Permᴰ (registered spec xs rs e) (registered spec ys ts f)
            (values-perm (own_resources o r spec) p))
