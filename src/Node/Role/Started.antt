-- ===== src/Node/Role/Started.antt =====
-- That the ConfigMap and the pods of a role group, registered by internal/controller/node/role.go, have
-- what the containers need to start.
use nifi_operator.Common.{
  wrap-eq-ok, String, true, some, List, map, ◌≡◌, sym, ◌∙◌, ap, ok, wrap, ok-inj, >>=-eq-ok,
  is_some, is_ok, All, All-imp, Option-cases, inl, inr, some-inj,
}
use nifi_operator.Api.{ClusterConfigSpec, AuthenticationSpec}
use nifi_operator.OperatorGo.{OperatorGo, PropertiesApi}
use nifi_operator.Security.Authentication.{Authenticator, Authentication, new_authentication}
use nifi_operator.Security.Authentication.Delegation.{HoldsOne, Authenticates-HoldsOne}
use nifi_operator.Security.Authentication.Choice.{new_authentication_lem}
use nifi_operator.Node.ConfigMap
use nifi_operator.Node.ConfigMap.Files.{file_name, holds_templates, build-templates}
use nifi_operator.Node.StatefulSet.Build.{pod_parts}
use nifi_operator.Node.StatefulSet.Usable.{usable, pod_parts-usable}
use nifi_operator.Node.Role.{
  RoleGroupResource, config_map, stateful_set, service, admin_secret, RoleReconciler,
  get_authentication, register_resources,
}
use nifi_operator.Node.Role.Registered.{Fits, Registered, register_resources-Registered}

module _ {Overrides : Type 0} (o : OperatorGo) (r : RoleReconciler Overrides) where
  -- With an authenticator: a ConfigMap that is built holds the templates of the init container, and
  -- the parts of the pods are given exactly if the authenticator is usable.
  abbrev pub Starts : Authenticator → RoleGroupResource Overrides → Type 1
  Starts x (config_map m) =
      (namespace : String) (P : PropertiesApi) (items : List (String × String))
      → ConfigMap.build o namespace P r.get m ≡ ok items
      → holds_templates (map file_name items) ≡ true
  Starts x (stateful_set b _ _ _ _) =
      (namespace : String) (P : PropertiesApi) → is_ok (pod_parts o namespace b) ≡ usable x
  Starts x (service _) = Unit
  Starts x (admin_secret _) = Unit

  -- For the one authenticator that the API server's answers give for the cluster configuration.
  abbrev pub IsStarting : RoleGroupResource Overrides → Type 1
  IsStarting res =
      (c : ClusterConfigSpec) × (specs : List AuthenticationSpec) × (a : Authentication)
      × (x : Authenticator) × (r.cluster_config ≡ some c)
      × (c.authentication ≡ some specs)
      × (new_authentication r.get r.cluster_name specs ≡ ok a)
      × HoldsOne a x
      × Starts x res

  loaded :
      (c : ClusterConfigSpec) (specs : List AuthenticationSpec) (a : Authentication)
      → c.authentication ≡ some specs
      → get_authentication r.get r.cluster_name (some c) ≡ ok (some a)
      → new_authentication r.get r.cluster_name specs ≡ ok a
  unfolding get_authentication
  loaded c specs a given e =
      let m = new_authentication r.get r.cluster_name specs in
      let (a', made, last) =
        >>=-eq-ok (wrap "failed to create authentication: " m) _
          (rw (given, get_authentication) at e) in
      wrap-eq-ok _ m made ∙ ap ok (some-inj (ok-inj last))

  Fits-Starts :
      (c : ClusterConfigSpec) (a : Authentication) (group : String) (x : Authenticator)
      (res : RoleGroupResource Overrides)
      → is_some c.authentication ≡ true
      → HoldsOne a x
      → Fits o r c a group res
      → Starts x res
  Fits-Starts c a group x (config_map m) given one (same, _, _, _, _) = λ namespace P items built.
      build-templates o namespace P r.get m items built
      ∙ ap (λ (k : ClusterConfigSpec). is_some k.authentication) same
      ∙ given
  Fits-Starts c a group x (stateful_set b _ _ _ _) given one (_, held, _, _, _, _, _) =
      λ namespace P. pod_parts-usable o namespace b a x held one
  Fits-Starts c a group x (service _) given one h = tt
  Fits-Starts c a group x (admin_secret _) given one h = tt

  Registered-IsStarting : (res : RoleGroupResource Overrides) → Registered o r res → IsStarting res
  Registered-IsStarting res (c, a, group, there, named, load, fits) =
      elim (Option-cases c.authentication) [
        | inl absent ↦ cc (sym named ∙ ap is_some absent)
        | inr (specs, given) ↦
            let made = loaded c specs a given load in
            let (x, one) =
              Authenticates-HoldsOne (new_authentication_lem r.get r.cluster_name specs) a made in
            (c, specs, a, x, there, given, made, one, Fits-Starts c a group x res named one fits)
      ]

  -- Of any role: if its resources are registered, then for each of them there is exactly one
  -- authenticator, which the answers of the API server give for the cluster configuration; a ConfigMap
  -- that is built holds the three templates that the init container fills in; and the parts of the pods
  -- are given exactly if that authenticator is usable.
  pub register_resources-IsStarting :
      (xs : List (RoleGroupResource Overrides)) → register_resources o r ≡ ok xs → All IsStarting xs
  register_resources-IsStarting xs e =
      All-imp (Registered o r) IsStarting xs Registered-IsStarting
        (register_resources-Registered o r xs e)
