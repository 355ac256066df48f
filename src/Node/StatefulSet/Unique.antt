-- ===== src/Node/StatefulSet/Unique.antt =====
-- That the API server can take the pod of internal/controller/node/statefulset.go: no two volumes and
-- no two containers have one name.
pub mod Names
use mathlib.Core.Path.{ap₂}
use nifi_operator.Common.{
  ℕ, ◌<◌, ◌⊎◌, deref, ◌<>◌, String, Option, none, some, List, [], ◌∷◌, ◌++◌, map, ◌≡◌, ◌≢◌, refl,
  sym, ◌∙◌, ap, subst, arith, ok, >>=-eq-ok, ok-inj, All, All-append, All-imp, All-map,
  All-map_from, Distinct, Distinct-append, map_from, eq_iff, Option-cases, inl, inr,
}
use nifi_operator.Common.Decimal.{print}
use nifi_operator.Common.Ending.{
  last_code, last_code-append, IsDigit, last_code-print, ne_of_last_code,
}
use nifi_operator.Kube.{Volume, Container, volume_name}
use nifi_operator.Api.{ClusterConfigSpec, GitSyncSpec}
use nifi_operator.OperatorGo.{OperatorGo, IsNaming, Image}
use nifi_operator.GitSync.{GitSyncResources}
use nifi_operator.GitSync.Loop.{
  volume_at, sidecar_at, init_at, resources_of, new_git_sync_resources_lem,
}
use nifi_operator.GitSync.Names.{container_name, new_git_sync_resources-Distinct}
use nifi_operator.Security.Oidc
use nifi_operator.Security.Ldap
use nifi_operator.Security.StaticUser
use nifi_operator.Security.Authentication
use nifi_operator.Security.Authentication.{
  Authenticator, oidc_authenticator, ldap_authenticator, static_authenticator, Authentication,
  volumes_of, find_single,
}
use nifi_operator.Node.StatefulSet.{
  StatefulSetBuilder, NodeContainer, PodContainer, node_container, git_sync_container, PodSpec,
  authenticated, get_container_template, get_container_env, get_volume_mounts, get_volumes,
  setup_main_container_probe,
}
use nifi_operator.Node.StatefulSet.Build.{
  get_prepare_container, get_main_container, pod_parts, new_stateful_set_builder,
}
use nifi_operator.Node.StatefulSet.Wiring.{own_volumes, get_volumes-eq_ok}
use nifi_operator.Node.StatefulSet.Unique.Names.{
  OneApart, EndsApart, authenticated-OneApart, sidecar_names, init_names, volumes-Distinct,
  containers-Distinct, names_in, names_lem, pod_container_name, pod_container_names,
}

module _ (o : OperatorGo) where
  template-name :
      (n : String) (b : StatefulSetBuilder) (c : NodeContainer)
      → get_container_template o n b ≡ ok c
      → c.name ≡ n
  unfolding get_container_template
  template-name n b c e =
      let (env, _, rest) = >>=-eq-ok (get_container_env b) _ e in
      let (ms, _, last) = >>=-eq-ok (get_volume_mounts o b) _ rest in
      ap (λ (k : NodeContainer). k.name) (sym (ok-inj last))

  prepare-name :
      (namespace : String) (b : StatefulSetBuilder) (c : NodeContainer)
      → get_prepare_container o namespace b ≡ ok c
      → c.name ≡ "prepare"
  unfolding get_prepare_container
  prepare-name namespace b c e =
      let (t, given, last) = >>=-eq-ok (get_container_template o "prepare" b) _ e in
      ap (λ (k : NodeContainer). k.name) (sym (ok-inj last)) ∙ template-name "prepare" b t given

  main-name :
      (b : StatefulSetBuilder) (c : NodeContainer)
      → get_main_container o b ≡ ok c
      → c.name ≡ b.role_name
  unfolding get_main_container setup_main_container_probe
  main-name b c e =
      let (t, given, last) = >>=-eq-ok (get_container_template o b.role_name b) _ e in
      ap (λ (k : NodeContainer). k.name) (sym (ok-inj last)) ∙ template-name b.role_name b t given

  builder_lem :
      (name cluster_name role_name : String) (c : ClusterConfigSpec) (image : Option Image)
      (authentication : Option Authentication) (b : StatefulSetBuilder)
      → new_stateful_set_builder name cluster_name role_name c image authentication ≡ ok b
      → (b.git_sync_resources ≡ resources_of c.custom_components_git_sync)
        × (b.role_name ≡ role_name)
  unfolding new_stateful_set_builder
  builder_lem name cluster_name role_name c image authentication b e =
      let same = ok-inj (rw new_git_sync_resources_lem at e) in
      (ap (λ x. x.git_sync_resources) (sym same), ap (λ x. x.role_name) (sym same))

  -- Of the nodes' role, where a secret volume bears the name that it is built with: if the parts of
  -- the pod are given, no two of its volumes have one name, and no two of its containers, init
  -- containers and git-sync's among them, have one name.
  pub pod_parts-Distinct :
      IsNaming o
      → (namespace name cluster_name : String) (c : ClusterConfigSpec) (image : Option Image)
        (authentication : Option Authentication) (b : StatefulSetBuilder) (p : PodSpec)
      → new_stateful_set_builder name cluster_name "node" c image authentication ≡ ok b
      → pod_parts o namespace b ≡ ok p
      → Distinct (map volume_name p.volumes) × Distinct (pod_container_names p)
  unfolding pod_parts
  pod_parts-Distinct naming namespace name cluster_name c image authentication b p built e =
      let (git, role) = builder_lem name cluster_name "node" c image authentication b built in
      let gss = c.custom_components_git_sync in
      let (prepare, prepared, rest) = >>=-eq-ok (get_prepare_container o namespace b) _ e in
      let (main, mained, rest2) = >>=-eq-ok (get_main_container o b) _ rest in
      let (vs, volumed, last) = >>=-eq-ok (get_volumes o b) _ rest2 in
      let (more, given, same) = get_volumes-eq_ok o b vs volumed in
      let one = authenticated-OneApart o naming b.authentication more given in
      subst
        (λ (q : PodSpec). Distinct (map volume_name q.volumes) × Distinct (pod_container_names q))
        (ok-inj last)
        (
          subst (λ ws. Distinct (map volume_name ws))
              (sym (same ∙ ap (λ r. own_volumes b more ++ r.git_sync_volumes) git))
              (volumes-Distinct gss b more one),
          subst Distinct
              (sym (
                names_lem gss b.git_sync_resources prepare.name main.name git
                  (prepare-name namespace b prepare prepared) (main-name b main mained ∙ role)))
              (containers-Distinct gss),
        )
