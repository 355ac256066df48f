-- ===== src/Node/StatefulSet/Wiring.antt =====
-- That each mount of the pod of internal/controller/node/statefulset.go has its volume.
use nifi_operator.Common.{
  wrap-eq-ok, String, true, Option, none, some, List, [], ◌∷◌, ◌++◌, map, ◌≡◌, refl, sym, ◌∙◌, ap,
  subst, ok, >>=-eq-ok, ok-inj, All, All-append, All-imp, contains_self, contains-cons, contains,
}
use nifi_operator.Kube.{
  Volume, VolumeMount, Container, volume_name, MountsIn, MountsIn-append_left,
  MountsIn-append_right, config_map, empty_dir,
}
use nifi_operator.Api.{ClusterConfigSpec}
use nifi_operator.OperatorGo.{OperatorGo, IsNaming, Image}
use nifi_operator.GitSync.{GitSyncResources}
use nifi_operator.GitSync.Mounts.{new_git_sync_resources-MountsIn}
use nifi_operator.Security.Authentication
use nifi_operator.Security.Authentication.{Authentication}
use nifi_operator.Security.Authentication.Delegation.{get_volumes-Wired}
use nifi_operator.Node.StatefulSet.{
  StatefulSetBuilder, NodeContainer, PodContainer, node_container, git_sync_container, PodSpec,
  get_container_template, get_container_env, get_volumes, get_volume_mounts, authenticated,
  nifi_config_volume_name, empty_dir_volume_name, config_volume_mount, empty_dir_volume_mount,
  setup_main_container_probe,
}
use nifi_operator.Node.StatefulSet.Build.{
  get_prepare_container, get_main_container, pod_parts, new_stateful_set_builder,
}

abbrev pub mounts_of : PodContainer → List VolumeMount
mounts_of (node_container c) = c.volume_mounts
mounts_of (git_sync_container c) = c.volume_mounts

-- The two volumes that every pod has, and the authentication's.
abbrev pub own_volumes : StatefulSetBuilder → List Volume → List Volume
own_volumes b more =
    record { name = nifi_config_volume_name; source = config_map b.name }
    ∷ record { name = empty_dir_volume_name; source = empty_dir }
    ∷ more

module _ (o : OperatorGo) where
  template-mounts :
      (n : String) (b : StatefulSetBuilder) (c : NodeContainer)
      → get_container_template o n b ≡ ok c
      → get_volume_mounts o b ≡ ok c.volume_mounts
  unfolding get_container_template
  template-mounts n b c e =
      let (env, _, rest) = >>=-eq-ok (get_container_env b) _ e in
      let (ms, given, last) = >>=-eq-ok (get_volume_mounts o b) _ rest in
      given ∙ ap (λ k. ok k.volume_mounts) (ok-inj last)

  main-mounts :
      (b : StatefulSetBuilder) (c : NodeContainer)
      → get_main_container o b ≡ ok c
      → get_volume_mounts o b ≡ ok c.volume_mounts
  unfolding get_main_container setup_main_container_probe
  main-mounts b c e =
      let (t, given, last) = >>=-eq-ok (get_container_template o b.role_name b) _ e in
      template-mounts b.role_name b t given ∙ ap (λ k. ok k.volume_mounts) (ok-inj last)

  prepare-mounts :
      (namespace : String) (b : StatefulSetBuilder) (c : NodeContainer)
      → get_prepare_container o namespace b ≡ ok c
      → get_volume_mounts o b ≡ ok c.volume_mounts
  unfolding get_prepare_container
  prepare-mounts namespace b c e =
      let (t, given, last) = >>=-eq-ok (get_container_template o "prepare" b) _ e in
      template-mounts "prepare" b t given ∙ ap (λ k. ok k.volume_mounts) (ok-inj last)

  pub get_volumes-eq_ok :
      (b : StatefulSetBuilder) (vs : List Volume)
      → get_volumes o b ≡ ok vs
      → (more : List Volume) × (authenticated (Authentication.get_volumes o) b.authentication
          ≡ ok more)
        × (vs ≡ own_volumes b more ++ b.git_sync_resources.git_sync_volumes)
  unfolding get_volumes
  get_volumes-eq_ok b vs e =
      let (more, given, last) = >>=-eq-ok _ _ e in (more, given, sym (ok-inj last))

  module _ (naming : IsNaming o) where
    authenticated-Wired :
        (a : Option Authentication) (ms : List VolumeMount) (more : List Volume)
        → authenticated (Authentication.get_volume_mounts o) a ≡ ok ms
        → authenticated (Authentication.get_volumes o) a ≡ ok more
        → MountsIn more ms
    unfolding authenticated
    authenticated-Wired none ms more e f = rw (← ok-inj e) tt
    authenticated-Wired (some a) ms more e f = rw (e, f) at (get_volumes-Wired o naming a)

    own_volumes-MountsIn :
        (b : StatefulSetBuilder) (more : List Volume) (m n : VolumeMount) (ms : List VolumeMount)
        → m.name ≡ nifi_config_volume_name
        → n.name ≡ empty_dir_volume_name
        → MountsIn more ms
        → MountsIn (own_volumes b more) (m ∷ n ∷ ms)
    own_volumes-MountsIn b more m n ms e f h =
        let names = map volume_name more in
        let step = λ (k : VolumeMount) (c : contains names k.name ≡ true).
          contains-cons nifi_config_volume_name k.name (empty_dir_volume_name ∷ names)
            (contains-cons empty_dir_volume_name k.name names c) in
        let first = contains_self nifi_config_volume_name (empty_dir_volume_name ∷ names) in
        let second =
          contains-cons nifi_config_volume_name empty_dir_volume_name
            (empty_dir_volume_name ∷ names) (contains_self empty_dir_volume_name names) in
        (rw e first, (rw f second, All-imp _ _ ms step h))

    own-MountsIn :
        (b : StatefulSetBuilder) (ms : List VolumeMount) (more : List Volume)
        → get_volume_mounts o b ≡ ok ms
        → authenticated (Authentication.get_volumes o) b.authentication ≡ ok more
        → MountsIn (own_volumes b more) ms
    unfolding get_volume_mounts
    own-MountsIn b ms more e f =
        let (auth, given, last) = >>=-eq-ok _ _ e in
        let h = authenticated-Wired b.authentication auth more given f in
        subst (MountsIn (own_volumes b more)) (ok-inj last) (
          own_volumes-MountsIn b more (config_volume_mount o) (empty_dir_volume_mount o) auth refl
            refl h)

    git_sync-MountsIn :
        (vs : List Volume) (cs : List Container)
        → All (λ c. MountsIn vs c.volume_mounts) cs
        → All (λ k. MountsIn vs (mounts_of k)) (map git_sync_container cs)
    git_sync-MountsIn vs [] h = tt
    git_sync-MountsIn vs (c ∷ cs) (k, h) = (k, git_sync-MountsIn vs cs h)

    abbrev pod_containers : GitSyncResources → NodeContainer → NodeContainer → List PodContainer
    pod_containers r prepare main =
        (node_container prepare ∷ map git_sync_container r.git_sync_init_containers)
        ++ node_container
            (record main { volume_mounts = main.volume_mounts ++ r.git_sync_volume_mounts })
          ∷ map git_sync_container r.git_sync_containers

    abbrev GitWired : GitSyncResources → Type 0
    GitWired r =
        All (λ c. MountsIn r.git_sync_volumes c.volume_mounts) r.git_sync_containers
        × All (λ c. MountsIn r.git_sync_volumes c.volume_mounts) r.git_sync_init_containers
        × MountsIn r.git_sync_volumes r.git_sync_volume_mounts

    -- What the two volumes and the authentication's are enough for, and what git-sync's are.
    joined-MountsIn :
        (own : List Volume) (r : GitSyncResources) (prepare main : NodeContainer)
        → MountsIn own prepare.volume_mounts
        → MountsIn own main.volume_mounts
        → All (λ c. MountsIn r.git_sync_volumes c.volume_mounts) r.git_sync_containers
        → All (λ c. MountsIn r.git_sync_volumes c.volume_mounts) r.git_sync_init_containers
        → MountsIn r.git_sync_volumes r.git_sync_volume_mounts
        → All
            (λ k. MountsIn (own ++ r.git_sync_volumes) (mounts_of k))
            (pod_containers r prepare main)
    joined-MountsIn own r prepare main hp hm sidecars inits mounts =
        let vs = r.git_sync_volumes in
        let wider = λ (c : Container) (h : MountsIn vs c.volume_mounts).
          MountsIn-append_right own vs c.volume_mounts h in
        let P = λ (k : PodContainer). MountsIn (own ++ vs) (mounts_of k) in
        let inits' = map git_sync_container r.git_sync_init_containers in
        All-append P (node_container prepare ∷ inits') _
          (
            MountsIn-append_left own vs prepare.volume_mounts hp,
            git_sync-MountsIn (own ++ vs) r.git_sync_init_containers (All-imp _ _ _ wider inits),
          )
          (
            All-append _ main.volume_mounts r.git_sync_volume_mounts
                (MountsIn-append_left own vs main.volume_mounts hm)
                (MountsIn-append_right own vs r.git_sync_volume_mounts mounts),
            git_sync-MountsIn (own ++ vs) r.git_sync_containers (All-imp _ _ _ wider sidecars),
          )

    pod_parts-GitWired :
        (namespace : String) (b : StatefulSetBuilder) (p : PodSpec)
        → GitWired b.git_sync_resources
        → pod_parts o namespace b ≡ ok p
        → All (λ k. MountsIn p.volumes (mounts_of k)) (p.init_containers ++ p.containers)
    unfolding pod_parts
    pod_parts-GitWired namespace b p (sidecars, inits, mounts) e =
        let (prepare, prepared, rest) = >>=-eq-ok (get_prepare_container o namespace b) _ e in
        let (main, mained, rest2) = >>=-eq-ok (get_main_container o b) _ rest in
        let (vs, volumed, last) = >>=-eq-ok (get_volumes o b) _ rest2 in
        let (more, given, same) = get_volumes-eq_ok b vs volumed in
        subst
          (λ (q : PodSpec).
            All (λ k. MountsIn q.volumes (mounts_of k)) (q.init_containers ++ q.containers))
          (ok-inj last)
          (subst
            (λ (ws : List Volume).
              All (λ k. MountsIn ws (mounts_of k))
                (pod_containers b.git_sync_resources prepare main))
            (sym same)
            (joined-MountsIn (own_volumes b more) b.git_sync_resources prepare main
              (own-MountsIn b _ more (prepare-mounts namespace b prepare prepared) given)
              (own-MountsIn b _ more (main-mounts b main mained) given) sidecars inits mounts))

    -- Of a builder whose git-sync resources were generated from a list of entries, where a secret
    -- volume bears the name that it is built with: if the parts of the pod are given, every mount of
    -- every init container and of every container, NiFi's and git-sync's, names one of the pod's
    -- volumes.
    pub pod_parts-MountsIn :
        (namespace name cluster_name role_name : String) (c : ClusterConfigSpec)
        (image : Option Image) (authentication : Option Authentication) (b : StatefulSetBuilder)
        (p : PodSpec)
        → new_stateful_set_builder name cluster_name role_name c image authentication ≡ ok b
        → pod_parts o namespace b ≡ ok p
        → All (λ k. MountsIn p.volumes (mounts_of k)) (p.init_containers ++ p.containers)
    unfolding new_stateful_set_builder
    pod_parts-MountsIn namespace name cluster_name role_name c image authentication b p built e =
        let (r, made, filled) = >>=-eq-ok _ _ built in
        let held : r ≡ b.git_sync_resources = ap (λ x. x.git_sync_resources) (ok-inj filled) in
        let wired =
          new_git_sync_resources-MountsIn c.custom_components_git_sync r (wrap-eq-ok _ _ made) in
        pod_parts-GitWired namespace b p (subst GitWired held wired) e
