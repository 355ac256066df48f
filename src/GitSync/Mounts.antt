-- ===== src/GitSync/Mounts.antt =====
-- That the mounts which internal/common/git_sync.go generates have their volumes.
use nifi_operator.Common.{
  ℕ, suc, List, [], ◌∷◌, map, ◌≡◌, refl, sym, ◌∙◌, ok, map_from, All, All-imp, contains-cons,
  contains_self,
}
use nifi_operator.Kube.{Volume, VolumeMount, volume_name, MountsIn}
use nifi_operator.Api.{GitSyncSpec}
use nifi_operator.GitSync.Loop.{
  sidecar_at, init_at, volume_at, volume_name_at, content_mount_at, resources_of,
  new_git_sync_resources_lem,
}
use nifi_operator.GitSync.{GitSyncResources, new_git_sync_resources}

module _ {ℓ} {B : Type ℓ} (f : ℕ → GitSyncSpec → B) (mounts : B → List VolumeMount) where
  -- If item `i` mounts what volume `i` offers alone, the items mount what the volumes offer.
  map_from-MountsIn :
      ((i : ℕ) (gs : GitSyncSpec) → All (λ m. m.name ≡ volume_name_at i) (mounts (f i gs)))
      → (i : ℕ) (gss : List GitSyncSpec)
      → All (λ b. MountsIn (map_from volume_at i gss) (mounts b)) (map_from f i gss)
  map_from-MountsIn own i [] = tt
  map_from-MountsIn own i (gs ∷ gss) =
      let rest = map volume_name (map_from volume_at (suc i) gss) in
      (
        All-imp _ _ (mounts (f i gs)) (λ m e. rw e (contains_self (volume_name_at i) rest))
            (own i gs),
        All-imp _ _ (map_from f (suc i) gss)
            (λ b. All-imp _ _ (mounts b) (λ m. contains-cons (volume_name_at i) m.name rest))
            (map_from-MountsIn own (suc i) gss),
      )

flatten-MountsIn :
    (vs : List Volume) (ms : List VolumeMount) → All (λ m. MountsIn vs (m ∷ [])) ms → MountsIn vs ms
flatten-MountsIn vs ms h = All-imp _ _ ms (λ m k. k.0) h

sidecar_at-mounts :
    (i : ℕ) (gs : GitSyncSpec)
    → All (λ m. m.name ≡ volume_name_at i) (sidecar_at i gs).volume_mounts
sidecar_at-mounts i gs = (refl, tt)

init_at-mounts :
    (i : ℕ) (gs : GitSyncSpec) → All (λ m. m.name ≡ volume_name_at i) (init_at i gs).volume_mounts
init_at-mounts i gs = (refl, tt)

-- Whatever the entries, every mount of a generated sidecar, of a generated init container, and
-- every mount meant for NiFi's container names one of the generated volumes.
pub new_git_sync_resources-MountsIn :
    (gss : List GitSyncSpec) (r : GitSyncResources)
    → new_git_sync_resources gss ≡ ok r
    → All (λ c. MountsIn r.git_sync_volumes c.volume_mounts) r.git_sync_containers
      × All (λ c. MountsIn r.git_sync_volumes c.volume_mounts) r.git_sync_init_containers
      × MountsIn r.git_sync_volumes r.git_sync_volume_mounts
new_git_sync_resources-MountsIn gss r e =
    let same : resources_of gss ≡ r = cc (sym (new_git_sync_resources_lem gss) ∙ e) in
    rw (← same) (
      map_from-MountsIn sidecar_at (λ c. c.volume_mounts) sidecar_at-mounts 0 gss,
      map_from-MountsIn init_at (λ c. c.volume_mounts) init_at-mounts 0 gss,
      flatten-MountsIn _ _
          (map_from-MountsIn content_mount_at (λ m. m ∷ []) (λ _ _. (refl, tt)) 0 gss),
    )
