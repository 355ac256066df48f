-- ===== src/GitSync/Labels.antt =====
-- That Kubernetes takes the names of the containers and volumes that internal/common/git_sync.go
-- generates.
use nifi_operator.Common.{
  ℕ, suc, ◌+◌, ◌<◌, ◌≤◌, List, [], ◌∷◌, map, length, ◌≡◌, refl, sym, ◌∙◌, ok, arith, All, All-map,
  map_from,
}
use nifi_operator.Common.Label.{IsLabel, power_of_10, numbered-IsLabel, wrapped-IsLabel}
use nifi_operator.Kube.{volume_name}
use nifi_operator.Api.{GitSyncSpec}
use nifi_operator.GitSync.{GitSyncResources, new_git_sync_resources}
use nifi_operator.GitSync.Loop.{
  sidecar_at, init_at, volume_at, resources_of, new_git_sync_resources_lem,
}
use nifi_operator.GitSync.Names.{container_name}

-- The items at the positions below a bound.
All-map_from_below {ℓ κ μ} :
    {A : Type ℓ} {B : Type κ} (P : B → Type μ) (f : ℕ → A → B) (n : ℕ)
    → ((i : ℕ) (x : A) → i < n → P (f i x))
    → (i : ℕ) (xs : List A) → i + length xs ≤ n
    → All P (map_from f i xs)
All-map_from_below P f n h i [] b = tt
All-map_from_below P f n h i (x ∷ xs) b =
    (h i x (omega arith), All-map_from_below P f n h (suc i) xs (omega arith))

-- The bound on the number of entries: a thousand million.
abbrev pub bound : ℕ
bound = power_of_10 9

sidecar_at-IsLabel : (i : ℕ) (x : GitSyncSpec) → i < bound → IsLabel (sidecar_at i x).name
sidecar_at-IsLabel i x h =
    numbered-IsLabel "git-sync-" 8 i refl refl (λ e. absurd (omega arith)) (omega arith) h

init_at-IsLabel : (i : ℕ) (x : GitSyncSpec) → i < bound → IsLabel (init_at i x).name
init_at-IsLabel i x h =
    wrapped-IsLabel "git-sync-" "-init" 8 i refl refl refl (λ e. absurd (omega arith)) (λ d. refl)
      (omega arith) h

volume_at-IsLabel : (i : ℕ) (x : GitSyncSpec) → i < bound → IsLabel (volume_at i x).name
volume_at-IsLabel i x h =
    numbered-IsLabel "content-from-git-" 8 i refl refl (λ e. absurd (omega arith)) (omega arith) h

-- Of up to a thousand million entries: every name of a sidecar, of an init container and of a volume
-- is a label of RFC 1123, which has 63 characters at most, lower-case letters, digits and dashes, and
-- begins and ends with a letter or a digit.
pub new_git_sync_resources-IsLabel :
    (gss : List GitSyncSpec) (r : GitSyncResources)
    → length gss ≤ bound
    → new_git_sync_resources gss ≡ ok r
    → All IsLabel (map container_name r.git_sync_containers)
      × All IsLabel (map container_name r.git_sync_init_containers)
      × All IsLabel (map volume_name r.git_sync_volumes)
new_git_sync_resources-IsLabel gss r b e =
    let same : resources_of gss ≡ r = cc (sym (new_git_sync_resources_lem gss) ∙ e) in
    rw (← same) (
      All-map IsLabel container_name _
          (All-map_from_below _ sidecar_at bound sidecar_at-IsLabel 0 gss (omega arith)),
      All-map IsLabel container_name _
          (All-map_from_below _ init_at bound init_at-IsLabel 0 gss (omega arith)),
      All-map IsLabel volume_name _
          (All-map_from_below _ volume_at bound volume_at-IsLabel 0 gss (omega arith)),
    )
