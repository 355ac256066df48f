-- ===== src/GitSync/Names.antt =====
-- The names of the containers and volumes that internal/common/git_sync.go generates.
use text.Mathlib.TextLemmas.{append_cancel_left, append_cancel_right}
use nifi_operator.Common.{
  ℕ, suc, ◌<◌, String, ◌<>◌, List, [], ◌∷◌, map, ◌≡◌, ◌≢◌, sym, ◌∙◌, arith, map_from, All, Distinct,
  ok,
}
use nifi_operator.Common.Decimal.{print, print_inj}
use nifi_operator.Kube.{Container, VolumeMount, volume_name}
use nifi_operator.Api.{GitSyncSpec}
use nifi_operator.GitSync.Loop.{
  sidecar_at, init_at, volume_at, content_mount_at, resources_of, new_git_sync_resources_lem,
}
use nifi_operator.GitSync.{GitSyncResources, new_git_sync_resources}

-- Where a name tells the position, the names of a list by position are distinct.
module _ {ℓ κ} {A : Type ℓ} {B : Type κ} (f : ℕ → A → B) (g : B → String) where
  later_ne :
      ((i j : ℕ) (x y : A) → g (f i x) ≡ g (f j y) → i ≡ j)
      → (i j : ℕ) (x : A) (ys : List A) → i < j
      → All (λ n. g (f i x) ≢ n) (map g (map_from f j ys))
  later_ne inj i j x [] h = tt
  later_ne inj i j x (y ∷ ys) h =
      (λ e. absurd (omega (arith, inj i j x y e)), later_ne inj i (suc j) x ys (omega arith))

  pub Distinct-map_from :
      ((i j : ℕ) (x y : A) → g (f i x) ≡ g (f j y) → i ≡ j)
      → (i : ℕ) (xs : List A) → Distinct (map g (map_from f i xs))
  Distinct-map_from inj i [] = tt
  Distinct-map_from inj i (x ∷ xs) =
      (later_ne inj i (suc i) x xs (omega arith), Distinct-map_from inj (suc i) xs)

prefix_inj : (p : String) (i j : ℕ) → p <> print i ≡ p <> print j → i ≡ j
prefix_inj p i j e = print_inj i j (append_cancel_left p (print i) (print j) e)

wrap_inj : (p q : String) (i j : ℕ) → p <> print i <> q ≡ p <> print j <> q → i ≡ j
wrap_inj p q i j e = print_inj i j (
    append_cancel_right (print i) (print j) q
      (append_cancel_left p (print i <> q) (print j <> q) e))

abbrev pub container_name : Container → String
container_name c = c.name

abbrev pub mount_path_of : VolumeMount → String
mount_path_of m = m.mount_path

sidecar_at-name :
    (i j : ℕ) (x y : GitSyncSpec) → (sidecar_at i x).name ≡ (sidecar_at j y).name → i ≡ j
sidecar_at-name i j x y e = prefix_inj "git-sync-" i j e

init_at-name : (i j : ℕ) (x y : GitSyncSpec) → (init_at i x).name ≡ (init_at j y).name → i ≡ j
init_at-name i j x y e = wrap_inj "git-sync-" "-init" i j e

-- However many entries there are, the sidecars have distinct names, the init containers have
-- distinct names, the volumes have distinct names and NiFi's mounts have distinct paths.
pub new_git_sync_resources-Distinct :
    (gss : List GitSyncSpec) (r : GitSyncResources)
    → new_git_sync_resources gss ≡ ok r
    → Distinct (map container_name r.git_sync_containers)
      × Distinct (map container_name r.git_sync_init_containers)
      × Distinct (map volume_name r.git_sync_volumes)
      × Distinct (map mount_path_of r.git_sync_volume_mounts)
new_git_sync_resources-Distinct gss r e =
    let same : resources_of gss ≡ r = cc (sym (new_git_sync_resources_lem gss) ∙ e) in
    rw (← same) (
      Distinct-map_from sidecar_at container_name sidecar_at-name 0 gss,
      Distinct-map_from init_at container_name init_at-name 0 gss,
      Distinct-map_from volume_at volume_name (λ i j _ _. prefix_inj "content-from-git-" i j) 0 gss,
      Distinct-map_from content_mount_at mount_path_of
          (λ i j _ _. prefix_inj "/kubedoop/app/git-" i j) 0 gss,
    )
