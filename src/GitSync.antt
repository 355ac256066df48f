-- ===== src/GitSync.antt =====
-- internal/common/git_sync.go: the sidecars, init containers, volumes and mounts for git-sync.
pub mod Args
pub mod Reserved
pub mod Loop
pub mod Names
pub mod Labels
pub mod Mounts
use nifi_operator.Common.{
  ℕ, zero, suc, String, ◌<>◌, Bool, true, false, ◌||◌, List, [], ◌∷◌, ◌++◌, ℤ, pos, is_zero, ltb,
  length, Result, ok, ◌==◌, starts_with, if◌then◌else◌,
}
use nifi_operator.Common.Decimal.{print, print_int}
use nifi_operator.Common.FilePath
use nifi_operator.Kube.{EnvVar, secret_key_ref, Volume, empty_dir, VolumeMount, Container}
use nifi_operator.Api.{GitSyncSpec}
use Prim.Native.String.{slice, len}

abbrev pub git_sync_container_name_prefix : String
git_sync_container_name_prefix = "git-sync"

abbrev pub git_sync_volume_name_prefix : String
git_sync_volume_name_prefix = "content-from-git"

abbrev pub git_sync_mount_path_prefix : String
git_sync_mount_path_prefix = "/kubedoop/app/git"

abbrev pub git_sync_root_dir : String
git_sync_root_dir = "/tmp/git"

abbrev pub git_sync_link : String
git_sync_link = "current"

abbrev git_sync_image : String
git_sync_image = "registry.k8s.io/git-sync/git-sync:v4.2.1"

abbrev default_git_branch : String
default_git_branch = "main"

abbrev default_git_sync_wait : String
default_git_sync_wait = "20s"

pub record GitSyncResources : Type 0 where
  pub git_sync_containers : List Container
  pub git_sync_init_containers : List Container
  pub git_sync_volumes : List Volume
  pub git_sync_volume_mounts : List VolumeMount
  pub git_content_folders : List String

unfoldable pub is_git_sync_enabled : GitSyncResources → Bool
is_git_sync_enabled r = ltb 0 (length r.git_sync_containers)

-- `%v` of a `bool`
abbrev pub print_bool : Bool → String
print_bool true = "true"
print_bool false = "false"

-- `strings.TrimPrefix(s, "/")`
abbrev trim_slash : String → String
trim_slash s = if starts_with s "/" then slice s 1 (len s) else s

-- The keys of the user's configuration that are passed over.
abbrev pub is_reserved : String → Bool
is_reserved k =
    k == "--git-config"
    || k == "--repo"
    || k == "--ref"
    || k == "--depth"
    || k == "--period"
    || k == "--link"
    || k == "--root"
    || k == "--one-time=true"
    || k == "--one-time=false"

-- The loop over the user's configuration.
unfoldable pub add_config : List String → List (String × String) → List String
add_config args [] = args
add_config args ((k, v) ∷ config) =
    add_config (if is_reserved k then args else args ++ (k <> "=" <> v) ∷ []) config

unfoldable pub build_git_sync_args : GitSyncSpec → Bool → List String
build_git_sync_args gs one_time =
    let branch = if gs.branch == "" then default_git_branch else gs.branch in
    let depth = if is_zero gs.depth then pos 1 else gs.depth in
    let wait = if gs.wait == "" then default_git_sync_wait else gs.wait in
    let args =
      ("--repo=" <> gs.repo)
      ∷ ("--ref=" <> branch)
      ∷ ("--depth=" <> print_int depth)
      ∷ ("--period=" <> wait)
      ∷ ("--link=" <> git_sync_link)
      ∷ ("--root=" <> git_sync_root_dir)
      ∷ [] in
    let args' = args ++ ("--one-time=" <> print_bool one_time) ∷ [] in
    let args'' = args' ++ ("--git-config=safe.directory:" <> git_sync_root_dir) ∷ [] in
    add_config args'' gs.git_sync_config

unfoldable pub git_sync_env_var_from_secret : String → String → String → EnvVar
git_sync_env_var_from_secret var_name secret_name secret_key = record {
  name = var_name;
  source = secret_key_ref secret_name secret_key;
}

unfoldable pub build_git_sync_container :
    String → GitSyncSpec → Bool → List EnvVar → List VolumeMount → Container
build_git_sync_container name gs one_time env_vars volume_mounts = record {
  name = name;
  image = git_sync_image;
  image_pull_policy = "IfNotPresent";
  command = "/git-sync" ∷ [];
  args = build_git_sync_args gs one_time;
  env = env_vars;
  volume_mounts = volume_mounts;
  resources = record {
    cpu_request = "100m";
    memory_request = "64Mi";
    cpu_limit = "200m";
    memory_limit = "64Mi";
  };
}

-- The credentials of one entry, none where no secret is named.
unfoldable pub credentials_env : GitSyncSpec → List EnvVar
credentials_env gs =
    if gs.credentials_secret == ""
    then []
    else git_sync_env_var_from_secret "GITSYNC_USERNAME" gs.credentials_secret "user"
      ∷ git_sync_env_var_from_secret "GITSYNC_PASSWORD" gs.credentials_secret "password"
      ∷ []

-- One round of the loop: entry `i` adds one item to each list.
unfoldable pub git_sync_round : ℕ → GitSyncSpec → GitSyncResources → GitSyncResources
git_sync_round i gs r =
    let volume_name = (git_sync_volume_name_prefix <> "-") <> print i in
    let mount_path = (git_sync_mount_path_prefix <> "-") <> print i in
    let env_vars = credentials_env gs in
    let container_volume_mounts : List VolumeMount =
      record {
        name = volume_name;
        mount_path = git_sync_root_dir;
        sub_path = "";
        read_only = false;
      }
      ∷ [] in
    let sidecar_container =
      build_git_sync_container ((git_sync_container_name_prefix <> "-") <> print i) gs false
        env_vars container_volume_mounts in
    let init_container =
      build_git_sync_container ((git_sync_container_name_prefix <> "-") <> print i <> "-init") gs
        true env_vars container_volume_mounts in
    let volume : Volume = record { name = volume_name; source = empty_dir } in
    let git_content_volume_mount : VolumeMount = record {
      name = volume_name;
      mount_path = mount_path;
      sub_path = "";
      read_only = false;
    } in
    let git_folder = trim_slash gs.git_folder in
    let git_content_folder = FilePath.join (mount_path ∷ git_sync_link ∷ git_folder ∷ []) in
    record {
      git_sync_containers = r.git_sync_containers ++ sidecar_container ∷ [];
      git_sync_init_containers = r.git_sync_init_containers ++ init_container ∷ [];
      git_sync_volumes = r.git_sync_volumes ++ volume ∷ [];
      git_sync_volume_mounts = r.git_sync_volume_mounts ++ git_content_volume_mount ∷ [];
      git_content_folders = r.git_content_folders ++ git_content_folder ∷ [];
    }

unfoldable pub git_sync_loop : ℕ → List GitSyncSpec → GitSyncResources → GitSyncResources
git_sync_loop i [] r = r
git_sync_loop i (gs ∷ more) r = git_sync_loop (suc i) more (git_sync_round i gs r)

abbrev pub no_resources : GitSyncResources
no_resources = record {
  git_sync_containers = [];
  git_sync_init_containers = [];
  git_sync_volumes = [];
  git_sync_volume_mounts = [];
  git_content_folders = [];
}

unfoldable pub new_git_sync_resources : List GitSyncSpec → Result GitSyncResources
new_git_sync_resources git_syncs = ok (git_sync_loop 0 git_syncs no_resources)
