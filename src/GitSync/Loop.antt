-- ===== src/GitSync/Loop.antt =====
-- The loop of NewGitSyncResources in internal/common/git_sync.go against a description of each item
-- by its position.
use Prim.Native.Char.{Char, code}
use Prim.Native.String.{slice, len}
use text.Mathlib.TextLemmas.{nil-append, cons-append}
use text.Mathlib.TextPositions.{len-append, slice-append_right}
use text.Mathlib.TextEquality.{Char-path, starts_with_iff}
use mathlib.Core.List.{append-nil, append_assoc}
use nifi_operator.Common.{
  starts_with, nat_eqb, Bool-cases, inl, inr, sym, arith, ℕ, suc, String, ◌<>◌, Bool, true, false,
  List, [], ◌∷◌, ◌++◌, map, ◌≡◌, refl, ap, ◌∙◌, ok, map_from, ◌==◌, ==-cons, if◌then◌else◌,
}
use nifi_operator.Common.Decimal.{print}
use nifi_operator.Common.FilePath
use nifi_operator.Kube.{EnvVar, secret_key_ref, Volume, empty_dir, VolumeMount, Container}
use nifi_operator.Api.{GitSyncSpec}
use nifi_operator.GitSync.{
  GitSyncResources, build_git_sync_container, credentials_env, git_sync_env_var_from_secret,
  git_sync_round, git_sync_loop, no_resources, new_git_sync_resources, trim_slash,
}
use nifi_operator.GitSync.Args.{setting, settings_of, build_git_sync_args_lem}

-- The volume of entry `i`, where git-sync writes.
abbrev pub volume_name_at : ℕ → String
volume_name_at i = "content-from-git-" <> print i

abbrev pub root_mount_at : ℕ → List VolumeMount
root_mount_at i =
    record { name = volume_name_at i; mount_path = "/tmp/git"; sub_path = ""; read_only = false }
    ∷ []

-- Both credentials out of the secret of an entry, none where it names no secret.
abbrev pub credentials_of : String → List EnvVar
credentials_of String.[] = []
credentials_of (String.◌∷◌ c s) =
    record { name = "GITSYNC_USERNAME"; source = secret_key_ref (String.◌∷◌ c s) "user" }
    ∷ record { name = "GITSYNC_PASSWORD"; source = secret_key_ref (String.◌∷◌ c s) "password" }
    ∷ []

-- A container that runs git-sync for an entry.
abbrev pub git_sync_at : String → Bool → ℕ → GitSyncSpec → Container
git_sync_at name one_time i gs = record {
  name = name;
  image = "registry.k8s.io/git-sync/git-sync:v4.2.1";
  image_pull_policy = "IfNotPresent";
  command = "/git-sync" ∷ [];
  args = map setting (settings_of gs one_time);
  env = credentials_of gs.credentials_secret;
  volume_mounts = root_mount_at i;
  resources = record {
    cpu_request = "100m";
    memory_request = "64Mi";
    cpu_limit = "200m";
    memory_limit = "64Mi";
  };
}

abbrev pub sidecar_at : ℕ → GitSyncSpec → Container
sidecar_at i gs = git_sync_at ("git-sync-" <> print i) false i gs

abbrev pub init_at : ℕ → GitSyncSpec → Container
init_at i gs = git_sync_at ("git-sync-" <> print i <> "-init") true i gs

abbrev pub volume_at : ℕ → GitSyncSpec → Volume
volume_at i gs = record { name = volume_name_at i; source = empty_dir }

abbrev pub content_mount_at : ℕ → GitSyncSpec → VolumeMount
content_mount_at i gs = record {
  name = volume_name_at i;
  mount_path = "/kubedoop/app/git-" <> print i;
  sub_path = "";
  read_only = false;
}

-- A text without the slash in front, where it has one.
abbrev pub without_slash : String → String
without_slash String.[] = String.[]
without_slash (String.◌∷◌ c s) = if nat_eqb (code c) b'/' then s else String.◌∷◌ c s

abbrev pub content_folder_at : ℕ → GitSyncSpec → String
content_folder_at i gs =
    FilePath.join (("/kubedoop/app/git-" <> print i) ∷ "current" ∷ without_slash gs.git_folder ∷ [])

-- What the entries from position `i` on add to the resources.
abbrev extended : ℕ → List GitSyncSpec → GitSyncResources → GitSyncResources
extended i gss r = record {
  git_sync_containers = r.git_sync_containers ++ map_from sidecar_at i gss;
  git_sync_init_containers = r.git_sync_init_containers ++ map_from init_at i gss;
  git_sync_volumes = r.git_sync_volumes ++ map_from volume_at i gss;
  git_sync_volume_mounts = r.git_sync_volume_mounts ++ map_from content_mount_at i gss;
  git_content_folders = r.git_content_folders ++ map_from content_folder_at i gss;
}

secret-credentials_of :
    (s : String)
    → (if s == ""
        then []
        else git_sync_env_var_from_secret "GITSYNC_USERNAME" s "user"
          ∷ git_sync_env_var_from_secret "GITSYNC_PASSWORD" s "password"
          ∷ [])
      ≡ credentials_of s
unfolding git_sync_env_var_from_secret
secret-credentials_of String.[] = refl
secret-credentials_of (String.◌∷◌ c s) = rw (==-cons c s) refl

credentials_env-credentials_of :
    (gs : GitSyncSpec) → credentials_env gs ≡ credentials_of gs.credentials_secret
unfolding credentials_env
credentials_env-credentials_of gs = secret-credentials_of gs.credentials_secret

slash-cons : (u : String) → "/" <> u ≡ String.◌∷◌ "/" u
slash-cons u = cons-append "/" "" u ∙ ap (String.◌∷◌ "/") (nil-append u)

trim_slash-cons : (u : String) → slice ("/" <> u) 1 (len ("/" <> u)) ≡ u
trim_slash-cons u = ap (slice ("/" <> u) 1) (len-append "/" u) ∙ slice-append_right "/" u

no_slash :
    (c : Char) (s : String)
    → starts_with (String.◌∷◌ c s) "/" ≡ false
    → nat_eqb (code c) b'/' ≡ false
no_slash c s h = elim (Bool-cases (nat_eqb (code c) b'/')) [
  | inl e ↦
      let same : String.◌∷◌ c s ≡ "/" <> s =
        ap (λ d. String.◌∷◌ d s) (Char-path c "/" (grind arith)) ∙ sym (slash-cons s) in
      cc (sym h ∙ (starts_with_iff (String.◌∷◌ c s) "/").1 (s, sym same))
  | inr e ↦ e
]

trim_slash-without_slash : (s : String) → trim_slash s ≡ without_slash s
trim_slash-without_slash s = elim (Bool-cases (starts_with s "/")) [
  | inl e ↦
      let (u, same) = (starts_with_iff s "/").0 e in
      rw e (
        ap (λ t. slice t 1 (len t)) (sym same)
        ∙ trim_slash-cons u
        ∙ ap without_slash (sym (slash-cons u) ∙ same))
  | inr e ↦ rw e (unslashed s e)
]
  where
    unslashed : (t : String) → starts_with t "/" ≡ false → t ≡ without_slash t
    unslashed String.[] h = refl
    unslashed (String.◌∷◌ c t) h = rw (no_slash c t h) refl

-- The container that the code builds.
build_git_sync_container-git_sync_at :
    (name : String) (one_time : Bool) (i : ℕ) (gs : GitSyncSpec)
    → build_git_sync_container name gs one_time (credentials_env gs) (root_mount_at i)
      ≡ git_sync_at name one_time i gs
unfolding build_git_sync_container
build_git_sync_container-git_sync_at name one_time i gs =
    simp (build_git_sync_args_lem gs one_time, credentials_env-credentials_of gs)

git_sync_round-extended :
    (i : ℕ) (gs : GitSyncSpec) (r : GitSyncResources)
    → git_sync_round i gs r ≡ extended i (gs ∷ []) r
unfolding git_sync_round
git_sync_round-extended i gs r = simp (
  build_git_sync_container-git_sync_at ("git-sync-" <> print i) false i gs,
  build_git_sync_container-git_sync_at ("git-sync-" <> print i <> "-init") true i gs,
  trim_slash-without_slash gs.git_folder,
)

git_sync_loop-extended :
    (i : ℕ) (gss : List GitSyncSpec) (r : GitSyncResources)
    → git_sync_loop i gss r ≡ extended i gss r
unfolding git_sync_loop
git_sync_loop-extended i [] r = simp append-nil
git_sync_loop-extended i (gs ∷ gss) r =
    ap (git_sync_loop (suc i) gss) (git_sync_round-extended i gs r)
    ∙ git_sync_loop-extended (suc i) gss (extended i (gs ∷ []) r)
    ∙ simp append_assoc

abbrev pub resources_of : List GitSyncSpec → GitSyncResources
resources_of gss = record {
  git_sync_containers = map_from sidecar_at 0 gss;
  git_sync_init_containers = map_from init_at 0 gss;
  git_sync_volumes = map_from volume_at 0 gss;
  git_sync_volume_mounts = map_from content_mount_at 0 gss;
  git_content_folders = map_from content_folder_at 0 gss;
}

-- For any list of entries NewGitSyncResources succeeds, and each of the five lists holds, in the
-- order of the entries, exactly the item that belongs to each entry and its position: the volume,
-- its mount for NiFi, the folder of the content, which is the entry's without a slash in front,
-- below that mount, and two containers that run git-sync with the image and limits written out, the
-- volume mounted at git-sync's root, the two credentials out of the entry's secret where it names
-- one, and a flag with its value for each setting of the entry, which are those of one-time off for
-- the sidecar and of one-time on for the init container.
pub new_git_sync_resources_lem :
    (gss : List GitSyncSpec) → new_git_sync_resources gss ≡ ok (resources_of gss)
unfolding new_git_sync_resources
new_git_sync_resources_lem gss = ap ok (git_sync_loop-extended 0 gss no_resources)
