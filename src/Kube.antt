-- ===== src/Kube.antt =====
-- The Kubernetes objects that the operator fills in: of each type of k8s.io/api, the fields that
-- the program sets or reads. Quantities such as "100m" stay the texts that the program parses.
use mathlib.Core.List.{map-append}
use nifi_operator.Common.{
  ℕ, String, List, ◌++◌, map, Bool, true, ◌≡◌, All, All-imp, contains, contains-append_left,
  contains-append_right,
}

pub data EnvSource : Type 0 where
  literal : String → EnvSource
  field_ref : (field_path : String) → EnvSource
  secret_key_ref : (name key : String) → EnvSource
  config_map_key_ref : (name key : String) → EnvSource

pub record EnvVar : Type 0 where
  pub name : String
  pub source : EnvSource

pub record KeyToPath : Type 0 where
  pub key : String
  pub file : String

pub data VolumeSource : Type 0 where
  empty_dir : VolumeSource
  config_map : (name : String) → VolumeSource
  secret : (secret_name : String) → (items : List KeyToPath) → VolumeSource

pub record Volume : Type 0 where
  pub name : String
  pub source : VolumeSource

pub record VolumeMount : Type 0 where
  pub name : String
  pub mount_path : String
  pub sub_path : String
  pub read_only : Bool

pub record ContainerPort : Type 0 where
  pub name : String
  pub container_port : ℕ

pub record Resources : Type 0 where
  pub cpu_request : String
  pub memory_request : String
  pub cpu_limit : String
  pub memory_limit : String

pub record Container : Type 0 where
  pub name : String
  pub image : String
  pub image_pull_policy : String
  pub command : List String
  pub args : List String
  pub env : List EnvVar
  pub volume_mounts : List VolumeMount
  pub resources : Resources

abbrev pub volume_name : Volume → String
volume_name v = v.name

-- Each mount names one of the volumes.
abbrev pub MountsIn : List Volume → List VolumeMount → Type 0
MountsIn vs ms = All (λ m. contains (map volume_name vs) m.name ≡ true) ms

pub MountsIn-append_left :
    (vs ws : List Volume) (ms : List VolumeMount) → MountsIn vs ms → MountsIn (vs ++ ws) ms
MountsIn-append_left vs ws ms h =
    All-imp _ _ ms
      (λ m k.
        rw map-append (contains-append_left (map volume_name vs) (map volume_name ws) m.name k))
      h

pub MountsIn-append_right :
    (vs ws : List Volume) (ms : List VolumeMount) → MountsIn ws ms → MountsIn (vs ++ ws) ms
MountsIn-append_right vs ws ms h =
    All-imp _ _ ms
      (λ m k.
        rw map-append (contains-append_right (map volume_name vs) (map volume_name ws) m.name k))
      h
