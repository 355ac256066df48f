-- ===== src/OperatorGo.antt =====
-- What the program takes from the library operator-go and from the API server, as parameters: the
-- library's constants and text helpers, its secret volumes, its properties file, and a client.
use nifi_operator.Common.{
  ℕ, ◌≢◌, ok, String, Bool, Option, none, some, List, ◌≡◌, Result, contains, is_some, ◌==◌,
  if◌then◌else◌,
}
use nifi_operator.Kube.{Volume}

-- `SecretVolumeScope` of the builder package
pub record SecretVolumeScope : Type 0 where
  pub pod : Bool
  pub node : Bool
  pub service : List String

-- `Image` of the util package, with the fields that the program sets or reads.
pub record Image : Type 0 where
  pub custom : String
  pub repo : String
  pub pull_policy : String
  pub kubedoop_version : String
  pub product_version : String
  pub pull_secret_name : String

-- `RoleGroupInfo` of the reconciler package
pub record RoleGroupInfo : Type 0 where
  pub cluster_name : String
  pub role_name : String
  pub role_group_name : String

-- `ClusterInfo` of the reconciler package, with its GroupVersionKind
pub record ClusterInfo : Type 0 where
  pub group : String
  pub version : String
  pub kind : String
  pub cluster_name : String

pub record OperatorGo : Type 0 where
  pub kubedoop_root : String
  pub kubedoop_data_dir : String
  pub kubedoop_config_dir_mount : String
  pub kubedoop_secret_dir : String
  pub kubedoop_tls_dir : String
  pub kubedoop_domain : String
  pub label_kubernetes_instance : String
  pub label_kubernetes_managed_by : String
  pub label_kubernetes_component : String
  pub service_scope : String
  pub indent_tab4_spaces : String → String
  pub common_bash_trap_functions : String
  pub remove_vector_shutdown_file_command : String
  pub create_vector_shutdown_file_command : String
  -- `RoleGroupInfo.GetFullName`, from the names of the cluster, of the role and of the group
  pub get_full_name : String → String → String → String
  -- `NewImage`, from the product's name, the two versions and the options
  pub new_image :
      (product_name kubedoop_version product_version custom repo pull_policy : String) → Image
  pub get_image_with_tag : Image → Result String
  -- `NewSecretOperatorVolume(name, class)`, `SetScope` if a scope is given, and `Builde`
  pub secret_operator_volume : String → String → Option SecretVolumeScope → Volume

-- A secret volume bears the name that it is built with.
pub record IsNaming (o : OperatorGo) : Type 0 where
  pub volume_name_kept :
      (name class : String) (scope : Option SecretVolumeScope)
      → (o.secret_operator_volume name class scope).name ≡ name

-- The labels of a pod, which are those of its cluster, its role and its role group, and the label with
-- the pod's own name, which Kubernetes gives to the pods of a StatefulSet.
pub record IsLabelling (o : OperatorGo)
    (labels : (cluster role group pod : String) → String → Option String) : Type 0 where
  pub instance_label : (c n g p : String) → labels c n g p o.label_kubernetes_instance ≡ some c
  pub managed_by_label :
      (c n g p : String) → labels c n g p o.label_kubernetes_managed_by ≡ some o.kubedoop_domain
  pub component_label : (c n g p : String) → labels c n g p o.label_kubernetes_component ≡ some n
  pub pod_label : (c n g p : String) → labels c n g p "statefulset.kubernetes.io/pod-name" ≡ some p

-- `Properties` of config/properties
pub record PropertiesApi : Type 1 where
  pub Properties : Type 0
  pub new_properties : Properties
  pub add : Properties → String → String → Properties
  pub keys : Properties → List String
  pub get : Properties → String → Option String
  pub marshal : Properties → Result String

-- A key that is added has its last value, and the keys are those that have a value.
pub record IsProperties (P : PropertiesApi) : Type 0 where
  pub get-new_properties : (k : String) → P.get P.new_properties k ≡ none
  pub get-add :
      (p : P.Properties) (j v k : String)
      → P.get (P.add p j v) k ≡ (if j == k then some v else P.get p k)
  pub contains-keys : (p : P.Properties) (k : String) → contains (P.keys p) k ≡ is_some (P.get p k)

-- What `client.Get` gives: the object, an error that `IgnoreNotFound` ignores, or another error.
pub data GetResult {ℓ} (A : Type ℓ) : Type ℓ where
  found : A → GetResult A
  not_found : GetResult A
  failed : String → GetResult A

-- The entries of a Secret: keys, and the bytes of the values.
abbrev pub SecretData : Type 0
SecretData = List (String × List ℕ)

-- The secrets of a namespace: a read by name, and the creation or update by which the generic
-- reconciler applies an object.
pub record SecretsApi : Type 1 where
  pub Store : Type 0
  pub get : Store → String → GetResult SecretData
  pub apply : Store → String → SecretData → Result Store

-- An object that is applied is read back, and the others stay as they are.
pub record IsSecrets (S : SecretsApi) : Type 0 where
  pub get-apply :
      (s t : S.Store) (name : String) (d : SecretData)
      → S.apply s name d ≡ ok t
      → S.get t name ≡ found d
  pub get-apply_other :
      (s t : S.Store) (name other : String) (d : SecretData)
      → S.apply s name d ≡ ok t
      → name ≢ other
      → S.get t other ≡ S.get s other
