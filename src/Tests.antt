-- ===== src/Tests.antt =====
-- Concrete inputs, and the parameters of the model by concrete functions, with their laws.
pub mod Inputs
pub mod GitSyncTests
pub mod SecurityTests
pub mod NodeTests
pub mod ReportingTests
pub mod ClusterTests
pub mod CommandTests
use nifi_operator.Common.{
  ℕ, String, ◌<>◌, Bool, true, false, Option, none, some, List, [], ◌∷◌, map, ◌≡◌, ◌≢◌, refl, sym,
  ◌∙◌, Result, ok, err, panic, find_key, contains, is_some, ◌==◌, eq_iff, eq_refl, Bool-cases, inl,
  inr, arith, ok-inj, is_ok,
}
use nifi_operator.Kube.{secret}
use nifi_operator.OperatorGo.{
  OperatorGo, IsNaming, PropertiesApi, IsProperties, SecretsApi, IsSecrets, SecretData, GetResult,
  found, not_found, failed,
}
use nifi_operator.Security.Secrets.Runs.{IsReliable}

pub ok_value {ℓ} : {A : Type ℓ} (m : Result A) → is_ok m ≡ true → (a : A) × (m ≡ ok a)
ok_value (ok a) h = (a, refl)
ok_value (err e) h = cc
ok_value panic h = cc

pub apart : (a b : String) → (a == b) ≡ false → a ≢ b
apart a b h e = cc (sym h ∙ (eq_iff a b).1 e)

abbrev pub library : OperatorGo
library = record {
  kubedoop_root = "/kubedoop";
  kubedoop_data_dir = "/kubedoop/data";
  kubedoop_config_dir_mount = "/kubedoop/mount/config";
  kubedoop_secret_dir = "/kubedoop/secret";
  kubedoop_tls_dir = "/kubedoop/tls";
  kubedoop_domain = "kubedoop.dev";
  label_kubernetes_instance = "app.kubernetes.io/instance";
  label_kubernetes_managed_by = "app.kubernetes.io/managed-by";
  label_kubernetes_component = "app.kubernetes.io/component";
  service_scope = "service";
  indent_tab4_spaces = λ s. s;
  common_bash_trap_functions = "";
  remove_vector_shutdown_file_command = "";
  create_vector_shutdown_file_command = "";
  get_full_name = λ cluster role group. cluster <> "-" <> role <> "-" <> group;
  new_image = λ product kubedoop version custom repo policy. record {
    custom = custom;
    repo = repo;
    pull_policy = policy;
    kubedoop_version = kubedoop;
    product_version = version;
    pull_secret_name = "";
  };
  get_image_with_tag = λ image. ok image.repo;
  secret_operator_volume = λ name class scope. record { name = name; source = secret class [] };
}

pub library-IsNaming : IsNaming library
library-IsNaming = record { volume_name_kept = λ name class scope. refl }

-- Properties as an association list, the last entry first.
abbrev pub properties : PropertiesApi
properties = record {
  Properties = List (String × String);
  new_properties = [];
  add = λ p k v. (k, v) ∷ p;
  keys = map (λ e. e.0);
  get = λ p k. find_key k p;
  marshal = λ p. ok "";
}

contains-keys :
    (p : List (String × String)) (k : String)
    → contains (map (λ e. e.0) p) k ≡ is_some (find_key k p)
contains-keys [] k = refl
contains-keys ((j, v) ∷ p) k = ground (arith, contains-keys p k)

pub properties-IsProperties : IsProperties properties
properties-IsProperties = record {
  get-new_properties = λ k. refl;
  get-add = λ p j v k. refl;
  contains-keys = contains-keys;
}

abbrev found_key : Option SecretData → GetResult SecretData
found_key none = not_found
found_key (some d) = found d

-- Secrets as an association list.
abbrev pub secrets : SecretsApi
secrets = record {
  Store = List (String × SecretData);
  get = λ s name. found_key (find_key name s);
  apply = λ s name d. ok ((name, d) ∷ s);
}

pub secrets-IsSecrets : IsSecrets secrets
secrets-IsSecrets = record {
  get-apply = λ s t name d e. rw (← ok-inj {a = (name, d) ∷ s} {b = t} e, eq_refl name);
  get-apply_other = λ s t name other d e differ. elim (Bool-cases (name == other)) [
    | inl same ↦ absurd (differ ((eq_iff name other).0 same))
    | inr d_ne ↦ rw (← ok-inj {a = (name, d) ∷ s} {b = t} e, d_ne)
  ];
}

-- The store of the tests answers every call.
found_key_answered : (o : Option SecretData) (e : String) → found_key o ≢ failed e
found_key_answered none e = λ h. cc
found_key_answered (some d) e = λ h. cc

pub secrets-IsReliable : IsReliable secrets
secrets-IsReliable = record {
  get_answered = λ s name e. found_key_answered (find_key name s) e;
  apply_done = λ s name d. ((name, d) ∷ s, refl);
}
