-- ===== src/Node/Templates.antt =====
-- That the environment variables which the templates of internal/controller/node/configmap.go name are
-- those that internal/controller/node/statefulset.go gives to the containers.
use nifi_operator.Common.{
  ℕ, zero, suc, String, Bool, true, false, List, [], ◌∷◌, ◌++◌, map, ◌≡◌, refl, sym, ◌⊎◌, inl, inr,
  ok, ok-inj, >>=-eq-ok, All, subst, contains, Option-cases, Bool-cases, starts_with, ◌==◌,
  if◌then◌else◌,
}
use nifi_operator.Common.Decimal.{print}
use nifi_operator.Kube.{EnvVar, literal, field_ref}
use nifi_operator.Api.{ClusterConfigSpec}
use nifi_operator.Security.Authentication
use nifi_operator.Node.{get_port, use_zookeeper_state_provider}
use nifi_operator.Node.Properties.{cluster_entries}
use nifi_operator.Node.StateManagement.{
  cluster_provider_block, zookeeper_provider_block, kubernetes_provider_block,
}
use nifi_operator.Node.StatefulSet.{
  StatefulSetBuilder, get_container_env, zookeeper_env, authenticated,
}

-- A text without its first characters, and up to its first quote.
abbrev drop : ℕ → String → String
drop zero s = s
drop (suc n) String.[] = ""
drop (suc n) (String.◌∷◌ c s) = drop n s

abbrev up_to_quote : String → String
up_to_quote String.[] = ""
up_to_quote (String.◌∷◌ c s) =
    let rest = up_to_quote s in if starts_with (String.◌∷◌ c s) "\"" then "" else String.◌∷◌ c rest

-- The names in the calls of `getenv` in a template.
abbrev pub variables : String → List String
variables String.[] = []
variables (String.◌∷◌ c s) =
    let rest = variables s in
    if starts_with (String.◌∷◌ c s) "getenv \"" then up_to_quote (drop 7 s) ∷ rest else rest

variables_test : variables "a {{ getenv \"HOST\" }}:{{ getenv \"PORT\" }}" ≡ "HOST" ∷ "PORT" ∷ []
variables_test = refl

abbrev pub all_variables : List String → List String
all_variables [] = []
all_variables (t ∷ ts) = variables t ++ all_variables ts

-- The values of nifi.properties for the cluster, and the provider in state-management.xml.
abbrev pub cluster_templates : ClusterConfigSpec → List String
unfolding cluster_entries cluster_provider_block
cluster_templates c =
    cluster_provider_block c ∷ map (λ (e : String × String). e.1) (cluster_entries c)

abbrev needed : Bool → List String
needed true =
    "ZOOKEEPER_HOSTS" ∷ "ZOOKEEPER_CHROOT" ∷ "NODE_ADDRESS" ∷ "ZOOKEEPER_HOSTS" ∷ "ZOOKEEPER_CHROOT"
    ∷ []
needed false = "STACKLET_NAME" ∷ "NODE_ADDRESS" ∷ "STACKLET_NAME" ∷ []

variables-needed :
    (c : ClusterConfigSpec)
    → all_variables (cluster_templates c) ≡ needed (use_zookeeper_state_provider c)
unfolding cluster_entries cluster_provider_block zookeeper_provider_block kubernetes_provider_block
    get_port print
variables-needed c = elim (Bool-cases (use_zookeeper_state_provider c)) [
  | inl z ↦ elim (Option-cases c.tls) [ inl e ↦ rw (z, e) | inr (t, e) ↦ rw (z, e) ]
  | inr z ↦ elim (Option-cases c.tls) [ inl e ↦ rw (z, e) | inr (t, e) ↦ rw (z, e) ]
]

abbrev pub env_names : List EnvVar → List String
env_names env = map (λ (e : EnvVar). e.name) env

-- A variable of the container, or the one that the script of the init container exports.
abbrev pub IsDefined : List EnvVar → String → Type 0
IsDefined env n = (n ≡ "NODE_ADDRESS") ⊎ (contains (env_names env) n ≡ true)

needed-IsDefined :
    (c : ClusterConfigSpec) (name : String) (more : List EnvVar)
    → All
        (IsDefined (
          record { name = "POD_NAME"; source = field_ref "metadata.name" }
            ∷ record { name = "STACKLET_NAME"; source = literal name }
            ∷ zookeeper_env c
          ++ more))
        (needed (use_zookeeper_state_provider c))
unfolding zookeeper_env use_zookeeper_state_provider
needed-IsDefined c name more = elim (Option-cases c.zookeeper_config_map_name) [
  | inl e ↦
      rw (zookeeper_env, use_zookeeper_state_provider, e) (inr refl, (inl refl, (inr refl, tt)))
  | inr (z, e) ↦ elim (Bool-cases (z == "")) [
    | inl f ↦
        rw (zookeeper_env, use_zookeeper_state_provider, e, f)
          (inr refl, (inl refl, (inr refl, tt)))
    | inr f ↦
        rw (zookeeper_env, use_zookeeper_state_provider, e, f)
          (inr refl, (inr refl, (inl refl, (inr refl, (inr refl, tt)))))
  ]
]

-- Of any StatefulSet whose containers get an environment: each variable that a value of nifi.properties
-- for the cluster or the cluster's state provider reads by `getenv` is NODE_ADDRESS or in that
-- environment, with ZooKeeper and without it.
pub get_container_env-IsDefined :
    (b : StatefulSetBuilder) (env : List EnvVar)
    → get_container_env b ≡ ok env
    → All (IsDefined env) (all_variables (cluster_templates b.cluster_config))
unfolding get_container_env
get_container_env-IsDefined b env e =
    let (more, _, last) =
      >>=-eq-ok (authenticated Authentication.get_env_vars b.authentication) _ e in
    subst (All (IsDefined env)) (sym (variables-needed b.cluster_config)) (
      subst
        (λ (v : List EnvVar).
          All (IsDefined v) (needed (use_zookeeper_state_provider b.cluster_config)))
        (ok-inj last) (needed-IsDefined b.cluster_config b.cluster_name more))
