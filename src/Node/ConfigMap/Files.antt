-- ===== src/Node/ConfigMap/Files.antt =====
-- Which files the ConfigMap of internal/controller/node/configmap.go holds, and which of them the
-- script of internal/controller/node/statefulset.go reads.
use nifi_operator.Common.{
  String, Bool, Option, List, [], ◌∷◌, ◌++◌, ◌≡◌, inl, inr, ok, deref, ok-inj, subst, >>=-eq-ok,
  is_some, contains, ◌&&◌, Option-cases, map,
}
use nifi_operator.OperatorGo.{OperatorGo, PropertiesApi, GetResult}
use nifi_operator.Security.{AuthenticationProvider}
use nifi_operator.Node.{NifiConfigMapBuilder}
use nifi_operator.Node.Bootstrap.{get_bootstrap_config}
use nifi_operator.Node.Properties.Build.{get_nifi_properties}
use nifi_operator.Node.ConfigMap.{login_identity_items, build}

abbrev pub file_name : String × String → String
file_name item = item.0

-- Whether the ConfigMap holds every template that the script of the init container fills in.
abbrev pub holds_templates : List String → Bool
holds_templates files =
    contains files "nifi.properties"
    && (contains files "login-identity-providers.xml" && contains files "state-management.xml")

login_identity_items-templates :
    (o : OperatorGo) (b : NifiConfigMapBuilder) (bootstrap properties state : String)
    (login : List (String × String))
    → login_identity_items o b ≡ ok login
    → holds_templates (
        map file_name (
          ("bootstrap.conf", bootstrap) ∷ ("nifi.properties", properties) ∷ login
          ++ ("state-management.xml", state) ∷ []))
      ≡ is_some b.cluster_config.authentication
unfolding login_identity_items
login_identity_items-templates o b bootstrap properties state login e =
    elim (Option-cases b.cluster_config.authentication) [
      | inl given ↦ let l = ok-inj (rw given at e) in rw (given, ← l)
      | inr (specs, given) ↦
          let (a, _, last) = >>=-eq-ok (deref b.authentication) _ (rw given at e) in
          rw (given, ← ok-inj last)
    ]

-- Of any builder: if the ConfigMap is built, it holds the three templates that the script of the
-- init container fills in just if the cluster configuration has an authentication.
pub build-templates :
    (o : OperatorGo) (namespace : String) (P : PropertiesApi)
    (get : String → GetResult (Option AuthenticationProvider)) (b : NifiConfigMapBuilder)
    (items : List (String × String))
    → build o namespace P get b ≡ ok items
    → holds_templates (map file_name items) ≡ is_some b.cluster_config.authentication
unfolding build
build-templates o namespace P get b items e =
    let (bootstrap, _, e1) = >>=-eq-ok (get_bootstrap_config b.config) _ e in
    let (properties, _, e2) = >>=-eq-ok (get_nifi_properties o namespace P get b) _ e1 in
    let (login, given, e3) = >>=-eq-ok (login_identity_items o b) _ e2 in
    subst
      (λ (i : List (String × String)).
        holds_templates (map file_name i) ≡ is_some b.cluster_config.authentication)
      (ok-inj e3) (login_identity_items-templates o b bootstrap properties _ login given)
