-- ===== src/Node/ConfigMap/Built.antt =====
-- When the ConfigMap of internal/controller/node/configmap.go can be built at all.
use nifi_operator.Common.{
  String, Bool, true, false, ◌&&◌, Option, none, some, List, ◌≡◌, refl, sym, ◌∙◌, ap, ok, panic,
  >>=-ok, >>=-panic, is_ok, status-succeeds, is_some, Option-cases, inl, inr, ◌⊎◌,
}
use nifi_operator.Api.{ConfigSpec, AuthenticationSpec}
use nifi_operator.OperatorGo.{OperatorGo, PropertiesApi, GetResult}
use nifi_operator.Security.{AuthenticationProvider}
use nifi_operator.Security.Oidc
use nifi_operator.Security.Authentication
use nifi_operator.Security.Authentication.{
  Authenticator, oidc_authenticator, ldap_authenticator, static_authenticator, Authentication,
  new_authentication, properties_of,
}
use nifi_operator.Security.Authentication.Delegation.{HoldsOne}
use nifi_operator.Node.{NifiConfigMapBuilder}
use nifi_operator.Node.Bootstrap.{get_bootstrap_config}
use nifi_operator.Node.Properties.Build.{
  add_all, add_keys, auth_properties, nifi_entries, nifi_properties, get_nifi_properties,
}
use nifi_operator.Node.ConfigMap.{login_identity_items, build}

-- A configuration that has a timeout, and an authenticator that gives properties.
abbrev pub has_timeout : Option ConfigSpec → Bool
has_timeout none = false
has_timeout (some c) = is_some c.role_group_config

abbrev pub gives_properties : Authenticator → Bool
gives_properties (oidc_authenticator a) = is_some a.config
gives_properties (ldap_authenticator a) = true
gives_properties (static_authenticator a) = true

get_bootstrap_config_cases :
    (config : Option ConfigSpec)
    → ((has_timeout config ≡ true) × ((t : String) × (get_bootstrap_config config ≡ ok t)))
      ⊎ ((has_timeout config ≡ false) × (get_bootstrap_config config ≡ panic))
unfolding get_bootstrap_config
get_bootstrap_config_cases none = inr (refl, refl)
get_bootstrap_config_cases (some c) = elim (Option-cases c.role_group_config) [
  | inl e ↦ inr (rw e, rw e)
  | inr (r, e) ↦ inl (rw e, status-succeeds _ (rw e))
]

module _ (P : PropertiesApi) (get : String → GetResult (Option AuthenticationProvider)) where
  properties_of_cases :
      (x : Authenticator)
      → ((gives_properties x ≡ true) × ((q : Option P.Properties) × (properties_of P x ≡ ok q)))
        ⊎ ((gives_properties x ≡ false) × (properties_of P x ≡ panic))
  unfolding properties_of Oidc.extend_nifi_properties
  properties_of_cases (oidc_authenticator a) = elim (Option-cases a.config) [
    | inl e ↦ inr (rw e, rw e)
    | inr (c, e) ↦ inl (rw e, status-succeeds _ (rw e))
  ]
  properties_of_cases (ldap_authenticator a) = inl (refl, (_, refl))
  properties_of_cases (static_authenticator a) = inl (refl, (_, refl))

  auth_properties-properties_of :
      (b : NifiConfigMapBuilder) (specs : List AuthenticationSpec) (a : Authentication)
      (x : Authenticator)
      → b.cluster_config.authentication ≡ some specs
      → new_authentication get b.cluster_name specs ≡ ok a
      → HoldsOne a x
      → auth_properties P get b ≡ properties_of P x
  unfolding auth_properties Authentication.extend_nifi_properties Authentication.find_single
  auth_properties-properties_of b specs a x named made (t, h) = rw (named, made, h)

  module _ (o : OperatorGo) (namespace : String)
      (marshals : (p : P.Properties) → (t : String) × (P.marshal p ≡ ok t)) where
    nifi_cases :
        (b : NifiConfigMapBuilder) (x : Authenticator)
        → auth_properties P get b ≡ properties_of P x
        → ((gives_properties x ≡ true)
            × ((t : String) × (get_nifi_properties o namespace P get b ≡ ok t)))
          ⊎ ((gives_properties x ≡ false) × (get_nifi_properties o namespace P get b ≡ panic))
    unfolding get_nifi_properties nifi_properties
    nifi_cases b x same = elim (properties_of_cases x) [
      | inl (given, (q, made)) ↦
          let p = add_all P P.new_properties (nifi_entries o namespace b) in
          let (t, done) = marshals (elim q [ none ↦ p | some q' ↦ add_keys P q' p (P.keys q') ]) in
          inl (given, (t, >>=-ok _ (>>=-ok _ (same ∙ made)) ∙ done))
      | inr (absent, failed) ↦ inr (absent, >>=-panic _ (>>=-panic _ (same ∙ failed)))
    ]

    login_made :
        (b : NifiConfigMapBuilder) (specs : List AuthenticationSpec) (a : Authentication)
        → b.cluster_config.authentication ≡ some specs
        → b.authentication ≡ some a
        → (items : List (String × String)) × (login_identity_items o b ≡ ok items)
    unfolding login_identity_items
    login_made b specs a named held = status-succeeds _ (rw (named, held))

    -- Where every properties file is printed: for a builder whose authentication holds one
    -- authenticator, which the API server's answers give for its cluster configuration, the ConfigMap is
    -- built if its configuration has a timeout and the authenticator, if it is OIDC, has its
    -- configuration, and only then.
    pub build-is_ok :
        (b : NifiConfigMapBuilder) (specs : List AuthenticationSpec) (a : Authentication)
        (x : Authenticator)
        → b.cluster_config.authentication ≡ some specs
        → new_authentication get b.cluster_name specs ≡ ok a
        → b.authentication ≡ some a
        → HoldsOne a x
        → is_ok (build o namespace P get b) ≡ has_timeout b.config && gives_properties x
    unfolding build
    build-is_ok b specs a x named made held one = elim (get_bootstrap_config_cases b.config) [
      | inr (lacks, failed) ↦ ap is_ok (>>=-panic _ failed) ∙ sym (rw lacks)
      | inl (has, (t, e)) ↦
          elim (nifi_cases b x (auth_properties-properties_of b specs a x named made one)) [
            | inr (lacks, failed) ↦
                ap is_ok (>>=-ok _ e ∙ >>=-panic _ failed) ∙ sym (rw (has, lacks))
            | inl (given, (u, f)) ↦
                let (items, g) = login_made b specs a named held in
                ap is_ok (>>=-ok _ e ∙ >>=-ok _ f ∙ >>=-ok _ g) ∙ sym (rw (has, given))
          ]
    ]
