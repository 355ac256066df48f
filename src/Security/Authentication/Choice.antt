-- ===== src/Security/Authentication/Choice.antt =====
-- NewAuthentication of internal/common/security/authentication.go: what is chosen, and every way in
-- which it fails.
use nifi_operator.Common.{
  String, ◌<>◌, false, Option, none, some, List, [], ◌∷◌, ◌≡◌, ◌≢◌, refl, ◌⊎◌, inl, inr, arith,
  Result, ok, err, panic, ◌==◌, eq_iff, Option-cases, Bool-cases,
}
use nifi_operator.Api.{AuthenticationSpec}
use nifi_operator.OperatorGo.{GetResult, found, not_found, failed}
use nifi_operator.Security.{AuthenticatorType, ldap, oidc, static_user, AuthenticationProvider}
use nifi_operator.Security.StaticUser.{StaticAuthenticator}
use nifi_operator.Security.Oidc.{OidcAuthenticator}
use nifi_operator.Security.Ldap.{LdapAuthenticator}
use nifi_operator.Security.Authentication.{
  Authenticator, oidc_authenticator, ldap_authenticator, static_authenticator, Authentication,
  get_auth_provider, is_supported, append_at, offered, choose_authenticator, collect_authenticators,
  new_authentication,
}

-- The authenticator that a provider gives: the first that it offers of OIDC, LDAP and static users.
pub data Gives (cluster_name : String) (auth : AuthenticationSpec) (p : AuthenticationProvider)
    : AuthenticatorType → Authenticator → Type 0 where
  gives_oidc :
      (a : OidcAuthenticator)
      → a.cluster_name ≡ cluster_name
      → a.config ≡ auth.oidc
      → p.oidc ≡ some a.provider
      → Gives cluster_name auth p oidc (oidc_authenticator a)
  gives_ldap :
      (a : LdapAuthenticator)
      → a.cluster_name ≡ cluster_name
      → p.oidc ≡ none
      → p.ldap ≡ some a.provider
      → Gives cluster_name auth p ldap (ldap_authenticator a)
  gives_static :
      (a : StaticAuthenticator)
      → a.cluster_name ≡ cluster_name
      → p.oidc ≡ none
      → p.ldap ≡ none
      → p.static_user ≡ some a.provider
      → Gives cluster_name auth p static_user (static_authenticator a)

-- What NewAuthentication gives for the specifications, by the answers of the API server.
pub data Authenticates (get : String → GetResult (Option AuthenticationProvider))
    (cluster_name : String) : List AuthenticationSpec → Result Authentication → Type 0 where
  no_specs : Authenticates get cluster_name [] (err "no authentication specifications provided")
  many_specs :
      (a b : AuthenticationSpec) (more : List AuthenticationSpec)
      → Authenticates get cluster_name
          (a ∷ b ∷ more)
          (err "multiple authentication specifications are not supported")
  unnamed :
      (auth : AuthenticationSpec)
      → auth.authentication_class ≡ ""
      → Authenticates get cluster_name (auth ∷ []) (err "authentication class is required")
  get_failed :
      (auth : AuthenticationSpec) (e : String)
      → auth.authentication_class ≢ ""
      → get auth.authentication_class ≡ failed e
      → Authenticates get cluster_name (auth ∷ []) (err e)
  class_missing :
      (auth : AuthenticationSpec)
      → auth.authentication_class ≢ ""
      → get auth.authentication_class ≡ not_found
      → Authenticates get cluster_name (auth ∷ []) panic
  provider_missing :
      (auth : AuthenticationSpec)
      → auth.authentication_class ≢ ""
      → get auth.authentication_class ≡ found none
      → Authenticates get cluster_name (auth ∷ []) panic
  unsupported :
      (auth : AuthenticationSpec) (p : AuthenticationProvider)
      → auth.authentication_class ≢ ""
      → get auth.authentication_class ≡ found (some p)
      → (p.oidc ≡ none) × (p.ldap ≡ none) × (p.static_user ≡ none)
      → Authenticates get cluster_name
          (auth ∷ [])
          (err ("unsupported authentication provider: " <> auth.authentication_class))
  given :
      (auth : AuthenticationSpec) (p : AuthenticationProvider) (t : AuthenticatorType)
      (x : Authenticator)
      → auth.authentication_class ≢ ""
      → get auth.authentication_class ≡ found (some p)
      → Gives cluster_name auth p t x
      → Authenticates get cluster_name
          (auth ∷ [])
          (ok (record { authenticators = (t, x ∷ []) ∷ [] }))

abbrev Chosen : String → AuthenticationSpec → AuthenticationProvider → Type 0
Chosen cluster_name auth p =
    ((t : AuthenticatorType) × (x : Authenticator) × Gives cluster_name auth p t x
      × (choose_authenticator cluster_name auth p [] ≡ ok ((t, x ∷ []) ∷ [])))
    ⊎ (((p.oidc ≡ none) × (p.ldap ≡ none) × (p.static_user ≡ none))
        × (choose_authenticator cluster_name auth p []
            ≡ err ("unsupported authentication provider: " <> auth.authentication_class)))

choose_authenticator-Chosen :
    (cluster_name : String) (auth : AuthenticationSpec) (p : AuthenticationProvider)
    → Chosen cluster_name auth p
unfolding choose_authenticator offered is_supported append_at
choose_authenticator-Chosen cluster_name auth p = elim (Option-cases p.oidc) [
  | inr (q, e) ↦
      let a : OidcAuthenticator = record {
        cluster_name = cluster_name;
        config = auth.oidc;
        provider = q;
      } in
      inl (oidc, oidc_authenticator a, gives_oidc a refl refl e, rw e)
  | inl no_oidc ↦ elim (Option-cases p.ldap) [
    | inr (q, e) ↦
        let a : LdapAuthenticator = record { cluster_name = cluster_name; provider = q } in
        inl (ldap, ldap_authenticator a, gives_ldap a refl no_oidc e, rw (no_oidc, e))
    | inl no_ldap ↦ elim (Option-cases p.static_user) [
      | inr (q, e) ↦
          let a : StaticAuthenticator = record { cluster_name = cluster_name; provider = q } in
          inl (
            static_user,
            static_authenticator a,
            gives_static a refl no_oidc no_ldap e,
            rw (no_oidc, no_ldap, e),
          )
      | inl no_static ↦ inr ((no_oidc, no_ldap, no_static), rw (no_oidc, no_ldap, no_static))
    ]
  ]
]

module _ (get : String → GetResult (Option AuthenticationProvider)) (cluster_name : String) where
  new_authentication_named :
      (auth : AuthenticationSpec)
      → auth.authentication_class ≢ ""
      → Authenticates get cluster_name (auth ∷ []) (new_authentication get cluster_name (auth ∷ []))
  unfolding new_authentication collect_authenticators get_auth_provider
  new_authentication_named auth named = go (get auth.authentication_class) refl
    where
      unnamed_test : (auth.authentication_class == "") ≡ false
      unnamed_test = ground (arith, eq_iff auth.authentication_class "")

      go :
          (g : GetResult (Option AuthenticationProvider))
          → get auth.authentication_class ≡ g
          → Authenticates get cluster_name
              (auth ∷ [])
              (new_authentication get cluster_name (auth ∷ []))
      go (failed e) q =
          rw (unnamed_test, q, collect_authenticators, get_auth_provider)
            (get_failed auth e named q)
      go not_found q =
          rw (unnamed_test, q, collect_authenticators, get_auth_provider)
            (class_missing auth named q)
      go (found none) q =
          rw (unnamed_test, q, collect_authenticators, get_auth_provider)
            (provider_missing auth named q)
      go (found (some p)) q =
          rw (unnamed_test, q, collect_authenticators, get_auth_provider)
            (elim (choose_authenticator-Chosen cluster_name auth p) [
              | inl (t, x, g, e) ↦ rw e (given auth p t x named q g)
              | inr (nothing, e) ↦ rw e (unsupported auth p named q nothing)
            ])

  -- For any specifications and any answers of the API server NewAuthentication behaves as described:
  -- no specification, several, or one without a class name is its own error; an error of the server
  -- is passed on; a class that the server does not have, or one without a provider, ends in a nil
  -- pointer; a provider that offers none of the three kinds is an error; and otherwise the result
  -- holds exactly one authenticator, for the first that the provider offers of OIDC, LDAP and static
  -- users, with the cluster's name, that provider and the OIDC configuration of the specification.
  pub new_authentication_lem :
      (auths : List AuthenticationSpec)
      → Authenticates get cluster_name auths (new_authentication get cluster_name auths)
  unfolding new_authentication
  new_authentication_lem [] = no_specs
  new_authentication_lem (a ∷ b ∷ more) = many_specs a b more
  new_authentication_lem (auth ∷ []) = elim (Bool-cases (auth.authentication_class == "")) [
    | inl e ↦ rw e (unnamed auth ((eq_iff auth.authentication_class "").0 e))
    | inr e ↦ new_authentication_named auth (λ p. cc ((eq_iff auth.authentication_class "").1 p, e))
  ]
