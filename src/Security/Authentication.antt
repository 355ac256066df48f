-- ===== src/Security/Authentication.antt =====
-- internal/common/security/authentication.go: which authenticator a cluster has, and the calls that
-- are passed on to it.
pub mod Choice
pub mod Delegation
use nifi_operator.Common.{
  zero, suc, String, ◌<>◌, Bool, true, false, ◌&&◌, ◌||◌, Option, none, some, List, [], ◌∷◌, ◌++◌,
  length, is_some, Result, ok, err, panic, deref, ◌>>=◌, ◌==◌, if◌then◌else◌,
}
use nifi_operator.Kube.{EnvVar, Volume, VolumeMount}
use nifi_operator.Api.{AuthenticationSpec}
use nifi_operator.OperatorGo.{OperatorGo, PropertiesApi, GetResult, found, not_found, failed}
use nifi_operator.Security.{
  AuthenticatorType, ldap, oidc, static_user, same_type, supported_auth_types,
  AuthenticationProvider,
}
use nifi_operator.Security.StaticUser
use nifi_operator.Security.StaticUser.{StaticAuthenticator}
use nifi_operator.Security.Oidc
use nifi_operator.Security.Oidc.{OidcAuthenticator}
use nifi_operator.Security.Ldap
use nifi_operator.Security.Ldap.{LdapAuthenticator}

pub data Authenticator : Type 0 where
  oidc_authenticator : OidcAuthenticator → Authenticator
  ldap_authenticator : LdapAuthenticator → Authenticator
  static_authenticator : StaticAuthenticator → Authenticator

-- The map of authenticators, with its entries in the order in which a loop meets them.
pub record Authentication : Type 0 where
  pub authenticators : List (AuthenticatorType × List Authenticator)

-- `GetAuthProvider`: where the class is not found, the object stays empty and has no provider.
unfoldable pub get_auth_provider :
    (String → GetResult (Option AuthenticationProvider))
    → String
    → Result (Option AuthenticationProvider)
get_auth_provider get authclass = elim (get authclass) [
  | failed e ↦ err e
  | not_found ↦ ok none
  | found provider ↦ ok provider
]

unfoldable pub is_supported : AuthenticatorType → List AuthenticatorType → Bool
is_supported t [] = false
is_supported t (u ∷ us) = same_type u t || is_supported t us

-- `authenticators[t] = append(authenticators[t], a)`
unfoldable pub append_at :
    AuthenticatorType
    → Authenticator
    → List (AuthenticatorType × List Authenticator)
    → List (AuthenticatorType × List Authenticator)
append_at t a [] = (t, a ∷ []) ∷ []
append_at t a ((u, as') ∷ m) =
    if same_type u t then (u, as' ++ a ∷ []) ∷ m else (u, as') ∷ append_at t a m

-- `provider != nil && slices.Contains(SupportedAuthTypes, t)`, with the provider that it guards.
unfoldable pub offered {ℓ} : {A : Type ℓ} → AuthenticatorType → Option A → Option A
offered t provider = if is_supported t supported_auth_types then provider else none

-- The authenticator for one specification and the provider of its class.
unfoldable pub choose_authenticator :
    String
    → AuthenticationSpec
    → AuthenticationProvider
    → List (AuthenticatorType × List Authenticator)
    → Result (List (AuthenticatorType × List Authenticator))
choose_authenticator cluster_name auth provider m = elim (offered oidc provider.oidc) [
  | some p ↦
      let config = auth.oidc in
      let a =
        oidc_authenticator
          (record { cluster_name = cluster_name; config = config; provider = p }) in
      ok (append_at oidc a m)
  | none ↦ elim (offered ldap provider.ldap) [
    | some p ↦
        let a = ldap_authenticator (record { cluster_name = cluster_name; provider = p }) in
        ok (append_at ldap a m)
    | none ↦ elim (offered static_user provider.static_user) [
      | some p ↦
          let a = static_authenticator (record { cluster_name = cluster_name; provider = p }) in
          ok (append_at static_user a m)
      | none ↦ err ("unsupported authentication provider: " <> auth.authentication_class)
    ]
  ]
]

module _ (get : String → GetResult (Option AuthenticationProvider)) (cluster_name : String) where
  -- The loop over the specifications.
  unfoldable pub collect_authenticators :
      List AuthenticationSpec
      → List (AuthenticatorType × List Authenticator)
      → Result (List (AuthenticatorType × List Authenticator))
  collect_authenticators [] m = ok m
  collect_authenticators (auth ∷ more) m = do
    provider ← get_auth_provider get auth.authentication_class
    p ← deref provider
    m' ← choose_authenticator cluster_name auth p m
    collect_authenticators more m'

  unfoldable pub new_authentication : List AuthenticationSpec → Result Authentication
  new_authentication [] = err "no authentication specifications provided"
  new_authentication (_ ∷ _ ∷ _) = err "multiple authentication specifications are not supported"
  new_authentication (auth ∷ []) =
      if auth.authentication_class == ""
      then err "authentication class is required"
      else (collect_authenticators (auth ∷ []) [] >>= λ m. ok (record { authenticators = m }))

-- The loops over the map that stop at the first entry with exactly one authenticator.
unfoldable pub find_single : List (AuthenticatorType × List Authenticator) → Option Authenticator
find_single [] = none
find_single ((_, a ∷ []) ∷ m) = some a
find_single ((_, _) ∷ m) = find_single m

-- The loop that stops at the first entry with any.
unfoldable pub find_any : List (AuthenticatorType × List Authenticator) → Option Authenticator
find_any [] = none
find_any ((_, a ∷ _) ∷ m) = some a
find_any ((_, []) ∷ m) = find_any m

-- The methods of the interface, by the type of the authenticator.
unfoldable pub env_vars_of : Authenticator → Result (List EnvVar)
env_vars_of (oidc_authenticator a) = Oidc.get_env_vars a
env_vars_of (ldap_authenticator a) = ok (Ldap.get_env_vars a)
env_vars_of (static_authenticator a) = ok (StaticUser.get_env_vars a)

unfoldable pub properties_of : (P : PropertiesApi) → Authenticator → Result (Option P.Properties)
properties_of P (oidc_authenticator a) = do p ← Oidc.extend_nifi_properties P a; ok (some p)
properties_of P (ldap_authenticator a) = ok (Ldap.extend_nifi_properties P a)
properties_of P (static_authenticator a) = ok (StaticUser.extend_nifi_properties P a)

module _ (o : OperatorGo) where
  unfoldable pub volumes_of : Authenticator → Result (List Volume)
  volumes_of (oidc_authenticator a) = ok (Oidc.get_volumes a)
  volumes_of (ldap_authenticator a) = Ldap.get_volumes o a
  volumes_of (static_authenticator a) = ok (StaticUser.get_volumes a)

  unfoldable pub volume_mounts_of : Authenticator → Result (List VolumeMount)
  volume_mounts_of (oidc_authenticator a) = ok (Oidc.get_volume_mounts o a)
  volume_mounts_of (ldap_authenticator a) = Ldap.get_volume_mounts o a
  volume_mounts_of (static_authenticator a) = ok (StaticUser.get_volume_mounts o a)

  unfoldable pub login_identity_provider_of : Authenticator → String
  login_identity_provider_of (oidc_authenticator a) = Oidc.get_login_identity_provider o a
  login_identity_provider_of (ldap_authenticator a) = Ldap.get_login_identity_provider o a
  login_identity_provider_of (static_authenticator a) = StaticUser.get_login_identity_provider o a

  unfoldable pub init_args_of : Authenticator → String
  init_args_of (oidc_authenticator a) = Oidc.get_init_args o a
  init_args_of (ldap_authenticator a) = Ldap.get_init_args a
  init_args_of (static_authenticator a) = StaticUser.get_init_args o a

  unfoldable pub get_init_args : Authentication → String
  get_init_args a = elim (find_single a.authenticators) [ none ↦ "" | some x ↦ init_args_of x ]

  unfoldable pub get_volumes : Authentication → Result (List Volume)
  get_volumes a = elim (find_single a.authenticators) [ none ↦ ok [] | some x ↦ volumes_of x ]

  unfoldable pub get_volume_mounts : Authentication → Result (List VolumeMount)
  get_volume_mounts a = elim (find_single a.authenticators) [
    | none ↦ ok []
    | some x ↦ volume_mounts_of x
  ]

  unfoldable pub get_login_identity_provider : Authentication → String
  get_login_identity_provider a = elim (find_any a.authenticators) [
    | none ↦ ""
    | some x ↦ login_identity_provider_of x
  ]

unfoldable pub get_env_vars : Authentication → Result (List EnvVar)
get_env_vars a = elim (find_single a.authenticators) [ none ↦ ok [] | some x ↦ env_vars_of x ]

unfoldable pub extend_nifi_properties :
    (P : PropertiesApi) → Authentication → Result (Option P.Properties)
extend_nifi_properties P a = elim (find_single a.authenticators) [
  | none ↦ ok none
  | some x ↦ properties_of P x
]
