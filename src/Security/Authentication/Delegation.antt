-- ===== src/Security/Authentication/Delegation.antt =====
-- The calls that internal/common/security/authentication.go passes on, and that the mounts of an
-- authenticator have its volumes.
use nifi_operator.Common.{
  String, Option, List, [], ◌∷◌, ◌≡◌, arith, Result, ok, err, panic, contains_self, Option-cases,
  inl, inr,
}
use nifi_operator.Kube.{Volume, VolumeMount, MountsIn}
use nifi_operator.Api.{AuthenticationSpec}
use nifi_operator.OperatorGo.{OperatorGo, IsNaming, PropertiesApi, GetResult}
use nifi_operator.Security.{AuthenticatorType, AuthenticationProvider, nifi_admin_username}
use nifi_operator.Security.StaticUser
use nifi_operator.Security.Oidc
use nifi_operator.Security.Ldap
use nifi_operator.Security.Ldap.{LdapAuthenticator}
use nifi_operator.Security.Authentication.{
  Authenticator, oidc_authenticator, ldap_authenticator, static_authenticator, Authentication,
  find_single, find_any, new_authentication, env_vars_of, volumes_of, volume_mounts_of,
  properties_of, login_identity_provider_of, init_args_of, get_env_vars, get_volumes,
  get_volume_mounts, extend_nifi_properties, get_login_identity_provider, get_init_args,
}
use nifi_operator.Security.Authentication.Choice.{
  Authenticates, no_specs, many_specs, unnamed, get_failed, class_missing, provider_missing,
  unsupported, given, new_authentication_lem,
}

-- The one authenticator of an authentication that NewAuthentication made.
abbrev pub HoldsOne : Authentication → Authenticator → Type 0
HoldsOne a x = (t : AuthenticatorType) × (a.authenticators ≡ (t, x ∷ []) ∷ [])

pub Authenticates-HoldsOne :
    {get : String → GetResult (Option AuthenticationProvider)} {cluster_name : String}
    {auths : List AuthenticationSpec} {r : Result Authentication}
    → Authenticates get cluster_name auths r
    → (a : Authentication) → r ≡ ok a
    → (x : Authenticator) × HoldsOne a x
Authenticates-HoldsOne no_specs a e = cc
Authenticates-HoldsOne (many_specs _ _ _) a e = cc
Authenticates-HoldsOne (unnamed _ _) a e = cc
Authenticates-HoldsOne (get_failed _ _ _ _) a e = cc
Authenticates-HoldsOne (class_missing _ _ _) a e = cc
Authenticates-HoldsOne (provider_missing _ _ _) a e = cc
Authenticates-HoldsOne (unsupported _ _ _ _ _) a e = cc
Authenticates-HoldsOne (given auth p t x _ _ _) a e = (x, (t, ground arith))

-- Where NewAuthentication succeeds there is one authenticator to which all six methods of the result
-- go: its environment variables, volumes, mounts, properties, login provider and init arguments.
-- None of them falls back to an empty answer.
pub new_authentication-delegates :
    (o : OperatorGo) (P : PropertiesApi) (get : String → GetResult (Option AuthenticationProvider))
    (cluster_name : String) (auths : List AuthenticationSpec) (a : Authentication)
    → new_authentication get cluster_name auths ≡ ok a
    → (x : Authenticator) × HoldsOne a x
      × (get_env_vars a ≡ env_vars_of x)
      × (get_volumes o a ≡ volumes_of o x)
      × (get_volume_mounts o a ≡ volume_mounts_of o x)
      × (extend_nifi_properties P a ≡ properties_of P x)
      × (get_login_identity_provider o a ≡ login_identity_provider_of o x)
      × (get_init_args o a ≡ init_args_of o x)
unfolding get_env_vars get_volumes get_volume_mounts extend_nifi_properties
    get_login_identity_provider get_init_args find_single find_any
new_authentication-delegates o P get cluster_name auths a e =
    let (x, (t, held)) =
      Authenticates-HoldsOne (new_authentication_lem get cluster_name auths) a e in
    (
      x,
      (t, held),
      rw (held, get_env_vars),
      rw (held, get_volumes),
      rw (held, get_volume_mounts),
      rw (held, extend_nifi_properties),
      rw (held, get_login_identity_provider),
      rw (held, get_init_args),
    )

-- Volumes and mounts are given together, and then each mount names one of the volumes.
abbrev pub Wired : Result (List Volume) → Result (List VolumeMount) → Type 0
Wired (ok vs) (ok ms) = MountsIn vs ms
Wired (err _) (err _) = Unit
Wired panic panic = Unit
Wired _ _ = ⊥

module _ (o : OperatorGo) (naming : IsNaming o) where
  ldap_Wired : (a : LdapAuthenticator) → Wired (Ldap.get_volumes o a) (Ldap.get_volume_mounts o a)
  unfolding Ldap.get_volumes Ldap.get_volume_mounts
  ldap_Wired a = elim (Option-cases a.provider.bind_credentials) [
    | inl e ↦ rw (e, Wired) tt
    | inr (b, e) ↦
        rw (e, naming.volume_name_kept) (contains_self (Ldap.bind_credentials_volume_name b) [], tt)
  ]

  volumes_of-Wired : (x : Authenticator) → Wired (volumes_of o x) (volume_mounts_of o x)
  unfolding volumes_of volume_mounts_of StaticUser.get_volumes StaticUser.get_volume_mounts
      Oidc.get_volumes Oidc.get_volume_mounts
  volumes_of-Wired (oidc_authenticator a) = (contains_self nifi_admin_username [], tt)
  volumes_of-Wired (ldap_authenticator a) = ldap_Wired a
  volumes_of-Wired (static_authenticator a) = (contains_self nifi_admin_username [], tt)

  -- Of any authentication, where a secret volume bears the name that it is built with: its volumes
  -- and its mounts are both given, and then each mount names one of the volumes, or the calls for
  -- both end in a nil pointer.
  pub get_volumes-Wired : (a : Authentication) → Wired (get_volumes o a) (get_volume_mounts o a)
  unfolding get_volumes get_volume_mounts
  get_volumes-Wired a = elim (Option-cases (find_single a.authenticators)) [
    | inl e ↦ rw (e, get_volumes, get_volume_mounts) tt
    | inr (x, e) ↦ rw (e, get_volumes, get_volume_mounts) (volumes_of-Wired x)
  ]
