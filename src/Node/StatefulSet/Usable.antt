-- ===== src/Node/StatefulSet/Usable.antt =====
-- When the pod of internal/controller/node/statefulset.go can be built at all: the optional parts of
-- the authentication that internal/common/security follows without a test are there.
use nifi_operator.Common.{String, Bool, true, some, ◌≡◌, inl, inr, is_some, is_ok, Option-cases}
use nifi_operator.OperatorGo.{OperatorGo}
use nifi_operator.Security.Oidc
use nifi_operator.Security.Ldap
use nifi_operator.Security.StaticUser
use nifi_operator.Security.Authentication
use nifi_operator.Security.Authentication.{
  Authenticator, oidc_authenticator, ldap_authenticator, static_authenticator, Authentication,
}
use nifi_operator.Security.Authentication.Delegation.{HoldsOne}
use nifi_operator.Node.StatefulSet.{
  StatefulSetBuilder, authenticated, get_container_env, get_volume_mounts, get_volumes,
  get_container_template,
}
use nifi_operator.Node.StatefulSet.Build.{get_prepare_container, get_main_container, pod_parts}

-- OIDC with its configuration, LDAP with bind credentials, and static users.
abbrev pub usable : Authenticator → Bool
usable (oidc_authenticator a) = is_some a.config
usable (ldap_authenticator a) = is_some a.provider.bind_credentials
usable (static_authenticator a) = true

-- Of a pod whose authentication holds one authenticator: its parts are given if the authenticator is
-- usable, and only then.
pub pod_parts-usable :
    (o : OperatorGo) (namespace : String) (b : StatefulSetBuilder) (a : Authentication)
    (x : Authenticator)
    → b.authentication ≡ some a
    → HoldsOne a x
    → is_ok (pod_parts o namespace b) ≡ usable x
unfolding pod_parts get_prepare_container get_main_container get_container_template
    get_container_env get_volume_mounts get_volumes authenticated Authentication.get_env_vars
    Authentication.get_volumes Authentication.get_volume_mounts Authentication.find_single
    Authentication.env_vars_of Authentication.volumes_of Authentication.volume_mounts_of
    Oidc.get_env_vars Oidc.get_volumes Oidc.get_volume_mounts Ldap.get_env_vars Ldap.get_volumes
    Ldap.get_volume_mounts StaticUser.get_env_vars StaticUser.get_volumes
    StaticUser.get_volume_mounts
pod_parts-usable o namespace b a (oidc_authenticator x) e (t, h) = elim (Option-cases x.config) [
  | inl c ↦ rw (e, h, c)
  | inr (v, c) ↦ rw (e, h, c)
]
pod_parts-usable o namespace b a (ldap_authenticator x) e (t, h) =
    elim (Option-cases x.provider.bind_credentials) [
      | inl c ↦ rw (e, h, c)
      | inr (v, c) ↦ rw (e, h, c)
    ]
pod_parts-usable o namespace b a (static_authenticator x) e (t, h) = rw (e, h)
