-- ===== src/Security/Oidc.antt =====
-- internal/common/security/oidc.go: users of an OpenID Connect provider. The optional configuration
-- of the NifiCluster is followed without a test.
use nifi_operator.Common.{
  String, ◌<>◌, true, Option, List, [], ◌∷◌, ◌++◌, join, is_zero, Result, ok, deref, ◌>>=◌,
  if◌then◌else◌,
}
use nifi_operator.Common.Decimal.{print_int}
use nifi_operator.Common.Url.{url_string}
use nifi_operator.Kube.{EnvVar, secret_key_ref, Volume, secret, VolumeMount}
use nifi_operator.Api.{OidcSpec}
use nifi_operator.OperatorGo.{OperatorGo, PropertiesApi}
use nifi_operator.Security.{OidcProvider, nifi_admin_username, user_mount_dir}
use nifi_operator.Security.StaticUser.{
  get_single_user_login_identity_provider, hash_admin_password_args,
}

pub record OidcAuthenticator : Type 0 where
  pub cluster_name : String
  pub config : Option OidcSpec
  pub provider : OidcProvider

unfoldable pub oidc_admin_password_secretname : String → String
oidc_admin_password_secretname cluster_name = cluster_name <> "-oidc-admin-password"

unfoldable pub get_env_vars : OidcAuthenticator → Result (List EnvVar)
get_env_vars a = do
  config ← deref a.config
  ok (
      record {
        name = "OIDC_CLIENT_ID";
        source = secret_key_ref config.client_credentials_secret "CLIENT_ID";
      }
      ∷ record {
        name = "OIDC_CLIENT_SECRET";
        source = secret_key_ref config.client_credentials_secret "CLIENT_SECRET";
      }
      ∷ [])

unfoldable pub get_volumes : OidcAuthenticator → List Volume
get_volumes a =
    record {
      name = nifi_admin_username;
      source =
          secret (oidc_admin_password_secretname a.cluster_name)
            (record { key = nifi_admin_username; file = nifi_admin_username } ∷ []);
    }
    ∷ []

module _ (o : OperatorGo) where
  unfoldable pub get_volume_mounts : OidcAuthenticator → List VolumeMount
  get_volume_mounts a =
      record {
        name = nifi_admin_username;
        mount_path = user_mount_dir o;
        sub_path = "";
        read_only = true;
      }
      ∷ []

  unfoldable pub get_init_args : OidcAuthenticator → String
  get_init_args a = hash_admin_password_args o

  unfoldable pub get_login_identity_provider : OidcAuthenticator → String
  get_login_identity_provider a = get_single_user_login_identity_provider o

unfoldable pub issuer : OidcProvider → String
issuer p =
    let host = if is_zero p.port then p.hostname else p.hostname <> ":" <> print_int p.port in
    url_string "http" host p.root_path

module _ (P : PropertiesApi) where
  open P use {Properties, new_properties, add}

  unfoldable pub extend_nifi_properties : OidcAuthenticator → Result Properties
  extend_nifi_properties a = do
    config ← deref a.config
    let scopes = a.provider.scopes ++ config.extra_scopes
    let cfg = add new_properties "nifi.security.user.oidc.discovery.url" (issuer a.provider)
    let cfg' = add cfg "nifi.security.user.oidc.client.id" "{{ getenv \"OIDC_CLIENT_ID\" }}"
    let cfg2 =
        add cfg' "nifi.security.user.oidc.client.secret" "{{ getenv \"OIDC_CLIENT_SECRET\" }}"
    let cfg3 = add cfg2 "nifi.security.user.oidc.extra.scopes" (join "," scopes)
    ok (add cfg3 "nifi.security.user.oidc.claim.identifying.user" a.provider.principal_claim)
