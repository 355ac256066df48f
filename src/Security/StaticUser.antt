-- ===== src/Security/StaticUser.antt =====
-- internal/common/security/static.go: users of a Secret, through NiFi's single user provider.
use nifi_operator.Common.{String, ◌<>◌, true, Option, none, List, [], ◌∷◌, join}
use nifi_operator.Kube.{EnvVar, Volume, secret, VolumeMount}
use nifi_operator.OperatorGo.{OperatorGo, PropertiesApi}
use nifi_operator.Security.{
  StaticProvider, nifi_admin_username, user_mount_dir, get_admin_password_mount_dir,
}

pub record StaticAuthenticator : Type 0 where
  pub cluster_name : String
  pub provider : StaticProvider

unfoldable pub get_volumes : StaticAuthenticator → List Volume
get_volumes a =
    record {
      name = nifi_admin_username;
      source =
          secret a.provider.user_credentials_secret_name
            (record { key = nifi_admin_username; file = nifi_admin_username } ∷ []);
    }
    ∷ []

unfoldable pub get_env_vars : StaticAuthenticator → List EnvVar
get_env_vars a = []

module _ (o : OperatorGo) where
  unfoldable pub get_identity_provider : List String → String
  get_identity_provider provider =
      let header : String =
        "<?xml version=\"1.0\" encoding=\"UTF-8\" standalone=\"no\"?>\n<loginIdentityProviders>" in
      let foot : String = "</loginIdentityProviders>\n" in
      let snippet : List String = header ∷ join "\n" provider ∷ foot ∷ [] in
      o.indent_tab4_spaces (join "\n" snippet)

  unfoldable pub get_single_user_login_identity_provider : String
  get_single_user_login_identity_provider =
      let provider : String =
        "\n\t<provider>\n" <> "\t\t<identifier>login-identity-provider</identifier>\n"
        <> "\t\t<class>org.apache.nifi.authentication.single.user.SingleUserLoginIdentityProvider</class>\n"
        <> "\t\t<property name=\"Username\">admin</property>\n"
        <> "\t\t<property name=\"Password\">{{ getenv \"NIFI_ADMIN_PASSWORD\" }}</property>\n"
        <> "\t</provider>" in
      get_identity_provider (provider ∷ [])

  -- The command that hashes the password of the mounted secret; the OIDC authenticator has the same.
  unfoldable pub hash_admin_password_args : String
  hash_admin_password_args =
      "\nexport NIFI_ADMIN_PASSWORD=\"$(python3 -c 'import bcrypt; print(bcrypt.hashpw(open(\""
      <> get_admin_password_mount_dir o
      <> "\", \"rb\").read().strip(), bcrypt.gensalt()).decode(\"utf-8\"), end=\"\")')\"\n\t"

  unfoldable pub get_volume_mounts : StaticAuthenticator → List VolumeMount
  get_volume_mounts a =
      record {
        name = nifi_admin_username;
        mount_path = user_mount_dir o;
        sub_path = "";
        read_only = true;
      }
      ∷ []

  unfoldable pub get_init_args : StaticAuthenticator → String
  get_init_args a = hash_admin_password_args

  unfoldable pub get_login_identity_provider : StaticAuthenticator → String
  get_login_identity_provider a = get_single_user_login_identity_provider

-- `ExtendNifiProperties` gives nil.
unfoldable pub extend_nifi_properties :
    (P : PropertiesApi) → StaticAuthenticator → Option P.Properties
extend_nifi_properties P a = none
