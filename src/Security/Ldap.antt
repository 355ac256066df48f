-- ===== src/Security/Ldap.antt =====
-- internal/common/security/ldap.go: users of an LDAP server.
use nifi_operator.Common.{
  String, ◌<>◌, Bool, false, ◌&&◌, not, Option, none, some, List, [], ◌∷◌, map, Result, ok, deref,
  ◌>>=◌, ◌==◌, if◌then◌else◌,
}
use nifi_operator.Common.Decimal.{print_int}
use nifi_operator.Common.FilePath
use nifi_operator.Kube.{EnvVar, Volume, VolumeMount}
use nifi_operator.OperatorGo.{OperatorGo, PropertiesApi}
use nifi_operator.Security.{BindCredentials, CredentialsScope, LdapTls, LdapProvider}
use nifi_operator.Security.StaticUser.{get_identity_provider}

abbrev default_server_tls_store_password : String
default_server_tls_store_password = "changeit"

abbrev default_server_tls_key_password : String
default_server_tls_key_password = "changeit"

pub record LdapAuthenticator : Type 0 where
  pub cluster_name : String
  pub provider : LdapProvider

-- `TLS != nil && TLS.Verification != nil`
abbrev pub verifies : Option LdapTls → Bool
verifies none = false
verifies (some tls) = tls.has_verification

unfoldable pub bind_credentials_volume_name : BindCredentials → String
bind_credentials_volume_name b = b.secret_class <> "-bind-credentials"

module _ (o : OperatorGo) where
  unfoldable pub bind_credentials_mount_dir : BindCredentials → String
  bind_credentials_mount_dir b = FilePath.join (o.kubedoop_secret_dir ∷ b.secret_class ∷ [])

  -- The scopes that `GetVolumes` asks for: no scope given is a scope of nothing.
  abbrev pub scope_pod : Option CredentialsScope → Bool
  scope_pod none = false
  scope_pod (some s) = s.pod

  abbrev pub scope_node : Option CredentialsScope → Bool
  scope_node none = false
  scope_node (some s) = s.node

  abbrev pub scope_services : Option CredentialsScope → List String
  scope_services none = []
  scope_services (some s) = map (λ service. o.service_scope <> "=" <> service) s.services

  unfoldable pub get_volumes : LdapAuthenticator → Result (List Volume)
  get_volumes a = do
    b ← deref a.provider.bind_credentials
    ok (
        o.secret_operator_volume (bind_credentials_volume_name b) b.secret_class (
          some (record {
            pod = scope_pod b.scope;
            node = scope_node b.scope;
            service = scope_services b.scope;
          }))
        ∷ [])

  unfoldable pub get_volume_mounts : LdapAuthenticator → Result (List VolumeMount)
  get_volume_mounts a = do
    b ← deref a.provider.bind_credentials
    ok (
        record {
          name = bind_credentials_volume_name b;
          mount_path = bind_credentials_mount_dir b;
          sub_path = "";
          read_only = false;
        }
        ∷ [])

  -- The files of the user's name and of the password, empty where there are no credentials.
  unfoldable pub bind_credentials_mount_paths : LdapAuthenticator → String × String
  bind_credentials_mount_paths a = elim a.provider.bind_credentials [
    | none ↦ ("", "")
    | some b ↦ if b.secret_class == "" then ("", "") else (
      FilePath.join (bind_credentials_mount_dir b ∷ "username" ∷ []),
      FilePath.join (bind_credentials_mount_dir b ∷ "password" ∷ []),
    )
  ]

  unfoldable pub auth_strategy : LdapAuthenticator → String
  auth_strategy a =
      let (username_file, password_file) = bind_credentials_mount_paths a in
      if not (username_file == "") && not (password_file == "")
      then (if verifies a.provider.tls then "LDAPS" else "SIMPLE")
      else "ANONYMOUS"

  unfoldable pub get_login_identity_provider : LdapAuthenticator → String
  get_login_identity_provider a =
      let (username_file, password_file) = bind_credentials_mount_paths a in
      let protocol : String = if verifies a.provider.tls then "ldaps" else "ldap" in
      let search_filter : String =
        if a.provider.search_filter == ""
        then a.provider.uid_field <> "={0}"
        else a.provider.search_filter in
      let tls_dir = λ (file : String). FilePath.join (o.kubedoop_tls_dir ∷ "ldap" ∷ file ∷ []) in
      let property = λ (name value : String).
        "\t\t<property name=\"" <> name <> "\">" <> value <> "</property>\n" in
      let ldap_provider =
        "\n\t<provider>\n"
        <> "\t\t<identifier>login-identity-provider</identifier>\n"
        <> "\t\t<class>org.apache.nifi.ldap.LdapProvider</class>\n"
        <> property "Authentication Strategy" (auth_strategy a)
        <> "\n"
        <> property "Manager DN" ("${{file:UTF-8:" <> username_file <> "}}")
        <> property "Manager Password" ("${{file:UTF-8:" <> password_file <> "}")
        <> "\n"
        <> property "Referral Strategy" "THROW"
        <> property "Connect Timeout" "10 secs"
        <> property "Read Timeout" "10 secs"
        <> property "Url"
            (protocol <> "://" <> a.provider.hostname <> ":" <> print_int a.provider.port)
        <> property "User Search Base" a.provider.search_base
        <> property "User Search Filter" search_filter
        <> "\n"
        <> property "TLS - Client Auth" "NONE"
        <> property "TLS - Keystore" (tls_dir "keystore.p12")
        <> property "TLS - Keystore Password" default_server_tls_key_password
        <> property "TLS - Keystore Type" "PKCS12"
        <> property "TLS - Truststore" (tls_dir "truststore.p12")
        <> property "TLS - Truststore Password" default_server_tls_store_password
        <> property "TLS - Truststore Type" "PKCS12"
        <> property "TLS - Protocol" "TLSv1.2"
        <> property "TLS - Shutdown Gracefully" "true"
        <> "\n"
        <> property "Identity Strategy" "USE_DN"
        <> property "Authentication Expiration" "7 days"
        <> "\t</provider>\n\t" in
      get_identity_provider o (ldap_provider ∷ [])

unfoldable pub get_env_vars : LdapAuthenticator → List EnvVar
get_env_vars a = []

unfoldable pub get_init_args : LdapAuthenticator → String
get_init_args a = ""

-- `ExtendNifiProperties` gives nil.
unfoldable pub extend_nifi_properties :
    (P : PropertiesApi) → LdapAuthenticator → Option P.Properties
extend_nifi_properties P a = none
