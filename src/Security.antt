-- ===== src/Security.antt =====
-- internal/common/security: the authentication of NiFi's users and the secrets that the operator
-- generates. This file has the types that the parts share.
pub mod StaticUser
pub mod Oidc
pub mod Ldap
pub mod Authentication
pub mod Password
pub mod Secrets
use nifi_operator.Common.{String, Bool, true, false, Option, List, [], ◌∷◌, ℤ}
use nifi_operator.Common.FilePath
use nifi_operator.OperatorGo.{OperatorGo}

abbrev pub nifi_admin_username : String
nifi_admin_username = "admin"

pub data AuthenticatorType : Type 0 where
  ldap oidc static_user : AuthenticatorType

abbrev pub same_type : AuthenticatorType → AuthenticatorType → Bool
same_type ldap ldap = true
same_type oidc oidc = true
same_type static_user static_user = true
same_type _ _ = false

abbrev pub supported_auth_types : List AuthenticatorType
supported_auth_types = ldap ∷ oidc ∷ static_user ∷ []

-- The providers of operator-go's AuthenticationClass, with the fields that the program reads.
pub record OidcProvider : Type 0 where
  pub hostname : String
  pub port : ℤ
  pub root_path : String
  pub scopes : List String
  pub principal_claim : String

pub record CredentialsScope : Type 0 where
  pub pod : Bool
  pub node : Bool
  pub services : List String

pub record BindCredentials : Type 0 where
  pub secret_class : String
  pub scope : Option CredentialsScope

pub record LdapTls : Type 0 where
  pub has_verification : Bool

pub record LdapProvider : Type 0 where
  pub bind_credentials : Option BindCredentials
  pub tls : Option LdapTls
  pub hostname : String
  pub port : ℤ
  pub search_base : String
  pub search_filter : String
  pub uid_field : String

pub record StaticProvider : Type 0 where
  pub user_credentials_secret_name : String

pub record AuthenticationProvider : Type 0 where
  pub oidc : Option OidcProvider
  pub ldap : Option LdapProvider
  pub static_user : Option StaticProvider

module _ (o : OperatorGo) where
  unfoldable pub user_mount_dir : String
  user_mount_dir = FilePath.join (o.kubedoop_root ∷ "users" ∷ [])

  unfoldable pub get_admin_password_mount_dir : String
  get_admin_password_mount_dir = FilePath.join (user_mount_dir ∷ nifi_admin_username ∷ [])
