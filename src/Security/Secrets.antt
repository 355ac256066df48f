-- ===== src/Security/Secrets.antt =====
-- The secrets that the operator creates once: Reconcile and Build of SensitiveKeyReconciler in
-- internal/common/security/sensitive_key.go and of AdminSecretReconciler in oidc_admin_secret.go. The
-- secrets of the cluster's namespace are a parameter.
pub mod Kept
pub mod Runs
use nifi_operator.Common.{
  ℕ, String, ◌<>◌, Bool, true, false, List, [], ◌∷◌, Result, ok, err, ◌>>=◌, is_some, find_key,
  if◌then◌else◌,
}
use nifi_operator.OperatorGo.{SecretsApi, SecretData, found, not_found, failed}
use nifi_operator.Security.{nifi_admin_username}
use nifi_operator.Security.Oidc.{oidc_admin_password_secretname}
use nifi_operator.Security.Password.{generate_password}

-- The common part of `Build`, with what `rand.Read` gives.
unfoldable pub build_secret : String → Result (List ℕ) → Result SecretData
build_secret key random = do bytes ← random; ok ((key, generate_password bytes) ∷ [])

-- `Build` of the two builders.
abbrev pub build_sensitive_key : Result (List ℕ) → Result SecretData
build_sensitive_key random = build_secret "nifiSensitivePropsKey" random

abbrev pub build_admin_secret : Result (List ℕ) → Result SecretData
build_admin_secret random = build_secret nifi_admin_username random

module _ (S : SecretsApi) where
  open S use {Store, apply}

  -- `Reconcile` of the generic reconciler: build the object and apply it.
  unfoldable pub reconcile_secret : String → Result SecretData → Store → Result Store
  reconcile_secret name built s = do data' ← built; apply s name data'

module _ (S : SecretsApi) (namespace : String) where
  open S use {Store, get}

  unfoldable pub reconcile_sensitive_key : String → Bool → Result (List ℕ) → Store → Result Store
  reconcile_sensitive_key name auto_generated random s = elim (get s name) [
    | failed e ↦ err e
    | not_found ↦
        let create = reconcile_secret S name (build_sensitive_key random) s in
        if auto_generated
        then create
        else err (
            "sensitive key secret " <> namespace <> "/" <> name
            <> " not found, but auto generation is disabled")
    | found _ ↦ ok s
  ]

  unfoldable pub reconcile_admin_secret : String → Result (List ℕ) → Store → Result Store
  reconcile_admin_secret name random s = elim (get s name) [
    | failed e ↦ err e
    | not_found ↦ reconcile_secret S name (build_admin_secret random) s
    | found secret ↦
        if is_some (find_key nifi_admin_username secret)
        then ok s
        else err
            ("admin secret " <> namespace <> "/" <> name <> " does not contain the admin username")
  ]

-- A reconciler of one secret: what `NewSensitiveKeyReconciler` and `NewAdminSecretReconciler` give.
pub data SecretReconciler : Type 0 where
  sensitive_key : (name : String) → (auto_generated : Bool) → SecretReconciler
  admin_secret : (name : String) → SecretReconciler

abbrev pub secret_name : SecretReconciler → String
secret_name (sensitive_key name _) = name
secret_name (admin_secret name) = name

unfoldable pub new_sensitive_key_reconciler : String → Bool → SecretReconciler
new_sensitive_key_reconciler name auth_generated = sensitive_key name auth_generated

unfoldable pub new_admin_secret_reconciler : String → SecretReconciler
new_admin_secret_reconciler cluster_name =
    admin_secret (oidc_admin_password_secretname cluster_name)

module _ (S : SecretsApi) (namespace : String) where
  -- `Reconcile`, with the random bytes of this call.
  unfoldable pub reconcile : SecretReconciler → Result (List ℕ) → S.Store → Result S.Store
  reconcile (sensitive_key name auto_generated) random s =
      reconcile_sensitive_key S namespace name auto_generated random s
  reconcile (admin_secret name) random s = reconcile_admin_secret S namespace name random s
