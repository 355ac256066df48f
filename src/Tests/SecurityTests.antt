-- ===== src/Tests/SecurityTests.antt =====
-- Runs of internal/common/security.
use nifi_operator.Common.{
  ℕ, String, true, false, List, [], ◌∷◌, ◌++◌, err, ◌≡◌, ◌≢◌, ◌↔◌, refl, ok, All, length, take,
  is_some, find_key, arith,
}
use nifi_operator.OperatorGo.{SecretData, found}
use nifi_operator.Security.{nifi_admin_username}
use nifi_operator.Security.Authentication
use nifi_operator.Security.Authentication.{Authenticator, new_authentication}
use nifi_operator.Security.Authentication.Choice.{Authenticates, new_authentication_lem}
use nifi_operator.Security.Authentication.Delegation.{HoldsOne, new_authentication-delegates}
use nifi_operator.Security.Password.{generate_password}
use nifi_operator.Security.Password.Strength.{length-generate_password, generate_password-eq_iff}
use nifi_operator.Security.Secrets.{
  reconcile_sensitive_key, reconcile_admin_secret, sensitive_key, admin_secret,
}
use nifi_operator.Security.Secrets.Runs.{Attempt, run, run_found, existing, create_all}
use nifi_operator.Security.Secrets.Runs.Abstract.{run-create_all, run_exists}
use nifi_operator.Security.Secrets.Kept.{
  Kept, reconcile_sensitive_key-Kept, reconcile_sensitive_key_again, reconcile_admin_secret-Kept,
}
use nifi_operator.Tests.{
  library, properties, secrets, secrets-IsSecrets, secrets-IsReliable, ok_value,
}
use nifi_operator.Tests.Inputs.{static_spec, oidc_spec, classes, static_authentication}

new_authentication_example :
    Authenticates classes "nifi"
      (oidc_spec ∷ [])
      (new_authentication classes "nifi" (oidc_spec ∷ []))
new_authentication_example = new_authentication_lem classes "nifi" (oidc_spec ∷ [])

authenticated : new_authentication classes "nifi" (static_spec ∷ []) ≡ ok static_authentication
unfolding new_authentication Authentication.collect_authenticators Authentication.get_auth_provider
    Authentication.choose_authenticator Authentication.offered Authentication.append_at
    Authentication.is_supported
authenticated = refl

new_authentication-delegates_example :
    (x : Authenticator) × HoldsOne static_authentication x
    × (Authentication.get_env_vars static_authentication ≡ Authentication.env_vars_of x)
    × (Authentication.get_volumes library static_authentication
        ≡ Authentication.volumes_of library x)
    × (Authentication.get_volume_mounts library static_authentication
        ≡ Authentication.volume_mounts_of library x)
    × (Authentication.extend_nifi_properties properties static_authentication
        ≡ Authentication.properties_of properties x)
    × (Authentication.get_login_identity_provider library static_authentication
        ≡ Authentication.login_identity_provider_of library x)
    × (Authentication.get_init_args library static_authentication
        ≡ Authentication.init_args_of library x)
new_authentication-delegates_example =
    new_authentication-delegates library properties classes "nifi" (static_spec ∷ [])
      static_authentication authenticated

abbrev random_bytes : List ℕ
random_bytes = 7 ∷ 200 ∷ 31 ∷ 0 ∷ 255 ∷ 64 ∷ 18 ∷ 99 ∷ 5 ∷ 77 ∷ 130 ∷ 41 ∷ 3 ∷ 9 ∷ 27 ∷ 81 ∷ []

-- The same but for the last four bytes.
abbrev other_bytes : List ℕ
other_bytes = 7 ∷ 200 ∷ 31 ∷ 0 ∷ 255 ∷ 64 ∷ 18 ∷ 99 ∷ 5 ∷ 77 ∷ 130 ∷ 41 ∷ 1 ∷ 1 ∷ 1 ∷ 1 ∷ []

length-generate_password_example :
    (length (generate_password random_bytes) ≡ 16)
    × All (λ c. c ≢ b'=') (generate_password random_bytes)
length-generate_password_example = length-generate_password random_bytes refl

generate_password-eq_iff_example :
    (generate_password random_bytes ≡ generate_password other_bytes)
    ↔ (take 12 random_bytes ≡ take 12 other_bytes)
generate_password-eq_iff_example =
    generate_password-eq_iff random_bytes other_bytes refl refl (ground arith) (ground arith)

abbrev stored : List (String × SecretData)
stored = ("other", ("k", 1 ∷ []) ∷ []) ∷ []

key_created :
    (t : List (String × SecretData)) × (reconcile_sensitive_key secrets "data" "key" true
        (ok random_bytes)
        stored
      ≡ ok t)
unfolding reconcile_sensitive_key nifi_operator.Security.Secrets.reconcile_secret
    nifi_operator.Security.Secrets.build_secret
key_created = ok_value _ refl

reconcile_sensitive_key-Kept_example :
    Kept secrets "key" "nifiSensitivePropsKey" (ok random_bytes) stored key_created.0
reconcile_sensitive_key-Kept_example =
    reconcile_sensitive_key-Kept secrets secrets-IsSecrets "data" "key" true (ok random_bytes)
      stored key_created.0 key_created.1

reconcile_sensitive_key_again_example :
    reconcile_sensitive_key secrets "data" "key" false (ok other_bytes) key_created.0
    ≡ ok key_created.0
reconcile_sensitive_key_again_example =
    reconcile_sensitive_key_again secrets secrets-IsSecrets "data" "key" true false
      (ok random_bytes) (ok other_bytes) stored key_created.0 key_created.1

admin_created :
    (t : List (String × SecretData)) × (reconcile_admin_secret secrets "data"
        "nifi-oidc-admin-password"
        (ok random_bytes)
        stored
      ≡ ok t)
unfolding reconcile_admin_secret nifi_operator.Security.Secrets.reconcile_secret
    nifi_operator.Security.Secrets.build_secret
admin_created = ok_value _ refl

reconcile_admin_secret-Kept_example :
    Kept secrets "nifi-oidc-admin-password" nifi_admin_username
      (ok random_bytes)
      stored
      admin_created.0
    × ((d : SecretData) × (secrets.get admin_created.0 "nifi-oidc-admin-password" ≡ found d)
        × (is_some (find_key nifi_admin_username d) ≡ true))
reconcile_admin_secret-Kept_example =
    reconcile_admin_secret-Kept secrets secrets-IsSecrets "data" "nifi-oidc-admin-password"
      (ok random_bytes) stored admin_created.0 admin_created.1

-- Two calls of an administrator's reconciler around one of a sensitive key that may not be made.
abbrev calls : List Attempt
calls =
    record { reconciler = admin_secret "nifi-oidc-admin-password"; random = ok random_bytes }
    ∷ record { reconciler = sensitive_key "key" false; random = ok random_bytes }
    ∷ record { reconciler = admin_secret "nifi-oidc-admin-password"; random = err "no bytes" }
    ∷ []

run_found_example :
    secrets.get (run secrets "data" calls stored) "other" ≡ found (("k", 1 ∷ []) ∷ [])
run_found_example =
    run_found secrets secrets-IsSecrets "data" calls stored "other" (("k", 1 ∷ []) ∷ []) refl

run-create_all_example :
    (λ (name : String). existing (secrets.get (run secrets "data" calls stored) name))
    ≡ create_all calls (λ name. existing (secrets.get stored name))
run-create_all_example =
    run-create_all secrets secrets-IsSecrets secrets-IsReliable "data" calls stored

run_exists_example :
    (d : SecretData) × (secrets.get
        (run secrets "data"
          (calls
            ++ record { reconciler = sensitive_key "key" true; random = ok random_bytes } ∷ calls)
          stored)
        "key"
      ≡ found d)
run_exists_example =
    run_exists secrets secrets-IsSecrets secrets-IsReliable "data" calls calls
      (sensitive_key "key" true) random_bytes stored refl
