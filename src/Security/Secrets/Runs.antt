-- ===== src/Security/Secrets/Runs.antt =====
-- Sequences of reconciliations of the generated secrets of internal/common/security, whose order and
-- number the controller does not fix.
pub mod Abstract
use nifi_operator.Common.{
  ℕ, String, Bool, true, false, Option, none, some, List, [], ◌∷◌, ◌++◌, ◌≡◌, ◌≢◌, refl, sym, ◌∙◌,
  ap, inl, inr, ◌⊎◌, subst, is_some, find_key, Result, ok, err, panic, ok-inj, Bool-cases,
  Option-cases, ◌==◌, eq_iff, eq_refl, arith, All, if◌then◌else◌,
}
use mathlib.Core.Path.{fun_ext}
use nifi_operator.OperatorGo.{
  SecretsApi, IsSecrets, SecretData, GetResult, found, not_found, failed,
}
use nifi_operator.Security.{nifi_admin_username}
use nifi_operator.Security.Password.{generate_password}
use nifi_operator.Security.Secrets.{
  SecretReconciler, sensitive_key, admin_secret, secret_name, reconcile, reconcile_sensitive_key,
  reconcile_admin_secret, reconcile_secret, build_secret,
}
use nifi_operator.Security.Secrets.Kept.{
  GetResult-cases, Kept, reconcile_sensitive_key-Kept, reconcile_admin_secret-Kept,
}

-- A call of a reconciler, with what `rand.Read` would give in it.
pub record Attempt : Type 0 where
  pub reconciler : SecretReconciler
  pub random : Result (List ℕ)

-- The key of the entry that is made.
abbrev pub secret_key : SecretReconciler → String
secret_key (sensitive_key _ _) = "nifiSensitivePropsKey"
secret_key (admin_secret _) = nifi_admin_username

-- Whether an absent secret may be made.
abbrev pub may_create : SecretReconciler → Bool
may_create (sensitive_key _ auto_generated) = auto_generated
may_create (admin_secret _) = true

-- A call that fails leaves the secrets as they are.
abbrev pub settle {ℓ} : {A : Type ℓ} → A → Result A → A
settle s (ok t) = t
settle s (err _) = s
settle s panic = s

module _ (S : SecretsApi) (namespace : String) where
  unfoldable pub run : List Attempt → S.Store → S.Store
  run [] s = s
  run (a ∷ more) s = run more (settle s (reconcile S namespace a.reconciler a.random s))

-- The abstract secrets: a map that is only ever written where it is empty.
abbrev pub Secrets : Type 0
Secrets = String → Option SecretData

abbrev pub new_secret : SecretReconciler → Result (List ℕ) → Option SecretData
new_secret r (ok bytes) =
    if may_create r then some ((secret_key r, generate_password bytes) ∷ []) else none
new_secret r (err _) = none
new_secret r panic = none

abbrev pub create_if_absent : Attempt → Secrets → Secrets
create_if_absent a v name = elim (v name) [
  | some d ↦ some d
  | none ↦ if secret_name a.reconciler == name then new_secret a.reconciler a.random else none
]

abbrev pub create_all : List Attempt → Secrets → Secrets
create_all [] v = v
create_all (a ∷ more) v = create_all more (create_if_absent a v)

abbrev pub existing : GetResult SecretData → Option SecretData
existing (found d) = some d
existing not_found = none
existing (failed _) = none

pub create_if_absent-some :
    (a : Attempt) (v : Secrets) (name : String) {d : SecretData}
    → v name ≡ some d
    → create_if_absent a v name ≡ some d
create_if_absent-some a v name there = rw (create_if_absent, there)

pub create_if_absent-none :
    (a : Attempt) (v : Secrets) (name : String)
    → v name ≡ none
    → create_if_absent a v name
      ≡ (if secret_name a.reconciler == name then new_secret a.reconciler a.random else none)
create_if_absent-none a v name absent = rw (create_if_absent, absent)

-- An API server that answers every call.
pub record IsReliable (S : SecretsApi) : Type 0 where
  pub get_answered : (s : S.Store) (name e : String) → S.get s name ≢ failed e
  pub apply_done :
      (s : S.Store) (name : String) (d : SecretData) → (t : S.Store) × (S.apply s name d ≡ ok t)

module _ (S : SecretsApi) (secrets : IsSecrets S) (namespace : String) where
  reconcile-Kept :
      (r : SecretReconciler) (random : Result (List ℕ)) (s t : S.Store)
      → reconcile S namespace r random s ≡ ok t
      → Kept S (secret_name r) (secret_key r) random s t
  unfolding reconcile
  reconcile-Kept (sensitive_key name auto_generated) random s t e =
      reconcile_sensitive_key-Kept S secrets namespace name auto_generated random s t e
  reconcile-Kept (admin_secret name) random s t e =
      (reconcile_admin_secret-Kept S secrets namespace name random s t e).0

  reconcile_found :
      (r : SecretReconciler) (random : Result (List ℕ)) (s t : S.Store) (name : String)
      (d : SecretData)
      → S.get s name ≡ found d
      → reconcile S namespace r random s ≡ ok t
      → S.get t name ≡ found d
  reconcile_found r random s t name d there e = elim (reconcile-Kept r random s t e) [
    | inl (_, _, same) ↦ ap (λ u. S.get u name) same ∙ there
    | inr (_, _, absent, _, others) ↦
        others name (λ one. cc (sym absent ∙ ap (λ n. S.get s n) one ∙ there)) ∙ there
  ]

  pub settle_found :
      (m : Result S.Store) (r : SecretReconciler) (random : Result (List ℕ)) (s : S.Store)
      (name : String) (d : SecretData)
      → reconcile S namespace r random s ≡ m
      → S.get s name ≡ found d
      → S.get (settle s m) name ≡ found d
  settle_found (ok t) r random s name d e there = reconcile_found r random s t name d there e
  settle_found (err _) r random s name d e there = there
  settle_found panic r random s name d e there = there

  -- Where an applied object is read back and leaves the others alone: whatever reconcilers run, in
  -- any order and number, with any random bytes and with failing calls among them, a secret that
  -- exists keeps its data.
  pub run_found :
      (calls : List Attempt) (s : S.Store) (name : String) (d : SecretData)
      → S.get s name ≡ found d
      → S.get (run S namespace calls s) name ≡ found d
  unfolding run
  run_found [] s name d there = there
  run_found (a ∷ more) s name d there = run_found more _ name d (
      settle_found (reconcile S namespace a.reconciler a.random s) a.reconciler a.random s name d
        refl there)
