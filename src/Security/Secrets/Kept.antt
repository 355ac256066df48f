-- ===== src/Security/Secrets/Kept.antt =====
-- That the reconcilers of internal/common/security keep each secret that exists.
use nifi_operator.Common.{
  ℕ, String, Bool, true, ◌≡◌, ◌≢◌, refl, sym, ◌∙◌, ap, List, [], ◌∷◌, Result, ok, ok-inj, >>=-eq-ok,
  Bool-cases, inl, inr, ◌⊎◌, is_some, find_key,
}
use nifi_operator.OperatorGo.{
  SecretsApi, IsSecrets, SecretData, GetResult, found, not_found, failed,
}
use nifi_operator.Security.{nifi_admin_username}
use nifi_operator.Security.Password.{generate_password}
use nifi_operator.Security.Secrets.{
  build_secret, reconcile_secret, reconcile_sensitive_key, reconcile_admin_secret,
}

pub GetResult-cases {ℓ} :
    {A : Type ℓ} (g : GetResult A)
    → ((a : A) × (g ≡ found a)) ⊎ ((g ≡ not_found) ⊎ ((e : String) × (g ≡ failed e)))
GetResult-cases (found a) = inl (a, refl)
GetResult-cases not_found = inr (inl refl)
GetResult-cases (failed e) = inr (inr (e, refl))

-- What a reconciliation that succeeds leaves under a name: the secret was there and nothing has
-- changed, or it was absent and now has one entry, a new password under the key, and the other
-- secrets are as they were.
abbrev pub Kept : (S : SecretsApi) → String → String → Result (List ℕ) → S.Store → S.Store → Type 0
Kept S name key random s t =
    ((d : SecretData) × (S.get s name ≡ found d) × (t ≡ s))
    ⊎ ((bytes : List ℕ) × (random ≡ ok bytes)
        × (S.get s name ≡ not_found)
        × (S.get t name ≡ found ((key, generate_password bytes) ∷ []))
        × ((other : String) → name ≢ other → S.get t other ≡ S.get s other))

created :
    (S : SecretsApi) (secrets : IsSecrets S) (name key : String) (random : Result (List ℕ))
    (s t : S.Store)
    → S.get s name ≡ not_found
    → reconcile_secret S name (build_secret key random) s ≡ ok t
    → Kept S name key random s t
unfolding reconcile_secret build_secret
created S secrets name key random s t absent e =
    let (d, built, applied) = >>=-eq-ok _ _ e in
    let (bytes, read, made) = >>=-eq-ok random _ built in
    let same = ok-inj made in
    inr (
      bytes,
      read,
      absent,
      rw same (secrets.get-apply s t name d applied),
      λ other apart. secrets.get-apply_other s t name other d applied apart,
    )

-- Where an applied object is read back and leaves the others alone: if the sensitive key is
-- reconciled without an error, then either its Secret existed and nothing has changed, or it was
-- absent and now holds one new password under "nifiSensitivePropsKey", and the other secrets are as
-- they were.
pub reconcile_sensitive_key-Kept :
    (S : SecretsApi) (secrets : IsSecrets S) (namespace name : String) (auto_generated : Bool)
    (random : Result (List ℕ)) (s t : S.Store)
    → reconcile_sensitive_key S namespace name auto_generated random s ≡ ok t
    → Kept S name "nifiSensitivePropsKey" random s t
unfolding reconcile_sensitive_key
reconcile_sensitive_key-Kept S secrets namespace name auto_generated random s t e =
    elim (GetResult-cases (S.get s name)) [
      | inl (d, g) ↦ inl (d, g, sym (ok-inj (rw (g, reconcile_sensitive_key) at e)))
      | inr (inl g) ↦ elim (Bool-cases auto_generated) [
        | inl a ↦ created S secrets name _ random s t g (rw (g, a, reconcile_sensitive_key) at e)
        | inr a ↦ cc (rw (g, a, reconcile_sensitive_key) at e)
      ]
      | inr (inr (x, g)) ↦ cc (rw (g, reconcile_sensitive_key) at e)
    ]

-- Where an applied object is read back and leaves the others alone: after a reconciliation of the
-- sensitive key without an error, every further one succeeds and changes nothing, whatever the
-- random bytes and whether or not keys are generated.
pub reconcile_sensitive_key_again :
    (S : SecretsApi) (secrets : IsSecrets S) (namespace name : String) (auto_generated again : Bool)
    (random more : Result (List ℕ)) (s t : S.Store)
    → reconcile_sensitive_key S namespace name auto_generated random s ≡ ok t
    → reconcile_sensitive_key S namespace name again more t ≡ ok t
unfolding reconcile_sensitive_key
reconcile_sensitive_key_again S secrets namespace name auto_generated again random more s t e =
    elim (reconcile_sensitive_key-Kept S secrets namespace name auto_generated random s t e) [
      | inl (d, g, same) ↦ rw (ap (λ u. S.get u name) same ∙ g, reconcile_sensitive_key)
      | inr (_, _, _, g, _) ↦ rw (g, reconcile_sensitive_key)
    ]

-- Where an applied object is read back and leaves the others alone: if the administrator's secret is
-- reconciled without an error, then either it existed, with an entry for the administrator, and
-- nothing has changed, or it was absent and now holds one new password for the administrator, and
-- the other secrets are as they were.
pub reconcile_admin_secret-Kept :
    (S : SecretsApi) (secrets : IsSecrets S) (namespace name : String) (random : Result (List ℕ))
    (s t : S.Store)
    → reconcile_admin_secret S namespace name random s ≡ ok t
    → Kept S name nifi_admin_username random s t
      × ((d : SecretData) × (S.get t name ≡ found d)
          × (is_some (find_key nifi_admin_username d) ≡ true))
unfolding reconcile_admin_secret
reconcile_admin_secret-Kept S secrets namespace name random s t e =
    elim (GetResult-cases (S.get s name)) [
      | inl (d, g) ↦ elim (Bool-cases (is_some (find_key nifi_admin_username d))) [
        | inl held ↦
            let same = sym (ok-inj (rw (g, held, reconcile_admin_secret) at e)) in
            (inl (d, g, same), (d, rw same g, held))
        | inr h ↦ cc (rw (g, h, reconcile_admin_secret) at e)
      ]
      | inr (inl g) ↦
          let kept =
            created S secrets name nifi_admin_username random s t g
              (rw (g, reconcile_admin_secret) at e) in
          (
            kept,
            elim kept [
              | inl (d, there, _) ↦ cc (sym g ∙ there)
              | inr (bytes, _, _, there, _) ↦ (_, there, refl)
            ],
          )
      | inr (inr (x, g)) ↦ cc (rw (g, reconcile_admin_secret) at e)
    ]
