-- ===== src/Security/Secrets/Runs/Abstract.antt =====
-- That sequences of reconciliations of internal/common/security do what an abstract map does that is
-- only ever written where it is empty.
use nifi_operator.Common.{
  ℕ, String, true, false, none, some, List, [], ◌∷◌, ◌++◌, ◌≡◌, ◌≢◌, refl, sym, ◌∙◌, ap, inl, inr,
  ◌⊎◌, is_some, find_key, Result, ok, err, panic, Bool-cases, Option-cases, ◌==◌, eq_iff,
}
use mathlib.Core.Path.{fun_ext}
use nifi_operator.OperatorGo.{SecretsApi, IsSecrets, SecretData, found, not_found}
use nifi_operator.Security.{nifi_admin_username}
use nifi_operator.Security.Password.{generate_password}
use nifi_operator.Security.Secrets.{
  SecretReconciler, sensitive_key, admin_secret, secret_name, reconcile, reconcile_sensitive_key,
  reconcile_admin_secret, reconcile_secret, build_secret,
}
use nifi_operator.Security.Secrets.Kept.{GetResult-cases}
use nifi_operator.Security.Secrets.Runs.{
  Attempt, secret_key, may_create, settle, run, Secrets, new_secret, create_if_absent, create_all,
  existing, IsReliable, create_if_absent-some, create_if_absent-none, settle_found, run_found,
}

module _ (S : SecretsApi) (secrets : IsSecrets S) (reliable : IsReliable S)
    (namespace : String) where
  view : S.Store → Secrets
  view s name = existing (S.get s name)

  -- What a call does under the name of its reconciler.
  Effect : SecretReconciler → Result (List ℕ) → S.Store → S.Store → Type 0
  unfolding view
  Effect r random s t =
      ((t ≡ s) × (view s (secret_name r) ≡ none → new_secret r random ≡ none))
      ⊎ ((d : SecretData) × (view s (secret_name r) ≡ none)
          × (new_secret r random ≡ some d)
          × (S.apply s (secret_name r) d ≡ ok t))

  make : SecretReconciler → Result (List ℕ) → S.Store → Result S.Store
  make r random s = reconcile_secret S (secret_name r) (build_secret (secret_key r) random) s

  make-Effect :
      (r : SecretReconciler) (random : Result (List ℕ)) (s : S.Store)
      → S.get s (secret_name r) ≡ not_found
      → may_create r ≡ true
      → Effect r random s (settle s (make r random s))
  unfolding Effect view make reconcile_secret build_secret
  make-Effect r (ok bytes) s absent may =
      let d = (secret_key r, generate_password bytes) ∷ [] in
      let (t, e) = reliable.apply_done s (secret_name r) d in inr (d, rw absent, rw may, rw e)
  make-Effect r (err _) s absent may = inl (refl, λ _. refl)
  make-Effect r panic s absent may = inl (refl, λ _. refl)

  kept-Effect :
      (r : SecretReconciler) (random : Result (List ℕ)) (s : S.Store) (d : SecretData)
      → S.get s (secret_name r) ≡ found d
      → Effect r random s s
  unfolding Effect view
  kept-Effect r random s d there = inl (refl, λ none_there. cc (rw there at none_there))

  new_secret_refused :
      (name : String) (random : Result (List ℕ))
      → new_secret (sensitive_key name false) random ≡ none
  new_secret_refused name (ok _) = refl
  new_secret_refused name (err _) = refl
  new_secret_refused name panic = refl

  refused :
      (name : String) (random : Result (List ℕ)) (s : S.Store)
      → Effect (sensitive_key name false) random s s
  unfolding Effect
  refused name random s = inl (refl, λ _. new_secret_refused name random)

  reconcile-Effect :
      (r : SecretReconciler) (random : Result (List ℕ)) (s : S.Store)
      → Effect r random s (settle s (reconcile S namespace r random s))
  unfolding reconcile reconcile_sensitive_key reconcile_admin_secret reconcile_secret make
  reconcile-Effect (sensitive_key name auto_generated) random s =
      elim (GetResult-cases (S.get s name)) [
        | inl (d, there) ↦
            rw (there, reconcile_sensitive_key)
              (kept-Effect (sensitive_key name auto_generated) random s d there)
        | inr (inl absent) ↦ elim (Bool-cases auto_generated) [
          | inl may ↦
              rw (absent, may, reconcile_sensitive_key)
                (make-Effect (sensitive_key name true) random s absent refl)
          | inr may ↦ rw (absent, may, reconcile_sensitive_key) (refused name random s)
        ]
        | inr (inr (e, f)) ↦ absurd (reliable.get_answered s name e f)
      ]
  reconcile-Effect (admin_secret name) random s = elim (GetResult-cases (S.get s name)) [
    | inl (d, there) ↦ elim (Bool-cases (is_some (find_key nifi_admin_username d))) [
      | inl h ↦
          rw (there, h, reconcile_admin_secret) (kept-Effect (admin_secret name) random s d there)
      | inr h ↦
          rw (there, h, reconcile_admin_secret) (kept-Effect (admin_secret name) random s d there)
    ]
    | inr (inl absent) ↦
        rw (absent, reconcile_admin_secret) (make-Effect (admin_secret name) random s absent refl)
    | inr (inr (e, f)) ↦ absurd (reliable.get_answered s name e f)
  ]

  Effect-view :
      (a : Attempt) (s t : S.Store) (name : String)
      → Effect a.reconciler a.random s t
      → view t name ≡ create_if_absent a (view s) name
  unfolding Effect view
  Effect-view a s t name (inl (same, unmade)) =
      ap (λ u. view u name) same ∙ sym (unchanged (Option-cases (view s name)))
    where
      unchanged :
          (view s name ≡ none) ⊎ ((d : SecretData) × (view s name ≡ some d))
          → create_if_absent a (view s) name ≡ view s name
      unchanged (inr (d, there)) = create_if_absent-some a (view s) name there ∙ sym there
      unchanged (inl absent) =
          create_if_absent-none a (view s) name absent
          ∙ elim (Bool-cases (secret_name a.reconciler == name)) [
            | inl e ↦ rw e (unmade (ap (view s) ((eq_iff _ _).0 e) ∙ absent) ∙ sym absent)
            | inr e ↦ rw e (sym absent)
          ]
  Effect-view a s t name (inr (d, absent, made, applied)) =
      elim (Bool-cases (secret_name a.reconciler == name)) [
        | inl e ↦
            let same = (eq_iff _ _).0 e in
            ap existing
              (ap (S.get t) (sym same) ∙ secrets.get-apply s t (secret_name a.reconciler) d applied)
            ∙ sym made
            ∙ sym (create_if_absent-none a (view s) name (ap (view s) (sym same) ∙ absent) ∙ rw e)
        | inr e ↦
            let apart : secret_name a.reconciler ≢ name =
              λ same. cc (sym e ∙ (eq_iff _ _).1 same) in
            ap existing
              (secrets.get-apply_other s t (secret_name a.reconciler) name d applied apart)
            ∙ elim (Option-cases (view s name)) [
              | inl none_there ↦
                  none_there ∙ sym (create_if_absent-none a (view s) name none_there ∙ rw e)
              | inr (_, there) ↦ there ∙ sym (create_if_absent-some a (view s) name there)
            ]
      ]

  -- Where the API server answers every call, an applied object is read back and leaves the others
  -- alone: the secrets after any sequence of calls are those of the abstract map, in which a call
  -- writes one new password under the name of its reconciler if nothing stands there, the
  -- reconciler may make it and the random bytes are read, and changes nothing else.
  pub run-create_all :
      (calls : List Attempt) (s : S.Store)
      → (λ (name : String). existing (S.get (run S namespace calls s) name))
        ≡ create_all calls (λ name. existing (S.get s name))
  unfolding run view
  run-create_all [] s = refl
  run-create_all (a ∷ more) s =
      let t = settle s (reconcile S namespace a.reconciler a.random s) in
      run-create_all more t
      ∙ ap (create_all more)
          (fun_ext (λ name. Effect-view a s t name (reconcile-Effect a.reconciler a.random s)))

  exists_after :
      (r : SecretReconciler) (bytes : List ℕ) (s : S.Store)
      → may_create r ≡ true
      → (d : SecretData) × (S.get (settle s (reconcile S namespace r (ok bytes) s)) (secret_name r)
          ≡ found d)
  unfolding Effect view
  exists_after r bytes s may = elim (GetResult-cases (S.get s (secret_name r))) [
    | inl (d, there) ↦ (
      d,
      settle_found S secrets namespace (reconcile S namespace r (ok bytes) s) r (ok bytes) s
          (secret_name r) d refl there,
    )
    | inr (inl absent) ↦ elim (reconcile-Effect r (ok bytes) s) [
      | inl (_, unmade) ↦ cc (rw may at (unmade (ap existing absent)))
      | inr (d, _, _, applied) ↦ (d, secrets.get-apply s _ (secret_name r) d applied)
    ]
    | inr (inr (e, f)) ↦ absurd (reliable.get_answered s (secret_name r) e f)
  ]

  -- Where the API server answers every call, an applied object is read back and leaves the others
  -- alone: once a reconciler that may make its secret has run with random bytes that are read,
  -- a secret has its name, whatever calls came before or come after.
  pub run_exists :
      (before after : List Attempt) (r : SecretReconciler) (bytes : List ℕ) (s : S.Store)
      → may_create r ≡ true
      → (d : SecretData) × (S.get
            (run S namespace (before ++ record { reconciler = r; random = ok bytes } ∷ after) s)
            (secret_name r)
          ≡ found d)
  unfolding run view
  run_exists [] after r bytes s may =
      let (d, there) = exists_after r bytes s may in
      (d, run_found S secrets namespace after _ (secret_name r) d there)
  run_exists (a ∷ before) after r bytes s may = run_exists before after r bytes _ may
