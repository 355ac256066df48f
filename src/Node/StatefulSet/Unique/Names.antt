-- ===== src/Node/StatefulSet/Unique/Names.antt =====
-- The names in the pod of internal/controller/node/statefulset.go, told apart by their last characters.
use mathlib.Core.Path.{ap₂}
use nifi_operator.Common.{
  ℕ, ◌<◌, ◌⊎◌, deref, ◌<>◌, String, Option, none, some, List, [], ◌∷◌, ◌++◌, map, ◌≡◌, ◌≢◌, refl,
  sym, ◌∙◌, ap, subst, arith, ok, >>=-eq-ok, ok-inj, All, All-imp, All-map, All-map_from, Distinct,
  Distinct-append, map_from, eq_iff, Option-cases, inl, inr,
}
use nifi_operator.Common.Decimal.{print}
use nifi_operator.Common.Ending.{
  last_code, last_code-append, IsDigit, last_code-print, ne_of_last_code,
}
use nifi_operator.Kube.{Volume, Container, volume_name}
use nifi_operator.Api.{GitSyncSpec}
use nifi_operator.OperatorGo.{OperatorGo, IsNaming}
use nifi_operator.GitSync.{GitSyncResources}
use nifi_operator.GitSync.Loop.{
  volume_at, sidecar_at, init_at, resources_of, new_git_sync_resources_lem,
}
use nifi_operator.GitSync.Names.{container_name, new_git_sync_resources-Distinct}
use nifi_operator.Security.Oidc
use nifi_operator.Security.Ldap
use nifi_operator.Security.StaticUser
use nifi_operator.Security.Authentication
use nifi_operator.Security.Authentication.{
  Authenticator, oidc_authenticator, ldap_authenticator, static_authenticator, Authentication,
  volumes_of, find_single,
}
use nifi_operator.Node.StatefulSet.{
  StatefulSetBuilder, PodContainer, node_container, git_sync_container, PodSpec, authenticated,
}
use nifi_operator.Node.StatefulSet.Wiring.{own_volumes}

-- The last character of a volume of an authentication: that of "admin", or that of the volume for
-- bind credentials.
abbrev pub EndsApart : ℕ → Type 0
EndsApart c = (c ≡ 110) ⊎ (c ≡ 115)

-- At most one volume, with such an ending.
abbrev pub OneApart : List Volume → Type 0
OneApart [] = Unit
OneApart (v ∷ []) = EndsApart (last_code 0 v.name)
OneApart (v ∷ w ∷ vs) = ⊥

module _ (o : OperatorGo) (naming : IsNaming o) where
  volumes_of-OneApart :
      (x : Authenticator) (vs : List Volume) → volumes_of o x ≡ ok vs → OneApart vs
  unfolding volumes_of Oidc.get_volumes Ldap.get_volumes StaticUser.get_volumes
      Ldap.bind_credentials_volume_name
  volumes_of-OneApart (oidc_authenticator a) vs e = subst OneApart (ok-inj e) (inl refl)
  volumes_of-OneApart (ldap_authenticator a) vs e =
      let (b, _, last) = >>=-eq-ok (deref a.provider.bind_credentials) _ e in
      let name = Ldap.bind_credentials_volume_name b in
      let ends : last_code 0 name ≡ 115 = last_code-append 0 b.secret_class "-bind-credentials" in
      subst OneApart (ok-inj last)
        (inr (ap (last_code 0) (naming.volume_name_kept name b.secret_class _) ∙ ends))
  volumes_of-OneApart (static_authenticator a) vs e = subst OneApart (ok-inj e) (inl refl)

  pub authenticated-OneApart :
      (a : Option Authentication) (vs : List Volume)
      → authenticated (Authentication.get_volumes o) a ≡ ok vs
      → OneApart vs
  unfolding authenticated Authentication.get_volumes
  authenticated-OneApart none vs e = subst OneApart (ok-inj e) tt
  authenticated-OneApart (some a) vs e = elim (Option-cases (find_single a.authenticators)) [
    | inl f ↦ subst OneApart (ok-inj (rw (f, Authentication.get_volumes) at e)) tt
    | inr (x, f) ↦ volumes_of-OneApart x vs (rw (f, Authentication.get_volumes) at e)
  ]

-- A name is none of those whose last character is of another kind.
apart_by_ending :
    (P : ℕ → Type 0) (s : String) (ns : List String)
    → ¬ P (last_code 0 s)
    → All (λ n. P (last_code 0 n)) ns
    → All (λ n. s ≢ n) ns
apart_by_ending P s ns other =
    All-imp (λ n. P (last_code 0 n)) (λ n. s ≢ n) ns
      (λ n h e. other (subst P (ap (last_code 0) (sym e)) h))

EndsApart-no-IsDigit : (c : ℕ) → EndsApart c → ¬ IsDigit c
EndsApart-no-IsDigit c (inl e) d = absurd (omega arith)
EndsApart-no-IsDigit c (inr e) d = absurd (omega arith)

EndsApart-ne : (c d : ℕ) → EndsApart c → d < 115 → d ≢ 110 → d ≢ c
EndsApart-ne c d (inl e) h ne f = ne (f ∙ e)
EndsApart-ne c d (inr e) h ne f = absurd (omega arith)

numbered : (p : String) (i : ℕ) → IsDigit (last_code 0 (p <> print i))
numbered p i = rw (last_code-append 0 p (print i)) (last_code-print (last_code 0 p) i)

init_ending : (i : ℕ) → last_code 0 ("git-sync-" <> print i <> "-init") ≡ 116
init_ending i =
    last_code-append 0 "git-sync-" (print i <> "-init")
    ∙ last_code-append (last_code 0 "git-sync-") (print i) "-init"

module _ (gss : List GitSyncSpec) where
  volume_names : List String
  volume_names = map volume_name (map_from volume_at 0 gss)

  volume_names-IsDigit : All (λ n. IsDigit (last_code 0 n)) volume_names
  unfolding volume_names
  volume_names-IsDigit =
      All-map _ volume_name _
        (All-map_from _ volume_at (λ i x. numbered "content-from-git-" i) 0 gss)

  pub sidecar_names : List String
  sidecar_names = map container_name (map_from sidecar_at 0 gss)

  sidecar_names-IsDigit : All (λ n. IsDigit (last_code 0 n)) sidecar_names
  unfolding sidecar_names
  sidecar_names-IsDigit =
      All-map _ container_name _ (All-map_from _ sidecar_at (λ i x. numbered "git-sync-" i) 0 gss)

  pub init_names : List String
  init_names = map container_name (map_from init_at 0 gss)

  init_names-ending : All (λ n. last_code 0 n ≡ 116) init_names
  unfolding init_names
  init_names-ending =
      All-map _ container_name _ (All-map_from _ init_at (λ i x. init_ending i) 0 gss)

  pub volumes-Distinct :
      (b : StatefulSetBuilder) (more : List Volume)
      → OneApart more
      → Distinct (map volume_name (own_volumes b more ++ map_from volume_at 0 gss))
  unfolding volume_names
  volumes-Distinct b [] h =
      let own = volume_names-IsDigit in
      let (_, _, distinct, _) =
        new_git_sync_resources-Distinct gss (resources_of gss) (new_git_sync_resources_lem gss) in
      (
        (
          ne_of_last_code (λ e. absurd (omega arith)),
          apart_by_ending IsDigit "nifi-config" _ (λ d. absurd (omega arith)) own,
        ),
        (apart_by_ending IsDigit "empty-dir" _ (λ d. absurd (omega arith)) own, distinct),
      )
  volumes-Distinct b (v ∷ []) h =
      let own = volume_names-IsDigit in
      let (_, _, distinct, _) =
        new_git_sync_resources-Distinct gss (resources_of gss) (new_git_sync_resources_lem gss) in
      (
        (
          ne_of_last_code (λ e. absurd (omega arith)),
          (
            ne_of_last_code (EndsApart-ne _ 103 h (omega arith) (λ e. absurd (omega arith))),
            apart_by_ending IsDigit "nifi-config" _ (λ d. absurd (omega arith)) own,
          ),
        ),
        (
          (
            ne_of_last_code (EndsApart-ne _ 114 h (omega arith) (λ e. absurd (omega arith))),
            apart_by_ending IsDigit "empty-dir" _ (λ d. absurd (omega arith)) own,
          ),
          (apart_by_ending IsDigit v.name _ (EndsApart-no-IsDigit _ h) own, distinct),
        ),
      )
  volumes-Distinct b (v ∷ w ∷ vs) h = absurd h

-- Whichever kind a container of the pod is.
abbrev pub pod_container_name : PodContainer → String
pod_container_name (node_container c) = c.name
pod_container_name (git_sync_container c) = c.name

abbrev pub pod_container_names : PodSpec → List String
pod_container_names p =
    map pod_container_name p.init_containers ++ map pod_container_name p.containers

git_sync_names :
    (cs : List Container)
    → map container_name cs ≡ map pod_container_name (map git_sync_container cs)
git_sync_names [] = refl
git_sync_names (c ∷ cs) = ap (λ ns. c.name ∷ ns) (git_sync_names cs)

module _ (gss : List GitSyncSpec) where
  pub containers-Distinct : Distinct (("prepare" ∷ init_names gss) ++ "node" ∷ sidecar_names gss)
  unfolding init_names sidecar_names
  containers-Distinct =
      let digits = sidecar_names-IsDigit gss in
      let endings = init_names-ending gss in
      let (sidecars, inits, _, _) =
        new_git_sync_resources-Distinct gss (resources_of gss) (new_git_sync_resources_lem gss) in
      Distinct-append ("prepare" ∷ init_names gss) ("node" ∷ sidecar_names gss)
        (apart_by_ending (λ c. c ≡ 116) "prepare" _ (λ e. absurd (omega arith)) endings, inits)
        (apart_by_ending IsDigit "node" _ (λ d. absurd (omega arith)) digits, sidecars)
        (
          (
            λ e. cc ((eq_iff "prepare" "node").1 e),
            apart_by_ending IsDigit "prepare" _ (λ d. absurd (omega arith)) digits,
          ),
          All-imp _ _ (init_names gss)
              (λ n e. (
                ne_of_last_code (λ f. absurd (omega (arith, e))),
                apart_by_ending IsDigit n _ (λ d. absurd (omega (arith, e))) digits,
              ))
              endings,
        )

  abbrev pub names_in : GitSyncResources → String → String → List String
  names_in r prepare main =
      (prepare ∷ map pod_container_name (map git_sync_container r.git_sync_init_containers))
      ++ main ∷ map pod_container_name (map git_sync_container r.git_sync_containers)

  pub names_lem :
      (r : GitSyncResources) (prepare main : String)
      → r ≡ resources_of gss
      → prepare ≡ "prepare"
      → main ≡ "node"
      → names_in r prepare main ≡ ("prepare" ∷ init_names gss) ++ "node" ∷ sidecar_names gss
  unfolding init_names sidecar_names
  names_lem r prepare main e f g =
      ap (λ n. names_in r n main) f
      ∙ ap (λ n. names_in r "prepare" n) g
      ∙ ap (λ x. names_in x "prepare" "node") e
      ∙ ap₂ (λ xs ys. ("prepare" ∷ xs) ++ "node" ∷ ys)
          (sym (git_sync_names (map_from init_at 0 gss)))
          (sym (git_sync_names (map_from sidecar_at 0 gss)))
