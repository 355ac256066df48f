-- ===== src/ReportingTask/Job/Wiring.antt =====
-- That each mount of the Job of internal/controller/reporting_task/job.go has its volume.
use nifi_operator.Common.{
  is_empty, false, List, [], ◌++◌, ◌≡◌, refl, inl, inr, ok, wrap, ok-inj, >>=-eq-ok, All,
  All-append, Bool-cases, Option-cases, contains_self, subst, ap,
}
use nifi_operator.Kube.{
  Volume, VolumeMount, Container, MountsIn, MountsIn-append_left, MountsIn-append_right,
}
use nifi_operator.OperatorGo.{OperatorGo, IsNaming}
use nifi_operator.Security.Authentication
use nifi_operator.Security.Authentication.{Authentication}
use nifi_operator.Security.Authentication.Delegation.{get_volumes-Wired}
use nifi_operator.ReportingTask.Job.{
  ReportingTaskJobBuilder, Job, has_cert, build_volume_mounts, build_volumes, build_container,
  cert_volumes, cert_volume_mounts, build, reporting_task_cert_volume_name,
}

MountsIn-append :
    (vs ws : List Volume) (ms ns : List VolumeMount)
    → MountsIn vs ms
    → MountsIn ws ns
    → MountsIn (vs ++ ws) (ms ++ ns)
MountsIn-append vs ws ms ns h k =
    All-append _ ms ns (MountsIn-append_left vs ws ms h) (MountsIn-append_right vs ws ns k)

module _ (o : OperatorGo) (naming : IsNaming o) where
  cert_volumes-MountsIn :
      (b : ReportingTaskJobBuilder) → MountsIn (cert_volumes o b) (cert_volume_mounts o b)
  unfolding cert_volumes cert_volume_mounts
  cert_volumes-MountsIn b = elim (Bool-cases (has_cert b)) [
    | inl t ↦ rw (t, naming.volume_name_kept) (contains_self reporting_task_cert_volume_name [], tt)
    | inr t ↦ rw t tt
  ]

  build_volumes-MountsIn :
      (b : ReportingTaskJobBuilder) (ms : List VolumeMount) (vs : List Volume)
      → build_volume_mounts o b ≡ ok ms
      → build_volumes o b ≡ ok vs
      → MountsIn vs ms
  unfolding build_volume_mounts build_volumes
  build_volumes-MountsIn b ms vs e f = elim (Option-cases b.authentication) [
    | inl a ↦
        let certs = cert_volumes-MountsIn b in
        let e' = ok-inj (rw (a, build_volume_mounts) at e) in
        let f' = ok-inj (rw (a, build_volumes) at f) in rw (e', f') at certs
    | inr (x, a) ↦
        let (mounts, given, e') =
          >>=-eq-ok (Authentication.get_volume_mounts o x) _ (rw (a, build_volume_mounts) at e) in
        let (volumes, found, f') =
          >>=-eq-ok (Authentication.get_volumes o x) _ (rw (a, build_volumes) at f) in
        let wired = rw (given, found) at (get_volumes-Wired o naming x) in
        let joined =
          MountsIn-append (cert_volumes o b) volumes (cert_volume_mounts o b) mounts
            (cert_volumes-MountsIn b) wired in
        rw (ok-inj e', ok-inj f') at joined
  ]

  -- Where a secret volume bears the name that it is built with: if the Job is built, it has a
  -- container, and every mount of its containers names one of the Job's volumes.
  pub build-MountsIn :
      (b : ReportingTaskJobBuilder) (j : Job)
      → build o b ≡ ok j
      → (is_empty j.containers ≡ false) × All (λ c. MountsIn j.volumes c.volume_mounts) j.containers
  unfolding build build_container
  build-MountsIn b j e =
      let (tag, _, e1) =
        >>=-eq-ok (wrap "failed to get image with tag: " (o.get_image_with_tag b.image)) _ e in
      let (c, built, e2) = >>=-eq-ok (build_container o tag b) _ e1 in
      let (vs, volumed, e3) = >>=-eq-ok (build_volumes o b) _ e2 in
      let (ms, mounted, e4) = >>=-eq-ok (build_volume_mounts o b) _ built in
      let wired = build_volumes-MountsIn b ms vs mounted volumed in
      let held : MountsIn vs c.volume_mounts =
        subst (MountsIn vs) (ap (λ (k : Container). k.volume_mounts) (ok-inj e4)) wired in
      let both : (false ≡ false) × (MountsIn vs c.volume_mounts × Unit) = (refl, (held, tt)) in
      subst
        (λ (k : Job).
          (is_empty k.containers ≡ false)
          × All (λ c. MountsIn k.volumes c.volume_mounts) k.containers)
        (ok-inj e3) both
