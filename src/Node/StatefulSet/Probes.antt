-- ===== src/Node/StatefulSet/Probes.antt =====
-- That the probes of internal/controller/node/statefulset.go open the port that nifi.properties of
-- internal/controller/node/configmap.go makes NiFi listen on.
use nifi_operator.Common.{
  String, ◌<>◌, some, ◌≡◌, refl, sym, ap, inl, inr, ok, ok-inj, >>=-eq-ok, is_some, Bool-cases,
}
use nifi_operator.Common.Decimal.{print}
use nifi_operator.OperatorGo.{OperatorGo}
use nifi_operator.Node.{ports, find_port, get_port, NifiConfigMapBuilder}
use nifi_operator.Node.Properties.Build.{nifi_entries}
use nifi_operator.Node.Properties.Entries.{last_value}
use nifi_operator.Node.Properties.Modes.{nifi_entries_guarded}
use nifi_operator.Node.StatefulSet.{
  StatefulSetBuilder, Probe, NodeContainer, get_container_template, probe, probe_port,
  setup_main_container_probe,
}
use nifi_operator.Node.StatefulSet.Build.{get_main_container}

probe_port-listens :
    (o : OperatorGo) (namespace : String) (m : NifiConfigMapBuilder)
    → let port = probe_port m.cluster_config in
      last_value ("nifi.web." <> port <> ".port") (nifi_entries o namespace m)
      ≡ some (print (find_port port ports))
unfolding probe_port find_port get_port
probe_port-listens o namespace m =
    let (_, _, _, _, _, _, https, http, _, _) = nifi_entries_guarded o namespace m in
    elim (Bool-cases (is_some m.cluster_config.tls)) [
      | inl e ↦ rw e (rw e at https)
      | inr e ↦ rw e http
    ]

-- Of a pod and a ConfigMap for one cluster configuration: if NiFi's container is built, it has a
-- liveness probe and a startup probe, both open the same port, and the last entry of nifi.properties
-- for that port, nifi.web.http.port or nifi.web.https.port, is the number that the container's port
-- of this name has.
pub get_main_container-probes :
    (o : OperatorGo) (namespace : String) (b : StatefulSetBuilder) (m : NifiConfigMapBuilder)
    (c : NodeContainer)
    → m.cluster_config ≡ b.cluster_config
    → get_main_container o b ≡ ok c
    → (p q : Probe) × (c.liveness_probe ≡ some p)
      × (c.startup_probe ≡ some q)
      × (p.tcp_socket_port ≡ q.tcp_socket_port)
      × (last_value ("nifi.web." <> p.tcp_socket_port <> ".port") (nifi_entries o namespace m)
          ≡ some (print (find_port p.tcp_socket_port c.ports)))
unfolding get_main_container setup_main_container_probe probe
get_main_container-probes o namespace b m c same e =
    let (t, _, last) = >>=-eq-ok (get_container_template o b.role_name b) _ e in
    let port = probe_port b.cluster_config in
    (
      probe 30 port,
      probe 120 port,
      sym (ap (λ k. k.liveness_probe) (ok-inj last)),
      sym (ap (λ k. k.startup_probe) (ok-inj last)),
      refl,
      rw (← ap (λ k. k.ports) (ok-inj last), ← same) (probe_port-listens o namespace m),
    )
