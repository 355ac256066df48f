-- ===== src/Node/Properties.antt =====
-- The entries of nifi.properties: the calls of `properties.Add` in getNifiProperties of
-- internal/controller/node/configmap.go, in their order, as lists of keys and values.
pub mod Build
pub mod Entries
pub mod Modes
use nifi_operator.Common.{String, List, [], ◌∷◌, is_some, if◌then◌else◌}
use nifi_operator.Common.Decimal.{print}
use nifi_operator.Common.FilePath
use nifi_operator.Api.{ClusterConfigSpec}
use nifi_operator.OperatorGo.{OperatorGo}
use nifi_operator.Node.{
  get_port, nifi_root, nifi_config_dir, nifi_server_tls_dir, repository_mount_path,
  use_zookeeper_state_provider,
}

abbrev default_server_tls_key_password : String
default_server_tls_key_password = "changeit"

abbrev default_server_tls_store_password : String
default_server_tls_store_password = "changeit"

unfoldable pub state_provider : ClusterConfigSpec → String
state_provider c = if use_zookeeper_state_provider c then "zk-provider" else "kubernetes-provider"

module _ (o : OperatorGo) where
  unfoldable pub directory_entries : List (String × String)
  directory_entries =
      ("nifi.templates.directory", FilePath.join (nifi_config_dir o ∷ "templates" ∷ []))
      ∷ ("nifi.ui.banner.text", "Welcome to Nifi")
      ∷ ("nifi.ui.autorefresh.interval", "30 sec")
      ∷ ("nifi.nar.library.directory", FilePath.join (nifi_root o ∷ "lib" ∷ []))
      ∷ ("nifi.nar.library.autoload.directory", FilePath.join (nifi_root o ∷ "extensions" ∷ []))
      ∷ ("nifi.nar.working.directory", FilePath.join (nifi_root o ∷ "work" ∷ "nar" ∷ []))
      ∷ (
        "nifi.documentation.working.directory",
        FilePath.join (nifi_root o ∷ "work" ∷ "docs" ∷ "components" ∷ []),
      )
      ∷ []

  unfoldable pub state_files_entries : List (String × String)
  state_files_entries =
      (
        "nifi.state.management.configuration.file",
        FilePath.join (nifi_config_dir o ∷ "state-management.xml" ∷ []),
      )
      ∷ ("nifi.state.management.provider.local", "local-provider")
      ∷ []

  unfoldable pub flow_entries : List (String × String)
  flow_entries =
      ("nifi.state.management.embedded.zookeeper.start", "false")
      ∷ ("nifi.database.directory", repository_mount_path o "database")
      ∷ ("nifi.h2.url.append", ";LOCK_TIMEOUT=25000;WRITE_DELAY=0;AUTO_SERVER=FALSE")
      ∷ ("nifi.flow.configuration.file", FilePath.join (nifi_config_dir o ∷ "flow.json.gz" ∷ []))
      ∷ ("nifi.flow.configuration.archive.enabled", "true")
      ∷ ("nifi.flow.configuration.archive.dir", FilePath.join (nifi_config_dir o ∷ "archive" ∷ []))
      ∷ ("nifi.flow.configuration.archive.max.time", "")
      ∷ ("nifi.flow.configuration.archive.max.count", "")
      ∷ ("nifi.flowcontroller.autoResumeState", "true")
      ∷ ("nifi.flowcontroller.graceful.shutdown.period", "10 sec")
      ∷ ("nifi.flowservice.writedelay.interval", "500 ms")
      ∷ []

  unfoldable pub flowfile_entries : List (String × String)
  flowfile_entries =
      (
        "nifi.flowfile.repository.implementation",
        "org.apache.nifi.controller.repository.WriteAheadFlowFileRepository",
      )
      ∷ (
        "nifi.flowfile.repository.wal.implementation",
        "org.apache.nifi.wali.SequentialAccessWriteAheadLog",
      )
      ∷ ("nifi.flowfile.repository.directory", repository_mount_path o "flowfile")
      ∷ ("nifi.flowfile.repository.checkpoint.interval", "20 sec")
      ∷ ("nifi.flowfile.repository.always.sync", "false")
      ∷ ("nifi.flowfile.repository.retain.orphaned.flowfiles", "true")
      ∷ ("nifi.swap.manager.implementation", "org.apache.nifi.controller.FileSystemSwapManager")
      ∷ ("nifi.queue.swap.threshold", "20000")
      ∷ []

  unfoldable pub content_entries : List (String × String)
  content_entries =
      (
        "nifi.content.repository.implementation",
        "org.apache.nifi.controller.repository.FileSystemRepository",
      )
      ∷ ("nifi.content.claim.max.appendable.size", "1 MB")
      ∷ ("nifi.content.repository.directory.default", repository_mount_path o "content")
      ∷ ("nifi.content.repository.archive.max.retention.period", "")
      ∷ ("nifi.content.repository.archive.max.usage.percentage", "50%")
      ∷ ("nifi.content.repository.archive.enabled", "true")
      ∷ ("nifi.content.repository.always.sync", "false")
      ∷ ("nifi.content.viewer.url", "../nifi/content-viewer")
      ∷ []

  unfoldable pub provenance_entries : List (String × String)
  provenance_entries =
      (
        "nifi.provenance.repository.implementation",
        "org.apache.nifi.provenance.WriteAheadProvenanceRepository",
      )
      ∷ ("nifi.provenance.repository.directory.default", repository_mount_path o "provenance")
      ∷ ("nifi.provenance.repository.max.storage.time", "")
      ∷ ("nifi.provenance.repository.rollover.time", "10 min")
      ∷ ("nifi.provenance.repository.rollover.size", "100 MB")
      ∷ ("nifi.provenance.repository.query.threads", "2")
      ∷ ("nifi.provenance.repository.index.threads", "2")
      ∷ ("nifi.provenance.repository.compress.on.rollover", "true")
      ∷ ("nifi.provenance.repository.always.sync", "false")
      ∷ (
        "nifi.provenance.repository.indexed.fields",
        "EventType, FlowFileUUID, Filename, ProcessorID, Relationship",
      )
      ∷ ("nifi.provenance.repository.indexed.attributes", "")
      ∷ ("nifi.provenance.repository.index.shard.size", "500 MB")
      ∷ ("nifi.provenance.repository.max.attribute.length", "65536")
      ∷ ("nifi.provenance.repository.concurrent.merge.threads", "2")
      ∷ ("nifi.provenance.repository.buffer.size", "100000")
      ∷ (
        "nifi.components.status.repository.implementation",
        "org.apache.nifi.controller.status.history.VolatileComponentStatusRepository",
      )
      ∷ ("nifi.components.status.repository.buffer.size", "14400")
      ∷ ("nifi.components.status.snapshot.frequency", "1 min")
      ∷ []

  unfoldable pub status_entries : List (String × String)
  status_entries =
      ("nifi.status.repository.questdb.persist.node.days", "14")
      ∷ ("nifi.status.repository.questdb.persist.component.days", "3")
      ∷ ("nifi.status.repository.questdb.persist.location", repository_mount_path o "status")
      ∷ []

  unfoldable pub tls_entries : List (String × String)
  tls_entries =
      ("nifi.web.https.host", "")
      ∷ ("nifi.web.https.port", print (get_port "https"))
      ∷ ("nifi.web.https.network.interface.default", "")
      ∷ ("nifi.security.keystore", FilePath.join (nifi_server_tls_dir o ∷ "keystore.p12" ∷ []))
      ∷ ("nifi.security.keystoreType", "PKCS12")
      ∷ ("nifi.security.keystorePasswd", default_server_tls_key_password)
      ∷ ("nifi.security.truststore", FilePath.join (nifi_server_tls_dir o ∷ "truststore.p12" ∷ []))
      ∷ ("nifi.security.truststoreType", "PKCS12")
      ∷ ("nifi.security.truststorePasswd", default_server_tls_store_password)
      ∷ []

  unfoldable pub web_entries : List (String × String)
  web_entries =
      ("nifi.web.http.host", "")
      ∷ ("nifi.web.http.port", print (get_port "http"))
      ∷ ("nifi.web.http.network.interface.default", "")
      ∷ ("nifi.web.jetty.working.directory", FilePath.join (nifi_root o ∷ "work" ∷ "jetty" ∷ []))
      ∷ ("nifi.web.jetty.threads", "200")
      ∷ ("nifi.web.max.header.size", "16 KB")
      ∷ ("nifi.web.proxy.context.path", "")
      ∷ []

  unfoldable pub security_entries : List (String × String)
  security_entries =
      ("nifi.administrative.yield.duration", "30 sec")
      ∷ (
        "nifi.authorizer.configuration.file",
        FilePath.join (nifi_config_dir o ∷ "authorizers.xml" ∷ []),
      )
      ∷ (
        "nifi.login.identity.provider.configuration.file",
        FilePath.join (nifi_config_dir o ∷ "login-identity-providers.xml" ∷ []),
      )
      ∷ ("nifi.security.user.login.identity.provider", "login-identity-provider")
      ∷ ("nifi.security.user.authorizer", "authorizer")
      ∷ ("nifi.security.allow.anonymous.authentication", "false")
      ∷ []

unfoldable pub cluster_entries : ClusterConfigSpec → List (String × String)
cluster_entries c =
    ("nifi.cluster.protocol.is.secure", if is_some c.tls then "true" else "false")
    ∷ ("nifi.cluster.node.protocol.port", print (get_port "protocol"))
    ∷ ("nifi.cluster.flow.election.max.wait.time", "1 min")
    ∷ ("nifi.cluster.flow.election.max.candidates", "")
    ∷ ("nifi.cluster.is.node", "true")
    ∷ ("nifi.cluster.node.address", "{{ getenv \"NODE_ADDRESS\" }}")
    ∷ (if use_zookeeper_state_provider c
        then ("nifi.cluster.leader.election.implementation", "CuratorLeaderElectionManager")
          ∷ ("nifi.zookeeper.connect.string", "{{ getenv \"ZOOKEEPER_HOSTS\" }}")
          ∷ ("nifi.zookeeper.root.node", "{{ getenv \"ZOOKEEPER_CHROOT\" }}")
          ∷ []
        else ("nifi.cluster.leader.election.implementation", "KubernetesLeaderElectionManager")
          ∷ (
            "nifi.cluster.leader.election.kubernetes.lease.prefix",
            "{{ getenv \"STACKLET_NAME\" }}",
          )
          ∷ [])
