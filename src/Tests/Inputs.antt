-- ===== src/Tests/Inputs.antt =====
-- A NifiCluster with git-sync, TLS and static users.
use nifi_operator.Common.{String, true, false, Option, none, some, [], ◌∷◌, pos}
use nifi_operator.Api.{
  GitSyncSpec, AuthenticationSpec, ClusterConfigSpec, ConfigSpec, RoleGroupSpec, NodesSpec,
}
use nifi_operator.OperatorGo.{Image, GetResult, found, not_found}
use nifi_operator.Security.{AuthenticationProvider, static_user}
use nifi_operator.Security.Authentication.{Authentication, static_authenticator}
use nifi_operator.Common.{◌==◌, if◌then◌else◌, ok}
use nifi_operator.Node.{NifiConfigMapBuilder}
use nifi_operator.Node.Role.{RoleReconciler}
use nifi_operator.Cluster.{ClusterReconciler}

abbrev pub flows : GitSyncSpec
flows = record {
  repo = "https://example.com/flows.git";
  branch = "";
  credentials_secret = "git";
  depth = pos 0;
  git_folder = "/nar";
  git_sync_config = ("--rev", "abc") ∷ ("--repo", "other") ∷ [];
  wait = "5s";
}

abbrev pub scripts : GitSyncSpec
scripts = record flows { repo = "https://example.com/scripts.git"; credentials_secret = "" }

abbrev pub static_spec : AuthenticationSpec
static_spec = record { authentication_class = "users"; oidc = none }

abbrev pub oidc_spec : AuthenticationSpec
oidc_spec = record {
  authentication_class = "keycloak";
  oidc = some (record { client_credentials_secret = "client"; extra_scopes = "groups" ∷ [] });
}

abbrev pub static_provider : AuthenticationProvider
static_provider = record {
  oidc = none;
  ldap = none;
  static_user = some (record { user_credentials_secret_name = "admin-user" });
}

abbrev pub oidc_provider : AuthenticationProvider
oidc_provider = record {
  oidc = some (record {
    hostname = "keycloak";
    port = pos 8080;
    root_path = "/realms/kubedoop";
    scopes = "openid" ∷ [];
    principal_claim = "email";
  });
  ldap = none;
  static_user = none;
}

-- The two classes that the API server has.
abbrev pub classes : String → GetResult (Option AuthenticationProvider)
classes name =
    if name == "users"
    then found (some static_provider)
    else if name == "keycloak"
    then found (some oidc_provider)
    else not_found

abbrev pub static_authentication : Authentication
static_authentication = record {
  authenticators =
      (
        static_user,
        static_authenticator (record {
          cluster_name = "nifi";
          provider = record { user_credentials_secret_name = "admin-user" };
        })
            ∷ [],
      )
      ∷ [];
}

abbrev pub cluster_config : ClusterConfigSpec
cluster_config = record {
  authentication = some (static_spec ∷ []);
  create_reporting_task_job = some (record { enable = true; pod_overrides = none });
  extra_volumes = none;
  sensitive_properties =
      some (record {
        algorithm = "NIFI_PBKDF2_AES_GCM_256";
        auto_generate = true;
        key_secret = "key";
      });
  custom_components_git_sync = flows ∷ scripts ∷ [];
  tls = some (record { server_secret_class = "tls" });
  listener_class = "cluster-internal";
  vector_aggregator_config_map_name = "";
  zookeeper_config_map_name = some "zookeeper";
}

abbrev pub image : Image
image = record {
  custom = "";
  repo = "quay.io/zncdatadev";
  pull_policy = "IfNotPresent";
  kubedoop_version = "0.0.0";
  product_version = "1.28.1";
  pull_secret_name = "";
}

abbrev pub config : ConfigSpec
config = record { role_group_config = some (record { graceful_shutdown_timeout = "30s" }) }

abbrev pub config_map_builder : NifiConfigMapBuilder
config_map_builder = record {
  cluster_config = cluster_config;
  image = some image;
  cluster_name = "nifi";
  role_name = "node";
  role_group_name = "default";
  config = some config;
  authentication = some static_authentication;
}

abbrev pub role_group : RoleGroupSpec Unit
role_group = record {
  replicas = some (pos 2);
  config = none;
  overrides = none;
  jvm_argument_overrides = none;
}

abbrev pub nodes : NodesSpec Unit
nodes = record {
  role_groups = ("default", role_group) ∷ ("spare", record role_group { replicas = none }) ∷ [];
  role_config = none;
  config = some config;
  overrides = none;
  jvm_argument_overrides = none;
}

abbrev pub role : RoleReconciler Unit
role = record {
  get = classes;
  merge_config = λ base own. ok base;
  merge_overrides = λ base own. ok base;
  external_unstable = "external-unstable";
  cluster_stopped = false;
  cluster_config = some cluster_config;
  cluster_name = "nifi";
  role_name = "node";
  image = image;
  spec = some nodes;
}

abbrev pub cluster : ClusterReconciler Unit
cluster = record {
  role = role;
  get = classes;
  namespace = "data";
  cluster_name = "nifi";
  build_version = "0.0.0";
  is_stopped = λ c. elim c [ none ↦ false | some x ↦ x.stopped ];
  spec = record {
    cluster_config = some cluster_config;
    cluster_operation = some (record { reconciliation_paused = false; stopped = true });
    image = some (record {
      custom = "";
      repo = "quay.io/zncdatadev";
      kubedoop_version = "";
      product_version = "1.28.1";
      pull_policy = some "IfNotPresent";
      pull_secret_name = "";
    });
    nodes = some nodes;
  };
}
