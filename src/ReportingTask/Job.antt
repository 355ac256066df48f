-- ===== src/ReportingTask/Job.antt =====
-- The Job that creates the reporting task: internal/controller/reporting_task/job.go.
pub mod Wiring
use Prim.Native.Char.{code}
use nifi_operator.Common.{
  ℕ, String, ◌<>◌, Bool, true, false, ◌&&◌, not, Option, none, some, List, [], ◌∷◌, ◌++◌, join,
  nat_eqb, Result, ok, wrap, ◌>>=◌, ◌==◌, if◌then◌else◌,
}
use nifi_operator.Common.Decimal.{print}
use nifi_operator.Common.FilePath
use nifi_operator.Kube.{Volume, VolumeMount, Container}
use nifi_operator.OperatorGo.{OperatorGo, Image}
use nifi_operator.Security.{nifi_admin_username}
use nifi_operator.Security.Authentication
use nifi_operator.Security.Authentication.{Authentication}
use nifi_operator.ReportingTask.{reporting_task_container_name, reporting_task_fqdn_service_name}

abbrev pub reporting_task_cert_volume_name : String
reporting_task_cert_volume_name = "tls"

abbrev pub reporting_task_cert_volume_mount : String
reporting_task_cert_volume_mount = "/kubedoop/cert"

abbrev pub reporting_task_script_path : String
reporting_task_script_path = "/kubedoop/python/create_nifi_reporting_task.py"

-- `strings.ReplaceAll(s, ".", "-")`
dashes_for_dots : String → String
dashes_for_dots String.[] = ""
dashes_for_dots (String.◌∷◌ c s) =
    let rest = dashes_for_dots s in if nat_eqb (code c) b'.' then "-" <> rest else String.◌∷◌ c rest

pub record ReportingTaskJobBuilder : Type 0 where
  pub name : String
  pub image : Image
  pub cluster_name : String
  pub namespace : String
  pub https_port : ℕ
  pub metrics_port : ℕ
  pub authentication : Option Authentication
  pub tls_enabled : Bool
  pub tls_secret_class : String

unfoldable pub new_reporting_task_job_builder :
    String
    → String
    → Image
    → ℕ
    → ℕ
    → Option Authentication
    → Bool
    → String
    → ReportingTaskJobBuilder
unfolding dashes_for_dots
new_reporting_task_job_builder namespace cluster_name image https_port metrics_port authentication
      tls_enabled tls_secret_class =
    record {
      name = cluster_name <> "-create-reporting-task-" <> dashes_for_dots image.product_version;
      image = image;
      cluster_name = cluster_name;
      namespace = namespace;
      https_port = https_port;
      metrics_port = metrics_port;
      authentication = authentication;
      tls_enabled = tls_enabled;
      tls_secret_class = tls_secret_class;
    }

-- `NewReportingTaskJobReconciler`: a reconciler is its builder here.
abbrev pub new_reporting_task_job_reconciler :
    String
    → String
    → Image
    → ℕ
    → ℕ
    → Option Authentication
    → Bool
    → String
    → ReportingTaskJobBuilder
new_reporting_task_job_reconciler namespace cluster_name image https_port metrics_port
      authentication tls_enabled tls_secret_class =
    new_reporting_task_job_builder namespace cluster_name image https_port metrics_port
      authentication tls_enabled tls_secret_class

-- `nifiConnectURL`
unfoldable pub nifi_connect_url : ReportingTaskJobBuilder → String
nifi_connect_url b =
    let scheme : String = if b.tls_enabled then "https://" else "http://" in
    scheme
    <> reporting_task_fqdn_service_name b.cluster_name b.namespace
    <> ":"
    <> print b.https_port
    <> "/nifi-api"

-- TLS with a secret class.
abbrev pub has_cert : ReportingTaskJobBuilder → Bool
has_cert b = b.tls_enabled && not (b.tls_secret_class == "")

pub record Job : Type 0 where
  pub name : String
  pub backoff_limit : ℕ
  pub ttl_seconds_after_finished : ℕ
  pub containers : List Container
  pub volumes : List Volume
  pub restart_policy : String
  pub run_as_user : ℕ
  pub run_as_group : ℕ
  pub fs_group : ℕ
  pub image_pull_secrets : List String

module _ (o : OperatorGo) where
  unfoldable pub get_admin_password_file : String
  get_admin_password_file =
      let user_mount_dir = FilePath.join (o.kubedoop_root ∷ "users" ∷ []) in
      FilePath.join (user_mount_dir ∷ nifi_admin_username ∷ [])

  unfoldable pub job_args : ReportingTaskJobBuilder → List String
  job_args b =
      (reporting_task_script_path
        ∷ ("-n " <> nifi_connect_url b)
        ∷ ("-u " <> nifi_admin_username)
        ∷ [])
      ++ elim b.authentication [
        | none ↦ []
        | some _ ↦ ("-p \"$(cat " <> get_admin_password_file <> ")\"") ∷ []
      ]
      ++ (("-v " <> b.image.product_version) ∷ ("-m " <> print b.metrics_port) ∷ [])
      ++ (if has_cert b
          then ("-c " <> FilePath.join (reporting_task_cert_volume_mount ∷ "ca.crt" ∷ [])) ∷ []
          else [])

  unfoldable pub cert_volume_mounts : ReportingTaskJobBuilder → List VolumeMount
  cert_volume_mounts b =
      if has_cert b
      then record {
        name = reporting_task_cert_volume_name;
        mount_path = reporting_task_cert_volume_mount;
        sub_path = "";
        read_only = false;
      }
        ∷ []
      else []

  unfoldable pub cert_volumes : ReportingTaskJobBuilder → List Volume
  cert_volumes b =
      if has_cert b
      then o.secret_operator_volume reporting_task_cert_volume_name b.tls_secret_class none ∷ []
      else []

  unfoldable pub build_volume_mounts : ReportingTaskJobBuilder → Result (List VolumeMount)
  build_volume_mounts b = elim b.authentication [
    | none ↦ ok (cert_volume_mounts b)
    | some a ↦
        Authentication.get_volume_mounts o a >>= λ mounts. ok (cert_volume_mounts b ++ mounts)
  ]

  unfoldable pub build_volumes : ReportingTaskJobBuilder → Result (List Volume)
  build_volumes b = elim b.authentication [
    | none ↦ ok (cert_volumes b)
    | some a ↦ Authentication.get_volumes o a >>= λ volumes. ok (cert_volumes b ++ volumes)
  ]

  unfoldable pub build_container : String → ReportingTaskJobBuilder → Result Container
  build_container image_tag b = do
    mounts ← build_volume_mounts b
    ok (record {
      name = reporting_task_container_name;
      image = image_tag;
      image_pull_policy = "";
      command = "sh" ∷ "-c" ∷ [];
      args = join " " (job_args b) ∷ [];
      env = [];
      volume_mounts = mounts;
      resources = record {
        cpu_request = "100m";
        memory_request = "512Mi";
        cpu_limit = "400m";
        memory_limit = "512Mi";
      };
    })

  unfoldable pub build : ReportingTaskJobBuilder → Result Job
  build b = do
    image_tag ← wrap "failed to get image with tag: " (o.get_image_with_tag b.image)
    container ← build_container image_tag b
    volumes ← build_volumes b
    ok (record {
      name = b.name;
      backoff_limit = 100;
      ttl_seconds_after_finished = 120;
      containers = container ∷ [];
      volumes = volumes;
      restart_policy = "OnFailure";
      run_as_user = 1000;
      run_as_group = 0;
      fs_group = 1000;
      image_pull_secrets =
          if b.image.pull_secret_name == "" then [] else b.image.pull_secret_name ∷ [];
    })
