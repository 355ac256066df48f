-- ===== src/Command.antt =====
-- The program itself: cmd/main.go. Its calls of the library controller-runtime are recorded in order;
-- whether a call fails is a parameter.
pub mod Plan
pub mod Servers
pub mod Running
use nifi_operator.Common.{
  ℕ, String, Bool, true, false, Option, none, some, List, [], ◌∷◌, ◌++◌, map, Result, ◌==◌, present,
  if◌then◌else◌,
}
use nifi_operator.Common.FilePath
use nifi_operator.Version.{AppInfo, Build, GoRuntime, new_app_info, to_string}

-- The flags of the command line.
pub record Flags : Type 0 where
  pub metrics_addr : String
  pub metrics_cert_path : String
  pub metrics_cert_name : String
  pub metrics_cert_key : String
  pub webhook_cert_path : String
  pub webhook_cert_name : String
  pub webhook_cert_key : String
  pub enable_leader_election : Bool
  pub probe_addr : String
  pub secure_metrics : Bool
  pub enable_http2 : Bool
  pub show_version : Bool

-- The values of flags that are not given.
abbrev pub default_flags : Flags
default_flags = record {
  metrics_addr = "0";
  metrics_cert_path = "";
  metrics_cert_name = "tls.crt";
  metrics_cert_key = "tls.key";
  webhook_cert_path = "";
  webhook_cert_name = "tls.crt";
  webhook_cert_key = "tls.key";
  enable_leader_election = false;
  probe_addr = ":8081";
  secure_metrics = true;
  enable_http2 = false;
  show_version = false;
}

-- `tls.Config`, with the fields that the options set.
pub record TlsConfig (Watcher : Type 0) : Type 0 where
  pub next_protos : List String
  pub get_certificate : Option Watcher

pub data TlsOption (Watcher : Type 0) : Type 0 where
  disable_http2 : TlsOption Watcher
  certificate_of : Watcher → TlsOption Watcher

pub record MetricsServerOptions (Watcher : Type 0) : Type 0 where
  pub bind_address : String
  pub secure_serving : Bool
  pub tls_opts : List (TlsOption Watcher)
  -- whether `FilterProvider` is `filters.WithAuthenticationAndAuthorization`
  pub filtered : Bool

pub record ManagerOptions (Watcher : Type 0) : Type 0 where
  pub metrics : MetricsServerOptions Watcher
  pub webhook_tls_opts : List (TlsOption Watcher)
  pub health_probe_bind_address : String
  pub leader_election : Bool
  pub leader_election_id : String

-- The calls that may fail, and the line that is printed.
pub data Call (Watcher : Type 0) : Type 0 where
  add_to_scheme : (package_name : String) → Call Watcher
  print_line : (text : String) → Call Watcher
  new_cert_watcher : (cert_file key_file : String) → Call Watcher
  get_config : Call Watcher
  new_manager : ManagerOptions Watcher → Call Watcher
  setup_with_manager : Call Watcher
  add_watcher : Watcher → Call Watcher
  add_healthz_check : (name : String) → Call Watcher
  add_readyz_check : (name : String) → Call Watcher
  start : Call Watcher

-- A process that goes on with a value, or has ended with an exit code; with its calls.
pub data Process (Watcher A : Type 0) : Type 0 where
  running : List (Call Watcher) → A → Process Watcher A
  exited : List (Call Watcher) → (code : ℕ) → Process Watcher A

-- What surrounds the process: whether a call fails after others, and the certificate watchers.
pub record Environment : Type 1 where
  pub Watcher : Type 0
  pub fails : List (Call Watcher) → Call Watcher → Bool
  pub watcher_of : (cert_file key_file : String) → Watcher
  pub marshal : AppInfo → Result String
  pub build : Build
  pub go : GoRuntime

module _ {Watcher V W : Type 0} where
  infixl 5 ◌>>=◌
  abbrev pub ◌>>=◌ :
      (List (Call Watcher) → Process Watcher V)
      → (V → List (Call Watcher) → Process Watcher W)
      → List (Call Watcher)
      → Process Watcher W
  (m >>= next) calls = elim (m calls) [
    | running calls' v ↦ next v calls'
    | exited calls' code ↦ exited calls' code
  ]

-- Effect of one option.
unfoldable pub apply_option :
    {Watcher : Type 0} → TlsOption Watcher → TlsConfig Watcher → TlsConfig Watcher
apply_option disable_http2 c = record c { next_protos = "http/1.1" ∷ [] }
apply_option (certificate_of w) c = record c { get_certificate = some w }

module _ (env : Environment) where
  open env use {Watcher}

  -- A call, with the exit code of its failure.
  unfoldable pub attempt : ℕ → Call Watcher → List (Call Watcher) → Process Watcher Unit
  attempt code c calls =
      let calls' = calls ++ c ∷ [] in
      if env.fails calls c then exited calls' code else running calls' tt

  -- `init`: `utilruntime.Must` panics on an error.
  unfoldable pub init : List (Call Watcher) → Process Watcher Unit
  init = do
    _ ← attempt 2 (add_to_scheme "clientgoscheme")
    _ ← attempt 2 (add_to_scheme "authv1alpha1")
    attempt 2 (add_to_scheme "nifiv1alpha1")

  unfoldable pub tls_options : Flags → List (TlsOption Watcher)
  tls_options flags = if flags.enable_http2 then [] else disable_http2 ∷ []

  -- A certificate watcher, if a directory is given.
  unfoldable pub watch :
      (cert_path cert_name cert_key : String)
      → List (Call Watcher)
      → Process Watcher (Option Watcher)
  watch cert_path cert_name cert_key calls =
      if cert_path == ""
      then running calls none
      else let cert_file = FilePath.join (cert_path ∷ cert_name ∷ []) in
        let key_file = FilePath.join (cert_path ∷ cert_key ∷ []) in
        (attempt 1 (new_cert_watcher cert_file key_file) >>= λ _ calls'.
        running calls' (some (env.watcher_of cert_file key_file)))
          calls

  unfoldable pub metrics_server_options : Flags → Option Watcher → MetricsServerOptions Watcher
  metrics_server_options flags watcher = record {
    bind_address = flags.metrics_addr;
    secure_serving = flags.secure_metrics;
    tls_opts = tls_options flags ++ map certificate_of (present watcher);
    filtered = flags.secure_metrics;
  }

  unfoldable pub manager_options : Flags → Option Watcher → Option Watcher → ManagerOptions Watcher
  manager_options flags webhook_watcher metrics_watcher = record {
    metrics = metrics_server_options flags metrics_watcher;
    webhook_tls_opts = tls_options flags ++ map certificate_of (present webhook_watcher);
    health_probe_bind_address = flags.probe_addr;
    leader_election = flags.enable_leader_election;
    leader_election_id = "e7c3517a.kubedoop.dev";
  }

  -- `mgr.Add`, if there is a watcher.
  unfoldable pub add_if_present : Option Watcher → List (Call Watcher) → Process Watcher Unit
  add_if_present none calls = running calls tt
  add_if_present (some w) calls = attempt 1 (add_watcher w) calls

  unfoldable pub serve : Flags → List (Call Watcher) → Process Watcher Unit
  serve flags = do
    webhook_watcher ← watch flags.webhook_cert_path flags.webhook_cert_name flags.webhook_cert_key
    metrics_watcher ← watch flags.metrics_cert_path flags.metrics_cert_name flags.metrics_cert_key
    _ ← attempt 1 get_config
    _ ← attempt 1 (new_manager (manager_options flags webhook_watcher metrics_watcher))
    _ ← attempt 1 setup_with_manager
    _ ← add_if_present metrics_watcher
    _ ← add_if_present webhook_watcher
    _ ← attempt 1 (add_healthz_check "healthz")
    _ ← attempt 1 (add_readyz_check "readyz")
    attempt 1 start

  unfoldable pub main : Flags → List (Call Watcher) → Process Watcher Unit
  main flags calls =
      if flags.show_version
      then (let imported_version =
            to_string env.marshal (new_app_info env.build env.go "nifi-operator") in
          exited (calls ++ print_line imported_version ∷ []) 0)
      else serve flags calls

  -- The whole process, which starts with `init`.
  unfoldable pub process : Flags → Process Watcher Unit
  process flags = (init >>= λ _. main flags) []
