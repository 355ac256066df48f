-- ===== src/Tests/CommandTests.antt =====
-- Runs of cmd/main.go.
use nifi_operator.Common.{
  List, String, ◌<>◌, Bool, true, false, [], ◌∷◌, ◌++◌, present, ◌≡◌, refl, ok, All,
}
use nifi_operator.Common.FilePath
use nifi_operator.Version.{default_build, new_app_info, to_string}
use nifi_operator.Command
use nifi_operator.Command.{
  Flags, default_flags, Call, add_healthz_check, Process, running, exited, Environment, process,
}
use nifi_operator.Command.Plan.Following.{Follows}
use nifi_operator.Command.Plan.{plan, finish, webhook_watcher, metrics_watcher, process-Follows}
use nifi_operator.Command.Running.{Made, process_running}
use nifi_operator.Command.Servers.{MakesSecured, calls_of, process-MakesSecured}

-- A health check that is refused.
abbrev refuses : Call (String × String) → Bool
refuses (add_healthz_check _) = true
refuses _ = false

abbrev environment : Environment
environment = record {
  Watcher = String × String;
  fails = λ calls c. refuses c;
  watcher_of = λ cert key. (cert, key);
  marshal = λ a. ok (a.name <> " " <> a.app_version <> " " <> a.platform);
  build = default_build;
  go = record { version = "go1.24"; compiler = "gc"; goos = "linux"; goarch = "amd64" };
}

-- A certificate for the webhook server.
abbrev flags : Flags
flags = record default_flags { webhook_cert_path = "/certs/" }

process_test :
    process environment flags
    ≡ exited
        (Command.add_to_scheme "clientgoscheme"
          ∷ Command.add_to_scheme "authv1alpha1"
          ∷ Command.add_to_scheme "nifiv1alpha1"
          ∷ Command.new_cert_watcher "/certs/tls.crt" "/certs/tls.key"
          ∷ Command.get_config
          ∷ Command.new_manager (record {
            metrics = record {
              bind_address = "0";
              secure_serving = true;
              tls_opts = Command.disable_http2 ∷ [];
              filtered = true;
            };
            webhook_tls_opts =
                Command.disable_http2
                ∷ Command.certificate_of ("/certs/tls.crt", "/certs/tls.key")
                ∷ [];
            health_probe_bind_address = ":8081";
            leader_election = false;
            leader_election_id = "e7c3517a.kubedoop.dev";
          })
          ∷ Command.setup_with_manager
          ∷ Command.add_watcher ("/certs/tls.crt", "/certs/tls.key")
          ∷ add_healthz_check "healthz"
          ∷ [])
        1
unfolding process Command.init Command.main Command.serve Command.attempt Command.watch
    Command.add_if_present Command.manager_options Command.metrics_server_options
    Command.tls_options FilePath.join
process_test = refl

version_test :
    to_string environment.marshal (new_app_info default_build environment.go "nifi-operator")
    ≡ "nifi-operator 0.0.0-dev linux/amd64"
unfolding to_string new_app_info
version_test = refl

process-Follows_example :
    Follows environment
      (finish environment flags)
      (plan environment flags)
      []
      (process environment flags)
process-Follows_example = process-Follows environment flags

process-MakesSecured_example :
    All (MakesSecured environment flags) (calls_of (process environment flags))
process-MakesSecured_example = process-MakesSecured environment flags

-- The same without refusals.
abbrev willing : Environment
willing = record {
  Watcher = String × String;
  fails = λ calls c. false;
  watcher_of = λ cert key. (cert, key);
  marshal = λ a. ok a.name;
  build = default_build;
  go = record { version = "go1.24"; compiler = "gc"; goos = "linux"; goarch = "amd64" };
}

willing_calls : (done : List (Call (String × String))) × (process willing flags ≡ running done tt)
unfolding process Command.init Command.main Command.serve Command.attempt Command.watch
    Command.add_if_present Command.manager_options Command.metrics_server_options
    Command.tls_options FilePath.join
willing_calls = (calls_of (process willing flags), refl)

process_running_example :
    (flags.show_version ≡ false)
    × ((before : List (Call (String × String))) × (willing_calls.0 ≡ before ++ Command.start ∷ [])
        × All
            (λ (w : String × String). Made willing (Command.add_watcher w) before)
            (present (metrics_watcher willing flags))
        × All
            (λ (w : String × String). Made willing (Command.add_watcher w) before)
            (present (webhook_watcher willing flags)))
process_running_example = process_running willing flags willing_calls.0 willing_calls.1
