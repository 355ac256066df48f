-- ===== src/Command/Plan.antt =====
-- The calls of cmd/main.go as a plan that is followed until a call fails.
pub mod Following
use nifi_operator.Common.{
  ℕ, String, Bool, true, false, Option, none, some, List, [], ◌∷◌, ◌++◌, map, ◌≡◌, refl, ◌==◌,
  present, if◌then◌else◌,
}
use nifi_operator.Common.FilePath
use nifi_operator.Version.{new_app_info, to_string}
use nifi_operator.Command.{
  Flags, Call, add_to_scheme, print_line, new_cert_watcher, get_config, new_manager,
  setup_with_manager, add_watcher, add_healthz_check, add_readyz_check, start, Process, running,
  exited, Environment, ◌>>=◌, attempt, init, watch, manager_options, add_if_present, serve, main,
  process,
}
use nifi_operator.Command.Plan.Following.{
  Follows, finished, stopped, goes_on, Obeys, attempt-Obeys, attempt_last, Follows-append,
}

module _ (env : Environment) where
  open env use {Watcher}

  -- The watcher for a directory, and the call that makes it.
  abbrev pub planned_watcher : (cert_path cert_name cert_key : String) → Option Watcher
  planned_watcher cert_path cert_name cert_key =
      if cert_path == ""
      then none
      else some (
          env.watcher_of (FilePath.join (cert_path ∷ cert_name ∷ []))
            (FilePath.join (cert_path ∷ cert_key ∷ [])))

  abbrev pub watch_calls : (cert_path cert_name cert_key : String) → List (Call Watcher)
  watch_calls cert_path cert_name cert_key =
      if cert_path == ""
      then []
      else new_cert_watcher (FilePath.join (cert_path ∷ cert_name ∷ []))
          (FilePath.join (cert_path ∷ cert_key ∷ []))
        ∷ []

  abbrev pub webhook_watcher : Flags → Option Watcher
  webhook_watcher flags =
      planned_watcher flags.webhook_cert_path flags.webhook_cert_name flags.webhook_cert_key

  abbrev pub metrics_watcher : Flags → Option Watcher
  metrics_watcher flags =
      planned_watcher flags.metrics_cert_path flags.metrics_cert_name flags.metrics_cert_key

  abbrev pub serve_plan : Flags → List (Call Watcher)
  serve_plan flags =
      watch_calls flags.webhook_cert_path flags.webhook_cert_name flags.webhook_cert_key
      ++ (watch_calls flags.metrics_cert_path flags.metrics_cert_name flags.metrics_cert_key
          ++ (get_config
              ∷ new_manager
                  (manager_options env flags (webhook_watcher flags) (metrics_watcher flags))
              ∷ setup_with_manager
              ∷ (map add_watcher (present (metrics_watcher flags))
                  ++ (map add_watcher (present (webhook_watcher flags))
                      ++ (add_healthz_check "healthz" ∷ add_readyz_check "readyz" ∷ start ∷ [])))))

  abbrev pub scheme_calls : List (Call Watcher)
  scheme_calls =
      add_to_scheme "clientgoscheme"
      ∷ add_to_scheme "authv1alpha1"
      ∷ add_to_scheme "nifiv1alpha1"
      ∷ []

  -- The calls after those of `init`, and what the process does behind the last one.
  abbrev pub plan : Flags → List (Call Watcher)
  plan flags = scheme_calls ++ (if flags.show_version then [] else serve_plan flags)

  abbrev pub finish : Flags → List (Call Watcher) → Process Watcher Unit
  finish flags calls =
      if flags.show_version
      then exited
          (calls
            ++ print_line (to_string env.marshal (new_app_info env.build env.go "nifi-operator"))
              ∷ [])
          0
      else running calls tt

  watch-Obeys :
      (f : List (Call Watcher) → Process Watcher Unit) (p : List (Call Watcher))
      (cert_path cert_name cert_key : String)
      (rest : Option Watcher → List (Call Watcher) → Process Watcher Unit)
      → Obeys env f p (rest (planned_watcher cert_path cert_name cert_key))
      → Obeys env f
          (watch_calls cert_path cert_name cert_key ++ p)
          (watch env cert_path cert_name cert_key >>= rest)
  unfolding Obeys attempt watch
  watch-Obeys f p cert_path cert_name cert_key rest h calls = go (cert_path == "") h
    where
      cert_file : String
      cert_file = FilePath.join (cert_path ∷ cert_name ∷ [])

      key_file : String
      key_file = FilePath.join (cert_path ∷ cert_key ∷ [])

      made :
          (b : Bool)
          → env.fails calls (new_cert_watcher cert_file key_file) ≡ b
          → Obeys env f p (rest (some (env.watcher_of cert_file key_file)))
          → Follows env f (new_cert_watcher cert_file key_file ∷ p) calls (
              (((λ calls'.
                      if b
                      then exited (calls' ++ new_cert_watcher cert_file key_file ∷ []) 1
                      else running (calls' ++ new_cert_watcher cert_file key_file ∷ []) tt)
                    >>= λ _ calls'. running calls' (some (env.watcher_of cert_file key_file)))
                  >>= rest)
                calls)
      made true e k = stopped (new_cert_watcher cert_file key_file) p calls e
      made false e k =
          goes_on (new_cert_watcher cert_file key_file) p calls _ e
            (k (calls ++ new_cert_watcher cert_file key_file ∷ []))

      go :
          (b : Bool)
          → Obeys env f p (rest (if b then none else some (env.watcher_of cert_file key_file)))
          → Follows env f
              ((if b then [] else new_cert_watcher cert_file key_file ∷ []) ++ p)
              calls
              (((λ calls'.
                    if b
                    then running calls' none
                    else (attempt env 1 (new_cert_watcher cert_file key_file) >>= λ _ done.
                          running done (some (env.watcher_of cert_file key_file)))
                        calls')
                  >>= rest)
                calls)
      go true k = k calls
      go false k = made (env.fails calls (new_cert_watcher cert_file key_file)) refl k

  add_if_present-Obeys :
      (f : List (Call Watcher) → Process Watcher Unit) (p : List (Call Watcher))
      (w : Option Watcher) (rest : List (Call Watcher) → Process Watcher Unit)
      → Obeys env f p rest
      → Obeys env f (map add_watcher (present w) ++ p) (add_if_present env w >>= λ _. rest)
  unfolding Obeys add_if_present
  add_if_present-Obeys f p none rest h calls = h calls
  add_if_present-Obeys f p (some w) rest h calls =
      attempt-Obeys env f (add_watcher w) p rest h calls

  serve-Obeys :
      (flags : Flags) → Obeys env (λ calls. running calls tt) (serve_plan flags) (serve env flags)
  unfolding Obeys serve
  serve-Obeys flags =
      let f : List (Call Watcher) → Process Watcher Unit = λ calls. running calls tt in
      let options = manager_options env flags (webhook_watcher flags) (metrics_watcher flags) in
      let ready =
        attempt-Obeys env f (add_healthz_check "healthz") _ _
          (attempt-Obeys env f (add_readyz_check "readyz") _ _ (attempt_last env start)) in
      let added =
        add_if_present-Obeys f _ (metrics_watcher flags) _
          (add_if_present-Obeys f _ (webhook_watcher flags) _ ready) in
      let managed = attempt-Obeys env f get_config _ _ (
        attempt-Obeys env f (new_manager options) _ _
          (attempt-Obeys env f setup_with_manager _ _ added)) in
      watch-Obeys f _ flags.webhook_cert_path flags.webhook_cert_name flags.webhook_cert_key _ (
        watch-Obeys f _ flags.metrics_cert_path flags.metrics_cert_name flags.metrics_cert_key _
          managed)

  main-Obeys :
      (flags : Flags)
      → Obeys env
          (finish flags)
          (if flags.show_version then [] else serve_plan flags)
          (main env flags)
  unfolding Obeys main
  main-Obeys flags calls = go flags.show_version
    where
      printed : List (Call Watcher) → Process Watcher Unit
      printed done =
          exited
            (done
              ++ print_line (to_string env.marshal (new_app_info env.build env.go "nifi-operator"))
                ∷ [])
            0

      go :
          (b : Bool)
          → Follows env
              (λ done. if b then printed done else running done tt)
              (if b then [] else serve_plan flags)
              calls
              (if b then printed calls else serve env flags calls)
      go true = finished calls
      go false = serve-Obeys flags calls

  init-Obeys : Obeys env (λ calls. running calls tt) scheme_calls (init env)
  unfolding Obeys init
  init-Obeys =
      let f : List (Call Watcher) → Process Watcher Unit = λ calls. running calls tt in
      attempt-Obeys env f (add_to_scheme "clientgoscheme") _ _ (
        attempt-Obeys env f (add_to_scheme "authv1alpha1") _ _
          (attempt_last env (add_to_scheme "nifiv1alpha1")))

  -- For any flags and any failures of the calls: the process follows its plan, which is to add the
  -- three schemes and then, unless the version is asked for, to make a certificate watcher for each
  -- directory that is given, to read the configuration, to make the manager with the options of the
  -- flags, to set the controller up, to add the watchers, the health check and the readiness check, and
  -- last of all to start. A call that fails is the last one and ends the process with exit code 1,
  -- or 2 in a scheme; if the version is asked for, it is printed and the exit code is 0.
  pub process-Follows :
      (flags : Flags) → Follows env (finish flags) (plan flags) [] (process env flags)
  unfolding process Obeys
  process-Follows flags =
      Follows-append env (finish flags) scheme_calls _ [] (init env []) (main env flags)
        (init-Obeys []) (main-Obeys flags)
