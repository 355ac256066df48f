-- ===== src/Command/Servers.antt =====
-- How cmd/main.go secures the metrics server and the webhook server.
use nifi_operator.Common.{
  String, Bool, true, false, Option, none, some, List, [], ◌∷◌, ◌++◌, map, ◌≡◌, refl, present, All,
  All-append, ◌==◌, if◌then◌else◌,
}
use nifi_operator.Common.FilePath
use nifi_operator.Version.{new_app_info, to_string}
use nifi_operator.Command.{
  Flags, TlsConfig, TlsOption, disable_http2, certificate_of, Call, add_to_scheme, print_line,
  new_cert_watcher, get_config, new_manager, setup_with_manager, add_watcher, add_healthz_check,
  add_readyz_check, start, Process, running, exited, Environment, apply_option, tls_options,
  metrics_server_options, manager_options, process,
}
use nifi_operator.Command.Plan.Following.{Follows, finished, stopped, goes_on}
use nifi_operator.Command.Plan.{
  webhook_watcher, metrics_watcher, watch_calls, serve_plan, plan, finish, scheme_calls,
  process-Follows,
}

abbrev pub calls_of : {Watcher : Type 0} → Process Watcher Unit → List (Call Watcher)
calls_of (running calls _) = calls
calls_of (exited calls _) = calls

-- A configuration after the options, which are applied in order.
abbrev pub configured :
    {Watcher : Type 0} → List (TlsOption Watcher) → TlsConfig Watcher → TlsConfig Watcher
unfolding apply_option
configured [] c = c
configured (t ∷ ts) c = configured ts (apply_option t c)

module _ (env : Environment) (flags : Flags) where
  open env use {Watcher}

  -- A server that speaks HTTP/2 only if the flag is set, and whose certificate is that of the watcher,
  -- if there is one.
  abbrev pub IsSecured : Option Watcher → List (TlsOption Watcher) → Type 0
  IsSecured watcher opts =
      (c : TlsConfig Watcher)
      → ((configured opts c).next_protos
          ≡ (if flags.enable_http2 then c.next_protos else "http/1.1" ∷ []))
        × ((configured opts c).get_certificate
            ≡ elim watcher [ none ↦ c.get_certificate | some w ↦ some w ])

  -- The manager is made with two such servers, and with a filter on an encrypted metrics endpoint.
  abbrev pub MakesSecured : Call Watcher → Type 0
  MakesSecured (new_manager opts) =
      IsSecured (metrics_watcher env flags) opts.metrics.tls_opts
      × IsSecured (webhook_watcher env flags) opts.webhook_tls_opts
      × (opts.metrics.filtered ≡ opts.metrics.secure_serving)
  MakesSecured (add_to_scheme _) = Unit
  MakesSecured (print_line _) = Unit
  MakesSecured (new_cert_watcher _ _) = Unit
  MakesSecured get_config = Unit
  MakesSecured setup_with_manager = Unit
  MakesSecured (add_watcher _) = Unit
  MakesSecured (add_healthz_check _) = Unit
  MakesSecured (add_readyz_check _) = Unit
  MakesSecured start = Unit

  options-IsSecured :
      (watcher : Option Watcher)
      → IsSecured watcher (tls_options env flags ++ map certificate_of (present watcher))
  unfolding tls_options configured apply_option
  options-IsSecured watcher c = go flags.enable_http2 watcher
    where
      go :
          (b : Bool) (w : Option Watcher)
          → let opts = (if b then [] else disable_http2 ∷ []) ++ map certificate_of (present w) in
            ((configured opts c).next_protos ≡ (if b then c.next_protos else "http/1.1" ∷ []))
            × ((configured opts c).get_certificate
                ≡ elim w [ none ↦ c.get_certificate | some w' ↦ some w' ])
      go true none = (refl, refl)
      go true (some w) = (refl, refl)
      go false none = (refl, refl)
      go false (some w) = (refl, refl)

  Follows-All :
      {P : Call Watcher → Type 0} (f : List (Call Watcher) → Process Watcher Unit)
      (p calls : List (Call Watcher)) (out : Process Watcher Unit)
      → ((done : List (Call Watcher)) → All P done → All P (calls_of (f done)))
      → All P calls
      → All P p
      → Follows env f p calls out
      → All P (calls_of out)
  Follows-All f p calls out h k m (finished done) = h done k
  Follows-All {P} f p calls out h k m (stopped c q done e) = All-append P done (c ∷ []) k (m.0, tt)
  Follows-All {P} f p calls out h k m (goes_on c q done out' e more) =
      Follows-All {P = P} f q (done ++ c ∷ []) out' h (All-append P done (c ∷ []) k (m.0, tt)) m.1
        more

  watches-Secured :
      (cert_path cert_name cert_key : String)
      → All MakesSecured (watch_calls env cert_path cert_name cert_key)
  watches-Secured cert_path cert_name cert_key = go (cert_path == "")
    where
      go :
          (b : Bool)
          → All MakesSecured (
              if b
              then []
              else new_cert_watcher
                  (FilePath.join (cert_path ∷ cert_name ∷ []))
                  (FilePath.join (cert_path ∷ cert_key ∷ []))
                ∷ [])
      go true = tt
      go false = (tt, tt)

  adds-Secured : (w : Option Watcher) → All MakesSecured (map add_watcher (present w))
  adds-Secured none = tt
  adds-Secured (some w) = (tt, tt)

  serve_plan-Secured : All MakesSecured (serve_plan env flags)
  unfolding manager_options metrics_server_options
  serve_plan-Secured =
      let webhook = webhook_watcher env flags in
      let metrics = metrics_watcher env flags in
      All-append MakesSecured
        (watch_calls env flags.webhook_cert_path flags.webhook_cert_name flags.webhook_cert_key) _
        (watches-Secured flags.webhook_cert_path flags.webhook_cert_name flags.webhook_cert_key)
        (All-append MakesSecured
          (watch_calls env flags.metrics_cert_path flags.metrics_cert_name flags.metrics_cert_key) _
          (watches-Secured flags.metrics_cert_path flags.metrics_cert_name flags.metrics_cert_key)
          (
            tt,
            (
              (options-IsSecured metrics, options-IsSecured webhook, refl),
              (
                tt,
                All-append MakesSecured (map add_watcher (present metrics)) _ (adds-Secured metrics)
                    (All-append MakesSecured (map add_watcher (present webhook)) _
                      (adds-Secured webhook) (tt, (tt, (tt, tt)))),
              ),
            ),
          ))

  planned-Secured : (b : Bool) → All MakesSecured (if b then [] else serve_plan env flags)
  planned-Secured true = tt
  planned-Secured false = serve_plan-Secured

  finish-Secured :
      (done : List (Call Watcher))
      → All MakesSecured done
      → All MakesSecured (calls_of (finish env flags done))
  finish-Secured done h = go flags.show_version
    where
      text : String
      text = to_string env.marshal (new_app_info env.build env.go "nifi-operator")

      go :
          (b : Bool)
          → All MakesSecured
              (calls_of (if b then exited (done ++ print_line text ∷ []) 0 else running done tt))
      go true = All-append MakesSecured done (print_line text ∷ []) h (tt, tt)
      go false = h

  -- For any flags and any failures of the calls: the manager is only made with a metrics server and a
  -- webhook server whose configuration, whatever it was, speaks HTTP/1.1 alone unless HTTP/2 is
  -- enabled, and takes its certificate from the watcher of the server's own directory if one is
  -- given, and is left at its certificate otherwise; and the metrics endpoint is filtered exactly if
  -- it is encrypted.
  pub process-MakesSecured : All MakesSecured (calls_of (process env flags))
  process-MakesSecured =
      Follows-All {P = MakesSecured} (finish env flags) (plan env flags) [] (process env flags)
        finish-Secured tt
        (All-append MakesSecured (scheme_calls env) _ (tt, (tt, (tt, tt)))
          (planned-Secured flags.show_version))
        (process-Follows env flags)
