-- ===== src/Command/Running.antt =====
-- What cmd/main.go has done while its process goes on.
use nifi_operator.Common.{
  String, Bool, true, false, Option, none, some, List, [], ◌∷◌, ◌++◌, map, ◌≡◌, refl, sym, ◌∙◌, ap,
  ◌⊎◌, inl, inr, present, All, All-imp, if◌then◌else◌,
}
use nifi_operator.Version.{new_app_info, to_string}
use nifi_operator.Command.{
  Flags, Call, print_line, get_config, new_manager, setup_with_manager, add_watcher,
  add_healthz_check, add_readyz_check, start, Process, running, exited, Environment,
  manager_options, process,
}
use nifi_operator.Command.Plan.Following.{Follows, finished, stopped, goes_on}
use nifi_operator.Command.Plan.{
  webhook_watcher, metrics_watcher, watch_calls, serve_plan, plan, finish, scheme_calls,
  process-Follows,
}
use mathlib.Core.List.{append-nil, append_assoc}

module _ (env : Environment) where
  open env use {Watcher}

  -- A call stands among others.
  abbrev pub Made : Call Watcher → List (Call Watcher) → Type 0
  Made c [] = ⊥
  Made c (d ∷ ds) = (d ≡ c) ⊎ Made c ds

  Made-append_right :
      (c : Call Watcher) (xs ys : List (Call Watcher)) → Made c ys → Made c (xs ++ ys)
  Made-append_right c [] ys h = h
  Made-append_right c (x ∷ xs) ys h = inr (Made-append_right c xs ys h)

  abbrev ended : Process Watcher Unit → List (Call Watcher)
  ended (running calls _) = calls
  ended (exited _ _) = []

  -- A process that goes on has come to the end of its plan.
  Follows-finish :
      (f : List (Call Watcher) → Process Watcher Unit) (p calls done : List (Call Watcher))
      (out : Process Watcher Unit)
      → Follows env f p calls out
      → out ≡ running done tt
      → f (calls ++ p) ≡ running done tt
  Follows-finish f p calls done out (finished calls') e = ap f (append-nil calls') ∙ e
  Follows-finish f p calls done out (stopped c q calls' failed) e = cc
  Follows-finish f p calls done out (goes_on c q calls' out' went more) e =
      ap f (sym (append_assoc calls' (c ∷ []) q))
      ∙ Follows-finish f q (calls' ++ c ∷ []) done out' more e

  adds_here :
      (w : Option Watcher) (after : List (Call Watcher))
      → All
          (λ (x : Watcher). Made (add_watcher x) (map add_watcher (present w) ++ after))
          (present w)
  adds_here none after = tt
  adds_here (some w) after = (inl refl, tt)

  unasked_plan :
      (asked : Bool) (text : String) (served done : List (Call Watcher))
      → let p = scheme_calls env ++ (if asked then [] else served) in
        (if asked then exited (p ++ print_line text ∷ []) 0 else running p tt) ≡ running done tt
        → (asked ≡ false) × (done ≡ scheme_calls env ++ served)
  unasked_plan true text served done e = cc
  unasked_plan false text served done e = (refl, sym (ap ended e))

  -- For any flags: if the process goes on after its calls, then the version was not asked for, the last
  -- call was to start the manager, and before it the certificate watcher of every directory that is given
  -- was added to the manager.
  pub process_running :
      (flags : Flags) (done : List (Call Watcher))
      → process env flags ≡ running done tt
      → (flags.show_version ≡ false)
        × ((before : List (Call Watcher)) × (done ≡ before ++ start ∷ [])
            × All
                (λ (w : Watcher). Made (add_watcher w) before)
                (present (metrics_watcher env flags))
            × All
                (λ (w : Watcher). Made (add_watcher w) before)
                (present (webhook_watcher env flags)))
  process_running flags done e =
      let ends =
        Follows-finish (finish env flags) (plan env flags) [] done (process env flags)
          (process-Follows env flags) e in
      let (unasked, all) =
        unasked_plan flags.show_version
          (to_string env.marshal (new_app_info env.build env.go "nifi-operator"))
          (serve_plan env flags) done ends in
      let metrics = metrics_watcher env flags in
      let webhook = webhook_watcher env flags in
      let first =
        watch_calls env flags.webhook_cert_path flags.webhook_cert_name flags.webhook_cert_key in
      let second =
        watch_calls env flags.metrics_cert_path flags.metrics_cert_name flags.metrics_cert_key in
      let made : Call Watcher = new_manager (manager_options env flags webhook metrics) in
      let checks : List (Call Watcher) =
        add_healthz_check "healthz" ∷ add_readyz_check "readyz" ∷ [] in
      let added : List (Call Watcher) =
        map add_watcher (present metrics) ++ (map add_watcher (present webhook) ++ checks) in
      let later : List (Call Watcher) = get_config ∷ made ∷ setup_with_manager ∷ added in
      let before : List (Call Watcher) = scheme_calls env ++ (first ++ (second ++ later)) in
      let reach : (w : Watcher) → Made (add_watcher w) added → Made (add_watcher w) before = λ w h.
        Made-append_right (add_watcher w) (scheme_calls env) (first ++ (second ++ later)) (
          Made-append_right (add_watcher w) first (second ++ later)
            (Made-append_right (add_watcher w) second later (inr (inr (inr h))))) in
      (
        unasked,
        (
          before,
          all ∙ sym (simp append_assoc),
          All-imp _ _ (present metrics) reach (adds_here metrics _),
          All-imp _ _ (present webhook)
              (λ w h. reach w (
                Made-append_right (add_watcher w) (map add_watcher (present metrics))
                  (map add_watcher (present webhook) ++ checks) h))
              (adds_here webhook checks),
        ),
      )
