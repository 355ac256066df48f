-- ===== src/Command/Plan/Following.antt =====
-- A plan of the calls of cmd/main.go, followed until a call fails.
use nifi_operator.Common.{ℕ, Bool, true, false, List, [], ◌∷◌, ◌++◌, ◌≡◌, refl, if◌then◌else◌}
use nifi_operator.Command.{
  Call, add_to_scheme, Process, running, exited, Environment, ◌>>=◌, attempt,
}

module _ (env : Environment) where
  open env use {Watcher}

  -- The exit code of a failing call: a panic of `init` gives 2, and `os.Exit` 1.
  abbrev pub code_of : Call Watcher → ℕ
  code_of (add_to_scheme _) = 2
  code_of _ = 1

  -- The plan is followed: each call is made while none fails, the first that fails is the last one
  -- and ends the process with its code, and after the last call the process is left as `finish` says.
  pub data Follows (finish : List (Call Watcher) → Process Watcher Unit)
      : List (Call Watcher) → List (Call Watcher) → Process Watcher Unit → Type 0 where
    finished : (calls : List (Call Watcher)) → Follows finish [] calls (finish calls)
    stopped :
        (c : Call Watcher) (plan calls : List (Call Watcher))
        → env.fails calls c ≡ true
        → Follows finish (c ∷ plan) calls (exited (calls ++ c ∷ []) (code_of c))
    goes_on :
        (c : Call Watcher) (plan calls : List (Call Watcher)) (p : Process Watcher Unit)
        → env.fails calls c ≡ false
        → Follows finish plan (calls ++ c ∷ []) p
        → Follows finish (c ∷ plan) calls p

  -- A process from any calls on.
  unfoldable pub Obeys :
      (List (Call Watcher) → Process Watcher Unit)
      → List (Call Watcher)
      → (List (Call Watcher) → Process Watcher Unit)
      → Type 0
  Obeys f p m = (calls : List (Call Watcher)) → Follows f p calls (m calls)

  pub attempt-Obeys :
      (f : List (Call Watcher) → Process Watcher Unit) (c : Call Watcher) (p : List (Call Watcher))
      (rest : List (Call Watcher) → Process Watcher Unit)
      → Obeys f p rest
      → Obeys f (c ∷ p) (attempt env (code_of c) c >>= λ _. rest)
  unfolding Obeys attempt
  attempt-Obeys f c p rest h calls = go (env.fails calls c) refl
    where
      go :
          (b : Bool)
          → env.fails calls c ≡ b
          → Follows f
              (c ∷ p)
              calls
              (elim (if b
                then exited (calls ++ c ∷ []) (code_of c)
                else running (calls ++ c ∷ []) tt) [
                  | running calls' _ ↦ rest calls'
                  | exited calls' code ↦ exited calls' code
                ])
      go true e = stopped c p calls e
      go false e = goes_on c p calls _ e (h (calls ++ c ∷ []))

  pub attempt_last :
      (c : Call Watcher) → Obeys (λ calls. running calls tt) (c ∷ []) (attempt env (code_of c) c)
  unfolding Obeys attempt
  attempt_last c calls = go (env.fails calls c) refl
    where
      go :
          (b : Bool)
          → env.fails calls c ≡ b
          → Follows
              (λ done. running done tt)
              (c ∷ [])
              calls
              (if b then exited (calls ++ c ∷ []) (code_of c) else running (calls ++ c ∷ []) tt)
      go true e = stopped c [] calls e
      go false e = goes_on c [] calls _ e (finished (calls ++ c ∷ []))

  -- One process after another.
  pub Follows-append :
      (f : List (Call Watcher) → Process Watcher Unit) (p q calls : List (Call Watcher))
      (first : Process Watcher Unit) (rest : List (Call Watcher) → Process Watcher Unit)
      → Follows (λ done. running done tt) p calls first
      → Obeys f q rest
      → Follows f (p ++ q) calls (((λ _. first) >>= λ _. rest) calls)
  unfolding Obeys
  Follows-append f p q calls first rest (finished done) h = h done
  Follows-append f p q calls first rest (stopped c p' done e) h = stopped c (p' ++ q) done e
  Follows-append f p q calls first rest (goes_on c p' done _ e more) h =
      goes_on c (p' ++ q) done _ e (Follows-append f p' q (done ++ c ∷ []) first rest more h)
