-- ===== src/Cmd/Program.antt =====
-- data-plane/cmd/main.go: the whole of main, from the connection to the control plane on, with the lines
-- it logs, its waits, its exits and its deferred calls. `os.Exit` runs no deferred call; a panic and
-- a return run both, the last deferred first.
pub mod Ends
pub mod Logs
pub mod Run
use sentinel_zero_trust.Common.{
  ℕ, zero, suc, Option, none, some, List, [], ◌∷◌, ◌++◌, Text, codes, Result, ok, err,
  if◌then◌else◌, ◌==◌, leb,
}
use sentinel_zero_trust.Std.Strconv.{itoa}
use sentinel_zero_trust.Config.{ProxyConfig}
use sentinel_zero_trust.Cmd.{main_config, Outcome, running, exited, ran_nil}
use sentinel_zero_trust.Proxy.Defs.{Level, info, error}

-- What main asks: grpc.NewClient for the target, the client set of Kubernetes, the n-th call of
-- NewProxy, and what Run returns, if it does.
pub record Outside (A : Type 0) : Type 0 where
  pub new_client : Text → Result (Unit {0})
  pub create_clientset : Result (Unit {0})
  pub new_proxy : ProxyConfig → ℕ → Result A
  pub run : A → Option (Result (Unit {0}))

pub data Act : Type 0 where
  logs : Level → Text → Act
  sleeps : Act  -- ten seconds
  exits : Act  -- `os.Exit(1)`
  panics : Act
  closes_conn : Act
  cleans_up : Act  -- `cleanup()`, which closes the log writer

-- How the process stands after the acts so far.
pub data Finish : Type 0 where
  serves gone returned crashed : Finish

abbrev pub Acts : Type 0
Acts = List Act × Finish

abbrev pub after : List Act → Acts → Acts
after acts (more, f) = (acts ++ more, f)

abbrev pub exit_with : Text → Acts
exit_with message = (logs error message ∷ exits ∷ [], gone)

-- The text of the line before a wait.
unfoldable pub retry_message : ℕ → Text
unfolding itoa
retry_message n =
    codes "Retrying to create proxy in 10 seconds, attempt " ++ (itoa n ++ codes "/10")

-- The body of `for failCount <= 10`, with `k` for what follows the loop.
module _ {A : Type 0} (answers : ℕ → Result A) where
  unfoldable pub retries : ℕ → ℕ → List Act × Outcome A
  unfolding retry_message
  retries fail_count zero = ([], ran_nil)
  retries fail_count (suc fuel) =
      let rest = retries (suc fail_count) fuel in
      if leb fail_count 10
      then elim (answers (suc fail_count)) [
        | ok p ↦ (logs info (retry_message (suc fail_count)) ∷ sleeps ∷ [], running p)
        | err e ↦
            if suc fail_count == 10
            then (
              logs info (retry_message (suc fail_count))
                  ∷ sleeps
                  ∷ logs error (codes "failed to create proxy")
                  ∷ logs error (codes "failed to create proxy after 10 attempts, exiting...")
                  ∷ exits
                  ∷ [],
              exited,
            )
            else (
              logs info (retry_message (suc fail_count))
                  ∷ sleeps
                  ∷ logs error (codes "failed to create proxy")
                  ∷ rest.0,
              rest.1,
            )
      ]
      else ([], ran_nil)

  -- From the first call of NewProxy on.
  unfoldable pub creates : List Act × Outcome A
  unfolding retries
  creates = elim (answers 0) [
    | ok p ↦ ([], running p)
    | err e ↦
        let rest = retries 0 11 in (logs error (codes "failed to create proxy...") ∷ rest.0, rest.1)
  ]

abbrev pub deferred : List Act
deferred = closes_conn ∷ cleans_up ∷ []

-- `if err := p.Run(); err != nil { …; os.Exit(1) }`, and the return of main.
unfoldable pub finish_run : Option (Result (Unit {0})) → Acts
finish_run none = ([], serves)
finish_run (some (err e)) = exit_with (codes "proxy error")
finish_run (some (ok _)) = (deferred, returned)

module _ {A : Type 0} (o : Outside A) where
  unfoldable pub run_outcome : Outcome A → Acts
  unfolding finish_run
  run_outcome (running p) = finish_run (o.run p)
  run_outcome exited = ([], gone)
  run_outcome ran_nil = (panics ∷ deferred, crashed)

  -- With both clients made.
  unfoldable pub start_proxy : ProxyConfig → Acts
  unfolding creates run_outcome
  start_proxy cfg =
      let made = creates (o.new_proxy cfg) in
      after (logs info (codes "starting sentinel-zt proxy") ∷ made.0) (run_outcome made.1)

  unfoldable pub main_with : ProxyConfig → Acts
  unfolding start_proxy
  main_with cfg = elim (o.new_client cfg.target_grpc) [
    | err e ↦ exit_with (codes "failed to connect to target")
    | ok _ ↦ elim o.create_clientset [
      | err e ↦ exit_with (codes "failed to create clientset")
      | ok _ ↦ start_proxy cfg
    ]
  ]

  unfoldable pub main : (Text → Text) → Acts
  unfolding main_with main_config
  main getenv = main_with (main_config getenv)
