-- ===== src/Cmd/Program/Run.antt =====
-- data-plane/cmd/main.go with Run of data-plane/internal/proxy/proxy.go: which runs of the process come to
-- the end of main.
use mathlib.Core.Path.{subst}
use sentinel_zero_trust.Common.{
  ◌≡◌, refl, sym, ◌∙◌, inl, inr, Option, none, some, List, Text, codes, Result, ok, err,
  Result-cases, All,
}
use sentinel_zero_trust.Config.{ProxyConfig}
use sentinel_zero_trust.Cmd.{main_config, Outcome, running, exited, ran_nil}
use sentinel_zero_trust.Cmd.Mode.{Selects, mode_of-Selects}
use sentinel_zero_trust.Cmd.Program.{
  Outside, gone, returned, creates, finish_run, run_outcome, start_proxy, main_with, main,
}
use sentinel_zero_trust.Proxy.Modes.{
  Mode, redirect_mode, tproxy_mode, direct_mode, mode_of, Sockets, TProxyCalls,
}
use sentinel_zero_trust.Proxy.Modes.Serve
use sentinel_zero_trust.Proxy.Modes.Serve.{run_redirect_mode, run_tproxy_mode}
use sentinel_zero_trust.Proxy.Modes.Direct
use sentinel_zero_trust.Proxy.Modes.Direct.{
  Phase, waiting, shutting_down, run_direct_mode, IsQuiet, direct_waits,
}

-- What the machine does while the proxy runs: in the redirect, the TPROXY and the direct mode.
pub record Play : Type 0 where
  pub sockets : Sockets
  pub calls : TProxyCalls
  pub turns : List Serve.Turn
  pub direct_turns : List Direct.Turn

-- The first two modes return nothing but errors.
abbrev error_of : Option Text → Option (Result (Unit {0}))
error_of none = none
error_of (some e) = some (err e)

abbrev answer_of : Phase → Option (Result (Unit {0}))
answer_of waiting = none
answer_of shutting_down = none
answer_of (Phase.returned r) = some r

run_in : (Text → Text) → ProxyConfig → Play → Mode → Option (Result (Unit {0}))
unfolding run_redirect_mode run_tproxy_mode run_direct_mode
run_in getenv cfg play redirect_mode =
    error_of (run_redirect_mode getenv cfg play.sockets play.turns).server.result
run_in getenv cfg play tproxy_mode =
    error_of
      (run_tproxy_mode getenv cfg play.calls play.sockets.listen_outbound play.turns).server.result
run_in getenv cfg play direct_mode =
    answer_of (run_direct_mode Direct.serving play.direct_turns).phase

-- `Run`: what it has returned, if it has.
unfoldable pub run_proxy : (Text → Text) → ProxyConfig → Play → Option (Result (Unit {0}))
unfolding run_in mode_of
run_proxy getenv cfg play = run_in getenv cfg play (mode_of getenv cfg.proxy_port)

-- `main` where Run is that of the proxy.
abbrev pub with_proxy : {A : Type 0} → Outside A → (Text → Text) → Play → Outside A
with_proxy o getenv play = record o { run = λ p. run_proxy getenv (main_config getenv) play }

gone_returned {ℓ} : {P : Type ℓ} → gone ≡ returned → P
gone_returned e = absurd cc

finish_run_returned :
    (r : Option (Result (Unit {0}))) → (finish_run r).1 ≡ returned → r ≡ some (ok tt)
unfolding finish_run
finish_run_returned none h = absurd cc
finish_run_returned (some (err e)) h = gone_returned h
finish_run_returned (some (ok _)) h = refl

module _ {A : Type 0} (o : Outside A) where
  run_outcome_returned :
      (r : Outcome A) → (run_outcome o r).1 ≡ returned → (p : A) × (o.run p ≡ some (ok tt))
  unfolding run_outcome
  run_outcome_returned (running p) h = (p, finish_run_returned (o.run p) h)
  run_outcome_returned exited h = gone_returned h
  run_outcome_returned ran_nil h = absurd cc

  no_client :
      (cfg : ProxyConfig) (e : Text)
      → o.new_client cfg.target_grpc ≡ err e
      → (main_with o cfg).1 ≡ gone
  unfolding main_with
  no_client cfg e q = rw (q, main_with) refl

  no_clientset :
      (cfg : ProxyConfig) (e : Text)
      → o.new_client cfg.target_grpc ≡ ok tt
      → o.create_clientset ≡ err e
      → (main_with o cfg).1 ≡ gone
  unfolding main_with
  no_clientset cfg e q p = rw (q, p, main_with) refl

  clients :
      (cfg : ProxyConfig)
      → o.new_client cfg.target_grpc ≡ ok tt
      → o.create_clientset ≡ ok tt
      → (main_with o cfg).1 ≡ (run_outcome o (creates (o.new_proxy cfg)).1).1
  unfolding main_with start_proxy
  clients cfg q p = rw (q, p, main_with, start_proxy) refl

  main_with_returned :
      (cfg : ProxyConfig) → (main_with o cfg).1 ≡ returned → (p : A) × (o.run p ≡ some (ok tt))
  main_with_returned cfg h = elim (Result-cases (o.new_client cfg.target_grpc)) [
    | inl (e, q) ↦ gone_returned (sym (no_client cfg e q) ∙ h)
    | inr (_, q) ↦ elim (Result-cases o.create_clientset) [
      | inl (e, p) ↦ gone_returned (sym (no_clientset cfg e q p) ∙ h)
      | inr (_, p) ↦ run_outcome_returned (creates (o.new_proxy cfg)).1 (sym (clients cfg q p) ∙ h)
    ]
  ]

none_ok {ℓ} : {P : Type ℓ} {r : Result (Unit {0})} → none ≡ some r → P
none_ok e = absurd cc

error_of_ok {ℓ} : {P : Type ℓ} (r : Option Text) → error_of r ≡ some (ok tt) → P
error_of_ok none e = absurd cc
error_of_ok (some x) e = absurd cc

answer_of_ok : (p : Phase) → answer_of p ≡ some (ok tt) → p ≡ Phase.returned (ok tt)
answer_of_ok waiting e = none_ok e
answer_of_ok shutting_down e = none_ok e
answer_of_ok (Phase.returned r) e = cc

run_in_ok :
    (getenv : Text → Text) (cfg : ProxyConfig) (play : Play) (m : Mode)
    → run_in getenv cfg play m ≡ some (ok tt)
    → (m ≡ direct_mode)
      × ((run_direct_mode Direct.serving play.direct_turns).phase ≡ Phase.returned (ok tt))
unfolding run_in
run_in_ok getenv cfg play redirect_mode h = error_of_ok _ h
run_in_ok getenv cfg play tproxy_mode h = error_of_ok _ h
run_in_ok getenv cfg play direct_mode h = (refl, answer_of_ok _ h)

waiting_returned {ℓ} : {P : Type ℓ} {r : Result (Unit {0})} → waiting ≡ Phase.returned r → P
waiting_returned e = absurd cc

-- The process comes to the end of main, and with it to its deferred calls, only where PROXY_MODE selects
-- the direct mode, a signal has come and the shutdown has gone well. In the redirect and the TPROXY
-- mode, in which Run answers nothing but errors, it never does.
pub main_returned :
    {A : Type 0} (o : Outside A) (getenv : Text → Text) (play : Play)
    → (main (with_proxy o getenv play) getenv).1 ≡ returned
    → Selects (getenv (codes "PROXY_MODE")) direct_mode
      × ((run_direct_mode Direct.serving play.direct_turns).phase ≡ Phase.returned (ok tt))
      × (¬ All IsQuiet play.direct_turns)
unfolding main run_proxy
main_returned o getenv play h =
    let (p, answer) = main_with_returned (with_proxy o getenv play) (main_config getenv) h in
    let (direct, done) =
      run_in_ok getenv (main_config getenv) play (mode_of getenv (main_config getenv).proxy_port)
        answer in
    (
      subst (Selects (getenv (codes "PROXY_MODE"))) direct (mode_of-Selects getenv),
      done,
      λ quiet.
          waiting_returned (sym (direct_waits play.direct_turns Direct.serving refl quiet) ∙ done),
    )
