-- ===== src/Cmd.antt =====
-- data-plane/cmd/main.go: the configuration that the environment gives, and the retries.
pub mod Retry
pub mod Mode
pub mod Program
use sentinel_zero_trust.Common.{
  ℕ, zero, suc, Bool, true, false, List, [], ◌∷◌, Text, codes, text_eq, Result, ok, err,
  if◌then◌else◌, ◌==◌, leb, ◌+◌,
}
use sentinel_zero_trust.Common.Int.{ℤ, pos}
use sentinel_zero_trust.Config.{LoggerConfig, ProxyConfig, create_proxy_config, load, or_default}

unfoldable pub logger_config : (Text → Text) → LoggerConfig
unfolding or_default
logger_config getenv = record {
  level = or_default (getenv (codes "LOG_LEVEL")) (codes "Debug");
  is_json = true;
  add_source = false;
  app_version = codes "0.0.1";
  service_name = or_default (getenv (codes "SERVICE_NAME")) (codes "sentinel-data-plane");
  env = getenv (codes "ENV");
}

unfoldable pub port_of : Text → ℤ
port_of proxy_mode = if text_eq proxy_mode (codes "redirect") then pos 15006 else pos 8443

-- The configuration of the proxy. An empty ENV is "local" here, and is still empty in the logger.
unfoldable pub main_config : (Text → Text) → ProxyConfig
unfolding logger_config port_of create_proxy_config load or_default
main_config getenv =
    let logger_cfg = logger_config getenv in
    load getenv (
      create_proxy_config (port_of (getenv (codes "PROXY_MODE"))) logger_cfg.service_name
        (record logger_cfg { env = or_default (getenv (codes "ENV")) (codes "local") }))

-- How `main` goes on once it has called NewProxy: `ran_nil` is `p.Run()` on the nil that came with an
-- error.
pub data Outcome {ℓ} (A : Type ℓ) : Type ℓ where
  running : A → Outcome A
  exited : Outcome A
  ran_nil : Outcome A

-- The body of `for failCount <= 10`, with the waits it makes; `answers n` is what the n-th call of
-- NewProxy returns. Each pass raises `fail_count`, so that `fuel` need not be above 11 - fail_count.
unfoldable pub retry_loop {ℓ} : {A : Type ℓ} → (ℕ → Result A) → ℕ → ℕ → ℕ × Outcome A
retry_loop answers fail_count zero = (0, ran_nil)
retry_loop answers fail_count (suc fuel) =
    let rest = retry_loop answers (suc fail_count) fuel in
    if leb fail_count 10
    then elim (answers (suc fail_count)) [
      | ok p ↦ (1, running p)
      | err e ↦ if suc fail_count == 10 then (1, exited) else (suc rest.0, rest.1)
    ]
    else (0, ran_nil)

-- `main` from its first call of NewProxy on: how often it waits ten seconds, and how it goes on.
unfoldable pub create_proxy {ℓ} : {A : Type ℓ} → (ℕ → Result A) → ℕ × Outcome A
unfolding retry_loop
create_proxy answers = elim (answers 0) [ ok p ↦ (0, running p) | err e ↦ retry_loop answers 0 11 ]
