-- ===== src/Pod.antt =====
-- sentinel-init/cmd/main.go and data-plane/internal/proxy/proxy.go in one pod: where the rules of the
-- init container send a connection, and where the proxy listens.
use sentinel_zero_trust.Common.{
  ℕ, ◌^◌, ◌<◌, ◌≡◌, refl, ap, ◌∙◌, ◌≢◌, false, some, List, [], ◌∷◌, ◌++◌, Text, codes, ok,
}
use sentinel_zero_trust.Common.Int.{ℤ, pos}
use sentinel_zero_trust.Std.Strconv.{itoa, fmt_d}
use sentinel_zero_trust.Config.{ProxyConfig, LoggerConfig, create_proxy_config, load}
use sentinel_zero_trust.Config.Load.{load-ports}
use sentinel_zero_trust.Proxy.Modes.{
  inbound, outbound, listening, Sockets, listen_both, redirect_addr,
}
use sentinel_zero_trust.Proxy.Modes.Serve.{run_redirect_mode, run_mode, Turn}
use sentinel_zero_trust.Init.Flags.{Flags}
use sentinel_zero_trust.Init.Rules.{build_redirect_rules}
use sentinel_zero_trust.Init.Table.{nat, Chain, prerouting, output}
use sentinel_zero_trust.Init.Traffic.{Packet, to_port, redirected}
use sentinel_zero_trust.Init.Table.{excluded}
use sentinel_zero_trust.Init.Traffic.Skip.{is_among}
use sentinel_zero_trust.Init.Traffic.Tproxy.{IsNew}
use sentinel_zero_trust.Init.Traffic.Capture.{Do, redirect_inbound, redirect_outbound}

-- A flag of the init container and a variable of the proxy that give the same port.
abbrev pub AreSame : ℤ → Text → ℕ → Type 0
AreSame flag value n = (0 < n) × (n < 2 ^ 63) × (flag ≡ pos n) × (value ≡ itoa n)

-- The address of a redirected port.
abbrev pub any_address : ℕ → Text
any_address n = codes "0.0.0.0:" ++ itoa n

listens :
    (getenv : Text → Text) (cfg : ProxyConfig) (s : Sockets) (turns : List Turn) (n m : ℕ)
    → cfg.inbound_port ≡ pos n
    → cfg.outbound_port ≡ pos m
    → s.listen_inbound ≡ ok tt
    → s.listen_outbound ≡ ok tt
    → (run_redirect_mode getenv cfg s turns).listeners
      ≡ listening inbound (any_address n) ∷ listening outbound (any_address m) ∷ []
unfolding run_redirect_mode run_mode listen_both redirect_addr fmt_d
listens getenv cfg s turns n m en em li lo = rw (li, lo, en, em) refl

Do-port :
    (texts : List Text) (pk : Packet) (flag : ℤ) (n : ℕ) (c : Chain)
    → flag ≡ pos n
    → Do texts pk nat c (some (redirected (fmt_d flag)))
    → Do texts pk nat c (some (redirected (itoa n)))
unfolding fmt_d
Do-port texts pk flag n c e (rules, p, v) =
    (rules, p, v ∙ ap (λ (i : ℤ). some (redirected (fmt_d i))) e)

-- Where the flags of the init container and the environment of the proxy name the same two ports, and
-- both listen calls succeed, the proxy of the redirect mode listens at exactly the ports to which
-- the rules redirect new TCP traffic: inbound at the first, and outbound, for connections of
-- other users to ports that are not left out, at the second.
pub traffic_reaches_listeners :
    (getenv : Text → Text) (port : ℤ) (name : Text) (lc : LoggerConfig) (s : Sockets)
    (turns : List Turn) (f : Flags) (pk : Packet) (n m : ℕ)
    → AreSame f.inbound_port (getenv (codes "INBOUND_PORT")) n
    → AreSame f.outbound_port (getenv (codes "OUTBOUND_PORT")) m
    → s.listen_inbound ≡ ok tt
    → s.listen_outbound ≡ ok tt
    → IsNew pk
    → pk.owner ≢ fmt_d f.proxy_uid
    → to_port pk (codes "9090") ≡ false
    → is_among pk (excluded f) ≡ false
    → let cfg = load getenv (create_proxy_config port name lc) in
      ((run_redirect_mode getenv cfg s turns).listeners
        ≡ listening inbound (any_address n) ∷ listening outbound (any_address m) ∷ [])
      × Do (build_redirect_rules f) pk nat prerouting (some (redirected (itoa n)))
      × Do (build_redirect_rules f) pk nat output (some (redirected (itoa m)))
traffic_reaches_listeners getenv port name lc s turns f pk n m (zn, ln, fn, en) (zm, lm, fm, em) li
      lo new owner dns x =
    let cfg = load getenv (create_proxy_config port name lc) in
    let (pn, pm) = load-ports getenv port name lc n m zn ln en zm lm em in
    (
      listens getenv cfg s turns n m pn pm li lo,
      Do-port (build_redirect_rules f) pk f.inbound_port n prerouting fn
          (redirect_inbound f pk new),
      Do-port (build_redirect_rules f) pk f.outbound_port m output fm
          (redirect_outbound f pk new owner dns x),
    )
