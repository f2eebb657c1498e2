-- ===== src/Proxy/Modes.antt =====
-- data-plane/internal/proxy/proxy.go: Run, and the listeners of the redirect and the TPROXY mode.
pub mod Listeners
pub mod Serve
pub mod Direct
use sentinel_zero_trust.Common.{
  ℕ, ◌≡◌, refl, ◌⊎◌, inl, inr, Bool, true, false, ◌||◌, Option, none, some, List, [], ◌∷◌, ◌++◌,
  Text, codes, text_eq, text_eq_iff, Result, ok, err, ◌==◌, if◌then◌else◌, arith, Result-cases,
}
use sentinel_zero_trust.Std.Strconv.{fmt_d}
use sentinel_zero_trust.Config.{ProxyConfig}
use sentinel_zero_trust.Common.Int.{ℤ, pos, negsuc}

pub data Mode : Type 0 where
  redirect_mode tproxy_mode direct_mode : Mode

abbrev pub int_is : ℕ → ℤ → Bool
int_is n (pos m) = m == n
int_is n (negsuc m) = false

unfoldable pub mode_of : (Text → Text) → ℤ → Mode
mode_of getenv proxy_port =
    if int_is 15006 proxy_port || text_eq (getenv (codes "PROXY_MODE")) (codes "redirect")
    then redirect_mode
    else if text_eq (getenv (codes "PROXY_MODE")) (codes "tproxy")
    then tproxy_mode
    else direct_mode

-- The listeners that a run opens and closes, in order.
pub data Side : Type 0 where
  inbound outbound : Side

pub data ListenEvent : Type 0 where
  listening : Side → Text → ListenEvent  -- at this address
  closed : Side → ListenEvent

-- The answers of the two listen calls of a mode.
pub record Sockets : Type 0 where
  pub listen_inbound : Result (Unit {0})
  pub listen_outbound : Result (Unit {0})

-- What the calls of `createTProxyListener` answer: the raw connection's Control, setsockopt with
-- IP_TRANSPARENT under it, and the bind within five seconds.
pub record TProxyCalls : Type 0 where
  pub control : Result (Unit {0})
  pub setsockopt : Result (Unit {0})
  pub bind : Result (Unit {0})

-- The listener, and whether its socket is transparent: the answer of setsockopt is discarded.
unfoldable pub create_tproxy_listener : TProxyCalls → Result Bool
create_tproxy_listener calls = elim calls.control [
  | err e ↦ err e
  | ok _ ↦ elim calls.bind [
    | err e ↦ err e
    | ok _ ↦ ok (elim calls.setsockopt [ ok _ ↦ true | err e ↦ false ])
  ]
]

unfoldable pub tproxy_sockets : TProxyCalls → Result (Unit {0}) → Sockets
unfolding create_tproxy_listener
tproxy_sockets calls listen_outbound = record {
  listen_inbound = elim (create_tproxy_listener calls) [ err e ↦ err e | ok transparent ↦ ok tt ];
  listen_outbound = listen_outbound;
}

-- The texts of the errors of `runRedirectMode`, and of `runTProxyMode`.
unfoldable pub wrap_redirect : ProxyConfig → Side → Text → Text
unfolding fmt_d
wrap_redirect cfg inbound e =
    codes "failed to listen on redirected port " ++ (fmt_d cfg.inbound_port ++ (codes ": " ++ e))
wrap_redirect cfg outbound e =
    codes "failed to listen on outbound redirected port "
    ++ (fmt_d cfg.outbound_port ++ (codes ": " ++ e))

unfoldable pub wrap_tproxy : ProxyConfig → Side → Text → Text
unfolding fmt_d
wrap_tproxy cfg inbound e =
    codes "failed to create TPROXY listener on port "
    ++ (fmt_d cfg.inbound_port ++ (codes ": " ++ e))
wrap_tproxy cfg outbound e =
    codes "failed to listen on outbound TPROXY port "
    ++ (fmt_d cfg.outbound_port ++ (codes ": " ++ e))

-- Where they listen.
unfoldable pub redirect_addr : ProxyConfig → Side → Text
unfolding fmt_d
redirect_addr cfg inbound = codes "0.0.0.0:" ++ fmt_d cfg.inbound_port
redirect_addr cfg outbound = codes "0.0.0.0:" ++ fmt_d cfg.outbound_port

unfoldable pub tproxy_addr : ProxyConfig → Side → Text
unfolding fmt_d
tproxy_addr cfg inbound = codes ":" ++ fmt_d cfg.inbound_port
tproxy_addr cfg outbound = codes "0.0.0.0:" ++ fmt_d cfg.outbound_port

-- The listen calls of `runRedirectMode` and `runTProxyMode`, which differ in these texts.
unfoldable pub listen_both :
    (Side → Text) → (Side → Text → Text) → Sockets → List ListenEvent × Result (Unit {0})
listen_both addr wrap s = elim s.listen_inbound [
  | err e ↦ ([], err (wrap inbound e))
  | ok _ ↦ elim s.listen_outbound [
    | err e ↦ (listening inbound (addr inbound) ∷ closed inbound ∷ [], err (wrap outbound e))
    | ok _ ↦ (listening inbound (addr inbound) ∷ listening outbound (addr outbound) ∷ [], ok tt)
  ]
]
