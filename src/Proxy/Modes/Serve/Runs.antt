-- ===== src/Proxy/Modes/Serve/Runs.antt =====
-- The two ways in which a run of the redirect or the TPROXY mode begins.
use sentinel_zero_trust.Common.{◌≡◌, refl, ◌⊎◌, inl, inr, Result, List, [], ◌∷◌, Text, Result-cases}
use sentinel_zero_trust.Config.{ProxyConfig}
use sentinel_zero_trust.Proxy.Modes.{
  Side, inbound, outbound, Sockets, listen_both, TProxyCalls, tproxy_sockets,
  create_tproxy_listener,
}
use sentinel_zero_trust.Proxy.Modes.Listeners.{still_open}
use sentinel_zero_trust.Proxy.Modes.Serve.{
  serving, Turn, serve, not_serving, run_mode, run_tproxy_mode,
}

-- Either a listen call fails, and the run returns its error with no listener left open and no
-- connection handled, or both listeners are open and the accept loops serve them.
pub run_mode-cases :
    (getenv : Text → Text) (addr : Side → Text) (wrap : Side → Text → Text) (s : Sockets)
    (turns : List Turn)
    → let ran = run_mode getenv addr wrap s turns in
      ((side : Side) × (e : Text) × (ran.server ≡ not_serving (wrap side e))
        × (still_open [] ran.listeners ≡ []))
      ⊎ ((ran.server ≡ serve serving turns)
          × (still_open [] ran.listeners ≡ outbound ∷ inbound ∷ []))
unfolding run_mode listen_both
run_mode-cases getenv addr wrap s turns = elim (Result-cases s.listen_inbound) [
  | inl (e, q) ↦ inl (inbound, e, rw (q, run_mode, listen_both) refl, rw (q, listen_both) refl)
  | inr (_, q) ↦ elim (Result-cases s.listen_outbound) [
    | inl (e, p) ↦
        inl (outbound, e, rw (q, p, run_mode, listen_both) refl, rw (q, p, listen_both) refl)
    | inr (_, p) ↦ inr (rw (q, p, run_mode, listen_both) refl, rw (q, p, listen_both) refl)
  ]
]

-- A TPROXY mode that runs listens whatever setsockopt has answered: a socket that could not be made
-- transparent serves like any other.
pub run_tproxy_mode-setsockopt :
    (getenv : Text → Text) (cfg : ProxyConfig) (calls : TProxyCalls) (a : Result (Unit {0}))
    (listen_outbound : Result (Unit {0})) (turns : List Turn)
    → run_tproxy_mode getenv cfg (record calls { setsockopt = a }) listen_outbound turns
      ≡ run_tproxy_mode getenv cfg calls listen_outbound turns
unfolding run_tproxy_mode run_mode tproxy_sockets create_tproxy_listener listen_both
run_tproxy_mode-setsockopt getenv cfg calls a listen_outbound turns =
    elim (Result-cases calls.control) [
      | inl (e, q) ↦ rw (q, tproxy_sockets, create_tproxy_listener) refl
      | inr (_, q) ↦ elim (Result-cases calls.bind) [
        | inl (e, p) ↦ rw (q, p, tproxy_sockets, create_tproxy_listener) refl
        | inr (_, p) ↦ rw (q, p, tproxy_sockets, create_tproxy_listener) refl
      ]
    ]
