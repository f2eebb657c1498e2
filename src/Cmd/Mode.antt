-- ===== src/Cmd/Mode.antt =====
-- The mode that the environment selects.
use sentinel_zero_trust.Common.{
  ◌≡◌, ◌≢◌, inl, inr, false, Bool-cases, Text, codes, text_eq, text_eq_iff, arith,
}
use sentinel_zero_trust.Config.{create_proxy_config, load}
use sentinel_zero_trust.Cmd.{port_of, main_config}
use sentinel_zero_trust.Proxy.Modes.{Mode, redirect_mode, tproxy_mode, direct_mode, mode_of}

-- What PROXY_MODE stands for.
abbrev pub Selects : Text → Mode → Type 0
Selects value redirect_mode = value ≡ codes "redirect"
Selects value tproxy_mode = value ≡ codes "tproxy"
Selects value direct_mode = (value ≢ codes "redirect") × (value ≢ codes "tproxy")

ne_of : (s t : Text) → text_eq s t ≡ false → s ≢ t
ne_of s t h = λ e. ground (arith, (text_eq_iff s t).1 e)

-- The port that `main` chooses never overrides PROXY_MODE: the proxy runs in the redirect mode exactly
-- for "redirect", in the TPROXY mode exactly for "tproxy", and in the direct mode otherwise.
pub mode_of-Selects :
    (getenv : Text → Text)
    → Selects (getenv (codes "PROXY_MODE")) (mode_of getenv (main_config getenv).proxy_port)
unfolding mode_of main_config load create_proxy_config port_of
mode_of-Selects getenv =
    elim (Bool-cases (text_eq (getenv (codes "PROXY_MODE")) (codes "redirect"))) [
      | inl e ↦ rw (e, mode_of, port_of) ((text_eq_iff _ _).0 e)
      | inr e ↦ elim (Bool-cases (text_eq (getenv (codes "PROXY_MODE")) (codes "tproxy"))) [
        | inl f ↦ rw (e, f, mode_of, port_of) ((text_eq_iff _ _).0 f)
        | inr f ↦ rw (e, f, mode_of, port_of) (ne_of _ _ e, ne_of _ _ f)
      ]
    ]
