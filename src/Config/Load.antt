-- ===== src/Config/Load.antt =====
-- What holds of a configuration once it is loaded.
use sentinel_zero_trust.Common.{
  ℕ, ◌<◌, ◌^◌, ◌≡◌, refl, ◌≢◌, Text, codes, text_eq_iff, [], ◌∷◌, arith, ◌⊎◌, inl, inr,
}
use sentinel_zero_trust.Common.Int.{ℤ, pos}
use sentinel_zero_trust.Std.Strconv.{itoa, atoi-itoa, itoa-ne-nil}
use sentinel_zero_trust.Config.{
  ProxyConfig, LoggerConfig, create_proxy_config, or_default, read_port, or_default_port, load,
}

pub or_default-ne-nil : (value fallback : Text) → fallback ≢ [] → or_default value fallback ≢ []
unfolding or_default
or_default-ne-nil value fallback h = ground (arith, text_eq_iff value (codes ""))

or_default-cases : (value fallback : Text) → (or_default value fallback ≢ []) ⊎ (fallback ≡ [])
or_default-cases value [] = inr refl
or_default-cases value (x ∷ xs) = inl (or_default-ne-nil value (x ∷ xs) cc)

or_default_port-ne-zero : (p : ℤ) (n : ℤ) → n ≢ pos 0 → or_default_port p n ≢ pos 0
unfolding or_default_port
or_default_port-ne-zero p n h = ground arith

-- What the rest of the program relies on.
pub record IsComplete (pc : ProxyConfig) : Type 0 where
  pub inbound : pc.inbound_port ≢ pos 0
  pub outbound : pc.outbound_port ≢ pos 0
  pub target_url : pc.target_url ≢ []
  pub control_plane_url : pc.control_plane_url ≢ []
  pub ca_cert_path : pc.ca_cert_path ≢ []
  pub trusted_domain : pc.trusted_domain ≢ []
  pub pod_name : pc.pod_name ≢ []
  pub pod_uid : pc.pod_uid ≢ []
  pub service_account : (pc.service_account ≢ []) ⊎ (pc.service_name ≡ [])

-- Whatever the environment holds, a loaded configuration is complete: no port is 0, and the
-- target, the control plane, the CA file, the trust domain, the pod's name and UID are not empty;
-- so is the service account, unless the service has no name.
pub load-IsComplete : (getenv : Text → Text) (pc : ProxyConfig) → IsComplete (load getenv pc)
unfolding load
load-IsComplete getenv pc = record {
  inbound = or_default_port-ne-zero _ (pos 15006) (cc);
  outbound = or_default_port-ne-zero _ (pos 15001) (cc);
  target_url = or_default-ne-nil _ _ (cc);
  control_plane_url = or_default-ne-nil _ _ (cc);
  ca_cert_path = or_default-ne-nil _ _ (cc);
  trusted_domain = or_default-ne-nil _ _ (cc);
  pod_name = or_default-ne-nil _ _ (cc);
  pod_uid = or_default-ne-nil _ _ (cc);
  service_account = or_default-cases _ pc.service_name;
}

or_default_port-read_port_idem :
    (value : Text) (old n : ℤ)
    → or_default_port (read_port value (or_default_port (read_port value old) n)) n
      ≡ or_default_port (read_port value old) n
unfolding or_default_port read_port
or_default_port-read_port_idem value old n = ground arith

-- Loading twice from one environment is loading once.
pub load_idem :
    (getenv : Text → Text) (pc : ProxyConfig) → load getenv (load getenv pc) ≡ load getenv pc
unfolding load
load_idem getenv pc = λ i. record (load getenv pc) {
  inbound_port =
      or_default_port-read_port_idem (getenv (codes "INBOUND_PORT")) pc.inbound_port (pos 15006) i;
  outbound_port =
      or_default_port-read_port_idem (getenv (codes "OUTBOUND_PORT")) pc.outbound_port (pos 15001)
        i;
}

read_port-itoa : (n : ℕ) (old : ℤ) → n < 2 ^ 63 → read_port (itoa n) old ≡ pos n
unfolding read_port
read_port-itoa n old h =
    ground (arith, text_eq_iff (itoa n) (codes ""), itoa-ne-nil n, atoi-itoa n h)

or_default_port_of_pos : (n : ℕ) (d : ℤ) → 0 < n → or_default_port (pos n) d ≡ pos n
unfolding or_default_port
or_default_port_of_pos n d h = ground arith

-- A fresh configuration takes a positive decimal from INBOUND_PORT and from OUTBOUND_PORT as it is
-- written, though it be larger than any port.
pub load-ports :
    (getenv : Text → Text) (port : ℤ) (name : Text) (lc : LoggerConfig) (n m : ℕ)
    → 0 < n
    → n < 2 ^ 63
    → getenv (codes "INBOUND_PORT") ≡ itoa n
    → 0 < m
    → m < 2 ^ 63
    → getenv (codes "OUTBOUND_PORT") ≡ itoa m
    → let pc = load getenv (create_proxy_config port name lc) in
      (pc.inbound_port ≡ pos n) × (pc.outbound_port ≡ pos m)
unfolding load create_proxy_config
load-ports getenv port name lc n m hn ln en hm lm em = (
  rw (en, read_port-itoa n (pos 0) ln) (or_default_port_of_pos n (pos 15006) hn),
  rw (em, read_port-itoa m (pos 0) lm) (or_default_port_of_pos m (pos 15001) hm),
)
