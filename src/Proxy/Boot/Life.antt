-- ===== src/Proxy/Boot/Life.antt =====
-- The certificates of a proxy, from its start on.
use sentinel_zero_trust.Common.{
  ◌≡◌, refl, ap, ◌∙◌, ◌⊎◌, inl, inr, Option, none, some, codes, true, List, [], ◌∷◌, Text, ok,
}
use sentinel_zero_trust.Config.{ProxyConfig}
use sentinel_zero_trust.Grpc.{TlsCertificate, IdentityResult}
use sentinel_zero_trust.Utils.Claims.{KubernetesClaims, get_spiffe_id}
use sentinel_zero_trust.CertManager.{CertManager, Round, start_rotation, get_current_certificate}
use sentinel_zero_trust.CertManager.Trace.{Served, served, last_state, Issued}
use sentinel_zero_trust.CertManager.Hitless.{KeptOrIssued, served-KeptOrIssued}
use sentinel_zero_trust.Proxy.Defs.{
  Proxy, no_client_cert, version_tls13, get_inbound_tls_config, dial_tls_config, TlsConfig,
}
use sentinel_zero_trust.Proxy.Boot.{Outside, Started, service_account_of, new_proxy}
use sentinel_zero_trust.Proxy.Boot.Start.{IsIssued, new_proxy-IsIssued}

-- The proxy shares its certificate manager with the rotation: as it is after some rounds.
abbrev pub after_rounds : Started → List Round → Proxy
after_rounds s rs = record (s.proxy) {
  cert_manager = (last_state (start_rotation s.params rs s.state).1).cm;
}

-- The control plane issued it for the id of the proxy, at the start or in one of the rounds.
abbrev pub IsOwn : Outside → Started → List Round → TlsCertificate → Type 0
IsOwn o s rs c =
    ((token : Text) × (identity : IdentityResult) × (o.fetch token s.params.spiffe_id ≡ ok identity)
      × (identity.certificate ≡ c))
    ⊎ ((uid : Text) × Issued s.params rs c uid)

-- The id is that of the configured account and pod.
abbrev pub IsNamed : Outside → ProxyConfig → Text → Type 0
IsNamed o cfg spiffe_id =
    (token : Text) × (claims : KubernetesClaims) × (o.request_token cfg.kubernetes_namespace
        (service_account_of cfg) cfg.pod_name cfg.pod_uid
      ≡ ok token)
    × (o.parse_unverified token ≡ ok claims)
    × (get_spiffe_id claims cfg.trusted_domain ≡ ok spiffe_id)

-- What both kinds of handshakes show, and the dials to other pods.
abbrev pub Shows : Proxy → TlsCertificate → Type 0
Shows p c =
    ((get_inbound_tls_config p).get_certificate ≡ some (some c))
    × ((config : TlsConfig) × (dial_tls_config p ≡ some config) × (config.certificates ≡ c ∷ []))

shows : (p : Proxy) (c : TlsCertificate) → p.cert_manager.current_cert ≡ some c → Shows p c
unfolding get_inbound_tls_config get_current_certificate dial_tls_config
shows p c e = (
  ap (λ (o : Option TlsCertificate). some o) e,
  (
    record {
      certificates = c ∷ [];
      get_certificate = none;
      client_cas = [];
      root_cas = p.ca_cert_pool;
      client_auth = no_client_cert;
      server_name = codes "";
      insecure_skip_verify = true;
      min_version = version_tls13;
    },
    rw (e, dial_tls_config) refl,
    refl,
  ),
)

shown :
    (o : Outside) {cfg : ProxyConfig} (s : Started) (rs : List Round)
    → IsIssued o cfg s
    → KeptOrIssued s.params rs
        (served s.state)
        (served (last_state (start_rotation s.params rs s.state).1))
    → (c : TlsCertificate) × ((after_rounds s rs).cert_manager.current_cert ≡ some c)
      × IsOwn o s rs c
shown o s rs i (inl kept) = (
  i.identity.certificate,
  ap (λ (v : Served). v.0) kept ∙ ap (λ (cm : CertManager). cm.current_cert) i.shares ∙ i.serves,
  inl (i.token, i.identity, i.issued, refl),
)
shown o s rs i (inr (c, uid, e, issued)) = (c, ap (λ (v : Served). v.0) e, inr (uid, issued))

-- From its start on, after any rounds of the rotation, whatever fails in them, a proxy shows a
-- certificate in its inbound handshakes and in its dials, the same in both. The control plane issued it
-- at the start or in one of the rounds, and always for the SPIFFE id that the claims of the token of
-- the configured account and pod give in the trust domain.
pub new_proxy-Shows :
    (o : Outside) (cfg : ProxyConfig) {s : Started} (rs : List Round)
    → new_proxy o cfg ≡ ok s
    → (c : TlsCertificate) × Shows (after_rounds s rs) c
      × IsOwn o s rs c
      × IsNamed o cfg s.params.spiffe_id
new_proxy-Shows o cfg {s} rs h =
    let i = new_proxy-IsIssued o cfg h in
    let (c, cert, own) = shown o s rs i (served-KeptOrIssued s.params rs s.state) in
    (c, shows (after_rounds s rs) c cert, own, (i.token, i.claims, i.requested, i.parsed, i.named))
