-- ===== src/Proxy/Boot/Start.antt =====
-- What a proxy serves when it starts.
use sentinel_zero_trust.Common.{
  ◌≡◌, refl, true, some, Text, ok, Result-cases, inl, inr, sym, ◌∙◌, arith,
}
use sentinel_zero_trust.Config.{ProxyConfig}
use sentinel_zero_trust.Grpc.{IdentityResult}
use sentinel_zero_trust.Utils.Claims.{KubernetesClaims, parse_jwt, get_spiffe_id}
use sentinel_zero_trust.Proxy.Boot.{Outside, Started, service_account_of, start, new_proxy}

pub new_proxy-ok :
    (o : Outside) (cfg : ProxyConfig) {ca token spiffe_id : Text} {claims : KubernetesClaims}
    {identity : IdentityResult}
    → o.read_file cfg.ca_cert_path ≡ ok ca
    → o.request_token cfg.kubernetes_namespace (service_account_of cfg) cfg.pod_name cfg.pod_uid
      ≡ ok token
    → o.parse_unverified token ≡ ok claims
    → get_spiffe_id claims cfg.trusted_domain ≡ ok spiffe_id
    → o.fetch token spiffe_id ≡ ok identity
    → new_proxy o cfg ≡ ok (start cfg (o.certs_from_pem ca) token spiffe_id identity)
unfolding new_proxy parse_jwt
new_proxy-ok o cfg e1 e2 e3 e4 e5 = ground arith

ok-injective : {A : Type 0} {a b : A} → ok a ≡ ok b → a ≡ b
ok-injective h = cc

-- What a started proxy stands on: the token that the token provider gave for its service account and
-- pod, the id that the token's claims give in the trust domain, and the identity that the control
-- plane issued for both.
pub record IsIssued (o : Outside) (cfg : ProxyConfig) (s : Started) : Type 0 where
  pub token : Text
  pub claims : KubernetesClaims
  pub identity : IdentityResult
  pub requested :
      o.request_token cfg.kubernetes_namespace (service_account_of cfg) cfg.pod_name cfg.pod_uid
      ≡ ok token
  pub parsed : o.parse_unverified token ≡ ok claims
  pub named : get_spiffe_id claims cfg.trusted_domain ≡ ok s.params.spiffe_id
  pub issued : o.fetch token s.params.spiffe_id ≡ ok identity
  pub serves : s.proxy.cert_manager.current_cert ≡ some identity.certificate
  pub pod : s.proxy.cert_manager.current_pod_uid ≡ identity.pod_uid
  pub shares : s.state.cm ≡ s.proxy.cert_manager
  pub holds : s.state.token ≡ some (record { mu = true; token = token })

-- A proxy that has started serves the certificate that the control plane issued, for the token that
-- was requested for the configured service account and for the SPIFFE id of that token's claims; its
-- rotation begins with the same certificate manager, id and token.
pub new_proxy-IsIssued :
    (o : Outside) (cfg : ProxyConfig) {s : Started} → new_proxy o cfg ≡ ok s → IsIssued o cfg s
unfolding new_proxy start parse_jwt
new_proxy-IsIssued o cfg {s} h = elim (Result-cases (o.read_file cfg.ca_cert_path)) [
  | inl (e, q1) ↦ ground arith
  | inr (ca, q1) ↦
      elim (Result-cases (
        o.request_token cfg.kubernetes_namespace (service_account_of cfg) cfg.pod_name
          cfg.pod_uid)) [
            | inl (e, q2) ↦ ground arith
            | inr (token, q2) ↦ elim (Result-cases (o.parse_unverified token)) [
              | inl (e, q3) ↦ ground arith
              | inr (claims, q3) ↦ elim (Result-cases (get_spiffe_id claims cfg.trusted_domain)) [
                | inl (e, q4) ↦ ground arith
                | inr (spiffe_id, q4) ↦ elim (Result-cases (o.fetch token spiffe_id)) [
                  | inl (e, q5) ↦ ground arith
                  | inr (identity, q5) ↦
                      rw (← ok-injective (sym (new_proxy-ok o cfg q1 q2 q3 q4 q5) ∙ h)) (record {
                        token = token;
                        claims = claims;
                        identity = identity;
                        requested = q2;
                        parsed = q3;
                        named = q4;
                        issued = q5;
                        serves = refl;
                        pod = refl;
                        shares = refl;
                        holds = refl;
                      })
                ]
              ]
            ]
          ]
]
