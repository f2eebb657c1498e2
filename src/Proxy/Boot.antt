-- ===== src/Proxy/Boot.antt =====
-- data-plane/internal/proxy/proxy.go: NewProxy.
pub mod Start
pub mod Life
use sentinel_zero_trust.Common.{
  ◌≡◌, ◌*◌, Bool, true, false, Option, none, some, List, [], ◌∷◌, ◌++◌, Text, codes, text_eq,
  Result, ok, err, map_err, ◌>>=◌, if◌then◌else◌,
}
use sentinel_zero_trust.Common.Int.{ℤ, pos}
use sentinel_zero_trust.Config.{ProxyConfig, or_default}
use sentinel_zero_trust.Grpc.{IdentityResult}
use sentinel_zero_trust.Utils.Claims.{KubernetesClaims, parse_jwt, get_spiffe_id}
use sentinel_zero_trust.CertManager.{CertManager, TokenContainer, Params, State}
use sentinel_zero_trust.CertManager.Schedule.{minute}
use sentinel_zero_trust.Proxy.Defs.{Proxy}

-- What NewProxy asks: the file system, the certificates of a PEM text (those that do not parse are
-- skipped), the token provider, the JWT parser and the control plane.
pub record Outside : Type 0 where
  pub read_file : Text → Result Text
  pub certs_from_pem : Text → List Text
  pub request_token : Text → Text → Text → Text → Result Text
  pub parse_unverified : Text → Result KubernetesClaims
  pub fetch : Text → Text → Result IdentityResult

-- A started proxy, and the rotation goroutine that has been started with it.
pub record Started : Type 0 where
  pub proxy : Proxy
  pub params : Params
  pub state : State

unfoldable pub service_account_of : ProxyConfig → Text
unfolding or_default
service_account_of cfg = or_default cfg.service_account cfg.service_name

unfoldable pub initial_cert_manager : IdentityResult → CertManager
initial_cert_manager result = record {
  current_cert = some result.certificate;
  current_pod_uid = result.pod_uid;
  retry_delay = pos minute;
  renewal_window = pos (5 * minute);
}

unfoldable pub start : ProxyConfig → List Text → Text → Text → IdentityResult → Started
unfolding initial_cert_manager service_account_of
start cfg pool token spiffe_id result =
    let cm = initial_cert_manager result in
    record {
      proxy = record { cfg = cfg; cert_manager = cm; ca_cert_pool = pool };
      params = record {
        namespace = cfg.kubernetes_namespace;
        service_account = service_account_of cfg;
        pod_name = cfg.pod_name;
        pod_uid = cfg.pod_uid;
        spiffe_id = spiffe_id;
      };
      state = record { cm = cm; token = some (record { mu = true; token = token }) };
    }

unfoldable pub new_proxy : Outside → ProxyConfig → Result Started
unfolding start service_account_of parse_jwt get_spiffe_id
new_proxy o cfg = do
  ca_cert ← map_err (λ e. codes "failed to read Root CA: " ++ e) (o.read_file cfg.ca_cert_path)
  token ←
      map_err (λ e. codes "failed to get service account token: " ++ e)
        (o.request_token cfg.kubernetes_namespace (service_account_of cfg) cfg.pod_name cfg.pod_uid)
  claims ← parse_jwt o.parse_unverified token
  spiffe_id ←
      map_err (λ e. codes "failed to get spiffe id: " ++ e)
        (get_spiffe_id claims cfg.trusted_domain)
  result ←
      map_err (λ e. codes "failed to fetch initial certificate: " ++ e) (o.fetch token spiffe_id)
  ok (start cfg (o.certs_from_pem ca_cert) token spiffe_id result)
