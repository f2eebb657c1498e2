-- ===== src/Config.antt =====
-- data-plane/internal/config/config.go: the proxy's configuration and how it is read from the
-- environment. `os.Getenv` is a function on names; it is "" for a name that is not set.
pub mod Load
use sentinel_zero_trust.Common.{Bool, Text, codes, text_eq, Result, ok, err, if◌then◌else◌}
use sentinel_zero_trust.Common.Int.{ℤ, pos, is_zero}
use sentinel_zero_trust.Std.Strconv.{atoi}

pub record LoggerConfig : Type 0 where
  pub level : Text
  pub is_json : Bool
  pub add_source : Bool
  pub app_version : Text
  pub service_name : Text
  pub env : Text

pub record ProxyConfig : Type 0 where
  pub proxy_port : ℤ
  pub inbound_port : ℤ
  pub outbound_port : ℤ
  pub service_name : Text
  pub kubernetes_namespace : Text
  pub ca_cert_path : Text
  pub target_url : Text
  pub target_grpc : Text
  pub trusted_domain : Text
  pub control_plane_url : Text
  pub pod_name : Text
  pub pod_uid : Text
  pub service_account : Text
  pub logger_config : LoggerConfig

-- The fields that are not given have Go's zero values.
unfoldable pub create_proxy_config : ℤ → Text → LoggerConfig → ProxyConfig
create_proxy_config port name logger_cfg = record {
  proxy_port = port;
  inbound_port = pos 0;
  outbound_port = pos 0;
  service_name = name;
  kubernetes_namespace = codes "";
  ca_cert_path = codes "";
  target_url = codes "";
  target_grpc = codes "";
  trusted_domain = codes "";
  control_plane_url = codes "";
  pod_name = codes "";
  pod_uid = codes "";
  service_account = codes "";
  logger_config = logger_cfg;
}

-- `if value == "" { value = fallback }`
unfoldable pub or_default : Text → Text → Text
or_default value fallback = if text_eq value (codes "") then fallback else value

-- The port that the environment gives, where it is an integer, and the old one otherwise.
unfoldable pub read_port : Text → ℤ → ℤ
read_port value old =
    if text_eq value (codes "") then old else elim (atoi value) [ ok p ↦ p | err e ↦ old ]

-- `if port == 0 { port = fallback }`
unfoldable pub or_default_port : ℤ → ℤ → ℤ
or_default_port p fallback = if is_zero p then fallback else p

unfoldable pub load : (Text → Text) → ProxyConfig → ProxyConfig
load getenv pc = record pc {
  target_url = or_default (getenv (codes "TARGET_URL")) (codes "http://localhost:3005");
  target_grpc = getenv (codes "TARGET_GRPC");
  control_plane_url =
      or_default (getenv (codes "CONTROL_PLANE_URL"))
        (codes "http://localhost:8081/api/v1/identity/issue");
  ca_cert_path = or_default (getenv (codes "CA_CERT_PATH")) (codes "../certs/root_ca.crt");
  trusted_domain = or_default (getenv (codes "SPIFFE_TRUST_DOMAIN")) (codes "cluster.local");
  kubernetes_namespace = getenv (codes "KUBERNETES_NAMESPACE");
  pod_name = or_default (getenv (codes "POD_NAME")) (codes "unknown-pod");
  pod_uid = or_default (getenv (codes "POD_UID")) (codes "unknown-pod-uid");
  service_account = or_default (getenv (codes "SERVICE_ACCOUNT")) pc.service_name;
  inbound_port =
      or_default_port (read_port (getenv (codes "INBOUND_PORT")) pc.inbound_port) (pos 15006);
  outbound_port =
      or_default_port (read_port (getenv (codes "OUTBOUND_PORT")) pc.outbound_port) (pos 15001);
}
