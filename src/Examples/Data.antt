-- ===== src/Examples/Data.antt =====
-- The inputs of the examples.
use sentinel_zero_trust.Common.{
  ℕ, Bool, true, false, some, List, [], ◌∷◌, Text, codes, ok, err, text_eq, if◌then◌else◌,
}
use sentinel_zero_trust.Common.Int.{pos}
use sentinel_zero_trust.Grpc.{TlsCertificate, IdentityResult}
use sentinel_zero_trust.Config.{LoggerConfig, ProxyConfig, create_proxy_config, load}
use sentinel_zero_trust.CertManager.{CertManager, Params, State, Wake, Round}
use sentinel_zero_trust.Utils.Claims.{KubernetesClaims}
use sentinel_zero_trust.Utils.OriginalDest.{Sockopt}
use sentinel_zero_trust.Utils.OriginalDest.Layout.{sockaddr_in}
use sentinel_zero_trust.Std.Net.{TcpAddr}
use sentinel_zero_trust.Proxy.Defs.{
  Proxy, ConnKind, Conn, PeerCertificate, request, response, got, Exchange, World,
}
use sentinel_zero_trust.Init.Flags.{Flags}
use sentinel_zero_trust.Init.Traffic.{Packet}
use sentinel_zero_trust.Logger.Middleware.{HttpRequest}

abbrev pub old_cert : TlsCertificate
old_cert = record { certificate = some (codes "old leaf" ∷ []); private_key = codes "old key" }

abbrev pub new_cert : TlsCertificate
new_cert = record {
  certificate = some (codes "new leaf" ∷ codes "ca" ∷ []);
  private_key = codes "new key";
}

abbrev pub new_identity : IdentityResult
new_identity = record { certificate = new_cert; pod_uid = codes "uid-2" }

abbrev pub rotation_params : Params
rotation_params = record {
  namespace = codes "shop";
  service_account = codes "cart";
  pod_name = codes "cart-0";
  pod_uid = codes "uid-1";
  spiffe_id = codes "spiffe://cluster.local/ns/shop/sa/cart";
}

abbrev pub old_manager : CertManager
old_manager = record {
  current_cert = some old_cert;
  current_pod_uid = codes "uid-1";
  retry_delay = pos 60000000000;
  renewal_window = pos 300000000000;
}

abbrev pub new_manager : CertManager
new_manager = record old_manager { current_cert = some new_cert; current_pod_uid = codes "uid-2" }

abbrev pub token_state : Text → State
token_state t = record { cm = old_manager; token = some (record { mu = true; token = t }) }

-- A round in which the timer fires and the certificate is renewed.
abbrev pub renewing : Round
renewing = record {
  parse_certificate = λ der. ok (pos 900000000000);
  now = pos 0;
  request_token = λ ns sa pod uid. ok (codes "jwt-2");
  fetch = λ tok id. ok new_identity;
  retry_done = false;
  wake = Wake.timer;
}

-- One in which the control plane does not answer.
abbrev pub unanswered : Round
unanswered = record renewing { fetch = λ tok id. err (codes "unavailable") }

-- One in which the context is cancelled.
abbrev pub cancelled : Round
cancelled = record unanswered { retry_done = true; wake = Wake.done }

abbrev pub environment : Text → Text
environment name =
    if text_eq name (codes "INBOUND_PORT")
    then codes "15008"
    else if text_eq name (codes "OUTBOUND_PORT")
    then codes "70000"
    else if text_eq name (codes "PROXY_MODE")
    then codes "redirect"
    else codes ""

abbrev pub logging : LoggerConfig
logging = record {
  level = codes "Info";
  is_json = true;
  add_source = false;
  app_version = codes "0.0.1";
  service_name = codes "cart";
  env = codes "local";
}

abbrev pub proxy_config : ProxyConfig
proxy_config = load environment (create_proxy_config (pos 15006) (codes "cart") logging)

abbrev pub cart_claims : KubernetesClaims
cart_claims = record { namespace = codes "shop"; service_account_name = codes "cart" }

abbrev pub cart_proxy : Proxy
cart_proxy = record {
  cfg = proxy_config;
  cert_manager = old_manager;
  ca_cert_pool = codes "root" ∷ [];
}

abbrev pub address : ℕ → TcpAddr
address last = record { ip = record { b0 = 10; b1 = 0; b2 = 0; b3 = last }; port = 8080 }

abbrev pub options : TcpAddr → Sockopt
options a = record { dup_file = ok tt; original_dst = ok (sockaddr_in a) }

abbrev pub peer : PeerCertificate
peer = record {
  dns_names = codes "cart.shop" ∷ codes "spiffe://cluster.local/ns/shop/sa/cart" ∷ [];
  common_name = codes "cart";
}

abbrev pub connection : ConnKind → Conn
connection k = record {
  kind = k;
  handshake = ok tt;
  peer_certificates = peer ∷ [];
  sockopt = options (address 7);
}

abbrev pub whole_exchange : Exchange
whole_exchange = record {
  read_request = got (request (codes "/cart") false (codes "body"));
  write_request = ok tt;
  read_response = got (response false (codes "hello"));
  write_response = ok tt;
}

abbrev pub world : World
world = record {
  url_host = λ u. ok (codes "localhost:3005");
  dial = λ host. ok tt;
  tls_dial = λ config addr. ok tt;
  exchange = whole_exchange;
  forward_error = false;
  backward_error = false;
  dst_first = false;
}

abbrev pub init_flags : Flags
init_flags = record {
  mode = codes "TPROXY";
  inbound_port = pos 15006;
  outbound_port = pos 15001;
  service_port = codes "3005";
  proxy_uid = pos 1337;
  proxy_mark = pos 273;
  exclude_ports = codes "22,,6379";
  dry_run = true;
}

abbrev is_word : Text → List Text → Bool
is_word port [] = false
is_word port (w ∷ []) = text_eq w port
is_word port (w ∷ v ∷ ws) = false

-- A new connection to a port that no range of ports holds.
abbrev pub packet : Text → Text → Packet
packet port owner = record {
  is_tcp = true;
  is_established = false;
  matches_dport = is_word port;
  owner = owner;
}

abbrev pub http_request : HttpRequest
http_request = record {
  header = λ name. if text_eq name (codes "X-Trace-ID") then codes "abc" else codes "";
  method = codes "GET";
  request_uri = codes "/cart";
  remote_addr = codes "10.0.0.9:4000";
  context = [];
}
