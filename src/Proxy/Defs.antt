-- ===== src/Proxy/Defs.antt =====
-- data-plane/internal/proxy/proxy.go: the proxy, its TLS configurations, connections, and the
-- events of which the trace of a handler consists. What the network answers is a `World`.
use sentinel_zero_trust.Common.{
  ℕ, Bool, true, false, Option, none, some, List, [], ◌∷◌, ◌++◌, Text, codes, String, Result,
  if◌then◌else◌,
}
use sentinel_zero_trust.Config.{ProxyConfig}
use sentinel_zero_trust.Grpc.{TlsCertificate}
use sentinel_zero_trust.CertManager.{CertManager, get_current_certificate}
use sentinel_zero_trust.Utils.OriginalDest.{Sockopt}

pub record Proxy : Type 0 where
  pub cfg : ProxyConfig
  pub cert_manager : CertManager
  pub ca_cert_pool : List Text

pub data ClientAuth : Type 0 where
  no_client_cert require_and_verify_client_cert : ClientAuth

-- The fields of `tls.Config` that the program sets. `get_certificate` is the answer of the
-- callback of that name, which the server side of a handshake asks.
pub record TlsConfig : Type 0 where
  pub certificates : List TlsCertificate
  pub get_certificate : Option (Option TlsCertificate)
  pub client_cas : List Text
  pub root_cas : List Text
  pub client_auth : ClientAuth
  pub server_name : Text
  pub insecure_skip_verify : Bool
  pub min_version : ℕ

abbrev pub version_tls13 : ℕ
version_tls13 = 0x0304

unfoldable pub get_inbound_tls_config : Proxy → TlsConfig
unfolding get_current_certificate
get_inbound_tls_config p = record {
  certificates = [];
  get_certificate = some (get_current_certificate p.cert_manager);
  client_cas = p.ca_cert_pool;
  root_cas = [];
  client_auth = require_and_verify_client_cert;
  server_name = codes "";
  insecure_skip_verify = false;
  min_version = version_tls13;
}

unfoldable pub get_outbound_tls_config : Proxy → Text → TlsConfig
unfolding get_current_certificate
get_outbound_tls_config p server_name = record {
  certificates = [];
  get_certificate = some (get_current_certificate p.cert_manager);
  client_cas = [];
  root_cas = p.ca_cert_pool;
  client_auth = no_client_cert;
  server_name = server_name;
  insecure_skip_verify = false;
  min_version = version_tls13;
}

-- The configuration of the outbound dials. `none` is the panic of `*GetCurrentCertificate()` at nil.
unfoldable pub dial_tls_config : Proxy → Option TlsConfig
unfolding get_current_certificate
dial_tls_config p = elim (get_current_certificate p.cert_manager) [
  | none ↦ none
  | some cert ↦ some (record {
    certificates = cert ∷ [];
    get_certificate = none;
    client_cas = [];
    root_cas = p.ca_cert_pool;
    client_auth = no_client_cert;
    server_name = codes "";
    insecure_skip_verify = true;
    min_version = version_tls13;
  })
]

-- The parts of `x509.Certificate` that name its holder.
pub record PeerCertificate : Type 0 where
  pub dns_names : List Text
  pub common_name : Text

-- The dynamic type of a `net.Conn`: `*tls.Conn`, `*net.TCPConn` or another.
pub data ConnKind : Type 0 where
  tls_conn tcp_conn other_conn : ConnKind

-- A client's connection: its type, how its handshake ends and what the peer has shown then, and
-- what the kernel says of where it was going.
pub record Conn : Type 0 where
  pub kind : ConnKind
  pub handshake : Result (Unit {0})
  pub peer_certificates : List PeerCertificate
  pub sockopt : Sockopt

pub data Request : Type 0 where
  -- RequestURI, Close, and all the rest
  request : Text → Bool → Text → Request

pub data Response : Type 0 where
  -- Close, and all the rest
  response : Bool → Text → Response

pub data ReadResult (A : Type 0) : Type 0 where
  got : A → ReadResult A
  eof unexpected_eof : ReadResult A
  failed : Text → ReadResult A

-- What one HTTP exchange over a pair of connections meets.
pub record Exchange : Type 0 where
  pub read_request : ReadResult Request
  pub write_request : Result (Unit {0})
  pub read_response : ReadResult Response
  pub write_response : Result (Unit {0})

pub record World : Type 0 where
  pub url_host : Text → Result Text  -- `url.Parse`, the host of the result
  pub dial : Text → Result (Unit {0})
  pub tls_dial : TlsConfig → Text → Result (Unit {0})
  pub exchange : Exchange
  pub forward_error : Bool  -- the copy from src to dst ends with an error
  pub backward_error : Bool
  pub dst_first : Bool  -- that copy is the first to end

pub data Level : Type 0 where
  debug info warn error : Level

-- The two ends that a handler owns.
pub data End : Type 0 where
  client upstream : End

pub data Event : Type 0 where
  log : Level → String → Event
  shook_hands : Event  -- a handshake that succeeded
  dialed : Text → Event  -- a plain dial that succeeded
  tls_dialed : TlsConfig → Text → Event  -- a TLS dial that succeeded
  copied : End → End → Text → Event
  read_request : Event
  wrote_request : Request → Event
  wrote_response : Response → Event
  body_closed : Event
  closed : End → Event
  panicked : Event

-- `proxyCopy`: two copies run until each ends, and each closes the end that it wrote to.
copy_half : Bool → End → List Event
copy_half with_error to =
    if with_error then log warn "copy error" ∷ closed to ∷ [] else closed to ∷ []

unfoldable pub proxy_copy : World → End → End → Text → List Event
unfolding copy_half
proxy_copy w dst src name =
    log info "accepted outbound redirected connection"
    ∷ copied dst src name
    ∷ (if w.dst_first
        then copy_half w.forward_error dst ++ copy_half w.backward_error src
        else copy_half w.backward_error src ++ copy_half w.forward_error dst)
