-- ===== src/Proxy/TProxy.antt =====
-- data-plane/internal/proxy/proxy.go: the connections of the TPROXY mode.
pub mod Reject
use sentinel_zero_trust.Common.{
  ◌≡◌, Bool, true, false, Option, none, some, List, [], ◌∷◌, ◌++◌, Text, codes, text_eq, Result, ok,
  err, if◌then◌else◌,
}
use sentinel_zero_trust.Std.Net.{TcpAddr, addr_string, split_host_port}
use sentinel_zero_trust.Utils.OriginalDest.{get_original_dest}
use sentinel_zero_trust.Proxy.Defs.{
  Proxy, PeerCertificate, ConnKind, tls_conn, tcp_conn, Conn, World, info, warn, error, client,
  upstream, Event, log, shook_hands, closed, proxy_copy,
}
use sentinel_zero_trust.Proxy.Identity.{extract_identity}
use sentinel_zero_trust.Proxy.Forward.{dial_app, dial_peer}

-- `getOriginalDst`: the type assertion to `*net.TCPConn` comes first.
original_dst_of : ConnKind → Conn → Result TcpAddr
original_dst_of tcp_conn conn = (get_original_dest conn.sockopt).1
original_dst_of _ conn = err (codes "not a TCP connection")

unfoldable pub get_original_dst : Conn → Result TcpAddr
unfolding original_dst_of
get_original_dst conn = original_dst_of conn.kind conn

-- `podIP != "" && host == podIP`; the error of SplitHostPort is ignored, and leaves host empty.
unfoldable pub is_for_pod : Text → TcpAddr → Bool
is_for_pod pod_ip dst =
    if text_eq pod_ip (codes "") then false else elim (split_host_port (addr_string dst)) [
      | err e ↦ text_eq (codes "") pod_ip
      | ok (host, port) ↦ text_eq host pod_ip
    ]

module _ (p : Proxy) (w : World) where
  unfoldable pub forward_local_app_tproxy : List Event
  unfolding dial_app
  forward_local_app_tproxy = elim (w.url_host p.cfg.target_url) [
    | err e ↦ log error "failed to parse target URL" ∷ []
    | ok host ↦
        dial_app p w host
          (log info "forwarding to local app (mTLS)" ∷ proxy_copy w upstream client host)
  ]

  unfoldable pub forward_outbound_tproxy : TcpAddr → List Event
  unfolding dial_peer
  forward_outbound_tproxy dst =
      log info "forwarding outbound (mTLS)"
      ∷ dial_peer p w (addr_string dst) (proxy_copy w client upstream (addr_string dst))

  route_tproxy : Text → TcpAddr → List Event
  unfolding is_for_pod
  route_tproxy pod_ip dst =
      log info "TPROXY connection"
      ∷ (if is_for_pod pod_ip dst then forward_local_app_tproxy else forward_outbound_tproxy dst)

  identified : List PeerCertificate → Conn → Text → List Event
  unfolding route_tproxy
  identified [] conn pod_ip = log error "no client certificate provided" ∷ []
  identified (cert ∷ rest) conn pod_ip = elim (get_original_dst conn) [
    | err e ↦ log warn "failed to get original destination" ∷ []
    | ok dst ↦ route_tproxy pod_ip dst
  ]

  tproxy_body : ConnKind → Conn → Text → List Event
  unfolding identified
  tproxy_body tls_conn conn pod_ip = elim conn.handshake [
    | err e ↦ log error "TLS handshake failed - rejecting connection" ∷ []
    | ok _ ↦ shook_hands ∷ identified conn.peer_certificates conn pod_ip
  ]
  tproxy_body _ conn pod_ip = log error "inbound connection is not TLS - rejected" ∷ []

  unfoldable pub handle_tproxy_connection : Conn → Text → List Event
  unfolding tproxy_body
  handle_tproxy_connection conn pod_ip = tproxy_body conn.kind conn pod_ip ++ (closed client ∷ [])
