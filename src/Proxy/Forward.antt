-- ===== src/Proxy/Forward.antt =====
-- data-plane/internal/proxy/proxy.go: where the connections that are accepted go, in the redirect
-- and the TPROXY mode. The trace of a handler begins where the accept loop starts it.
pub mod Ends
pub mod Dials
pub mod Routing
use sentinel_zero_trust.Common.{
  ◌≡◌, Bool, true, false, Option, none, some, List, [], ◌∷◌, ◌++◌, Text, codes, text_eq, Result, ok,
  err, if◌then◌else◌, not, ◌&&◌, String,
}
use sentinel_zero_trust.Std.Net.{TcpAddr, addr_string, split_host_port}
use sentinel_zero_trust.Utils.OriginalDest.{get_original_dest, Sockopt}
use sentinel_zero_trust.Proxy.Defs.{
  Proxy, dial_tls_config, PeerCertificate, ConnKind, tls_conn, tcp_conn, other_conn, Conn, World,
  TlsConfig, Level, debug, info, warn, error, End, client, upstream, Event, log, shook_hands,
  dialed, tls_dialed, closed, panicked, proxy_copy,
}
use sentinel_zero_trust.Proxy.Http.{
  Relayed, proxy_inbound_http_requests, proxy_outbound_http_requests,
}

-- The relay, and the line that is logged for its error.
unfoldable pub logged : String → Relayed → List Event
logged message (evs, none) = evs
logged message (evs, some e) = evs ++ (log error message ∷ [])

-- `podIP != "" && splitErr == nil && host == podIP`
unfoldable pub is_own_pod : Text → TcpAddr → Bool
is_own_pod pod_ip dst =
    if text_eq pod_ip (codes "") then false else elim (split_host_port (addr_string dst)) [
      | err e ↦ false
      | ok (host, port) ↦ text_eq host pod_ip
    ]

module _ (p : Proxy) (w : World) where
  -- `net.Dial` to the application, `run` between, and the deferred close.
  unfoldable pub dial_app : Text → List Event → List Event
  dial_app host run = elim (w.dial host) [
    | err e ↦ log error "failed to connect to app" ∷ []
    | ok _ ↦ dialed host ∷ (run ++ (closed upstream ∷ []))
  ]

  -- What is run between them, after TLS and without it.
  abbrev pub relay_inbound : List Event
  relay_inbound =
      log info "forwarding to local app (TLS terminated)"
      ∷ logged "inbound HTTP proxy failed" (proxy_inbound_http_requests w.exchange)

  abbrev pub copy_inbound : Text → List Event
  copy_inbound host = log info "forwarding to local app" ∷ proxy_copy w upstream client host

  -- The two branches of forwardLocalApp, by the dynamic type of the connection.
  unfoldable pub forward_to_app : ConnKind → Conn → Text → List Event
  unfolding dial_app logged
  forward_to_app tls_conn conn host = elim conn.handshake [
    | err e ↦ log error "TLS handshake failed while forwarding to local app" ∷ []
    | ok _ ↦ shook_hands ∷ dial_app host relay_inbound
  ]
  forward_to_app _ conn host = dial_app host (copy_inbound host)

  unfoldable pub forward_local_app : Conn → List Event
  unfolding forward_to_app
  forward_local_app conn = elim (w.url_host p.cfg.target_url) [
    | err e ↦ log error "failed to parse target URL" ∷ []
    | ok host ↦ forward_to_app conn.kind conn host
  ]

  unfoldable pub handle_redirected_connection : Conn → List Event
  handle_redirected_connection conn =
      log info "forwarded inbound redirected connection"
      ∷ (forward_local_app conn ++ (closed client ∷ []))

  -- The TLS dial to a destination, `run` between, and the deferred close.
  unfoldable pub dial_peer : Text → List Event → List Event
  dial_peer addr run = elim (dial_tls_config p) [
    | none ↦ panicked ∷ []
    | some config ↦ elim (w.tls_dial config addr) [
      | err e ↦ log error "failed to establish outbound mTLS" ∷ []
      | ok _ ↦ tls_dialed config addr ∷ (run ++ (closed upstream ∷ []))
    ]
  ]

  abbrev pub relay_outbound : List Event
  relay_outbound = logged "outbound HTTP proxy failed" (proxy_outbound_http_requests w.exchange)

  unfoldable pub forward_outbound_plain : TcpAddr → List Event
  unfolding dial_peer logged
  forward_outbound_plain dst =
      log info "forwarding outbound (plaintext to mTLS)"
      ∷ dial_peer (addr_string dst) relay_outbound

  unfoldable pub route_outbound : Conn → Text → TcpAddr → List Event
  route_outbound conn pod_ip dst =
      log info "resolved original destination for outbound connection"
      ∷ (if is_own_pod pod_ip dst then forward_local_app conn else forward_outbound_plain dst)

  unfoldable pub outbound_body : ConnKind → Conn → Text → List Event
  unfolding route_outbound
  outbound_body tcp_conn conn pod_ip = elim ((get_original_dest conn.sockopt).1) [
    | err e ↦ log warn "failed to get original destination for outbound connection" ∷ []
    | ok dst ↦ route_outbound conn pod_ip dst
  ]
  outbound_body _ conn pod_ip = log warn "outbound connection is not TCP" ∷ []

  unfoldable pub handle_outbound_connection : Conn → Text → List Event
  unfolding outbound_body
  handle_outbound_connection conn pod_ip =
      outbound_body conn.kind conn pod_ip ++ (closed client ∷ [])
