-- ===== src/Proxy/Forward/Routing.antt =====
-- Where the redirect mode sends a connection.
use sentinel_zero_trust.Common.{
  ◌≡◌, refl, ◌≢◌, ◌↔◌, inl, inr, true, false, some, [], ◌∷◌, Text, text_eq, text_eq_iff, ok,
  Result-cases, All, All-append, if◌then◌else◌, arith, Bool-cases,
}
use sentinel_zero_trust.Std.Net.{TcpAddr, addr_string, ip_string}
use sentinel_zero_trust.Std.Net.RoundTrip.{split_host_port-addr_string, ip_string-ne-nil}
use sentinel_zero_trust.Utils.OriginalDest.{get_original_dest}
use sentinel_zero_trust.Proxy.Defs.{
  Proxy, ConnKind, tls_conn, tcp_conn, other_conn, Conn, World, client, closed, dial_tls_config,
  TlsConfig,
}
use sentinel_zero_trust.Proxy.Forward.{
  relay_outbound, forward_local_app, handle_redirected_connection, forward_outbound_plain,
  route_outbound, outbound_body, handle_outbound_connection, is_own_pod,
}
use sentinel_zero_trust.Proxy.Forward.Dials.{
  Dials, relay_outbound-Dials, dial_peer-Dials, forward_local_app-Dials,
}

is_own_pod-eq :
    (pod_ip : Text) (dst : TcpAddr)
    → is_own_pod pod_ip dst
      ≡ (if text_eq pod_ip [] then false else text_eq (ip_string dst.ip) pod_ip)
unfolding is_own_pod
is_own_pod-eq pod_ip dst = rw (split_host_port-addr_string dst, is_own_pod)

-- The test for the proxy's own pod, which compares texts, compares the address itself: POD_IP is
-- the print of the destination's IP, and no other address has that print.
pub is_own_pod_iff :
    (pod_ip : Text) (dst : TcpAddr) → (is_own_pod pod_ip dst ≡ true) ↔ (pod_ip ≡ ip_string dst.ip)
is_own_pod_iff pod_ip dst = rw (is_own_pod-eq pod_ip dst) (
    ground (
      arith,
      text_eq_iff pod_ip [],
      text_eq_iff (ip_string dst.ip) pod_ip,
      ip_string-ne-nil dst.ip,
    ))

module _ (p : Proxy) (w : World) where
  -- A plain connection goes to the application; a TLS connection goes to a peer, in this way.
  abbrev pub ToApp : Conn → Text → Text → Type 0
  ToApp conn pod_ip host =
      (w.url_host p.cfg.target_url ≡ ok host)
      × ((dst : TcpAddr) × ((get_original_dest conn.sockopt).1 ≡ ok dst)
          × (pod_ip ≡ ip_string dst.ip))

  abbrev pub ToPeer : Conn → Text → TlsConfig → Text → Type 0
  ToPeer conn pod_ip config addr =
      (dial_tls_config p ≡ some config)
      × ((dst : TcpAddr) × ((get_original_dest conn.sockopt).1 ≡ ok dst)
          × (addr ≡ addr_string dst)
          × (pod_ip ≢ ip_string dst.ip))

  route_outbound-Dials :
      (conn : Conn) (pod_ip : Text) (dst : TcpAddr)
      → (get_original_dest conn.sockopt).1 ≡ ok dst
      → All (Dials (ToApp conn pod_ip) (ToPeer conn pod_ip)) (route_outbound p w conn pod_ip dst)
  unfolding route_outbound forward_outbound_plain
  route_outbound-Dials conn pod_ip dst found = elim (Bool-cases (is_own_pod pod_ip dst)) [
    | inl e ↦
        rw (e, route_outbound)
          (
            tt,
            forward_local_app-Dials _ _ p w conn
                λ host u _. (u, (dst, found, (is_own_pod_iff pod_ip dst).0 e)),
          )
    | inr e ↦
        rw (e, route_outbound)
          (
            tt,
            (
              tt,
              dial_peer-Dials _ _ p w (addr_string dst) (relay_outbound p w)
                  (λ config s.
                    (s, (dst, found, refl, λ q. other e ((is_own_pod_iff pod_ip dst).1 q))))
                  (relay_outbound-Dials _ _ p w),
            ),
          )
  ]
    where
      other : is_own_pod pod_ip dst ≡ false → is_own_pod pod_ip dst ≡ true → ⊥
      other f t = cc

  outbound_body-Dials :
      (k : ConnKind) (conn : Conn) (pod_ip : Text)
      → All (Dials (ToApp conn pod_ip) (ToPeer conn pod_ip)) (outbound_body p w k conn pod_ip)
  unfolding outbound_body
  outbound_body-Dials tcp_conn conn pod_ip =
      elim (Result-cases ((get_original_dest conn.sockopt).1)) [
        | inl (e, q) ↦ rw (q, outbound_body) (tt, tt)
        | inr (dst, q) ↦ rw (q, outbound_body) (route_outbound-Dials conn pod_ip dst q)
      ]
  outbound_body-Dials tls_conn conn pod_ip = (tt, tt)
  outbound_body-Dials other_conn conn pod_ip = (tt, tt)

  -- An outbound connection is passed on only by its original destination: without TLS to the
  -- target URL's host alone, and only where the destination is the proxy's own pod; to any other
  -- destination by TLS alone, with the configuration that holds the proxy's own certificate.
  pub handle_outbound_connection-Dials :
      (conn : Conn) (pod_ip : Text)
      → All
          (Dials (ToApp conn pod_ip) (ToPeer conn pod_ip))
          (handle_outbound_connection p w conn pod_ip)
  unfolding handle_outbound_connection
  handle_outbound_connection-Dials conn pod_ip =
      All-append _ (outbound_body p w conn.kind conn pod_ip) (closed client ∷ [])
        (outbound_body-Dials conn.kind conn pod_ip) (tt, tt)

  -- A TLS connection that the inbound listener of the redirect mode hands over reaches the
  -- application only after its handshake has succeeded, and reaches nothing but the application.
  pub handle_redirected_connection-Dials :
      (conn : Conn)
      → conn.kind ≡ tls_conn
      → All
          (Dials
            (λ host. (conn.handshake ≡ ok tt) × (w.url_host p.cfg.target_url ≡ ok host))
            (λ config addr. ⊥))
          (handle_redirected_connection p w conn)
  unfolding handle_redirected_connection
  handle_redirected_connection-Dials conn k = (
    tt,
    All-append _ (forward_local_app p w conn) (closed client ∷ [])
        (forward_local_app-Dials _ _ p w conn (λ host u shaken. (shaken k, u))) (tt, tt),
  )
