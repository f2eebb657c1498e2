-- ===== src/Proxy/Outbound.antt =====
-- data-plane/internal/proxy/proxy.go: forwardOutbound, which passes a TLS client on to a peer. Nothing
-- calls it at present.
use sentinel_zero_trust.Common.{
  ◌≡◌, refl, ◌≢◌, inl, inr, Option-cases, Result-cases, true, false, none, some, List, [], ◌∷◌,
  ◌++◌, Text, ok, err, arith,
}
use sentinel_zero_trust.Std.Net.{TcpAddr, addr_string}
use sentinel_zero_trust.Proxy.Defs.{
  Proxy, TlsConfig, dial_tls_config, PeerCertificate, ConnKind, tls_conn, tcp_conn, other_conn,
  Conn, World, info, error, client, upstream, Event, log, shook_hands, tls_dialed, closed, panicked,
  proxy_copy,
}
use sentinel_zero_trust.Proxy.Forward.Ends.{open_at_end}

module _ (p : Proxy) (w : World) where
  -- From the dial on; `none` is the panic of `*GetCurrentCertificate()` at nil.
  outbound_dial : Text → List Event
  outbound_dial addr = elim (dial_tls_config p) [
    | none ↦ panicked ∷ []
    | some config ↦ elim (w.tls_dial config addr) [
      | err e ↦ log error "failed to establish outbound mTLS" ∷ closed client ∷ []
      | ok _ ↦
          tls_dialed config addr ∷ (proxy_copy w client upstream addr ++ (closed upstream ∷ []))
    ]
  ]

  outbound_identified : List PeerCertificate → Text → List Event
  unfolding outbound_dial
  outbound_identified [] addr = log error "no client certificate provided" ∷ closed client ∷ []
  outbound_identified (cert ∷ rest) addr = log info "outbound request" ∷ outbound_dial addr

  outbound_by : ConnKind → Conn → Text → List Event
  unfolding outbound_identified
  outbound_by tls_conn conn addr = elim conn.handshake [
    | err e ↦ log error "TLS handshake failed" ∷ closed client ∷ []
    | ok _ ↦ shook_hands ∷ outbound_identified conn.peer_certificates addr
  ]
  outbound_by _ conn addr = log error "inbound connection is not TLS" ∷ closed client ∷ []

  unfoldable pub forward_outbound : Conn → TcpAddr → List Event
  unfolding outbound_by
  forward_outbound conn dst = outbound_by conn.kind conn (addr_string dst)

  relay_closes :
      (config : TlsConfig) (addr : Text)
      → open_at_end
          (true, false)
          (tls_dialed config addr ∷ (proxy_copy w client upstream addr ++ (closed upstream ∷ [])))
        ≡ (false, false)
  unfolding proxy_copy
  relay_closes config addr = ground arith

  outbound_dial_closes :
      (addr : Text)
      → dial_tls_config p ≢ none
      → open_at_end (true, false) (outbound_dial addr) ≡ (false, false)
  unfolding outbound_dial proxy_copy
  outbound_dial_closes addr h = elim (Option-cases (dial_tls_config p)) [
    | inl q ↦ absurd (h q)
    | inr (config, q) ↦ elim (Result-cases (w.tls_dial config addr)) [
      | inl (e, d) ↦ rw (q, d, outbound_dial) refl
      | inr (u, d) ↦ rw (q, d, outbound_dial) (relay_closes config addr)
    ]
  ]

  outbound_identified_closes :
      (certs : List PeerCertificate) (addr : Text)
      → dial_tls_config p ≢ none
      → open_at_end (true, false) (outbound_identified certs addr) ≡ (false, false)
  unfolding outbound_identified
  outbound_identified_closes [] addr h = refl
  outbound_identified_closes (cert ∷ rest) addr h = outbound_dial_closes addr h

  outbound_by_closes :
      (k : ConnKind) (conn : Conn) (addr : Text)
      → dial_tls_config p ≢ none
      → open_at_end (true, false) (outbound_by k conn addr) ≡ (false, false)
  unfolding outbound_by
  outbound_by_closes tcp_conn conn addr h = refl
  outbound_by_closes other_conn conn addr h = refl
  outbound_by_closes tls_conn conn addr h = elim (Result-cases conn.handshake) [
    | inl (e, q) ↦ rw (q, outbound_by) refl
    | inr (u, q) ↦ rw (q, outbound_by) (outbound_identified_closes conn.peer_certificates addr h)
  ]

  -- With a certificate to show, forwardOutbound returns with the client's connection closed and no
  -- upstream connection open, whatever fails.
  pub forward_outbound_closes :
      (conn : Conn) (dst : TcpAddr)
      → dial_tls_config p ≢ none
      → open_at_end (true, false) (forward_outbound conn dst) ≡ (false, false)
  unfolding forward_outbound
  forward_outbound_closes conn dst h = outbound_by_closes conn.kind conn (addr_string dst) h
