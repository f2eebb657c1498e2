-- ===== src/Proxy/Forward/Dials.antt =====
-- Which connections the parts of a handler can open.
use sentinel_zero_trust.Common.{
  ◌≡◌, inl, inr, Bool, true, false, none, some, String, List, Text, Result, ok, err, Result-cases,
  All, All-append, Option-cases,
}
use sentinel_zero_trust.Proxy.Defs.{
  Proxy, ConnKind, tls_conn, tcp_conn, other_conn, Conn, World, ReadResult, got, eof,
  unexpected_eof, failed, Request, Response, End, client, upstream, Event, proxy_copy, dialed,
  tls_dialed, dial_tls_config, TlsConfig,
}
use sentinel_zero_trust.Proxy.Http.{
  Relayed, proxy_inbound_http_requests, proxy_outbound_http_requests,
}
use sentinel_zero_trust.Proxy.Forward.{
  logged, relay_inbound, copy_inbound, relay_outbound, dial_app, forward_to_app, forward_local_app,
  dial_peer,
}

-- The event opens no connection, or opens one as the predicate allows.
module _ (Plain : Text → Type 0) (Tls : TlsConfig → Text → Type 0) where
  abbrev pub Dials : Event → Type 0
  Dials (dialed host) = Plain host
  Dials (tls_dialed config addr) = Tls config addr
  Dials _ = Unit

module _ (Plain : Text → Type 0) (Tls : TlsConfig → Text → Type 0) where
  abbrev pub D : Event → Type 0
  D = Dials Plain Tls

  inbound_cases :
      (rq : ReadResult Request) (wq : Result (Unit {0})) (rs : ReadResult Response)
      (wr : Result (Unit {0}))
      → All D
          (proxy_inbound_http_requests (record {
            read_request = rq;
            write_request = wq;
            read_response = rs;
            write_response = wr;
          })).0
  unfolding proxy_inbound_http_requests
  inbound_cases eof wq rs wr = (tt, tt)
  inbound_cases unexpected_eof wq rs wr = (tt, tt)
  inbound_cases (failed e) wq rs wr = tt
  inbound_cases (got req) (err e) rs wr = (tt, (tt, tt))
  inbound_cases (got req) (ok _) eof wr = (tt, (tt, (tt, (tt, tt))))
  inbound_cases (got req) (ok _) unexpected_eof wr = (tt, (tt, (tt, (tt, tt))))
  inbound_cases (got req) (ok _) (failed e) wr = (tt, (tt, (tt, tt)))
  inbound_cases (got req) (ok _) (got resp) (err e) = (tt, (tt, (tt, (tt, (tt, tt)))))
  inbound_cases (got req) (ok _) (got resp) (ok _) = (tt, (tt, (tt, (tt, (tt, (tt, tt))))))

  outbound_cases :
      (rq : ReadResult Request) (wq : Result (Unit {0})) (rs : ReadResult Response)
      (wr : Result (Unit {0}))
      → All D
          (proxy_outbound_http_requests (record {
            read_request = rq;
            write_request = wq;
            read_response = rs;
            write_response = wr;
          })).0
  unfolding proxy_outbound_http_requests
  outbound_cases eof wq rs wr = (tt, tt)
  outbound_cases unexpected_eof wq rs wr = (tt, tt)
  outbound_cases (failed e) wq rs wr = tt
  outbound_cases (got req) (err e) rs wr = (tt, (tt, tt))
  outbound_cases (got req) (ok _) eof wr = (tt, (tt, (tt, tt)))
  outbound_cases (got req) (ok _) unexpected_eof wr = (tt, (tt, (tt, tt)))
  outbound_cases (got req) (ok _) (failed e) wr = (tt, (tt, (tt, tt)))
  outbound_cases (got req) (ok _) (got resp) (err e) = (tt, (tt, (tt, (tt, (tt, tt)))))
  outbound_cases (got req) (ok _) (got resp) (ok _) = (tt, (tt, (tt, (tt, (tt, (tt, tt))))))

  logged-Dials : (m : String) (r : Relayed) → All D r.0 → All D (logged m r)
  unfolding logged
  logged-Dials m (evs, none) h = h
  logged-Dials m (evs, some e) h = All-append D evs _ h (tt, tt)

  pub copy_cases :
      (w : World) (dst src : End) (name : Text) (f b d : Bool)
      → All D (
          proxy_copy
            (record w { forward_error = f; backward_error = b; dst_first = d })
            dst
            src
            name)
  unfolding proxy_copy
  copy_cases w dst src name true true true = (tt, (tt, (tt, (tt, (tt, (tt, tt))))))
  copy_cases w dst src name true true false = (tt, (tt, (tt, (tt, (tt, (tt, tt))))))
  copy_cases w dst src name true false true = (tt, (tt, (tt, (tt, (tt, tt)))))
  copy_cases w dst src name true false false = (tt, (tt, (tt, (tt, (tt, tt)))))
  copy_cases w dst src name false true true = (tt, (tt, (tt, (tt, (tt, tt)))))
  copy_cases w dst src name false true false = (tt, (tt, (tt, (tt, (tt, tt)))))
  copy_cases w dst src name false false true = (tt, (tt, (tt, (tt, tt))))
  copy_cases w dst src name false false false = (tt, (tt, (tt, (tt, tt))))

  module _ (p : Proxy) (w : World) where
    pub relay_inbound-Dials : All D (relay_inbound p w)
    relay_inbound-Dials = (
      tt,
      logged-Dials _ _ (
          inbound_cases w.exchange.read_request w.exchange.write_request w.exchange.read_response
            w.exchange.write_response),
    )

    pub relay_outbound-Dials : All D (relay_outbound p w)
    relay_outbound-Dials = logged-Dials _ _ (
        outbound_cases w.exchange.read_request w.exchange.write_request w.exchange.read_response
          w.exchange.write_response)

    pub copy_inbound-Dials : (host : Text) → All D (copy_inbound p w host)
    copy_inbound-Dials host =
        (tt, copy_cases w upstream client host w.forward_error w.backward_error w.dst_first)

    pub dial_app-Dials :
        (host : Text) (run : List Event) → Plain host → All D run → All D (dial_app p w host run)
    unfolding dial_app
    dial_app-Dials host run plain h = elim (Result-cases (w.dial host)) [
      | inl (e, q) ↦ rw (q, dial_app) (tt, tt)
      | inr (u, q) ↦ rw (q, dial_app) (plain, All-append D run _ h (tt, tt))
    ]

    pub dial_peer-Dials :
        (addr : Text) (run : List Event)
        → ((config : TlsConfig) → dial_tls_config p ≡ some config → Tls config addr)
        → All D run
        → All D (dial_peer p w addr run)
    unfolding dial_peer
    dial_peer-Dials addr run tls h = elim (Option-cases (dial_tls_config p)) [
      | inl n ↦ rw (n, dial_peer) (tt, tt)
      | inr (config, s) ↦ elim (Result-cases (w.tls_dial config addr)) [
        | inl (e, q) ↦ rw (s, dial_peer, q) (tt, tt)
        | inr (u, q) ↦ rw (s, dial_peer, q) (tls config s, All-append D run _ h (tt, tt))
      ]
    ]

    forward_to_app-Dials :
        (k : ConnKind) (conn : Conn) (host : Text)
        → ((k ≡ tls_conn → conn.handshake ≡ ok tt) → Plain host)
        → All D (forward_to_app p w k conn host)
    unfolding forward_to_app
    forward_to_app-Dials tls_conn conn host plain = elim (Result-cases conn.handshake) [
      | inl (e, q) ↦ rw (q, forward_to_app) (tt, tt)
      | inr (u, q) ↦
          rw (q, forward_to_app)
            (tt, dial_app-Dials host (relay_inbound p w) (plain (λ k. q)) relay_inbound-Dials)
    ]
    forward_to_app-Dials tcp_conn conn host plain =
        dial_app-Dials host (copy_inbound p w host) (plain (λ k. cc)) (copy_inbound-Dials host)
    forward_to_app-Dials other_conn conn host plain =
        dial_app-Dials host (copy_inbound p w host) (plain (λ k. cc)) (copy_inbound-Dials host)

    pub forward_local_app-Dials :
        (conn : Conn)
        → ((host : Text)
            → w.url_host p.cfg.target_url ≡ ok host
            → (conn.kind ≡ tls_conn → conn.handshake ≡ ok tt)
            → Plain host)
        → All D (forward_local_app p w conn)
    unfolding forward_local_app
    forward_local_app-Dials conn plain = elim (Result-cases (w.url_host p.cfg.target_url)) [
      | inl (e, q) ↦ rw (q, forward_local_app) (tt, tt)
      | inr (host, q) ↦
          rw (q, forward_local_app) (forward_to_app-Dials conn.kind conn host (plain host q))
    ]
