-- ===== src/Proxy/TProxy/Reject.antt =====
-- In the TPROXY mode no connection is forwarded.
use sentinel_zero_trust.Common.{List, [], ◌∷◌, Text, Result, ok, err, All}
use sentinel_zero_trust.Utils.OriginalDest.{Sockopt}
use sentinel_zero_trust.Proxy.Defs.{
  Proxy, PeerCertificate, ConnKind, tls_conn, tcp_conn, other_conn, Conn, World, client, Event, log,
  shook_hands, closed,
}
use sentinel_zero_trust.Proxy.TProxy.{get_original_dst, handle_tproxy_connection}

-- The handler does nothing but log, shake hands and close the client.
abbrev pub IsRefusal : Event → Type 0
IsRefusal (log l m) = Unit
IsRefusal shook_hands = Unit
IsRefusal (closed client) = Unit
IsRefusal _ = ⊥

abbrev connection : ConnKind → Result (Unit {0}) → List PeerCertificate → Sockopt → Conn
connection k h c o = record { kind = k; handshake = h; peer_certificates = c; sockopt = o }

module _ (p : Proxy) (w : World) (pod_ip : Text) (o : Sockopt) where
  refused :
      (k : ConnKind) (h : Result (Unit {0})) (c : List PeerCertificate)
      → All IsRefusal (handle_tproxy_connection p w (connection k h c o) pod_ip)
  unfolding handle_tproxy_connection get_original_dst
  refused tcp_conn h c = (tt, (tt, tt))
  refused other_conn h c = (tt, (tt, tt))
  refused tls_conn (err e) c = (tt, (tt, tt))
  refused tls_conn (ok _) [] = (tt, (tt, (tt, tt)))
  refused tls_conn (ok _) (cert ∷ rest) = (tt, (tt, (tt, tt)))

-- No connection of the TPROXY mode is ever forwarded, to the application or to a peer: one that is
-- not TLS is refused for that, and one that is TLS is no `*net.TCPConn`, so that its original
-- destination is never found. The handler only logs, shakes hands and closes the client.
pub handle_tproxy_connection-IsRefusal :
    (p : Proxy) (w : World) (conn : Conn) (pod_ip : Text)
    → All IsRefusal (handle_tproxy_connection p w conn pod_ip)
handle_tproxy_connection-IsRefusal p w conn pod_ip =
    refused p w pod_ip conn.sockopt conn.kind conn.handshake conn.peer_certificates
