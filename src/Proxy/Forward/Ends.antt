-- ===== src/Proxy/Forward/Ends.antt =====
-- No handler of the redirect mode leaks a connection: both ends are closed when it returns.
use sentinel_zero_trust.Common.{
  ◌≡◌, refl, ap, ◌∙◌, inl, inr, Bool, true, false, List, [], ◌∷◌, ◌++◌, Text, Result-cases,
  Bool-cases, Option-cases,
}
use sentinel_zero_trust.Std.Net.{TcpAddr, addr_string}
use sentinel_zero_trust.Utils.OriginalDest.{get_original_dest}
use sentinel_zero_trust.Proxy.Defs.{
  Proxy, ConnKind, tls_conn, tcp_conn, other_conn, Conn, World, client, upstream, Event, closed,
  dialed, tls_dialed, dial_tls_config,
}
use sentinel_zero_trust.Proxy.Forward.{
  relay_inbound, copy_inbound, relay_outbound, dial_app, forward_to_app, forward_local_app,
  handle_redirected_connection, dial_peer, forward_outbound_plain, route_outbound, outbound_body,
  handle_outbound_connection, is_own_pod,
}

-- Whether the client's and the upstream connection are open.
abbrev pub Ends : Type 0
Ends = Bool × Bool

abbrev pub open_after : Ends → Event → Ends
open_after (c, u) (dialed host) = (c, true)
open_after (c, u) (tls_dialed config addr) = (c, true)
open_after (c, u) (closed client) = (false, u)
open_after (c, u) (closed upstream) = (c, false)
open_after ends _ = ends

abbrev pub open_at_end : Ends → List Event → Ends
open_at_end ends [] = ends
open_at_end ends (ev ∷ evs) = open_at_end (open_after ends ev) evs

open_at_end-append :
    (ends : Ends) (xs ys : List Event)
    → open_at_end ends (xs ++ ys) ≡ open_at_end (open_at_end ends xs) ys
open_at_end-append ends [] ys = refl
open_at_end-append ends (ev ∷ xs) ys = open_at_end-append (open_after ends ev) xs ys

-- Started with no upstream connection, the trace ends with none.
abbrev ClosesUpstream : List Event → Type 0
ClosesUpstream evs = (c : Bool) → (open_at_end (c, false) evs).1 ≡ false

-- The last two events are deferred closes.
closes_last :
    (ends : Ends) (evs : List Event) → (open_at_end ends (evs ++ (closed upstream ∷ []))).1 ≡ false
closes_last ends evs = rw (open_at_end-append ends evs (closed upstream ∷ []))

module _ (p : Proxy) (w : World) where
  dial_app-ClosesUpstream :
      (host : Text) (run : List Event) → ClosesUpstream (dial_app p w host run)
  unfolding dial_app
  dial_app-ClosesUpstream host run c = elim (Result-cases (w.dial host)) [
    | inl (e, q) ↦ rw (q, dial_app)
    | inr (u, q) ↦ rw (q, dial_app) (closes_last (c, true) run)
  ]

  dial_peer-ClosesUpstream :
      (addr : Text) (run : List Event) → ClosesUpstream (dial_peer p w addr run)
  unfolding dial_peer
  dial_peer-ClosesUpstream addr run c = elim (Option-cases (dial_tls_config p)) [
    | inl n ↦ rw (n, dial_peer)
    | inr (config, s) ↦ elim (Result-cases (w.tls_dial config addr)) [
      | inl (e, q) ↦ rw (s, dial_peer, q)
      | inr (u, q) ↦ rw (s, dial_peer, q) (closes_last (c, true) run)
    ]
  ]

  forward_to_app-ClosesUpstream :
      (k : ConnKind) (conn : Conn) (host : Text) → ClosesUpstream (forward_to_app p w k conn host)
  unfolding forward_to_app
  forward_to_app-ClosesUpstream tls_conn conn host c = elim (Result-cases conn.handshake) [
    | inl (e, q) ↦ rw (q, forward_to_app)
    | inr (u, q) ↦ rw (q, forward_to_app) (dial_app-ClosesUpstream host (relay_inbound p w) c)
  ]
  forward_to_app-ClosesUpstream tcp_conn conn host c =
      dial_app-ClosesUpstream host (copy_inbound p w host) c
  forward_to_app-ClosesUpstream other_conn conn host c =
      dial_app-ClosesUpstream host (copy_inbound p w host) c

  forward_local_app-ClosesUpstream : (conn : Conn) → ClosesUpstream (forward_local_app p w conn)
  unfolding forward_local_app
  forward_local_app-ClosesUpstream conn c = elim (Result-cases (w.url_host p.cfg.target_url)) [
    | inl (e, q) ↦ rw (q, forward_local_app)
    | inr (host, q) ↦
        rw (q, forward_local_app) (forward_to_app-ClosesUpstream conn.kind conn host c)
  ]

  forward_outbound_plain-ClosesUpstream :
      (dst : TcpAddr) → ClosesUpstream (forward_outbound_plain p w dst)
  unfolding forward_outbound_plain
  forward_outbound_plain-ClosesUpstream dst c =
      dial_peer-ClosesUpstream (addr_string dst) (relay_outbound p w) c

  route_outbound-ClosesUpstream :
      (conn : Conn) (pod_ip : Text) (dst : TcpAddr)
      → ClosesUpstream (route_outbound p w conn pod_ip dst)
  unfolding route_outbound
  route_outbound-ClosesUpstream conn pod_ip dst c = elim (Bool-cases (is_own_pod pod_ip dst)) [
    | inl e ↦ rw (e, route_outbound) (forward_local_app-ClosesUpstream conn c)
    | inr e ↦ rw (e, route_outbound) (forward_outbound_plain-ClosesUpstream dst c)
  ]

  outbound_body-ClosesUpstream :
      (k : ConnKind) (conn : Conn) (pod_ip : Text)
      → ClosesUpstream (outbound_body p w k conn pod_ip)
  unfolding outbound_body
  outbound_body-ClosesUpstream tcp_conn conn pod_ip c =
      elim (Result-cases ((get_original_dest conn.sockopt).1)) [
        | inl (e, q) ↦ rw (q, outbound_body)
        | inr (dst, q) ↦ rw (q, outbound_body) (route_outbound-ClosesUpstream conn pod_ip dst c)
      ]
  outbound_body-ClosesUpstream tls_conn conn pod_ip c = refl
  outbound_body-ClosesUpstream other_conn conn pod_ip c = refl

  client_closed_last :
      (evs : List Event)
      → ClosesUpstream evs
      → open_at_end (true, false) (evs ++ (closed client ∷ [])) ≡ (false, false)
  client_closed_last evs h =
      open_at_end-append (true, false) evs (closed client ∷ []) ∙ ap (λ u. (false, u)) (h true)

  -- Whatever fails on the way, both handlers of the redirect mode return with the client's
  -- connection closed and with no upstream connection open.
  pub handlers_close_both :
      (conn : Conn) (pod_ip : Text)
      → (open_at_end (true, false) (handle_redirected_connection p w conn) ≡ (false, false))
        × (open_at_end (true, false) (handle_outbound_connection p w conn pod_ip) ≡ (false, false))
  unfolding handle_redirected_connection handle_outbound_connection
  handlers_close_both conn pod_ip = (
    client_closed_last (forward_local_app p w conn) (forward_local_app-ClosesUpstream conn),
    client_closed_last (outbound_body p w conn.kind conn pod_ip)
        (outbound_body-ClosesUpstream conn.kind conn pod_ip),
  )
