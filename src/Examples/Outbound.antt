-- ===== src/Examples/Outbound.antt =====
-- The handlers of the proxy.
use sentinel_zero_trust.Common.{◌≡◌, refl, true, false, [], ◌∷◌, codes, ok, All}
use sentinel_zero_trust.Utils.OriginalDest.{get_original_dest, file_opened, file_closed}
use sentinel_zero_trust.Utils.OriginalDest.Layout.{sockaddr_in, get_original_dest-sockaddr_in}
use sentinel_zero_trust.Proxy.Defs.{tls_conn, tcp_conn}
use sentinel_zero_trust.Proxy.Forward.{handle_redirected_connection, handle_outbound_connection}
use sentinel_zero_trust.Proxy.Forward.Ends.{open_at_end, handlers_close_both}
use sentinel_zero_trust.Proxy.Forward.Dials.{Dials}
use sentinel_zero_trust.Proxy.Forward.Routing.{
  ToApp, ToPeer, handle_outbound_connection-Dials, handle_redirected_connection-Dials,
}
use sentinel_zero_trust.Proxy.TProxy.{handle_tproxy_connection}
use sentinel_zero_trust.Proxy.TProxy.Reject.{IsRefusal, handle_tproxy_connection-IsRefusal}
use sentinel_zero_trust.Examples.Data.{cart_proxy, world, connection, address}

handle_outbound_connection-Dials_example :
    All
      (Dials
        (ToApp cart_proxy world (connection tcp_conn) (codes "10.0.0.8"))
        (ToPeer cart_proxy world (connection tcp_conn) (codes "10.0.0.8")))
      (handle_outbound_connection cart_proxy world (connection tcp_conn) (codes "10.0.0.8"))
handle_outbound_connection-Dials_example =
    handle_outbound_connection-Dials cart_proxy world (connection tcp_conn) (codes "10.0.0.8")

handle_redirected_connection-Dials_example :
    All
      (Dials
        (λ host.
          ((connection tls_conn).handshake ≡ ok tt)
          × (world.url_host cart_proxy.cfg.target_url ≡ ok host))
        (λ config addr. ⊥))
      (handle_redirected_connection cart_proxy world (connection tls_conn))
handle_redirected_connection-Dials_example =
    handle_redirected_connection-Dials cart_proxy world (connection tls_conn) refl

handlers_close_both_example :
    (open_at_end (true, false) (handle_redirected_connection cart_proxy world (connection tls_conn))
      ≡ (false, false))
    × (open_at_end
          (true, false)
          (handle_outbound_connection cart_proxy world (connection tls_conn) (codes "10.0.0.7"))
        ≡ (false, false))
handlers_close_both_example =
    handlers_close_both cart_proxy world (connection tls_conn) (codes "10.0.0.7")

handle_tproxy_connection-IsRefusal_example :
    All IsRefusal
      (handle_tproxy_connection cart_proxy world (connection tls_conn) (codes "10.0.0.7"))
handle_tproxy_connection-IsRefusal_example =
    handle_tproxy_connection-IsRefusal cart_proxy world (connection tls_conn) (codes "10.0.0.7")

get_original_dest-sockaddr_in_example :
    get_original_dest (record { dup_file = ok tt; original_dst = ok (sockaddr_in (address 7)) })
    ≡ (file_opened ∷ file_closed ∷ [], ok (address 7))
get_original_dest-sockaddr_in_example = get_original_dest-sockaddr_in (address 7)
