-- ===== src/Examples/Serving.antt =====
-- Serving, and a request on its way through two proxies.
use sentinel_zero_trust.Common.{
  refl, ◌≡◌, ◌++◌, none, some, true, false, if◌then◌else◌, List, [], ◌∷◌, Text, codes, ok, err,
  arith, text_eq,
}
use sentinel_zero_trust.Common.Int.{pos}
use sentinel_zero_trust.Std.Strconv.{itoa, fmt_d}
use sentinel_zero_trust.Std.Strings.{split, fields}
use sentinel_zero_trust.Config.{load, create_proxy_config}
use sentinel_zero_trust.Proxy.Defs.{ConnKind, Request, request, Response, response, got}
use sentinel_zero_trust.Proxy.Http.{
  finish, proxy_inbound_http_requests, proxy_outbound_http_requests,
}
use sentinel_zero_trust.Proxy.Modes.{inbound, outbound, listening, Sockets}
use sentinel_zero_trust.Proxy.Modes.Serve
use sentinel_zero_trust.Proxy.Modes.Serve.{accepts, main_receives, serve, run_redirect_mode}
use sentinel_zero_trust.Proxy.Modes.Serve.Loops.{of_side, serve-started}
use sentinel_zero_trust.Proxy.Modes.Serve.Returns.{Returns, first_errors, received, serve-Returns}
use sentinel_zero_trust.Proxy.Modes.Direct
use sentinel_zero_trust.Proxy.Modes.Direct.{
  serve_ends, shutdown_ends, waiting, is_server_closed, run_direct_mode, run_direct_mode_waits,
}
use sentinel_zero_trust.Proxy.Mesh.{Links, client_pod, server_pod}
use sentinel_zero_trust.Proxy.Mesh.Delivery.{IsDelivered, client_pod-IsDelivered}
use sentinel_zero_trust.Init.Rules.{build_redirect_rules}
use sentinel_zero_trust.Init.Table.{nat, prerouting, output, not_empty}
use sentinel_zero_trust.Init.Traffic.{redirected}
use sentinel_zero_trust.Init.Traffic.Capture.{Do}
use sentinel_zero_trust.Pod.{any_address, traffic_reaches_listeners}
use sentinel_zero_trust.Examples.Data.{connection, logging, init_flags, packet}

abbrev turns : List Serve.Turn
turns =
    accepts inbound (ok (connection ConnKind.tls_conn))
    ∷ accepts outbound (ok (connection ConnKind.tcp_conn))
    ∷ accepts outbound (err (codes "closed"))
    ∷ accepts outbound (ok (connection ConnKind.tcp_conn))
    ∷ accepts inbound (err (codes "reset"))
    ∷ []

serve-started_example :
    of_side outbound (serve Serve.serving turns).started ≡ connection ConnKind.tcp_conn ∷ []
serve-started_example = serve-started outbound turns

serve-Returns_example :
    Returns
      (first_errors true true turns)
      (serve Serve.serving (turns ++ (main_receives ∷ []))).result
    × (received (serve Serve.serving turns).result ++ (serve Serve.serving turns).err_ch
        ≡ first_errors true true turns)
serve-Returns_example = serve-Returns turns

run_direct_mode_waits_example :
    let d =
      run_direct_mode Direct.serving
        (serve_ends (codes "bind: address already in use") ∷ shutdown_ends (ok tt) ∷ []) in
    (d.phase ≡ waiting)
    × (d.serves ≡ false)
    × (d.logged ≡ codes "bind: address already in use" ∷ [])
unfolding is_server_closed text_eq
run_direct_mode_waits_example =
    run_direct_mode_waits (codes "bind: address already in use") (shutdown_ends (ok tt) ∷ []) refl
      (tt, tt)

abbrev ports : Text → Text
ports name = if text_eq name (codes "INBOUND_PORT") then itoa 15006 else itoa 15001

abbrev listening_sockets : Sockets
listening_sockets = record { listen_inbound = ok tt; listen_outbound = ok tt }

traffic_reaches_listeners_example :
    let cfg = load ports (create_proxy_config (pos 15006) (codes "cart") logging) in
    ((run_redirect_mode ports cfg listening_sockets turns).listeners
      ≡ listening inbound (any_address 15006) ∷ listening outbound (any_address 15001) ∷ [])
    × Do
        (build_redirect_rules init_flags)
        (packet (codes "8080") (codes "0"))
        nat
        prerouting
        (some (redirected (itoa 15006)))
    × Do
        (build_redirect_rules init_flags)
        (packet (codes "8080") (codes "0"))
        nat
        output
        (some (redirected (itoa 15001)))
unfolding split not_empty text_eq fmt_d fields
traffic_reaches_listeners_example =
    traffic_reaches_listeners ports (pos 15006) (codes "cart") logging listening_sockets turns
      init_flags (packet (codes "8080") (codes "0")) 15006 15001
      (omega arith, omega arith, refl, refl) (omega arith, omega arith, refl, refl) refl refl
      (record { tcp = refl; fresh = refl }) (cc) refl refl

abbrev whole_links : Links
whole_links = record {
  to_peer = ok tt;
  to_app = ok tt;
  app_answers = got (response false (codes "hello"));
  to_client_pod = ok tt;
  to_client = ok tt;
  cut = none;
}

abbrev same_request : Request → Request
same_request r = r

abbrev same_response : Response → Response
same_response r = r

abbrev cart_request : Request
cart_request = request (codes "/cart") false (codes "body")

client_pod-IsDelivered_example :
    IsDelivered same_request same_response whole_links cart_request (response true (codes "hello"))
unfolding client_pod server_pod proxy_outbound_http_requests proxy_inbound_http_requests finish
client_pod-IsDelivered_example =
    client_pod-IsDelivered same_request same_response whole_links cart_request
      (response true (codes "hello")) ((λ r. refl), (λ r. refl)) refl
