-- ===== src/Proxy/Mesh.antt =====
-- data-plane/internal/proxy/proxy.go: a request on its way through two proxies. The client's pod relays it
-- from the application to the TLS connection, the server's pod from there to its application, and
-- the answer comes back. What a peer reads of a message that was written is net/http's: `wire` and
-- `wire_back`.
pub mod Delivery
use sentinel_zero_trust.Common.{
  ◌≡◌, refl, sym, ap, ◌∙◌, Bool, true, false, Option, none, some, List, [], ◌∷◌, Text, codes,
  Result, ok, err,
}
use sentinel_zero_trust.Proxy.Defs.{
  Request, request, Response, response, ReadResult, got, eof, unexpected_eof, failed, Exchange,
  Event, wrote_request, wrote_response,
}
use sentinel_zero_trust.Proxy.Http.{
  Relayed, prepare, finish, proxy_inbound_http_requests, proxy_outbound_http_requests,
}

-- The first request, and the first response, that a relay wrote.
abbrev pub sent_request : List Event → Option Request
sent_request [] = none
sent_request (wrote_request r ∷ evs) = some r
sent_request (_ ∷ evs) = sent_request evs

abbrev pub sent_response : List Event → Option Response
sent_response [] = none
sent_response (wrote_response r ∷ evs) = some r
sent_response (_ ∷ evs) = sent_response evs

-- How the four writes end, and what the application of the server's pod answers.
pub record Links : Type 0 where
  pub to_peer : Result (Unit {0})
  pub to_app : Result (Unit {0})
  pub app_answers : ReadResult Response
  pub to_client_pod : Result (Unit {0})
  pub to_client : Result (Unit {0})
  pub cut : Option Text  -- the error of a read without a response, if it is not the end

module _ (wire : Request → Request) (wire_back : Response → Response) where
  -- A handler closes its connection behind the relay, so that a peer without a response reads the end or
  -- an error.
  abbrev pub read_back : Option Text → Option Response → ReadResult Response
  read_back none none = eof
  read_back (some e) none = failed e
  read_back c (some r) = got (wire_back r)

  -- The inbound relay of the server's pod, for the request that the client's pod has sent.
  unfoldable pub server_pod : Links → Request → Relayed
  unfolding proxy_inbound_http_requests
  server_pod l req = proxy_inbound_http_requests (record {
    read_request = got (wire req);
    write_request = l.to_app;
    read_response = l.app_answers;
    write_response = l.to_client_pod;
  })

  -- The outbound relay of the client's pod.
  unfoldable pub client_pod : Links → Request → Relayed
  unfolding proxy_outbound_http_requests server_pod prepare
  client_pod l req = proxy_outbound_http_requests (record {
    read_request = got req;
    write_request = l.to_peer;
    read_response = read_back l.cut (sent_response (server_pod l (prepare req)).0);
    write_response = l.to_client;
  })
