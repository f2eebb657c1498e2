-- ===== src/Proxy/Http.antt =====
-- data-plane/internal/proxy/proxy.go: the two HTTP relays. The body of each `for` returns on every
-- path, so a relay is one pass of it. A relay answers its error, if any.
pub mod Relay
use sentinel_zero_trust.Common.{
  ℕ, ◌≡◌, refl, ◌≤◌, ◌⊎◌, inl, inr, Bool, true, false, Option, none, some, List, [], ◌∷◌, ◌++◌,
  Text, codes, Result, ok, err, arith, if◌then◌else◌,
}
use sentinel_zero_trust.Proxy.Defs.{
  Request, request, Response, response, ReadResult, got, eof, unexpected_eof, failed, Exchange,
  Event, log, debug, info, read_request, wrote_request, wrote_response, body_closed,
}

abbrev pub Relayed : Type 0
Relayed = List Event × Option Text

abbrev pub after : List Event → Relayed → Relayed
after evs (more, e) = (evs ++ more, e)

-- `req.RequestURI = ""; req.Close = true`
unfoldable pub prepare : Request → Request
prepare (request uri close rest) = request (codes "") true rest

unfoldable pub finish : Response → Response
finish (response close rest) = response true rest

-- `resp.Close = true; resp.Write(clientConn); resp.Body.Close()`
write_back : Exchange → Response → Relayed
unfolding finish
write_back x resp = elim x.write_response [
  | err e ↦ (body_closed ∷ [], some e)
  | ok _ ↦ (wrote_response (finish resp) ∷ body_closed ∷ [], none)
]

inbound_response : Exchange → Relayed
unfolding write_back
inbound_response x = elim x.read_response [
  | eof ↦ (log debug "inbound HTTP request (EOF)" ∷ [], none)
  | unexpected_eof ↦ (log debug "inbound HTTP request (EOF)" ∷ [], none)
  | failed e ↦ ([], some e)
  | got resp ↦ after (log info "inbound HTTP response" ∷ []) (write_back x resp)
]

inbound_request : Exchange → Request → Relayed
unfolding prepare inbound_response
inbound_request x req =
    after (read_request ∷ log info "inbound HTTP request" ∷ []) (elim x.write_request [
      | err e ↦ ([], some e)
      | ok _ ↦ after (wrote_request (prepare req) ∷ []) (inbound_response x)
    ])

unfoldable pub proxy_inbound_http_requests : Exchange → Relayed
unfolding inbound_request
proxy_inbound_http_requests x = elim x.read_request [
  | eof ↦ (log debug "inbound HTTP request (EOF)" ∷ [], none)
  | unexpected_eof ↦ (log debug "inbound HTTP request (EOF)" ∷ [], none)
  | failed e ↦ ([], some e)
  | got req ↦ inbound_request x req
]

-- Here the end of the stream in place of a response is an error.
outbound_response : Exchange → Relayed
unfolding write_back
outbound_response x = elim x.read_response [
  | eof ↦ ([], some (codes "EOF"))
  | unexpected_eof ↦ ([], some (codes "unexpected EOF"))
  | failed e ↦ ([], some e)
  | got resp ↦ after (log info "outbound HTTP response" ∷ []) (write_back x resp)
]

outbound_request : Exchange → Request → Relayed
unfolding prepare outbound_response
outbound_request x req =
    after (read_request ∷ log info "outbound HTTP request" ∷ []) (elim x.write_request [
      | err e ↦ ([], some e)
      | ok _ ↦ after (wrote_request (prepare req) ∷ []) (outbound_response x)
    ])

unfoldable pub proxy_outbound_http_requests : Exchange → Relayed
unfolding outbound_request
proxy_outbound_http_requests x = elim x.read_request [
  | eof ↦ (log debug "inbound HTTP request (EOF)" ∷ [], none)
  | unexpected_eof ↦ (log debug "inbound HTTP request (EOF)" ∷ [], none)
  | failed e ↦ ([], some e)
  | got req ↦ outbound_request x req
]
