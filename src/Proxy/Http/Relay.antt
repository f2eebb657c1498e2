-- ===== src/Proxy/Http/Relay.antt =====
-- What the two HTTP relays put on the wire.
use sentinel_zero_trust.Common.{
  ◌≡◌, refl, ◌≤◌, Bool, true, false, none, some, List, [], codes, Result, ok, err, arith, All,
  count,
}
use sentinel_zero_trust.Proxy.Defs.{
  Request, request, Response, response, ReadResult, got, eof, unexpected_eof, failed, Exchange,
  Event, read_request, wrote_request, wrote_response, body_closed,
}
use sentinel_zero_trust.Proxy.Http.{
  Relayed, proxy_inbound_http_requests, proxy_outbound_http_requests,
}

abbrev pub is_read : Event → Bool
is_read read_request = true
is_read _ = false

abbrev pub is_request : Event → Bool
is_request (wrote_request r) = true
is_request _ = false

abbrev pub is_response : Event → Bool
is_response (wrote_response r) = true
is_response _ = false

abbrev pub is_body_close : Event → Bool
is_body_close body_closed = true
is_body_close _ = false

-- A request goes out with no RequestURI and with Close set, a response with Close set.
abbrev pub EndsConnection : Event → Type 0
EndsConnection (wrote_request (request uri close rest)) = (uri ≡ []) × (close ≡ true)
EndsConnection (wrote_response (response close rest)) = close ≡ true
EndsConnection _ = Unit

pub record IsSingleExchange (evs : List Event) : Type 0 where
  pub one_read : count is_read evs ≤ 1
  pub requests : count is_request evs ≤ count is_read evs
  pub responses : count is_response evs ≤ count is_request evs
  pub bodies : count is_response evs ≤ count is_body_close evs
  pub bodies_once : count is_body_close evs ≤ 1
  pub last_on_connection : All EndsConnection evs

abbrev exchange :
    ReadResult Request → Result (Unit {0}) → ReadResult Response → Result (Unit {0}) → Exchange
exchange rq wq rs wr = record {
  read_request = rq;
  write_request = wq;
  read_response = rs;
  write_response = wr;
}

inbound_cases :
    (rq : ReadResult Request) (wq : Result (Unit {0})) (rs : ReadResult Response)
    (wr : Result (Unit {0}))
    → IsSingleExchange (proxy_inbound_http_requests (exchange rq wq rs wr)).0
unfolding proxy_inbound_http_requests
inbound_cases eof wq rs wr = ground arith
inbound_cases unexpected_eof wq rs wr = ground arith
inbound_cases (failed e) wq rs wr = ground arith
inbound_cases (got (request uri c r)) (err e) rs wr = ground arith
inbound_cases (got (request uri c r)) (ok _) eof wr = ground arith
inbound_cases (got (request uri c r)) (ok _) unexpected_eof wr = ground arith
inbound_cases (got (request uri c r)) (ok _) (failed e) wr = ground arith
inbound_cases (got (request uri c r)) (ok _) (got (response d t)) (err e) = ground arith
inbound_cases (got (request uri c r)) (ok _) (got (response d t)) (ok _) = ground arith

outbound_cases :
    (rq : ReadResult Request) (wq : Result (Unit {0})) (rs : ReadResult Response)
    (wr : Result (Unit {0}))
    → IsSingleExchange (proxy_outbound_http_requests (exchange rq wq rs wr)).0
unfolding proxy_outbound_http_requests
outbound_cases eof wq rs wr = ground arith
outbound_cases unexpected_eof wq rs wr = ground arith
outbound_cases (failed e) wq rs wr = ground arith
outbound_cases (got (request uri c r)) (err e) rs wr = ground arith
outbound_cases (got (request uri c r)) (ok _) eof wr = ground arith
outbound_cases (got (request uri c r)) (ok _) unexpected_eof wr = ground arith
outbound_cases (got (request uri c r)) (ok _) (failed e) wr = ground arith
outbound_cases (got (request uri c r)) (ok _) (got (response d t)) (err e) = ground arith
outbound_cases (got (request uri c r)) (ok _) (got (response d t)) (ok _) = ground arith

-- A relay moves at most one request and one response over its two connections, marks each as the
-- last of its connection, and closes the body of every response that it writes, once.
pub relay-IsSingleExchange :
    (x : Exchange)
    → IsSingleExchange (proxy_inbound_http_requests x).0
      × IsSingleExchange (proxy_outbound_http_requests x).0
relay-IsSingleExchange x = (
  inbound_cases x.read_request x.write_request x.read_response x.write_response,
  outbound_cases x.read_request x.write_request x.read_response x.write_response,
)

-- Every step of the exchange has gone through.
abbrev pub Succeeds : Exchange → Type 0
Succeeds x =
    ((req : Request) × (x.read_request ≡ got req))
    × (x.write_request ≡ ok tt)
    × ((resp : Response) × (x.read_response ≡ got resp))
    × (x.write_response ≡ ok tt)

inbound_responds :
    (rq : ReadResult Request) (wq : Result (Unit {0})) (rs : ReadResult Response)
    (wr : Result (Unit {0}))
    → count is_response (proxy_inbound_http_requests (exchange rq wq rs wr)).0 ≡ 1
    → Succeeds (exchange rq wq rs wr)
      × ((proxy_inbound_http_requests (exchange rq wq rs wr)).1 ≡ none)
unfolding proxy_inbound_http_requests
inbound_responds eof wq rs wr h = absurd (omega arith)
inbound_responds unexpected_eof wq rs wr h = absurd (omega arith)
inbound_responds (failed e) wq rs wr h = absurd (omega arith)
inbound_responds (got req) (err e) rs wr h = absurd (omega arith)
inbound_responds (got req) (ok _) eof wr h = absurd (omega arith)
inbound_responds (got req) (ok _) unexpected_eof wr h = absurd (omega arith)
inbound_responds (got req) (ok _) (failed e) wr h = absurd (omega arith)
inbound_responds (got req) (ok _) (got resp) (err e) h = absurd (omega arith)
inbound_responds (got req) (ok u) (got resp) (ok v) h =
    (((req, refl), refl, (resp, refl), refl), refl)

outbound_responds :
    (rq : ReadResult Request) (wq : Result (Unit {0})) (rs : ReadResult Response)
    (wr : Result (Unit {0}))
    → count is_response (proxy_outbound_http_requests (exchange rq wq rs wr)).0 ≡ 1
    → Succeeds (exchange rq wq rs wr)
      × ((proxy_outbound_http_requests (exchange rq wq rs wr)).1 ≡ none)
unfolding proxy_outbound_http_requests
outbound_responds eof wq rs wr h = absurd (omega arith)
outbound_responds unexpected_eof wq rs wr h = absurd (omega arith)
outbound_responds (failed e) wq rs wr h = absurd (omega arith)
outbound_responds (got req) (err e) rs wr h = absurd (omega arith)
outbound_responds (got req) (ok _) eof wr h = absurd (omega arith)
outbound_responds (got req) (ok _) unexpected_eof wr h = absurd (omega arith)
outbound_responds (got req) (ok _) (failed e) wr h = absurd (omega arith)
outbound_responds (got req) (ok _) (got resp) (err e) h = absurd (omega arith)
outbound_responds (got req) (ok u) (got resp) (ok v) h =
    (((req, refl), refl, (resp, refl), refl), refl)

silent_cases :
    (req : Request) (u : Unit {0}) (wr : Result (Unit {0}))
    → let x = exchange (got req) (ok u) eof wr in
      (count is_response (proxy_inbound_http_requests x).0 ≡ 0)
      × (count is_response (proxy_outbound_http_requests x).0 ≡ 0)
      × ((proxy_inbound_http_requests x).1 ≡ none)
      × ((proxy_outbound_http_requests x).1 ≡ some (codes "EOF"))
unfolding proxy_inbound_http_requests proxy_outbound_http_requests
silent_cases (request uri c r) u wr = (refl, refl, refl, refl)

pub data Direction : Type 0 where
  inbound outbound : Direction

abbrev pub relay : Direction → Exchange → Relayed
relay inbound x = proxy_inbound_http_requests x
relay outbound x = proxy_outbound_http_requests x

-- A relay that has written a response to its client has gone through all four steps of the
-- exchange, and answers no error.
pub relay-Succeeds :
    (d : Direction) (x : Exchange)
    → count is_response (relay d x).0 ≡ 1
    → Succeeds x × ((relay d x).1 ≡ none)
relay-Succeeds inbound x =
    inbound_responds x.read_request x.write_request x.read_response x.write_response
relay-Succeeds outbound x =
    outbound_responds x.read_request x.write_request x.read_response x.write_response

-- Where the answering side closes the connection in place of a response, the client has had its
-- request sent and gets nothing: the inbound relay answers no error, the outbound relay "EOF".
pub relay_silent :
    (x : Exchange) (req : Request)
    → x.read_request ≡ got req
    → x.write_request ≡ ok tt
    → x.read_response ≡ eof
    → (count is_response (relay inbound x).0 ≡ 0)
      × (count is_response (relay outbound x).0 ≡ 0)
      × ((relay inbound x).1 ≡ none)
      × ((relay outbound x).1 ≡ some (codes "EOF"))
relay_silent x req rq wq rs = rw (rq, wq, rs) (silent_cases req tt x.write_response)
