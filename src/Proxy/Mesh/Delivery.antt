-- ===== src/Proxy/Mesh/Delivery.antt =====
-- What an application gets from another one through two proxies.
use sentinel_zero_trust.Common.{Option, ◌≡◌, refl, sym, ap, ◌∙◌, none, some, Text, Result, ok, err}
use sentinel_zero_trust.Proxy.Defs.{
  Request, request, Response, response, ReadResult, got, eof, unexpected_eof, failed,
}
use sentinel_zero_trust.Proxy.Http.{
  prepare, finish, proxy_inbound_http_requests, proxy_outbound_http_requests,
}
use sentinel_zero_trust.Proxy.Mesh.{sent_request, sent_response, Links, server_pod, client_pod}

abbrev pub payload : Request → Text
payload (request uri close rest) = rest

abbrev pub answer : Response → Text
answer (response close rest) = rest

-- A message that net/http keeps is read as it was written, but for what names the connection.
abbrev pub Keeps : (Request → Request) → (Response → Response) → Type 0
Keeps wire wire_back =
    ((r : Request) → payload (wire r) ≡ payload r)
    × ((r : Response) → answer (wire_back r) ≡ answer r)

-- Every link has carried its message.
abbrev pub Carries : Links → Response → Type 0
Carries l resp =
    (l.to_peer ≡ ok tt)
    × (l.to_app ≡ ok tt)
    × (l.app_answers ≡ got resp)
    × (l.to_client_pod ≡ ok tt)
    × (l.to_client ≡ ok tt)

abbrev links :
    Result (Unit {0})
    → Result (Unit {0})
    → ReadResult Response
    → Result (Unit {0})
    → Result (Unit {0})
    → Option Text
    → Links
links a b c d e x = record {
  to_peer = a;
  to_app = b;
  app_answers = c;
  to_client_pod = d;
  to_client = e;
  cut = x;
}

-- The client has got this response: the application got the payload of the request and its answer
-- has come back.
abbrev pub IsDelivered :
    (Request → Request) → (Response → Response) → Links → Request → Response → Type 0
IsDelivered wire wire_back l req back =
    (resp : Response) × Carries l resp
    × (answer back ≡ answer resp)
    × (there : Request) × (sent_request (server_pod wire wire_back l (prepare req)).0 ≡ some there)
    × (payload there ≡ payload req)

none_some {ℓ} : {A : Type 0} {P : Type ℓ} {a : A} → none ≡ some a → P
none_some e = absurd cc

some_injective : {A : Type 0} {a b : A} → some a ≡ some b → a ≡ b
some_injective e = cc

answer-finish : (r : Response) → answer (finish r) ≡ answer r
unfolding finish
answer-finish (response close rest) = refl

payload-prepare : (r : Request) → payload (prepare r) ≡ payload r
unfolding prepare
payload-prepare (request uri close rest) = refl

module _ (wire : Request → Request) (wire_back : Response → Response) where
  -- The conclusions, where every link has carried its message.
  abbrev Arrived : Request → Response → Response → Type 0
  Arrived req back resp =
      (answer back ≡ answer resp) × (payload (prepare (wire (prepare req))) ≡ payload req)

  arrived :
      (req : Request) (back resp : Response)
      → Keeps wire wire_back
      → some (finish (wire_back (finish resp))) ≡ some back
      → Arrived req back resp
  arrived req back resp k h = (
    ap answer (sym (some_injective h))
        ∙ answer-finish (wire_back (finish resp))
        ∙ k.1 (finish resp)
        ∙ answer-finish resp,
    payload-prepare (wire (prepare req)) ∙ k.0 (prepare req) ∙ payload-prepare req,
  )

  cases :
      (req : Request) (back : Response) (a b : Result (Unit {0})) (c : ReadResult Response)
      (d e : Result (Unit {0})) (x : Option Text)
      → Keeps wire wire_back
      → sent_response (client_pod wire wire_back (links a b c d e x) req).0 ≡ some back
      → IsDelivered wire wire_back (links a b c d e x) req back
  unfolding client_pod server_pod proxy_outbound_http_requests proxy_inbound_http_requests
  cases req back (err m) b c d e x k h = none_some h
  cases req back (ok u) (err m) c d e none k h = none_some h
  cases req back (ok u) (err m) c d e (some x) k h = none_some h
  cases req back (ok u) (ok v) eof d e none k h = none_some h
  cases req back (ok u) (ok v) eof d e (some x) k h = none_some h
  cases req back (ok u) (ok v) unexpected_eof d e none k h = none_some h
  cases req back (ok u) (ok v) unexpected_eof d e (some x) k h = none_some h
  cases req back (ok u) (ok v) (failed m) d e none k h = none_some h
  cases req back (ok u) (ok v) (failed m) d e (some x) k h = none_some h
  cases req back (ok u) (ok v) (got resp) (err m) e none k h = none_some h
  cases req back (ok u) (ok v) (got resp) (err m) e (some x) k h = none_some h
  cases req back (ok u) (ok v) (got resp) (ok w) (err m) x k h = none_some h
  cases req back (ok u) (ok v) (got resp) (ok w) (ok y) x k h =
      let (a, b) = arrived req back resp k h in
      (resp, (refl, refl, refl, refl, refl), a, prepare (wire (prepare req)), refl, b)

  -- Where the wire keeps the payloads of messages, a client that gets a response gets what the
  -- application of the server's pod answered to the payload of its request, and all five messages
  -- of the way went through; a failure on any link, or an application that closes in place of an
  -- answer, leaves the client without a response.
  pub client_pod-IsDelivered :
      (l : Links) (req : Request) (back : Response)
      → Keeps wire wire_back
      → sent_response (client_pod wire wire_back l req).0 ≡ some back
      → IsDelivered wire wire_back l req back
  client_pod-IsDelivered l req back =
      cases req back l.to_peer l.to_app l.app_answers l.to_client_pod l.to_client l.cut

  -- Where every link carries its message, the client gets a response.
  pub client_pod-Carries :
      (l : Links) (req : Request) (resp : Response)
      → Carries l resp
      → sent_response (client_pod wire wire_back l req).0 ≡ some (finish (wire_back (finish resp)))
  unfolding client_pod server_pod proxy_outbound_http_requests proxy_inbound_http_requests
  client_pod-Carries l req resp (a, b, c, d, e) = rw (a, b, c, d, e) refl
