-- ===== src/Proxy/Handler.antt =====
-- data-plane/internal/proxy/proxy.go: CreateProxyHandler and CoreHandlers. The reverse proxy of
-- net/http/httputil is a parameter: its answer, or the error for its ErrorHandler.
use sentinel_zero_trust.Common.{
  ◌≡◌, refl, ◌≢◌, ◌⊎◌, inl, inr, Bool, true, false, Option, none, some, List, [], ◌∷◌, Text, codes,
  text_eq, text_eq_iff, Result, ok, err, if◌then◌else◌, Bool-cases,
}
use sentinel_zero_trust.Logger.Context.{Context}
use sentinel_zero_trust.Logger.Middleware.{
  HttpRequest, Call, write_header, write_body, Served, middleware, status_code,
}
use sentinel_zero_trust.Proxy.Defs.{PeerCertificate}

-- A request at the server: its path, the peer certificates of its TLS state (`none` for `r.TLS == nil`),
-- and what the middleware reads.
pub record Incoming : Type 0 where
  pub path : Text
  pub tls : Option (List PeerCertificate)
  pub http : HttpRequest

abbrev pub ReverseProxy : Type 0
ReverseProxy = Context → Incoming → Result (List Call)

unfoldable pub has_peer : Option (List PeerCertificate) → Bool
has_peer none = false
has_peer (some []) = false
has_peer (some (cert ∷ rest)) = true

-- `proxy.ErrorHandler`
unfoldable pub error_handler : Incoming → List Call
unfolding has_peer
error_handler r = if has_peer r.tls then write_header 401 ∷ [] else write_header 502 ∷ []

unfoldable pub serve_proxy : ReverseProxy → Incoming → Context → List Call
unfolding error_handler
serve_proxy upstream r ctx = elim (upstream ctx r) [ ok calls ↦ calls | err e ↦ error_handler r ]

unfoldable pub healthz : List Call
healthz = write_header 200 ∷ write_body (codes "OK") ∷ []

-- The mux, for a path that it does not redirect: `inl` is the health answer, `inr` what the middleware
-- does around the proxy.
unfoldable pub create_proxy_handler : ReverseProxy → Incoming → Text → Text → List Call ⊎ Served
unfolding serve_proxy healthz middleware
create_proxy_handler upstream r random random' =
    if text_eq r.path (codes "/healthz")
    then inl healthz
    else inr (middleware (serve_proxy upstream r) r.http random random')

error_handler-cases :
    (r : Incoming)
    → ((has_peer r.tls ≡ true) × (error_handler r ≡ write_header 401 ∷ []))
      ⊎ ((has_peer r.tls ≡ false) × (error_handler r ≡ write_header 502 ∷ []))
unfolding error_handler
error_handler-cases r = elim (Bool-cases (has_peer r.tls)) [
  | inl e ↦ inl (e, rw e refl)
  | inr e ↦ inr (e, rw e refl)
]

serve_proxy-err :
    (upstream : ReverseProxy) (r : Incoming) (ctx : Context) (e : Text)
    → upstream ctx r ≡ err e
    → serve_proxy upstream r ctx ≡ error_handler r
unfolding serve_proxy
serve_proxy-err upstream r ctx e h = rw (h, serve_proxy) refl

middleware-error :
    (next : Context → List Call) (http : HttpRequest) (random random' : Text) (r : Incoming)
    → ((ctx : Context) → next ctx ≡ error_handler r)
    → let s = middleware next http random random' in
      (s.calls ≡ write_header s.logged_status ∷ [])
      × (s.logged_status ≡ (if has_peer r.tls then 401 else 502))
unfolding middleware status_code
middleware-error next http random random' r h = elim (error_handler-cases r) [
  | inl (p, e) ↦ rw (h, e, p) (refl, refl)
  | inr (p, e) ↦ rw (h, e, p) (refl, refl)
]

-- Where the reverse proxy fails on a request, whatever its context, every path but /healthz is
-- answered with 401 if the client has shown a certificate and with 502 if it has not, and that status
-- is logged.
pub upstream_error_status :
    (upstream : ReverseProxy) (r : Incoming) (random random' : Text) (e : Text)
    → r.path ≢ codes "/healthz"
    → ((ctx : Context) → upstream ctx r ≡ err e)
    → (s : Served) × (create_proxy_handler upstream r random random' ≡ inr s)
      × (s.calls ≡ write_header s.logged_status ∷ [])
      × (s.logged_status ≡ (if has_peer r.tls then 401 else 502))
unfolding create_proxy_handler
upstream_error_status upstream r random random' e path fails =
    let result =
      middleware-error (serve_proxy upstream r) r.http random random' r
        (λ ctx. serve_proxy-err upstream r ctx e (fails ctx)) in
    (
      middleware (serve_proxy upstream r) r.http random random',
      elim (Bool-cases (text_eq r.path (codes "/healthz"))) [
        | inl q ↦ absurd (path ((text_eq_iff r.path (codes "/healthz")).0 q))
        | inr q ↦ rw q refl
      ],
      result.0,
      result.1,
    )

-- CoreHandlers: the name of a client that has shown a certificate is logged before the proxy runs.
unfoldable pub client_cn : Option (List PeerCertificate) → Option Text
client_cn none = none
client_cn (some []) = none
client_cn (some (cert ∷ rest)) = some cert.common_name

-- `inl` is the health answer; else what is logged, and what the middleware does around the proxy.
unfoldable pub core_handlers :
    (Context → Incoming → List Call) → Incoming → Text → Text → List Call ⊎ (Option Text × Served)
unfolding healthz client_cn middleware
core_handlers proxy r random random' =
    if text_eq r.path (codes "/healthz")
    then inl healthz
    else inr (client_cn r.tls, middleware (λ ctx. proxy ctx r) r.http random random')
