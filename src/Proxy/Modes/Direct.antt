-- ===== src/Proxy/Modes/Direct.antt =====
-- data-plane/internal/proxy/proxy.go: the run of the direct mode. The goroutine that serves, the signals
-- and the shutdown take their turns in any order; net/http answers how serving and the shutdown end.
use sentinel_zero_trust.Common.{
  ◌≡◌, refl, ap, ◌∙◌, Bool, true, false, Option, none, some, List, [], ◌∷◌, ◌++◌, Text, codes,
  text_eq, Result, ok, err, if◌then◌else◌, All, inl, inr, Bool-cases,
}
use sentinel_zero_trust.Std.Strconv.{fmt_d}
use sentinel_zero_trust.Proxy.Defs.{Proxy, TlsConfig, get_inbound_tls_config}

-- What the `http.Server` is made of; its handler is `create_proxy_handler`.
pub record HttpServer : Type 0 where
  pub addr : Text
  pub target : Option Text  -- the URL of the reverse proxy: nil where it does not parse
  pub tls_config : TlsConfig

unfoldable pub direct_server : (Text → Result Text) → Proxy → HttpServer
unfolding fmt_d get_inbound_tls_config
direct_server url_parse p = record {
  addr = codes ":" ++ fmt_d p.cfg.proxy_port;
  target = elim (url_parse p.cfg.target_url) [ ok url ↦ some url | err e ↦ none ];
  tls_config = get_inbound_tls_config p;
}

-- The goroutine, and the one that runs the mode.
pub data Phase : Type 0 where
  waiting : Phase  -- at `<-stop`
  shutting_down : Phase  -- in `server.Shutdown`
  returned : Result (Unit {0}) → Phase

pub record Direct : Type 0 where
  pub serves : Bool
  pub logged : List Text  -- the lines "server error"
  pub phase : Phase

abbrev pub serving : Direct
serving = record { serves = true; logged = []; phase = waiting }

pub data Turn : Type 0 where
  serve_ends : Text → Turn  -- `ListenAndServeTLS` returns this error
  signal : Turn
  shutdown_ends : Result (Unit {0}) → Turn

-- `http.ErrServerClosed`
unfoldable pub is_server_closed : Text → Bool
is_server_closed e = text_eq e (codes "http: Server closed")

unfoldable pub end_serving : Text → Direct → Direct
unfolding is_server_closed
end_serving e d = record d {
  serves = false;
  logged = if is_server_closed e then d.logged else d.logged ++ (e ∷ []);
}

-- The turn of the goroutine that runs the mode: a signal wakes it, and it returns what the shutdown
-- answers. A turn that does not fit its phase changes nothing.
unfoldable pub main_turn : Phase → Turn → Phase
main_turn waiting signal = shutting_down
main_turn shutting_down (shutdown_ends r) = returned r
main_turn phase t = phase

unfoldable pub direct_turn : Direct → Turn → Direct
unfolding end_serving main_turn
direct_turn d (serve_ends e) = if d.serves then end_serving e d else d
direct_turn d t = record d { phase = main_turn d.phase t }

unfoldable pub run_direct_mode : Direct → List Turn → Direct
unfolding direct_turn
run_direct_mode d [] = d
run_direct_mode d (t ∷ ts) = run_direct_mode (direct_turn d t) ts

-- No signal has come.
abbrev pub IsQuiet : Turn → Type 0
IsQuiet signal = ⊥
IsQuiet (serve_ends e) = Unit
IsQuiet (shutdown_ends r) = Unit

phase-serve_ends : (d : Direct) (e : Text) → (direct_turn d (serve_ends e)).phase ≡ d.phase
unfolding direct_turn end_serving
phase-serve_ends d e = elim (Bool-cases d.serves) [
  | inl s ↦ rw (s, direct_turn) refl
  | inr s ↦ rw (s, direct_turn) refl
]

pub direct_waits :
    (ts : List Turn) (d : Direct)
    → d.phase ≡ waiting
    → All IsQuiet ts
    → (run_direct_mode d ts).phase ≡ waiting
unfolding run_direct_mode direct_turn main_turn
direct_waits [] d w h = w
direct_waits (serve_ends e ∷ ts) d w (_, h) =
    direct_waits ts (direct_turn d (serve_ends e)) (phase-serve_ends d e ∙ w) h
direct_waits (shutdown_ends r ∷ ts) d w (_, h) =
    direct_waits ts (direct_turn d (shutdown_ends r)) (ap (λ p. main_turn p (shutdown_ends r)) w) h
direct_waits (signal ∷ ts) d w (h, _) = absurd h

abbrev Stopped : Direct → Direct → Type 0
Stopped d end = (end.serves ≡ false) × (end.logged ≡ d.logged)

Stopped-from :
    (ts : List Turn) {c d : Direct}
    → c ≡ d
    → Stopped d (run_direct_mode d ts)
    → Stopped d (run_direct_mode c ts)
Stopped-from ts e h = rw e h

direct_turn_over : (d : Direct) (e : Text) → d.serves ≡ false → direct_turn d (serve_ends e) ≡ d
unfolding direct_turn
direct_turn_over d e s = ap (λ b. if b then end_serving e d else d) s

direct-Stopped : (ts : List Turn) (d : Direct) → d.serves ≡ false → Stopped d (run_direct_mode d ts)
unfolding run_direct_mode direct_turn
direct-Stopped [] d s = (s, refl)
direct-Stopped (serve_ends e ∷ ts) d s =
    Stopped-from ts (direct_turn_over d e s) (direct-Stopped ts d s)
direct-Stopped (signal ∷ ts) d s = direct-Stopped ts (direct_turn d signal) s
direct-Stopped (shutdown_ends r ∷ ts) d s = direct-Stopped ts (direct_turn d (shutdown_ends r)) s

-- Where the server cannot listen, or stops with any error but that of a shutdown, the direct mode logs
-- the error and goes on waiting for a signal, with nothing served: it does not return, however long
-- no signal comes.
pub run_direct_mode_waits :
    (e : Text) (ts : List Turn)
    → is_server_closed e ≡ false
    → All IsQuiet ts
    → let d = run_direct_mode serving (serve_ends e ∷ ts) in
      (d.phase ≡ waiting) × (d.serves ≡ false) × (d.logged ≡ e ∷ [])
unfolding run_direct_mode direct_turn end_serving
run_direct_mode_waits e ts c h =
    let d = end_serving e serving in
    (
      direct_waits ts d refl h,
      (direct-Stopped ts d refl).0,
      (direct-Stopped ts d refl).1 ∙ rw c refl,
    )
