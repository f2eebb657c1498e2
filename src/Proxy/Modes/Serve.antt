-- ===== src/Proxy/Modes/Serve.antt =====
-- data-plane/internal/proxy/proxy.go: the accept loops of the redirect and the TPROXY mode, the channel
-- of their errors, and the runs of the two modes. The turns of the two loops and of the goroutine
-- that waits on the channel come in any order.
pub mod Loops
pub mod Returns
pub mod Runs
pub mod Order
pub mod Goroutines
use sentinel_zero_trust.Common.{
  ℕ, Bool, true, false, Option, none, some, List, [], ◌∷◌, ◌++◌, Text, codes, text_eq, Result, ok,
  err, if◌then◌else◌, ltb, length,
}
use sentinel_zero_trust.Config.{ProxyConfig}
use sentinel_zero_trust.Proxy.Defs.{Proxy, Conn, World, Event}
use sentinel_zero_trust.Proxy.Forward.{handle_redirected_connection, handle_outbound_connection}
use sentinel_zero_trust.Proxy.TProxy.{handle_tproxy_connection}
use sentinel_zero_trust.Proxy.Modes.{
  Side, inbound, outbound, ListenEvent, Sockets, TProxyCalls, tproxy_sockets, redirect_addr,
  tproxy_addr, wrap_redirect, wrap_tproxy, listen_both,
}

-- `make(chan error, 2)`
abbrev pub err_ch_size : ℕ
err_ch_size = 2

-- The two accept loops, the channel, the connections for which a goroutine has been started, and
-- what `<-errCh` has answered.
pub record Server : Type 0 where
  pub inbound_runs : Bool
  pub outbound_runs : Bool
  pub err_ch : List Text
  pub started : List (Side × Conn)
  pub result : Option Text

abbrev pub serving : Server
serving = record {
  inbound_runs = true;
  outbound_runs = true;
  err_ch = [];
  started = [];
  result = none;
}

pub data Turn : Type 0 where
  accepts : Side → Result Conn → Turn  -- a loop, and what `Accept` answers it
  main_receives : Turn

abbrev pub runs : Side → Server → Bool
runs inbound s = s.inbound_runs
runs outbound s = s.outbound_runs

abbrev pub stop : Side → Server → Server
stop inbound s = record s { inbound_runs = false }
stop outbound s = record s { outbound_runs = false }

unfoldable pub accept_error : Side → Text → Text
accept_error inbound e = codes "inbound accept error: " ++ e
accept_error outbound e = codes "outbound accept error: " ++ e

-- `errCh <- …; return`: a send on a full channel blocks the loop for good.
unfoldable pub send_error : Side → Text → Server → Server
send_error side e s =
    if ltb (length s.err_ch) err_ch_size then record s { err_ch = s.err_ch ++ (e ∷ []) } else s

-- One pass of a loop.
unfoldable pub accept_pass : Side → Result Conn → Server → Server
unfolding send_error accept_error
accept_pass side (err e) s = stop side (send_error side (accept_error side e) s)
accept_pass side (ok conn) s = record s { started = s.started ++ ((side, conn) ∷ []) }

-- `return <-errCh`
unfoldable pub receive_error : List Text → Server → Server
receive_error [] s = s
receive_error (e ∷ rest) s = record s { err_ch = rest; result = some e }

unfoldable pub main_pass : Option Text → Server → Server
main_pass none s = receive_error s.err_ch s
main_pass (some e) s = s

unfoldable pub turn : Server → Turn → Server
unfolding accept_pass main_pass receive_error
turn s (accepts side answer) = if runs side s then accept_pass side answer s else s
turn s main_receives = main_pass s.result s

unfoldable pub serve : Server → List Turn → Server
unfolding turn
serve s [] = s
serve s (t ∷ ts) = serve (turn s t) ts

-- A mode that cannot listen returns at once.
abbrev pub not_serving : Text → Server
not_serving e = record {
  inbound_runs = false;
  outbound_runs = false;
  err_ch = [];
  started = [];
  result = some e;
}

-- What a run does: the warning of an empty POD_IP, the listeners, and the server.
pub record Ran : Type 0 where
  pub warned : Bool
  pub listeners : List ListenEvent
  pub server : Server

unfoldable pub run_mode :
    (Text → Text) → (Side → Text) → (Side → Text → Text) → Sockets → List Turn → Ran
unfolding listen_both serve
run_mode getenv addr wrap sockets turns =
    let (events, answer) = listen_both addr wrap sockets in
    record {
      warned = text_eq (getenv (codes "POD_IP")) (codes "");
      listeners = events;
      server = elim answer [ err e ↦ not_serving e | ok _ ↦ serve serving turns ];
    }

unfoldable pub run_redirect_mode : (Text → Text) → ProxyConfig → Sockets → List Turn → Ran
unfolding run_mode redirect_addr wrap_redirect
run_redirect_mode getenv cfg = run_mode getenv (redirect_addr cfg) (wrap_redirect cfg)

unfoldable pub run_tproxy_mode :
    (Text → Text) → ProxyConfig → TProxyCalls → Result (Unit {0}) → List Turn → Ran
unfolding run_mode tproxy_sockets tproxy_addr wrap_tproxy
run_tproxy_mode getenv cfg calls listen_outbound =
    run_mode getenv (tproxy_addr cfg) (wrap_tproxy cfg) (tproxy_sockets calls listen_outbound)

-- What the goroutine of a connection does, in the redirect and in the TPROXY mode.
unfoldable pub redirect_goroutine : Proxy → World → Text → Side × Conn → List Event
unfolding handle_redirected_connection handle_outbound_connection
redirect_goroutine p w pod_ip (inbound, conn) = handle_redirected_connection p w conn
redirect_goroutine p w pod_ip (outbound, conn) = handle_outbound_connection p w conn pod_ip

unfoldable pub tproxy_goroutine : Proxy → World → Text → Side × Conn → List Event
unfolding handle_tproxy_connection handle_outbound_connection
tproxy_goroutine p w pod_ip (inbound, conn) = handle_tproxy_connection p w conn pod_ip
tproxy_goroutine p w pod_ip (outbound, conn) = handle_outbound_connection p w conn pod_ip
