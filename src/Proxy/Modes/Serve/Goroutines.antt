-- ===== src/Proxy/Modes/Serve/Goroutines.antt =====
-- What the goroutines that a run has started do.
use sentinel_zero_trust.Common.{◌≡◌, true, false, List, [], ◌∷◌, Text, All}
use sentinel_zero_trust.Proxy.Defs.{Proxy, Conn, World}
use sentinel_zero_trust.Proxy.Forward.Ends.{open_at_end, handlers_close_both}
use sentinel_zero_trust.Proxy.TProxy.Reject.{IsRefusal, handle_tproxy_connection-IsRefusal}
use sentinel_zero_trust.Proxy.Modes.{Side, inbound, outbound}
use sentinel_zero_trust.Proxy.Modes.Serve.{
  serving, Turn, serve, redirect_goroutine, tproxy_goroutine,
}

All-of : {A : Type 0} {P : A → Type 0} → ((x : A) → P x) → (xs : List A) → All P xs
All-of f [] = tt
All-of f (x ∷ xs) = (f x, All-of f xs)

-- `world x` is what the network answers the goroutine of the connection `x`.
module _ (p : Proxy) (world : Side × Conn → World) (pod_ip : Text) where
  -- It leaves neither its client's connection nor one to the other side open.
  abbrev pub ClosesBoth : Side × Conn → Type 0
  ClosesBoth x =
      open_at_end (true, false) (redirect_goroutine p (world x) pod_ip x) ≡ (false, false)

  redirect_goroutine-ClosesBoth : (x : Side × Conn) → ClosesBoth x
  unfolding redirect_goroutine
  redirect_goroutine-ClosesBoth (inbound, conn) =
      (handlers_close_both p (world (inbound, conn)) conn pod_ip).0
  redirect_goroutine-ClosesBoth (outbound, conn) =
      (handlers_close_both p (world (outbound, conn)) conn pod_ip).1

  -- Whatever the order of the turns, every goroutine that the redirect mode has started returns with
  -- both of its connections closed.
  pub serve-ClosesBoth : (ts : List Turn) → All ClosesBoth (serve serving ts).started
  serve-ClosesBoth ts = All-of redirect_goroutine-ClosesBoth (serve serving ts).started

  -- An inbound connection is only refused.
  abbrev pub RefusesInbound : Side × Conn → Type 0
  RefusesInbound (inbound, conn) =
      All IsRefusal (tproxy_goroutine p (world (inbound, conn)) pod_ip (inbound, conn))
  RefusesInbound (outbound, conn) = Unit

  tproxy_goroutine-RefusesInbound : (x : Side × Conn) → RefusesInbound x
  unfolding tproxy_goroutine
  tproxy_goroutine-RefusesInbound (inbound, conn) =
      handle_tproxy_connection-IsRefusal p (world (inbound, conn)) conn pod_ip
  tproxy_goroutine-RefusesInbound (outbound, conn) = tt

  -- The TPROXY mode serves no inbound connection, however many it accepts.
  pub serve-RefusesInbound : (ts : List Turn) → All RefusesInbound (serve serving ts).started
  serve-RefusesInbound ts = All-of tproxy_goroutine-RefusesInbound (serve serving ts).started
