-- ===== src/Proxy/Modes/Serve/Returns.antt =====
-- What a run of the redirect or the TPROXY mode returns.
use sentinel_zero_trust.Common.{
  ℕ, ◌+◌, ◌≤◌, ◌<◌, ◌≡◌, refl, sym, ap, ◌∙◌, Bool, true, false, Option, none, some, List, [], ◌∷◌,
  ◌++◌, append_assoc, append-nil, Text, ok, err, if◌then◌else◌, length, length-append, arith,
}
use sentinel_zero_trust.Proxy.Defs.{Conn}
use sentinel_zero_trust.Proxy.Modes.{Side, inbound, outbound}
use sentinel_zero_trust.Proxy.Modes.Serve.{
  err_ch_size, Server, serving, Turn, accepts, main_receives, stop, accept_error, send_error,
  accept_pass, receive_error, main_pass, turn, serve,
}

-- The first error of each side, in the order of the turns, for the sides whose loops run.
abbrev pub first_errors : Bool → Bool → List Turn → List Text
first_errors i o [] = []
first_errors i o (main_receives ∷ ts) = first_errors i o ts
first_errors i o (accepts side (ok conn) ∷ ts) = first_errors i o ts
first_errors i o (accepts inbound (err e) ∷ ts) =
    let rest = first_errors false o ts in if i then accept_error inbound e ∷ rest else rest
first_errors i o (accepts outbound (err e) ∷ ts) =
    let rest = first_errors i false ts in if o then accept_error outbound e ∷ rest else rest

-- The errors that have been sent, and those that will be.
abbrev pub received : Option Text → List Text
received none = []
received (some e) = e ∷ []

abbrev errors : Server → List Turn → List Text
errors s ts = received s.result ++ (s.err_ch ++ first_errors s.inbound_runs s.outbound_runs ts)

abbrev weight : Bool → ℕ
weight true = 1
weight false = 0

-- There is room in the channel for an error of each loop that runs.
abbrev HasRoom : Server → Type 0
HasRoom s = length s.err_ch + (weight s.inbound_runs + weight s.outbound_runs) ≤ err_ch_size

record Keeps (s : Server) (t : Turn) (ts : List Turn) : Type 0 where
  room : HasRoom (turn s t)
  same : errors (turn s t) ts ≡ errors s (t ∷ ts)

abbrev server : Bool → Bool → List Text → List (Side × Conn) → Option Text → Server
server i o ch st r = record {
  inbound_runs = i;
  outbound_runs = o;
  err_ch = ch;
  started = st;
  result = r;
}

send_room :
    (side : Side) (e : Text) (s : Server)
    → length s.err_ch < err_ch_size
    → send_error side e s ≡ record s { err_ch = s.err_ch ++ (e ∷ []) }
unfolding send_error
send_room side e s h = ground arith

Keeps-to :
    {s next : Server} {t : Turn} {ts : List Turn}
    → turn s t ≡ next
    → HasRoom next
    → errors next ts ≡ errors s (t ∷ ts)
    → Keeps s t ts
Keeps-to e room same = record { room = rw e room; same = rw e same }

weight_bound : (b : Bool) → weight b ≤ 1
weight_bound true = omega arith
weight_bound false = omega arith

turn-Keeps :
    (i o : Bool) (ch : List Text) (st : List (Side × Conn)) (r : Option Text) (t : Turn)
    (ts : List Turn)
    → HasRoom (server i o ch st r)
    → Keeps (server i o ch st r) t ts
unfolding turn accept_pass main_pass receive_error
turn-Keeps i o [] st none main_receives ts h = record { room = h; same = refl }
turn-Keeps i o (e ∷ ch) st none main_receives ts h = record { room = omega (arith, h); same = refl }
turn-Keeps i o ch st (some e) main_receives ts h = record { room = h; same = refl }
turn-Keeps true o ch st r (accepts inbound (ok conn)) ts h = record { room = h; same = refl }
turn-Keeps false o ch st r (accepts inbound (ok conn)) ts h = record { room = h; same = refl }
turn-Keeps false o ch st r (accepts inbound (err e)) ts h = record { room = h; same = refl }
turn-Keeps i true ch st r (accepts outbound (ok conn)) ts h = record { room = h; same = refl }
turn-Keeps i false ch st r (accepts outbound (ok conn)) ts h = record { room = h; same = refl }
turn-Keeps i false ch st r (accepts outbound (err e)) ts h = record { room = h; same = refl }
turn-Keeps true o ch st r (accepts inbound (err e)) ts h =
    let text = accept_error inbound e in
    Keeps-to (ap (stop inbound) (send_room inbound text (server true o ch st r) (omega (arith, h))))
      (omega (arith, h, length-append ch (text ∷ [])))
      (ap (λ es. received r ++ es) (append_assoc ch (text ∷ []) (first_errors false o ts)))
turn-Keeps i true ch st r (accepts outbound (err e)) ts h =
    let text = accept_error outbound e in
    Keeps-to
      (ap (stop outbound)
        (send_room outbound text (server i true ch st r) (omega (arith, h, weight_bound i))))
      (omega (arith, h, length-append ch (text ∷ [])))
      (ap (λ es. received r ++ es) (append_assoc ch (text ∷ []) (first_errors i false ts)))

serve-errors :
    (ts : List Turn) (s : Server)
    → HasRoom s
    → received (serve s ts).result ++ (serve s ts).err_ch ≡ errors s ts
unfolding serve
serve-errors [] s h = ap (λ es. received s.result ++ es) (sym (append-nil s.err_ch))
serve-errors (t ∷ ts) s h =
    let k = turn-Keeps s.inbound_runs s.outbound_runs s.err_ch s.started s.result t ts h in
    serve-errors ts (turn s t) k.room ∙ k.same

-- What a run has returned after the errors so far: their first, if there is one.
abbrev pub Returns : List Text → Option Text → Type 0
Returns [] r = r ≡ none
Returns (e ∷ es) r = r ≡ some e

main_pass-Returns :
    (r : Option Text) (ch : List Text) (s : Server)
    → s.result ≡ r
    → s.err_ch ≡ ch
    → Returns (received r ++ ch) (main_pass r s).result
unfolding main_pass receive_error
main_pass-Returns (some e) ch s q c = q
main_pass-Returns none [] s q c = rw c q
main_pass-Returns none (e ∷ ch) s q c = rw c refl

serve-last :
    (ts : List Turn) (s : Server)
    → serve s (ts ++ (main_receives ∷ [])) ≡ main_pass (serve s ts).result (serve s ts)
unfolding serve turn
serve-last [] s = refl
serve-last (t ∷ ts) s = serve-last ts (turn s t)

-- A run that listens does not return before an accept loop has failed, and once it waits on the
-- channel after that, it has returned the error of the loop that failed first, whatever came between.
-- The first error of each loop has gone through the channel, received or waiting there: no send of
-- a loop has blocked or lost its error.
pub serve-Returns :
    (ts : List Turn)
    → Returns (first_errors true true ts) (serve serving (ts ++ (main_receives ∷ []))).result
      × (received (serve serving ts).result ++ (serve serving ts).err_ch
          ≡ first_errors true true ts)
serve-Returns ts = (
  rw (serve-last ts serving) (
      rw (sym (serve-errors ts serving (omega arith))) (
        main_pass-Returns (serve serving ts).result (serve serving ts).err_ch (serve serving ts)
          refl refl)),
  serve-errors ts serving (omega arith),
)
