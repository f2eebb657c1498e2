-- ===== src/Proxy/Modes/Serve/Loops.antt =====
-- Which connections are handled, and what a run returns.
use sentinel_zero_trust.Common.{
  ◌≡◌, refl, sym, ap, ◌∙◌, inl, inr, Bool, true, false, Bool-cases, Option, none, some, List, [],
  ◌∷◌, ◌++◌, append_assoc, append-nil, Text, Result, ok, err, if◌then◌else◌, arith,
}
use sentinel_zero_trust.Proxy.Defs.{Conn}
use sentinel_zero_trust.Proxy.Modes.{Side, inbound, outbound}
use sentinel_zero_trust.Proxy.Modes.Listeners.{same_side}
use sentinel_zero_trust.Proxy.Modes.Serve.{
  Server, serving, Turn, accepts, main_receives, runs, send_error, accept_pass, receive_error,
  main_pass, turn, serve,
}

-- The connections of one side, and those that `Accept` answers it before its first error.
abbrev pub of_side : Side → List (Side × Conn) → List Conn
of_side side [] = []
of_side side ((t, conn) ∷ rest) =
    if same_side side t then conn ∷ of_side side rest else of_side side rest

abbrev pub before_error : Side → List Turn → List Conn
before_error side [] = []
before_error side (main_receives ∷ ts) = before_error side ts
before_error side (accepts t (ok conn) ∷ ts) =
    if same_side side t then conn ∷ before_error side ts else before_error side ts
before_error side (accepts t (err e) ∷ ts) = if same_side side t then [] else before_error side ts

of_side-append :
    (side : Side) (xs ys : List (Side × Conn))
    → of_side side (xs ++ ys) ≡ of_side side xs ++ of_side side ys
of_side-append side [] ys = refl
of_side-append side ((t, conn) ∷ xs) ys = elim (Bool-cases (same_side side t)) [
  | inl e ↦ rw e (ap (λ (cs : List Conn). conn ∷ cs) (of_side-append side xs ys))
  | inr e ↦ rw e (of_side-append side xs ys)
]

-- What a side has started, and what its loop has yet to start.
abbrev to_start : Side → Server → List Turn → List Conn
to_start side s ts = of_side side s.started ++ (if runs side s then before_error side ts else [])

runs-receive :
    (side : Side) (ch : List Text) (s : Server) → runs side (receive_error ch s) ≡ runs side s
unfolding receive_error
runs-receive inbound [] s = refl
runs-receive outbound [] s = refl
runs-receive inbound (e ∷ ch) s = refl
runs-receive outbound (e ∷ ch) s = refl

started-receive : (ch : List Text) (s : Server) → (receive_error ch s).started ≡ s.started
unfolding receive_error
started-receive [] s = refl
started-receive (e ∷ ch) s = refl

-- A pass that meets an error starts nothing, and stops its own side only.
started-err : (t : Side) (e : Text) (s : Server) → (accept_pass t (err e) s).started ≡ s.started
unfolding accept_pass send_error
started-err inbound e s = ground arith
started-err outbound e s = ground arith

runs-err :
    (side t : Side) (e : Text) (s : Server)
    → runs side (accept_pass t (err e) s) ≡ (if same_side side t then false else runs side s)
unfolding accept_pass send_error
runs-err inbound inbound e s = refl
runs-err outbound outbound e s = refl
runs-err inbound outbound e s = ground arith
runs-err outbound inbound e s = ground arith

-- Whether the loop of a side would start what comes after: by that the turn is its own.
abbrev rest_of : Bool → List Conn → List Conn
rest_of r cs = if r then cs else []

to_start-ok :
    (side t : Side) (conn : Conn) (s : Server) (ts : List Turn)
    → runs t s ≡ true
    → to_start side (accept_pass t (ok conn) s) ts ≡ to_start side s (accepts t (ok conn) ∷ ts)
unfolding accept_pass
to_start-ok inbound inbound conn s ts r =
    rw (r, of_side-append inbound s.started ((inbound, conn) ∷ []))
      (append_assoc (of_side inbound s.started) (conn ∷ []) (before_error inbound ts))
to_start-ok outbound outbound conn s ts r =
    rw (r, of_side-append outbound s.started ((outbound, conn) ∷ []))
      (append_assoc (of_side outbound s.started) (conn ∷ []) (before_error outbound ts))
to_start-ok inbound outbound conn s ts r =
    ap (λ (cs : List Conn). cs ++ rest_of s.inbound_runs (before_error inbound ts))
      (of_side-append inbound s.started ((outbound, conn) ∷ [])
        ∙ append-nil (of_side inbound s.started))
to_start-ok outbound inbound conn s ts r =
    ap (λ (cs : List Conn). cs ++ rest_of s.outbound_runs (before_error outbound ts))
      (of_side-append outbound s.started ((inbound, conn) ∷ [])
        ∙ append-nil (of_side outbound s.started))

to_start-err :
    (side t : Side) (e : Text) (s : Server) (ts : List Turn)
    → runs t s ≡ true
    → to_start side (accept_pass t (err e) s) ts ≡ to_start side s (accepts t (err e) ∷ ts)
to_start-err inbound inbound e s ts r =
    rw (started-err inbound e s, runs-err inbound inbound e s, r) refl
to_start-err outbound outbound e s ts r =
    rw (started-err outbound e s, runs-err outbound outbound e s, r) refl
to_start-err inbound outbound e s ts r =
    rw (started-err outbound e s, runs-err inbound outbound e s) refl
to_start-err outbound inbound e s ts r =
    rw (started-err inbound e s, runs-err outbound inbound e s) refl

-- The turn of a loop that has returned.
to_start-over :
    (side t : Side) (a : Result Conn) (s : Server) (ts : List Turn)
    → runs t s ≡ false
    → to_start side s ts ≡ to_start side s (accepts t a ∷ ts)
to_start-over inbound inbound a s ts r = rw r refl
to_start-over outbound outbound a s ts r = rw r refl
to_start-over inbound outbound (ok conn) s ts r = refl
to_start-over inbound outbound (err e) s ts r = refl
to_start-over outbound inbound (ok conn) s ts r = refl
to_start-over outbound inbound (err e) s ts r = refl

to_start-main :
    (side : Side) (r : Option Text) (s : Server) (ts : List Turn)
    → to_start side (main_pass r s) ts ≡ to_start side s ts
unfolding main_pass receive_error
to_start-main side (some e) s ts = refl
to_start-main side none s ts = rw (started-receive s.err_ch s, runs-receive side s.err_ch s) refl

to_start-pass :
    (side t : Side) (a : Result Conn) (s : Server) (ts : List Turn)
    → runs t s ≡ true
    → to_start side (accept_pass t a s) ts ≡ to_start side s (accepts t a ∷ ts)
to_start-pass side t (ok conn) s ts r = to_start-ok side t conn s ts r
to_start-pass side t (err e) s ts r = to_start-err side t e s ts r

to_start-turn :
    (side : Side) (t : Turn) (s : Server) (ts : List Turn)
    → to_start side (turn s t) ts ≡ to_start side s (t ∷ ts)
unfolding turn
to_start-turn side main_receives s ts = to_start-main side s.result s ts
to_start-turn side (accepts t a) s ts = elim (Bool-cases (runs t s)) [
  | inl r ↦ rw (r, turn) (to_start-pass side t a s ts r)
  | inr r ↦ rw (r, turn) (to_start-over side t a s ts r)
]

to_start-nil : (side : Side) (s : Server) → of_side side s.started ≡ to_start side s []
to_start-nil side s = elim (Bool-cases (runs side s)) [
  | inl r ↦ rw r (sym (append-nil (of_side side s.started)))
  | inr r ↦ rw r (sym (append-nil (of_side side s.started)))
]

serve-to_start :
    (side : Side) (ts : List Turn) (s : Server)
    → of_side side (serve s ts).started ≡ to_start side s ts
unfolding serve
serve-to_start side [] s = to_start-nil side s
serve-to_start side (t ∷ ts) s = serve-to_start side ts (turn s t) ∙ to_start-turn side t s ts

-- Whatever the order in which the two accept loops and the goroutine that waits for their errors
-- take their turns, each side has started one goroutine for each connection that its listener
-- answered before its first error, in that order, and none after it.
pub serve-started :
    (side : Side) (ts : List Turn) → of_side side (serve serving ts).started ≡ before_error side ts
serve-started inbound ts = serve-to_start inbound ts serving
serve-started outbound ts = serve-to_start outbound ts serving
