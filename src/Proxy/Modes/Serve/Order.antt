-- ===== src/Proxy/Modes/Serve/Order.antt =====
-- The connections that both accept loops together have started, whatever the order of their turns.
use mathlib.Core.List.{Perm}
use mathlib.Core.List.Perm
use sentinel_zero_trust.Common.{List, [], ◌∷◌, Result, ok, err, if◌then◌else◌}
use sentinel_zero_trust.Proxy.Defs.{Conn}
use sentinel_zero_trust.Proxy.Modes.{Side}
use sentinel_zero_trust.Proxy.Modes.Listeners.{same_side}
use sentinel_zero_trust.Proxy.Modes.Serve.{Turn, accepts, main_receives}

-- What `Accept` answers one side.
abbrev pub answers : Side → List Turn → List (Result Conn)
answers side [] = []
answers side (main_receives ∷ ts) = answers side ts
answers side (accepts t a ∷ ts) = if same_side side t then a ∷ answers side ts else answers side ts

abbrev pub until_error : List (Result Conn) → List Conn
until_error [] = []
until_error (ok conn ∷ rest) = conn ∷ until_error rest
until_error (err e ∷ rest) = []

abbrev pub tagged : Side → List Conn → List (Side × Conn)
tagged side [] = []
tagged side (conn ∷ conns) = (side, conn) ∷ tagged side conns
