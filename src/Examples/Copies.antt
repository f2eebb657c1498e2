-- ===== src/Examples/Copies.antt =====
-- A connection that is relayed.
use sentinel_zero_trust.Common.{◌≡◌, ◌++◌, refl, true, false, List, [], ◌∷◌, codes, arith}
use sentinel_zero_trust.Proxy.Copy.{
  Endpoint, holding, CopyState, succeeds, fails, Turn, forward, backward, copy_run,
}
use sentinel_zero_trust.Proxy.Copy.Order.{starts, unwritten, streams, copy_run-streams}
use sentinel_zero_trust.Proxy.Copy.Finish.{is_closed, copy_run_finishes}
use sentinel_zero_trust.Proxy.Copy.Cut.{copy_run_cuts}

abbrev asking : Endpoint
asking = record { to_come = codes "GET " ∷ codes "/cart" ∷ []; received = []; is_open = true }

abbrev silent : Endpoint
silent = record { to_come = []; received = []; is_open = true }

abbrev answering : Endpoint
answering = record { to_come = codes "hello" ∷ codes "world" ∷ []; received = []; is_open = true }

-- The second write of the backward copy fails after two bytes.
abbrev turns : List Turn
turns =
    forward succeeds
    ∷ backward succeeds
    ∷ forward succeeds
    ∷ backward succeeds
    ∷ backward succeeds
    ∷ backward (fails 2)
    ∷ forward succeeds
    ∷ backward succeeds
    ∷ forward succeeds
    ∷ forward succeeds
    ∷ forward succeeds
    ∷ backward succeeds
    ∷ []

copy_run-streams_example :
    streams (copy_run (starts asking answering) turns) ≡ streams (starts asking answering)
copy_run-streams_example = copy_run-streams turns (starts asking answering)

copy_run_finishes_example :
    let s = copy_run (starts asking answering) turns in
    (is_closed s.forward_copy ≡ true)
    × (is_closed s.backward_copy ≡ true)
    × (s.src.is_open ≡ false)
    × (s.dst.is_open ≡ false)
copy_run_finishes_example = copy_run_finishes asking answering turns (omega arith) (omega arith)

-- The end of the source is found while the backward goroutine has a chunk in its hands.
abbrev half_closed : CopyState
half_closed = record (starts silent answering) { backward_copy = holding (codes "first") }

abbrev ending : List Turn
ending = forward succeeds ∷ forward succeeds ∷ []

copy_run_cuts_example :
    let t = copy_run half_closed ending in
    let u = copy_run t (backward succeeds ∷ backward succeeds ∷ []) in
    (t.dst.is_open ≡ false)
    × (u.dst.to_come ≡ t.dst.to_come)
    × (u.src.received ++ unwritten u.backward_copy ≡ t.src.received ++ unwritten t.backward_copy)
copy_run_cuts_example =
    copy_run_cuts half_closed ending (backward succeeds ∷ backward succeeds ∷ []) refl refl
      (omega arith)
