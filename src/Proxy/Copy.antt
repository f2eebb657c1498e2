-- ===== src/Proxy/Copy.antt =====
-- data-plane/internal/proxy/proxy.go: the two goroutines of proxyCopy, step by step. A connection is
-- the chunks that its peer will send before it ends its side, and the bytes that its peer has got.
-- The warnings that proxyCopy logs are left out.
pub mod Order
pub mod Finish
pub mod Cut
use sentinel_zero_trust.Common.{
  ℕ, Bool, true, false, List, [], ◌∷◌, ◌++◌, Text, if◌then◌else◌, take, drop,
}

pub record Endpoint : Type 0 where
  pub to_come : List Text
  pub received : Text
  pub is_open : Bool

-- Where a goroutine is: about to read, with a chunk that it has read and not yet written, behind
-- io.Copy, and behind Close. The last two have what was read and has not been written.
pub data Copying : Type 0 where
  reading : Copying
  holding : Text → Copying
  ended : Text → Copying
  closed : Text → Copying

pub record CopyState : Type 0 where
  pub src : Endpoint
  pub dst : Endpoint
  pub forward_copy : Copying  -- io.Copy(dst, src)
  pub backward_copy : Copying  -- io.Copy(src, dst)

-- What the network answers to a read or a write. A write that fails may have written some bytes.
pub data Outcome : Type 0 where
  succeeds : Outcome
  fails : ℕ → Outcome

pub data Turn : Type 0 where
  forward backward : Outcome → Turn

abbrev pub shut : Endpoint → Endpoint
shut e = record e { is_open = false }

abbrev pub deliver : Text → Endpoint → Endpoint
deliver chunk e = record e { received = e.received ++ chunk }

-- One read of io.Copy, by the chunks to come: with none left it is the end of the stream. A read on a
-- connection that is closed on this side fails.
unfoldable pub read_chunk : List Text → Outcome → Endpoint → Copying × Endpoint
read_chunk [] o from = (ended [], from)
read_chunk (chunk ∷ rest) (fails n) from = (ended [], from)
read_chunk (chunk ∷ rest) succeeds from =
    if from.is_open then (holding chunk, record from { to_come = rest }) else (ended [], from)

-- One write of io.Copy; an error or a short write ends it.
unfoldable pub write_chunk : Text → Outcome → Endpoint → Copying × Endpoint
write_chunk chunk succeeds to =
    if to.is_open then (reading, deliver chunk to) else (ended chunk, to)
write_chunk chunk (fails n) to =
    if to.is_open then (ended (drop n chunk), deliver (take n chunk) to) else (ended chunk, to)

-- One turn of the goroutine that copies `from` one connection `to` another.
unfoldable pub copy_turn : Copying → Outcome → Endpoint → Endpoint → Copying × Endpoint × Endpoint
unfolding read_chunk write_chunk
copy_turn reading o from to =
    let (next, from') = read_chunk from.to_come o from in (next, from', to)
copy_turn (holding chunk) o from to = let (next, to') = write_chunk chunk o to in (next, from, to')
copy_turn (ended lost) o from to = (closed lost, from, shut to)
copy_turn (closed lost) o from to = (closed lost, from, to)

unfoldable pub copy_step : CopyState → Turn → CopyState
unfolding copy_turn
copy_step s (forward o) =
    let (next, src, dst) = copy_turn s.forward_copy o s.src s.dst in
    record s { src = src; dst = dst; forward_copy = next }
copy_step s (backward o) =
    let (next, dst, src) = copy_turn s.backward_copy o s.dst s.src in
    record s { src = src; dst = dst; backward_copy = next }

-- The goroutines take turns in any order.
unfoldable pub copy_run : CopyState → List Turn → CopyState
copy_run s [] = s
copy_run s (turn ∷ turns) = copy_run (copy_step s turn) turns
