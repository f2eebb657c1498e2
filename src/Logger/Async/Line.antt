-- ===== src/Logger/Async/Line.antt =====
-- What the log writer promises: a bounded first-in first-out line to the output, whose writes the
-- output may see late.
use sentinel_zero_trust.Common.{
  ℕ, ◌≤◌, ◌<◌, ◌≡◌, Bool, true, false, List, [], ◌∷◌, ◌++◌, Text, length,
}
use sentinel_zero_trust.Logger.Async.{
  Op, write, worker_receive, worker_tick, close, Reply, written, overflow, panicked, nothing,
  overflow_message,
}
use sentinel_zero_trust.Logger.Async.Shutdown.{IsWorker}

-- A line of the promise: what waits, all that has been taken from it, how much of that the output
-- has seen, and whether it is closed and has ended. There is no buffer in it.
pub record Line : Type 0 where
  pub waiting : List Text
  pub taken : Text
  pub seen : Text
  pub size : ℕ
  pub is_closed : Bool
  pub has_ended : Bool

-- A text that begins with another one.
abbrev pub Extends : Text → Text → Type 0
Extends t s = (r : Text) × (s ++ r ≡ t)

-- What each call and each turn of the worker may do, and what it answers.
pub data Does (l : Line) : Op → Reply → Line → Type 0 where
  takes_line :
      {p : Text}
      → l.is_closed ≡ false
      → length l.waiting < l.size
      → Does l (write p) (written (length p)) (record l { waiting = l.waiting ++ (p ∷ []) })
  refuses :
      {p : Text}
      → l.is_closed ≡ false
      → l.size ≤ length l.waiting
      → Does l (write p) (overflow (overflow_message (length p))) l
  write_panics : {p : Text} → l.is_closed ≡ true → Does l (write p) panicked l
  closes : l.is_closed ≡ false → Does l close nothing (record l { is_closed = true })
  close_panics : l.is_closed ≡ true → Does l close panicked l
  -- A turn with nothing to take from an open line, and any turn once the worker has ended.
  rests : l.waiting ≡ [] → l.is_closed ≡ false → Does l worker_receive nothing l
  is_over : {op : Op} → IsWorker op → l.has_ended ≡ true → Does l op nothing l
  -- The first line is taken, and the output sees some more of what has been taken.
  passes :
      {p s : Text} {rest : List Text}
      → l.has_ended ≡ false
      → l.waiting ≡ p ∷ rest
      → Extends s l.seen
      → Extends (l.taken ++ p) s
      → Does l worker_receive nothing (record l { waiting = rest; taken = l.taken ++ p; seen = s })
  ends :
      l.has_ended ≡ false
      → l.waiting ≡ []
      → l.is_closed ≡ true
      → Does l worker_receive nothing (record l { seen = l.taken; has_ended = true })
  catches_up : l.has_ended ≡ false → Does l worker_tick nothing (record l { seen = l.taken })

-- A run of a line, with its answers.
pub data Runs : Line → List Op → List Reply → Line → Type 0 where
  stops : {l : Line} → Runs l [] [] l
  goes :
      {l m n : Line} {op : Op} {r : Reply} {ops : List Op} {rs : List Reply}
      → Does l op r m
      → Runs m ops rs n
      → Runs l (op ∷ ops) (r ∷ rs) n
