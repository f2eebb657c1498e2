-- ===== src/Logger/Async/Lossless.antt =====
-- A writer with one client, which writes some lines and then calls Close.
use sentinel_zero_trust.Common.{
  ℕ, suc, ◌+◌, ◌≤◌, ◌<◌, ◌≡◌, refl, ap, ◌∙◌, Bool, true, false, ◌||◌, List, [], ◌∷◌, ◌++◌, Text,
  length, length-append, concat, arith, All,
}
use sentinel_zero_trust.Logger.Async.{
  AsyncWriter, Op, write, worker_receive, worker_tick, close, enqueue, receive, worker_by, step,
  run, new_async_writer,
}
use sentinel_zero_trust.Logger.Async.Fifo.{accepted, accepts}
use sentinel_zero_trust.Logger.Async.Refine.{enqueue_room}
use sentinel_zero_trust.Logger.Async.Shutdown.{IsWorker, receives, HasEnded, accepted-IsWorker}
use sentinel_zero_trust.Logger.Async.Whole.{is_close, any_close, run_to_close}

-- The lines in order, then Close, with turns of the worker between and behind them.
pub data Weaves : List Text → List Op → Type 0 where
  closing : {ops : List Op} → All IsWorker ops → Weaves [] (close ∷ ops)
  turn :
      {ls : List Text} {ops : List Op} (op : Op)
      → IsWorker op
      → Weaves ls ops
      → Weaves ls (op ∷ ops)
  writing :
      {ls : List Text} {ops : List Op} (l : Text) → Weaves ls ops → Weaves (l ∷ ls) (write l ∷ ops)

-- The writer is open, and has room for so many lines more.
record Takes (n : ℕ) (aw : AsyncWriter) : Type 0 where
  is_open : aw.is_closed ≡ false
  room : length aw.buffer + n ≤ aw.queue_size

Takes-receive :
    (n : ℕ) (lines : List Text) (closed : Bool) (aw : AsyncWriter)
    → aw.buffer ≡ lines
    → Takes n aw
    → Takes n (receive lines closed aw)
unfolding receive
Takes-receive n [] true aw e h = record { is_open = h.is_open; room = h.room }
Takes-receive n [] false aw e h = h
Takes-receive n (line ∷ rest) closed aw e h = record {
  is_open = h.is_open;
  room = omega (arith, h.room, ap length e);
}

Takes-worker :
    (n : ℕ) (done takes : Bool) (aw : AsyncWriter) → Takes n aw → Takes n (worker_by done takes aw)
unfolding worker_by
Takes-worker n true takes aw h = h
Takes-worker n false true aw h = Takes-receive n aw.buffer aw.is_closed aw refl h
Takes-worker n false false aw h = record { is_open = h.is_open; room = h.room }

Takes-write : (n : ℕ) (l : Text) (aw : AsyncWriter) → Takes (suc n) aw → Takes n (enqueue aw l).0
Takes-write n l aw h =
    rw (enqueue_room aw l h.is_open (omega (arith, h.room))) (record {
      is_open = h.is_open;
      room = omega (arith, h.room, length-append aw.buffer (l ∷ []));
    })

accepts-write : (n : ℕ) (l : Text) (aw : AsyncWriter) → Takes (suc n) aw → accepts aw (write l) ≡ l
unfolding step
accepts-write n l aw h = rw (enqueue_room aw l h.is_open (omega (arith, h.room))) refl

accepted-Weaves :
    {ls : List Text} {ops : List Op} (aw : AsyncWriter)
    → Weaves ls ops
    → Takes (length ls) aw
    → accepted aw ops ≡ concat ls
unfolding step
accepted-Weaves aw (closing {ops} w) h = accepted-IsWorker ops (step aw close).0 w
accepted-Weaves {ls} aw (turn worker_receive i w) h =
    accepted-Weaves (step aw worker_receive).0 w (Takes-worker (length ls) aw.is_done true aw h)
accepted-Weaves {ls} aw (turn worker_tick i w) h =
    accepted-Weaves (step aw worker_tick).0 w (Takes-worker (length ls) aw.is_done false aw h)
accepted-Weaves aw (turn (write p) i w) h = absurd i
accepted-Weaves aw (turn close i w) h = absurd i
accepted-Weaves aw (writing {ls} {ops} l w) h =
    ap (λ (t : Text). t ++ accepted (enqueue aw l).0 ops) (accepts-write (length ls) l aw h)
    ∙ ap (λ (t : Text). l ++ t)
        (accepted-Weaves (enqueue aw l).0 w (Takes-write (length ls) l aw h))

any_close-Weaves : {ls : List Text} {ops : List Op} → Weaves ls ops → any_close ops ≡ true
any_close-Weaves (closing w) = refl
any_close-Weaves (turn {ops} op i w) =
    ap (λ b. is_close op || b) (any_close-Weaves w) ∙ or_true (is_close op)
  where
    or_true : (b : Bool) → (b || true) ≡ true
    or_true true = refl
    or_true false = refl
any_close-Weaves (writing l w) = any_close-Weaves w

-- Where the queue has as many places as there are lines, the output has every line whole and in order
-- once the worker has ended, whatever turns it had between the writes.
pub run-Weaves :
    {ls : List Text} {ops : List Op} (queue_size : ℕ) (more : List Op)
    → Weaves ls ops
    → length ls ≤ queue_size
    → All IsWorker more
    → length (run (new_async_writer queue_size) ops).buffer < receives more
    → let aw = run (new_async_writer queue_size) (ops ++ more) in
      HasEnded aw × (aw.inner.out ≡ concat ls)
unfolding new_async_writer
run-Weaves {ops} queue_size more w few h n =
    let (ended, out) = run_to_close queue_size ops more (any_close-Weaves w) h n in
    (
      ended,
      out
          ∙ accepted-Weaves (new_async_writer queue_size) w
              (record { is_open = refl; room = omega (arith, few) }),
    )
