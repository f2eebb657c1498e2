-- ===== src/Logger/Async/Shutdown.antt =====
-- Bounds of the queue and the buffer, refusals, and what Close leaves behind.
use sentinel_zero_trust.Common.{
  ℕ, suc, ◌≤◌, ◌<◌, ◌≡◌, refl, sym, ap, ◌∙◌, Bool, true, false, List, [], ◌∷◌, ◌++◌, Text, length,
  concat, append-nil, length-append, arith, All,
}
use sentinel_zero_trust.Logger.Async.{
  buf_size, BufioWriter, flush, write_empty, bw_write, AsyncWriter, Op, write, worker_receive,
  worker_tick, close, overflow, enqueue, overflow_message, receive, worker_by, close_channel, step,
  run, new_async_writer,
}
use sentinel_zero_trust.Logger.Async.Fifo.{given, accepted_by, run-accepted, accepted}

pub record IsBounded (aw : AsyncWriter) : Type 0 where
  pub queue : length aw.buffer ≤ aw.queue_size
  pub held : length aw.inner.buf ≤ buf_size

held-bw_write :
    (b : BufioWriter) (p : Text) → length b.buf ≤ buf_size → length (bw_write b p).buf ≤ buf_size
unfolding bw_write write_empty
held-bw_write b p h = ground (arith, length-append b.buf p)

IsBounded-receive :
    (lines : List Text) (closed : Bool) (aw : AsyncWriter)
    → aw.buffer ≡ lines
    → IsBounded aw
    → IsBounded (receive lines closed aw)
unfolding receive flush
IsBounded-receive [] true aw e h = record { queue = h.queue; held = omega arith }
IsBounded-receive [] false aw e h = h
IsBounded-receive (line ∷ rest) closed aw e h = record {
  queue = omega (arith, h.queue, ap length e);
  held = held-bw_write aw.inner line h.held;
}

IsBounded-worker :
    (done takes : Bool) (aw : AsyncWriter) → IsBounded aw → IsBounded (worker_by done takes aw)
unfolding worker_by flush
IsBounded-worker true takes aw h = h
IsBounded-worker false true aw h = IsBounded-receive aw.buffer aw.is_closed aw refl h
IsBounded-worker false false aw h = record { queue = h.queue; held = omega arith }

IsBounded-step : (aw : AsyncWriter) (op : Op) → IsBounded aw → IsBounded (step aw op).0
unfolding step enqueue close_channel
IsBounded-step aw (write p) h = ground (arith, length-append aw.buffer (p ∷ []))
IsBounded-step aw worker_receive h = IsBounded-worker aw.is_done true aw h
IsBounded-step aw worker_tick h = IsBounded-worker aw.is_done false aw h
IsBounded-step aw close h = ground arith

run-IsBounded_from : (ops : List Op) (aw : AsyncWriter) → IsBounded aw → IsBounded (run aw ops)
unfolding run
run-IsBounded_from [] aw h = h
run-IsBounded_from (op ∷ ops) aw h = run-IsBounded_from ops (step aw op).0 (IsBounded-step aw op h)

-- From a new writer on, the queue never holds more lines than its size and the `bufio.Writer`
-- never more than 4096 bytes.
pub run-IsBounded :
    (queue_size : ℕ) (ops : List Op) → IsBounded (run (new_async_writer queue_size) ops)
unfolding new_async_writer
run-IsBounded queue_size ops =
    run-IsBounded_from ops (new_async_writer queue_size)
      (record { queue = omega arith; held = omega arith })

-- Where the queue of an open writer is full, a line is refused with an error and nothing changes.
pub enqueue_overflow :
    (aw : AsyncWriter) (p : Text)
    → aw.is_closed ≡ false
    → aw.queue_size ≤ length aw.buffer
    → enqueue aw p ≡ (aw, overflow (overflow_message (length p)))
unfolding enqueue
enqueue_overflow aw p h full = ground arith

-- The worker alone runs: what Close waits for.
abbrev pub IsWorker : Op → Type 0
IsWorker worker_receive = Unit
IsWorker worker_tick = Unit
IsWorker (write p) = ⊥
IsWorker close = ⊥

abbrev pub receives : List Op → ℕ
receives [] = 0
receives (worker_receive ∷ ops) = suc (receives ops)
receives (_ ∷ ops) = receives ops

worker_done :
    (takes : Bool) (aw : AsyncWriter) → aw.is_done ≡ true → worker_by aw.is_done takes aw ≡ aw
unfolding worker_by
worker_done takes aw d = ap (λ done. worker_by done takes aw) d

pub run_done :
    (ops : List Op) (aw : AsyncWriter) → All IsWorker ops → aw.is_done ≡ true → run aw ops ≡ aw
unfolding run step
run_done [] aw h d = refl
run_done (worker_receive ∷ ops) aw (_, h) d =
    ap (λ w. run w ops) (worker_done true aw d) ∙ run_done ops aw h d
run_done (worker_tick ∷ ops) aw (_, h) d =
    ap (λ w. run w ops) (worker_done false aw d) ∙ run_done ops aw h d
run_done (write p ∷ ops) aw (h, _) d = absurd h
run_done (close ∷ ops) aw (h, _) d = absurd h

worker_receives :
    (lines : List Text) (aw : AsyncWriter)
    → aw.is_done ≡ false
    → aw.is_closed ≡ true
    → aw.buffer ≡ lines
    → worker_by aw.is_done true aw ≡ receive lines true aw
unfolding worker_by
worker_receives lines aw d c e =
    ap (λ done. worker_by done true aw) d
    ∙ ap (λ closed. receive aw.buffer closed aw) c
    ∙ ap (λ ls. receive ls true aw) e

abbrev pub HasEnded : AsyncWriter → Type 0
HasEnded aw = (aw.is_done ≡ true) × (aw.inner.buf ≡ []) × (aw.buffer ≡ [])

ended_from :
    (ops : List Op) {v w : AsyncWriter} → v ≡ w → HasEnded (run w ops) → HasEnded (run v ops)
ended_from ops e h = rw e h

worker_ticks :
    (aw : AsyncWriter)
    → aw.is_done ≡ false
    → worker_by aw.is_done false aw ≡ record aw { inner = flush aw.inner }
unfolding worker_by
worker_ticks aw d = ap (λ done. worker_by done false aw) d

worker_ends :
    (ops : List Op) (lines : List Text) (aw : AsyncWriter)
    → aw.is_done ≡ false
    → aw.is_closed ≡ true
    → aw.buffer ≡ lines
    → All IsWorker ops
    → length lines < receives ops
    → HasEnded (run aw ops)
unfolding run step receive flush
worker_ends [] lines aw d c e h n = absurd (omega arith)
worker_ends (worker_receive ∷ ops) [] aw d c e (_, h) n =
    ended_from ops (worker_receives [] aw d c e)
      (rw (run_done ops (receive [] true aw) h refl) (refl, refl, e))
worker_ends (worker_receive ∷ ops) (line ∷ rest) aw d c e (_, h) n =
    ended_from ops (worker_receives (line ∷ rest) aw d c e)
      (worker_ends ops rest (receive (line ∷ rest) true aw) d c refl h (omega arith))
worker_ends (worker_tick ∷ ops) lines aw d c e (_, h) n =
    ended_from ops (worker_ticks aw d)
      (worker_ends ops lines (record aw { inner = flush aw.inner }) d c e h n)
worker_ends (write p ∷ ops) lines aw d c e (h, _) n = absurd h
worker_ends (close ∷ ops) lines aw d c e (h, _) n = absurd h

pub accepted-IsWorker : (ops : List Op) (aw : AsyncWriter) → All IsWorker ops → accepted aw ops ≡ []
accepted-IsWorker [] aw h = refl
accepted-IsWorker (worker_receive ∷ ops) aw (_, h) =
    accepted-IsWorker ops (step aw worker_receive).0 h
accepted-IsWorker (worker_tick ∷ ops) aw (_, h) = accepted-IsWorker ops (step aw worker_tick).0 h
accepted-IsWorker (write p ∷ ops) aw (h, _) = absurd h
accepted-IsWorker (close ∷ ops) aw (h, _) = absurd h

pub ended_output : (aw : AsyncWriter) → HasEnded aw → accepted_by aw ≡ aw.inner.out
ended_output aw (d, b, q) =
    ap (λ ls. given aw.inner ++ concat ls) q
    ∙ append-nil (given aw.inner)
    ∙ ap (λ t. aw.inner.out ++ t) b
    ∙ append-nil aw.inner.out

-- After Close the worker ends once it has taken the channel one time more than there are lines
-- queued, however its ticks fall between, and then every byte that was accepted has reached the
-- output.
pub close_drains :
    (ops : List Op) (aw : AsyncWriter)
    → aw.is_done ≡ false
    → aw.is_closed ≡ true
    → All IsWorker ops
    → length aw.buffer < receives ops
    → HasEnded (run aw ops) × ((run aw ops).inner.out ≡ accepted_by aw)
close_drains ops aw d c h n = (
  worker_ends ops aw.buffer aw d c refl h n,
  sym (ended_output (run aw ops) (worker_ends ops aw.buffer aw d c refl h n))
      ∙ run-accepted ops aw
      ∙ ap (λ t. accepted_by aw ++ t) (accepted-IsWorker ops aw h)
      ∙ append-nil (accepted_by aw),
)
