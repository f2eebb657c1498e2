-- ===== src/Logger/Async/Whole.antt =====
-- A writer from its making to the end of its worker.
use sentinel_zero_trust.Common.{
  ℕ, ◌<◌, ◌≡◌, refl, sym, ap, ◌∙◌, inl, inr, Bool, true, false, ◌||◌, Bool-cases, List, [], ◌∷◌,
  ◌++◌, Text, length, arith, All,
}
use sentinel_zero_trust.Logger.Async.{
  AsyncWriter, Op, write, worker_receive, worker_tick, close, enqueue, receive, worker_by,
  close_channel, step, run, new_async_writer, flush,
}
use sentinel_zero_trust.Logger.Async.Fifo.{accepted_by, accepted, run-accepted}
use sentinel_zero_trust.Logger.Async.Refine.{enqueue_closed}
use sentinel_zero_trust.Logger.Async.Shutdown.{
  IsWorker, receives, HasEnded, close_drains, run_done, ended_output,
}

abbrev pub is_close : Op → Bool
is_close close = true
is_close (write p) = false
is_close worker_receive = false
is_close worker_tick = false

abbrev pub any_close : List Op → Bool
any_close [] = false
any_close (op ∷ ops) = is_close op || any_close ops

pub run-append : (xs ys : List Op) (aw : AsyncWriter) → run aw (xs ++ ys) ≡ run (run aw xs) ys
unfolding run
run-append [] ys aw = refl
run-append (x ∷ xs) ys aw = run-append xs ys (step aw x).0

-- The worker leaves the channel as it is.
is_closed-receive :
    (lines : List Text) (closed : Bool) (aw : AsyncWriter)
    → (receive lines closed aw).is_closed ≡ aw.is_closed
unfolding receive
is_closed-receive [] true aw = refl
is_closed-receive [] false aw = refl
is_closed-receive (line ∷ rest) closed aw = refl

is_closed-worker :
    (done takes : Bool) (aw : AsyncWriter) → (worker_by done takes aw).is_closed ≡ aw.is_closed
unfolding worker_by
is_closed-worker true takes aw = refl
is_closed-worker false true aw = is_closed-receive aw.buffer aw.is_closed aw
is_closed-worker false false aw = refl

is_closed-step :
    (aw : AsyncWriter) (op : Op) → (step aw op).0.is_closed ≡ (is_close op || aw.is_closed)
unfolding step enqueue close_channel
is_closed-step aw (write p) = ground arith
is_closed-step aw close = ground arith
is_closed-step aw worker_receive = is_closed-worker aw.is_done true aw
is_closed-step aw worker_tick = is_closed-worker aw.is_done false aw

or_assoc : (a b c : Bool) → (b || (a || c)) ≡ ((a || b) || c)
or_assoc true true c = refl
or_assoc true false c = refl
or_assoc false b c = refl

-- The channel is closed exactly where one of the operations has closed it.
pub is_closed-run :
    (ops : List Op) (aw : AsyncWriter) → (run aw ops).is_closed ≡ (any_close ops || aw.is_closed)
unfolding run
is_closed-run [] aw = refl
is_closed-run (op ∷ ops) aw =
    is_closed-run ops (step aw op).0
    ∙ ap (λ b. any_close ops || b) (is_closed-step aw op)
    ∙ or_assoc (is_close op) (any_close ops) aw.is_closed

-- A worker ends on a closed channel only, with nothing left.
abbrev IsSettled : AsyncWriter → Type 0
IsSettled aw = aw.is_done ≡ true → (aw.is_closed ≡ true) × HasEnded aw

IsSettled-receive :
    (lines : List Text) (closed : Bool) (aw : AsyncWriter)
    → aw.is_done ≡ false
    → aw.buffer ≡ lines
    → aw.is_closed ≡ closed
    → IsSettled (receive lines closed aw)
unfolding receive flush
IsSettled-receive [] true aw n e c = λ d. (c, (refl, refl, e))
IsSettled-receive [] false aw n e c = λ d. ground (arith, n, d)
IsSettled-receive (line ∷ rest) closed aw n e c = λ d. ground (arith, n, d)

IsSettled-worker :
    (done takes : Bool) (aw : AsyncWriter)
    → aw.is_done ≡ done
    → IsSettled aw
    → IsSettled (worker_by done takes aw)
unfolding worker_by
IsSettled-worker true takes aw n h = h
IsSettled-worker false true aw n h = IsSettled-receive aw.buffer aw.is_closed aw n refl refl
IsSettled-worker false false aw n h = λ d. ground (arith, n, d)

is_done-enqueue : (aw : AsyncWriter) (p : Text) → (enqueue aw p).0.is_done ≡ aw.is_done
unfolding enqueue
is_done-enqueue aw p = ground arith

IsSettled-enqueue : (aw : AsyncWriter) (p : Text) → IsSettled aw → IsSettled (enqueue aw p).0
unfolding enqueue
IsSettled-enqueue aw p h = elim (Bool-cases aw.is_closed) [
  | inl c ↦ rw (enqueue_closed aw p c) h
  | inr c ↦ λ d. ground (arith, (h (sym (is_done-enqueue aw p) ∙ d)).0, c)
]

close_open :
    (aw : AsyncWriter)
    → aw.is_closed ≡ false
    → (close_channel aw).0 ≡ record aw { is_closed = true }
unfolding close_channel
close_open aw c = ground arith

close_closed : (aw : AsyncWriter) → aw.is_closed ≡ true → (close_channel aw).0 ≡ aw
unfolding close_channel
close_closed aw c = rw (c, close_channel) refl

IsSettled-from : {v w : AsyncWriter} → v ≡ w → IsSettled w → IsSettled v
IsSettled-from e h = rw e h

IsSettled-close : (aw : AsyncWriter) → IsSettled aw → IsSettled (close_channel aw).0
IsSettled-close aw h = elim (Bool-cases aw.is_closed) [
  | inl c ↦ IsSettled-from (close_closed aw c) h
  | inr c ↦ IsSettled-from (close_open aw c) (λ d. (refl, (h d).1))
]

IsSettled-step : (aw : AsyncWriter) (op : Op) → IsSettled aw → IsSettled (step aw op).0
unfolding step
IsSettled-step aw (write p) h = IsSettled-enqueue aw p h
IsSettled-step aw close h = IsSettled-close aw h
IsSettled-step aw worker_receive h = IsSettled-worker aw.is_done true aw refl h
IsSettled-step aw worker_tick h = IsSettled-worker aw.is_done false aw refl h

IsSettled-run : (ops : List Op) (aw : AsyncWriter) → IsSettled aw → IsSettled (run aw ops)
unfolding run
IsSettled-run [] aw h = h
IsSettled-run (op ∷ ops) aw h = IsSettled-run ops (step aw op).0 (IsSettled-step aw op h)

IsSettled-new : (queue_size : ℕ) → IsSettled (new_async_writer queue_size)
unfolding new_async_writer
IsSettled-new queue_size = λ d. ground arith

-- What close_drains says, for a writer that may have ended already.
drains :
    (more : List Op) (aw : AsyncWriter)
    → IsSettled aw
    → aw.is_closed ≡ true
    → All IsWorker more
    → length aw.buffer < receives more
    → HasEnded (run aw more) × ((run aw more).inner.out ≡ accepted_by aw)
drains more aw s c h n = elim (Bool-cases aw.is_done) [
  | inr d ↦ close_drains more aw d c h n
  | inl d ↦ rw (run_done more aw h d) ((s d).1, sym (ended_output aw (s d).1))
]

-- Every run of a new writer in which Close is called and after which the worker has its turns, one
-- more than there are lines queued, ends the worker with an empty queue and an empty buffer, and
-- what has then reached the output is exactly the lines that were accepted, in their order.
pub run_to_close :
    (queue_size : ℕ) (ops more : List Op)
    → any_close ops ≡ true
    → All IsWorker more
    → length (run (new_async_writer queue_size) ops).buffer < receives more
    → let aw = run (new_async_writer queue_size) (ops ++ more) in
      HasEnded aw × (aw.inner.out ≡ accepted (new_async_writer queue_size) ops)
unfolding new_async_writer
run_to_close queue_size ops more c h n =
    let new = new_async_writer queue_size in
    let (ended, out) =
      drains more (run new ops) (IsSettled-run ops new (IsSettled-new queue_size))
        (is_closed-run ops new ∙ ap (λ b. b || new.is_closed) c) h n in
    rw (run-append ops more new) (ended, out ∙ run-accepted ops new)
