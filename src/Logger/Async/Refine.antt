-- ===== src/Logger/Async/Refine.antt =====
-- The log writer keeps its promise.
use sentinel_zero_trust.Common.{
  ℕ, ◌-◌, ◌<◌, ◌≡◌, refl, sym, ap, ◌∙◌, inl, inr, Bool, true, false, List, [], ◌∷◌, ◌++◌, Text,
  length, take, drop, leb, ltb, if◌then◌else◌, ◌==◌, append_assoc, append-nil, arith, Bool-cases,
}
use sentinel_zero_trust.Logger.Async.{
  buf_size, BufioWriter, flush, write_empty, bw_write, AsyncWriter, Op, write, worker_receive,
  worker_tick, close, Reply, written, panicked, nothing, enqueue, receive, worker_by, close_channel,
  step, run,
}
use sentinel_zero_trust.Logger.Async.Fifo.{given, given-flush, given-bw_write}
use sentinel_zero_trust.Logger.Async.Shutdown.{enqueue_overflow}
use sentinel_zero_trust.Logger.Async.Line.{
  Line, Extends, Does, takes_line, refuses, write_panics, closes, close_panics, rests, is_over,
  passes, ends, catches_up, Runs, stops, goes,
}

-- What a writer is, seen as such a line.
abbrev pub view : AsyncWriter → Line
view aw = record {
  waiting = aw.buffer;
  taken = given aw.inner;
  seen = aw.inner.out;
  size = aw.queue_size;
  is_closed = aw.is_closed;
  has_ended = aw.is_done;
}

Does-to : {l m n : Line} {op : Op} {r : Reply} → m ≡ n → Does l op r m → Does l op r n
Does-to {l} {op} {r} e d = rw (sym e) d

Extends-write_empty : (out p : Text) → Extends (write_empty out p).out out
unfolding write_empty
Extends-write_empty out p = elim (Bool-cases (leb (length p) buf_size)) [
  | inl fits ↦ rw (fits, write_empty) ([], append-nil out)
  | inr not_fits ↦ rw (not_fits, write_empty) (p, refl)
]

Extends-bw_write : (b : BufioWriter) (p : Text) → Extends (bw_write b p).out b.out
unfolding bw_write
Extends-bw_write b p = elim (Bool-cases (leb (length p) (buf_size - length b.buf))) [
  | inl fits ↦ rw (fits, bw_write) ([], append-nil b.out)
  | inr not_fits ↦ elim (Bool-cases (length b.buf == 0)) [
    | inl e ↦ rw (not_fits, bw_write, e) (Extends-write_empty b.out p)
    | inr e ↦
        rw (not_fits, bw_write, e)
          (let (r, h) = Extends-write_empty (b.out ++ (b.buf ++ take room p)) (drop room p) in
            ((b.buf ++ take room p) ++ r, sym (append_assoc b.out (b.buf ++ take room p) r) ∙ h))
  ]
]
  where
    room : ℕ
    room = buf_size - length b.buf

receive_does :
    (lines : List Text) (closed : Bool) (aw : AsyncWriter)
    → aw.is_done ≡ false
    → aw.buffer ≡ lines
    → aw.is_closed ≡ closed
    → Does (view aw) worker_receive nothing (view (receive lines closed aw))
unfolding receive flush
receive_does [] true aw d e c =
    Does-to
      (ap (λ (t : Text). record (view aw) { taken = t; seen = given aw.inner; has_ended = true })
        (sym (given-flush aw.inner)))
      (ends d e c)
receive_does [] false aw d e c = rests e c
receive_does (line ∷ rest) closed aw d e c =
    Does-to
      (ap
        (λ (t : Text). record (view aw) {
          waiting = rest;
          taken = t;
          seen = (bw_write aw.inner line).out;
        })
        (sym (given-bw_write aw.inner line)))
      (passes d e (Extends-bw_write aw.inner line)
        ((bw_write aw.inner line).buf, given-bw_write aw.inner line))

worker_does :
    (done takes : Bool) (aw : AsyncWriter) (op : Op)
    → aw.is_done ≡ done
    → op ≡ (if takes then worker_receive else worker_tick)
    → Does (view aw) op nothing (view (worker_by done takes aw))
unfolding worker_by flush
worker_does true true aw op d o = rw o (is_over tt d)
worker_does true false aw op d o = rw o (is_over tt d)
worker_does false true aw op d o = rw o (receive_does aw.buffer aw.is_closed aw d refl refl)
worker_does false false aw op d o = rw o (
    Does-to
      (ap (λ (t : Text). record (view aw) { taken = t; seen = given aw.inner })
        (sym (given-flush aw.inner)))
      (catches_up d))

does_by :
    {l : Line} {op : Op} {a b : AsyncWriter × Reply}
    → a ≡ b
    → Does l op b.1 (view b.0)
    → Does l op a.1 (view a.0)
does_by e d = rw e d

pub enqueue_closed :
    (aw : AsyncWriter) (p : Text) → aw.is_closed ≡ true → enqueue aw p ≡ (aw, panicked)
unfolding enqueue
enqueue_closed aw p c = ground arith

pub enqueue_room :
    (aw : AsyncWriter) (p : Text)
    → aw.is_closed ≡ false
    → length aw.buffer < aw.queue_size
    → enqueue aw p ≡ (record aw { buffer = aw.buffer ++ (p ∷ []) }, written (length p))
unfolding enqueue
enqueue_room aw p c room = ground arith

enqueue_does :
    (aw : AsyncWriter) (p : Text)
    → Does (view aw) (write p) (enqueue aw p).1 (view (enqueue aw p).0)
enqueue_does aw p = elim (Bool-cases aw.is_closed) [
  | inl c ↦ does_by (enqueue_closed aw p c) (write_panics c)
  | inr c ↦ elim (Bool-cases (ltb (length aw.buffer) aw.queue_size)) [
    | inl room ↦ does_by (enqueue_room aw p c (ground arith)) (takes_line c (ground arith))
    | inr full ↦ does_by (enqueue_overflow aw p c (ground arith)) (refuses c (ground arith))
  ]
]

close_does :
    (closed : Bool) (aw : AsyncWriter)
    → aw.is_closed ≡ closed
    → Does (view aw) close (close_channel aw).1 (view (close_channel aw).0)
unfolding close_channel
close_does true aw c = does_by {b = (aw, panicked)} (rw (c, close_channel) refl) (close_panics c)
close_does false aw c =
    does_by {b = (record aw { is_closed = true }, nothing)} (ground arith) (closes c)

step_does : (aw : AsyncWriter) (op : Op) → Does (view aw) op (step aw op).1 (view (step aw op).0)
unfolding step
step_does aw (write p) = enqueue_does aw p
step_does aw worker_receive = worker_does aw.is_done true aw worker_receive refl refl
step_does aw worker_tick = worker_does aw.is_done false aw worker_tick refl refl
step_does aw close = close_does aw.is_closed aw refl

abbrev pub replies : AsyncWriter → List Op → List Reply
replies aw [] = []
replies aw (op ∷ ops) = (step aw op).1 ∷ replies (step aw op).0 ops

-- Every run of the writer, its `bufio.Writer` with it, is a run of the line that it promises, with
-- the same answers: a Write takes the line where there is room, refuses it where there is none and
-- panics after Close; each turn of the worker takes the first line, or ends once the line is closed
-- and empty; and what the output has seen only grows, is always the beginning of what has been
-- taken, and is all of it after a tick and at the end.
pub run_refines :
    (ops : List Op) (aw : AsyncWriter) → Runs (view aw) ops (replies aw ops) (view (run aw ops))
unfolding run
run_refines [] aw = stops
run_refines (op ∷ ops) aw = goes (step_does aw op) (run_refines ops (step aw op).0)
