-- ===== src/Logger/Async/Fifo.antt =====
-- The log output is the accepted lines, in their order.
use sentinel_zero_trust.Common.{
  ℕ, ◌-◌, ◌≡◌, refl, sym, ap, ◌∙◌, inl, inr, Bool, true, false, List, [], ◌∷◌, ◌++◌, Text, length,
  take, drop, leb, ltb, ◌==◌, concat, concat-append, append_assoc, append-nil, take-append-drop,
  arith, Bool-cases,
}
use sentinel_zero_trust.Logger.Async.{
  buf_size, BufioWriter, flush, write_empty, bw_write, AsyncWriter, Op, write, worker_receive,
  worker_tick, close, Reply, written, overflow, panicked, nothing, enqueue, receive, worker_by,
  close_channel, step, run,
}

-- Everything that a `bufio.Writer` has been given.
abbrev pub given : BufioWriter → Text
given b = b.out ++ b.buf

pub given-flush : (b : BufioWriter) → given (flush b) ≡ given b
unfolding flush
given-flush b = append-nil (b.out ++ b.buf)

given-write_empty : (out p : Text) → given (write_empty out p) ≡ out ++ p
unfolding write_empty
given-write_empty out p = ground (arith, append-nil (out ++ p))

eq_nil_of_length : (xs : Text) → (length xs == 0) ≡ true → xs ≡ []
eq_nil_of_length [] h = refl
eq_nil_of_length (x ∷ xs) h = ground arith

pub given-bw_write : (b : BufioWriter) (p : Text) → given (bw_write b p) ≡ given b ++ p
unfolding bw_write
given-bw_write b p = elim (Bool-cases (leb (length p) (buf_size - length b.buf))) [
  | inl fits ↦ rw (fits, bw_write) (sym (append_assoc b.out b.buf p))
  | inr not_fits ↦ elim (Bool-cases (length b.buf == 0)) [
    | inl e ↦
        rw (not_fits, bw_write, e)
          (given-write_empty b.out p
            ∙ ap (λ (t : Text). t ++ p)
                (sym (append-nil b.out)
                  ∙ ap (λ (t : Text). b.out ++ t) (sym (eq_nil_of_length b.buf e))))
    | inr e ↦
        rw (not_fits, bw_write, e)
          (given-write_empty (b.out ++ (b.buf ++ take room p)) (drop room p)
            ∙ simp append_assoc
                (ap (λ (t : Text). b.out ++ (b.buf ++ t)) (take-append-drop room p)))
  ]
]
  where
    room : ℕ
    room = buf_size - length b.buf

-- What the writer has been given and what it still holds.
abbrev pub accepted_by : AsyncWriter → Text
accepted_by aw = given aw.inner ++ concat aw.buffer

accepted_by-receive :
    (lines : List Text) (closed : Bool) (aw : AsyncWriter)
    → aw.buffer ≡ lines
    → accepted_by (receive lines closed aw) ≡ accepted_by aw
unfolding receive
accepted_by-receive [] true aw e = ap (λ (t : Text). t ++ concat aw.buffer) (given-flush aw.inner)
accepted_by-receive [] false aw e = refl
accepted_by-receive (line ∷ rest) closed aw e =
    ap (λ (t : Text). t ++ concat rest) (given-bw_write aw.inner line)
    ∙ append_assoc (given aw.inner) line (concat rest)
    ∙ ap (λ ls. given aw.inner ++ concat ls) (sym e)

-- The worker moves bytes towards the output and keeps their order.
accepted_by-worker :
    (done takes : Bool) (aw : AsyncWriter) → accepted_by (worker_by done takes aw) ≡ accepted_by aw
unfolding worker_by
accepted_by-worker true takes aw = refl
accepted_by-worker false true aw = accepted_by-receive aw.buffer aw.is_closed aw refl
accepted_by-worker false false aw = ap (λ (t : Text). t ++ concat aw.buffer) (given-flush aw.inner)

-- The bytes that a reply says were taken, and those that the calls of a run were told so of.
abbrev pub taken : Text → Reply → Text
taken p (written n) = p
taken p (overflow e) = []
taken p panicked = []
taken p nothing = []

abbrev pub accepts : AsyncWriter → Op → Text
accepts aw (write p) = taken p (step aw (write p)).1
accepts aw worker_receive = []
accepts aw worker_tick = []
accepts aw close = []

abbrev pub accepted : AsyncWriter → List Op → Text
accepted aw [] = []
accepted aw (op ∷ ops) = accepts aw op ++ accepted (step aw op).0 ops

accepted_by-enqueue :
    (aw : AsyncWriter) (p : Text)
    → accepted_by (enqueue aw p).0 ≡ accepted_by aw ++ taken p (enqueue aw p).1
unfolding enqueue
accepted_by-enqueue aw p = elim (Bool-cases aw.is_closed) [
  | inl c ↦ rw (c, enqueue) (sym (append-nil (accepted_by aw)))
  | inr c ↦ elim (Bool-cases (ltb (length aw.buffer) aw.queue_size)) [
    | inl room ↦ rw (c, enqueue, room) (simp (concat-append, append-nil, append_assoc))
    | inr full ↦ rw (c, enqueue, full) (sym (append-nil (accepted_by aw)))
  ]
]

accepted_by-close : (aw : AsyncWriter) → accepted_by (close_channel aw).0 ≡ accepted_by aw
unfolding close_channel
accepted_by-close aw = elim (Bool-cases aw.is_closed) [
  | inl c ↦ rw (c, close_channel)
  | inr c ↦ rw (c, close_channel)
]

accepted_by-step :
    (aw : AsyncWriter) (op : Op) → accepted_by (step aw op).0 ≡ accepted_by aw ++ accepts aw op
unfolding step
accepted_by-step aw (write p) = accepted_by-enqueue aw p
accepted_by-step aw worker_receive =
    accepted_by-worker aw.is_done true aw ∙ sym (append-nil (accepted_by aw))
accepted_by-step aw worker_tick =
    accepted_by-worker aw.is_done false aw ∙ sym (append-nil (accepted_by aw))
accepted_by-step aw close = accepted_by-close aw ∙ sym (append-nil (accepted_by aw))

-- Over any interleaving of calls and worker steps, what has reached the output, then what the
-- `bufio.Writer` holds, then what is queued, is what was there before and the bytes of the lines
-- whose `Write` returned their length, in order: nothing accepted is lost, repeated or reordered,
-- and nothing of a line that was refused appears.
pub run-accepted :
    (ops : List Op) (aw : AsyncWriter)
    → accepted_by (run aw ops) ≡ accepted_by aw ++ accepted aw ops
unfolding run
run-accepted [] aw = sym (append-nil (accepted_by aw))
run-accepted (op ∷ ops) aw =
    run-accepted ops (step aw op).0
    ∙ ap (λ (t : Text). t ++ accepted (step aw op).0 ops) (accepted_by-step aw op)
    ∙ append_assoc (accepted_by aw) (accepts aw op) (accepted (step aw op).0 ops)
