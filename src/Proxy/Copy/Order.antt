-- ===== src/Proxy/Copy/Order.antt =====
-- What the copies deliver, and in which order.
use sentinel_zero_trust.Common.{
  ◌≡◌, refl, ap, ◌∙◌, Bool, true, false, List, [], ◌∷◌, ◌++◌, Text, concat, append_assoc, take,
  drop, sym, take-append-drop,
}
use sentinel_zero_trust.Proxy.Copy.{
  Endpoint, Copying, reading, holding, ended, closed, CopyState, Outcome, succeeds, fails, Turn,
  forward, backward, read_chunk, write_chunk, copy_turn, copy_step, copy_run,
}

-- What a goroutine has read and not written: a chunk in its hands, or what a failed write has lost.
abbrev pub unwritten : Copying → Text
unwritten reading = []
unwritten (holding chunk) = chunk
unwritten (ended lost) = lost
unwritten (closed lost) = lost

-- What one side's peer has got, what is unwritten, and what the other side's peer has yet to send.
abbrev pub stream : Copying → Endpoint → Endpoint → Text
stream c from to = to.received ++ (unwritten c ++ concat from.to_come)

abbrev pub streams : CopyState → Text × Text
streams s = (stream s.forward_copy s.src s.dst, stream s.backward_copy s.dst s.src)

abbrev pub endpoint : List Text → Text → Bool → Endpoint
endpoint c r o = record { to_come = c; received = r; is_open = o }

-- Both goroutines begin with a read.
abbrev pub starts : Endpoint → Endpoint → CopyState
starts src dst = record { src = src; dst = dst; forward_copy = reading; backward_copy = reading }

-- A turn leaves its own stream as it was, and what the other direction moves.
pub record Keeps (c : Copying) (from to : Endpoint) (m : Copying × Endpoint × Endpoint)
    : Type 0 where
  pub own : stream m.0 m.1 m.2 ≡ stream c from to
  pub got : m.1.received ≡ from.received
  pub left : m.2.to_come ≡ to.to_come

turn_cases :
    (c : Copying) (o : Outcome) (l : List Text) (r : Text) (f : Bool) (l' : List Text) (r' : Text)
    (t : Bool)
    → Keeps c
        (endpoint l r f)
        (endpoint l' r' t)
        (copy_turn c o (endpoint l r f) (endpoint l' r' t))
unfolding copy_turn read_chunk write_chunk
turn_cases reading o [] r f l' r' t = record { own = refl; got = refl; left = refl }
turn_cases reading (fails n) (x ∷ l) r f l' r' t = record { own = refl; got = refl; left = refl }
turn_cases reading succeeds (x ∷ l) r true l' r' t = record { own = refl; got = refl; left = refl }
turn_cases reading succeeds (x ∷ l) r false l' r' t = record { own = refl; got = refl; left = refl }
turn_cases (holding x) succeeds l r f l' r' true = record {
  own = append_assoc r' x (concat l);
  got = refl;
  left = refl;
}
turn_cases (holding x) succeeds l r f l' r' false = record { own = refl; got = refl; left = refl }
turn_cases (holding x) (fails n) l r f l' r' true = record {
  own =
      append_assoc r' (take n x) (drop n x ++ concat l)
      ∙ ap (λ (t : Text). r' ++ t)
          (sym (append_assoc (take n x) (drop n x) (concat l))
            ∙ ap (λ (t : Text). t ++ concat l) (take-append-drop n x));
  got = refl;
  left = refl;
}
turn_cases (holding x) (fails n) l r f l' r' false = record { own = refl; got = refl; left = refl }
turn_cases (ended x) o l r f l' r' t = record { own = refl; got = refl; left = refl }
turn_cases (closed x) o l r f l' r' t = record { own = refl; got = refl; left = refl }

pub copy_turn-Keeps :
    (c : Copying) (o : Outcome) (from to : Endpoint) → Keeps c from to (copy_turn c o from to)
copy_turn-Keeps c o from to =
    turn_cases c o from.to_come from.received from.is_open to.to_come to.received to.is_open

-- The streams of a state, from the parts that a turn in the other direction leaves alone.
stream-of :
    (c : Copying) (from to from' to' : Endpoint)
    → to'.received ≡ to.received
    → from'.to_come ≡ from.to_come
    → stream c from' to' ≡ stream c from to
stream-of c from to from' to' r l = rw (r, l) refl

copy_step-streams : (s : CopyState) (turn : Turn) → streams (copy_step s turn) ≡ streams s
unfolding copy_step
copy_step-streams s (forward o) =
    let k = copy_turn-Keeps s.forward_copy o s.src s.dst in
    let m = copy_turn s.forward_copy o s.src s.dst in
    rw (k.own, stream-of s.backward_copy s.dst s.src m.2 m.1 k.got k.left) refl
copy_step-streams s (backward o) =
    let k = copy_turn-Keeps s.backward_copy o s.dst s.src in
    let m = copy_turn s.backward_copy o s.dst s.src in
    rw (k.own, stream-of s.forward_copy s.src s.dst m.2 m.1 k.got k.left) refl

-- In each direction, at any moment and whichever reads and writes fail, the bytes that have been
-- delivered, those that have been read and are not written, and those that are still to come make up
-- the same text: what is delivered is a prefix of what was sent, in its order.
pub copy_run-streams : (turns : List Turn) (s : CopyState) → streams (copy_run s turns) ≡ streams s
unfolding copy_run
copy_run-streams [] s = refl
copy_run-streams (turn ∷ turns) s =
    copy_run-streams turns (copy_step s turn) ∙ copy_step-streams s turn
