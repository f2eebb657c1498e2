-- ===== src/Proxy/Copy/Cut.antt =====
-- What the end of one copy leaves of the other.
use sentinel_zero_trust.Common.{
  ◌≤◌, ◌≡◌, refl, ap, ◌∙◌, true, false, Bool, List, [], ◌∷◌, ◌++◌, Text, append-nil, append_assoc,
}
use sentinel_zero_trust.Proxy.Copy.{
  Endpoint, Copying, reading, holding, ended, closed, CopyState, Outcome, succeeds, fails, Turn,
  forward, backward, read_chunk, write_chunk, copy_turn, copy_step, copy_run,
}
use sentinel_zero_trust.Common.{take, drop, take-append-drop}
use sentinel_zero_trust.Proxy.Copy.Order.{endpoint, unwritten, copy_turn-Keeps}
use sentinel_zero_trust.Proxy.Copy.Finish.{forward_turns, copy_turn-Moves, forward_shuts}

-- A turn whose source is closed on this side reads nothing.
record Drains (c : Copying) (from to : Endpoint) (m : Copying × Endpoint × Endpoint) : Type 0 where
  unread : m.1.to_come ≡ from.to_come
  same : m.2.received ++ unwritten m.0 ≡ to.received ++ unwritten c

copy_turn_cases-Drains :
    (c : Copying) (o : Outcome) (l : List Text) (r : Text) (f : Bool) (l' : List Text) (r' : Text)
    (t : Bool)
    → f ≡ false
    → Drains c
        (endpoint l r f)
        (endpoint l' r' t)
        (copy_turn c o (endpoint l r f) (endpoint l' r' t))
unfolding copy_turn read_chunk write_chunk
copy_turn_cases-Drains reading o [] r f l' r' t e = record { unread = refl; same = refl }
copy_turn_cases-Drains reading (fails k) (x ∷ l) r f l' r' t e = record {
  unread = refl;
  same = refl;
}
copy_turn_cases-Drains reading succeeds (x ∷ l) r true l' r' t e = cc
copy_turn_cases-Drains reading succeeds (x ∷ l) r false l' r' t e = record {
  unread = refl;
  same = refl;
}
copy_turn_cases-Drains (holding x) succeeds l r f l' r' true e = record {
  unread = refl;
  same = append-nil (r' ++ x);
}
copy_turn_cases-Drains (holding x) succeeds l r f l' r' false e = record {
  unread = refl;
  same = refl;
}
copy_turn_cases-Drains (holding x) (fails k) l r f l' r' true e = record {
  unread = refl;
  same = append_assoc r' (take k x) (drop k x) ∙ ap (λ (t : Text). r' ++ t) (take-append-drop k x);
}
copy_turn_cases-Drains (holding x) (fails k) l r f l' r' false e = record {
  unread = refl;
  same = refl;
}
copy_turn_cases-Drains (ended x) o l r f l' r' t e = record { unread = refl; same = refl }
copy_turn_cases-Drains (closed x) o l r f l' r' t e = record { unread = refl; same = refl }

copy_turn-Drains :
    (c : Copying) (o : Outcome) (from to : Endpoint)
    → from.is_open ≡ false
    → Drains c from to (copy_turn c o from to)
copy_turn-Drains c o from to e =
    copy_turn_cases-Drains c o from.to_come from.received from.is_open to.to_come to.received
      to.is_open e

record Cut (s t : CopyState) : Type 0 where
  shut : t.dst.is_open ≡ false
  unread : t.dst.to_come ≡ s.dst.to_come
  same : t.src.received ++ unwritten t.backward_copy ≡ s.src.received ++ unwritten s.backward_copy

copy_step-Cut : (s : CopyState) (turn : Turn) → s.dst.is_open ≡ false → Cut s (copy_step s turn)
unfolding copy_step
copy_step-Cut s (forward o) e =
    let m = copy_turn-Moves s.forward_copy o s.src s.dst in
    let k = copy_turn-Keeps s.forward_copy o s.src s.dst in
    record {
      shut = m.keeps_shut e;
      unread = k.left;
      same = ap (λ (t : Text). t ++ unwritten s.backward_copy) k.got;
    }
copy_step-Cut s (backward o) e =
    let m = copy_turn-Moves s.backward_copy o s.dst s.src in
    let d = copy_turn-Drains s.backward_copy o s.dst s.src e in
    record { shut = m.keeps_from ∙ e; unread = d.unread; same = d.same }

copy_run-Cut :
    (turns : List Turn) (s : CopyState) → s.dst.is_open ≡ false → Cut s (copy_run s turns)
unfolding copy_run
copy_run-Cut [] s e = record { shut = e; unread = refl; same = refl }
copy_run-Cut (turn ∷ turns) s e =
    let c = copy_step-Cut s turn e in
    let d = copy_run-Cut turns (copy_step s turn) c.shut in
    record { shut = d.shut; unread = d.unread ∙ c.unread; same = d.same ∙ c.same }

-- Where the source has sent all that it will, as a client does that closes its writing side after its
-- request, and the forward goroutine is about to read, its next two turns close the destination,
-- whatever turns the other goroutine has meanwhile. From then on nothing more is read from the
-- destination, and the source gets at most the chunk that was read before: what it has got and what is
-- unwritten stay the same bytes.
pub copy_run_cuts :
    (s : CopyState) (before after : List Turn)
    → s.forward_copy ≡ reading
    → s.src.to_come ≡ []
    → 2 ≤ forward_turns before
    → let t = copy_run s before in
      let u = copy_run t after in
      (t.dst.is_open ≡ false)
      × (u.dst.to_come ≡ t.dst.to_come)
      × (u.src.received ++ unwritten u.backward_copy ≡ t.src.received ++ unwritten t.backward_copy)
copy_run_cuts s before after r e n =
    let shut = forward_shuts before s r e n in
    let c = copy_run-Cut after (copy_run s before) shut in (shut, c.unread, c.same)
