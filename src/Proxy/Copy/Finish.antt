-- ===== src/Proxy/Copy/Finish.antt =====
-- How the copies end, and what the end of one leaves of the other.
use sentinel_zero_trust.Common.{
  ℕ, ◌+◌, ◌≤◌, suc, ◌≡◌, refl, Bool, true, false, ◌&&◌, List, [], ◌∷◌, Text, arith, length,
}
use sentinel_zero_trust.Proxy.Copy.{
  Endpoint, Copying, reading, holding, ended, closed, CopyState, Outcome, succeeds, fails, Turn,
  forward, backward, read_chunk, write_chunk, copy_turn, copy_step, copy_run,
}
use sentinel_zero_trust.Proxy.Copy.Order.{endpoint, starts, copy_turn-Keeps}

abbrev pub forward_turns : List Turn → ℕ
forward_turns [] = 0
forward_turns (forward o ∷ turns) = suc (forward_turns turns)
forward_turns (backward o ∷ turns) = forward_turns turns

abbrev pub backward_turns : List Turn → ℕ
backward_turns [] = 0
backward_turns (forward o ∷ turns) = backward_turns turns
backward_turns (backward o ∷ turns) = suc (backward_turns turns)

abbrev pub is_closed : Copying → Bool
is_closed reading = false
is_closed (holding chunk) = false
is_closed (ended lost) = false
is_closed (closed lost) = true

-- How many turns a goroutine still needs: two for each chunk, one that finds the end, and Close.
abbrev pub needs : Copying → List Text → ℕ
needs reading chunks = 2 + (length chunks + length chunks)
needs (holding chunk) chunks = 3 + (length chunks + length chunks)
needs (ended lost) chunks = 1
needs (closed lost) chunks = 0

-- A copy that is behind its Close has closed the connection that it wrote to.
abbrev pub ClosesBehind : Copying → Endpoint → Type 0
ClosesBehind c to = (is_closed c && to.is_open) ≡ false

-- What a turn does to its own goroutine and to the two connections.
pub record Moves (c : Copying) (from to : Endpoint) (m : Copying × Endpoint × Endpoint)
    : Type 0 where
  pub fewer : (n : ℕ) → needs c from.to_come ≤ suc n → needs m.0 m.1.to_come ≤ n
  pub closes : ClosesBehind c to → ClosesBehind m.0 m.2
  pub keeps_from : m.1.is_open ≡ from.is_open
  pub keeps_shut : to.is_open ≡ false → m.2.is_open ≡ false

copy_turn_cases-Moves :
    (c : Copying) (o : Outcome) (l : List Text) (r : Text) (f : Bool) (l' : List Text) (r' : Text)
    (t : Bool)
    → Moves c
        (endpoint l r f)
        (endpoint l' r' t)
        (copy_turn c o (endpoint l r f) (endpoint l' r' t))
unfolding copy_turn read_chunk write_chunk
copy_turn_cases-Moves reading o [] r f l' r' t = record {
  fewer = λ n h. omega (arith, h);
  closes = λ h. refl;
  keeps_from = refl;
  keeps_shut = λ h. h;
}
copy_turn_cases-Moves reading (fails k) (x ∷ l) r f l' r' t = record {
  fewer = λ n h. omega (arith, h);
  closes = λ h. refl;
  keeps_from = refl;
  keeps_shut = λ h. h;
}
copy_turn_cases-Moves reading succeeds (x ∷ l) r true l' r' t = record {
  fewer = λ n h. omega (arith, h);
  closes = λ h. refl;
  keeps_from = refl;
  keeps_shut = λ h. h;
}
copy_turn_cases-Moves reading succeeds (x ∷ l) r false l' r' t = record {
  fewer = λ n h. omega (arith, h);
  closes = λ h. refl;
  keeps_from = refl;
  keeps_shut = λ h. h;
}
copy_turn_cases-Moves (holding x) succeeds l r f l' r' true = record {
  fewer = λ n h. omega (arith, h);
  closes = λ h. refl;
  keeps_from = refl;
  keeps_shut = λ h. h;
}
copy_turn_cases-Moves (holding x) succeeds l r f l' r' false = record {
  fewer = λ n h. omega (arith, h);
  closes = λ h. refl;
  keeps_from = refl;
  keeps_shut = λ h. h;
}
copy_turn_cases-Moves (holding x) (fails k) l r f l' r' true = record {
  fewer = λ n h. omega (arith, h);
  closes = λ h. refl;
  keeps_from = refl;
  keeps_shut = λ h. h;
}
copy_turn_cases-Moves (holding x) (fails k) l r f l' r' false = record {
  fewer = λ n h. omega (arith, h);
  closes = λ h. refl;
  keeps_from = refl;
  keeps_shut = λ h. h;
}
copy_turn_cases-Moves (ended x) o l r f l' r' t = record {
  fewer = λ n h. omega (arith, h);
  closes = λ h. refl;
  keeps_from = refl;
  keeps_shut = λ h. refl;
}
copy_turn_cases-Moves (closed x) o l r f l' r' t = record {
  fewer = λ n h. omega arith;
  closes = λ h. h;
  keeps_from = refl;
  keeps_shut = λ h. h;
}

pub copy_turn-Moves :
    (c : Copying) (o : Outcome) (from to : Endpoint) → Moves c from to (copy_turn c o from to)
copy_turn-Moves c o from to =
    copy_turn_cases-Moves c o from.to_come from.received from.is_open to.to_come to.received
      to.is_open

is_closed-needs : (c : Copying) (l : List Text) → needs c l ≤ 0 → is_closed c ≡ true
is_closed-needs reading l h = absurd (omega (arith, h))
is_closed-needs (holding x) l h = absurd (omega (arith, h))
is_closed-needs (ended x) l h = absurd (omega (arith, h))
is_closed-needs (closed x) l h = refl

-- One goroutine, through the turns of both.
record ForwardEnds (s : CopyState) (n : ℕ) : Type 0 where
  enough : needs s.forward_copy s.src.to_come ≤ n
  closes : ClosesBehind s.forward_copy s.dst

record BackwardEnds (s : CopyState) (n : ℕ) : Type 0 where
  enough : needs s.backward_copy s.dst.to_come ≤ n
  closes : ClosesBehind s.backward_copy s.src

forward_step :
    (s : CopyState) (turn : Turn) (turns : List Turn)
    → ForwardEnds s (forward_turns (turn ∷ turns))
    → ForwardEnds (copy_step s turn) (forward_turns turns)
unfolding copy_step
forward_step s (forward o) turns h =
    let m = copy_turn-Moves s.forward_copy o s.src s.dst in
    record { enough = m.fewer (forward_turns turns) h.enough; closes = m.closes h.closes }
forward_step s (backward o) turns h =
    let m = copy_turn-Moves s.backward_copy o s.dst s.src in
    let k = copy_turn-Keeps s.backward_copy o s.dst s.src in
    record { enough = rw k.left (h.enough); closes = rw m.keeps_from (h.closes) }

backward_step :
    (s : CopyState) (turn : Turn) (turns : List Turn)
    → BackwardEnds s (backward_turns (turn ∷ turns))
    → BackwardEnds (copy_step s turn) (backward_turns turns)
unfolding copy_step
backward_step s (backward o) turns h =
    let m = copy_turn-Moves s.backward_copy o s.dst s.src in
    record { enough = m.fewer (backward_turns turns) h.enough; closes = m.closes h.closes }
backward_step s (forward o) turns h =
    let m = copy_turn-Moves s.forward_copy o s.src s.dst in
    let k = copy_turn-Keeps s.forward_copy o s.src s.dst in
    record { enough = rw k.left (h.enough); closes = rw m.keeps_from (h.closes) }

forward_run :
    (turns : List Turn) (s : CopyState)
    → ForwardEnds s (forward_turns turns)
    → ForwardEnds (copy_run s turns) 0
unfolding copy_run
forward_run [] s h = h
forward_run (turn ∷ turns) s h = forward_run turns (copy_step s turn) (forward_step s turn turns h)

backward_run :
    (turns : List Turn) (s : CopyState)
    → BackwardEnds s (backward_turns turns)
    → BackwardEnds (copy_run s turns) 0
unfolding copy_run
backward_run [] s h = h
backward_run (turn ∷ turns) s h =
    backward_run turns (copy_step s turn) (backward_step s turn turns h)

shut_behind :
    (c : Copying) (to : Endpoint) → is_closed c ≡ true → ClosesBehind c to → to.is_open ≡ false
shut_behind c to d h = ground arith

-- Two connections are relayed, whichever reads and writes fail, until each goroutine has had two turns
-- for each chunk that its source has to send and two more; then both goroutines have returned,
-- whatever the order of the turns, and both connections are closed.
pub copy_run_finishes :
    (src dst : Endpoint) (turns : List Turn)
    → 2 + (length src.to_come + length src.to_come) ≤ forward_turns turns
    → 2 + (length dst.to_come + length dst.to_come) ≤ backward_turns turns
    → let s = copy_run (starts src dst) turns in
      (is_closed s.forward_copy ≡ true)
      × (is_closed s.backward_copy ≡ true)
      × (s.src.is_open ≡ false)
      × (s.dst.is_open ≡ false)
copy_run_finishes src dst turns f b =
    let s = copy_run (starts src dst) turns in
    let there = forward_run turns (starts src dst) (record { enough = f; closes = refl }) in
    let back = backward_run turns (starts src dst) (record { enough = b; closes = refl }) in
    let forth_done = is_closed-needs s.forward_copy s.src.to_come there.enough in
    let back_done = is_closed-needs s.backward_copy s.dst.to_come back.enough in
    (
      forth_done,
      back_done,
      shut_behind s.backward_copy s.src back_done back.closes,
      shut_behind s.forward_copy s.dst forth_done there.closes,
    )

-- With nothing to copy, two turns of the forward goroutine close the destination.
pub forward_shuts :
    (turns : List Turn) (s : CopyState)
    → s.forward_copy ≡ reading
    → s.src.to_come ≡ []
    → 2 ≤ forward_turns turns
    → (copy_run s turns).dst.is_open ≡ false
forward_shuts turns s r e n =
    let t = copy_run s turns in
    let h = forward_run turns s (record { enough = rw (r, e) n; closes = rw r refl }) in
    shut_behind t.forward_copy t.dst (is_closed-needs t.forward_copy t.src.to_come h.enough)
      h.closes
