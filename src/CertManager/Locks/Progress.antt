-- ===== src/CertManager/Locks/Progress.antt =====
-- The runs of the mutex that go on from a state.
use sentinel_zero_trust.Common.{
  append_assoc, ℕ, zero, suc, ◌+◌, ◌≤◌, ◌<◌, ◌≡◌, refl, sym, ap, ◌∙◌, inl, inr, Bool, true, false,
  Bool-cases, List, [], ◌∷◌, ◌++◌, count, count-append, arith, ◌==◌,
}
use sentinel_zero_trust.CertManager.{CertManager, get_current_certificate}
use sentinel_zero_trust.CertManager.Locks.{
  RwMutex, Reader, outside, holding, loaded, returned, Rotation, idle, scanning, writing,
  half_written, written, load, r_unlock, scan_unlock, set_cert, set_pod_uid, System, Step, reads,
  rotates, unlocks, Reach,
}
use sentinel_zero_trust.CertManager.Locks.Invariant.{is_holding, is_writing, scans, Inv}
use sentinel_zero_trust.CertManager.Locks.Preserve.{Reach-Inv, Inv-Step}

-- The steps that a goroutine makes before it releases the mutex.
cost : Rotation → ℕ
cost idle = 0
cost scanning = 1
cost (writing res) = 3
cost (half_written res) = 2
cost (written res) = 1

call_cost : Reader → ℕ
call_cost outside = 0
call_cost holding = 2
call_cost (loaded c) = 1
call_cost (returned c) = 0

total : List Reader → ℕ
unfolding call_cost
total [] = 0
total (r ∷ rs) = call_cost r + total rs

abbrev state :
    ℕ → Bool → CertManager → List Reader → Rotation → CertManager → List CertManager → System
state n w cm rs rot p e = record {
  mutex = record { readers = n; writer = w };
  cm = cm;
  readers = rs;
  rotation = rot;
  published = p;
  earlier = e;
}

abbrev weight : System → ℕ
weight s = cost s.rotation + total s.readers

-- A step that brings a release nearer.
abbrev Nears : System → Type 0
Nears s = (t : System) × Step s t × (weight t < weight s)

rotation-Nears :
    (a : Rotation) (n : ℕ) (w : Bool) (cm p : CertManager) (rs : List Reader) (e : List CertManager)
    → 0 < cost a
    → n ≡ count is_holding rs + scans a
    → w ≡ is_writing a
    → Nears (state n w cm rs a p e)
unfolding cost
rotation-Nears idle n w cm p rs e h c q = absurd (omega arith)
rotation-Nears scanning zero w cm p rs e h c q = absurd (omega arith)
rotation-Nears scanning (suc n) w cm p rs e h c q = (_, rotates scan_unlock, omega arith)
rotation-Nears (writing res) n w cm p rs e h c q = (_, rotates set_cert, omega arith)
rotation-Nears (half_written res) n w cm p rs e h c q = (_, rotates set_pod_uid, omega arith)
rotation-Nears (written res) n true cm p rs e h c q = (_, unlocks, omega arith)
rotation-Nears (written res) n false cm p rs e h c q = ground arith

total-append : (xs ys : List Reader) → total (xs ++ ys) ≡ total xs + total ys
unfolding total
total-append [] ys = omega arith
total-append (x ∷ xs) ys = omega (arith, total-append xs ys)

Nears-readers :
    (n : ℕ) (w : Bool) (cm p : CertManager) (a : Rotation) (e : List CertManager)
    {rs qs : List Reader}
    → rs ≡ qs
    → Nears (state n w cm rs a p e)
    → Nears (state n w cm qs a p e)
Nears-readers n w cm p a e q h = rw (sym q) h

-- Behind the calls of `before`, the first one that holds the mutex makes its step.
calls-Nears :
    (before rs : List Reader) (n : ℕ) (w : Bool) (cm p : CertManager) (a : Rotation)
    (e : List CertManager)
    → 0 < total rs
    → n ≡ count is_holding (before ++ rs) + scans a
    → Nears (state n w cm (before ++ rs) a p e)
unfolding total call_cost
calls-Nears before [] n w cm p a e h c = absurd (omega arith)
calls-Nears before (outside ∷ rs) n w cm p a e h c =
    Nears-readers n w cm p a e (append_assoc before (outside ∷ []) rs) (
      calls-Nears (before ++ (outside ∷ [])) rs n w cm p a e (omega (arith, h))
        (omega (arith, c, ap (count is_holding) (append_assoc before (outside ∷ []) rs))))
calls-Nears before (returned d ∷ rs) n w cm p a e h c =
    Nears-readers n w cm p a e (append_assoc before (returned d ∷ []) rs) (
      calls-Nears (before ++ (returned d ∷ [])) rs n w cm p a e (omega (arith, h))
        (omega (arith, c, ap (count is_holding) (append_assoc before (returned d ∷ []) rs))))
calls-Nears before (holding ∷ rs) n w cm p a e h c = (
  _,
  reads before rs load,
  omega (
    arith,
    total-append before (holding ∷ rs),
    total-append before (loaded (get_current_certificate cm) ∷ rs),
  ),
)
calls-Nears before (loaded d ∷ rs) zero w cm p a e h c =
    absurd (omega (arith, count-append is_holding before (loaded d ∷ rs)))
calls-Nears before (loaded d ∷ rs) (suc n) w cm p a e h c = (
  _,
  reads before rs r_unlock,
  omega (arith, total-append before (loaded d ∷ rs), total-append before (returned d ∷ rs)),
)

count-le-total : (rs : List Reader) → count is_holding rs ≤ total rs
unfolding total call_cost
count-le-total [] = omega arith
count-le-total (outside ∷ rs) = omega (arith, count-le-total rs)
count-le-total (returned c ∷ rs) = omega (arith, count-le-total rs)
count-le-total (holding ∷ rs) = omega (arith, count-le-total rs)
count-le-total (loaded c ∷ rs) = omega (arith, count-le-total rs)

-- Steps one after the other.
pub data Run : System → System → Type 0 where
  here : {s : System} → Run s s
  step : {s t u : System} → Step s t → Run t u → Run s u

abbrev pub IsFree : RwMutex → Type 0
IsFree m = (m.readers ≡ 0) × (m.writer ≡ false)

scans_free : (a : Rotation) → cost a ≡ 0 → (scans a ≡ 0) × (is_writing a ≡ false)
unfolding cost
scans_free idle h = (refl, refl)
scans_free scanning h = absurd (omega arith)
scans_free (writing res) h = absurd (omega arith)
scans_free (half_written res) h = absurd (omega arith)
scans_free (written res) h = absurd (omega arith)

free : {first : CertManager} {s : System} → Inv first s → weight s ≡ 0 → IsFree s.mutex
free {s} i h =
    let (no_scan, no_write) = scans_free s.rotation (omega (arith, h)) in
    (omega (arith, i.counts, count-le-total s.readers, h, no_scan), i.writer ∙ no_write)

weight-Nears : {first : CertManager} {s : System} → Inv first s → 0 < weight s → Nears s
weight-Nears {s} i h = elim (Bool-cases (cost s.rotation == 0)) [
  | inl z ↦
      calls-Nears [] s.readers s.mutex.readers s.mutex.writer s.cm s.published s.rotation s.earlier
        (ground (arith, h)) i.counts
  | inr z ↦
      rotation-Nears s.rotation s.mutex.readers s.mutex.writer s.cm s.published s.readers s.earlier
        (ground arith) i.counts i.writer
]

freed :
    (k : ℕ) {first : CertManager} {s : System}
    → Inv first s
    → weight s ≤ k
    → (t : System) × Run s t × IsFree t.mutex
freed zero {s} i h = (s, here, free i (omega (arith, h)))
freed (suc k) {s} i h = elim (Bool-cases (weight s == 0)) [
  | inl z ↦ (s, here, free i (ground arith))
  | inr z ↦
      let (t, st, less) = weight-Nears i (ground arith) in
      let (u, path, f) = freed k (Inv-Step st i) (omega (arith, h, less)) in (u, step st path, f)
]

-- From every reachable state there is a run to one in which nobody holds the mutex, for reading or for
-- writing: no goroutine is ever stuck with it.
pub mutex_is_freed :
    {first : CertManager} {s : System} → Reach first s → (t : System) × Run s t × IsFree t.mutex
mutex_is_freed {s} r = freed (weight s) (Reach-Inv r) (omega arith)
