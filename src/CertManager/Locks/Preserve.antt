-- ===== src/CertManager/Locks/Preserve.antt =====
-- Every step of a call and of the rotation keeps the invariant of the mutex.
use sentinel_zero_trust.Common.{
  ◌≡◌, refl, ap, ◌∙◌, inl, some, List, ◌∷◌, ◌++◌, count-append, All-map, arith,
}
use sentinel_zero_trust.Grpc.{IdentityResult}
use sentinel_zero_trust.CertManager.{CertManager, install, get_current_certificate}
use sentinel_zero_trust.CertManager.Locks.{
  RwMutex, Reader, outside, holding, loaded, returned, Rotation, ReaderMove, r_lock, load, r_unlock,
  RotationMove, scan_lock, scan_unlock, lock, set_cert, set_pod_uid, System, Step, arrives, reads,
  rotates, unlocks, Reach, start, later,
}
use sentinel_zero_trust.CertManager.Locks.Invariant.{
  All_replace, Inv, IsOk, IsOk-alone, IsOk-published, Agrees-outside, installed, is_holding,
  not_writing,
}

Inv-reads :
    {first cm p : CertManager} {m n : RwMutex} {a b : Reader} {rot : Rotation}
    {e : List CertManager} (before rest : List Reader)
    → ReaderMove cm m a n b
    → Inv first (record {
      mutex = m;
      cm = cm;
      readers = before ++ a ∷ rest;
      rotation = rot;
      published = p;
      earlier = e;
    })
    → Inv first (record {
      mutex = n;
      cm = cm;
      readers = before ++ b ∷ rest;
      rotation = rot;
      published = p;
      earlier = e;
    })
Inv-reads {cm} {p} {e} before rest r_lock i = record {
  counts = omega (
    arith,
    i.counts,
    count-append is_holding before (outside ∷ rest),
    count-append is_holding before (holding ∷ rest),
  );
  writer = i.writer;
  alone = λ w. ground arith;
  agrees = i.agrees;
  calls = All_replace (IsOk cm (p ∷ e)) before outside holding rest (λ _. tt) i.calls;
  history = i.history;
}
Inv-reads {cm} {p} {e} before rest load i = record {
  counts = omega (
    arith,
    i.counts,
    count-append is_holding before (holding ∷ rest),
    count-append is_holding before (loaded (get_current_certificate cm) ∷ rest),
  );
  writer = i.writer;
  alone = i.alone;
  agrees = i.agrees;
  calls =
      All_replace (IsOk cm (p ∷ e)) before holding (loaded (get_current_certificate cm)) rest
        (λ _. refl) i.calls;
  history = i.history;
}
Inv-reads {cm} {p} {rot} {e} before rest (r_unlock {n} {w} {c}) i = record {
  counts = omega (
    arith,
    i.counts,
    count-append is_holding before (loaded c ∷ rest),
    count-append is_holding before (returned c ∷ rest),
  );
  writer = i.writer;
  alone = λ w. absurd (omega (arith, i.alone w));
  agrees = i.agrees;
  calls =
      All_replace (IsOk cm (p ∷ e)) before (loaded c) (returned c) rest
        (λ h. inl (
          h
          ∙ ap get_current_certificate
              (Agrees-outside rot (not_writing rot w n i.writer i.alone) i.agrees)))
        i.calls;
  history = i.history;
}

both_set :
    (p cm : CertManager) (res : IdentityResult)
    → cm ≡ record p { current_cert = some res.certificate }
    → record cm { current_pod_uid = res.pod_uid } ≡ installed res p
unfolding install
both_set p cm res h = ap (λ (q : CertManager). record q { current_pod_uid = res.pod_uid }) h

Inv-rotates :
    {first cm dm p : CertManager} {m n : RwMutex} {a b : Rotation} {rs : List Reader}
    {e : List CertManager}
    → RotationMove cm m a dm n b
    → Inv first
        (record { mutex = m; cm = cm; readers = rs; rotation = a; published = p; earlier = e })
    → Inv first
        (record { mutex = n; cm = dm; readers = rs; rotation = b; published = p; earlier = e })
Inv-rotates scan_lock i = record {
  counts = omega (arith, i.counts);
  writer = i.writer;
  alone = λ w. ground arith;
  agrees = i.agrees;
  calls = i.calls;
  history = i.history;
}
Inv-rotates scan_unlock i = record {
  counts = omega (arith, i.counts);
  writer = i.writer;
  alone = λ w. absurd (omega (arith, i.alone w));
  agrees = i.agrees;
  calls = i.calls;
  history = i.history;
}
Inv-rotates (lock res) i = record {
  counts = i.counts;
  writer = refl;
  alone = λ w. refl;
  agrees = i.agrees;
  calls = i.calls;
  history = i.history;
}
Inv-rotates {cm} {p} {rs} {e} (set_cert {m} {res}) i = record {
  counts = i.counts;
  writer = i.writer;
  alone = i.alone;
  agrees = ap (λ (q : CertManager). record q { current_cert = some res.certificate }) i.agrees;
  calls = IsOk-alone cm _ (p ∷ e) rs (omega (arith, i.counts, i.alone i.writer)) i.calls;
  history = i.history;
}
Inv-rotates {cm} {p} {rs} {e} (set_pod_uid {m} {res}) i = record {
  counts = i.counts;
  writer = i.writer;
  alone = i.alone;
  agrees = both_set p cm res i.agrees;
  calls = IsOk-alone cm _ (p ∷ e) rs (omega (arith, i.counts, i.alone i.writer)) i.calls;
  history = i.history;
}

pub Inv-Step : {first : CertManager} {s t : System} → Step s t → Inv first s → Inv first t
Inv-Step arrives i = record {
  counts = omega (arith, i.counts);
  writer = i.writer;
  alone = i.alone;
  agrees = i.agrees;
  calls = (tt, i.calls);
  history = i.history;
}
Inv-Step (reads before rest mv) i = Inv-reads before rest mv i
Inv-Step (rotates mv) i = Inv-rotates mv i
Inv-Step (unlocks {cm} {p} {k} {res} {rs} {e}) i = record {
  counts = omega (arith, i.counts);
  writer = refl;
  alone = λ w. ground arith;
  agrees = refl;
  calls = All-map (IsOk-published cm cm (p ∷ e)) rs i.calls;
  history = ((res, i.agrees), i.history);
}

pub Reach-Inv : {first : CertManager} {s : System} → Reach first s → Inv first s
Reach-Inv start = record {
  counts = refl;
  writer = refl;
  alone = λ w. refl;
  agrees = refl;
  calls = tt;
  history = refl;
}
Reach-Inv (later r st) = Inv-Step st (Reach-Inv r)
