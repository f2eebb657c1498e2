-- ===== src/CertManager/Locks/Loop.antt =====
-- The loop of the rotation beside the runs of the mutex: the managers that its installations make.
use sentinel_zero_trust.Common.{
  ◌≡◌, refl, sym, ap, ◌∙◌, some, false, List, [], ◌∷◌, ◌++◌, Text, arith,
}
use sentinel_zero_trust.Grpc.{TlsCertificate}
use sentinel_zero_trust.CertManager.{
  CertManager, State, Params, Round, Action, waited, signalled, requested, fetched, installed,
  continue, returned, panicked, Pass, install, iteration, resume, start_rotation,
}
use sentinel_zero_trust.CertManager.Trace.{last_state}
use sentinel_zero_trust.CertManager.Locks.{
  System, idle, lock, set_cert, set_pod_uid, rotates, unlocks, Reach, start, later,
}

-- The manager with another certificate and the pod UID that it was issued to.
abbrev pub with_identity : TlsCertificate → Text → CertManager → CertManager
with_identity c uid cm = record cm { current_cert = some c; current_pod_uid = uid }

-- The manager after the installations of a trace, and those that it was before each, latest first.
abbrev pub manager_after : List Action → CertManager → CertManager
manager_after [] cm = cm
manager_after (installed c uid ∷ acts) cm = manager_after acts (with_identity c uid cm)
manager_after (_ ∷ acts) cm = manager_after acts cm

abbrev pub earlier_after : List Action → CertManager → List CertManager → List CertManager
earlier_after [] cm e = e
earlier_after (installed c uid ∷ acts) cm e = earlier_after acts (with_identity c uid cm) (cm ∷ e)
earlier_after (_ ∷ acts) cm e = earlier_after acts cm e

manager_after-append :
    (xs ys : List Action) (cm : CertManager)
    → manager_after (xs ++ ys) cm ≡ manager_after ys (manager_after xs cm)
manager_after-append [] ys cm = refl
manager_after-append (installed c uid ∷ xs) ys cm =
    manager_after-append xs ys (with_identity c uid cm)
manager_after-append (waited d ∷ xs) ys cm = manager_after-append xs ys cm
manager_after-append (signalled ∷ xs) ys cm = manager_after-append xs ys cm
manager_after-append (requested a b c d ∷ xs) ys cm = manager_after-append xs ys cm
manager_after-append (fetched t i ∷ xs) ys cm = manager_after-append xs ys cm

-- One pass changes the manager by its installations alone.
iteration-manager_after :
    (p : Params) (r : Round) (s : State)
    → (last_state (iteration p r s).1).cm ≡ manager_after (iteration p r s).0 s.cm
unfolding iteration install
iteration-manager_after p r s = ground arith

resume-manager_after :
    (pass : Pass) (k : State → Pass) (cm : CertManager)
    → (last_state pass.1).cm ≡ manager_after pass.0 cm
    → ((t : State) → (last_state (k t).1).cm ≡ manager_after (k t).0 t.cm)
    → (last_state (resume pass k).1).cm ≡ manager_after (resume pass k).0 cm
resume-manager_after (acts, continue t) k cm e h =
    h t ∙ ap (manager_after (k t).0) e ∙ sym (manager_after-append acts (k t).0 cm)
resume-manager_after (acts, returned t) k cm e h = e
resume-manager_after (acts, panicked t) k cm e h = e

start_rotation-manager_after :
    (p : Params) (rs : List Round) (s : State)
    → (last_state (start_rotation p rs s).1).cm ≡ manager_after (start_rotation p rs s).0 s.cm
unfolding start_rotation
start_rotation-manager_after p [] s = refl
start_rotation-manager_after p (r ∷ rs) s =
    resume-manager_after (iteration p r s) (start_rotation p rs) s.cm
      (iteration-manager_after p r s) (start_rotation-manager_after p rs)

-- Nobody holds the mutex, and no call is in progress.
abbrev pub quiet : CertManager → List CertManager → System
quiet cm e = record {
  mutex = record { readers = 0; writer = false };
  cm = cm;
  readers = [];
  rotation = idle;
  published = cm;
  earlier = e;
}

write_section :
    {first cm : CertManager} {e : List CertManager} (c : TlsCertificate) (uid : Text)
    → Reach first (quiet cm e)
    → Reach first (quiet (with_identity c uid cm) (cm ∷ e))
write_section c uid r =
    later
      (later
        (later (later r (rotates (lock (record { certificate = c; pod_uid = uid }))))
          (rotates set_cert))
        (rotates set_pod_uid))
      unlocks

actions-Reach :
    (first : CertManager) (acts : List Action) (cm : CertManager) (e : List CertManager)
    → Reach first (quiet cm e)
    → Reach first (quiet (manager_after acts cm) (earlier_after acts cm e))
actions-Reach first [] cm e h = h
actions-Reach first (installed c uid ∷ acts) cm e h =
    actions-Reach first acts (with_identity c uid cm) (cm ∷ e) (write_section c uid h)
actions-Reach first (waited d ∷ acts) cm e h = actions-Reach first acts cm e h
actions-Reach first (signalled ∷ acts) cm e h = actions-Reach first acts cm e h
actions-Reach first (requested a b c d ∷ acts) cm e h = actions-Reach first acts cm e h
actions-Reach first (fetched t i ∷ acts) cm e h = actions-Reach first acts cm e h

-- Whatever rounds the loop has gone through, the manager that it has left is the one it began with, with
-- the certificate and the pod UID of each installation of its trace put in, in order; and there is a run
-- of the mutex that begins with the same manager, ends with nobody under it, and has published just
-- those managers, each at the end of one critical section.
pub start_rotation-Reach :
    (p : Params) (rs : List Round) (s : State)
    → let acts = (start_rotation p rs s).0 in
      ((last_state (start_rotation p rs s).1).cm ≡ manager_after acts s.cm)
      × Reach s.cm (quiet (manager_after acts s.cm) (earlier_after acts s.cm []))
start_rotation-Reach p rs s = (
  start_rotation-manager_after p rs s,
  actions-Reach s.cm (start_rotation p rs s).0 s.cm [] start,
)
