-- ===== src/CertManager/Panic.antt =====
-- Whether `cm.CurrentCert.Certificate[0]` is in range.
use sentinel_zero_trust.Common.{
  ◌≡◌, refl, inl, inr, some, List, [], ◌∷◌, Text, ok, All, Result-cases, Option-cases, Bool-cases,
  ◌≢◌,
}
use sentinel_zero_trust.Common.Int.{ℤ}
use sentinel_zero_trust.CertManager.Schedule.{sleep_duration}
use sentinel_zero_trust.Grpc.{IdentityResult}
use sentinel_zero_trust.CertManager.{
  State, Params, Round, Action, Next, continue, returned, panicked, Pass, after, Wake, iteration,
  start_rotation, resume, retry, set_token, fetch_and_install, renew, sleep_then_renew, schedule,
  usable_token, current_chain,
}

-- What is served has a leaf: no certificate, one with a nil chain, or one with an element.
abbrev pub HasLeaf : State → Type 0
HasLeaf s = current_chain s.cm.current_cert ≢ some []

-- The control plane's answers of a round have no empty chain.
abbrev pub IssuesLeaf : Params → Round → Type 0
IssuesLeaf p r =
    (tok : Text) (res : IdentityResult)
    → r.fetch tok p.spiffe_id ≡ ok res
    → current_chain (some res.certificate) ≢ some []

abbrev pub IsSafe : Next → Type 0
IsSafe (continue s) = HasLeaf s
IsSafe (returned s) = HasLeaf s
IsSafe (panicked s) = ⊥

IsSafe-after : (acts : List Action) (pass : Pass) → IsSafe pass.1 → IsSafe (after acts pass).1
IsSafe-after acts (more, n) h = h

module _ (p : Params) (r : Round) (issues : IssuesLeaf p r) where
  retry-IsSafe : (s : State) → HasLeaf s → IsSafe (retry r s).1
  unfolding retry
  retry-IsSafe s h = elim (Bool-cases r.retry_done) [ inl e ↦ rw e h | inr e ↦ rw e h ]

  fetch_and_install-IsSafe :
      (s : State) (tok : Text) → HasLeaf s → IsSafe (fetch_and_install p r s tok).1
  unfolding fetch_and_install
  fetch_and_install-IsSafe s tok h = elim (Result-cases (r.fetch tok p.spiffe_id)) [
    | inl (e, q) ↦ rw (q, fetch_and_install) (retry-IsSafe s h)
    | inr (res, q) ↦ rw (q, fetch_and_install) (issues tok res q)
  ]

  renew-IsSafe : (s : State) → HasLeaf s → IsSafe (renew p r s).1
  unfolding renew
  renew-IsSafe s h =
      elim (Result-cases (r.request_token p.namespace p.service_account p.pod_name p.pod_uid)) [
        | inl (e, q) ↦ rw (q, renew) (retry-IsSafe s h)
        | inr (t, q) ↦ rw (q, renew) (fetch_and_install-IsSafe (set_token t s) t h)
      ]

  sleep_then_renew-IsSafe :
      (s : State) (d : ℤ) (w : Wake) → HasLeaf s → r.wake ≡ w → IsSafe (sleep_then_renew p r s d).1
  unfolding sleep_then_renew
  sleep_then_renew-IsSafe s d Wake.done h q = rw (q, sleep_then_renew) h
  sleep_then_renew-IsSafe s d Wake.timer h q = rw (q, sleep_then_renew) (renew-IsSafe s h)
  sleep_then_renew-IsSafe s d Wake.renew_now h q = rw (q, sleep_then_renew) (renew-IsSafe s h)

  schedule-IsSafe :
      (s : State) (chain : List Text)
      → HasLeaf s
      → current_chain s.cm.current_cert ≡ some chain
      → IsSafe (schedule p r s chain).1
  unfolding schedule
  schedule-IsSafe s [] h c = h c
  schedule-IsSafe s (der ∷ rest) h c = elim (Result-cases (r.parse_certificate der)) [
    | inl (e, q) ↦ rw (q, schedule) (retry-IsSafe s h)
    | inr (na, q) ↦
        rw (q, schedule)
          (sleep_then_renew-IsSafe s (sleep_duration s.cm.renewal_window na r.now) r.wake h refl)
  ]

  iteration-IsSafe : (s : State) → HasLeaf s → IsSafe (iteration p r s).1
  unfolding iteration
  iteration-IsSafe s h = elim (Option-cases (usable_token s.token)) [
    | inl q ↦ rw (q, iteration) (retry-IsSafe s h)
    | inr (tok, q) ↦ elim (Option-cases (current_chain s.cm.current_cert)) [
      | inl n ↦ rw (q, iteration, n) (fetch_and_install-IsSafe s tok h)
      | inr (chain, c) ↦ rw (q, iteration, c) (schedule-IsSafe s chain h c)
    ]
  ]

resume-IsSafe :
    (pass : Pass) (k : State → Pass)
    → IsSafe pass.1
    → ((t : State) → HasLeaf t → IsSafe (k t).1)
    → IsSafe (resume pass k).1
resume-IsSafe (acts, continue t) k h later = IsSafe-after acts (k t) (later t h)
resume-IsSafe (acts, returned t) k h later = h
resume-IsSafe (acts, panicked t) k h later = h

-- If the served certificate has a leaf and no answer of the control plane has an empty chain, the
-- loop never indexes an empty chain, and at its end what is served has a leaf again.
pub start_rotation-IsSafe :
    (p : Params) (rs : List Round) (s : State)
    → All (IssuesLeaf p) rs
    → HasLeaf s
    → IsSafe (start_rotation p rs s).1
unfolding start_rotation
start_rotation-IsSafe p [] s i h = h
start_rotation-IsSafe p (r ∷ rs) s (i, is) h =
    resume-IsSafe (iteration p r s) (start_rotation p rs) (iteration-IsSafe p r i s h)
      λ t ht. start_rotation-IsSafe p rs t is ht
