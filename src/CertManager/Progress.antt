-- ===== src/CertManager/Progress.antt =====
-- What the rotation loop does between two passes.
use sentinel_zero_trust.Common.{
  ◌≡◌, refl, ◌⊎◌, inl, inr, List, [], ◌∷◌, Text, Result-cases, Option-cases, Bool-cases,
}
use sentinel_zero_trust.Common.Int.{ℤ, pos, ◌<ℤ◌}
use sentinel_zero_trust.CertManager.Schedule.{sleep_duration_pos}
use sentinel_zero_trust.CertManager.{
  State, Params, Round, Action, waited, signalled, requested, fetched, installed, continue,
  returned, panicked, Pass, after, Wake, iteration, retry, fetch_and_install, renew,
  sleep_then_renew, schedule, usable_token, current_chain,
}

-- Some action of the trace takes time or changes what is served.
abbrev pub Pauses : List Action → Type 0
Pauses [] = ⊥
Pauses (waited d ∷ acts) = (pos 0 <ℤ d) ⊎ Pauses acts
Pauses (signalled ∷ acts) = Unit
Pauses (installed c uid ∷ acts) = Unit
Pauses (requested a b c d ∷ acts) = Pauses acts
Pauses (fetched t i ∷ acts) = Pauses acts

abbrev pub PausesToContinue : Pass → Type 0
PausesToContinue (acts, continue t) = Pauses acts
PausesToContinue (acts, returned t) = Unit
PausesToContinue (acts, panicked t) = Unit

Pauses-PausesToContinue : (pass : Pass) → Pauses pass.0 → PausesToContinue pass
Pauses-PausesToContinue (acts, continue t) h = h
Pauses-PausesToContinue (acts, returned t) h = tt
Pauses-PausesToContinue (acts, panicked t) h = tt

PausesToContinue-fetched :
    (pass : Pass) (t i : Text)
    → PausesToContinue pass
    → PausesToContinue (after (fetched t i ∷ []) pass)
PausesToContinue-fetched (acts, continue u) t i h = h
PausesToContinue-fetched (acts, returned u) t i h = tt
PausesToContinue-fetched (acts, panicked u) t i h = tt

module _ (p : Params) (r : Round) (s : State) (positive : pos 0 <ℤ s.cm.retry_delay) where
  retry-PausesToContinue : PausesToContinue (retry r s)
  unfolding retry
  retry-PausesToContinue = elim (Bool-cases r.retry_done) [
    | inl e ↦ rw e tt
    | inr e ↦ rw e (inl positive)
  ]

  fetch_and_install-PausesToContinue : (tok : Text) → PausesToContinue (fetch_and_install p r s tok)
  unfolding fetch_and_install
  fetch_and_install-PausesToContinue tok = elim (Result-cases (r.fetch tok p.spiffe_id)) [
    | inl (e, q) ↦
        rw (q, fetch_and_install)
          (PausesToContinue-fetched (retry r s) tok p.spiffe_id retry-PausesToContinue)
    | inr (res, q) ↦ rw (q, fetch_and_install) tt
  ]

  sleep_then_renew-PausesToContinue :
      (d : ℤ) (w : Wake) → pos 0 <ℤ d → r.wake ≡ w → PausesToContinue (sleep_then_renew p r s d)
  unfolding sleep_then_renew
  sleep_then_renew-PausesToContinue d Wake.done h q = rw (q, sleep_then_renew) tt
  sleep_then_renew-PausesToContinue d Wake.timer h q =
      rw (q, sleep_then_renew)
        (Pauses-PausesToContinue (after (waited d ∷ []) (renew p r s)) (inl h))
  sleep_then_renew-PausesToContinue d Wake.renew_now h q =
      rw (q, sleep_then_renew) (Pauses-PausesToContinue (after (signalled ∷ []) (renew p r s)) tt)

  schedule-PausesToContinue : (chain : List Text) → PausesToContinue (schedule p r s chain)
  unfolding schedule
  schedule-PausesToContinue [] = tt
  schedule-PausesToContinue (der ∷ rest) = elim (Result-cases (r.parse_certificate der)) [
    | inl (e, q) ↦ rw (q, schedule) retry-PausesToContinue
    | inr (na, q) ↦
        rw (q, schedule)
          (sleep_then_renew-PausesToContinue _ r.wake
            (sleep_duration_pos s.cm.renewal_window na r.now) refl)
  ]

  -- With a positive retry delay a pass of the loop goes on to the next one only after a positive
  -- wait, a signal on `RenewNow` or the installation of a certificate.
  pub iteration-PausesToContinue : PausesToContinue (iteration p r s)
  unfolding iteration
  iteration-PausesToContinue = elim (Option-cases (usable_token s.token)) [
    | inl q ↦ rw (q, iteration) retry-PausesToContinue
    | inr (tok, q) ↦ elim (Option-cases (current_chain s.cm.current_cert)) [
      | inl n ↦ rw (q, iteration, n) (fetch_and_install-PausesToContinue tok)
      | inr (chain, c) ↦ rw (q, iteration, c) (schedule-PausesToContinue chain)
    ]
  ]
