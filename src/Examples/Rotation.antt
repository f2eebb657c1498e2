-- ===== src/Examples/Rotation.antt =====
-- The rotation of the certificate.
use sentinel_zero_trust.Common.{◌≡◌, refl, List, [], ◌∷◌, codes, All, arith}
use sentinel_zero_trust.CertManager.{State, Round, start_rotation, iteration, current_chain}
use sentinel_zero_trust.CertManager.Locks.{Reach}
use sentinel_zero_trust.CertManager.Locks.Loop.{
  quiet, manager_after, earlier_after, start_rotation-Reach,
}
use sentinel_zero_trust.CertManager.Trace.{served, last_state, IsProper, start_rotation-IsProper}
use sentinel_zero_trust.CertManager.Hitless.{KeptOrIssued, served-KeptOrIssued}
use sentinel_zero_trust.CertManager.Panic.{IsSafe, IssuesLeaf, start_rotation-IsSafe}
use sentinel_zero_trust.CertManager.Cancel.{Halts, IssuesChain, start_rotation-Halts}
use sentinel_zero_trust.CertManager.Progress.{PausesToContinue, iteration-PausesToContinue}
use sentinel_zero_trust.Examples.Data.{
  rotation_params, token_state, renewing, unanswered, cancelled,
}

abbrev rounds : List Round
rounds = unanswered ∷ renewing ∷ []

abbrev started : State
started = token_state (codes "jwt-1")

served-KeptOrIssued_example :
    KeptOrIssued rotation_params rounds
      (served started)
      (served (last_state (start_rotation rotation_params rounds started).1))
served-KeptOrIssued_example = served-KeptOrIssued rotation_params rounds started

start_rotation-IsProper_example :
    All (IsProper rotation_params rounds) (start_rotation rotation_params rounds started).0
start_rotation-IsProper_example = start_rotation-IsProper rotation_params rounds started

ok_leaf : IssuesLeaf rotation_params renewing
unfolding current_chain
ok_leaf tok res e = λ q. ground arith

start_rotation-IsSafe_example : IsSafe (start_rotation rotation_params (renewing ∷ []) started).1
unfolding current_chain
start_rotation-IsSafe_example =
    start_rotation-IsSafe rotation_params (renewing ∷ []) started (ok_leaf, tt) (λ q. ground arith)

no_answer : IssuesChain rotation_params cancelled
no_answer tok res e = cc

start_rotation-Halts_example :
    Halts (start_rotation rotation_params (cancelled ∷ cancelled ∷ []) started)
unfolding current_chain
start_rotation-Halts_example =
    start_rotation-Halts rotation_params cancelled cancelled [] started (refl, refl) (refl, refl)
      no_answer (λ q. ground arith)

iteration-PausesToContinue_example : PausesToContinue (iteration rotation_params renewing started)
iteration-PausesToContinue_example =
    iteration-PausesToContinue rotation_params renewing started (omega arith)

start_rotation-Reach_example :
    let acts = (start_rotation rotation_params rounds started).0 in
    ((last_state (start_rotation rotation_params rounds started).1).cm
      ≡ manager_after acts started.cm)
    × Reach started.cm (quiet (manager_after acts started.cm) (earlier_after acts started.cm []))
start_rotation-Reach_example = start_rotation-Reach rotation_params rounds started
