-- ===== src/CertManager.antt =====
-- data-plane/internal/cert_manager/cert_manager.go: the certificate that the proxy serves and the
-- loop that renews it. One pass of the `for` of `StartRotation` is `iteration`; what the world
-- answers in that pass (time, parser, token provider, control plane, the winner of each `select`)
-- is a `Round`.
pub mod Schedule
pub mod Trace
pub mod Progress
pub mod Stuck
pub mod Panic
pub mod Cancel
pub mod Hitless
pub mod Locks
use sentinel_zero_trust.Common.{
  ℕ, Bool, Option, none, some, List, [], ◌∷◌, ◌++◌, Text, text_eq, Result, ok, err, not, ◌||◌,
  if◌then◌else◌,
}
use sentinel_zero_trust.Common.Int.{ℤ}
use sentinel_zero_trust.Grpc.{TlsCertificate, IdentityResult}
use Schedule.{sleep_duration}

pub record CertManager : Type 0 where
  pub current_cert : Option TlsCertificate
  pub current_pod_uid : Text
  pub retry_delay : ℤ
  pub renewal_window : ℤ

-- `ServiceAccountTokenContainer` of data-plane/internal/utils/token_provider.go; `mu` says that
-- the mutex pointer is not nil.
pub record TokenContainer : Type 0 where
  pub mu : Bool
  pub token : Text

-- The arguments of `StartRotation` that do not change.
pub record Params : Type 0 where
  pub namespace : Text
  pub service_account : Text
  pub pod_name : Text
  pub pod_uid : Text
  pub spiffe_id : Text

-- What the loop changes: the manager, and the container that its pointer argument names.
pub record State : Type 0 where
  pub cm : CertManager
  pub token : Option TokenContainer

-- Which case of the `select` on the timer, on `RenewNow` and on `ctx.Done()` is taken.
pub data Wake : Type 0 where
  timer renew_now done : Wake

pub record Round : Type 0 where
  pub parse_certificate : Text → Result ℤ  -- `NotAfter` of the parsed leaf
  pub now : ℤ
  pub request_token : Text → Text → Text → Text → Result Text
  pub fetch : Text → Text → Result IdentityResult
  pub retry_done : Bool  -- a wait before a retry ends by `ctx.Done()`
  pub wake : Wake

pub data Action : Type 0 where
  waited : ℤ → Action
  signalled : Action
  requested : Text → Text → Text → Text → Action
  fetched : Text → Text → Action
  installed : TlsCertificate → Text → Action

pub data Next : Type 0 where
  continue : State → Next
  returned : State → Next
  panicked : State → Next

abbrev pub Pass : Type 0
Pass = List Action × Next

abbrev pub after : List Action → Pass → Pass
after acts (more, n) = (acts ++ more, n)

unfoldable pub get_current_certificate : CertManager → Option TlsCertificate
get_current_certificate cm = cm.current_cert

-- `token == nil || token.Mu == nil || token.Token == ""`, or the token.
unfoldable pub usable_token : Option TokenContainer → Option Text
usable_token none = none
usable_token (some c) = if not c.mu || text_eq c.token [] then none else some c.token

-- `needsFetch` is `none`; otherwise the chain.
unfoldable pub current_chain : Option TlsCertificate → Option (List Text)
current_chain none = none
current_chain (some c) = c.certificate

-- The assignment under `CertMutex`.
unfoldable pub install : IdentityResult → State → State
install res s = record s {
  cm = record (s.cm) { current_cert = some res.certificate; current_pod_uid = res.pod_uid };
}

-- The assignment under `token.Mu`.
unfoldable pub set_token : Text → State → State
set_token t s = record s {
  token = elim s.token [ none ↦ none | some c ↦ some (record c { token = t }) ];
}

-- `select { case <-time.After(cm.RetryDelay): continue; case <-ctx.Done(): return }`
unfoldable pub retry : Round → State → Pass
retry r s = if r.retry_done then ([], returned s) else (waited s.cm.retry_delay ∷ [], continue s)

module _ (p : Params) (r : Round) where
  unfoldable pub fetch_and_install : State → Text → Pass
  unfolding retry install
  fetch_and_install s tok = after (fetched tok p.spiffe_id ∷ []) (elim (r.fetch tok p.spiffe_id) [
    | err e ↦ retry r s
    | ok res ↦ (installed res.certificate res.pod_uid ∷ [], continue (install res s))
  ])

  -- From the request of a new token on.
  unfoldable pub renew : State → Pass
  unfolding retry set_token fetch_and_install
  renew s =
      after (requested p.namespace p.service_account p.pod_name p.pod_uid ∷ [])
        (elim (r.request_token p.namespace p.service_account p.pod_name p.pod_uid) [
          | err e ↦ retry r s
          | ok t ↦ fetch_and_install (set_token t s) t
        ])

  -- The `select` on the schedule.
  unfoldable pub sleep_then_renew : State → ℤ → Pass
  unfolding renew
  sleep_then_renew s d = elim r.wake [
    | done ↦ ([], returned s)
    | timer ↦ after (waited d ∷ []) (renew s)
    | renew_now ↦ after (signalled ∷ []) (renew s)
  ]

  unfoldable pub schedule : State → List Text → Pass
  unfolding retry sleep_then_renew
  schedule s [] = ([], panicked s)
  schedule s (der ∷ rest) = elim (r.parse_certificate der) [
    | err e ↦ retry r s
    | ok not_after ↦ sleep_then_renew s (sleep_duration s.cm.renewal_window not_after r.now)
  ]

  unfoldable pub iteration : State → Pass
  unfolding usable_token current_chain retry fetch_and_install schedule
  iteration s = elim (usable_token s.token) [
    | none ↦ retry r s
    | some tok ↦ elim (current_chain s.cm.current_cert) [
      | none ↦ fetch_and_install s tok
      | some chain ↦ schedule s chain
    ]
  ]

abbrev pub resume : Pass → (State → Pass) → Pass
resume (acts, continue s) k = after acts (k s)
resume (acts, returned s) k = (acts, returned s)
resume (acts, panicked s) k = (acts, panicked s)

-- The loop over the rounds that the world has played so far.
unfoldable pub start_rotation : Params → List Round → State → Pass
start_rotation p [] s = ([], continue s)
start_rotation p (r ∷ rs) s = resume (iteration p r s) (start_rotation p rs)
