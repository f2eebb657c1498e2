-- ===== src/CertManager/Trace.antt =====
-- What the trace of the rotation loop says of the certificate that is served.
use sentinel_zero_trust.Common.{
  ◌≡◌, refl, sym, ap, ◌∙◌, ◌⊎◌, inl, inr, Option, some, List, [], ◌∷◌, ◌++◌, Text, ok, All,
  All-append, All-map, Result-cases, Option-cases, Bool-cases, arith,
}
use sentinel_zero_trust.Common.Int.{ℤ}
use sentinel_zero_trust.CertManager.Schedule.{sleep_duration}
use sentinel_zero_trust.Grpc.{TlsCertificate}
use sentinel_zero_trust.CertManager.{
  State, Params, Round, Action, waited, signalled, requested, fetched, installed, Next, continue,
  returned, panicked, Pass, Wake, iteration, start_rotation, resume, retry, set_token,
  fetch_and_install, renew, sleep_then_renew, schedule, usable_token, current_chain,
}

-- What is served: the certificate, and the pod that it was issued to.
abbrev pub Served : Type 0
Served = Option TlsCertificate × Text

abbrev pub served : State → Served
served s = (s.cm.current_cert, s.cm.current_pod_uid)

abbrev pub last_state : Next → State
last_state (continue s) = s
last_state (returned s) = s
last_state (panicked s) = s

-- What is served once the actions are done.
abbrev pub serve_after : List Action → Served → Served
serve_after [] v = v
serve_after (installed c uid ∷ acts) v = serve_after acts (some c, uid)
serve_after (_ ∷ acts) v = serve_after acts v

pub serve_after-append :
    (xs ys : List Action) (v : Served)
    → serve_after (xs ++ ys) v ≡ serve_after ys (serve_after xs v)
serve_after-append [] ys v = refl
serve_after-append (installed c uid ∷ xs) ys v = serve_after-append xs ys (some c, uid)
serve_after-append (waited d ∷ xs) ys v = serve_after-append xs ys v
serve_after-append (signalled ∷ xs) ys v = serve_after-append xs ys v
serve_after-append (requested a b c d ∷ xs) ys v = serve_after-append xs ys v
serve_after-append (fetched t i ∷ xs) ys v = serve_after-append xs ys v

-- One pass changes what is served by its installations alone.
pub served-iteration :
    (p : Params) (r : Round) (s : State)
    → served (last_state (iteration p r s).1) ≡ serve_after (iteration p r s).0 (served s)
unfolding iteration
served-iteration p r s = ground arith

served-resume :
    (pass : Pass) (k : State → Pass) (v : Served)
    → served (last_state pass.1) ≡ serve_after pass.0 v
    → ((t : State) → served (last_state (k t).1) ≡ serve_after (k t).0 (served t))
    → served (last_state (resume pass k).1) ≡ serve_after (resume pass k).0 v
served-resume (acts, continue t) k v e h =
    h t ∙ ap (serve_after (k t).0) e ∙ sym (serve_after-append acts (k t).0 v)
served-resume (acts, returned t) k v e h = e
served-resume (acts, panicked t) k v e h = e

-- Over any rounds, what is served at the end is what was served at the start, changed by the
-- installations of the trace in their order and by nothing else.
pub served-start_rotation :
    (p : Params) (rs : List Round) (s : State)
    → served (last_state (start_rotation p rs s).1)
      ≡ serve_after (start_rotation p rs s).0 (served s)
unfolding start_rotation
served-start_rotation p [] s = refl
served-start_rotation p (r ∷ rs) s =
    served-resume (iteration p r s) (start_rotation p rs) (served s) (served-iteration p r s)
      (served-start_rotation p rs)

-- An installed certificate was issued in some round, for the proxy's own SPIFFE id; every fetch
-- is for that id, and every token request for the pod's own service account.
abbrev pub Issued : Params → List Round → TlsCertificate → Text → Type 0
Issued p [] c uid = ⊥
Issued p (r ∷ rs) c uid =
    ((tok : Text) × (r.fetch tok p.spiffe_id ≡ ok (record { certificate = c; pod_uid = uid })))
    ⊎ Issued p rs c uid

abbrev pub IsProper : Params → List Round → Action → Type 0
IsProper p rs (installed c uid) = Issued p rs c uid
IsProper p rs (fetched tok id) = id ≡ p.spiffe_id
IsProper p rs (requested ns sa pod uid) =
    (ns ≡ p.namespace) × (sa ≡ p.service_account) × (pod ≡ p.pod_name) × (uid ≡ p.pod_uid)
IsProper p rs (waited d) = Unit
IsProper p rs signalled = Unit

module _ (p : Params) (r : Round) (s : State) where
  retry-IsProper : All (IsProper p (r ∷ [])) (retry r s).0
  unfolding retry
  retry-IsProper = elim (Bool-cases r.retry_done) [ inl e ↦ rw e tt | inr e ↦ rw e (tt, tt) ]

  fetch_and_install-IsProper :
      (tok : Text) → All (IsProper p (r ∷ [])) (fetch_and_install p r s tok).0
  unfolding fetch_and_install
  fetch_and_install-IsProper tok = elim (Result-cases (r.fetch tok p.spiffe_id)) [
    | inl (e, q) ↦ rw q (refl, retry-IsProper)
    | inr (res, q) ↦ rw q (refl, (inl (tok, q), tt))
  ]

module _ (p : Params) (r : Round) (s : State) where
  renew-IsProper : All (IsProper p (r ∷ [])) (renew p r s).0
  unfolding renew
  renew-IsProper =
      elim (Result-cases (r.request_token p.namespace p.service_account p.pod_name p.pod_uid)) [
        | inl (e, q) ↦ rw q ((refl, refl, refl, refl), retry-IsProper p r s)
        | inr (t, q) ↦
            rw q ((refl, refl, refl, refl), fetch_and_install-IsProper p r (set_token t s) t)
      ]

  sleep_then_renew-IsProper :
      (d : ℤ) (w : Wake) → r.wake ≡ w → All (IsProper p (r ∷ [])) (sleep_then_renew p r s d).0
  unfolding sleep_then_renew
  sleep_then_renew-IsProper d Wake.done q = rw q tt
  sleep_then_renew-IsProper d Wake.timer q = rw q (tt, renew-IsProper)
  sleep_then_renew-IsProper d Wake.renew_now q = rw q (tt, renew-IsProper)

  schedule-IsProper : (chain : List Text) → All (IsProper p (r ∷ [])) (schedule p r s chain).0
  unfolding schedule
  schedule-IsProper [] = tt
  schedule-IsProper (der ∷ rest) = elim (Result-cases (r.parse_certificate der)) [
    | inl (e, q) ↦ rw (q, schedule) (retry-IsProper p r s)
    | inr (na, q) ↦
        rw (q, schedule)
          (sleep_then_renew-IsProper (sleep_duration s.cm.renewal_window na r.now) r.wake refl)
  ]

  iteration-IsProper : All (IsProper p (r ∷ [])) (iteration p r s).0
  unfolding iteration
  iteration-IsProper = elim (Option-cases (usable_token s.token)) [
    | inl q ↦ rw (q, iteration) (retry-IsProper p r s)
    | inr (tok, q) ↦ elim (Option-cases (current_chain s.cm.current_cert)) [
      | inl n ↦ rw (q, iteration, n) (fetch_and_install-IsProper p r s tok)
      | inr (chain, c) ↦ rw (q, iteration, c) (schedule-IsProper chain)
    ]
  ]

IsProper-here :
    (p : Params) (r : Round) (rs : List Round) (a : Action)
    → IsProper p (r ∷ []) a
    → IsProper p (r ∷ rs) a
IsProper-here p r rs (installed c uid) (inl h) = inl h
IsProper-here p r rs (installed c uid) (inr h) = absurd h
IsProper-here p r rs (fetched t i) h = h
IsProper-here p r rs (requested a b c d) h = h
IsProper-here p r rs (waited d) h = h
IsProper-here p r rs signalled h = h

IsProper-later :
    (p : Params) (r : Round) (rs : List Round) (a : Action)
    → IsProper p rs a
    → IsProper p (r ∷ rs) a
IsProper-later p r rs (installed c uid) h = inr h
IsProper-later p r rs (fetched t i) h = h
IsProper-later p r rs (requested a b c d) h = h
IsProper-later p r rs (waited d) h = h
IsProper-later p r rs signalled h = h

resume-IsProper :
    (p : Params) (r : Round) (rs : List Round) (pass : Pass) (k : State → Pass)
    → All (IsProper p (r ∷ [])) pass.0
    → ((t : State) → All (IsProper p rs) (k t).0)
    → All (IsProper p (r ∷ rs)) (resume pass k).0
resume-IsProper p r rs (acts, continue t) k h later =
    All-append _ acts (k t).0 (All-map (IsProper-here p r rs) acts h)
      (All-map (IsProper-later p r rs) (k t).0 (later t))
resume-IsProper p r rs (acts, returned t) k h later = All-map (IsProper-here p r rs) acts h
resume-IsProper p r rs (acts, panicked t) k h later = All-map (IsProper-here p r rs) acts h

-- Every certificate that the loop installs was issued to it in one of the rounds for its SPIFFE
-- id; it fetches for no other id, and requests tokens for no other account or pod.
pub start_rotation-IsProper :
    (p : Params) (rs : List Round) (s : State) → All (IsProper p rs) (start_rotation p rs s).0
unfolding start_rotation
start_rotation-IsProper p [] s = tt
start_rotation-IsProper p (r ∷ rs) s =
    resume-IsProper p r rs (iteration p r s) (start_rotation p rs) (iteration-IsProper p r s)
      (start_rotation-IsProper p rs)
