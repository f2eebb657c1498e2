-- ===== src/CertManager/Cancel.antt =====
-- What the rotation loop does where ctx.Done() wins its selects.
use sentinel_zero_trust.Common.{
  ◌≡◌, inl, inr, true, Option, some, List, [], ◌∷◌, Text, ok, All, All-append, Result-cases,
  Option-cases,
}
use sentinel_zero_trust.Grpc.{TlsCertificate, IdentityResult}
use sentinel_zero_trust.CertManager.Panic.{HasLeaf}
use sentinel_zero_trust.CertManager.{
  State, Params, Round, Action, Next, continue, returned, panicked, Pass, after, Wake, fetched,
  installed, waited, signalled, requested, iteration, start_rotation, resume, retry,
  fetch_and_install, sleep_then_renew, schedule, usable_token, current_chain,
}

-- `ctx.Done()` wins every `select` of the round: it is ready, and it is the case that is chosen
-- also where the timer or RenewNow is ready.
abbrev pub DoneWins : Round → Type 0
DoneWins r = (r.retry_done ≡ true) × (r.wake ≡ Wake.done)

-- What is served has a chain with a leaf.
abbrev pub ServesLeaf : Option TlsCertificate → Type 0
ServesLeaf c = (der : Text) × (rest : List Text) × (current_chain c ≡ some (der ∷ rest))

-- The control plane's answers of a round have such a chain.
abbrev pub IssuesChain : Params → Round → Type 0
IssuesChain p r =
    (tok : Text) (res : IdentityResult)
    → r.fetch tok p.spiffe_id ≡ ok res
    → ServesLeaf (some res.certificate)

-- The action takes no time and asks for no token.
abbrev pub IsPrompt : Action → Type 0
IsPrompt (fetched t i) = Unit
IsPrompt (installed c uid) = Unit
IsPrompt (waited d) = ⊥
IsPrompt signalled = ⊥
IsPrompt (requested a b c d) = ⊥

-- StartRotation has returned, and has not panicked.
abbrev pub IsHalted : Next → Type 0
IsHalted (continue s) = ⊥
IsHalted (returned s) = Unit
IsHalted (panicked s) = ⊥

abbrev pub Halts : Pass → Type 0
Halts pass = IsHalted pass.1 × All IsPrompt pass.0

module _ (p : Params) (r : Round) (done_wins : DoneWins r) where
  retry-Halts : (s : State) → Halts (retry r s)
  unfolding retry
  retry-Halts s = rw (done_wins.0) (tt, tt)

  schedule-Halts : (s : State) (der : Text) (rest : List Text) → Halts (schedule p r s (der ∷ rest))
  unfolding schedule sleep_then_renew
  schedule-Halts s der rest = elim (Result-cases (r.parse_certificate der)) [
    | inl (e, q) ↦ rw (q, schedule) (retry-Halts s)
    | inr (na, q) ↦ rw (q, schedule, done_wins.1, sleep_then_renew) (tt, tt)
  ]

  -- With a leaf to serve, or no token, one pass ends the loop.
  served_iteration-Halts : (s : State) → ServesLeaf s.cm.current_cert → Halts (iteration p r s)
  unfolding iteration
  served_iteration-Halts s (der, rest, c) = elim (Option-cases (usable_token s.token)) [
    | inl q ↦ rw (q, iteration) (retry-Halts s)
    | inr (tok, q) ↦ rw (q, iteration, c) (schedule-Halts s der rest)
  ]

-- Otherwise it fetches once, and goes on only with a chain to serve.
abbrev HaltsOrServes : Pass → Type 0
HaltsOrServes (acts, continue t) = ServesLeaf t.cm.current_cert × All IsPrompt acts
HaltsOrServes (acts, returned t) = All IsPrompt acts
HaltsOrServes (acts, panicked t) = ⊥

Halts-HaltsOrServes : (pass : Pass) → Halts pass → HaltsOrServes pass
Halts-HaltsOrServes (acts, continue t) h = absurd h.0
Halts-HaltsOrServes (acts, returned t) h = h.1
Halts-HaltsOrServes (acts, panicked t) h = absurd h.0

HaltsOrServes-fetched :
    (pass : Pass) (t i : Text) → HaltsOrServes pass → HaltsOrServes (after (fetched t i ∷ []) pass)
HaltsOrServes-fetched (acts, continue u) t i h = (h.0, (tt, h.1))
HaltsOrServes-fetched (acts, returned u) t i h = (tt, h)
HaltsOrServes-fetched (acts, panicked u) t i h = absurd h

module _ (p : Params) (r : Round) (done_wins : DoneWins r) (issues : IssuesChain p r) where
  fetch_and_install-HaltsOrServes :
      (s : State) (tok : Text) → HaltsOrServes (fetch_and_install p r s tok)
  unfolding fetch_and_install
  fetch_and_install-HaltsOrServes s tok = elim (Result-cases (r.fetch tok p.spiffe_id)) [
    | inl (e, q) ↦
        rw (q, fetch_and_install)
          (HaltsOrServes-fetched (retry r s) tok p.spiffe_id
            (Halts-HaltsOrServes (retry r s) (retry-Halts p r done_wins s)))
    | inr (res, q) ↦ rw (q, fetch_and_install) (issues tok res q, (tt, (tt, tt)))
  ]

  iteration-HaltsOrServes : (s : State) → HasLeaf s → HaltsOrServes (iteration p r s)
  unfolding iteration
  iteration-HaltsOrServes s leaf = elim (Option-cases (usable_token s.token)) [
    | inl q ↦ rw (q, iteration) (Halts-HaltsOrServes (retry r s) (retry-Halts p r done_wins s))
    | inr (tok, q) ↦ elim (Option-cases (current_chain s.cm.current_cert)) [
      | inl n ↦ rw (q, iteration, n) (fetch_and_install-HaltsOrServes s tok)
      | inr ([], c) ↦ absurd (leaf c)
      | inr (der ∷ rest, c) ↦
          rw (q, iteration, c)
            (Halts-HaltsOrServes (schedule p r s (der ∷ rest))
              (schedule-Halts p r done_wins s der rest))
    ]
  ]

resume-Halts :
    (pass : Pass) (k : State → Pass)
    → HaltsOrServes pass
    → ((t : State) → ServesLeaf t.cm.current_cert → Halts (k t))
    → Halts (resume pass k)
resume-Halts (acts, continue t) k h later =
    ((later t h.0).0, All-append IsPrompt acts (k t).0 h.1 (later t h.0).1)
resume-Halts (acts, returned t) k h later = (tt, h)
resume-Halts (acts, panicked t) k h later = absurd h

resume_halted : (pass : Pass) (k : State → Pass) → Halts pass → Halts (resume pass k)
resume_halted (acts, continue t) k h = absurd h.0
resume_halted (acts, returned t) k h = h
resume_halted (acts, panicked t) k h = absurd h.0

-- Where ctx.Done() wins the selects of two passes one after the other, what is served at first has no
-- empty chain, and the answers of the first of the two have a chain with a leaf, StartRotation has
-- returned, without a panic, after these two passes at the latest; it fetches at most, and neither
-- waits, nor takes a RenewNow, nor requests a token.
pub start_rotation-Halts :
    (p : Params) (r r' : Round) (rs : List Round) (s : State)
    → DoneWins r
    → DoneWins r'
    → IssuesChain p r
    → HasLeaf s
    → Halts (start_rotation p (r ∷ r' ∷ rs) s)
unfolding start_rotation
start_rotation-Halts p r r' rs s c c' issues leaf =
    resume-Halts (iteration p r s) _ (iteration-HaltsOrServes p r c issues s leaf) λ t h.
      resume_halted (iteration p r' t) (start_rotation p rs) (served_iteration-Halts p r' c' t h)
