-- ===== src/CertManager/Stuck.antt =====
-- States that the rotation loop cannot leave: it waits and retries for ever.
use sentinel_zero_trust.Common.{
  ◌≡◌, refl, inl, inr, none, some, List, [], ◌∷◌, Text, err, All, All-map, Bool-cases,
}
use sentinel_zero_trust.CertManager.{
  State, Params, Round, waited, Pass, iteration, start_rotation, resume, retry, schedule,
  usable_token, current_chain,
}
use sentinel_zero_trust.CertManager.Trace.{last_state}

-- Nothing has changed, and the trace holds nothing but retry waits.
abbrev pub OnlyWaits : State → Pass → Type 0
OnlyWaits s pass = (last_state pass.1 ≡ s) × All (λ a. a ≡ waited s.cm.retry_delay) pass.0

resume-OnlyWaits :
    (r : Round) (s : State) (k : State → Pass)
    → OnlyWaits s (k s)
    → OnlyWaits s (resume (retry r s) k)
unfolding retry
resume-OnlyWaits r s k h = elim (Bool-cases r.retry_done) [
  | inl e ↦ rw e (refl, tt)
  | inr e ↦ rw e (h.0, (refl, h.1))
]

start_rotation-OnlyWaits :
    (p : Params) (s : State) (rs : List Round)
    → All (λ r. iteration p r s ≡ retry r s) rs
    → OnlyWaits s (start_rotation p rs s)
unfolding start_rotation
start_rotation-OnlyWaits p s [] h = (refl, tt)
start_rotation-OnlyWaits p s (r ∷ rs) (e, h) =
    rw e (resume-OnlyWaits r s (start_rotation p rs) (start_rotation-OnlyWaits p s rs h))

All-const : (P : Round → Type 0) → ((r : Round) → P r) → (rs : List Round) → All P rs
All-const P f [] = tt
All-const P f (r ∷ rs) = (f r, All-const P f rs)

iteration_no_token :
    (p : Params) (r : Round) (s : State) → usable_token s.token ≡ none → iteration p r s ≡ retry r s
unfolding iteration
iteration_no_token p r s h = rw (h, iteration)

-- Without a token, or with the empty one, the loop never asks for another: whatever the world
-- does, it changes nothing, fetches nothing and only waits.
pub no_token_stuck :
    (p : Params) (s : State) (rs : List Round)
    → usable_token s.token ≡ none
    → OnlyWaits s (start_rotation p rs s)
no_token_stuck p s rs h =
    start_rotation-OnlyWaits p s rs (All-const _ (λ r. iteration_no_token p r s h) rs)

abbrev pub Fails : Text → Round → Type 0
Fails der r = (e : Text) × (r.parse_certificate der ≡ err e)

iteration_unparsable :
    (p : Params) (r : Round) (s : State) (tok der : Text) (rest : List Text)
    → usable_token s.token ≡ some tok
    → current_chain s.cm.current_cert ≡ some (der ∷ rest)
    → Fails der r
    → iteration p r s ≡ retry r s
unfolding iteration schedule
iteration_unparsable p r s tok der rest t c (e, q) = rw (t, iteration, c) (rw (q, schedule))

-- A served certificate whose leaf does not parse is never fetched again: the state stays as it is
-- and the trace holds retry waits only, though the log says that it will be re-fetched.
pub unparsable_stuck :
    (p : Params) (s : State) (rs : List Round) (tok der : Text) (rest : List Text)
    → usable_token s.token ≡ some tok
    → current_chain s.cm.current_cert ≡ some (der ∷ rest)
    → All (Fails der) rs
    → OnlyWaits s (start_rotation p rs s)
unparsable_stuck p s rs tok der rest t c h =
    start_rotation-OnlyWaits p s rs
      (All-map (λ r f. iteration_unparsable p r s tok der rest t c f) rs h)
