-- ===== src/CertManager/Locks/Exclusion.antt =====
-- What a handshake gets while the rotation replaces the certificate.
use sentinel_zero_trust.Common.{
  ◌≡◌, refl, sym, ap, ◌∙◌, ◌<◌, Bool, true, false, List, [], ◌∷◌, count, All, arith,
}
use sentinel_zero_trust.CertManager.{CertManager, get_current_certificate}
use sentinel_zero_trust.CertManager.Locks.{
  Reader, outside, holding, loaded, returned, System, Reach,
}
use sentinel_zero_trust.CertManager.Locks.Invariant.{
  Inv, IsHistory, IsOk, IsOneOf, Agrees-outside, is_holding, is_writing,
}
use sentinel_zero_trust.CertManager.Locks.Preserve.{Reach-Inv}

none_holds : (rs : List Reader) → count is_holding rs ≡ 0 → All (λ r. is_holding r ≡ false) rs
none_holds [] e = tt
none_holds (outside ∷ rs) e = (refl, none_holds rs e)
none_holds (returned c ∷ rs) e = (refl, none_holds rs e)
none_holds (holding ∷ rs) e = absurd (omega (arith, e))
none_holds (loaded c ∷ rs) e = absurd (omega (arith, e))

-- In every reachable state: while the rotation is between Lock and Unlock, no call of
-- GetCurrentCertificate is between RLock and RUnlock.
pub mutual_exclusion :
    {first : CertManager} {s : System}
    → Reach first s
    → is_writing s.rotation ≡ true
    → All (λ r. is_holding r ≡ false) s.readers
mutual_exclusion {first} {s} r w =
    none_holds s.readers (omega (arith, i.counts, i.alone (i.writer ∙ w)))
  where
    i : Inv first s
    i = Reach-Inv r

-- What a call has read is the certificate of the latest published state while it holds the mutex,
-- and of some published state once it has returned.
abbrev pub GetsPublished : System → Reader → Type 0
GetsPublished s (loaded c) = c ≡ get_current_certificate s.published
GetsPublished s (returned c) = IsOneOf c (s.published ∷ s.earlier)
GetsPublished s _ = Unit

GetsPublished-of :
    (s : System) (rs : List Reader)
    → (0 < count is_holding rs → s.cm ≡ s.published)
    → All (IsOk s.cm (s.published ∷ s.earlier)) rs
    → All (GetsPublished s) rs
GetsPublished-of s [] q h = tt
GetsPublished-of s (outside ∷ rs) q (a, h) = (tt, GetsPublished-of s rs q h)
GetsPublished-of s (returned c ∷ rs) q (a, h) = (a, GetsPublished-of s rs q h)
GetsPublished-of s (holding ∷ rs) q (a, h) = (tt, GetsPublished-of s rs (λ _. q (omega arith)) h)
GetsPublished-of s (loaded c ∷ rs) q (a, h) = (
  a ∙ ap get_current_certificate (q (omega arith)),
  GetsPublished-of s rs (λ _. q (omega arith)) h,
)

held_agrees :
    {first : CertManager} {s : System} → Inv first s → 0 < s.mutex.readers → s.cm ≡ s.published
held_agrees {s} i h = Agrees-outside s.rotation (lemma s.mutex.writer refl) i.agrees
  where
    lemma : (w : Bool) → s.mutex.writer ≡ w → is_writing s.rotation ≡ false
    lemma true e = absurd (omega (arith, i.alone e, h))
    lemma false e = sym i.writer ∙ e

-- In every reachable state of any number of calls of GetCurrentCertificate and the rotation, field
-- by field: a call that holds the mutex has read the certificate of the latest published state,
-- one that has returned has that of some published state, and each published state is the one
-- before it with one fetched identity installed whole, the first being the manager that the proxy
-- was started with.
pub readers-GetsPublished :
    {first : CertManager} {s : System}
    → Reach first s
    → All (GetsPublished s) s.readers × IsHistory first s.published s.earlier
readers-GetsPublished {first} {s} r = (
  GetsPublished-of s s.readers (λ h. held_agrees i (omega (arith, i.counts, h))) i.calls,
  i.history,
)
  where
    i : Inv first s
    i = Reach-Inv r
