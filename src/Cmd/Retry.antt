-- ===== src/Cmd/Retry.antt =====
-- The retries of `main`.
use sentinel_zero_trust.Common.{
  ℕ, zero, suc, ap, sym, ◌∙◌, ◌≡◌, refl, true, ◌≤◌, ◌<◌, ◌+◌, inl, inr, Bool-cases, Text, Result,
  ok, err, Result-cases, arith, ◌==◌, ==_iff, leb,
}
use sentinel_zero_trust.Cmd.{Outcome, running, exited, ran_nil, retry_loop, create_proxy}

-- The first call that does not fail among those from `n` on.
pub record IsFirst {A : Type 0} (answers : ℕ → Result A) (n k : ℕ) (p : A) : Type 0 where
  pub not_before : n ≤ k
  pub fails_before : (i : ℕ) → n ≤ i → i < k → (e : Text) × (answers i ≡ err e)
  pub succeeds : answers k ≡ ok p

abbrev pub AllFail : {A : Type 0} → (ℕ → Result A) → ℕ → ℕ → Type 0
AllFail answers n m = (i : ℕ) → n ≤ i → i ≤ m → (e : Text) × (answers i ≡ err e)

-- How the calls from `n` to `10` end, where `base` waits have been made before them.
abbrev pub Ends : {A : Type 0} → (ℕ → Result A) → ℕ → ℕ → ℕ × Outcome A → Type 0
Ends answers n base (waits, running p) = IsFirst answers n (waits + base) p × (waits + base ≤ 10)
Ends answers n base (waits, exited) = AllFail answers n 10 × (waits + base ≡ 10)
Ends answers n base (waits, ran_nil) = ⊥

IsFirst-later :
    {A : Type 0} (answers : ℕ → Result A) (n k : ℕ) {p : A} (e : Text)
    → answers n ≡ err e
    → IsFirst answers (suc n) k p
    → IsFirst answers n k p
IsFirst-later answers n k e h f = record {
  not_before = ground (arith, f.not_before);
  fails_before = λ i l u. elim (Bool-cases (n == i)) [
    | inl q ↦ (e, ap answers (sym ((==_iff n i).0 q)) ∙ h)
    | inr q ↦ f.fails_before i (ground arith) u
  ];
  succeeds = f.succeeds;
}

AllFail-later :
    {A : Type 0} (answers : ℕ → Result A) (n : ℕ) (e : Text)
    → answers n ≡ err e
    → AllFail answers (suc n) 10
    → AllFail answers n 10
AllFail-later answers n e h f = λ i l u. elim (Bool-cases (n == i)) [
  | inl q ↦ (e, ap answers (sym ((==_iff n i).0 q)) ∙ h)
  | inr q ↦ f i (ground arith) u
]

Ends-later :
    {A : Type 0} (answers : ℕ → Result A) (n base : ℕ) (r : ℕ × Outcome A) (e : Text)
    → answers n ≡ err e
    → Ends answers (suc n) base r
    → Ends answers n base r
Ends-later answers n base (w, running p) e h (f, l) = (IsFirst-later answers n (w + base) e h f, l)
Ends-later answers n base (w, exited) e h (f, l) = (AllFail-later answers n e h f, l)
Ends-later answers n base (w, ran_nil) e h f = absurd f

add_suc : (w n : ℕ) → suc w + n ≡ w + suc n
add_suc w n = omega arith

Ends-waited :
    {A : Type 0} (answers : ℕ → Result A) (n base : ℕ) (r : ℕ × Outcome A)
    → Ends answers n (suc base) r
    → Ends answers n base (suc r.0, r.1)
Ends-waited answers n base (w, running p) f = rw (add_suc w base) f
Ends-waited answers n base (w, exited) (f, l) = (f, omega arith)
Ends-waited answers n base (w, ran_nil) f = f

Ends-now :
    {A : Type 0} (answers : ℕ → Result A) (n base w : ℕ) {p : A}
    → answers n ≡ ok p
    → w + base ≡ n
    → n ≤ 10
    → Ends answers n base (w, running p)
Ends-now answers n base w h e l = rw (e) (
  record { not_before = omega arith; fails_before = λ i m u. absurd (omega arith); succeeds = h },
  l,
)

AllFail-last :
    {A : Type 0} (answers : ℕ → Result A) (n : ℕ) (e : Text)
    → answers n ≡ err e
    → n ≡ 10
    → AllFail answers n 10
AllFail-last answers n e h d = λ i l u. (e, ap answers (omega arith) ∙ h)

leb_of : (n : ℕ) → n ≤ 9 → leb n 10 ≡ true
leb_of n h = ground arith

retry_loop-Ends :
    {A : Type 0} (answers : ℕ → Result A) (n fuel : ℕ)
    → n ≤ 9
    → n + fuel ≡ 11
    → Ends answers (suc n) n (retry_loop answers n fuel)
unfolding retry_loop
retry_loop-Ends answers n zero h e = omega arith
retry_loop-Ends answers n (suc fuel) h e = elim (Result-cases (answers (suc n))) [
  | inr (p, q) ↦
      rw (leb_of n h, q, retry_loop) (Ends-now answers (suc n) n 1 q (omega arith) (omega arith))
  | inl (e', q) ↦ elim (Bool-cases (suc n == 10)) [
    | inl d ↦
        rw (leb_of n h, q, d, retry_loop)
          (
            AllFail-last answers (suc n) e' q ((==_iff (suc n) 10).0 d),
            omega (arith, (==_iff (suc n) 10).0 d),
          )
    | inr d ↦
        rw (leb_of n h, q, d, retry_loop)
          (Ends-waited answers (suc n) n (retry_loop answers (suc n) fuel) (
            Ends-later answers (suc n) (suc n) (retry_loop answers (suc n) fuel) e' q
              (retry_loop-Ends answers (suc n) fuel (ground arith) (omega arith))))
  ]
]

-- `main` calls NewProxy at most eleven times, with a wait of ten seconds before each call but the first.
-- It runs the proxy of the first call that does not fail; it exits after ten waits if all eleven
-- fail, and it never runs the nil proxy of a failed call.
pub create_proxy-Ends :
    {A : Type 0} (answers : ℕ → Result A) → Ends answers 0 0 (create_proxy answers)
unfolding create_proxy
create_proxy-Ends answers = elim (Result-cases (answers 0)) [
  | inr (p, q) ↦ rw (q, create_proxy) (Ends-now answers 0 0 0 q refl (omega arith))
  | inl (e, q) ↦
      rw (q, create_proxy)
        (Ends-later answers 0 0 (retry_loop answers 0 11) e q
          (retry_loop-Ends answers 0 11 (omega arith) refl))
]
