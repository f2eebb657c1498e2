-- ===== src/Cmd/Program/Ends.antt =====
-- How a run of main ends, and what it leaves undone.
use sentinel_zero_trust.Common.{
  ℕ, zero, suc, ◌+◌, ◌≤◌, ◌≡◌, refl, sym, ap, ◌∙◌, inl, inr, true, Bool-cases, Option, none, some,
  List, [], ◌∷◌, ◌++◌, append_assoc, append-nil, Text, codes, Result, ok, err, Result-cases, ◌==◌,
  leb, arith, All, All-append,
}
use sentinel_zero_trust.Config.{ProxyConfig}
use sentinel_zero_trust.Proxy.Defs.{info, error}
use sentinel_zero_trust.Cmd.{Outcome, running, exited, ran_nil}
use sentinel_zero_trust.Cmd.Program.{
  Outside, Act, logs, sleeps, exits, Finish, serves, gone, returned, crashed, exit_with, retries,
  retry_message, creates, deferred, finish_run, run_outcome, start_proxy, main_with, main,
}

-- A line or a wait.
abbrev pub IsQuiet : Act → Type 0
IsQuiet (logs l m) = Unit
IsQuiet sleeps = Unit
IsQuiet _ = ⊥

-- The acts of a run that stands so.
abbrev pub EndsAs : Finish → List Act → Type 0
EndsAs serves acts = All IsQuiet acts
EndsAs gone acts =
    (before : List Act) × (m : Text) × (acts ≡ before ++ (logs error m ∷ exits ∷ []))
    × All IsQuiet before
EndsAs returned acts = (before : List Act) × (acts ≡ before ++ deferred) × All IsQuiet before
EndsAs crashed acts = ⊥

-- The acts of the retries.
abbrev Tries : {A : Type 0} → Outcome A → List Act → Type 0
Tries (running p) acts = All IsQuiet acts
Tries exited acts = EndsAs gone acts
Tries ran_nil acts = ⊥

EndsAs-after :
    (f : Finish) (quiet acts : List Act)
    → All IsQuiet quiet
    → EndsAs f acts
    → EndsAs f (quiet ++ acts)
EndsAs-after serves quiet acts q h = All-append IsQuiet quiet acts q h
EndsAs-after gone quiet acts q (before, m, e, h) = (
  quiet ++ before,
  m,
  ap (λ (xs : List Act). quiet ++ xs) e ∙ sym (append_assoc quiet before _),
  All-append IsQuiet quiet before q h,
)
EndsAs-after returned quiet acts q (before, e, h) = (
  quiet ++ before,
  ap (λ (xs : List Act). quiet ++ xs) e ∙ sym (append_assoc quiet before _),
  All-append IsQuiet quiet before q h,
)
EndsAs-after crashed quiet acts q h = absurd h

Tries-after :
    {A : Type 0} (o : Outcome A) (quiet acts : List Act)
    → All IsQuiet quiet
    → Tries o acts
    → Tries o (quiet ++ acts)
Tries-after (running p) quiet acts q h = All-append IsQuiet quiet acts q h
Tries-after exited quiet acts q h = EndsAs-after gone quiet acts q h
Tries-after ran_nil quiet acts q h = absurd h

leb_of : (n : ℕ) → n ≤ 9 → leb n 10 ≡ true
leb_of n h = ground arith

retries-Tries :
    {A : Type 0} (answers : ℕ → Result A) (n fuel : ℕ)
    → n ≤ 9
    → n + fuel ≡ 11
    → Tries (retries answers n fuel).1 (retries answers n fuel).0
unfolding retries
retries-Tries answers n zero h e = omega arith
retries-Tries answers n (suc fuel) h e = elim (Result-cases (answers (suc n))) [
  | inr (p, q) ↦ rw (leb_of n h, q, retries) (tt, (tt, tt))
  | inl (e', q) ↦ elim (Bool-cases (suc n == 10)) [
    | inl d ↦
        rw (leb_of n h, q, d, retries)
          (
            logs info (retry_message (suc n))
                ∷ sleeps
                ∷ logs error (codes "failed to create proxy")
                ∷ [],
            codes "failed to create proxy after 10 attempts, exiting...",
            refl,
            (tt, (tt, (tt, tt))),
          )
    | inr d ↦
        rw (leb_of n h, q, d, retries)
          (Tries-after (retries answers (suc n) fuel).1
            (logs info (retry_message (suc n))
              ∷ sleeps
              ∷ logs error (codes "failed to create proxy")
              ∷ [])
            (retries answers (suc n) fuel).0 (tt, (tt, (tt, tt)))
            (retries-Tries answers (suc n) fuel (ground arith) (omega arith)))
  ]
]

creates-Tries :
    {A : Type 0} (answers : ℕ → Result A) → Tries (creates answers).1 (creates answers).0
unfolding creates
creates-Tries answers = elim (Result-cases (answers 0)) [
  | inr (p, q) ↦ rw (q, creates) tt
  | inl (e, q) ↦
      rw (q, creates)
        (Tries-after (retries answers 0 11).1 (logs error (codes "failed to create proxy...") ∷ [])
          (retries answers 0 11).0 (tt, tt) (retries-Tries answers 0 11 (omega arith) refl))
]

exit_with-EndsAs : (m : Text) → EndsAs (exit_with m).1 (exit_with m).0
exit_with-EndsAs m = ([], m, refl, tt)

finish_run-EndsAs : (r : Option (Result (Unit {0}))) → EndsAs (finish_run r).1 (finish_run r).0
unfolding finish_run
finish_run-EndsAs none = tt
finish_run-EndsAs (some (err e)) = exit_with-EndsAs (codes "proxy error")
finish_run-EndsAs (some (ok _)) = ([], refl, tt)

EndsAs-nil : (acts : List Act) → EndsAs gone acts → EndsAs gone (acts ++ [])
EndsAs-nil acts h = rw append-nil h

module _ {A : Type 0} (o : Outside A) where
  run_outcome-EndsAs :
      (r : Outcome A) (acts : List Act)
      → Tries r acts
      → EndsAs (run_outcome o r).1 (acts ++ (run_outcome o r).0)
  unfolding run_outcome
  run_outcome-EndsAs (running p) acts h =
      EndsAs-after (finish_run (o.run p)).1 acts (finish_run (o.run p)).0 h
        (finish_run-EndsAs (o.run p))
  run_outcome-EndsAs exited acts h = EndsAs-nil acts h
  run_outcome-EndsAs ran_nil acts h = absurd h

  start_proxy-EndsAs : (cfg : ProxyConfig) → EndsAs (start_proxy o cfg).1 (start_proxy o cfg).0
  unfolding start_proxy
  start_proxy-EndsAs cfg =
      let made = creates (o.new_proxy cfg) in
      EndsAs-after (run_outcome o made.1).1 (logs info (codes "starting sentinel-zt proxy") ∷ [])
        (made.0 ++ (run_outcome o made.1).0) (tt, tt)
        (run_outcome-EndsAs made.1 made.0 (creates-Tries (o.new_proxy cfg)))

  main_with-EndsAs : (cfg : ProxyConfig) → EndsAs (main_with o cfg).1 (main_with o cfg).0
  unfolding main_with
  main_with-EndsAs cfg = elim (Result-cases (o.new_client cfg.target_grpc)) [
    | inl (e, q) ↦ rw (q, main_with) (exit_with-EndsAs (codes "failed to connect to target"))
    | inr (_, q) ↦ elim (Result-cases o.create_clientset) [
      | inl (e, p) ↦ rw (q, p, main_with) (exit_with-EndsAs (codes "failed to create clientset"))
      | inr (_, p) ↦ rw (q, p, main_with) (start_proxy-EndsAs cfg)
    ]
  ]

  -- Whatever the environment and the world answer, main never panics. Up to its end it only logs and
  -- waits. Where it exits, it does so right behind a line of level error, and neither the
  -- connection nor the log writer is closed; where it returns, both are, in this order.
  pub main-EndsAs : (getenv : Text → Text) → EndsAs (main o getenv).1 (main o getenv).0
  unfolding main
  main-EndsAs getenv = main_with-EndsAs _
