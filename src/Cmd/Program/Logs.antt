-- ===== src/Cmd/Program/Logs.antt =====
-- The lines of main at the log writer, woven with the calls of the other goroutines and the turns of
-- the worker.
use sentinel_zero_trust.Common.{
  ℕ, ◌<◌, ◌≡◌, refl, sym, ap, ◌∙◌, Bool, true, false, ◌||◌, Option, none, some, List, [], ◌∷◌, ◌++◌,
  Text, length, All,
}
use sentinel_zero_trust.Proxy.Defs.{Level}
use sentinel_zero_trust.Logger.Async.{Op, write, close, run, new_async_writer}
use sentinel_zero_trust.Logger.Async.Fifo.{accepted}
use sentinel_zero_trust.Logger.Async.Shutdown.{IsWorker, receives, HasEnded}
use sentinel_zero_trust.Logger.Async.Whole.{is_close, any_close, run_to_close}
use sentinel_zero_trust.Cmd.Program.{
  Outside, Act, logs, sleeps, exits, panics, closes_conn, cleans_up, Finish, returned, deferred,
  main,
}
use sentinel_zero_trust.Cmd.Program.Ends.{EndsAs, main-EndsAs}

-- `InitLogger(loggerCfg, os.Stdout, 5000)`
abbrev pub log_queue : ℕ
log_queue = 5000

abbrev pub closes : Act → Bool
closes cleans_up = true
closes _ = false

abbrev pub any_closes : List Act → Bool
any_closes [] = false
any_closes (act ∷ rest) = closes act || any_closes rest

abbrev pub write_of : Option Text → List Op
write_of none = []
write_of (some text) = write text ∷ []

any_close-write_of :
    (t : Option Text) (ops : List Op) → any_close (write_of t ++ ops) ≡ any_close ops
any_close-write_of none ops = refl
any_close-write_of (some text) ops = refl

-- The text of a line: none where its level is off.
module _ (line : Level → Text → Option Text) where
  -- What an act asks of the log writer.
  abbrev pub log_ops : Act → List Op
  log_ops (logs l m) = write_of (line l m)
  log_ops cleans_up = close ∷ []
  log_ops sleeps = []
  log_ops exits = []
  log_ops panics = []
  log_ops closes_conn = []

  -- The operations of main's acts, in order, with operations other than Close between them.
  pub data Woven : List Act → List Op → Type 0 where
    done : Woven [] []
    other :
        {acts : List Act} {ops : List Op} (op : Op)
        → is_close op ≡ false
        → Woven acts ops
        → Woven acts (op ∷ ops)
    own :
        {rest : List Act} {ops : List Op} (act : Act)
        → Woven rest ops
        → Woven (act ∷ rest) (log_ops act ++ ops)

  any_close-log_ops :
      (act : Act) (ops : List Op) → any_close (log_ops act ++ ops) ≡ (closes act || any_close ops)
  any_close-log_ops (logs l m) ops = any_close-write_of (line l m) ops
  any_close-log_ops cleans_up ops = refl
  any_close-log_ops sleeps ops = refl
  any_close-log_ops exits ops = refl
  any_close-log_ops panics ops = refl
  any_close-log_ops closes_conn ops = refl

  any_close-Woven :
      {acts : List Act} {ops : List Op} → Woven acts ops → any_close ops ≡ any_closes acts
  any_close-Woven done = refl
  any_close-Woven (other {ops} op c w) = ap (λ b. b || any_close ops) c ∙ any_close-Woven w
  any_close-Woven (own {ops} act w) =
      any_close-log_ops act ops ∙ ap (λ b. closes act || b) (any_close-Woven w)

  -- The operations of the acts with nothing between them.
  abbrev pub all_ops : List Act → List Op
  all_ops [] = []
  all_ops (act ∷ rest) = log_ops act ++ all_ops rest

  pub Woven-all_ops : (acts : List Act) → Woven acts (all_ops acts)
  Woven-all_ops [] = done
  Woven-all_ops (act ∷ rest) = own act (Woven-all_ops rest)

any_closes-deferred : (before : List Act) → any_closes (before ++ deferred) ≡ true
any_closes-deferred [] = refl
any_closes-deferred (act ∷ before) =
    ap (λ b. closes act || b) (any_closes-deferred before) ∙ or_true (closes act)
  where
    or_true : (b : Bool) → (b || true) ≡ true
    or_true true = refl
    or_true false = refl

any_closes-returned : (whole : List Act) → EndsAs returned whole → any_closes whole ≡ true
any_closes-returned whole (before, e, q) = ap any_closes e ∙ any_closes-deferred before

module _ (line : Level → Text → Option Text) where
  EndsAs-of : {f : Finish} (g : Finish) (whole : List Act) → f ≡ g → EndsAs f whole → EndsAs g whole
  EndsAs-of g whole e h = rw (sym e) h

  module _ {A : Type 0} (o : Outside A) (getenv : Text → Text) where
    -- Where main returns, whatever the other goroutines wrote and whatever turns the worker had
    -- meanwhile, the worker has ended once it has had one turn more than there are lines queued, and
    -- the output then holds exactly the lines that the queue has accepted, in order.
    pub main_return_drains :
        (ops more : List Op)
        → (main o getenv).1 ≡ returned
        → Woven line (main o getenv).0 ops
        → All IsWorker more
        → length (run (new_async_writer log_queue) ops).buffer < receives more
        → let aw = run (new_async_writer log_queue) (ops ++ more) in
          HasEnded aw × (aw.inner.out ≡ accepted (new_async_writer log_queue) ops)
    main_return_drains ops more f w h n =
        run_to_close log_queue ops more
          (any_close-Woven line w
            ∙ any_closes-returned (main o getenv).0
                (EndsAs-of returned (main o getenv).0 f (main-EndsAs o getenv)))
          h n
