-- ===== src/Examples/Programs.antt =====
-- The two mains, and their logs.
use sentinel_zero_trust.Common.{
  All, ℕ, refl, ◌≡◌, ◌++◌, Option, some, none, true, List, [], ◌∷◌, Text, codes, ok, err, arith,
  concat, text_eq,
}
use sentinel_zero_trust.Proxy.Defs.{Level}
use sentinel_zero_trust.Logger.Async.{
  Op, step, write, worker_receive, worker_tick, close, new_async_writer, run, receive, enqueue,
  worker_by, close_channel,
}
use sentinel_zero_trust.Logger.Async.Fifo.{accepted}
use sentinel_zero_trust.Logger.Async.Shutdown.{HasEnded}
use sentinel_zero_trust.Logger.Async.Lossless.{closing, turn, writing}
use sentinel_zero_trust.Cmd.Program
use sentinel_zero_trust.Cmd.Program.{gone, returned}
use sentinel_zero_trust.Cmd.Program.Ends.{EndsAs, main-EndsAs}
use sentinel_zero_trust.Cmd.Program.Logs.{log_queue, all_ops, Woven-all_ops, main_return_drains}
use sentinel_zero_trust.Cmd.{port_of, main_config}
use sentinel_zero_trust.Config.{load, create_proxy_config}
use sentinel_zero_trust.Cmd.Mode.{Selects}
use sentinel_zero_trust.Cmd.Program.Run.{Play, run_proxy, main_returned}
use sentinel_zero_trust.Proxy.Modes.{direct_mode, mode_of}
use sentinel_zero_trust.Proxy.Modes.Direct
use sentinel_zero_trust.Proxy.Modes.Direct.{IsQuiet, run_direct_mode}
use sentinel_zero_trust.Init.Program as InitProgram
use sentinel_zero_trust.Std.Strings.{split, fields}
use sentinel_zero_trust.Init.Table.{not_empty}
use sentinel_zero_trust.Init.Setup.{Machine, rules_of_mode}
use sentinel_zero_trust.Init.Program.{Entry, main_entries, writer_run}
use sentinel_zero_trust.Init.Program.Logs.{texts, main_entries_reach_output}
use sentinel_zero_trust.Examples.Data.{environment, init_flags}

-- A world in which the proxy is made at the first try, and Run returns nil.
abbrev stopping : Program.Outside ℕ
stopping = record {
  new_client = λ target. ok tt;
  create_clientset = ok tt;
  new_proxy = λ cfg n. ok 1;
  run = λ p. some (ok tt);
}

-- One in which it is never made.
abbrev tokenless : Program.Outside ℕ
tokenless = record stopping { new_proxy = λ cfg n. err (codes "no token") }

main-EndsAs_example :
    EndsAs (Program.main tokenless environment).1 (Program.main tokenless environment).0
main-EndsAs_example = main-EndsAs tokenless environment

abbrev plain : Level → Text → Option Text
plain level message = some message

-- What main asks of the log writer where it returns, with no call of another goroutine between.
abbrev stopping_log : List Op
stopping_log = all_ops plain (Program.main stopping environment).0

abbrev worker_turns : List Op
worker_turns =
    worker_receive ∷ worker_receive ∷ worker_receive ∷ worker_receive ∷ worker_receive
    ∷ worker_receive ∷ []

main_return_drains_example :
    let aw = run (new_async_writer log_queue) (stopping_log ++ worker_turns) in
    HasEnded aw × (aw.inner.out ≡ accepted (new_async_writer log_queue) stopping_log)
unfolding Program.main run new_async_writer enqueue main_config Program.start_proxy step
    close_channel
main_return_drains_example =
    main_return_drains plain stopping environment stopping_log worker_turns refl
      (Woven-all_ops plain (Program.main stopping environment).0)
      (tt, (tt, (tt, (tt, (tt, (tt, tt)))))) (omega arith)

-- A logger that has the lines of its first and its last call.
abbrev ends_only : Entry → Option Text
ends_only (InitProgram.running_in_mode mode) = some mode
ends_only InitProgram.rules_applied = some (codes "iptables rules applied successfully")
ends_only _ = none

abbrev machine : Machine
machine = record { look_path = λ p. true; run = λ argv. ok tt }

abbrev init_log : List Op
init_log =
    write (codes "TPROXY")
    ∷ worker_receive
    ∷ write (codes "iptables rules applied successfully")
    ∷ worker_tick
    ∷ close
    ∷ []

main_entries_reach_output_example :
    let aw =
      writer_run
        (InitProgram.new_async_writer 5000)
        (init_log ++ (worker_receive ∷ worker_receive ∷ [])) in
    HasEnded aw × (aw.inner.out ≡ concat (texts ends_only (main_entries machine init_flags)))
unfolding main_entries writer_run rules_of_mode split not_empty text_eq fields close_channel
    worker_by enqueue InitProgram.new_async_writer receive
main_entries_reach_output_example =
    main_entries_reach_output ends_only machine init_flags init_log
      (worker_receive ∷ worker_receive ∷ []) (omega arith)
      (writing (codes "TPROXY")
        (turn worker_receive tt (writing _ (turn worker_tick tt (closing tt)))))
      (tt, (tt, tt)) (omega arith)

abbrev no_variables : Text → Text
no_variables name = codes ""

-- A run of the direct mode that a signal ends.
abbrev signalled : Play
signalled = record {
  sockets = record { listen_inbound = ok tt; listen_outbound = ok tt };
  calls = record { control = ok tt; setsockopt = ok tt; bind = ok tt };
  turns = [];
  direct_turns = Direct.signal ∷ Direct.shutdown_ends (ok tt) ∷ [];
}

main_returned_example :
    Selects (no_variables (codes "PROXY_MODE")) direct_mode
    × ((run_direct_mode Direct.serving (Direct.signal ∷ Direct.shutdown_ends (ok tt) ∷ [])).phase
        ≡ Direct.Phase.returned (ok tt))
    × (¬ All IsQuiet (Direct.signal ∷ Direct.shutdown_ends (ok tt) ∷ []))
unfolding Program.main run_proxy run_direct_mode mode_of main_config port_of load
    create_proxy_config text_eq
main_returned_example = main_returned stopping no_variables signalled refl
