-- ===== src/Init/Program.antt =====
-- sentinel-init/cmd/main.go: the whole of main, with the lines that it logs; and the log package that it
-- uses, sentinel-init/internal/logger, which is a copy of the data plane's.
pub mod Logs
use sentinel_zero_trust.Common.{
  ℕ, true, false, Option, none, some, List, [], ◌∷◌, ◌++◌, Text, codes, text_eq, Result, ok, err,
  if◌then◌else◌,
}
use sentinel_zero_trust.Std.Strings.{fields}
use sentinel_zero_trust.Config.{LoggerConfig, or_default}
use sentinel_zero_trust.Logger.Context.{Level, debug, info, warn}
use sentinel_zero_trust.Logger.Async
use sentinel_zero_trust.Logger.Context
use sentinel_zero_trust.Init.Flags.{Flags, fmt_x}
use sentinel_zero_trust.Init.Setup.{Machine, find_iptables, command_line, rules_of_mode}

-- The copy of `AsyncWriter`: NewAsyncWriter, and what Write, the worker and Close do.
unfoldable pub new_async_writer : ℕ → Async.AsyncWriter
unfolding Async.new_async_writer
new_async_writer = Async.new_async_writer

unfoldable pub writer_step : Async.AsyncWriter → Async.Op → Async.AsyncWriter × Async.Reply
unfolding Async.step
writer_step = Async.step

-- Any order of the calls of Write, the turns of the worker and Close.
unfoldable pub writer_run : Async.AsyncWriter → List Async.Op → Async.AsyncWriter
unfolding writer_step
writer_run aw [] = aw
writer_run aw (op ∷ ops) = writer_run (writer_step aw op).0 ops

-- The copy of InitLogger, and of the `Handle` of its handlers.
unfoldable pub init_logger : (Text → Option Level) → LoggerConfig → ℕ → Context.Logger
unfolding Context.init_logger
init_logger = Context.init_logger

unfoldable pub handle_by : Context.Handler → Context.Context → List Context.Attr → List Context.Attr
unfolding Context.handle_by
handle_by = Context.handle_by

unfoldable pub logger_config : (Text → Text) → LoggerConfig
unfolding or_default
logger_config getenv = record {
  level = or_default (getenv (codes "LOG_LEVEL")) (codes "Debug");
  is_json = true;
  add_source = false;
  app_version = codes "0.0.1";
  service_name = or_default (getenv (codes "SERVICE_NAME")) (codes "sentinel-init-container");
  env = getenv (codes "ENV");
}

-- The lines, with what varies in their attributes.
pub data Entry : Type 0 where
  running_in_mode : Text → Entry
  using_iptables : Text → Entry
  dry_run_rules : List Text → Entry
  command_failed : List Text → Text → Entry
  rule_applied : Text → Entry
  routing_output : Text → Entry
  routing_applied : Entry
  rules_applied : Entry

unfoldable pub level_of_entry : Entry → Level
level_of_entry (command_failed argv e) = warn
level_of_entry (routing_output rule) = debug
level_of_entry _ = info

-- What the loop of `setupIPTables` logs.
unfoldable pub rule_entries : Machine → Text → List Text → List Entry
unfolding command_line fields
rule_entries m iptables_path [] = []
rule_entries m iptables_path (rule ∷ rules) =
    (elim (command_line iptables_path (fields rule)) [
      | none ↦ []
      | some argv ↦ elim (m.run argv) [
        | err e ↦ command_failed argv e ∷ []
        | ok _ ↦ rule_applied rule ∷ []
      ]
    ])
    ++ rule_entries m iptables_path rules

unfoldable pub iptables_entries : Machine → Flags → List Entry
unfolding find_iptables rule_entries rules_of_mode
iptables_entries m f =
    using_iptables (find_iptables m)
    ∷ (if f.dry_run
        then dry_run_rules (rules_of_mode f) ∷ []
        else rule_entries m (find_iptables m) (rules_of_mode f))

-- A routing command that fails is logged, at level debug.
unfoldable pub routing_entry : Machine → Text → List Text → List Entry
routing_entry m rule [] = []
routing_entry m rule (w ∷ []) = []
routing_entry m rule (w ∷ v ∷ ws) = elim (m.run (w ∷ v ∷ ws)) [
  | err e ↦ routing_output rule ∷ []
  | ok _ ↦ []
]

unfoldable pub mark_rule : Flags → Text
unfolding fmt_x
mark_rule f = codes "ip rule add fwmark 0x" ++ (fmt_x f.proxy_mark ++ codes " lookup 100")

abbrev pub route_rule : Text
route_rule = codes "ip route add local 0.0.0.0/0 dev lo table 100"

unfoldable pub routing_entries : Machine → Flags → List Entry
unfolding routing_entry fields mark_rule
routing_entries m f =
    routing_entry m (mark_rule f) (fields (mark_rule f))
    ++ (routing_entry m route_rule (fields route_rule) ++ (routing_applied ∷ []))

-- All that main logs before its deferred cleanup.
unfoldable pub main_entries : Machine → Flags → List Entry
unfolding iptables_entries routing_entries
main_entries m f =
    running_in_mode f.mode
    ∷ (iptables_entries m f
        ++ ((if text_eq f.mode (codes "TPROXY") then routing_entries m f else [])
            ++ (rules_applied ∷ [])))
