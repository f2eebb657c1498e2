-- ===== src/Init/Setup.antt =====
-- sentinel-init/cmd/main.go: setupIPTables, setupRouting, findIptables and main. A command that is run
-- answers an error text or nothing.
pub mod DryRun
pub mod Apply
use sentinel_zero_trust.Common.{
  ◌≡◌, refl, Bool, true, false, Option, none, some, List, [], ◌∷◌, ◌++◌, Text, codes, text_eq,
  Result, ok, err, if◌then◌else◌,
}
use sentinel_zero_trust.Std.Strings.{fields}
use sentinel_zero_trust.Init.Flags.{Flags, fmt_x}
use sentinel_zero_trust.Init.Rules.{build_tproxy_rules, build_redirect_rules}

-- What the machine answers: `exec.LookPath`, and running a command line.
pub record Machine : Type 0 where
  pub look_path : Text → Bool
  pub run : List Text → Result (Unit {0})

pub data Event : Type 0 where
  printed_rules : List Text → Event  -- the dry run's log line
  ran : List Text → Bool → Event  -- a command line, and whether it succeeded

abbrev pub is_ok : Result (Unit {0}) → Bool
is_ok (ok _) = true
is_ok (err e) = false

abbrev pub iptables_paths : List Text
iptables_paths =
    codes "/usr/sbin/iptables"
    ∷ codes "/usr/bin/iptables"
    ∷ codes "/sbin/iptables"
    ∷ codes "/bin/iptables"
    ∷ codes "iptables"
    ∷ []

unfoldable pub first_path : (Text → Bool) → List Text → Text
first_path look_path [] = codes "iptables"
first_path look_path (p ∷ ps) = if look_path p then p else first_path look_path ps

unfoldable pub find_iptables : Machine → Text
unfolding first_path
find_iptables m = first_path m.look_path iptables_paths

-- The command line of a rule: nothing for less than two words, and `iptables_path` for the first.
unfoldable pub command_line : Text → List Text → Option (List Text)
command_line iptables_path [] = none
command_line iptables_path (w ∷ []) = none
command_line iptables_path (w ∷ v ∷ ws) = some (iptables_path ∷ v ∷ ws)

-- One pass of the loop, from the words of a rule on. A command that fails is logged.
unfoldable pub run_command : Machine → Text → List Text → List Event
unfolding command_line
run_command m iptables_path parts = elim (command_line iptables_path parts) [
  | none ↦ []
  | some argv ↦ ran argv (is_ok (m.run argv)) ∷ []
]

-- The loop goes on whatever fails.
unfoldable pub run_rules : Machine → Text → List Text → List Event
unfolding run_command fields
run_rules m iptables_path [] = []
run_rules m iptables_path (rule ∷ rules) =
    run_command m iptables_path (fields rule) ++ run_rules m iptables_path rules

unfoldable pub rules_of_mode : Flags → List Text
unfolding build_tproxy_rules build_redirect_rules
rules_of_mode f =
    if text_eq f.mode (codes "TPROXY") then build_tproxy_rules f else build_redirect_rules f

-- The second part is the error that is returned: never one.
unfoldable pub setup_iptables : Machine → Flags → List Event × Option Text
unfolding rules_of_mode find_iptables run_rules
setup_iptables m f =
    if f.dry_run
    then (printed_rules (rules_of_mode f) ∷ [], none)
    else (run_rules m (find_iptables m) (rules_of_mode f), none)

-- Here the first word is the program itself.
unfoldable pub run_routing : Machine → List Text → List Event
unfolding fields
run_routing m [] = []
run_routing m (rule ∷ rules) =
    (elim (fields rule) [
      | [] ↦ []
      | w ∷ ws ↦ elim ws [ [] ↦ [] | v ∷ vs ↦ ran (w ∷ v ∷ vs) (is_ok (m.run (w ∷ v ∷ vs))) ∷ [] ]
    ])
    ++ run_routing m rules

unfoldable pub setup_routing : Machine → Flags → List Event × Option Text
unfolding run_routing fmt_x
setup_routing m f = (
  run_routing m (
      (codes "ip rule add fwmark 0x" ++ (fmt_x f.proxy_mark ++ codes " lookup 100"))
      ∷ codes "ip route add local 0.0.0.0/0 dev lo table 100"
      ∷ []),
  none,
)

-- `main` after the flags are parsed; the errors are only logged.
unfoldable pub main : Machine → Flags → List Event
unfolding setup_iptables setup_routing
main m f =
    (setup_iptables m f).0
    ++ (if text_eq f.mode (codes "TPROXY") then (setup_routing m f).0 else [])
