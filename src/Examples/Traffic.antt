-- ===== src/Examples/Traffic.antt =====
-- The rules of the init container.
use sentinel_zero_trust.Common.{
  All, map, false, ◌≡◌, refl, ◌≢◌, ◌⊎◌, true, none, some, List, [], ◌∷◌, ◌++◌, codes, ok, text_eq,
}
use sentinel_zero_trust.Common.Int.{pos}
use sentinel_zero_trust.Std.Strings.{split, fields}
use sentinel_zero_trust.Init.Flags.{fmt_d, fmt_x}
use sentinel_zero_trust.Init.Rules.{build_tproxy_rules, build_redirect_rules}
use sentinel_zero_trust.Init.Table.{nat, output, prerouting, excluded, not_empty}
use sentinel_zero_trust.Init.Setup.{Machine, Event, printed_rules, ran, is_ok, rules_of_mode, main}
use sentinel_zero_trust.Std.Strings.{IsWord}
use sentinel_zero_trust.Init.Flags.{Flags}
use sentinel_zero_trust.Init.Setup.{setup_iptables, find_iptables}
use sentinel_zero_trust.Init.Setup.Apply.{executed, described, setup_iptables-executed}
use sentinel_zero_trust.Init.Setup.DryRun.{route_command, main_dry_run}
use sentinel_zero_trust.Init.Traffic.{to_port, redirected}
use sentinel_zero_trust.Init.Traffic.Capture.{
  Do, HasSinglePorts, TproxyTakes, own_traffic_at_hooks, outbound_traffic_is_redirected,
  inbound_traffic_is_captured,
}
use sentinel_zero_trust.Examples.Data.{init_flags, packet}

single_ports : HasSinglePorts init_flags
unfolding split not_empty text_eq fields
single_ports = record {
  service = (codes "3005", refl);
  left_out = ((codes "22", refl), ((codes "6379", refl), tt));
}

own_traffic_at_hooks_example :
    Do (build_tproxy_rules init_flags) (packet (codes "3005") (fmt_d (pos 1337))) nat output none
    × Do
        (build_redirect_rules init_flags)
        (packet (codes "3005") (fmt_d (pos 1337)))
        nat
        output
        none
    × TproxyTakes init_flags (packet (codes "3005") (fmt_d (pos 1337)))
own_traffic_at_hooks_example =
    own_traffic_at_hooks init_flags (packet (codes "3005") (fmt_d (pos 1337))) single_ports
      (record { tcp = refl; fresh = refl }) refl

outbound_traffic_is_redirected_example :
    Do
      (build_redirect_rules init_flags)
      (packet (codes "8080") (codes "0"))
      nat
      output
      (some (redirected (fmt_d (pos 15001))))
    × ((to_port (packet (codes "8080") (codes "0")) (codes "443") ≡ true)
        ⊎ (to_port (packet (codes "8080") (codes "0")) (codes "3005") ≡ true)
        ⊎ Do
            (build_tproxy_rules init_flags)
            (packet (codes "8080") (codes "0"))
            nat
            output
            (some (redirected (fmt_d (pos 15001)))))
unfolding split not_empty text_eq fmt_d fields
outbound_traffic_is_redirected_example =
    outbound_traffic_is_redirected init_flags (packet (codes "8080") (codes "0")) single_ports
      (record { tcp = refl; fresh = refl }) (cc) refl refl

inbound_traffic_is_captured_example :
    Do
      (build_redirect_rules init_flags)
      (packet (codes "3005") (codes "0"))
      nat
      prerouting
      (some (redirected (fmt_d (pos 15006))))
    × TproxyTakes init_flags (packet (codes "3005") (codes "0"))
inbound_traffic_is_captured_example =
    inbound_traffic_is_captured init_flags (packet (codes "3005") (codes "0")) single_ports
      (record { tcp = refl; fresh = refl })

abbrev machine : Machine
machine = record { look_path = λ p. true; run = λ argv. ok tt }

main_dry_run_example :
    ((init_flags.mode ≢ codes "TPROXY")
      × (main machine init_flags ≡ printed_rules (rules_of_mode init_flags) ∷ []))
    ⊎ ((init_flags.mode ≡ codes "TPROXY")
        × (before : List Event) × (main machine init_flags
            ≡ printed_rules (rules_of_mode init_flags)
              ∷ (before ++ (ran route_command (is_ok (machine.run route_command)) ∷ []))))
main_dry_run_example = main_dry_run machine init_flags refl

abbrev applied_flags : Flags
applied_flags = record init_flags { dry_run = false }

port-IsWord : IsWord (codes "3005")
port-IsWord = (λ e. cc, (refl, (refl, (refl, (refl, tt)))))

excluded-IsWord : All IsWord (excluded applied_flags)
unfolding split not_empty text_eq
excluded-IsWord =
    ((λ e. cc, (refl, (refl, tt))), ((λ e. cc, (refl, (refl, (refl, (refl, tt))))), tt))

setup_iptables-executed_example :
    setup_iptables machine applied_flags
    ≡ (map (executed machine (find_iptables machine)) (described applied_flags), none)
setup_iptables-executed_example =
    setup_iptables-executed machine applied_flags refl port-IsWord excluded-IsWord

-- The default mark, as it is printed.
default_mark : fmt_x (pos 0x111) ≡ codes "111"
unfolding fmt_x
default_mark = refl
