-- ===== src/Init/Setup/DryRun.antt =====
-- What `-dryRun` keeps from being run.
use sentinel_zero_trust.Common.{
  ◌≡◌, refl, ap, ◌∙◌, ◌≢◌, ◌⊎◌, inl, inr, Bool, true, false, Bool-cases, List, [], ◌∷◌, ◌++◌, Text,
  codes, text_eq, text_eq_iff, if◌then◌else◌, append-nil, arith,
}
use sentinel_zero_trust.Std.Strings.{fields}
use sentinel_zero_trust.Init.Flags.{Flags, fmt_x}
use sentinel_zero_trust.Init.Setup.{
  Machine, Event, printed_rules, ran, is_ok, rules_of_mode, setup_iptables, setup_routing,
  run_routing, main,
}

abbrev pub route_command : List Text
route_command =
    codes "ip"
    ∷ codes "route"
    ∷ codes "add"
    ∷ codes "local"
    ∷ codes "0.0.0.0/0"
    ∷ codes "dev"
    ∷ codes "lo"
    ∷ codes "table"
    ∷ codes "100"
    ∷ []

setup_iptables_dry :
    (m : Machine) (f : Flags)
    → f.dry_run ≡ true
    → (setup_iptables m f).0 ≡ printed_rules (rules_of_mode f) ∷ []
unfolding setup_iptables
setup_iptables_dry m f d = rw (d, setup_iptables) refl

run_routing-cons :
    (m : Machine) (rule : Text) (rules : List Text)
    → run_routing m (rule ∷ rules) ≡ run_routing m (rule ∷ []) ++ run_routing m rules
unfolding run_routing
run_routing-cons m rule rules =
    ap (λ (es : List Event). es ++ run_routing m rules) (rw append-nil refl)

run_routing_route :
    (m : Machine)
    → run_routing m (codes "ip route add local 0.0.0.0/0 dev lo table 100" ∷ [])
      ≡ ran route_command (is_ok (m.run route_command)) ∷ []
unfolding run_routing fields
run_routing_route m = refl

abbrev mark_rule : Flags → Text
mark_rule f = codes "ip rule add fwmark 0x" ++ (fmt_x f.proxy_mark ++ codes " lookup 100")

setup_routing_last :
    (m : Machine) (f : Flags)
    → (before : List Event) × ((setup_routing m f).0
        ≡ before ++ (ran route_command (is_ok (m.run route_command)) ∷ []))
unfolding setup_routing
setup_routing_last m f =
    let rule = mark_rule f in
    (
      run_routing m (rule ∷ []),
      run_routing-cons m rule (codes "ip route add local 0.0.0.0/0 dev lo table 100" ∷ [])
          ∙ ap (λ (es : List Event). run_routing m (rule ∷ []) ++ es) (run_routing_route m),
    )

if_true {ℓ} : {A : Type ℓ} {b : Bool} (x y : A) → b ≡ true → (if b then x else y) ≡ x
if_true x y e = rw e refl

if_false {ℓ} : {A : Type ℓ} {b : Bool} (x y : A) → b ≡ false → (if b then x else y) ≡ y
if_false x y e = rw e refl

main_of_mode :
    (m : Machine) (f : Flags)
    → ((f.mode ≢ codes "TPROXY") × (main m f ≡ (setup_iptables m f).0))
      ⊎ ((f.mode ≡ codes "TPROXY") × (main m f ≡ (setup_iptables m f).0 ++ (setup_routing m f).0))
unfolding main
main_of_mode m f = elim (Bool-cases (text_eq f.mode (codes "TPROXY"))) [
  | inl e ↦ inr (
    (text_eq_iff f.mode (codes "TPROXY")).0 e,
    ap (λ (es : List Event). (setup_iptables m f).0 ++ es) (if_true _ _ e),
  )
  | inr e ↦ inl (
    (λ q. ground (arith, (text_eq_iff f.mode (codes "TPROXY")).1 q)),
    ap (λ (es : List Event). (setup_iptables m f).0 ++ es) (if_false _ _ e) ∙ append-nil _,
  )
]

-- A dry run of a mode other than TPROXY only logs the rules. In the TPROXY mode it logs the rules and
-- then changes the routing: the last event is that `ip route add` was run.
pub main_dry_run :
    (m : Machine) (f : Flags)
    → f.dry_run ≡ true
    → ((f.mode ≢ codes "TPROXY") × (main m f ≡ printed_rules (rules_of_mode f) ∷ []))
      ⊎ ((f.mode ≡ codes "TPROXY")
          × (before : List Event) × (main m f
              ≡ printed_rules (rules_of_mode f)
                ∷ (before ++ (ran route_command (is_ok (m.run route_command)) ∷ []))))
main_dry_run m f d = elim (main_of_mode m f) [
  | inl (n, e) ↦ inl (n, e ∙ setup_iptables_dry m f d)
  | inr (t, e) ↦
      let (before, last) = setup_routing_last m f in
      inr (
        t,
        before,
        e
            ∙ ap (λ (es : List Event). es ++ (setup_routing m f).0) (setup_iptables_dry m f d)
            ∙ ap (λ (es : List Event). printed_rules (rules_of_mode f) ∷ es) last,
      )
]
