-- ===== src/Init/Setup/Apply.antt =====
-- The commands that the init container runs.
use sentinel_zero_trust.Common.{
  ◌≡◌, refl, ap, ◌∙◌, inl, inr, Bool, false, Bool-cases, none, List, [], ◌∷◌, ◌++◌, Text, codes,
  text_eq, if◌then◌else◌, map, All,
}
use sentinel_zero_trust.Std.Strings.{fields-join, IsWord}
use sentinel_zero_trust.Init.Flags.{Flags}
use sentinel_zero_trust.Init.Table.{
  Rule, table_name, command_words, words, excluded, tproxy_rules, redirect_rules,
}
use sentinel_zero_trust.Init.Table.Words.{Fits, words-IsWord}
use sentinel_zero_trust.Init.Table.Fits.{tproxy_rules-Fits, redirect_rules-Fits}
use sentinel_zero_trust.Init.Render.{print, build_tproxy_rules-print, build_redirect_rules-print}
use sentinel_zero_trust.Init.Setup.{
  Machine, Event, ran, is_ok, find_iptables, run_command, run_rules, rules_of_mode, setup_iptables,
}

-- The command line of a rule, and its run.
abbrev pub argv : Text → Rule → List Text
argv path r = path ∷ codes "-t" ∷ table_name r.table ∷ command_words r.command

abbrev pub executed : Machine → Text → Rule → Event
executed m path r = ran (argv path r) (is_ok (m.run (argv path r)))

run_command-words :
    (m : Machine) (path : Text) (r : Rule) → run_command m path (words r) ≡ executed m path r ∷ []
unfolding run_command
run_command-words m path r = refl

run_rules-print :
    (m : Machine) (path : Text) (rules : List Rule)
    → All Fits rules
    → run_rules m path (map print rules) ≡ map (executed m path) rules
unfolding run_rules
run_rules-print m path [] h = refl
run_rules-print m path (r ∷ rs) (hr, h) =
    ap (λ (ws : List Text). run_command m path ws ++ run_rules m path (map print rs))
      (fields-join (words r) (words-IsWord r hr))
    ∙ ap (λ (es : List Event). es ++ run_rules m path (map print rs)) (run_command-words m path r)
    ∙ ap (λ (es : List Event). executed m path r ∷ es) (run_rules-print m path rs h)

-- The rules that a mode describes.
abbrev pub described : Flags → List Rule
described f = if text_eq f.mode (codes "TPROXY") then tproxy_rules f else redirect_rules f

rules_of_mode-described : (f : Flags) → rules_of_mode f ≡ map print (described f)
unfolding rules_of_mode
rules_of_mode-described f = elim (Bool-cases (text_eq f.mode (codes "TPROXY"))) [
  | inl e ↦ rw e (build_tproxy_rules-print f)
  | inr e ↦ rw e (build_redirect_rules-print f)
]

described-Fits :
    (f : Flags) → IsWord f.service_port → All IsWord (excluded f) → All Fits (described f)
described-Fits f s x = elim (Bool-cases (text_eq f.mode (codes "TPROXY"))) [
  | inl e ↦ rw e (tproxy_rules-Fits f s x)
  | inr e ↦ rw e (redirect_rules-Fits f x)
]

if_no {ℓ} : {A : Type ℓ} {b : Bool} (x y : A) → b ≡ false → (if b then x else y) ≡ y
if_no x y e = rw e refl

setup_applies :
    (m : Machine) (f : Flags)
    → f.dry_run ≡ false
    → setup_iptables m f ≡ (run_rules m (find_iptables m) (rules_of_mode f), none)
unfolding setup_iptables
setup_applies m f d = if_no _ _ d

-- Without `-dryRun`, where the service port and the excluded ports are words, setupIPTables runs
-- iptables once for every rule of the mode, in order and whatever fails, with the arguments that the
-- rule stands for, and returns no error.
pub setup_iptables-executed :
    (m : Machine) (f : Flags)
    → f.dry_run ≡ false
    → IsWord f.service_port
    → All IsWord (excluded f)
    → setup_iptables m f ≡ (map (executed m (find_iptables m)) (described f), none)
setup_iptables-executed m f d s x =
    setup_applies m f d
    ∙ ap (λ (es : List Event). (es, none))
        (ap (run_rules m (find_iptables m)) (rules_of_mode-described f)
          ∙ run_rules-print m (find_iptables m) (described f) (described-Fits f s x))
