-- ===== src/Init/Render.antt =====
-- The texts of the rules are the printed descriptions, and are read back as they were meant.
use sentinel_zero_trust.Common.{
  ◌≡◌, refl, ap, ◌∙◌, Bool-cases, inl, inr, List, [], ◌∷◌, ◌++◌, Text, codes, text_eq, map,
}
use mathlib.Core.List.{map-append}
use sentinel_zero_trust.Std.Strings.{split, join}
use sentinel_zero_trust.Init.Flags.{Flags}
use sentinel_zero_trust.Init.Rules.{
  inbound_return, output_return, for_ports, build_tproxy_rules, build_redirect_rules,
}
use sentinel_zero_trust.Init.Table.{
  Rule, words, nat, mangle, sentinel_inbound, sentinel_output, return_port, not_empty, flat_rules,
  tproxy_rules, redirect_rules, tproxy_head, tproxy_tail, redirect_head, redirect_tail, excluded,
  both, output_only,
}

abbrev pub print : Rule → Text
print r = join (codes " ") (words r)

for_ports-flat_rules :
    (g : Text → List Text) (h : Text → List Rule) (ports : List Text)
    → ((p : Text) → g p ≡ map print (h p))
    → for_ports g ports ≡ map print (flat_rules h (not_empty ports))
unfolding for_ports not_empty
for_ports-flat_rules g h [] e = refl
for_ports-flat_rules g h (p ∷ ps) e = elim (Bool-cases (text_eq p [])) [
  | inl q ↦ rw (q, for_ports, not_empty) (for_ports-flat_rules g h ps e)
  | inr q ↦
      rw (q, for_ports, not_empty)
        (ap (λ (r : List Text). g p ++ r) (for_ports-flat_rules g h ps e)
          ∙ ap (λ (r : List Text). r ++ map print (flat_rules h (not_empty ps))) (e p)
          ∙ rw map-append refl)
]

return_both :
    (p : Text)
    → inbound_return p ∷ output_return p ∷ []
      ≡ map print (return_port mangle sentinel_inbound p ∷ return_port nat sentinel_output p ∷ [])
unfolding inbound_return output_return
return_both p = refl

return_output :
    (p : Text) → output_return p ∷ [] ≡ map print (return_port nat sentinel_output p ∷ [])
unfolding output_return
return_output p = refl

pub build_tproxy_rules-print : (f : Flags) → build_tproxy_rules f ≡ map print (tproxy_rules f)
unfolding build_tproxy_rules tproxy_rules tproxy_head tproxy_tail
build_tproxy_rules-print f = rw (
  map-append print (flat_rules both (excluded f)),
  ← for_ports-flat_rules _ both (split b',' f.exclude_ports) return_both,
)

pub build_redirect_rules-print : (f : Flags) → build_redirect_rules f ≡ map print (redirect_rules f)
unfolding build_redirect_rules redirect_rules redirect_head redirect_tail
build_redirect_rules-print f = rw (
  map-append print (flat_rules output_only (excluded f)),
  ← for_ports-flat_rules _ output_only (split b',' f.exclude_ports) return_output,
)
