-- ===== src/Init/Table/Fits.antt =====
-- The rules of both modes have the words that they are meant to have.
use sentinel_zero_trust.Common.{ℕ, ◌≡◌, refl, true, List, [], ◌∷◌, Text, All, All-append}
use sentinel_zero_trust.Std.Strings.{IsWord}
use sentinel_zero_trust.Init.Flags.{Flags}
use sentinel_zero_trust.Init.Flags.Words.{fmt_d-IsWord, mark-IsWord}
use sentinel_zero_trust.Init.Table.{
  Table, nat, mangle, Chain, output, sentinel_inbound, sentinel_output, Rule, return_port, excluded,
  flat_rules, both, output_only, tproxy_head, tproxy_tail, redirect_head, redirect_tail,
  tproxy_rules, redirect_rules,
}
use sentinel_zero_trust.Init.Table.Words.{no_space, literal, Fits}

flat_rules-Fits :
    (g : Text → List Rule) (ps : List Text)
    → ((p : Text) → IsWord p → All Fits (g p))
    → All IsWord ps
    → All Fits (flat_rules g ps)
flat_rules-Fits g [] h w = tt
flat_rules-Fits g (p ∷ ps) h (wp, w) =
    All-append Fits (g p) (flat_rules g ps) (h p wp) (flat_rules-Fits g ps h w)

return_port-Fits : (t : Table) (c : Chain) (p : Text) → IsWord p → Fits (return_port t c p)
return_port-Fits t c p w = ((tt, (w, tt)), tt)

return_fixed_port-Fits :
    (t : Table) (c : Chain) (x : ℕ) (s : Text)
    → no_space (x ∷ s) ≡ true
    → Fits (return_port t c (x ∷ s))
return_fixed_port-Fits t c x s h = return_port-Fits t c (x ∷ s) (literal x s h)

tproxy_head-Fits : (f : Flags) → IsWord f.service_port → All Fits (tproxy_head f)
unfolding tproxy_head no_space
tproxy_head-Fits f s = (
  tt,
  (
    tt,
    (
      tt,
      (
        ((fmt_d-IsWord f.proxy_uid, tt), tt),
        (
          return_fixed_port-Fits mangle sentinel_inbound _ _ refl,
          (
            return_fixed_port-Fits mangle sentinel_inbound _ _ refl,
            (
              return_port-Fits nat sentinel_output f.service_port s,
              (
                return_fixed_port-Fits nat sentinel_output _ _ refl,
                (return_fixed_port-Fits nat sentinel_output _ _ refl, tt),
              ),
            ),
          ),
        ),
      ),
    ),
  ),
)

tproxy_tail-Fits : (f : Flags) → All Fits (tproxy_tail f)
unfolding tproxy_tail no_space
tproxy_tail-Fits f = (
  ((tt, tt), tt),
  (
    ((tt, tt), tt),
    (
      ((tt, tt), (fmt_d-IsWord f.inbound_port, mark-IsWord f.proxy_mark)),
      (
        ((tt, tt), tt),
        (
          return_fixed_port-Fits nat output _ _ refl,
          (((tt, tt), tt), (((tt, tt), fmt_d-IsWord f.outbound_port), tt)),
        ),
      ),
    ),
  ),
)

pub tproxy_rules-Fits :
    (f : Flags) → IsWord f.service_port → All IsWord (excluded f) → All Fits (tproxy_rules f)
unfolding tproxy_rules
tproxy_rules-Fits f s x = All-append Fits (tproxy_head f) _ (tproxy_head-Fits f s) (
    All-append Fits (flat_rules both (excluded f)) (tproxy_tail f)
      (flat_rules-Fits both (excluded f)
        (λ p w. (
          return_port-Fits mangle sentinel_inbound p w,
          (return_port-Fits nat sentinel_output p w, tt),
        ))
        x)
      (tproxy_tail-Fits f))

redirect_tail-Fits : (f : Flags) → All Fits (redirect_tail f)
unfolding redirect_tail
redirect_tail-Fits f = (
  ((tt, tt), tt),
  (
    ((tt, tt), tt),
    (
      ((tt, tt), tt),
      (
        ((tt, tt), fmt_d-IsWord f.inbound_port),
        (
          ((fmt_d-IsWord f.proxy_uid, tt), tt),
          (((tt, tt), tt), ((tt, tt), (((tt, tt), fmt_d-IsWord f.outbound_port), tt))),
        ),
      ),
    ),
  ),
)

redirect_head-Fits : All Fits redirect_head
unfolding redirect_head no_space
redirect_head-Fits =
    (tt, (tt, (tt, (tt, (tt, (return_fixed_port-Fits nat sentinel_output _ _ refl, tt))))))

pub redirect_rules-Fits : (f : Flags) → All IsWord (excluded f) → All Fits (redirect_rules f)
unfolding redirect_rules
redirect_rules-Fits f x = All-append Fits redirect_head _ redirect_head-Fits (
    All-append Fits (flat_rules output_only (excluded f)) (redirect_tail f)
      (flat_rules-Fits output_only (excluded f)
        (λ p w. (return_port-Fits nat sentinel_output p w, tt)) x)
      (redirect_tail-Fits f))
