-- ===== src/Init/Traffic/Capture.antt =====
-- Which traffic the two rule sets take to the proxy, and which they let pass.
use sentinel_zero_trust.Common.{
  ◌≡◌, refl, ◌∙◌, ◌≢◌, true, false, Bool-cases, inl, inr, ◌⊎◌, Option, none, some, List, [], ◌∷◌,
  Text, codes, text_eq, text_eq_iff, map, All,
}
use sentinel_zero_trust.Std.Strings.{fields}
use sentinel_zero_trust.Init.Flags.{Flags, fmt_d}
use sentinel_zero_trust.Init.Rules.{build_tproxy_rules, build_redirect_rules}
use sentinel_zero_trust.Init.Table.{
  Rule, Table, nat, mangle, Chain, prerouting, output, excluded, tproxy_rules, redirect_rules,
  mark_of,
}
use sentinel_zero_trust.Init.Render.{print, build_tproxy_rules-print, build_redirect_rules-print}
use sentinel_zero_trust.Init.Traffic.{
  Packet, to_port, Verdict, redirected, tproxied, verdict, passes,
}
use sentinel_zero_trust.Init.Traffic.Skip.{is_among}
use sentinel_zero_trust.Init.Traffic.Tproxy.{
  IsNew, own_at_sentinel_output, new_at_sentinel_output, new_at_sentinel_inbound, tproxy_at_output,
  tproxy_at_prerouting,
}
use sentinel_zero_trust.Init.Traffic.Redirect.{
  redirect_own_at_output, redirect_new_at_output, redirect_at_output, redirect_at_prerouting,
  redirect_at_sentinel_inbound, redirect_at_in_redirect, redirect_at_redirect,
}

-- Texts that stand for rules which do `v` to the packet in a chain.
abbrev pub Do : List Text → Packet → Table → Chain → Option Verdict → Type 0
Do texts pk t c v = (rules : List Rule) × (texts ≡ map print rules) × (passes rules pk t c ≡ v)

text_eq_ne : (s t : Text) → s ≢ t → text_eq s t ≡ false
text_eq_ne s t h = elim (Bool-cases (text_eq s t)) [
  | inl e ↦ absurd (h ((text_eq_iff s t).0 e))
  | inr e ↦ e
]

-- The ports of the flags are one word each, as a port and a range of ports are, blanks around it aside.
abbrev IsOneWord : Text → Type 0
IsOneWord p = (w : Text) × (fields p ≡ w ∷ [])

pub record HasSinglePorts (f : Flags) : Type 0 where
  pub service : IsOneWord f.service_port
  pub left_out : All IsOneWord (excluded f)

-- Under the redirect rules alone.
pub redirect_outbound :
    (f : Flags) (pk : Packet)
    → IsNew pk
    → pk.owner ≢ fmt_d f.proxy_uid
    → to_port pk (codes "9090") ≡ false
    → is_among pk (excluded f) ≡ false
    → Do (build_redirect_rules f) pk nat output (some (redirected (fmt_d f.outbound_port)))
unfolding verdict
redirect_outbound f pk n o q x = (
  redirect_rules f,
  build_redirect_rules-print f,
  redirect_at_output f pk _ n.tcp
      ∙ redirect_new_at_output f pk _ n (text_eq_ne _ _ o) q x
      ∙ redirect_at_redirect f pk (λ d. none) n.tcp,
)

pub redirect_inbound :
    (f : Flags) (pk : Packet)
    → IsNew pk
    → Do (build_redirect_rules f) pk nat prerouting (some (redirected (fmt_d f.inbound_port)))
unfolding verdict
redirect_inbound f pk n = (
  redirect_rules f,
  build_redirect_rules-print f,
  redirect_at_prerouting f pk _ n.tcp
      ∙ redirect_at_sentinel_inbound f pk _ n.tcp
      ∙ redirect_at_in_redirect f pk (λ d. none) n.tcp,
)

-- What the TPROXY rules do at PREROUTING with a new connection, whoever opens it.
abbrev pub TproxyTakes : Flags → Packet → Type 0
TproxyTakes f pk =
    (to_port pk (codes "443") ≡ true)
    ⊎ (to_port pk (codes "9090") ≡ true)
    ⊎ (is_among pk (excluded f) ≡ true)
    ⊎ Do (build_tproxy_rules f) pk mangle prerouting
        (some (tproxied (fmt_d f.inbound_port) (mark_of f)))

tproxy_inbound : (f : Flags) (pk : Packet) → IsNew pk → TproxyTakes f pk
unfolding verdict
tproxy_inbound f pk n = elim (Bool-cases (to_port pk (codes "443"))) [
  | inl e ↦ inl e
  | inr p ↦ elim (Bool-cases (to_port pk (codes "9090"))) [
    | inl e ↦ inr (inl e)
    | inr q ↦ elim (Bool-cases (is_among pk (excluded f))) [
      | inl e ↦ inr (inr (inl e))
      | inr x ↦ inr (
          inr (
            inr (
              tproxy_rules f,
              build_tproxy_rules-print f,
              tproxy_at_prerouting f pk _ n.tcp ∙ new_at_sentinel_inbound f pk _ n p q x,
            )))
    ]
  ]
]

-- With ports of one word each in the flags, the nat OUTPUT hook of both modes leaves a new TCP
-- connection alone that the proxy's user opens. In the TPROXY mode it is taken to the proxy's inbound port all the same if it comes back over the
-- loopback interface: at the mangle PREROUTING hook the rules ask for no user, and let pass only the
-- ports 443 and 9090 and the excluded ones.
pub own_traffic_at_hooks :
    (f : Flags) (pk : Packet)
    → HasSinglePorts f
    → IsNew pk
    → pk.owner ≡ fmt_d f.proxy_uid
    → Do (build_tproxy_rules f) pk nat output none
      × Do (build_redirect_rules f) pk nat output none
      × TproxyTakes f pk
unfolding verdict
own_traffic_at_hooks f pk h n e = (
  (
    tproxy_rules f,
    build_tproxy_rules-print f,
    tproxy_at_output f pk _ n.tcp ∙ elim (Bool-cases (to_port pk (codes "443"))) [
      | inl q ↦ rw q refl
      | inr q ↦ rw (q, verdict) (own_at_sentinel_output f pk _ e)
    ],
  ),
  (
    redirect_rules f,
    build_redirect_rules-print f,
    redirect_at_output f pk _ n.tcp ∙ redirect_own_at_output f pk _ n.tcp e,
  ),
  tproxy_inbound f pk n,
)

-- With ports of one word each in the flags, a new TCP connection that another user opens, to a port
-- that is neither 9090 nor excluded, is redirected to the proxy's outbound port at the nat OUTPUT hook:
-- in the redirect mode whatever else its port is, and in the TPROXY mode unless it is 443 or the
-- service's own. A port is excluded where iptables matches it with one part of the flag.
pub outbound_traffic_is_redirected :
    (f : Flags) (pk : Packet)
    → HasSinglePorts f
    → IsNew pk
    → pk.owner ≢ fmt_d f.proxy_uid
    → to_port pk (codes "9090") ≡ false
    → is_among pk (excluded f) ≡ false
    → Do (build_redirect_rules f) pk nat output (some (redirected (fmt_d f.outbound_port)))
      × ((to_port pk (codes "443") ≡ true)
          ⊎ (to_port pk f.service_port ≡ true)
          ⊎ Do (build_tproxy_rules f) pk nat output (some (redirected (fmt_d f.outbound_port))))
unfolding verdict
outbound_traffic_is_redirected f pk h n o q x = (
  redirect_outbound f pk n o q x,
  elim (Bool-cases (to_port pk (codes "443"))) [
    | inl e ↦ inl e
    | inr p ↦ elim (Bool-cases (to_port pk f.service_port)) [
      | inl e ↦ inr (inl e)
      | inr s ↦ inr (
          inr (
            tproxy_rules f,
            build_tproxy_rules-print f,
            tproxy_at_output f pk _ n.tcp
                ∙ rw (p, verdict) (new_at_sentinel_output f pk _ n (text_eq_ne _ _ o) s p q x),
          ))
    ]
  ],
)

-- With ports of one word each in the flags, a new TCP connection to the pod is taken to the proxy's
-- inbound port: in the TPROXY mode unless iptables matches its port with 443, 9090 or one part of the
-- excluded ports, and in the redirect mode whatever its port, these ports too.
pub inbound_traffic_is_captured :
    (f : Flags) (pk : Packet)
    → HasSinglePorts f
    → IsNew pk
    → Do (build_redirect_rules f) pk nat prerouting (some (redirected (fmt_d f.inbound_port)))
      × TproxyTakes f pk
inbound_traffic_is_captured f pk h n = (redirect_inbound f pk n, tproxy_inbound f pk n)
