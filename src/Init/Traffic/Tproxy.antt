-- ===== src/Init/Traffic/Tproxy.antt =====
-- The walk through the TPROXY rules, part by part.
use sentinel_zero_trust.Common.{
  ◌≡◌, refl, ◌∙◌, true, false, Bool-cases, inl, inr, Option, none, some, List, ◌++◌, codes, text_eq,
  text_eq_refl, if◌then◌else◌,
}
use sentinel_zero_trust.Init.Flags.{Flags, fmt_d}
use sentinel_zero_trust.Init.Table.{
  Rule, nat, mangle, Chain, prerouting, output, sentinel_inbound, sentinel_output, excluded, both,
  tproxy_head, tproxy_tail, tproxy_rules, mark_of,
}
use sentinel_zero_trust.Init.Traffic.{Packet, to_port, Verdict, redirected, tproxied, walk}
use sentinel_zero_trust.Init.Traffic.Skip.{
  is_among, walk-flat_rules, walk-flat_rules_other, both_at_inbound, both_at_output,
}

-- A new TCP connection.
pub record IsNew (pk : Packet) : Type 0 where
  pub tcp : pk.is_tcp ≡ true
  pub fresh : pk.is_established ≡ false

pub last_jump :
    (v : Option Verdict) → elim v as (λ x. Option Verdict) [ none ↦ none | some w ↦ some w ] ≡ v
last_jump none = refl
last_jump (some w) = refl

module _ (f : Flags) (pk : Packet) (sub : Chain → Option Verdict) where
  tproxy_head_own :
      (rest : List Rule)
      → pk.owner ≡ fmt_d f.proxy_uid
      → walk sub pk nat sentinel_output (tproxy_head f ++ rest) ≡ none
  unfolding tproxy_head walk
  tproxy_head_own rest e = rw (e, text_eq_refl (fmt_d f.proxy_uid)) refl

  tproxy_head_new :
      (rest : List Rule)
      → text_eq pk.owner (fmt_d f.proxy_uid) ≡ false
      → to_port pk f.service_port ≡ false
      → to_port pk (codes "443") ≡ false
      → to_port pk (codes "9090") ≡ false
      → pk.is_tcp ≡ true
      → walk sub pk nat sentinel_output (tproxy_head f ++ rest)
        ≡ walk sub pk nat sentinel_output rest
  unfolding tproxy_head walk
  tproxy_head_new rest o s p q t = rw (o, t, s, t, p, t, q, walk) refl

  tproxy_tail_new :
      IsNew pk
      → walk sub pk nat sentinel_output (tproxy_tail f) ≡ some (redirected (fmt_d f.outbound_port))
  unfolding tproxy_tail walk
  tproxy_tail_new n = rw (n.fresh, n.tcp, walk) refl

  tproxy_head_inbound :
      (rest : List Rule)
      → to_port pk (codes "443") ≡ false
      → to_port pk (codes "9090") ≡ false
      → pk.is_tcp ≡ true
      → walk sub pk mangle sentinel_inbound (tproxy_head f ++ rest)
        ≡ walk sub pk mangle sentinel_inbound rest
  unfolding tproxy_head walk
  tproxy_head_inbound rest p q t = rw (t, p, t, q, walk) refl

  tproxy_tail_inbound :
      IsNew pk
      → walk sub pk mangle sentinel_inbound (tproxy_tail f)
        ≡ some (tproxied (fmt_d f.inbound_port) (mark_of f))
  unfolding tproxy_tail walk
  tproxy_tail_inbound n = rw (n.fresh, n.tcp, walk) refl

  pub own_at_sentinel_output :
      pk.owner ≡ fmt_d f.proxy_uid → walk sub pk nat sentinel_output (tproxy_rules f) ≡ none
  unfolding tproxy_rules
  own_at_sentinel_output e = tproxy_head_own _ e

  pub new_at_sentinel_output :
      IsNew pk
      → text_eq pk.owner (fmt_d f.proxy_uid) ≡ false
      → to_port pk f.service_port ≡ false
      → to_port pk (codes "443") ≡ false
      → to_port pk (codes "9090") ≡ false
      → is_among pk (excluded f) ≡ false
      → walk sub pk nat sentinel_output (tproxy_rules f) ≡ some (redirected (fmt_d f.outbound_port))
  unfolding tproxy_rules
  new_at_sentinel_output n o s p q x =
      tproxy_head_new _ o s p q n.tcp
      ∙ walk-flat_rules sub pk nat sentinel_output both (excluded f) _ (both_at_output sub pk n.tcp)
      ∙ rw x (tproxy_tail_new n)

  pub new_at_sentinel_inbound :
      IsNew pk
      → to_port pk (codes "443") ≡ false
      → to_port pk (codes "9090") ≡ false
      → is_among pk (excluded f) ≡ false
      → walk sub pk mangle sentinel_inbound (tproxy_rules f)
        ≡ some (tproxied (fmt_d f.inbound_port) (mark_of f))
  unfolding tproxy_rules
  new_at_sentinel_inbound n p q x =
      tproxy_head_inbound _ p q n.tcp
      ∙ walk-flat_rules sub pk mangle sentinel_inbound both (excluded f) _
          (both_at_inbound sub pk n.tcp)
      ∙ rw x (tproxy_tail_inbound n)

  -- The built-in chains hand a packet over to the chains above.
  pub tproxy_at_output :
      pk.is_tcp ≡ true
      → walk sub pk nat output (tproxy_rules f)
        ≡ (if to_port pk (codes "443") then none else sub sentinel_output)
  unfolding tproxy_rules tproxy_head tproxy_tail walk
  tproxy_at_output t =
      walk-flat_rules_other sub pk nat output both (excluded f) _ (λ p rest. refl)
      ∙ elim (Bool-cases (to_port pk (codes "443"))) [
        | inl e ↦ rw (t, e, walk) refl
        | inr e ↦ rw (t, e, t, walk) (last_jump (sub sentinel_output))
      ]

  pub tproxy_at_prerouting :
      pk.is_tcp ≡ true → walk sub pk mangle prerouting (tproxy_rules f) ≡ sub sentinel_inbound
  unfolding tproxy_rules tproxy_head tproxy_tail walk
  tproxy_at_prerouting t =
      walk-flat_rules_other sub pk mangle prerouting both (excluded f) _ (λ p rest. refl)
      ∙ rw (t, walk) (last_jump (sub sentinel_inbound))
