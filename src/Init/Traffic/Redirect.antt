-- ===== src/Init/Traffic/Redirect.antt =====
-- The walk through the redirect rules, part by part.
use sentinel_zero_trust.Common.{
  ◌≡◌, refl, ◌∙◌, true, false, Bool-cases, inl, inr, Option, none, some, List, ◌++◌, codes, text_eq,
  text_eq_refl,
}
use sentinel_zero_trust.Init.Flags.{Flags, fmt_d}
use sentinel_zero_trust.Init.Table.{
  Rule, nat, Chain, prerouting, output, sentinel_inbound, sentinel_output, sentinel_redirect,
  sentinel_in_redirect, excluded, output_only, redirect_head, redirect_tail, redirect_rules,
}
use sentinel_zero_trust.Init.Traffic.{Packet, to_port, Verdict, redirected, walk}
use sentinel_zero_trust.Init.Traffic.Skip.{
  is_among, walk-flat_rules, walk-flat_rules_other, output_only_at_output,
}
use sentinel_zero_trust.Init.Traffic.Tproxy.{IsNew, last_jump}

module _ (f : Flags) (pk : Packet) (sub : Chain → Option Verdict) where
  redirect_head_output :
      (rest : List Rule)
      → to_port pk (codes "9090") ≡ false
      → pk.is_tcp ≡ true
      → walk sub pk nat sentinel_output (redirect_head ++ rest)
        ≡ walk sub pk nat sentinel_output rest
  unfolding redirect_head walk
  redirect_head_output rest q t = rw (t, q, walk) refl

  redirect_head_9090 :
      (rest : List Rule)
      → to_port pk (codes "9090") ≡ true
      → pk.is_tcp ≡ true
      → walk sub pk nat sentinel_output (redirect_head ++ rest) ≡ none
  unfolding redirect_head walk
  redirect_head_9090 rest q t = rw (t, q, walk) refl

  redirect_tail_new :
      IsNew pk
      → text_eq pk.owner (fmt_d f.proxy_uid) ≡ false
      → walk sub pk nat sentinel_output (redirect_tail f) ≡ sub sentinel_redirect
  unfolding redirect_tail walk
  redirect_tail_new n o = rw (o, n.fresh, walk) (last_jump (sub sentinel_redirect))

  redirect_tail_own :
      pk.owner ≡ fmt_d f.proxy_uid → walk sub pk nat sentinel_output (redirect_tail f) ≡ none
  unfolding redirect_tail walk
  redirect_tail_own e = rw (e, text_eq_refl (fmt_d f.proxy_uid), walk) refl

  pub redirect_own_at_output :
      pk.is_tcp ≡ true
      → pk.owner ≡ fmt_d f.proxy_uid
      → walk sub pk nat sentinel_output (redirect_rules f) ≡ none
  unfolding redirect_rules
  redirect_own_at_output t e = elim (Bool-cases (to_port pk (codes "9090"))) [
    | inl q ↦ redirect_head_9090 _ q t
    | inr q ↦
        redirect_head_output _ q t
        ∙ walk-flat_rules sub pk nat sentinel_output output_only (excluded f) _
            (output_only_at_output sub pk t)
        ∙ elim (Bool-cases (is_among pk (excluded f))) [
          | inl x ↦ rw x refl
          | inr x ↦ rw x (redirect_tail_own e)
        ]
  ]

  pub redirect_new_at_output :
      IsNew pk
      → text_eq pk.owner (fmt_d f.proxy_uid) ≡ false
      → to_port pk (codes "9090") ≡ false
      → is_among pk (excluded f) ≡ false
      → walk sub pk nat sentinel_output (redirect_rules f) ≡ sub sentinel_redirect
  unfolding redirect_rules
  redirect_new_at_output n o q x =
      redirect_head_output _ q n.tcp
      ∙ walk-flat_rules sub pk nat sentinel_output output_only (excluded f) _
          (output_only_at_output sub pk n.tcp)
      ∙ rw x (redirect_tail_new n o)

  -- The chains whose rules the ports leave alone.
  pub redirect_at_output :
      pk.is_tcp ≡ true → walk sub pk nat output (redirect_rules f) ≡ sub sentinel_output
  unfolding redirect_rules redirect_head redirect_tail walk
  redirect_at_output t =
      walk-flat_rules_other sub pk nat output output_only (excluded f) _ (λ p rest. refl)
      ∙ rw (t, walk) (last_jump (sub sentinel_output))

  pub redirect_at_prerouting :
      pk.is_tcp ≡ true → walk sub pk nat prerouting (redirect_rules f) ≡ sub sentinel_inbound
  unfolding redirect_rules redirect_head redirect_tail walk
  redirect_at_prerouting t =
      walk-flat_rules_other sub pk nat prerouting output_only (excluded f) _ (λ p rest. refl)
      ∙ rw (t, walk) (last_jump (sub sentinel_inbound))

  pub redirect_at_sentinel_inbound :
      pk.is_tcp ≡ true
      → walk sub pk nat sentinel_inbound (redirect_rules f) ≡ sub sentinel_in_redirect
  unfolding redirect_rules redirect_head redirect_tail walk
  redirect_at_sentinel_inbound t =
      walk-flat_rules_other sub pk nat sentinel_inbound output_only (excluded f) _ (λ p rest. refl)
      ∙ rw (t, walk) (last_jump (sub sentinel_in_redirect))

  pub redirect_at_in_redirect :
      pk.is_tcp ≡ true
      → walk sub pk nat sentinel_in_redirect (redirect_rules f)
        ≡ some (redirected (fmt_d f.inbound_port))
  unfolding redirect_rules redirect_head redirect_tail walk
  redirect_at_in_redirect t =
      walk-flat_rules_other sub pk nat sentinel_in_redirect output_only (excluded f) _
        (λ p rest. refl)
      ∙ rw (t, walk) refl

  pub redirect_at_redirect :
      pk.is_tcp ≡ true
      → walk sub pk nat sentinel_redirect (redirect_rules f)
        ≡ some (redirected (fmt_d f.outbound_port))
  unfolding redirect_rules redirect_head redirect_tail walk
  redirect_at_redirect t =
      walk-flat_rules_other sub pk nat sentinel_redirect output_only (excluded f) _ (λ p rest. refl)
      ∙ rw (t, walk) refl
