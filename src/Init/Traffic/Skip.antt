-- ===== src/Init/Traffic/Skip.antt =====
-- How a packet goes by the rules of the ports that are left out.
use sentinel_zero_trust.Common.{
  ◌≡◌, refl, Bool, true, false, ◌||◌, Bool-cases, inl, inr, Option, none, List, [], ◌∷◌, ◌++◌, Text,
  if◌then◌else◌, append_assoc,
}
use sentinel_zero_trust.Init.Table.{
  Rule, Table, nat, mangle, Chain, sentinel_inbound, sentinel_output, flat_rules, both, output_only,
}
use sentinel_zero_trust.Init.Traffic.{Packet, to_port, Verdict, walk}

-- Whether the packet goes to one of the ports.
abbrev pub is_among : Packet → List Text → Bool
is_among pk [] = false
is_among pk (p ∷ ps) = to_port pk p || is_among pk ps

-- The rules of one port, `g p`, make a packet of that port return, and let any other go by.
abbrev pub Returns : (Chain → Option Verdict) → Packet → Table → Chain → (Text → List Rule) → Type 0
Returns sub pk t c g =
    (p : Text) (rest : List Rule)
    → walk sub pk t c (g p ++ rest) ≡ (if to_port pk p then none else walk sub pk t c rest)

pub walk-flat_rules :
    (sub : Chain → Option Verdict) (pk : Packet) (t : Table) (c : Chain) (g : Text → List Rule)
    (ps : List Text) (rest : List Rule)
    → Returns sub pk t c g
    → walk sub pk t c (flat_rules g ps ++ rest)
      ≡ (if is_among pk ps then none else walk sub pk t c rest)
walk-flat_rules sub pk t c g [] rest h = refl
walk-flat_rules sub pk t c g (p ∷ ps) rest h = elim (Bool-cases (to_port pk p)) [
  | inl e ↦ rw (append_assoc, h p (flat_rules g ps ++ rest), e) refl
  | inr e ↦
      rw (append_assoc, h p (flat_rules g ps ++ rest), e) (walk-flat_rules sub pk t c g ps rest h)
]

-- The rules of the ports are of other chains.
pub walk-flat_rules_other :
    (sub : Chain → Option Verdict) (pk : Packet) (t : Table) (c : Chain) (g : Text → List Rule)
    (ps : List Text) (rest : List Rule)
    → ((p : Text) (rest' : List Rule) → walk sub pk t c (g p ++ rest') ≡ walk sub pk t c rest')
    → walk sub pk t c (flat_rules g ps ++ rest) ≡ walk sub pk t c rest
walk-flat_rules_other sub pk t c g [] rest h = refl
walk-flat_rules_other sub pk t c g (p ∷ ps) rest h =
    rw (append_assoc, h p (flat_rules g ps ++ rest)) (walk-flat_rules_other sub pk t c g ps rest h)

pub both_at_inbound :
    (sub : Chain → Option Verdict) (pk : Packet)
    → pk.is_tcp ≡ true
    → Returns sub pk mangle sentinel_inbound both
unfolding walk
both_at_inbound sub pk h p rest = elim (Bool-cases (to_port pk p)) [
  | inl e ↦ rw (h, e, walk) refl
  | inr e ↦ rw (h, e, walk) refl
]

pub both_at_output :
    (sub : Chain → Option Verdict) (pk : Packet)
    → pk.is_tcp ≡ true
    → Returns sub pk nat sentinel_output both
unfolding walk
both_at_output sub pk h p rest = elim (Bool-cases (to_port pk p)) [
  | inl e ↦ rw (h, e, walk) refl
  | inr e ↦ rw (h, e, walk) refl
]

pub output_only_at_output :
    (sub : Chain → Option Verdict) (pk : Packet)
    → pk.is_tcp ≡ true
    → Returns sub pk nat sentinel_output output_only
unfolding walk
output_only_at_output sub pk h p rest = elim (Bool-cases (to_port pk p)) [
  | inl e ↦ rw (h, e, walk) refl
  | inr e ↦ rw (h, e, walk) refl
]
