-- ===== src/Init/Traffic.antt =====
-- What the kernel does with a packet under a list of rules: an independent reading of Init.Table, for
-- tables that are empty at first and commands that iptables has taken. `none` is the policy of the
-- built-in chains, which lets pass. The meaning of a port is the one that iptables gives it.
pub mod Capture
pub mod Skip
pub mod Tproxy
pub mod Redirect
use sentinel_zero_trust.Common.{
  ℕ, zero, suc, Bool, true, false, ◌&&◌, ◌==◌, Option, none, some, List, [], ◌∷◌, Text, text_eq,
  if◌then◌else◌,
}
use sentinel_zero_trust.Std.Strings.{fields}
use sentinel_zero_trust.Init.Table.{
  Table, nat, mangle, Chain, prerouting, output, sentinel_inbound, sentinel_output,
  sentinel_redirect, sentinel_in_redirect, Match, tcp, established, dport, uid_owner, Target,
  return, jump, redirect, tproxy, Command, flush, new_chain, append, Rule,
}

-- `matches_dport`: whether the words that follow `--dport` in a command, such as a port or a range of
-- ports, match the packet.
pub record Packet : Type 0 where
  pub is_tcp : Bool
  pub is_established : Bool
  pub matches_dport : List Text → Bool
  pub owner : Text

pub data Verdict : Type 0 where
  redirected : Text → Verdict
  tproxied : Text → Text → Verdict

abbrev table_index : Table → ℕ
table_index nat = 0
table_index mangle = 1

abbrev chain_index : Chain → ℕ
chain_index prerouting = 0
chain_index output = 1
chain_index sentinel_inbound = 2
chain_index sentinel_output = 3
chain_index sentinel_redirect = 4
chain_index sentinel_in_redirect = 5

-- The text of a port stands in a command that is split at its blanks.
abbrev pub to_port : Packet → Text → Bool
to_port pk p = pk.matches_dport (fields p)

abbrev pub match_holds : Packet → Match → Bool
match_holds pk tcp = pk.is_tcp
match_holds pk established = pk.is_established
match_holds pk (dport p) = to_port pk p
match_holds pk (uid_owner u) = text_eq pk.owner u

abbrev pub all_hold : Packet → List Match → Bool
all_hold pk [] = true
all_hold pk (m ∷ ms) = match_holds pk m && all_hold pk ms

-- Whether a command is a rule of the chain `c` that a packet meets, and its target.
abbrev pub met : Packet → Chain → Command → Option Target
met pk c flush = none
met pk c (new_chain d) = none
met pk c (append d ms t) =
    if (chain_index d == chain_index c) && all_hold pk ms then some t else none

-- The rules of a chain in order; `sub` is the verdict of a chain that is jumped to.
unfoldable pub walk : (Chain → Option Verdict) → Packet → Table → Chain → List Rule → Option Verdict
walk sub pk t c [] = none
walk sub pk t c (r ∷ rs) =
    let rest = walk sub pk t c rs in
    if table_index r.table == table_index t
    then elim (met pk c r.command) [
      | none ↦ rest
      | some return ↦ none
      | some (jump d) ↦ elim (sub d) [ none ↦ rest | some v ↦ some v ]
      | some (redirect p) ↦ some (redirected p)
      | some (tproxy p m) ↦ some (tproxied p m)
    ]
    else rest

-- The verdict of a chain from which jumps nest at most `depth` deep.
unfoldable pub verdict : ℕ → List Rule → Packet → Table → Chain → Option Verdict
unfolding walk
verdict zero rules pk t c = none
verdict (suc depth) rules pk t c = walk (verdict depth rules pk t) pk t c rules

-- The rule lists jump at most twice.
abbrev pub passes : List Rule → Packet → Table → Chain → Option Verdict
passes = verdict 3
