-- ===== src/Init/Table.antt =====
-- The rules as data: an independent description of what the texts of Init.Rules stand for.
pub mod Words
pub mod Fits
use sentinel_zero_trust.Common.{List, [], ◌∷◌, ◌++◌, Text, codes, text_eq, if◌then◌else◌}
use sentinel_zero_trust.Std.Strings.{split}
use sentinel_zero_trust.Init.Flags.{Flags, fmt_d, fmt_x}

pub data Table : Type 0 where
  nat mangle : Table

pub data Chain : Type 0 where
  prerouting output sentinel_inbound sentinel_output sentinel_redirect sentinel_in_redirect : Chain

pub data Match : Type 0 where
  tcp established : Match
  dport uid_owner : Text → Match

pub data Target : Type 0 where
  return : Target
  jump : Chain → Target
  redirect : Text → Target
  tproxy : Text → Text → Target  -- the port, and the mark

pub data Command : Type 0 where
  flush : Command
  new_chain : Chain → Command
  append : Chain → List Match → Target → Command

pub record Rule : Type 0 where
  pub table : Table
  pub command : Command

abbrev pub table_name : Table → Text
table_name nat = codes "nat"
table_name mangle = codes "mangle"

abbrev pub chain_name : Chain → Text
chain_name prerouting = codes "PREROUTING"
chain_name output = codes "OUTPUT"
chain_name sentinel_inbound = codes "SENTINEL_INBOUND"
chain_name sentinel_output = codes "SENTINEL_OUTPUT"
chain_name sentinel_redirect = codes "SENTINEL_REDIRECT"
chain_name sentinel_in_redirect = codes "SENTINEL_IN_REDIRECT"

abbrev pub match_words : List Match → List Text → List Text
match_words [] rest = rest
match_words (tcp ∷ ms) rest = codes "-p" ∷ codes "tcp" ∷ match_words ms rest
match_words (established ∷ ms) rest =
    codes "-m"
    ∷ codes "conntrack"
    ∷ codes "--ctstate"
    ∷ codes "ESTABLISHED,RELATED"
    ∷ match_words ms rest
match_words (dport p ∷ ms) rest = codes "--dport" ∷ p ∷ match_words ms rest
match_words (uid_owner u ∷ ms) rest =
    codes "-m" ∷ codes "owner" ∷ codes "--uid-owner" ∷ u ∷ match_words ms rest

abbrev pub target_words : Target → List Text
target_words return = codes "RETURN" ∷ []
target_words (jump c) = chain_name c ∷ []
target_words (redirect p) = codes "REDIRECT" ∷ codes "--to-ports" ∷ p ∷ []
target_words (tproxy p m) =
    codes "TPROXY"
    ∷ codes "--on-port"
    ∷ p
    ∷ codes "--on-ip"
    ∷ codes "0.0.0.0"
    ∷ codes "--tproxy-mark"
    ∷ m
    ∷ []

abbrev pub command_words : Command → List Text
command_words flush = codes "-F" ∷ []
command_words (new_chain c) = codes "-N" ∷ chain_name c ∷ []
command_words (append c ms t) =
    codes "-A" ∷ chain_name c ∷ match_words ms (codes "-j" ∷ target_words t)

abbrev pub words : Rule → List Text
words r = codes "iptables" ∷ codes "-t" ∷ table_name r.table ∷ command_words r.command

abbrev pub in_table : Table → Command → Rule
in_table t c = record { table = t; command = c }

abbrev pub return_port : Table → Chain → Text → Rule
return_port t c p = in_table t (append c (tcp ∷ dport p ∷ []) return)

-- The ports that `-excludePorts` names.
unfoldable pub not_empty : List Text → List Text
not_empty [] = []
not_empty (p ∷ ps) = if text_eq p (codes "") then not_empty ps else p ∷ not_empty ps

abbrev pub excluded : Flags → List Text
excluded f = not_empty (split b',' f.exclude_ports)

abbrev pub flat_rules : (Text → List Rule) → List Text → List Rule
flat_rules g [] = []
flat_rules g (p ∷ ps) = g p ++ flat_rules g ps

abbrev pub mark_of : Flags → Text
mark_of f = codes "0x" ++ (fmt_x f.proxy_mark ++ codes "/0xfff")

-- The rules before and after those of the excluded ports.
unfoldable pub tproxy_head : Flags → List Rule
tproxy_head f =
    in_table mangle (new_chain sentinel_inbound)
    ∷ in_table nat flush
    ∷ in_table nat (new_chain sentinel_output)
    ∷ in_table nat (append sentinel_output (uid_owner (fmt_d f.proxy_uid) ∷ []) return)
    ∷ return_port mangle sentinel_inbound (codes "443")
    ∷ return_port mangle sentinel_inbound (codes "9090")
    ∷ return_port nat sentinel_output f.service_port
    ∷ return_port nat sentinel_output (codes "443")
    ∷ return_port nat sentinel_output (codes "9090")
    ∷ []

unfoldable pub tproxy_tail : Flags → List Rule
tproxy_tail f =
    in_table mangle (append prerouting (tcp ∷ []) (jump sentinel_inbound))
    ∷ in_table mangle (append sentinel_inbound (established ∷ []) return)
    ∷ in_table mangle
        (append sentinel_inbound (tcp ∷ []) (tproxy (fmt_d f.inbound_port) (mark_of f)))
    ∷ in_table nat (append sentinel_output (established ∷ []) return)
    ∷ return_port nat output (codes "443")
    ∷ in_table nat (append output (tcp ∷ []) (jump sentinel_output))
    ∷ in_table nat (append sentinel_output (tcp ∷ []) (redirect (fmt_d f.outbound_port)))
    ∷ []

-- The rules of one excluded port.
abbrev pub both : Text → List Rule
both p = return_port mangle sentinel_inbound p ∷ return_port nat sentinel_output p ∷ []

abbrev pub output_only : Text → List Rule
output_only p = return_port nat sentinel_output p ∷ []

unfoldable pub tproxy_rules : Flags → List Rule
tproxy_rules f = tproxy_head f ++ (flat_rules both (excluded f) ++ tproxy_tail f)

unfoldable pub redirect_head : List Rule
redirect_head =
    in_table nat flush
    ∷ in_table nat (new_chain sentinel_inbound)
    ∷ in_table nat (new_chain sentinel_redirect)
    ∷ in_table nat (new_chain sentinel_output)
    ∷ in_table nat (new_chain sentinel_in_redirect)
    ∷ return_port nat sentinel_output (codes "9090")
    ∷ []

unfoldable pub redirect_tail : Flags → List Rule
redirect_tail f =
    in_table nat (append prerouting (tcp ∷ []) (jump sentinel_inbound))
    ∷ in_table nat (append output (tcp ∷ []) (jump sentinel_output))
    ∷ in_table nat (append sentinel_inbound (tcp ∷ []) (jump sentinel_in_redirect))
    ∷ in_table nat (append sentinel_in_redirect (tcp ∷ []) (redirect (fmt_d f.inbound_port)))
    ∷ in_table nat (append sentinel_output (uid_owner (fmt_d f.proxy_uid) ∷ []) return)
    ∷ in_table nat (append sentinel_output (established ∷ []) return)
    ∷ in_table nat (append sentinel_output [] (jump sentinel_redirect))
    ∷ in_table nat (append sentinel_redirect (tcp ∷ []) (redirect (fmt_d f.outbound_port)))
    ∷ []

unfoldable pub redirect_rules : Flags → List Rule
redirect_rules f = redirect_head ++ (flat_rules output_only (excluded f) ++ redirect_tail f)
