-- ===== src/Init/Table/Words.antt =====
-- The words of a rule are words of a command line, if its ports, users and marks are.
use sentinel_zero_trust.Common.{
  ℕ, ◌≡◌, refl, inl, inr, Bool, true, ◌&&◌, not, Bool-cases, List, [], ◌∷◌, Text, All, arith,
}
use sentinel_zero_trust.Std.Strings.{is_space, NoSpace, IsWord}
use sentinel_zero_trust.Init.Table.{
  Table, nat, mangle, Chain, prerouting, output, sentinel_inbound, sentinel_output,
  sentinel_redirect, sentinel_in_redirect, Match, tcp, established, dport, uid_owner, Target,
  return, jump, redirect, tproxy, Command, flush, new_chain, append, Rule, table_name, chain_name,
  match_words, target_words, command_words, words,
}

unfoldable pub no_space : Text → Bool
no_space [] = true
no_space (c ∷ s) = not (is_space c) && no_space s

no_space-NoSpace : (s : Text) → no_space s ≡ true → NoSpace s
unfolding no_space
no_space-NoSpace [] h = tt
no_space-NoSpace (c ∷ s) h = elim (Bool-cases (is_space c)) [
  | inl e ↦ ground arith
  | inr e ↦ (e, no_space-NoSpace s (ground arith))
]

pub literal : (c : ℕ) (s : Text) → no_space (c ∷ s) ≡ true → IsWord (c ∷ s)
literal c s h = (λ e. cc, no_space-NoSpace (c ∷ s) h)

table_name-IsWord : (t : Table) → IsWord (table_name t)
unfolding no_space
table_name-IsWord nat = literal _ _ refl
table_name-IsWord mangle = literal _ _ refl

chain_name-IsWord : (c : Chain) → IsWord (chain_name c)
unfolding no_space
chain_name-IsWord prerouting = literal _ _ refl
chain_name-IsWord output = literal _ _ refl
chain_name-IsWord sentinel_inbound = literal _ _ refl
chain_name-IsWord sentinel_output = literal _ _ refl
chain_name-IsWord sentinel_redirect = literal _ _ refl
chain_name-IsWord sentinel_in_redirect = literal _ _ refl

abbrev pub MatchFits : Match → Type 0
MatchFits tcp = Unit
MatchFits established = Unit
MatchFits (dport p) = IsWord p
MatchFits (uid_owner u) = IsWord u

abbrev pub TargetFits : Target → Type 0
TargetFits return = Unit
TargetFits (jump c) = Unit
TargetFits (redirect p) = IsWord p
TargetFits (tproxy p m) = IsWord p × IsWord m

abbrev pub CommandFits : Command → Type 0
CommandFits flush = Unit
CommandFits (new_chain c) = Unit
CommandFits (append c ms t) = All MatchFits ms × TargetFits t

abbrev pub Fits : Rule → Type 0
Fits r = CommandFits r.command

match_words-IsWord :
    (ms : List Match) (rest : List Text)
    → All MatchFits ms
    → All IsWord rest
    → All IsWord (match_words ms rest)
unfolding no_space
match_words-IsWord [] rest h r = r
match_words-IsWord (tcp ∷ ms) rest (_, h) r =
    (literal _ _ refl, (literal _ _ refl, match_words-IsWord ms rest h r))
match_words-IsWord (established ∷ ms) rest (_, h) r = (
  literal _ _ refl,
  (literal _ _ refl, (literal _ _ refl, (literal _ _ refl, match_words-IsWord ms rest h r))),
)
match_words-IsWord (dport p ∷ ms) rest (hp, h) r =
    (literal _ _ refl, (hp, match_words-IsWord ms rest h r))
match_words-IsWord (uid_owner u ∷ ms) rest (hu, h) r =
    (literal _ _ refl, (literal _ _ refl, (literal _ _ refl, (hu, match_words-IsWord ms rest h r))))

target_words-IsWord : (t : Target) → TargetFits t → All IsWord (target_words t)
unfolding no_space
target_words-IsWord return h = (literal _ _ refl, tt)
target_words-IsWord (jump c) h = (chain_name-IsWord c, tt)
target_words-IsWord (redirect p) h = (literal _ _ refl, (literal _ _ refl, (h, tt)))
target_words-IsWord (tproxy p m) (hp, hm) = (
  literal _ _ refl,
  (literal _ _ refl, (hp, (literal _ _ refl, (literal _ _ refl, (literal _ _ refl, (hm, tt)))))),
)

command_words-IsWord : (c : Command) → CommandFits c → All IsWord (command_words c)
unfolding no_space
command_words-IsWord flush h = (literal _ _ refl, tt)
command_words-IsWord (new_chain c) h = (literal _ _ refl, (chain_name-IsWord c, tt))
command_words-IsWord (append c ms t) (hms, ht) = (
  literal _ _ refl,
  (chain_name-IsWord c, match_words-IsWord ms _ hms (literal _ _ refl, target_words-IsWord t ht)),
)

pub words-IsWord : (r : Rule) → Fits r → All IsWord (words r)
unfolding no_space
words-IsWord r h = (
  literal _ _ refl,
  (literal _ _ refl, (table_name-IsWord r.table, command_words-IsWord r.command h)),
)
