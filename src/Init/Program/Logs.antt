-- ===== src/Init/Program/Logs.antt =====
-- The log of the init container is complete.
use sentinel_zero_trust.Common.{
  ℕ, suc, ◌+◌, ◌≤◌, ◌<◌, ◌≡◌, refl, ap, inl, inr, Bool-cases, Option, none, some, List, [], ◌∷◌,
  ◌++◌, Text, codes, text_eq, length, length-append, concat, arith, All, if◌then◌else◌,
  Option-cases, Result-cases,
}
use sentinel_zero_trust.Std.Strings.{fields}
use sentinel_zero_trust.Logger.Async.{AsyncWriter, Op, run}
use sentinel_zero_trust.Logger.Async
use sentinel_zero_trust.Logger.Async.Shutdown.{IsWorker, receives, HasEnded}
use sentinel_zero_trust.Logger.Async.Lossless.{Weaves, run-Weaves}
use sentinel_zero_trust.Init.Flags.{Flags}
use sentinel_zero_trust.Init.Setup.{Machine, find_iptables, command_line, rules_of_mode}
use sentinel_zero_trust.Init.Program.{
  Entry, mark_rule, route_rule, routing_applied, rules_applied, new_async_writer, writer_step,
  writer_run, rule_entries, iptables_entries, routing_entry, routing_entries, main_entries,
}

writer_run-run : (ops : List Op) (aw : AsyncWriter) → writer_run aw ops ≡ run aw ops
unfolding writer_run writer_step Async.run
writer_run-run [] aw = refl
writer_run-run (op ∷ ops) aw = writer_run-run ops (Async.step aw op).0

-- The text of a line: none where its level is off.
abbrev pub texts : (Entry → Option Text) → List Entry → List Text
texts line [] = []
texts line (e ∷ es) = elim (line e) [ none ↦ texts line es | some t ↦ t ∷ texts line es ]

length-texts : (line : Entry → Option Text) (es : List Entry) → length (texts line es) ≤ length es
length-texts line [] = omega arith
length-texts line (e ∷ es) = ground (arith, length-texts line es)

length-rule_entries :
    (m : Machine) (path : Text) (rules : List Text)
    → length (rule_entries m path rules) ≤ length rules
unfolding rule_entries
length-rule_entries m path [] = omega arith
length-rule_entries m path (rule ∷ rules) = elim (Option-cases (command_line path (fields rule))) [
  | inl n ↦ rw (n, rule_entries) (omega (arith, length-rule_entries m path rules))
  | inr (argv, s) ↦ elim (Result-cases (m.run argv)) [
    | inl (e, q) ↦ rw (s, rule_entries, q) (omega (arith, length-rule_entries m path rules))
    | inr (u, q) ↦ rw (s, rule_entries, q) (omega (arith, length-rule_entries m path rules))
  ]
]

length-routing_entry :
    (m : Machine) (rule : Text) (ws : List Text) → length (routing_entry m rule ws) ≤ 1
unfolding routing_entry
length-routing_entry m rule [] = omega arith
length-routing_entry m rule (w ∷ []) = omega arith
length-routing_entry m rule (w ∷ v ∷ ws) = elim (Result-cases (m.run (w ∷ v ∷ ws))) [
  | inl (e, q) ↦ rw (q, routing_entry) (omega arith)
  | inr (u, q) ↦ rw (q, routing_entry) (omega arith)
]

length_parts :
    (a b : List Entry) (e : Entry) (k n : ℕ)
    → length a ≤ k
    → length b ≤ n
    → length (a ++ (b ++ (e ∷ []))) ≤ suc (k + n)
length_parts a b e k n ha hb =
    omega (arith, ha, hb, length-append a (b ++ (e ∷ [])), length-append b (e ∷ []))

length-routing_entries : (m : Machine) (f : Flags) → length (routing_entries m f) ≤ 3
unfolding routing_entries
length-routing_entries m f =
    length_parts (routing_entry m (mark_rule f) (fields (mark_rule f)))
      (routing_entry m route_rule (fields route_rule)) routing_applied 1 1
      (length-routing_entry m (mark_rule f) (fields (mark_rule f)))
      (length-routing_entry m route_rule (fields route_rule))

length-iptables_entries :
    (m : Machine) (f : Flags) → length (iptables_entries m f) ≤ length (rules_of_mode f) + 2
unfolding iptables_entries
length-iptables_entries m f = elim (Bool-cases f.dry_run) [
  | inl d ↦ rw (d, iptables_entries) (omega arith)
  | inr d ↦
      rw (d, iptables_entries)
        (omega (arith, length-rule_entries m (find_iptables m) (rules_of_mode f)))
]

abbrev routing_part : Machine → Flags → List Entry
routing_part m f = if text_eq f.mode (codes "TPROXY") then routing_entries m f else []

length-routing_part : (m : Machine) (f : Flags) → length (routing_part m f) ≤ 3
length-routing_part m f = elim (Bool-cases (text_eq f.mode (codes "TPROXY"))) [
  | inl t ↦ rw t (length-routing_entries m f)
  | inr n ↦ rw n (omega arith)
]

length-main_entries :
    (m : Machine) (f : Flags) → length (main_entries m f) ≤ length (rules_of_mode f) + 7
unfolding main_entries
length-main_entries m f = omega (
  arith,
  length_parts (iptables_entries m f) (routing_part m f) rules_applied
      (length (rules_of_mode f) + 2) 3 (length-iptables_entries m f) (length-routing_part m f),
)

-- Every line that the init container logs, from the mode to the last one, reaches the output whole and
-- in its order by the time that its deferred cleanup returns, whatever turns the worker had: none
-- is dropped as long as the mode has at most 4993 rules.
pub main_entries_reach_output :
    (line : Entry → Option Text) (m : Machine) (f : Flags) (ops more : List Op)
    → length (rules_of_mode f) ≤ 4993
    → Weaves (texts line (main_entries m f)) ops
    → All IsWorker more
    → length (writer_run (new_async_writer 5000) ops).buffer < receives more
    → let aw = writer_run (new_async_writer 5000) (ops ++ more) in
      HasEnded aw × (aw.inner.out ≡ concat (texts line (main_entries m f)))
unfolding new_async_writer
main_entries_reach_output line m f ops more few w h n =
    let new = Async.new_async_writer 5000 in
    rw (writer_run-run (ops ++ more) new) (
      run-Weaves 5000 more w
        (omega (arith, few, length-texts line (main_entries m f), length-main_entries m f)) h
        (omega (arith, n, ap (λ (aw : AsyncWriter). length aw.buffer) (writer_run-run ops new))))
