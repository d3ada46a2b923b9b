-- ===== src/Formatter/Laws.antt =====
-- formatter.mjs: the figures of the report are right.
use Prim.Native.Nat.{min}
use ores_lib_core.Base.{
  ℕ, suc, ◌+◌, ◌≡◌, refl, inl, inr, Option, none, some, List, [], ◌∷◌, Text, length, length-append,
  All, nat_eq, list_eq, ◌==◌, ltb, arith, Bool-cases,
}
use ores_lib_core.Formatter.{
  Message, Result, Entry, Report, start, bump, new_entry, add_entry, count_severity, file_message,
  add_message, add_messages, count_file, add_result, collect_from, collect,
}

-- The findings of the rules, all together.
abbrev pub counted : List (Text × Entry) → ℕ
counted [] = 0
counted ((r, entry) ∷ rest) = entry.count + counted rest

abbrev pub message_count : List Result → ℕ
message_count [] = 0
message_count (r ∷ rs) = length r.messages + message_count rs

-- An entry shows as many examples as it has findings, up to the limit.
abbrev pub IsCapped : ℕ → Text × Entry → Type 0
IsCapped limit (r, entry) = length entry.examples ≡ min entry.count limit

counted-add_entry :
    (limit : ℕ) (rule : Text) (m : Message) (example : Text) (es : List (Text × Entry))
    → counted (add_entry limit rule m example es) ≡ suc (counted es)
unfolding add_entry
counted-add_entry limit rule m example [] = omega arith
counted-add_entry limit rule m example ((r, entry) ∷ rest) = elim (Bool-cases (r == rule)) [
  | inl t ↦ rw t (omega arith)
  | inr f ↦ rw f (omega (arith, counted-add_entry limit rule m example rest))
]

bump-IsCapped :
    (limit : ℕ) (example : Text) (entry : Entry)
    → length entry.examples ≡ min entry.count limit
    → length (bump limit example entry).examples ≡ min (suc entry.count) limit
bump-IsCapped limit example entry h = elim (Bool-cases (ltb (length entry.examples) limit)) [
  | inl t ↦ rw t (ground (arith, length-append entry.examples (example ∷ [])))
  | inr f ↦ rw f (ground arith)
]

add_entry-IsCapped :
    (limit : ℕ) (rule : Text) (m : Message) (example : Text) (es : List (Text × Entry))
    → All (IsCapped limit) es
    → All (IsCapped limit) (add_entry limit rule m example es)
unfolding add_entry
add_entry-IsCapped limit rule m example [] h =
    (bump-IsCapped limit example (new_entry m) (ground arith), tt)
add_entry-IsCapped limit rule m example ((r, entry) ∷ rest) (p, h) = elim (Bool-cases (r == rule)) [
  | inl t ↦ rw t (bump-IsCapped limit example entry p, h)
  | inr f ↦ rw f (p, add_entry-IsCapped limit rule m example rest h)
]

-- A report on `n` messages of `k` files.
abbrev IsReport : ℕ → ℕ → Report → Type 0
IsReport limit n report =
    (report.errors + report.warnings ≡ n)
    × (counted report.by_rule + length report.parse_errors ≡ n)
    × All (IsCapped limit) report.by_rule

count_severity_total :
    (m : Message) (report : Report)
    → (count_severity m report).errors + (count_severity m report).warnings
      ≡ suc (report.errors + report.warnings)
count_severity_total m report = elim (Bool-cases (m.severity == 2)) [
  | inl t ↦ rw t (omega arith)
  | inr f ↦ rw f (omega arith)
]

file_message-IsReport :
    (limit n : ℕ) (rel : Text) (m : Message) (rule : Option Text) (report : Report)
    → (report.errors + report.warnings ≡ suc n)
    → (counted report.by_rule + length report.parse_errors ≡ n)
    → All (IsCapped limit) report.by_rule
    → IsReport limit (suc n) (file_message limit rel m rule report)
file_message-IsReport limit n rel m none report a b c =
    (a, omega (arith, length-append report.parse_errors (_ ∷ [])), c)
file_message-IsReport limit n rel m (some rule) report a b c = (
  a,
  omega (arith, counted-add_entry limit rule m _ report.by_rule),
  add_entry-IsCapped limit rule m _ report.by_rule c,
)

add_messages-IsReport :
    (limit n : ℕ) (rel : Text) (ms : List Message) (report : Report)
    → IsReport limit n report
    → IsReport limit (n + length ms) (add_messages limit rel ms report)
unfolding add_messages add_message
add_messages-IsReport limit n rel [] report (a, b, c) = (omega arith, omega arith, c)
add_messages-IsReport limit n rel (m ∷ ms) report (a, b, c) =
    let next =
      file_message-IsReport limit n rel m m.rule_id (count_severity m report)
        (omega (arith, count_severity_total m report)) b c in
    let (d, e, f) =
      add_messages-IsReport limit (suc n) rel ms (add_message limit rel m report) next in
    (omega arith, omega arith, f)

add_result-IsReport :
    (limit n : ℕ) (cwd : Text) (result : Result) (report : Report)
    → IsReport limit n report
    → IsReport limit (n + length result.messages) (add_result limit cwd result report)
unfolding add_result
add_result-IsReport limit n cwd result report h = elim (Bool-cases (length result.messages == 0)) [
  | inl t ↦ rw t (let (a, b, c) = h in (ground arith, ground arith, c))
  | inr f ↦ rw f (add_messages-IsReport limit n _ result.messages (count_file report) h)
]

collect_from-IsReport :
    (limit n : ℕ) (cwd : Text) (results : List Result) (report : Report)
    → IsReport limit n report
    → IsReport limit (n + message_count results) (collect_from limit cwd results report)
unfolding collect_from
collect_from-IsReport limit n cwd [] report (a, b, c) = (omega arith, omega arith, c)
collect_from-IsReport limit n cwd (r ∷ rs) report h =
    let (a, b, c) =
      collect_from-IsReport limit (n + length r.messages) cwd rs (add_result limit cwd r report)
        (add_result-IsReport limit n cwd r report h) in
    (omega arith, omega arith, c)

-- Every message is counted once: the errors and warnings are as many as the messages of all results,
-- and so are the findings of the rules with the parse errors. Each rule shows as many examples as it
-- has findings, up to the limit.
pub collect-IsReport :
    (limit : ℕ) (cwd : Text) (results : List Result)
    → ((collect limit cwd results).errors + (collect limit cwd results).warnings
        ≡ message_count results)
      × (counted (collect limit cwd results).by_rule
            + length (collect limit cwd results).parse_errors
          ≡ message_count results)
      × All (IsCapped limit) (collect limit cwd results).by_rule
collect-IsReport limit cwd results =
    let (a, b, c) = collect_from-IsReport limit 0 cwd results start (refl, refl, tt) in
    (omega arith, omega arith, c)
