-- ===== src/Formatter/Output.antt =====
-- formatter.mjs: the lines of the report.
use Prim.Native.Nat.{min}
use ores_lib_core.Base.{
  ℕ, zero, suc, ◌+◌, ◌-◌, ◌&&◌, Option, none, some, List, [], ◌∷◌, ◌++◌, map, Text, text, length,
  join, lookup, decimal, nat_eq, list_eq, ◌==◌, ltb, if◌then◌else◌,
}
use ores_lib_core.Formatter.{Result, Entry, Report, collect, labels, ordered}

-- LABELS[ruleId] || entry.message
abbrev pub label_or : Option Text → Text → Text
label_or none message = message
label_or (some label) message = label

unfoldable pub more_line : ℕ → ℕ → List Text
more_line limit n =
    if ltb limit n then (text "      ... and " ++ decimal (n - limit) ++ text " more") ∷ [] else []

unfoldable pub rule_lines : ℕ → Text × Entry → List Text
unfolding labels more_line
rule_lines limit (rule, entry) =
    []
      ∷ (text "  "
          ++ (if entry.severity == 2 then text "error" else text "warning")
          ++ text ": "
          ++ label_or (lookup rule labels) entry.message
          ++ text "  ["
          ++ rule
          ++ text "]")
      ∷ (text "    "
          ++ decimal entry.count
          ++ text " instance(s); showing "
          ++ decimal (min entry.count limit)
          ++ text ":")
      ∷ map (λ example. text "      " ++ example) entry.examples
    ++ more_line limit entry.count

unfoldable pub all_rule_lines : ℕ → List (Text × Entry) → List Text
unfolding rule_lines
all_rule_lines limit [] = []
all_rule_lines limit (x ∷ xs) = rule_lines limit x ++ all_rule_lines limit xs

-- parseErrors.slice(0, MAX)
unfoldable pub first : ℕ → List Text → List Text
first zero xs = []
first (suc n) [] = []
first (suc n) (x ∷ xs) = x ∷ first n xs

unfoldable pub parse_lines : ℕ → List Text → List Text
unfolding first more_line
parse_lines limit [] = []
parse_lines limit (p ∷ ps) =
    []
      ∷ (text "  note: "
          ++ decimal (length (p ∷ ps))
          ++ text " file(s) could not be parsed (usually a missing parser, not a defect):")
      ∷ map (λ error. text "      " ++ error) (first limit (p ∷ ps))
    ++ more_line limit (length (p ∷ ps))

abbrev pub clean : ℕ → Text
clean examined =
    if examined == 0
    then text "ores-lint[js]: no lintable files matched (check ignores / file extensions)\n"
    else text "ores-lint[js]: clean ("
      ++ decimal examined
      ++ text " file"
      ++ (if examined == 1 then [] else text "s")
      ++ text " linted)\n"

abbrev pub summary : ℕ → Report → Text
summary examined report =
    text "ores-lint[js]: "
    ++ decimal (report.errors + report.warnings)
    ++ text " finding(s) across "
    ++ decimal (length report.by_rule)
    ++ text " rule(s) in "
    ++ decimal report.files
    ++ text " of "
    ++ decimal examined
    ++ text " file(s) linted"

unfoldable pub print_report : ℕ → ℕ → Report → Text
unfolding all_rule_lines parse_lines ordered
print_report limit examined report =
    if length report.by_rule == 0 && length report.parse_errors == 0
    then clean examined
    else join (text "\n") (
        summary examined report ∷ all_rule_lines limit (ordered report.by_rule)
        ++ parse_lines limit report.parse_errors
        ++ [] ∷ [])
      ++ text "\n"

unfoldable pub ores_formatter : ℕ → Text → List Result → Text
unfolding print_report
ores_formatter limit cwd results = print_report limit (length results) (collect limit cwd results)
