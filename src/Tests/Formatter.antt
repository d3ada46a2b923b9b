-- ===== src/Tests/Formatter.antt =====
-- .ores-lint/eslint/formatter.mjs at concrete inputs.
use ores_lib_core.Base.{
  ℕ, ◌+◌, ◌≡◌, refl, none, some, List, [], ◌∷◌, ◌++◌, text, length, All, list_beq, includes,
  starts_with, decimal, lookup, join,
}
use ores_lib_core.Formatter.{
  Message, Result, collect, collect_from, remove_first, add_entry, labels, comes_first,
}
use ores_lib_core.Formatter.Output.{ores_formatter, first, more_line}
use ores_lib_core.Formatter.Laws.{counted, message_count, IsCapped, collect-IsReport}

abbrev semi_at : ℕ → Message
semi_at line = record {
  severity = 2;
  rule_id = some (text "semi");
  line = line;
  column = 4;
  message = text "Missing semicolon.";
}

abbrev unused_at : ℕ → Message
unused_at line = record {
  severity = 1;
  rule_id = some (text "no-unused-vars");
  line = line;
  column = 1;
  message = text "unused";
}

abbrev unparsed : Message
unparsed = record { severity = 2; rule_id = none; line = 0; column = 0; message = text "no parser" }

abbrev results : List Result
results =
    record { file_path = text "/w/a.js"; messages = unused_at 1 ∷ unused_at 2 ∷ semi_at 3 ∷ [] }
    ∷ record { file_path = text "/w/b.js"; messages = [] }
    ∷ record { file_path = text "/w/c.ts"; messages = unparsed ∷ semi_at 9 ∷ [] }
    ∷ []

prints :
    ores_formatter 1 (text "/w") results
    ≡ text "ores-lint[js]: 5 finding(s) across 2 rule(s) in 2 of 3 file(s) linted\n\n"
      ++ text "  error: missing semicolon (ores house style)  [semi]\n"
      ++ text "    2 instance(s); showing 1:\n"
      ++ text "      a.js:3:4\n"
      ++ text "      ... and 1 more\n\n"
      ++ text "  warning: unused  [no-unused-vars]\n"
      ++ text "    2 instance(s); showing 1:\n"
      ++ text "      a.js:1:1\n"
      ++ text "      ... and 1 more\n\n"
      ++ text "  note: 1 file(s) could not be parsed (usually a missing parser, not a defect):\n"
      ++ text "      c.ts:0: no parser\n\n"
unfolding ores_formatter text collect_from remove_first add_entry labels comes_first first more_line
    list_beq includes starts_with decimal lookup join
prints = refl

collect-IsReport_example :
    ((collect 1 (text "/w") results).errors + (collect 1 (text "/w") results).warnings
      ≡ message_count results)
    × (counted (collect 1 (text "/w") results).by_rule
          + length (collect 1 (text "/w") results).parse_errors
        ≡ message_count results)
    × All (IsCapped 1) (collect 1 (text "/w") results).by_rule
collect-IsReport_example = collect-IsReport 1 (text "/w") results
