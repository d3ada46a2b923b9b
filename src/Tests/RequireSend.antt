-- ===== src/Tests/RequireSend.antt =====
-- .ores-lint/require-send.mjs at concrete inputs.
use ores_lib_core.Base.{
  In, suc, ◌+◌, ◌≡◌, ◌↔◌, ◌⊎◌, refl, true, false, some, Option, List, [], ◌∷◌, ◌++◌, map, Text,
  text, length, All, split, split_from, starts_with, ends_with, includes, list_beq, drop_while,
  list_eq, nat_eq,
}
use ores_lib_core.RequireSend.{
  levels, terminals, is_level, is_terminal, last_part, base_name, logger_names, is_logger_base,
  looks_like_logger,
}
use ores_lib_core.RequireSend.Token.{
  Kind, Token, start, same_kind, bump, skip_line, skip_block, skip_string, take_ident, singles,
  lex_one, lex, tokenize, ident, string, lparen, rparen, dot, pipe,
}
use ores_lib_core.RequireSend.Token.Laws.{Lexes, IsPlaced, tokenize-Lexes, tokenize-IsPlaced}
use ores_lib_core.RequireSend.Token.RoundTrip.{Word, word_of, render, tokenize-render}
use ores_lib_core.RequireSend.Suppress.{
  followed_by, has_directive, disables_file, disables_line, disables_next_line, lines_where,
  collect_suppressions, is_disabled,
}
use ores_lib_core.RequireSend.Suppress.Laws.{LinePasses, AbovePasses, is_disabled_iff}
use ores_lib_core.RequireSend.Scopes.{
  Finding, scope_set, scope_has, scope_delete, clear_scopes, report, flush_scope, flush_scopes,
}
use ores_lib_core.RequireSend.Scopes.Laws.{IsReported}
use ores_lib_core.RequireSend.Chain.{
  closing, skip_balanced, skip_parens, qualified_from, qualified_name, args_from,
  count_top_level_args, skip_fields, walk_call, walk_calls, walk_method_chain,
}
use ores_lib_core.RequireSend.Chain.Brackets.{empty, other, skip_parens-IsBalanced}
use ores_lib_core.RequireSend.Chain.Pipe.{
  skip_dotted, pipe_steps, walk_gleam_pipe, preceding_assignment, is_returnish,
  next_non_chain_is_semi,
}
use ores_lib_core.RequireSend.Analyze.{
  dart, rust, clear_sent, finding_at, visit_gleam, root_index, visit_dotted, visit_token,
  visit_from, analyze_source,
}
use ores_lib_core.RequireSend.Analyze.Laws.{IsUndelivered}
use ores_lib_core.RequireSend.Analyze.Run.{analyze_source-some, analyze_source-IsReported}
use ores_lib_core.RequireSend.Report.{Result, main, format_report, language_of}
use ores_lib_core.RequireSend.Report.Laws.{IsScanned, IsListed, main-IsScan}

abbrev undelivered : Text
undelivered = text "log.info(x);"

abbrev sent : Text
sent = text "let e = log.info(x);\ne.send();"

undelivered_found : analyze_source undelivered dart ≡ some (finding_at 1 1 ∷ [])
unfolding analyze_source tokenize lex lex_one text visit_from take_ident singles visit_token
    same_kind visit_dotted is_level list_beq root_index walk_method_chain looks_like_logger
    qualified_name skip_fields qualified_from walk_calls walk_call skip_balanced includes drop_while
    ends_with split split_from starts_with clear_sent finding_at visit_gleam is_returnish
    next_non_chain_is_semi pipe_steps preceding_assignment skip_dotted walk_gleam_pipe args_from
    closing count_top_level_args clear_scopes flush_scope flush_scopes report scope_delete scope_has
    scope_set collect_suppressions disables_file disables_line disables_next_line followed_by
    has_directive is_disabled lines_where bump skip_block skip_line skip_string base_name
    is_logger_base is_terminal last_part levels logger_names terminals
undelivered_found = refl

sent_clean : analyze_source sent rust ≡ some []
unfolding analyze_source tokenize lex lex_one text visit_from take_ident singles visit_token
    same_kind visit_dotted is_level list_beq root_index walk_method_chain looks_like_logger
    qualified_name skip_fields qualified_from walk_calls walk_call skip_balanced includes drop_while
    ends_with split split_from starts_with clear_sent finding_at visit_gleam is_returnish
    next_non_chain_is_semi pipe_steps preceding_assignment skip_dotted walk_gleam_pipe args_from
    closing count_top_level_args clear_scopes flush_scope flush_scopes report scope_delete scope_has
    scope_set collect_suppressions disables_file disables_line disables_next_line followed_by
    has_directive is_disabled lines_where bump skip_block skip_line skip_string base_name
    is_logger_base is_terminal last_part levels logger_names terminals
sent_clean = refl

analyze_source-some_example :
    (findings : List Finding) × (analyze_source undelivered dart ≡ some findings)
analyze_source-some_example = analyze_source-some undelivered dart

analyze_source-IsReported_example :
    All
      (IsReported (collect_suppressions undelivered) (IsUndelivered dart (tokenize undelivered)))
      (finding_at 1 1 ∷ [])
analyze_source-IsReported_example =
    analyze_source-IsReported undelivered dart (finding_at 1 1 ∷ []) undelivered_found

tokenize-Lexes_example : Lexes sent start (tokenize sent)
tokenize-Lexes_example = tokenize-Lexes sent

tokenize-IsPlaced_example : All (IsPlaced sent) (tokenize sent)
tokenize-IsPlaced_example = tokenize-IsPlaced sent

abbrev words : List Word
words =
    (ident, text "log")
    ∷ (dot, text ".")
    ∷ (ident, text "info")
    ∷ (lparen, text "(")
    ∷ (string, [])
    ∷ (rparen, text ")")
    ∷ (pipe, text "|>")
    ∷ (ident, text "send")
    ∷ []

tokenize-render_example : map word_of (tokenize (render words)) ≡ words
unfolding text
tokenize-render_example =
    tokenize-render words
      ((refl, refl), (refl, ((refl, refl), (refl, (refl, (refl, (refl, ((refl, refl), tt))))))))

abbrev suppressed : Text
suppressed = text "a;\n// ores-lint-disable-line require-send\nlog.info(x);"

is_disabled_iff_example : (is_disabled (collect_suppressions suppressed) 3 ≡ true) ↔ (
    (disables_file suppressed ≡ true)
    ⊎ (LinePasses disables_line 3 (split b'\n' suppressed)
        ⊎ (AbovePasses disables_line 3 (split b'\n' suppressed)
            ⊎ AbovePasses disables_next_line 3 (split b'\n' suppressed))))
is_disabled_iff_example = is_disabled_iff suppressed 3

suppressed_clean : analyze_source suppressed dart ≡ some []
unfolding analyze_source tokenize lex lex_one text visit_from take_ident singles visit_token
    same_kind visit_dotted is_level list_beq root_index walk_method_chain looks_like_logger
    qualified_name skip_fields qualified_from walk_calls walk_call skip_balanced includes drop_while
    ends_with split split_from starts_with clear_sent finding_at visit_gleam is_returnish
    next_non_chain_is_semi pipe_steps preceding_assignment skip_dotted walk_gleam_pipe args_from
    closing count_top_level_args clear_scopes flush_scope flush_scopes report scope_delete scope_has
    scope_set collect_suppressions disables_file disables_line disables_next_line followed_by
    has_directive is_disabled lines_where bump skip_block skip_line skip_string base_name
    is_logger_base is_terminal last_part levels logger_names terminals
suppressed_clean = refl

abbrev token : Kind → Token
token kind = record { kind = kind; value = []; line = 1; col = 1 }

skip_parens-IsBalanced_example :
    skip_parens
      ((token ident ∷ []) ++ token lparen ∷ ((token ident ∷ []) ++ token rparen ∷ token dot ∷ []))
      (length (token ident ∷ []))
    ≡ length (token ident ∷ []) + suc (length (token ident ∷ []))
unfolding same_kind
skip_parens-IsBalanced_example =
    skip_parens-IsBalanced (token ident ∷ []) (token ident ∷ []) (token dot ∷ []) (token lparen)
      (token rparen) refl (other refl refl empty) refl

abbrev reads : Text → Option Text
reads name = some undelivered

main-IsScan_example :
    (results : List Result) × (main false false 5 [] (some (text "lib/a.rs")) reads
      ≡ some (format_report 5 results))
    × ((rel source : Text)
        → IsListed false [] (text "lib/a.rs") rel
        → reads rel ≡ some source
        → IsScanned rel source results)
    × ((r : Result)
        → In r results
        → IsListed false [] (text "lib/a.rs") r.file
          × ((source : Text) × (reads r.file ≡ some source)
              × (analyze_source source (language_of r.file) ≡ some r.findings)))
main-IsScan_example = main-IsScan false 5 [] (text "lib/a.rs") reads

-- Three arguments in brackets are counted as none.
bracketed_args : count_top_level_args (tokenize (text "f([a], (b), {c})")) 1 ≡ 0
unfolding tokenize lex lex_one text take_ident singles same_kind count_top_level_args args_from bump
bracketed_args = refl

plain_args : count_top_level_args (tokenize (text "f(a, (b), {c})")) 1 ≡ 3
unfolding tokenize lex lex_one text take_ident singles same_kind count_top_level_args args_from bump
plain_args = refl
