-- ===== src/Tests/EslintPlugin.antt =====
-- .ores-lint/eslint/plugin.mjs at concrete inputs.
use Prim.Native.String.{String}
use ores_lib_core.Base.{
  ◌≡◌, refl, inl, inr, true, false, none, some, List, [], ◌∷◌, text, In, All, includes, list_beq,
  starts_with,
}
use ores_lib_core.EslintPlugin.Tree.{
  Node, identifier, member, call, nil, unwrap, property_name, qualified_name, collect_call_chain,
  find_index, inspect_chain,
}
use ores_lib_core.EslintPlugin.Scopes.{
  Options, levels_of, terminals_of, initial, report_all, exit_scope, pending_set, pending_has,
  pending_delete, clear_scopes,
}
use ores_lib_core.EslintPlugin.Rule.{
  Event, scope_enter, scope_exit, variable_declarator, call_expression, expression_statement,
  is_undelivered, is_logger_producer, clear_arguments, consume_terminal_use, declare, express,
  visit, visit_all, reported,
}
use ores_lib_core.EslintPlugin.Rule.Laws.{Offers}
use ores_lib_core.EslintPlugin.Rule.Complete.{In-reported}
use ores_lib_core.EslintPlugin.Rule.Run.{reported-Offers}
use ores_lib_core.EslintPlugin.Semi.{Statement, check, needs_semi, reports_semi}

abbrev defaults : Options
defaults = record {
  logger_names = [];
  module_names = [];
  level_methods = none;
  terminal_methods = none;
}

-- object.method(…)
abbrev call_of : Node → String → Node
call_of object method = call (member false object (identifier (text method))) nil

abbrev info : Node
info = call_of (identifier (text "log")) "info"

-- log.info(); const e = log.info(); const f = log.info(); e.send();
abbrev walk : List Event
walk =
    scope_enter
    ∷ expression_statement 1 info
    ∷ call_expression info
    ∷ variable_declarator 2 (some (text "e")) (some info)
    ∷ variable_declarator 3 (some (text "f")) (some info)
    ∷ expression_statement 4 (call_of (identifier (text "e")) "send")
    ∷ scope_exit
    ∷ []

reported-walk : reported defaults walk ≡ 1 ∷ 3 ∷ []
unfolding reported visit_all visit exit_scope express is_undelivered inspect_chain
    collect_call_chain property_name text qualified_name includes declare is_logger_producer unwrap
    consume_terminal_use clear_arguments terminals_of list_beq starts_with clear_scopes initial
    levels_of pending_delete pending_has pending_set report_all find_index
reported-walk = refl

reported-Offers_example :
    All (λ node. (e : Event) × In e walk × Offers defaults node e) (reported defaults walk)
reported-Offers_example = reported-Offers defaults walk

In-reported_example : In 1 (reported defaults walk)
unfolding inspect_chain collect_call_chain levels_of terminals_of property_name qualified_name text
    includes list_beq find_index initial
In-reported_example = In-reported defaults walk 1 info (inr (inl refl)) (refl, refl) refl

abbrev loop_head : Statement
loop_head = record {
  type = text "VariableDeclaration";
  last_token = some (false, text "0");
  declaration = none;
  parent = some (text "ForStatement", true, false);
}

reports_semi-loop_head : reports_semi loop_head ≡ false
unfolding reports_semi list_beq text check needs_semi
reports_semi-loop_head = refl
