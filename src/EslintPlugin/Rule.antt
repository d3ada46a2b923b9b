-- ===== src/EslintPlugin/Rule.antt =====
-- plugin.mjs: the callbacks of ores/require-send, as steps on the state that `create` closes over.
-- ESLint walks the tree and calls them; a node that a callback can report is a number.
pub mod Complete
pub mod Grow
pub mod Laws
pub mod Run
use ores_lib_core.Base.{
  ℕ, ◌&&◌, ◌||◌, not, Bool, true, false, Option, none, some, List, [], ◌∷◌, ◌++◌, map, Text, text,
  any, includes, nat_eq, list_eq, ◌==◌, if◌then◌else◌,
}
use ores_lib_core.EslintPlugin.Tree.{
  Node, Nodes, call, member, new_call, nil, cons, unwrap, truthy, property_name, qualified_name,
  is_tracked_module, Chain, is_delivered, is_known, is_found, inspect_chain,
}
use ores_lib_core.EslintPlugin.Scopes.{
  Options, State, add, class_exports, clear_pending, enter_scope, exit_scope, factory_exports,
  initial, is_pending, levels_of, logger_exports, mark_pending, report, terminals_of,
}

-- chain.isEvent && !chain.delivered
unfoldable pub is_undelivered : Options → State → Chain → Bool
is_undelivered options st chain =
    is_known st.loggers (truthy chain.root)
    && is_found chain.level_index
    && not (is_delivered (terminals_of options) chain.methods chain.level_index)

-- A call of `anew` on a logger
abbrev pub is_renewed : State → Node → Bool
is_renewed st (member computed object property) =
    is_anew (property_name computed property)
    && is_known st.loggers (truthy (qualified_name object))
  where
    is_anew : Option Text → Bool
    is_anew none = false
    is_anew (some method) = method == text "anew"
is_renewed st node = false

abbrev pub is_made : State → Node → Bool
is_made st (new_call callee) = is_known st.classes (truthy (qualified_name callee))
is_made st (call callee args) =
    is_known st.factories (truthy (qualified_name callee)) || is_renewed st (unwrap callee)
is_made st node = false

-- isLoggerProducer
unfoldable pub is_logger_producer : State → Option Node → Bool
is_logger_producer st none = false
is_logger_producer st (some node) =
    is_known st.loggers (truthy (qualified_name node)) || is_made st (unwrap node)

abbrev pub clear_if_pending : Option Text → State → State
clear_if_pending name st = if is_pending name st then clear_pending name st else st

unfoldable pub clear_arguments : Nodes → State → State
clear_arguments nil st = st
clear_arguments (cons arg args) st =
    clear_arguments args (clear_if_pending (truthy (qualified_name arg)) st)

abbrev pub arguments_of : Node → Nodes
arguments_of (call callee args) = args
arguments_of node = nil

-- consumeTerminalUse
unfoldable pub consume_terminal_use : Options → Node → State → State
consume_terminal_use options node st =
    let chain = inspect_chain (levels_of options) (some node) in
    let cleared =
      if any (includes (terminals_of options)) chain.methods
      then clear_pending (truthy chain.root) st
      else st in
    clear_arguments (arguments_of (unwrap node)) cleared

pub data Specifier : Type 0 where
  default_specifier namespace_specifier : Option Text → Specifier
  named_specifier : Option Text → Option Text → Specifier

abbrev pub qualify : Text → List Text → List Text
qualify local names = map (λ name. local ++ b'.' ∷ name) names

unfoldable pub add_all : List Text → List Text → List Text
add_all [] names = names
add_all (x ∷ xs) names = add_all xs (add x names)

abbrev pub add_if : Bool → Text → List Text → List Text
add_if test name names = if test then add name names else names

-- One specifier of a tracked import, with the local name and the imported one
unfoldable pub import_specifier : Specifier → State → State
import_specifier (default_specifier (some local)) st = record st { loggers = add local st.loggers }
import_specifier (namespace_specifier (some local)) st = record st {
  loggers = add_all (qualify local logger_exports) st.loggers;
  factories = add_all (qualify local factory_exports) st.factories;
  classes = add_all (qualify local class_exports) st.classes;
}
import_specifier (named_specifier (some local) (some imported)) st = record st {
  loggers = add_if (includes logger_exports imported) local st.loggers;
  factories = add_if (includes factory_exports imported) local st.factories;
  classes = add_if (includes class_exports imported) local st.classes;
}
import_specifier specifier st = st

unfoldable pub import_all : List Specifier → State → State
import_all [] st = st
import_all (s ∷ ss) st = import_all ss (import_specifier s st)

-- What ESLint calls: a scope is a program, a function declaration or a function expression; the
-- body of an arrow function is given if it is no block.
pub data Event : Type 0 where
  scope_enter scope_exit : Event
  arrow_enter : Option Node → Event
  import_declaration : Option Text → List Specifier → Event
  variable_declarator : ℕ → Option Text → Option Node → Event
  assignment_expression : ℕ → Node → Node → Event
  return_statement : Option Node → Event
  call_expression : Node → Event
  expression_statement : ℕ → Node → Event

abbrev pub add_logger : Bool → Option Text → State → State
add_logger true (some name) st = record st { loggers = add name st.loggers }
add_logger _ _ st = st

abbrev pub is_named : Option Text → Bool
is_named none = false
is_named (some name) = true

-- ArrowFunctionExpression(node)
abbrev pub enter_arrow : Option Node → State → State
enter_arrow none st = enter_scope st
enter_arrow (some body) st = clear_if_pending (truthy (qualified_name body)) (enter_scope st)

unfoldable pub declare : Options → ℕ → Option Text → Option Node → State → State
declare options node name init st =
    let known = add_logger (is_logger_producer st init) name st in
    if is_named name && is_undelivered options known (inspect_chain (levels_of options) init)
    then mark_pending name node known
    else known

unfoldable pub assign : Options → ℕ → Node → Node → State → State
assign options node left right st =
    let name = truthy (qualified_name left) in
    let known = add_logger (is_logger_producer st (some right)) name st in
    if is_undelivered options known (inspect_chain (levels_of options) (some right))
      && is_named name
    then mark_pending name node known
    else consume_terminal_use options right known

unfoldable pub leave : Options → Node → State → State
leave options argument st =
    let name = truthy (qualified_name argument) in
    if is_pending name st
    then clear_pending name st
    else if is_undelivered options st (inspect_chain (levels_of options) (some argument))
    then st
    else consume_terminal_use options argument st

unfoldable pub express : Options → ℕ → Node → State → State
express options node expression st =
    if is_undelivered options st (inspect_chain (levels_of options) (some expression))
    then report node st
    else consume_terminal_use options expression st

-- The callback of an event
unfoldable pub visit : Options → Event → State → State
visit options scope_enter st = enter_scope st
visit options scope_exit st = exit_scope st
visit options (arrow_enter body) st = enter_arrow body st
visit options (import_declaration source specifiers) st =
    if is_tracked_module source (text "@oresoftware/next-loggers" ∷ options.module_names)
    then import_all specifiers st
    else st
visit options (variable_declarator node name init) st = declare options node (truthy name) init st
visit options (assignment_expression node left right) st = assign options node left right st
visit options (return_statement none) st = st
visit options (return_statement (some argument)) st = leave options argument st
visit options (call_expression node) st = consume_terminal_use options node st
visit options (expression_statement node expression) st = express options node expression st

unfoldable pub visit_all : Options → List Event → State → State
visit_all options [] st = st
visit_all options (e ∷ es) st = visit_all options es (visit options e st)

-- The nodes that are reported over a whole walk
unfoldable pub reported : Options → List Event → List ℕ
reported options events = (visit_all options events (initial options)).reports
