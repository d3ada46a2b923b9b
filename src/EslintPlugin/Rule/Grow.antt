-- ===== src/EslintPlugin/Rule/Grow.antt =====
-- plugin.mjs: the callbacks of ores/require-send never take back a logger or a report.
use ores_lib_core.Base.{
  ℕ, ◌&&◌, Bool, true, false, Option, none, some, List, [], ◌∷◌, ◌++◌, Text, text, any, includes,
  nat_eq, list_eq, if-elim, if◌then◌else◌,
}
use ores_lib_core.EslintPlugin.Tree.{
  Node, Nodes, nil, cons, unwrap, truthy, qualified_name, is_tracked_module, inspect_chain,
}
use ores_lib_core.EslintPlugin.Scopes.{
  Options, levels_of, terminals_of, Pending, State, add, logger_exports, report, with_scopes,
  enter_scope, report_all, popped, exit_scope, mark_pending, clear_pending, is_pending,
}
use ores_lib_core.EslintPlugin.Rule.{
  add_all, qualify, is_undelivered, is_logger_producer, clear_if_pending, clear_arguments,
  arguments_of, consume_terminal_use, Specifier, default_specifier, namespace_specifier,
  named_specifier, import_specifier, import_all, Event, scope_enter, scope_exit, arrow_enter,
  import_declaration, variable_declarator, assignment_expression, return_statement, call_expression,
  expression_statement, add_logger, is_named, declare, assign, leave, express, visit, visit_all,
}

-- What holds of the loggers and the reports, and still holds with one more of either
module _ (P : List Text → List ℕ → Type 0)
    (one_logger : (x : Text) (xs : List Text) (ns : List ℕ) → P xs ns → P (add x xs) ns)
    (one_report : (n : ℕ) (xs : List Text) (ns : List ℕ) → P xs ns → P xs (ns ++ n ∷ [])) where
  abbrev pub Persists : State → Type 0
  Persists st = P st.loggers st.reports

  report_all-Persists :
      (scope : Pending) (st : State) → Persists st → Persists (report_all scope st)
  unfolding report_all
  report_all-Persists [] st h = h
  report_all-Persists ((name, node) ∷ rest) st h =
      report_all-Persists rest (report node st) (one_report node st.loggers st.reports h)

  popped-Persists : (scopes : List Pending) (st : State) → Persists st → Persists (popped scopes st)
  popped-Persists [] st h = h
  popped-Persists (scope ∷ scopes) st h = report_all-Persists scope (with_scopes scopes st) h

  mark_pending-Persists :
      (name : Option Text) (node : ℕ) (st : State)
      → Persists st
      → Persists (mark_pending name node st)
  mark_pending-Persists none node st h = h
  mark_pending-Persists (some name) node st h = h

  clear_pending-Persists :
      (name : Option Text) (st : State) → Persists st → Persists (clear_pending name st)
  clear_pending-Persists none st h = h
  clear_pending-Persists (some name) st h = h

  clear_if_pending-Persists :
      (name : Option Text) (st : State) → Persists st → Persists (clear_if_pending name st)
  clear_if_pending-Persists name st h =
      if-elim Persists (is_pending name st) (clear_pending name st) st
        (λ _. clear_pending-Persists name st h) (λ _. h)

  clear_arguments-Persists :
      (args : Nodes) (st : State) → Persists st → Persists (clear_arguments args st)
  unfolding clear_arguments
  clear_arguments-Persists nil st h = h
  clear_arguments-Persists (cons arg args) st h =
      clear_arguments-Persists args _ (clear_if_pending-Persists (truthy (qualified_name arg)) st h)

  consume-Persists :
      (options : Options) (node : Node) (st : State)
      → Persists st
      → Persists (consume_terminal_use options node st)
  unfolding consume_terminal_use
  consume-Persists options node st h =
      let chain = inspect_chain (levels_of options) (some node) in
      clear_arguments-Persists (arguments_of (unwrap node)) _ (
        if-elim Persists (any (includes (terminals_of options)) chain.methods)
          (clear_pending (truthy chain.root) st) st
          (λ _. clear_pending-Persists (truthy chain.root) st h) (λ _. h))

  add_all-Persists : (names xs : List Text) (ns : List ℕ) → P xs ns → P (add_all names xs) ns
  unfolding add_all
  add_all-Persists [] xs ns h = h
  add_all-Persists (x ∷ names) xs ns h = add_all-Persists names (add x xs) ns (one_logger x xs ns h)

  import_specifier-Persists :
      (s : Specifier) (st : State) → Persists st → Persists (import_specifier s st)
  unfolding import_specifier
  import_specifier-Persists (default_specifier none) st h = h
  import_specifier-Persists (default_specifier (some local)) st h =
      one_logger local st.loggers st.reports h
  import_specifier-Persists (namespace_specifier none) st h = h
  import_specifier-Persists (namespace_specifier (some local)) st h =
      add_all-Persists (qualify local logger_exports) st.loggers st.reports h
  import_specifier-Persists (named_specifier none imported) st h = h
  import_specifier-Persists (named_specifier (some local) none) st h = h
  import_specifier-Persists (named_specifier (some local) (some imported)) st h =
      if-elim (λ xs. P xs st.reports) (includes logger_exports imported) (add local st.loggers)
        st.loggers (λ _. one_logger local st.loggers st.reports h) (λ _. h)

  import_all-Persists :
      (ss : List Specifier) (st : State) → Persists st → Persists (import_all ss st)
  unfolding import_all
  import_all-Persists [] st h = h
  import_all-Persists (s ∷ ss) st h = import_all-Persists ss _ (import_specifier-Persists s st h)

  add_logger-Persists :
      (test : Bool) (name : Option Text) (st : State)
      → Persists st
      → Persists (add_logger test name st)
  add_logger-Persists true (some name) st h = one_logger name st.loggers st.reports h
  add_logger-Persists true none st h = h
  add_logger-Persists false name st h = h

  module _ (options : Options) where
    express-Persists :
        (node : ℕ) (expression : Node) (st : State)
        → Persists st
        → Persists (express options node expression st)
    unfolding express
    express-Persists node expression st h =
        if-elim Persists
          (is_undelivered options st (inspect_chain (levels_of options) (some expression)))
          (report node st) (consume_terminal_use options expression st)
          (λ _. one_report node st.loggers st.reports h)
          (λ _. consume-Persists options expression st h)

    declare-Persists :
        (node : ℕ) (name : Option Text) (init : Option Node) (st : State)
        → Persists st
        → Persists (declare options node name init st)
    unfolding declare
    declare-Persists node name init st h =
        let known = add_logger (is_logger_producer st init) name st in
        let late = is_undelivered options known (inspect_chain (levels_of options) init) in
        let k = add_logger-Persists (is_logger_producer st init) name st h in
        if-elim Persists (is_named name && late) (mark_pending name node known) known
          (λ _. mark_pending-Persists name node known k) (λ _. k)

    assign-Persists :
        (node : ℕ) (left right : Node) (st : State)
        → Persists st
        → Persists (assign options node left right st)
    unfolding assign
    assign-Persists node left right st h =
        let name = truthy (qualified_name left) in
        let known = add_logger (is_logger_producer st (some right)) name st in
        let late = is_undelivered options known (inspect_chain (levels_of options) (some right)) in
        let k = add_logger-Persists (is_logger_producer st (some right)) name st h in
        if-elim Persists (late && is_named name) (mark_pending name node known)
          (consume_terminal_use options right known) (λ _. mark_pending-Persists name node known k)
          (λ _. consume-Persists options right known k)

    leave-Persists :
        (argument : Node) (st : State) → Persists st → Persists (leave options argument st)
    unfolding leave
    leave-Persists argument st h =
        let name = truthy (qualified_name argument) in
        let late = is_undelivered options st (inspect_chain (levels_of options) (some argument)) in
        let used = consume_terminal_use options argument st in
        let otherwise : State = if late then st else used in
        if-elim Persists (is_pending name st) (clear_pending name st) otherwise
          (λ _. clear_pending-Persists name st h)
          (λ _.
            if-elim Persists late st used (λ _. h) (λ _. consume-Persists options argument st h))

    pub visit-Persists :
        (event : Event) (st : State) → Persists st → Persists (visit options event st)
    unfolding visit exit_scope
    visit-Persists scope_enter st h = h
    visit-Persists scope_exit st h = popped-Persists st.scopes st h
    visit-Persists (arrow_enter none) st h = h
    visit-Persists (arrow_enter (some body)) st h =
        clear_if_pending-Persists (truthy (qualified_name body)) (enter_scope st) h
    visit-Persists (import_declaration source specifiers) st h =
        if-elim Persists
          (is_tracked_module source (text "@oresoftware/next-loggers" ∷ options.module_names))
          (import_all specifiers st) st (λ _. import_all-Persists specifiers st h) (λ _. h)
    visit-Persists (variable_declarator node name init) st h =
        declare-Persists node (truthy name) init st h
    visit-Persists (assignment_expression node left right) st h =
        assign-Persists node left right st h
    visit-Persists (return_statement none) st h = h
    visit-Persists (return_statement (some argument)) st h = leave-Persists argument st h
    visit-Persists (call_expression node) st h = consume-Persists options node st h
    visit-Persists (expression_statement node expression) st h =
        express-Persists node expression st h

    pub visit_all-Persists :
        (events : List Event) (st : State) → Persists st → Persists (visit_all options events st)
    unfolding visit_all
    visit_all-Persists [] st h = h
    visit_all-Persists (e ∷ es) st h = visit_all-Persists es _ (visit-Persists e st h)
