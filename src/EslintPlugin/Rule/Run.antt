-- ===== src/EslintPlugin/Rule/Run.antt =====
-- plugin.mjs: ores/require-send reports undelivered chains only.
use ores_lib_core.Base.{
  ℕ, refl, inl, inr, ◌&&◌, Option, none, some, List, [], ◌∷◌, Text, text, In, All, and_iff, nat_eq,
  list_eq, if-elim, if◌then◌else◌,
}
use ores_lib_core.EslintPlugin.Tree.{Node, truthy, qualified_name, is_tracked_module, inspect_chain}
use ores_lib_core.EslintPlugin.Scopes.{
  Options, levels_of, State, initial, report, enter_scope, exit_scope, mark_pending, clear_pending,
  is_pending,
}
use ores_lib_core.EslintPlugin.Rule.{
  is_undelivered, is_logger_producer, consume_terminal_use, import_all, Event, scope_enter,
  scope_exit, arrow_enter, import_declaration, variable_declarator, assignment_expression,
  return_statement, call_expression, expression_statement, add_logger, is_named, declare, assign,
  leave, express, visit, visit_all, reported,
}
use ores_lib_core.EslintPlugin.Rule.Laws.{
  IsLate, Offers, undelivered-IsLate, IsKept, report-IsKept, popped-IsKept, mark_pending-IsKept,
  clear_pending-IsKept, clear_if_pending-IsKept, consume-IsKept, import_all-IsKept,
  add_logger-IsKept,
}

module _ (options : Options) (P : ℕ → Type 0) where
  express-IsKept :
      (node : ℕ) (expression : Node) (st : State)
      → (IsLate options (some expression) → P node)
      → IsKept P st
      → IsKept P (express options node expression st)
  unfolding express
  express-IsKept node expression st p h =
      let chain = inspect_chain (levels_of options) (some expression) in
      if-elim (IsKept P) (is_undelivered options st chain) (report node st)
        (consume_terminal_use options expression st)
        (λ t. report-IsKept P node st (p (undelivered-IsLate options st (some expression) t)) h)
        (λ _. consume-IsKept P options expression st h)

  declare-IsKept :
      (node : ℕ) (name : Option Text) (init : Option Node) (st : State)
      → (IsLate options init → P node)
      → IsKept P st
      → IsKept P (declare options node name init st)
  unfolding declare
  declare-IsKept node name init st p h =
      let known = add_logger (is_logger_producer st init) name st in
      let late = is_undelivered options known (inspect_chain (levels_of options) init) in
      let k = add_logger-IsKept P (is_logger_producer st init) name st h in
      if-elim (IsKept P) (is_named name && late) (mark_pending name node known) known
        (λ t.
          mark_pending-IsKept P name node known
            (p (undelivered-IsLate options known init ((and_iff (is_named name) late).0 t).1)) k)
        (λ _. k)

  assign-IsKept :
      (node : ℕ) (left right : Node) (st : State)
      → (IsLate options (some right) → P node)
      → IsKept P st
      → IsKept P (assign options node left right st)
  unfolding assign
  assign-IsKept node left right st p h =
      let name = truthy (qualified_name left) in
      let known = add_logger (is_logger_producer st (some right)) name st in
      let late = is_undelivered options known (inspect_chain (levels_of options) (some right)) in
      let k = add_logger-IsKept P (is_logger_producer st (some right)) name st h in
      if-elim (IsKept P) (late && is_named name) (mark_pending name node known)
        (consume_terminal_use options right known)
        (λ t.
          mark_pending-IsKept P name node known
            (p (
              undelivered-IsLate options known (some right) ((and_iff late (is_named name)).0 t).0))
            k)
        (λ _. consume-IsKept P options right known k)

  leave-IsKept : (argument : Node) (st : State) → IsKept P st → IsKept P (leave options argument st)
  unfolding leave
  leave-IsKept argument st h =
      let name = truthy (qualified_name argument) in
      let late = is_undelivered options st (inspect_chain (levels_of options) (some argument)) in
      let used = consume_terminal_use options argument st in
      let otherwise : State = if late then st else used in
      if-elim (IsKept P) (is_pending name st) (clear_pending name st) otherwise
        (λ _. clear_pending-IsKept P name st h)
        (λ _.
          if-elim (IsKept P) late st used (λ _. h) (λ _. consume-IsKept P options argument st h))

  -- A callback keeps what holds of all nodes that its event offers.
  visit-IsKept :
      (event : Event) (st : State)
      → ((node : ℕ) → Offers options node event → P node)
      → IsKept P st
      → IsKept P (visit options event st)
  unfolding visit exit_scope
  visit-IsKept scope_enter st p (h, k) = ((tt, h), k)
  visit-IsKept scope_exit st p h = popped-IsKept P st.scopes st h.0 h
  visit-IsKept (arrow_enter none) st p (h, k) = ((tt, h), k)
  visit-IsKept (arrow_enter (some body)) st p (h, k) =
      clear_if_pending-IsKept P (truthy (qualified_name body)) (enter_scope st) ((tt, h), k)
  visit-IsKept (import_declaration source specifiers) st p h =
      if-elim (IsKept P)
        (is_tracked_module source (text "@oresoftware/next-loggers" ∷ options.module_names))
        (import_all specifiers st) st (λ _. import_all-IsKept P specifiers st h) (λ _. h)
  visit-IsKept (variable_declarator node name init) st p h =
      declare-IsKept node (truthy name) init st (λ l. p node (refl, l)) h
  visit-IsKept (assignment_expression node left right) st p h =
      assign-IsKept node left right st (λ l. p node (refl, l)) h
  visit-IsKept (return_statement none) st p h = h
  visit-IsKept (return_statement (some argument)) st p h = leave-IsKept argument st h
  visit-IsKept (call_expression node) st p h = consume-IsKept P options node st h
  visit-IsKept (expression_statement node expression) st p h =
      express-IsKept node expression st (λ l. p node (refl, l)) h

  visit_all-IsKept :
      (events : List Event) (st : State)
      → ((e : Event) (node : ℕ) → In e events → Offers options node e → P node)
      → IsKept P st
      → IsKept P (visit_all options events st)
  unfolding visit_all
  visit_all-IsKept [] st p h = h
  visit_all-IsKept (e ∷ es) st p h =
      visit_all-IsKept es (visit options e st) (λ f node i. p f node (inr i))
        (visit-IsKept e st (λ node. p e node (inl refl)) h)

-- In any walk, in whatever order ESLint calls the callbacks, each reported node is one that declares
-- a variable with, assigns or states a chain that reaches a level method and no terminal method
-- after it.
pub reported-Offers :
    (options : Options) (events : List Event)
    → All (λ node. (e : Event) × In e events × Offers options node e) (reported options events)
unfolding reported initial
reported-Offers options events =
    (visit_all-IsKept options (λ node. (e : Event) × In e events × Offers options node e) events
      (initial options) (λ e node i o. (e, i, o)) (tt, tt)).1
