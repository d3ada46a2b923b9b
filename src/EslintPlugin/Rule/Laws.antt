-- ===== src/EslintPlugin/Rule/Laws.antt =====
-- plugin.mjs: what the functions on the state of ores/require-send keep.
use ores_lib_core.Base.{
  ℕ, ◌≡◌, ◌&&◌, not, Bool, true, false, Option, none, some, List, [], ◌∷◌, Text, any, includes, All,
  All-append, and_iff, arith, nat_eq, list_eq, ◌==◌, if-elim,
}
use ores_lib_core.EslintPlugin.Tree.{
  Node, Nodes, nil, cons, unwrap, truthy, qualified_name, is_delivered, is_known, is_found,
  inspect_chain,
}
use ores_lib_core.EslintPlugin.Scopes.{
  Options, levels_of, terminals_of, Pending, State, report, with_scopes, report_all, popped,
  pending_set, pending_has, pending_delete, set_innermost, mark_pending, clear_scopes,
  clear_pending, is_pending,
}
use ores_lib_core.EslintPlugin.Rule.{
  is_undelivered, clear_if_pending, clear_arguments, arguments_of, consume_terminal_use, Specifier,
  default_specifier, namespace_specifier, named_specifier, import_specifier, import_all, Event,
  variable_declarator, assignment_expression, expression_statement, add_logger,
}

-- A chain that reaches a level method, and no terminal method after it
abbrev pub IsLate : Options → Option Node → Type 0
IsLate options node =
    let chain = inspect_chain (levels_of options) node in
    (is_found chain.level_index ≡ true)
    × (is_delivered (terminals_of options) chain.methods chain.level_index ≡ false)

-- The event is at the node, with such a chain: the initial value of a declared variable, an assigned
-- value or a statement.
abbrev pub Offers : Options → ℕ → Event → Type 0
Offers options node (variable_declarator n name init) = (n ≡ node) × IsLate options init
Offers options node (assignment_expression n left right) = (n ≡ node) × IsLate options (some right)
Offers options node (expression_statement n expression) =
    (n ≡ node) × IsLate options (some expression)
Offers options node event = ⊥

not-eq-true : (b : Bool) → not b ≡ true → b ≡ false
not-eq-true b h = ground arith

pub undelivered-IsLate :
    (options : Options) (st : State) (node : Option Node)
    → is_undelivered options st (inspect_chain (levels_of options) node) ≡ true
    → IsLate options node
unfolding is_undelivered
undelivered-IsLate options st node h =
    let chain = inspect_chain (levels_of options) node in
    let known = is_known st.loggers (truthy chain.root) in
    let found = is_found chain.level_index in
    let (a, late) = (and_iff (known && found) _).0 h in
    let (b, level) = (and_iff known found).0 a in (level, not-eq-true _ late)

module _ (P : ℕ → Type 0) where
  abbrev pub IsScope : Pending → Type 0
  IsScope scope = All (λ (n, node). P node) scope

  abbrev pub IsKept : State → Type 0
  IsKept st = All IsScope st.scopes × All P st.reports

  pub report-IsKept : (node : ℕ) (st : State) → P node → IsKept st → IsKept (report node st)
  report-IsKept node st p (h, k) = (h, All-append P st.reports (node ∷ []) k (p, tt))

  report_all-IsKept :
      (scope : Pending) (st : State) → IsScope scope → IsKept st → IsKept (report_all scope st)
  unfolding report_all
  report_all-IsKept [] st s h = h
  report_all-IsKept ((n, node) ∷ rest) st (p, s) h =
      report_all-IsKept rest (report node st) s (report-IsKept node st p h)

  pub popped-IsKept :
      (scopes : List Pending) (st : State)
      → All IsScope scopes
      → IsKept st
      → IsKept (popped scopes st)
  popped-IsKept [] st s h = h
  popped-IsKept (scope ∷ scopes) st (a, s) (h, k) =
      report_all-IsKept scope (with_scopes scopes st) a (s, k)

  pending_set-IsScope :
      (name : Text) (node : ℕ) (scope : Pending)
      → P node
      → IsScope scope
      → IsScope (pending_set name node scope)
  unfolding pending_set
  pending_set-IsScope name node [] p h = (p, tt)
  pending_set-IsScope name node ((n, m) ∷ rest) p (q, h) =
      if-elim IsScope (n == name) ((n, node) ∷ rest) ((n, m) ∷ pending_set name node rest)
        (λ _. (p, h)) λ _. (q, pending_set-IsScope name node rest p h)

  set_innermost-All :
      (name : Text) (node : ℕ) (scopes : List Pending)
      → P node
      → All IsScope scopes
      → All IsScope (set_innermost name node scopes)
  set_innermost-All name node [] p h = tt
  set_innermost-All name node (scope ∷ scopes) p (a, h) =
      (pending_set-IsScope name node scope p a, h)

  pub mark_pending-IsKept :
      (name : Option Text) (node : ℕ) (st : State)
      → P node
      → IsKept st
      → IsKept (mark_pending name node st)
  mark_pending-IsKept none node st p h = h
  mark_pending-IsKept (some name) node st p (h, k) = (set_innermost-All name node st.scopes p h, k)

  pending_delete-IsScope :
      (name : Text) (scope : Pending) → IsScope scope → IsScope (pending_delete name scope)
  unfolding pending_delete
  pending_delete-IsScope name [] h = tt
  pending_delete-IsScope name ((n, m) ∷ rest) (q, h) =
      if-elim IsScope (n == name) rest ((n, m) ∷ pending_delete name rest) (λ _. h)
        λ _. (q, pending_delete-IsScope name rest h)

  clear_scopes-All :
      (name : Text) (scopes : List Pending)
      → All IsScope scopes
      → All IsScope (clear_scopes name scopes)
  unfolding clear_scopes
  clear_scopes-All name [] h = tt
  clear_scopes-All name (scope ∷ scopes) (a, h) =
      if-elim (All IsScope) (pending_has name scope) (pending_delete name scope ∷ scopes)
        (scope ∷ clear_scopes name scopes) (λ _. (pending_delete-IsScope name scope a, h))
        λ _. (a, clear_scopes-All name scopes h)

  pub clear_pending-IsKept :
      (name : Option Text) (st : State) → IsKept st → IsKept (clear_pending name st)
  clear_pending-IsKept none st h = h
  clear_pending-IsKept (some name) st (h, k) = (clear_scopes-All name st.scopes h, k)

  pub clear_if_pending-IsKept :
      (name : Option Text) (st : State) → IsKept st → IsKept (clear_if_pending name st)
  clear_if_pending-IsKept name st h =
      if-elim IsKept (is_pending name st) (clear_pending name st) st
        (λ _. clear_pending-IsKept name st h) (λ _. h)

  clear_arguments-IsKept :
      (args : Nodes) (st : State) → IsKept st → IsKept (clear_arguments args st)
  unfolding clear_arguments
  clear_arguments-IsKept nil st h = h
  clear_arguments-IsKept (cons arg args) st h =
      clear_arguments-IsKept args _ (clear_if_pending-IsKept (truthy (qualified_name arg)) st h)

  pub consume-IsKept :
      (options : Options) (node : Node) (st : State)
      → IsKept st
      → IsKept (consume_terminal_use options node st)
  unfolding consume_terminal_use
  consume-IsKept options node st h =
      let chain = inspect_chain (levels_of options) (some node) in
      clear_arguments-IsKept (arguments_of (unwrap node)) _ (
        if-elim IsKept (any (includes (terminals_of options)) chain.methods)
          (clear_pending (truthy chain.root) st) st
          (λ _. clear_pending-IsKept (truthy chain.root) st h) (λ _. h))

  import_specifier-IsKept :
      (s : Specifier) (st : State) → IsKept st → IsKept (import_specifier s st)
  unfolding import_specifier
  import_specifier-IsKept (default_specifier none) st h = h
  import_specifier-IsKept (default_specifier (some local)) st h = h
  import_specifier-IsKept (namespace_specifier none) st h = h
  import_specifier-IsKept (namespace_specifier (some local)) st h = h
  import_specifier-IsKept (named_specifier none imported) st h = h
  import_specifier-IsKept (named_specifier (some local) none) st h = h
  import_specifier-IsKept (named_specifier (some local) (some imported)) st h = h

  pub import_all-IsKept : (ss : List Specifier) (st : State) → IsKept st → IsKept (import_all ss st)
  unfolding import_all
  import_all-IsKept [] st h = h
  import_all-IsKept (s ∷ ss) st h = import_all-IsKept ss _ (import_specifier-IsKept s st h)

  pub add_logger-IsKept :
      (test : Bool) (name : Option Text) (st : State) → IsKept st → IsKept (add_logger test name st)
  add_logger-IsKept true (some name) st h = h
  add_logger-IsKept true none st h = h
  add_logger-IsKept false name st h = h
