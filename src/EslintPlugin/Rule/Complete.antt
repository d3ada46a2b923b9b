-- ===== src/EslintPlugin/Rule/Complete.antt =====
-- plugin.mjs: ores/require-send reports what it is to report.
use ores_lib_core.Base.{
  ℕ, ◌≡◌, refl, inl, inr, Bool, true, false, Option, none, some, List, [], ◌∷◌, ◌++◌, Text,
  includes, In, includes_iff, In-append, arith, nat_eq, list_eq, if-elim, subst,
}
use ores_lib_core.EslintPlugin.Tree.{Node, truthy, is_known, inspect_chain}
use ores_lib_core.EslintPlugin.Scopes.{Options, levels_of, State, initial, add, report}
use ores_lib_core.EslintPlugin.Rule.{
  is_undelivered, consume_terminal_use, Event, expression_statement, express, visit, visit_all,
  reported,
}
use ores_lib_core.EslintPlugin.Rule.Laws.{IsLate}
use ores_lib_core.EslintPlugin.Rule.Grow.{visit-Persists, visit_all-Persists}

is_known-add :
    (root : Option Text) (x : Text) (xs : List Text)
    → is_known xs root ≡ true
    → is_known (add x xs) root ≡ true
is_known-add none x xs h = h
is_known-add (some name) x xs h =
    if-elim (λ names. includes names name ≡ true) (includes xs x) xs (xs ++ x ∷ []) (λ _. h)
      (λ _.
        (includes_iff (xs ++ x ∷ []) name).1
          ((In-append name xs (x ∷ [])).1 (inl ((includes_iff xs name).0 h))))

In-one_report : (node n : ℕ) (ns : List ℕ) → In node ns → In node (ns ++ n ∷ [])
In-one_report node n ns i = (In-append node ns (n ∷ [])).1 (inl i)

In-last : (node : ℕ) (ns : List ℕ) → In node (ns ++ node ∷ [])
In-last node ns = (In-append node ns (node ∷ [])).1 (inr (inl refl))

IsLate-undelivered :
    (options : Options) (st : State) (tree : Option Node)
    → IsLate options tree
    → is_known st.loggers (truthy (inspect_chain (levels_of options) tree).root) ≡ true
    → is_undelivered options st (inspect_chain (levels_of options) tree) ≡ true
unfolding is_undelivered
IsLate-undelivered options st tree (found, late) known = ground arith

not-both : (b : Bool) → b ≡ true → b ≡ false → ⊥
not-both b t f = ground arith

module _ (options : Options) (node : ℕ) (expression : Node)
    (late : IsLate options (some expression)) where
  -- The state knows the root of the chain as a logger.
  abbrev Knows : List Text → Type 0
  Knows loggers =
      is_known loggers (truthy (inspect_chain (levels_of options) (some expression)).root) ≡ true

  express-In :
      (st : State)
      → Knows st.loggers
      → In node (visit options (expression_statement node expression) st).reports
  unfolding visit express
  express-In st known =
      if-elim (λ s. In node s.reports)
        (is_undelivered options st (inspect_chain (levels_of options) (some expression)))
        (report node st) (consume_terminal_use options expression st) (λ _. In-last node st.reports)
        (λ f. absurd (not-both _ (IsLate-undelivered options st (some expression) late known) f))

  visit_all-In :
      (events : List Event) (st : State)
      → In (expression_statement node expression) events
      → Knows st.loggers
      → In node (visit_all options events st).reports
  unfolding visit_all
  visit_all-In [] st i known = absurd i
  visit_all-In (e ∷ es) st i known = elim i [
    | inl eq ↦
        visit_all-Persists (λ xs ns. In node ns) (λ x xs ns h. h)
          (λ n xs ns. In-one_report node n ns) options es (visit options e st)
          (subst (λ event. In node (visit options event st).reports) eq (express-In st known))
    | inr j ↦ visit_all-In es (visit options e st) j (
        visit-Persists (λ xs ns. Knows xs) (λ x xs ns. is_known-add _ x xs) (λ n xs ns h. h) options
          e st known)
  ]

-- A statement whose chain has one of the names of loggers set at the start as its root, and reaches
-- a level method and no terminal method after it, is reported, whatever else the walk has.
pub In-reported :
    (options : Options) (events : List Event) (node : ℕ) (expression : Node)
    → In (expression_statement node expression) events
    → IsLate options (some expression)
    → is_known
        (initial options).loggers
        (truthy (inspect_chain (levels_of options) (some expression)).root)
      ≡ true
    → In node (reported options events)
unfolding reported
In-reported options events node expression i late known =
    visit_all-In options node expression late events (initial options) i known
