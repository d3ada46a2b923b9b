-- ===== src/EslintPlugin/Tree.antt =====
-- plugin.mjs: the syntax trees as far as the rule looks at them, and the functions on them. The
-- parser of ESLint builds the trees.
use ores_lib_core.Base.{
  ℕ, zero, suc, ◌||◌, Bool, true, false, Option, none, some, List, [], ◌∷◌, ◌++◌, Text, text, any,
  drop, includes, starts_with, nat_eq, list_eq, ◌==◌, if◌then◌else◌,
}

-- `wrapper` is a ChainExpression, an AwaitExpression, a TSAsExpression, a TSTypeAssertion or a
-- TSNonNullExpression with what it wraps; `member` says whether it is computed; `other` is a node
-- that the rule does not look into.
mutual
  pub data Node : Type 0 where
    identifier : Text → Node
    this : Node
    literal : Text → Node
    wrapper : Node → Node
    unary : Text → Node → Node
    member : Bool → Node → Node → Node
    call : Node → Nodes → Node
    new_call : Node → Node
    other : Node

  pub data Nodes : Type 0 where
    nil : Nodes
    cons : Node → Nodes → Nodes

-- unwrap(node)
unfoldable pub unwrap : Node → Node
unwrap (wrapper node) = unwrap node
unwrap (unary operator node) =
    let inner = unwrap node in if operator == text "void" then inner else unary operator node
unwrap node = node

-- An empty string counts as no name.
abbrev pub truthy : Option Text → Option Text
truthy (some (c ∷ s)) = some (c ∷ s)
truthy _ = none

-- getPropertyName of a member expression
unfoldable pub property_name : Bool → Node → Option Text
property_name false (identifier name) = some name
property_name true (literal value) = some value
property_name computed property = none

abbrev pub dotted : Option Text → Option Text → Option Text
dotted (some object) (some property) = some (object ++ b'.' ∷ property)
dotted _ _ = none

-- getQualifiedName(node); the first two clauses unwrap it.
unfoldable pub qualified_name : Node → Option Text
qualified_name (wrapper node) = qualified_name node
qualified_name (unary operator node) =
    let inner = qualified_name node in if operator == text "void" then inner else none
qualified_name (identifier name) = some name
qualified_name this = some (text "this")
qualified_name (member computed object property) =
    dotted (truthy (qualified_name object)) (truthy (property_name computed property))
qualified_name _ = none

abbrev pub push : Option Text → Option Text × List Text → Option Text × List Text
push none (root, methods) = (root, methods)
push (some method) (root, methods) = (root, methods ++ method ∷ [])

-- collectCallChain: the root, and the methods from left to right
unfoldable mutual
  pub collect_call_chain : Node → Option Text × List Text
  collect_call_chain (wrapper node) = collect_call_chain node
  collect_call_chain (unary operator node) =
      let inner = collect_call_chain node in if operator == text "void" then inner else (none, [])
  collect_call_chain (call callee args) = collect_callee callee
  collect_call_chain node = (qualified_name node, [])

  pub collect_callee : Node → Option Text × List Text
  collect_callee (wrapper node) = collect_callee node
  collect_callee (unary operator node) =
      let inner = collect_callee node in if operator == text "void" then inner else (none, [])
  collect_callee (member computed object property) =
      push (truthy (property_name computed property)) (collect_call_chain object)
  collect_callee node = (qualified_name node, [])

-- isTrackedModule(source, moduleNames)
unfoldable pub is_tracked_module : Option Text → List Text → Bool
is_tracked_module none module_names = false
is_tracked_module (some source) module_names =
    any (λ name. source == name || starts_with source (name ++ b'/' ∷ [])) module_names

-- methods.findIndex(…)
unfoldable pub find_index : (Text → Bool) → List Text → Option ℕ
find_index p [] = none
find_index p (x ∷ xs) = if p x then some zero else raised (find_index p xs)
  where
    raised : Option ℕ → Option ℕ
    raised none = none
    raised (some n) = some (suc n)

pub record Chain : Type 0 where
  pub root : Option Text
  pub methods : List Text
  pub level_index : Option ℕ

-- The two labels of a chain that depend on sets of names.
abbrev pub is_delivered : List Text → List Text → Option ℕ → Bool
is_delivered terminals methods none = false
is_delivered terminals methods (some i) = any (includes terminals) (drop (suc i) methods)

abbrev pub is_known : List Text → Option Text → Bool
is_known names none = false
is_known names (some name) = includes names name

abbrev pub is_found : Option ℕ → Bool
is_found none = false
is_found (some i) = true

abbrev pub chain_of : List Text → Option Text × List Text → Chain
chain_of levels (root, methods) = record {
  root = root;
  methods = methods;
  level_index = find_index (includes levels) methods;
}

-- inspectChain(node, …): what does not depend on the loggers
unfoldable pub inspect_chain : List Text → Option Node → Chain
inspect_chain levels none = chain_of levels (none, [])
inspect_chain levels (some node) = chain_of levels (collect_call_chain node)
