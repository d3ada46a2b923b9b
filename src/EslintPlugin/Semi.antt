-- ===== src/EslintPlugin/Semi.antt =====
-- plugin.mjs: the callbacks of ores/semi.
use ores_lib_core.Base.{
  ◌&&◌, ◌||◌, not, Bool, false, Option, none, some, List, [], ◌∷◌, Text, text, includes, nat_eq,
  list_eq, ◌==◌, if◌then◌else◌,
}

-- NEEDS_SEMI
unfoldable pub needs_semi : List Text
needs_semi =
    text "ExpressionStatement"
    ∷ text "ReturnStatement"
    ∷ text "ThrowStatement"
    ∷ text "BreakStatement"
    ∷ text "ContinueStatement"
    ∷ text "DebuggerStatement"
    ∷ text "DoWhileStatement"
    ∷ text "ImportDeclaration"
    ∷ text "ExportAllDeclaration"
    ∷ text "PropertyDefinition"
    ∷ text "TSTypeAliasDeclaration"
    ∷ text "TSDeclareFunction"
    ∷ text "TSImportEqualsDeclaration"
    ∷ []

-- A node as the rule looks at it: its type, its last token (whether it is a punctuator, and its
-- text), the type of the declaration it exports, and its parent (the type, whether the node is its
-- `init`, and whether it is its `left`).
pub record Statement : Type 0 where
  pub type : Text
  pub last_token : Option (Bool × Text)
  pub declaration : Option Text
  pub parent : Option (Text × Bool × Bool)

-- check(node): whether it is reported, with a semicolon to insert after the last token
unfoldable pub check : Option (Bool × Text) → Bool
check none = false
check (some (is_punctuator, value)) = not (is_punctuator && value == text ";")

abbrev pub is_loop_head : Option (Text × Bool × Bool) → Bool
is_loop_head none = false
is_loop_head (some (type, is_init, is_left)) =
    (type == text "ForStatement" && is_init)
    || ((type == text "ForInStatement" || type == text "ForOfStatement") && is_left)

unfoldable pub plain_exports : List Text
plain_exports =
    text "FunctionDeclaration"
    ∷ text "ClassDeclaration"
    ∷ text "TSInterfaceDeclaration"
    ∷ text "TSEnumDeclaration"
    ∷ text "TSModuleDeclaration"
    ∷ []

abbrev pub is_plain_export : Option Text → Bool
is_plain_export none = false
is_plain_export (some type) = includes plain_exports type

-- The handler of a type of node, if there is one
unfoldable pub reports_semi : Statement → Bool
reports_semi node =
    if node.type == text "VariableDeclaration"
    then not (is_loop_head node.parent) && check node.last_token
    else if node.type == text "ExportNamedDeclaration"
        || node.type == text "ExportDefaultDeclaration"
    then not (is_plain_export node.declaration) && check node.last_token
    else includes needs_semi node.type && check node.last_token
