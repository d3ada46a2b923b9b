-- ===== src/EslintPlugin/Scopes.antt =====
-- plugin.mjs: the options of ores/require-send, and the stack of scopes with its functions.
use ores_lib_core.Base.{
  ℕ, Bool, false, Option, none, some, List, [], ◌∷◌, ◌++◌, map, Text, text, any, includes, join,
  nat_eq, list_eq, ◌==◌, if◌then◌else◌,
}

-- LOGGER_EXPORTS, FACTORY_EXPORTS and CLASS_EXPORTS
unfoldable pub logger_exports : List Text
logger_exports =
    text "logger"
    ∷ text "browserLogger"
    ∷ text "edgeLogger"
    ∷ text "cloudflareWorkerLogger"
    ∷ text "nodeLogger"
    ∷ text "bunLogger"
    ∷ text "denoLogger"
    ∷ []

unfoldable pub factory_exports : List Text
factory_exports =
    text "createLogger"
    ∷ text "createBrowserLogger"
    ∷ text "createEdgeLogger"
    ∷ text "createCloudflareWorkerLogger"
    ∷ text "createNodeLogger"
    ∷ text "createBunLogger"
    ∷ text "createDenoLogger"
    ∷ []

unfoldable pub class_exports : List Text
class_exports =
    text "BaseLogger"
    ∷ text "BrowserLogger"
    ∷ text "EdgeLogger"
    ∷ text "CloudflareWorkerLogger"
    ∷ text "NodeLogger"
    ∷ text "BunLogger"
    ∷ text "DenoLogger"
    ∷ []

pub record Options : Type 0 where
  pub logger_names : List Text
  pub module_names : List Text
  pub level_methods : Option (List Text)
  pub terminal_methods : Option (List Text)

abbrev pub or_default : List Text → Option (List Text) → List Text
or_default names none = names
or_default names (some own) = own

-- DEFAULT_LEVEL_METHODS and DEFAULT_TERMINAL_METHODS
unfoldable pub levels_of : Options → List Text
levels_of options =
    or_default
      (text "trace"
        ∷ text "debug"
        ∷ text "info"
        ∷ text "log"
        ∷ text "warn"
        ∷ text "error"
        ∷ text "fatal"
        ∷ [])
      options.level_methods

unfoldable pub terminals_of : Options → List Text
terminals_of options =
    or_default (text "send" ∷ text "send_with_store" ∷ []) options.terminal_methods

unfoldable pub terminal_label : Options → Text
terminal_label options =
    join (text " or ") (map (λ m. text "." ++ m ++ text "()") (terminals_of options))

-- A map from names to nodes
abbrev pub Pending : Type 0
Pending = List (Text × ℕ)

-- `scopes` is the stack, the innermost scope first; `reports` are the nodes reported so far.
pub record State : Type 0 where
  pub loggers : List Text
  pub factories : List Text
  pub classes : List Text
  pub scopes : List Pending
  pub reports : List ℕ

unfoldable pub initial : Options → State
initial options = record {
  loggers = text "log" ∷ text "logger" ∷ text "ddlog" ∷ options.logger_names;
  factories = [];
  classes = [];
  scopes = [];
  reports = [];
}

abbrev pub with_scopes : List Pending → State → State
with_scopes scopes st = record st { scopes = scopes }

abbrev pub report : ℕ → State → State
report node st = record st { reports = st.reports ++ node ∷ [] }

-- set.add(name)
abbrev pub add : Text → List Text → List Text
add name names = if includes names name then names else names ++ name ∷ []

abbrev pub enter_scope : State → State
enter_scope st = with_scopes ([] ∷ st.scopes) st

unfoldable pub report_all : Pending → State → State
report_all [] st = st
report_all ((name, node) ∷ rest) st = report_all rest (report node st)

abbrev pub popped : List Pending → State → State
popped [] st = st
popped (scope ∷ scopes) st = report_all scope (with_scopes scopes st)

-- exitScope
unfoldable pub exit_scope : State → State
exit_scope st = popped st.scopes st

unfoldable pub pending_set : Text → ℕ → Pending → Pending
pending_set name node [] = (name, node) ∷ []
pending_set name node ((n, m) ∷ rest) =
    let later = pending_set name node rest in if n == name then (n, node) ∷ rest else (n, m) ∷ later

unfoldable pub pending_has : Text → Pending → Bool
pending_has name scope = any (λ (n, m). n == name) scope

unfoldable pub pending_delete : Text → Pending → Pending
pending_delete name [] = []
pending_delete name ((n, m) ∷ rest) =
    let later = pending_delete name rest in if n == name then rest else (n, m) ∷ later

abbrev pub set_innermost : Text → ℕ → List Pending → List Pending
set_innermost name node [] = []
set_innermost name node (scope ∷ scopes) = pending_set name node scope ∷ scopes

-- markPending
abbrev pub mark_pending : Option Text → ℕ → State → State
mark_pending none node st = st
mark_pending (some name) node st = with_scopes (set_innermost name node st.scopes) st

unfoldable pub clear_scopes : Text → List Pending → List Pending
clear_scopes name [] = []
clear_scopes name (scope ∷ scopes) =
    let outer = clear_scopes name scopes in
    if pending_has name scope then pending_delete name scope ∷ scopes else scope ∷ outer

-- clearPending
abbrev pub clear_pending : Option Text → State → State
clear_pending none st = st
clear_pending (some name) st = with_scopes (clear_scopes name st.scopes) st

-- isPending
abbrev pub is_pending : Option Text → State → Bool
is_pending none st = false
is_pending (some name) st = any (pending_has name) st.scopes
