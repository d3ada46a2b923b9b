-- ===== src/RequireSend/Scopes.antt =====
-- require-send.mjs: the findings, the stack of scopes of analyzeSource, the innermost first, and
-- the functions that it closes over them.
pub mod Laws
use ores_lib_core.Base.{
  ℕ, zero, suc, ◌+◌, ◌-◌, ◌&&◌, ◌||◌, not, Bool, true, false, Option, none, some, List, [], ◌∷◌,
  ◌++◌, Text, text, StrictEq, nat_eq, list_eq, ◌==◌, leb, ltb, length, get_elem?, any, map,
  if◌then◌else◌,
}
use ores_lib_core.RequireSend.Suppress.{Suppressions, is_disabled}

pub record Finding : Type 0 where
  pub line : ℕ
  pub col : ℕ
  pub message : Text

abbrev pub Scope : Type 0
Scope = List (Text × Finding)

pub record State : Type 0 where
  pub scopes : List Scope
  pub findings : List Finding

-- map.set(name, finding)
unfoldable pub scope_set : Text → Finding → Scope → Scope
scope_set name finding [] = (name, finding) ∷ []
scope_set name finding ((n, f) ∷ rest) =
    let later = scope_set name finding rest in
    if n == name then (n, finding) ∷ rest else (n, f) ∷ later

unfoldable pub scope_has : Text → Scope → Bool
scope_has name scope = any (λ (n, f). n == name) scope

-- map.delete(name)
unfoldable pub scope_delete : Text → Scope → Scope
scope_delete name [] = []
scope_delete name ((n, f) ∷ rest) =
    let later = scope_delete name rest in if n == name then rest else (n, f) ∷ later

abbrev pub set_current : Text → Finding → List Scope → List Scope
set_current name finding [] = []
set_current name finding (scope ∷ scopes) = scope_set name finding scope ∷ scopes

-- mark
abbrev pub mark : Text → Finding → State → State
mark [] finding st = st
mark (c ∷ name) finding st = record {
  scopes = set_current (c ∷ name) finding st.scopes;
  findings = st.findings;
}

-- The loop of clear: the innermost scope that has the name.
unfoldable pub clear_scopes : Text → List Scope → List Scope
clear_scopes name [] = []
clear_scopes name (scope ∷ scopes) =
    let outer = clear_scopes name scopes in
    if scope_has name scope then scope_delete name scope ∷ scopes else scope ∷ outer

abbrev pub clear : Text → State → State
clear [] st = st
clear (c ∷ name) st = record { scopes = clear_scopes (c ∷ name) st.scopes; findings = st.findings }

unfoldable pub report : Suppressions → Finding → State → State
report sup finding st =
    if is_disabled sup finding.line
    then st
    else record { scopes = st.scopes; findings = st.findings ++ finding ∷ [] }

unfoldable pub flush_scope : Suppressions → Scope → State → State
flush_scope sup [] st = st
flush_scope sup ((name, finding) ∷ rest) st = flush_scope sup rest (report sup finding st)

abbrev pub open_scope : State → State
open_scope st = record { scopes = [] ∷ st.scopes; findings = st.findings }

-- The outermost scope stays.
abbrev pub pop_scope : Suppressions → List Scope → State → State
pop_scope sup (scope ∷ outer ∷ scopes) st =
    flush_scope sup scope (record { scopes = outer ∷ scopes; findings = st.findings })
pop_scope sup _ st = st

abbrev pub close_scope : Suppressions → State → State
close_scope sup st = pop_scope sup st.scopes st

unfoldable pub flush_scopes : Suppressions → List Scope → List Finding → List Finding
flush_scopes sup [] findings = findings
flush_scopes sup (scope ∷ scopes) findings =
    flush_scopes sup scopes
      (flush_scope sup scope (record { scopes = scopes; findings = findings })).findings
