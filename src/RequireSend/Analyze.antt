-- ===== src/RequireSend/Analyze.antt =====
-- require-send.mjs: analyzeSource, the loop over the tokens.
pub mod Laws
pub mod Run
use ores_lib_core.Base.{
  ℕ, zero, suc, ◌+◌, ◌-◌, ◌&&◌, ◌||◌, not, Bool, true, false, Option, none, some, List, [], ◌∷◌,
  ◌++◌, Text, text, StrictEq, nat_eq, list_eq, ◌==◌, leb, ltb, length, get_elem?, any, map,
  if◌then◌else◌,
}
use ores_lib_core.RequireSend.{is_level, is_terminal, looks_like_logger}
use ores_lib_core.RequireSend.Token.{
  Token, ident, dot, pipe, comma, lparen, lbrace, rbrace, kind_eq, tokenize,
}
use ores_lib_core.RequireSend.Suppress.{Suppressions, collect_suppressions}
use ores_lib_core.RequireSend.Scopes.{
  Finding, State, mark, clear, report, open_scope, close_scope, flush_scopes,
}
use ores_lib_core.RequireSend.Chain.{
  has_kind, before, has_before_kind, is_kind, value_or_empty, value_at, Chain, qualified_name,
  walk_method_chain,
}
use ores_lib_core.RequireSend.Chain.Pipe.{
  Pipe, walk_gleam_pipe, preceding_assignment, is_returnish, next_non_chain_is_semi,
}

pub data Language : Type 0 where
  gleam : Language
  dart : Language
  rust : Language

-- `name.send(…)` and `send(name)`
unfoldable pub clear_sent : List Token → ℕ → State → State
clear_sent tokens i st =
    let receiver =
      if has_before_kind tokens i 1 dot && has_before_kind tokens i 2 ident
      then clear (qualified_name tokens (i - 2)).0 st
      else st in
    if has_kind tokens (i + 1) lparen && has_kind tokens (i + 2) ident
    then clear (value_at tokens (i + 2)) receiver
    else receiver

unfoldable pub finding_at : ℕ → ℕ → Finding
finding_at line col = record {
  line = line;
  col = col;
  message = text "logging chain never calls send()";
}

-- An undelivered chain: it waits under the name it is assigned to, is handed off, or is reported.
abbrev pub settle : Suppressions → Option Text → Bool → Finding → State → State
settle sup (some (c ∷ name)) handed_off finding st = mark (c ∷ name) finding st
settle sup _ handed_off finding st = if handed_off then st else report sup finding st

abbrev pub is_argument : List Token → ℕ → Bool
is_argument tokens start =
    has_before_kind tokens start 1 lparen || has_before_kind tokens start 1 comma

abbrev pub settle_pipe : Suppressions → List Token → ℕ → Token → Pipe → State → State
settle_pipe sup tokens start tok walked st =
    settle sup (preceding_assignment tokens start)
      (is_returnish tokens start
        || is_argument tokens start
        || has_kind tokens (walked.end + 1) rbrace)
      (finding_at walked.line tok.col) st

abbrev pub judge_pipe : Suppressions → List Token → ℕ → ℕ → Token → Option Pipe → State → State × ℕ
judge_pipe sup tokens i start tok none st = (st, i)
judge_pipe sup tokens i start tok (some walked) st =
    if not (any is_level walked.methods)
    then (st, i)
    else if any is_terminal walked.methods
    then (st, walked.end)
    else (settle_pipe sup tokens start tok walked st, walked.end)

-- The branch of Gleam, at a name.
unfoldable pub visit_gleam : Suppressions → List Token → ℕ → Token → State → State × ℕ
visit_gleam sup tokens i tok st =
    let start = (qualified_name tokens i).1 in
    if not (is_level tok.value)
    then (st, i)
    else if has_before_kind tokens i 1 ident && value_or_empty (before tokens i 1) == text "fn"
    then (st, i)
    else if not (has_kind tokens (i + 1) lparen) && not (has_before_kind tokens start 1 pipe)
    then (st, i)
    else judge_pipe sup tokens i start tok (walk_gleam_pipe tokens start) st

-- The loop of rootIndex, from the distance of two.
unfoldable pub root_index : List Token → ℕ → ℕ
root_index tokens (suc (suc i)) =
    let further = root_index tokens i in
    if has_kind tokens (i + 2) ident && has_kind tokens (i + 1) dot && has_kind tokens i ident
    then further
    else i + 2
root_index tokens i = i

abbrev pub is_rust : Language → Bool
is_rust rust = true
is_rust _ = false

abbrev pub is_logger_root : Text → Bool
is_logger_root root = looks_like_logger root || root == text "self" || root == text "this"

abbrev pub settle_chain : Suppressions → Language → List Token → ℕ → ℕ → Chain → State → State
settle_chain sup language tokens start col chain st =
    settle sup (preceding_assignment tokens start)
      (is_returnish tokens start
        || is_argument tokens start
        || (is_rust language && not (next_non_chain_is_semi tokens chain.end)))
      (finding_at chain.line col) st

abbrev pub col_or_zero : Option Token → ℕ
col_or_zero none = 0
col_or_zero (some t) = t.col

abbrev pub judge_chain :
    Suppressions → Language → List Token → ℕ → ℕ → Option Chain → State → State × ℕ
judge_chain sup language tokens i start none st = (st, i)
judge_chain sup language tokens i start (some chain) st =
    if not (is_logger_root chain.root)
    then (st, i)
    else if not (any is_level chain.methods)
    then (st, i)
    else if any is_terminal chain.methods
    then (st, chain.end)
    else if length chain.methods == 1 && leb 3 chain.first_arg_count
    then (st, chain.end)
    else (
      settle_chain sup language tokens start (col_or_zero (get_elem? tokens start)) chain st,
      chain.end,
    )

-- The branch of Rust and Dart, at a name.
unfoldable pub visit_dotted : Suppressions → Language → List Token → ℕ → Token → State → State × ℕ
visit_dotted sup language tokens i tok st =
    let start = root_index tokens (i - 2) in
    if is_level tok.value && has_before_kind tokens i 1 dot && has_kind tokens (i + 1) lparen
    then (if leb 2 i && has_kind tokens start ident
        then judge_chain sup language tokens i start (walk_method_chain tokens start) st
        else (st, i))
    else (st, i)

abbrev pub visit_name : Suppressions → Language → List Token → ℕ → Token → State → State × ℕ
visit_name sup gleam tokens i tok st = visit_gleam sup tokens i tok st
visit_name sup language tokens i tok st = visit_dotted sup language tokens i tok st

-- The body of the loop at the index `i`: the state, and the index that the loop counts up from.
unfoldable pub visit_token : Suppressions → Language → List Token → ℕ → Token → State → State × ℕ
visit_token sup language tokens i tok st =
    let cleared = if is_terminal tok.value then clear_sent tokens i st else st in
    if tok.kind == lbrace
    then (open_scope st, i)
    else if tok.kind == rbrace
    then (close_scope sup st, i)
    else if not (tok.kind == ident)
    then (st, i)
    else visit_name sup language tokens i tok cleared

abbrev pub visit_present :
    Suppressions → Language → List Token → ℕ → Option Token → State → State × ℕ
visit_present sup language tokens i none st = (st, i)
visit_present sup language tokens i (some tok) st = visit_token sup language tokens i tok st

abbrev pub visit : Suppressions → Language → List Token → ℕ → State → State × ℕ
visit sup language tokens i st = visit_present sup language tokens i (get_elem? tokens i) st

-- The loop, `none` if the rounds do not suffice.
unfoldable pub visit_from : Suppressions → Language → List Token → ℕ → ℕ → State → Option State
visit_from sup language tokens zero i st = if leb (length tokens) i then some st else none
visit_from sup language tokens (suc fuel) i st =
    let (after, last) = visit sup language tokens i st in
    let rest = visit_from sup language tokens fuel (last + 1) after in
    if ltb i (length tokens) then rest else some st

abbrev pub initial : State
initial = record { scopes = [] ∷ []; findings = [] }

-- The scopes that are left are flushed from the innermost.
abbrev pub finish : Suppressions → Option State → Option (List Finding)
finish sup none = none
finish sup (some st) = some (flush_scopes sup st.scopes st.findings)

unfoldable pub analyze_source : Text → Language → Option (List Finding)
analyze_source source language =
    let sup = collect_suppressions source in
    let tokens = tokenize source in
    finish sup (visit_from sup language tokens (length tokens) 0 initial)
