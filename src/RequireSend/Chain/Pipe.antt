-- ===== src/RequireSend/Chain/Pipe.antt =====
-- require-send.mjs: walkGleamPipe, and the looks at the tokens around a chain.
use ores_lib_core.Base.{
  ℕ, zero, suc, ◌+◌, ◌&&◌, Bool, true, Option, none, some, List, [], ◌∷◌, ◌++◌, Text, text, nat_eq,
  list_eq, ◌==◌, length, if◌then◌else◌,
}
use ores_lib_core.RequireSend.{is_terminal, base_name}
use ores_lib_core.RequireSend.Token.{Token, ident, pipe, arrow, eq, semi, lparen}
use ores_lib_core.RequireSend.Chain.{
  has_kind, before, has_before_kind, value_or_empty, value_at, line_at, has_member, qualified_name,
  skip_parens,
}

-- To the end of a dotted name.
unfoldable pub skip_dotted : List Token → ℕ → ℕ → ℕ
skip_dotted tokens zero i = i
skip_dotted tokens (suc fuel) i =
    let rest = skip_dotted tokens fuel (i + 2) in if has_member tokens i then rest else i

abbrev pub dotted_end : List Token → ℕ → ℕ
dotted_end tokens i = skip_dotted tokens (length tokens) i

-- Past the arguments of a call, if there are any.
abbrev pub skip_call : List Token → ℕ → ℕ
skip_call tokens i = if has_kind tokens (i + 1) lparen then skip_parens tokens (i + 1) else i

-- The loop over the steps of a pipe: the methods so far, and the index.
unfoldable pub pipe_steps : List Token → ℕ → List Text → ℕ → List Text × ℕ
pipe_steps tokens zero methods i = (methods, i)
pipe_steps tokens (suc fuel) methods i =
    let step = dotted_end tokens (i + 2) in
    let rest =
      pipe_steps tokens fuel (methods ++ value_at tokens step ∷ []) (skip_call tokens step) in
    if has_kind tokens (i + 1) pipe
    then (if has_kind tokens (i + 2) ident then rest else (methods, i + 1))
    else (methods, i)

pub record Pipe : Type 0 where
  pub callee : Text
  pub methods : List Text
  pub end : ℕ
  pub line : ℕ

-- A name without arguments: a bare `|> send`.
abbrev pub bare_pipe : List Token → ℕ → ℕ → Text → Option Pipe
bare_pipe tokens head i callee =
    if is_terminal (base_name callee) && has_before_kind tokens head 1 pipe
    then some record {
      callee = callee;
      methods = base_name callee ∷ [];
      end = i;
      line = line_at tokens head;
    }
    else none

abbrev pub called_pipe : List Token → ℕ → ℕ → Text → Pipe
called_pipe tokens head i callee =
    let (methods, end) =
      pipe_steps tokens (length tokens) (base_name callee ∷ []) (skip_parens tokens (i + 1)) in
    record { callee = callee; methods = methods; end = end; line = line_at tokens head }

unfoldable pub walk_gleam_pipe : List Token → ℕ → Option Pipe
walk_gleam_pipe tokens start =
    let head = (qualified_name tokens start).1 in
    let i = dotted_end tokens start in
    let callee = (qualified_name tokens i).0 in
    if has_kind tokens start ident
    then (if has_kind tokens (i + 1) lparen
        then some (called_pipe tokens head i callee)
        else bare_pipe tokens head i callee)
    else none

-- The tests of the word before the name do not change what is returned.
unfoldable pub preceding_assignment : List Token → ℕ → Option Text
preceding_assignment tokens start =
    if has_before_kind tokens start 1 eq && has_before_kind tokens start 2 ident
    then some (value_or_empty (before tokens start 2))
    else none

unfoldable pub is_returnish : List Token → ℕ → Bool
is_returnish tokens start =
    if has_before_kind tokens start 1 arrow
    then true
    else has_before_kind tokens start 1 ident
      && value_or_empty (before tokens start 1) == text "return"

unfoldable pub next_non_chain_is_semi : List Token → ℕ → Bool
next_non_chain_is_semi tokens end = has_kind tokens (end + 1) semi
