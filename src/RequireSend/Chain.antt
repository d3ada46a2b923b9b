-- ===== src/RequireSend/Chain.antt =====
-- require-send.mjs: the walks over the tokens. A token out of range is `none`; an index to the left
-- of the first token is written as a distance.
pub mod Pipe
pub mod Laws
pub mod Brackets
pub mod Progress
use ores_lib_core.Base.{
  ℕ, zero, suc, ◌+◌, ◌-◌, ◌&&◌, ◌||◌, not, Bool, true, false, Option, none, some, List, [], ◌∷◌,
  ◌++◌, Text, text, nat_eq, ◌==◌, ltb, leb, length, get_elem?, drop, any, if◌then◌else◌,
}
use ores_lib_core.Js.{ℤ, pos, negsuc}
use ores_lib_core.RequireSend.{is_level, is_terminal, base_name}
use ores_lib_core.RequireSend.Token.{
  Kind, Token, kind_eq, ident, dot, pipe, arrow, eq, semi, comma, lparen, rparen, lbracket,
  rbracket, lbrace, rbrace,
}

-- tokens[i]?.type === kind
abbrev pub is_kind : Kind → Option Token → Bool
is_kind kind none = false
is_kind kind (some t) = t.kind == kind

abbrev pub has_kind : List Token → ℕ → Kind → Bool
has_kind tokens i kind = is_kind kind (get_elem? tokens i)

-- tokens[i - back], which is undefined if the index is negative
abbrev pub before : List Token → ℕ → ℕ → Option Token
before tokens i back = if ltb i back then none else get_elem? tokens (i - back)

abbrev pub has_before_kind : List Token → ℕ → ℕ → Kind → Bool
has_before_kind tokens i back kind = is_kind kind (before tokens i back)

abbrev pub value_or_empty : Option Token → Text
value_or_empty none = []
value_or_empty (some t) = t.value

abbrev pub line_or_zero : Option Token → ℕ
line_or_zero none = 0
line_or_zero (some t) = t.line

abbrev pub value_at : List Token → ℕ → Text
value_at tokens i = value_or_empty (get_elem? tokens i)

abbrev pub line_at : List Token → ℕ → ℕ
line_at tokens i = line_or_zero (get_elem? tokens i)

abbrev pub deeper : ℤ → ℤ
deeper (pos n) = pos (suc n)
deeper (negsuc zero) = pos 0
deeper (negsuc (suc n)) = negsuc n

abbrev pub shallower : ℤ → ℤ
shallower (pos (suc n)) = pos n
shallower (pos zero) = negsuc 0
shallower (negsuc n) = negsuc (suc n)

abbrev pub is_zero : ℤ → Bool
is_zero (pos zero) = true
is_zero _ = false

-- The depth after a token: an opening one is tested first.
abbrev pub depth_after : Kind → Kind → Kind → ℤ → ℤ
depth_after opener closer kind depth =
    if kind == opener then deeper depth else if kind == closer then shallower depth else depth

abbrev pub one_more : Option ℕ → Option ℕ
one_more none = none
one_more (some n) = some (suc n)

-- The loop of skipBalanced: how many tokens of the rest come before the one that closes.
unfoldable pub closing : Kind → Kind → ℤ → List Token → Option ℕ
closing opener closer depth [] = none
closing opener closer depth (t ∷ ts) =
    let after = depth_after opener closer t.kind depth in
    let rest = closing opener closer after ts in
    if not (t.kind == opener) && t.kind == closer && is_zero after then some 0 else one_more rest

abbrev pub closed_at : ℕ → ℕ → Option ℕ → ℕ
closed_at start count none = count - 1
closed_at start count (some n) = start + n

-- On no tokens at all the code returns -1 and this 0; each caller has found a token.
unfoldable pub skip_balanced : List Token → ℕ → Kind → Kind → ℕ
skip_balanced tokens start opener closer =
    closed_at start (length tokens) (closing opener closer (pos 0) (drop start tokens))

abbrev pub skip_parens : List Token → ℕ → ℕ
skip_parens tokens start = skip_balanced tokens start lparen rparen

-- The name that is read to the left of an index, and where it starts.
unfoldable pub qualified_from : List Token → ℕ → Text → Text × ℕ
qualified_from tokens zero name = (name, 0)
qualified_from tokens (suc zero) name = (name, 1)
qualified_from tokens (suc (suc i)) name =
    let longer = qualified_from tokens i (value_at tokens i ++ b'.' ∷ name) in
    if has_kind tokens (i + 1) dot && has_kind tokens i ident then longer else (name, i + 2)

unfoldable pub qualified_name : List Token → ℕ → Text × ℕ
qualified_name tokens index =
    if has_kind tokens index ident
    then qualified_from tokens index (value_at tokens index)
    else ([], index)

abbrev pub is_opening : Kind → Bool
is_opening kind = kind == lparen || kind == lbracket || kind == lbrace

abbrev pub is_closing : Kind → Bool
is_closing kind = kind == rparen || kind == rbracket || kind == rbrace

-- The loop of countTopLevelArgs. It starts at an opening token, so `depth` is positive after it.
unfoldable pub args_from : ℕ → ℕ → Bool → List Token → ℕ
args_from depth args seen [] = if seen then args + 1 else 0
args_from depth args seen (t ∷ ts) =
    let opened = args_from (depth + 1) args seen ts in
    let closed = args_from (depth - 1) args seen ts in
    let comma_seen = args_from depth (args + 1) seen ts in
    let other = args_from depth args true ts in
    let same = args_from depth args seen ts in
    if is_opening t.kind
    then opened
    else if is_closing t.kind
    then (if depth == 1 then (if seen then args + 1 else 0) else closed)
    else if depth == 1 && t.kind == comma
    then comma_seen
    else if depth == 1 && not (t.kind == comma)
    then other
    else same

unfoldable pub count_top_level_args : List Token → ℕ → ℕ
count_top_level_args tokens lparen_index =
    if has_kind tokens lparen_index lparen
    then args_from 0 0 false (drop lparen_index tokens)
    else 0

-- A dot and a name after the index.
abbrev pub has_member : List Token → ℕ → Bool
has_member tokens i = has_kind tokens (i + 1) dot && has_kind tokens (i + 2) ident

-- The first loop of walkMethodChain; each round of the loops of this file moves the index up, so
-- the number of tokens is fuel enough.
unfoldable pub skip_fields : List Token → ℕ → ℕ → ℕ
skip_fields tokens zero i = i
skip_fields tokens (suc fuel) i =
    let rest = skip_fields tokens fuel (i + 2) in
    if has_member tokens i && not (has_kind tokens (i + 3) lparen)
    then (if is_level (value_at tokens (i + 2)) || is_terminal (value_at tokens (i + 2))
        then i
        else rest)
    else i

pub record Walk : Type 0 where
  pub methods : List Text
  pub end : ℕ
  pub first_arg_count : ℕ

-- A round of the second loop.
unfoldable pub walk_call : List Token → Walk → Walk
walk_call tokens w =
    let i = w.end + 2 in
    let methods = w.methods ++ value_at tokens i ∷ [] in
    if has_kind tokens (i + 1) lparen
    then record {
      methods = methods;
      end = skip_parens tokens (i + 1);
      first_arg_count =
          if length methods == 1 then count_top_level_args tokens (i + 1) else w.first_arg_count;
    }
    else record { methods = methods; end = i; first_arg_count = w.first_arg_count }

unfoldable pub walk_calls : List Token → ℕ → Walk → Walk
walk_calls tokens zero w = w
walk_calls tokens (suc fuel) w =
    let rest = walk_calls tokens fuel (walk_call tokens w) in
    if has_member tokens w.end then rest else w

pub record Chain : Type 0 where
  pub root : Text
  pub methods : List Text
  pub end : ℕ
  pub line : ℕ
  pub first_arg_count : ℕ

abbrev pub chain_of : Text → ℕ → Walk → Chain
chain_of root line w = record {
  root = root;
  methods = w.methods;
  end = w.end;
  line = line;
  first_arg_count = w.first_arg_count;
}

unfoldable pub walk_method_chain : List Token → ℕ → Option Chain
walk_method_chain tokens start =
    let i = skip_fields tokens (length tokens) start in
    if has_kind tokens start ident
    then some (
        chain_of (qualified_name tokens i).0 (line_at tokens start) (
          walk_calls tokens (length tokens)
            (record { methods = []; end = i; first_arg_count = 0 })))
    else none
