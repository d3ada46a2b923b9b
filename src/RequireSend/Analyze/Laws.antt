-- ===== src/RequireSend/Analyze/Laws.antt =====
-- analyzeSource: what becomes of a chain that is not delivered.
use ores_lib_core.Base.{
  ℕ, suc, ◌+◌, ◌-◌, ◌||◌, ◌≤◌, ◌≡◌, refl, inl, inr, ◌&&◌, not, Bool, true, false, Option, none,
  some, List, [], ◌∷◌, Text, length, get_elem?, any, nat_eq, list_eq, ◌==◌, leb, ltb, arith,
  Bool-cases, if-elim, if◌then◌else◌, ap,
}
use ores_lib_core.RequireSend.{is_level, is_terminal}
use ores_lib_core.RequireSend.Token.{Kind, Token, dot, pipe, lparen, kind_eq}
use ores_lib_core.RequireSend.Suppress.{Suppressions}
use ores_lib_core.RequireSend.Scopes.{Finding, State, report}
use ores_lib_core.RequireSend.Scopes.Laws.{IsKept, mark-IsKept, report-IsKept}
use ores_lib_core.RequireSend.Chain.{
  has_kind, has_before_kind, is_kind, Chain, qualified_name, walk_method_chain,
}
use ores_lib_core.RequireSend.Chain.Pipe.{Pipe, walk_gleam_pipe, preceding_assignment}
use ores_lib_core.RequireSend.Chain.Progress.{EndsFrom}
use ores_lib_core.RequireSend.Analyze.{
  Language, gleam, dart, rust, root_index, finding_at, settle, settle_pipe, judge_pipe,
  is_logger_root, settle_chain, col_or_zero, judge_chain,
}

-- The name at `n` is a level method that is called on something.
abbrev pub IsLevelCall : List Token → ℕ → Type 0
IsLevelCall tokens n =
    (tok : Token) × (get_elem? tokens n ≡ some tok)
    × ((is_level tok.value && has_before_kind tokens n 1 dot && has_kind tokens (n + 1) lparen)
        ≡ true)

-- The chain of such a call, walked from its root: the root is a logger, a level method is reached
-- and no terminal one, and it is not the call of a level method alone with three arguments or more.
abbrev pub IsChain : List Token → ℕ → Type 0
IsChain tokens line =
    (n : ℕ) × (chain : Chain) × IsLevelCall tokens n
    × (walk_method_chain tokens (root_index tokens (n - 2)) ≡ some chain)
    × (is_logger_root chain.root ≡ true)
    × (any is_level chain.methods ≡ true)
    × (any is_terminal chain.methods ≡ false)
    × ((length chain.methods == 1 && leb 3 chain.first_arg_count) ≡ false)
    × (chain.line ≡ line)

-- The name at `n` is a level function that is called, or that something is piped into.
abbrev pub IsPiped : List Token → ℕ → Type 0
IsPiped tokens n =
    (tok : Token) × (get_elem? tokens n ≡ some tok)
    × (is_level tok.value ≡ true)
    × ((has_kind tokens (n + 1) lparen || has_before_kind tokens (qualified_name tokens n).1 1 pipe)
        ≡ true)

-- The pipe of such a function reaches a level function and no terminal one.
abbrev pub IsPipe : List Token → ℕ → Type 0
IsPipe tokens line =
    (n : ℕ) × (walked : Pipe) × IsPiped tokens n
    × (walk_gleam_pipe tokens (qualified_name tokens n).1 ≡ some walked)
    × (any is_level walked.methods ≡ true)
    × (any is_terminal walked.methods ≡ false)
    × (walked.line ≡ line)

-- In Gleam a finding is on the line of such a pipe, in Dart and Rust on that of such a chain.
abbrev pub IsUndelivered : Language → List Token → Finding → Type 0
IsUndelivered gleam tokens f = IsPipe tokens f.line
IsUndelivered dart tokens f = IsChain tokens f.line
IsUndelivered rust tokens f = IsChain tokens f.line

-- The end of a chain, if there is one.
abbrev pub EndsAfter : ℕ → Option Chain → Type 0
EndsAfter i none = Unit
EndsAfter i (some chain) = i ≤ chain.end

pub has_before_one :
    (tokens : List Token) (k : ℕ) (kind : Kind)
    → has_before_kind tokens (suc (suc k)) 1 kind ≡ has_kind tokens (k + 1) kind
has_before_one tokens k kind = elim (Bool-cases (ltb (suc (suc k)) 1)) [
  | inl t ↦ absurd (ground arith)
  | inr f ↦ rw f (ap (λ n. is_kind kind (get_elem? tokens n)) (omega arith))
]

pub not-eq-false : (b : Bool) → not b ≡ false → b ≡ true
not-eq-false b h = ground arith

module _ (sup : Suppressions) (language : Language) (tokens : List Token) where
  abbrev pub Kept : State → Type 0
  Kept st = IsKept sup (IsUndelivered language tokens) st

  -- A round from `i` keeps the invariant and does not step back.
  abbrev pub IsStep : ℕ → State × ℕ → Type 0
  IsStep i w = (i ≤ w.1) × Kept w.0

  settle-Kept :
      (assigned : Option Text) (handed_off : Bool) (f : Finding) (st : State)
      → IsUndelivered language tokens f
      → Kept st
      → Kept (settle sup assigned handed_off f st)
  settle-Kept (some (c ∷ name)) handed_off f st u h =
      mark-IsKept sup (IsUndelivered language tokens) (c ∷ name) f st u h
  settle-Kept (some []) handed_off f st u h =
      if-elim Kept handed_off st (report sup f st) (λ _. h)
        λ _. report-IsKept sup (IsUndelivered language tokens) f st u h
  settle-Kept none handed_off f st u h =
      if-elim Kept handed_off st (report sup f st) (λ _. h)
        λ _. report-IsKept sup (IsUndelivered language tokens) f st u h

  pub judge_pipe-IsStep :
      (i : ℕ) (tok : Token) (o : Option Pipe) (st : State)
      → ((f : Finding) → IsPipe tokens f.line → IsUndelivered language tokens f)
      → IsPiped tokens i
      → walk_gleam_pipe tokens (qualified_name tokens i).1 ≡ o
      → EndsFrom tokens i o
      → Kept st
      → IsStep i (judge_pipe sup tokens i (qualified_name tokens i).1 tok o st)
  unfolding finding_at
  judge_pipe-IsStep i tok none st as_pipe piped e l h = (omega arith, h)
  judge_pipe-IsStep i tok (some walked) st as_pipe piped e l h =
      let start = (qualified_name tokens i).1 in
      if-elim (IsStep i) (not (any is_level walked.methods)) (st, i)
        (if any is_terminal walked.methods
          then (st, walked.end)
          else (settle_pipe sup tokens start tok walked st, walked.end))
        (λ _. (omega arith, h))
        λ a.
          if-elim (IsStep i) (any is_terminal walked.methods) (st, walked.end)
            (settle_pipe sup tokens start tok walked st, walked.end) (λ _. (l, h))
            λ b. (
              l,
              settle-Kept (preceding_assignment tokens start) _ _ st
                  (as_pipe _ (i, walked, piped, e, not-eq-false _ a, b, refl)) h,
            )

  pub judge_chain-IsStep :
      (i : ℕ) (o : Option Chain) (st : State)
      → ((f : Finding) → IsChain tokens f.line → IsUndelivered language tokens f)
      → IsLevelCall tokens i
      → walk_method_chain tokens (root_index tokens (i - 2)) ≡ o
      → EndsAfter i o
      → Kept st
      → IsStep i (judge_chain sup language tokens i (root_index tokens (i - 2)) o st)
  unfolding finding_at
  judge_chain-IsStep i none st as_chain called e l h = (omega arith, h)
  judge_chain-IsStep i (some chain) st as_chain called e l h =
      let start = root_index tokens (i - 2) in
      let settled =
        settle_chain sup language tokens start (col_or_zero (get_elem? tokens start)) chain st in
      let after_args : State × ℕ =
        if length chain.methods == 1 && leb 3 chain.first_arg_count
        then (st, chain.end)
        else (settled, chain.end) in
      let after_terminal : State × ℕ =
        if any is_terminal chain.methods then (st, chain.end) else after_args in
      let after_level : State × ℕ =
        if not (any is_level chain.methods) then (st, i) else after_terminal in
      if-elim (IsStep i) (not (is_logger_root chain.root)) (st, i) after_level
        (λ _. (omega arith, h))
        λ a.
          if-elim (IsStep i) (not (any is_level chain.methods)) (st, i) after_terminal
            (λ _. (omega arith, h))
            λ b.
              if-elim (IsStep i) (any is_terminal chain.methods) (st, chain.end) after_args
                (λ _. (l, h))
                λ c.
                  if-elim (IsStep i) (length chain.methods == 1 && leb 3 chain.first_arg_count)
                    (st, chain.end) (settled, chain.end) (λ _. (l, h))
                    λ d. (
                      l,
                      settle-Kept (preceding_assignment tokens start) _ _ st
                          (as_chain _
                            (i, chain, called, e, not-eq-false _ a, not-eq-false _ b, c, d, refl))
                          h,
                    )
