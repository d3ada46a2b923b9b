-- ===== src/RequireSend/Analyze/Run.antt =====
-- analyzeSource: the loop ends, and reports only chains that are not delivered, on lines that are
-- not disabled.
use ores_lib_core.Base.{
  ℕ, zero, suc, ◌+◌, ◌-◌, ◌≤◌, ◌≡◌, refl, inl, inr, ◌&&◌, ◌||◌, not, Bool, true, false, Option,
  none, some, List, [], Text, text, length, get_elem?, nat_eq, list_eq, ◌==◌, leb, ltb, All, arith,
  Bool-cases, Option-cases, if-elim, if◌then◌else◌, and_iff, subst, ap, sym, le→leb, ◌∙◌,
}
use ores_lib_core.RequireSend.{is_level, is_terminal}
use ores_lib_core.RequireSend.Token.{
  Token, ident, dot, pipe, lparen, lbrace, rbrace, kind_eq, tokenize,
}
use ores_lib_core.RequireSend.Suppress.{Suppressions, collect_suppressions}
use ores_lib_core.RequireSend.Scopes.{Finding, State, clear, open_scope, close_scope, flush_scopes}
use ores_lib_core.RequireSend.Scopes.Laws.{
  IsReported, clear-IsKept, close_scope-IsKept, flush_scopes-IsReported,
}
use ores_lib_core.RequireSend.Chain.{
  has_kind, before, has_before_kind, value_or_empty, value_at, Walk, qualified_name,
  walk_method_chain, walk_calls, skip_fields, chain_of, line_at,
}
use ores_lib_core.RequireSend.Chain.Pipe.{walk_gleam_pipe}
use ores_lib_core.RequireSend.Chain.Progress.{
  Dotted, Dotted-trans, member_before, qualified_name-Dotted, root_index-Dotted, walk_gleam_pipe_le,
  chain_end_le, has_kind-lt,
}
use ores_lib_core.RequireSend.Analyze.{
  Language, gleam, dart, rust, clear_sent, judge_pipe, visit_gleam, root_index, judge_chain,
  visit_dotted, visit_name, visit_token, visit, visit_from, initial, finish, analyze_source,
}
use ores_lib_core.RequireSend.Analyze.Laws.{
  IsUndelivered, IsChain, EndsAfter, not-eq-false, has_before_one, Kept, IsStep, judge_pipe-IsStep,
  judge_chain-IsStep,
}

either : (a b : Bool) → (not a && not b) ≡ false → (a || b) ≡ true
either a b h = ground arith

module _ (sup : Suppressions) (tokens : List Token) where
  clear_sent-Kept :
      (language : Language) (i : ℕ) (st : State)
      → Kept sup language tokens st
      → Kept sup language tokens (clear_sent tokens i st)
  unfolding clear_sent
  clear_sent-Kept language i st h =
      let name = (qualified_name tokens (i - 2)).0 in
      let receiver : State =
        if has_before_kind tokens i 1 dot && has_before_kind tokens i 2 ident
        then clear name st
        else st in
      let k : Kept sup language tokens receiver =
        if-elim (Kept sup language tokens)
          (has_before_kind tokens i 1 dot && has_before_kind tokens i 2 ident) (clear name st) st
          (λ _. clear-IsKept sup (IsUndelivered language tokens) name st h) (λ _. h) in
      if-elim (Kept sup language tokens)
        (has_kind tokens (i + 1) lparen && has_kind tokens (i + 2) ident)
        (clear (value_at tokens (i + 2)) receiver) receiver
        (λ _. clear-IsKept sup (IsUndelivered language tokens) _ receiver k) (λ _. k)

  visit_gleam-IsStep :
      (i : ℕ) (tok : Token) (st : State)
      → get_elem? tokens i ≡ some tok
      → has_kind tokens i ident ≡ true
      → Kept sup gleam tokens st
      → IsStep sup gleam tokens i (visit_gleam sup tokens i tok st)
  unfolding visit_gleam
  visit_gleam-IsStep i tok st at k h =
      let start = (qualified_name tokens i).1 in
      let stay : IsStep sup gleam tokens i (st, i) = (omega arith, h) in
      let judged = judge_pipe sup tokens i start tok (walk_gleam_pipe tokens start) st in
      let after_call : State × ℕ =
        if not (has_kind tokens (i + 1) lparen) && not (has_before_kind tokens start 1 pipe)
        then (st, i)
        else judged in
      let after_fn : State × ℕ =
        if has_before_kind tokens i 1 ident && value_or_empty (before tokens i 1) == text "fn"
        then (st, i)
        else after_call in
      if-elim (IsStep sup gleam tokens i) (not (is_level tok.value)) (st, i) after_fn (λ _. stay)
        λ level.
          if-elim (IsStep sup gleam tokens i)
            (has_before_kind tokens i 1 ident && value_or_empty (before tokens i 1) == text "fn")
            (st, i) after_call (λ _. stay)
            λ _.
              if-elim (IsStep sup gleam tokens i)
                (not (has_kind tokens (i + 1) lparen) && not (has_before_kind tokens start 1 pipe))
                (st, i) judged (λ _. stay)
                λ piped.
                  judge_pipe-IsStep sup gleam tokens i tok (walk_gleam_pipe tokens start) st
                    (λ f u. u) (tok, at, not-eq-false _ level, either _ _ piped) refl
                    (walk_gleam_pipe_le tokens start i (qualified_name-Dotted tokens i k)
                      (has_kind-lt tokens i ident k))
                    h

  -- The chain of a called name, walked from its root, ends past the name.
  walk_method_chain_le :
      (start i : ℕ)
      → Dotted tokens start i
      → has_kind tokens (i + 1) lparen ≡ true
      → EndsAfter i (walk_method_chain tokens start)
  unfolding walk_method_chain
  walk_method_chain_le start i d h =
      let walked : Walk = record {
        methods = [];
        end = skip_fields tokens (length tokens) start;
        first_arg_count = 0;
      } in
      if-elim (EndsAfter i) (has_kind tokens start ident)
        (some (
          chain_of (qualified_name tokens (skip_fields tokens (length tokens) start)).0
            (line_at tokens start) (walk_calls tokens (length tokens) walked)))
        none (λ _. chain_end_le tokens start i walked d h refl) (λ _. tt)

  visit_dotted-IsStep :
      (language : Language) (i : ℕ) (tok : Token) (st : State)
      → ((f : Finding) → IsChain tokens f.line → IsUndelivered language tokens f)
      → get_elem? tokens i ≡ some tok
      → has_kind tokens i ident ≡ true
      → Kept sup language tokens st
      → IsStep sup language tokens i (visit_dotted sup language tokens i tok st)
  unfolding visit_dotted
  visit_dotted-IsStep language i tok st as_chain at k h =
      let start = root_index tokens (i - 2) in
      let judged = judge_chain sup language tokens i start (walk_method_chain tokens start) st in
      let inner : State × ℕ = if leb 2 i && has_kind tokens start ident then judged else (st, i) in
      if-elim (IsStep sup language tokens i)
        (is_level tok.value && has_before_kind tokens i 1 dot && has_kind tokens (i + 1) lparen)
        inner (st, i)
        (λ a.
          if-elim (IsStep sup language tokens i) (leb 2 i && has_kind tokens start ident) judged
            (st, i)
            (λ b.
              let (r, called) =
                (and_iff (is_level tok.value && has_before_kind tokens i 1 dot) _).0 a in
              let (lv, dotted) =
                (and_iff (is_level tok.value) (has_before_kind tokens i 1 dot)).0 r in
              let (two, rest) = (and_iff (leb 2 i) (has_kind tokens start ident)).0 b in
              judge_chain-IsStep sup language tokens i (walk_method_chain tokens start) st as_chain
                (tok, at, a) refl (walk_method_chain_le start i (rooted i two dotted k) called) h)
            (λ _. (omega arith, h)))
        (λ _. (omega arith, h))
    where
      rooted :
          (i : ℕ)
          → leb 2 i ≡ true
          → has_before_kind tokens i 1 dot ≡ true
          → has_kind tokens i ident ≡ true
          → Dotted tokens (root_index tokens (i - 2)) i
      rooted zero l d k = absurd (ground arith)
      rooted (suc zero) l d k = absurd (ground arith)
      rooted (suc (suc i)) l d k =
          let e : suc (suc i) - 2 ≡ i = omega arith in
          Dotted-trans tokens
            (subst (Dotted tokens (root_index tokens (suc (suc i) - 2))) e
              (root_index-Dotted tokens (suc (suc i) - 2)))
            (member_before tokens i (subst (λ b. b ≡ true) (has_before_one tokens i dot) d) k)

  visit_name-IsStep :
      (language : Language) (i : ℕ) (tok : Token) (st : State)
      → get_elem? tokens i ≡ some tok
      → has_kind tokens i ident ≡ true
      → Kept sup language tokens st
      → IsStep sup language tokens i (visit_name sup language tokens i tok st)
  visit_name-IsStep gleam i tok st at k h = visit_gleam-IsStep i tok st at k h
  visit_name-IsStep dart i tok st at k h = visit_dotted-IsStep dart i tok st (λ f u. u) at k h
  visit_name-IsStep rust i tok st at k h = visit_dotted-IsStep rust i tok st (λ f u. u) at k h

  visit_token-IsStep :
      (language : Language) (i : ℕ) (tok : Token) (st : State)
      → get_elem? tokens i ≡ some tok
      → Kept sup language tokens st
      → IsStep sup language tokens i (visit_token sup language tokens i tok st)
  unfolding visit_token
  visit_token-IsStep language i tok st e h =
      let cleared : State = if is_terminal tok.value then clear_sent tokens i st else st in
      let k : Kept sup language tokens cleared =
        if-elim (Kept sup language tokens) (is_terminal tok.value) (clear_sent tokens i st) st
          (λ _. clear_sent-Kept language i st h) (λ _. h) in
      let named = visit_name sup language tokens i tok cleared in
      let after_close : State × ℕ = if not (tok.kind == ident) then (st, i) else named in
      let after_open : State × ℕ =
        if tok.kind == rbrace then (close_scope sup st, i) else after_close in
      if-elim (IsStep sup language tokens i) (tok.kind == lbrace) (open_scope st, i) after_open
        (λ _. (omega arith, ((tt, h.0), h.1)))
        λ _.
          if-elim (IsStep sup language tokens i) (tok.kind == rbrace) (close_scope sup st, i)
            after_close
            (λ _. (omega arith, close_scope-IsKept sup (IsUndelivered language tokens) st h))
            λ _.
              if-elim (IsStep sup language tokens i) (not (tok.kind == ident)) (st, i) named
                (λ _. (omega arith, h))
                λ f. visit_name-IsStep language i tok cleared e (rw e (not-eq-false _ f)) k

  visit-IsStep :
      (language : Language) (i : ℕ) (st : State)
      → Kept sup language tokens st
      → IsStep sup language tokens i (visit sup language tokens i st)
  visit-IsStep language i st h = elim (Option-cases (get_elem? tokens i)) [
    | inl n ↦ rw n (omega arith, h)
    | inr (tok, e) ↦ rw e (visit_token-IsStep language i tok st e h)
  ]

  -- The loop ends within as many rounds as there are tokens left, and keeps the invariant.
  visit_from-ends :
      (language : Language) (fuel i : ℕ) (st : State)
      → length tokens ≤ i + fuel
      → Kept sup language tokens st
      → (last : State) × (visit_from sup language tokens fuel i st ≡ some last)
        × Kept sup language tokens last
  unfolding visit_from
  visit_from-ends language zero i st l h = (st, rw (le→leb (length tokens) i (omega arith)) refl, h)
  visit_from-ends language (suc fuel) i st l h = elim (Bool-cases (ltb i (length tokens))) [
    | inl t ↦
        let (le, kept) = visit-IsStep language i st h in
        rw t (
          visit_from-ends language fuel ((visit sup language tokens i st).1 + 1) _ (omega arith)
            kept)
    | inr f ↦ rw f (st, refl, h)
  ]

AllFound : (Finding → Type 0) → Option (List Finding) → Type 0
AllFound P none = Unit
AllFound P (some findings) = All P findings

analyze_source_lem :
    (source : Text) (language : Language)
    → (findings : List Finding) × (analyze_source source language ≡ some findings)
      × All
          (IsReported (collect_suppressions source) (IsUndelivered language (tokenize source)))
          findings
unfolding analyze_source
analyze_source_lem source language =
    let sup = collect_suppressions source in
    let tokens = tokenize source in
    let (last, e, h) =
      visit_from-ends sup tokens language (length tokens) 0 initial (omega arith) ((tt, tt), tt) in
    (
      flush_scopes sup last.scopes last.findings,
      ap (finish sup) e,
      flush_scopes-IsReported sup (IsUndelivered language tokens) last.scopes last.findings h.0 h.1,
    )

-- The analysis of any source in any of the three languages ends: although the loop jumps to the
-- end of each chain that it judges, the rounds suffice that it is given.
pub analyze_source-some :
    (source : Text) (language : Language)
    → (findings : List Finding) × (analyze_source source language ≡ some findings)
analyze_source-some source language =
    let (findings, e, h) = analyze_source_lem source language in (findings, e)

-- Every finding of an analysis is on a line that no suppression of the source covers. In Dart and Rust
-- it is the line of the chain of a called level method that has a logger as its root and no terminal
-- method; in Gleam it is that of the pipe of a level function without a terminal one.
pub analyze_source-IsReported :
    (source : Text) (language : Language) (findings : List Finding)
    → analyze_source source language ≡ some findings
    → All
        (IsReported (collect_suppressions source) (IsUndelivered language (tokenize source)))
        findings
unfolding AllFound
analyze_source-IsReported source language findings h =
    let (found, e, all) = analyze_source_lem source language in
    subst
      (AllFound
        (IsReported (collect_suppressions source) (IsUndelivered language (tokenize source))))
      (sym e ∙ h) all
