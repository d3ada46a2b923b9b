-- ===== src/RequireSend/Chain/Progress.antt =====
-- require-send.mjs: the walk along a dotted name gets to each of its names and past the call that
-- follows one, with as many rounds as there are tokens.
use ores_lib_core.Base.{
  ℕ, zero, suc, ◌+◌, ◌≤◌, ◌<◌, ◌≡◌, refl, inl, inr, ◌&&◌, ◌||◌, not, true, false, Option, none,
  some, List, [], ◌∷◌, ◌++◌, Text, length, get_elem?, nat_eq, arith, Bool-cases, if-elim,
  if◌then◌else◌, and_iff, subst, sym,
}
use ores_lib_core.RequireSend.{is_level, is_terminal, base_name}
use ores_lib_core.RequireSend.Token.{
  Kind, Token, ident, dot, pipe, lparen, rparen, kind_eq, same_kind, same_kind_sound,
}
use ores_lib_core.RequireSend.Chain.{
  has_kind, has_before_kind, is_kind, skip_parens, qualified_from, qualified_name, has_member,
  skip_fields, Walk, walk_call, walk_calls, value_at,
}
use ores_lib_core.RequireSend.Chain.Pipe.{
  skip_dotted, dotted_end, skip_call, pipe_steps, Pipe, walk_gleam_pipe, called_pipe, bare_pipe,
}
use ores_lib_core.RequireSend.Analyze.{root_index}
use ores_lib_core.RequireSend.Chain.Laws.{skip_balanced-bounds}

is_kind-dot : (o : Option Token) → is_kind lparen o ≡ true → is_kind dot o ≡ false
unfolding same_kind
is_kind-dot none h = refl
is_kind-dot (some t) h = rw (same_kind_sound t.kind lparen h) refl

add_two : (i : ℕ) → i + 2 ≡ suc (suc i)
add_two i = omega arith

module _ (tokens : List Token) where
  -- A dotted name from one index to another.
  pub data Dotted : ℕ → ℕ → Type 0 where
    here : {i : ℕ} → Dotted i i
    member : {i j : ℕ} → has_member tokens i ≡ true → Dotted (i + 2) j → Dotted i j

  pub Dotted-le : {i j : ℕ} → Dotted i j → i ≤ j
  Dotted-le here = omega arith
  Dotted-le (member h d) = let l = Dotted-le d in omega arith

  pub Dotted-trans : {i j k : ℕ} → Dotted i j → Dotted j k → Dotted i k
  Dotted-trans here e = e
  Dotted-trans (member h d) e = member h (Dotted-trans d e)

  pub has_kind-lt : (i : ℕ) (kind : Kind) → has_kind tokens i kind ≡ true → i < length tokens
  has_kind-lt i kind h = within tokens i h
    where
      within : (ts : List Token) (i : ℕ) → is_kind kind (get_elem? ts i) ≡ true → i < length ts
      within [] i h = absurd (ground arith)
      within (t ∷ ts) zero h = omega arith
      within (t ∷ ts) (suc i) h = let l = within ts i h in omega arith

  -- A name that is called has no member.
  called_last : (j : ℕ) → has_kind tokens (j + 1) lparen ≡ true → has_member tokens j ≡ false
  called_last j h = rw (is_kind-dot (get_elem? tokens (j + 1)) h) refl

  skip_dotted_le : (fuel i : ℕ) → i ≤ skip_dotted tokens fuel i
  unfolding skip_dotted
  skip_dotted_le zero i = omega arith
  skip_dotted_le (suc fuel) i = ground (arith, skip_dotted_le fuel (i + 2))

  pub skip_dotted-Dotted :
      (fuel : ℕ) {i j : ℕ} → Dotted i j → j ≤ i + fuel → j ≤ skip_dotted tokens fuel i
  unfolding skip_dotted
  skip_dotted-Dotted fuel here h = skip_dotted_le fuel _
  skip_dotted-Dotted zero (member m d) h = let l = Dotted-le d in omega arith
  skip_dotted-Dotted (suc fuel) {i} (member m d) h = rw m (skip_dotted-Dotted fuel d (omega arith))

  -- The first loop does not pass a name that is called.
  skip_fields-Dotted :
      (fuel : ℕ) {i j : ℕ}
      → Dotted i j
      → has_kind tokens (j + 1) lparen ≡ true
      → Dotted (skip_fields tokens fuel i) j
  unfolding skip_fields
  skip_fields-Dotted zero d h = d
  skip_fields-Dotted (suc fuel) {i} here h = rw (called_last i h) here
  skip_fields-Dotted (suc fuel) {i} {j} (member m d) h =
      let whole : Dotted i j = member m d in
      rw m (
        if-elim (λ k. Dotted k j) (not (has_kind tokens (i + 3) lparen))
          (if is_level (value_at tokens (i + 2)) || is_terminal (value_at tokens (i + 2))
            then i
            else skip_fields tokens fuel (i + 2))
          i
          (λ _.
            if-elim (λ k. Dotted k j)
              (is_level (value_at tokens (i + 2)) || is_terminal (value_at tokens (i + 2))) i
              (skip_fields tokens fuel (i + 2)) (λ _. whole) (λ _. skip_fields-Dotted fuel d h))
          (λ _. whole))

  walk_call_le : (w : Walk) → has_member tokens w.end ≡ true → w.end + 2 ≤ (walk_call tokens w).end
  unfolding walk_call
  walk_call_le w m = elim (Bool-cases (has_kind tokens (w.end + 2 + 1) lparen)) [
    | inl t ↦ rw t (
        let b = (skip_balanced-bounds tokens (w.end + 2 + 1) lparen rparen (has_kind-lt _ _ t)).0 in
        omega arith)
    | inr f ↦ rw f (omega arith)
  ]

  walk_calls_le : (fuel : ℕ) (w : Walk) → w.end ≤ (walk_calls tokens fuel w).end
  unfolding walk_calls
  walk_calls_le zero w = omega arith
  walk_calls_le (suc fuel) w = elim (Bool-cases (has_member tokens w.end)) [
    | inl t ↦
        rw t (
          let a = walk_call_le w t in
          let b = walk_calls_le fuel (walk_call tokens w) in omega arith)
    | inr f ↦ rw f (omega arith)
  ]

  -- A step over a name that is followed by a dot goes to it.
  walk_call_end :
      (w : Walk)
      → has_kind tokens (w.end + 2 + 1) lparen ≡ false
      → (walk_call tokens w).end ≡ w.end + 2
  unfolding walk_call
  walk_call_end w h = rw h refl

  -- The second loop gets past every name of the chain.
  pub walk_calls-Dotted :
      (fuel i j : ℕ) (w : Walk)
      → w.end ≡ i
      → Dotted i j
      → j ≤ i + fuel
      → j ≤ (walk_calls tokens fuel w).end
  unfolding walk_calls
  walk_calls-Dotted fuel i j w e here h = rw (sym e) (walk_calls_le fuel w)
  walk_calls-Dotted zero i j w e (member m d) h = let l = Dotted-le d in omega arith
  walk_calls-Dotted (suc fuel) i j w e (member m here) h =
      let step = walk_call_le w (subst (λ k. has_member tokens k ≡ true) (sym e) m) in
      let rest = walk_calls_le fuel (walk_call tokens w) in
      rw (subst (λ k. has_member tokens k ≡ true) (sym e) m) (omega arith)
  walk_calls-Dotted (suc fuel) i j w e (member m (member n d)) h =
      elim (Bool-cases (has_kind tokens (i + 2 + 1) lparen)) [
        | inl t ↦ cc (called_last (i + 2) t, n)
        | inr f ↦
            let step : (walk_call tokens w).end ≡ i + 2 =
              subst (λ k. (walk_call tokens w).end ≡ k + 2) e
                (walk_call_end w
                  (subst (λ k. has_kind tokens (k + 2 + 1) lparen ≡ false) (sym e) f)) in
            rw (subst (λ k. has_member tokens k ≡ true) (sym e) m) (
              walk_calls-Dotted fuel (i + 2) j (walk_call tokens w) step (member n d) (omega arith))
      ]

  -- The walk from the start of a name gets past each name of it that is called.
  pub chain_end_le :
      (i j : ℕ) (w : Walk)
      → Dotted i j
      → has_kind tokens (j + 1) lparen ≡ true
      → w.end ≡ skip_fields tokens (length tokens) i
      → j ≤ (walk_calls tokens (length tokens) w).end
  chain_end_le i j w d h e =
      let bound = has_kind-lt (j + 1) lparen h in
      walk_calls-Dotted (length tokens) _ j w e (skip_fields-Dotted (length tokens) d h)
        (omega arith)

  at_two : (i : ℕ) → Dotted (i + 2) (suc (suc i))
  at_two i = subst (Dotted (i + 2)) (add_two i) here

  -- A member after a dot, as the tests to the left of it find it.
  pub member_before :
      (i : ℕ)
      → has_kind tokens (i + 1) dot ≡ true
      → has_kind tokens (suc (suc i)) ident ≡ true
      → Dotted i (suc (suc i))
  member_before i d h =
      let k : has_kind tokens (i + 2) ident ≡ true =
        subst (λ n. has_kind tokens n ident ≡ true) (sym (add_two i)) h in
      member ((and_iff _ _).1 (d, k)) (at_two i)

  -- Reading a name to the left goes over its members.
  pub qualified_from-Dotted :
      (i : ℕ) (name : Text)
      → has_kind tokens i ident ≡ true
      → Dotted (qualified_from tokens i name).1 i
  unfolding qualified_from
  qualified_from-Dotted zero name h = here
  qualified_from-Dotted (suc zero) name h = here
  qualified_from-Dotted (suc (suc i)) name h =
      if-elim (λ (w : Text × ℕ). Dotted w.1 (suc (suc i)))
        (has_kind tokens (i + 1) dot && has_kind tokens i ident)
        (qualified_from tokens i (value_at tokens i ++ b'.' ∷ name)) (name, i + 2)
        (λ t.
          let (d, k) = (and_iff (has_kind tokens (i + 1) dot) (has_kind tokens i ident)).0 t in
          Dotted-trans (qualified_from-Dotted i _ k) (member_before i d h))
        (λ f. at_two i)

  pub root_index-Dotted : (i : ℕ) → Dotted (root_index tokens i) i
  unfolding root_index
  root_index-Dotted zero = here
  root_index-Dotted (suc zero) = here
  root_index-Dotted (suc (suc i)) =
      if-elim (λ k. Dotted k (suc (suc i)))
        (has_kind tokens (i + 2) ident && has_kind tokens (i + 1) dot && has_kind tokens i ident)
        (root_index tokens i) (i + 2)
        (λ t.
          let (r, k) =
            (and_iff (has_kind tokens (i + 2) ident && has_kind tokens (i + 1) dot) _).0 t in
          let (a, d) =
            (and_iff (has_kind tokens (i + 2) ident) (has_kind tokens (i + 1) dot)).0 r in
          Dotted-trans (root_index-Dotted i) (member ((and_iff _ _).1 (d, a)) (at_two i)))
        (λ f. at_two i)

  pub qualified_name-Dotted :
      (i : ℕ) → has_kind tokens i ident ≡ true → Dotted (qualified_name tokens i).1 i
  unfolding qualified_name
  qualified_name-Dotted i h = rw h (qualified_from-Dotted i (value_at tokens i) h)

  skip_call_le : (i : ℕ) → i ≤ skip_call tokens i
  skip_call_le i = elim (Bool-cases (has_kind tokens (i + 1) lparen)) [
    | inl t ↦ rw t (
        let b = (skip_balanced-bounds tokens (i + 1) lparen rparen (has_kind-lt _ _ t)).0 in
        omega arith)
    | inr f ↦ rw f (omega arith)
  ]

  pipe_steps_le :
      (fuel : ℕ) (methods : List Text) (i : ℕ) → i ≤ (pipe_steps tokens fuel methods i).1
  unfolding pipe_steps
  pipe_steps_le zero methods i = omega arith
  pipe_steps_le (suc fuel) methods i =
      let step = dotted_end tokens (i + 2) in
      let a = skip_dotted_le (length tokens) (i + 2) in
      let b = skip_call_le step in
      let c = pipe_steps_le fuel (methods ++ value_at tokens step ∷ []) (skip_call tokens step) in
      ground arith

  -- What is walked ends at an index or to the right of it.
  abbrev pub EndsFrom : ℕ → Option Pipe → Type 0
  EndsFrom j none = Unit
  EndsFrom j (some walked) = j ≤ walked.end

  -- The walk along a pipe gets past each name of its head.
  pub walk_gleam_pipe_le :
      (i j : ℕ) → Dotted i j → j < length tokens → EndsFrom j (walk_gleam_pipe tokens i)
  unfolding walk_gleam_pipe
  walk_gleam_pipe_le i j d h =
      let head = (qualified_name tokens i).1 in
      let k = dotted_end tokens i in
      let callee = (qualified_name tokens k).0 in
      let a = skip_dotted-Dotted (length tokens) d (omega arith) in
      if-elim (EndsFrom j) (has_kind tokens i ident)
        (if has_kind tokens (k + 1) lparen
          then some (called_pipe tokens head k callee)
          else bare_pipe tokens head k callee)
        none
        (λ _.
          if-elim (EndsFrom j) (has_kind tokens (k + 1) lparen)
            (some (called_pipe tokens head k callee)) (bare_pipe tokens head k callee)
            (λ t.
              let b = (skip_balanced-bounds tokens (k + 1) lparen rparen (has_kind-lt _ _ t)).0 in
              let c =
                pipe_steps_le (length tokens) (base_name callee ∷ [])
                  (skip_parens tokens (k + 1)) in
              omega arith)
            (λ _.
              if-elim (EndsFrom j)
                (is_terminal (base_name callee) && has_before_kind tokens head 1 pipe) _ none
                (λ _. a) (λ _. tt)))
        (λ _. tt)
