-- ===== src/RequireSend/Chain/Laws.antt =====
-- require-send.mjs: the walks go to the right, and not past the end of the tokens.
use ores_lib_core.Base.{
  ℕ, zero, suc, ◌-◌, ◌≤◌, ◌<◌, ◌≡◌, ◌&&◌, not, Option, none, some, List, [], ◌∷◌, length, drop,
  nat_eq, ◌==◌, arith, if-elim,
}
use ores_lib_core.Js.{ℤ, pos}
use ores_lib_core.RequireSend.Token.{Kind, Token, kind_eq}
use ores_lib_core.RequireSend.Chain.{
  is_zero, closing, closed_at, one_more, depth_after, skip_balanced,
}

-- An index below the bound, or none.
abbrev IsBelow : ℕ → Option ℕ → Type 0
IsBelow n none = Unit
IsBelow n (some i) = i < n

one_more-IsBelow : (n : ℕ) (o : Option ℕ) → IsBelow n o → IsBelow (suc n) (one_more o)
one_more-IsBelow n none h = tt
one_more-IsBelow n (some i) h = omega arith

closing-IsBelow :
    (opener closer : Kind) (depth : ℤ) (ts : List Token)
    → IsBelow (length ts) (closing opener closer depth ts)
unfolding closing
closing-IsBelow opener closer depth [] = tt
closing-IsBelow opener closer depth (t ∷ ts) =
    let after = depth_after opener closer t.kind depth in
    let rest = closing opener closer after ts in
    if-elim (IsBelow (suc (length ts)))
      (not (t.kind == opener) && t.kind == closer && is_zero after) (some 0) (one_more rest)
      (λ _. omega arith)
      λ _. one_more-IsBelow (length ts) rest (closing-IsBelow opener closer after ts)

length-drop : (n : ℕ) (ts : List Token) → length (drop n ts) ≡ length ts - n
length-drop zero ts = omega arith
length-drop (suc n) [] = omega arith
length-drop (suc n) (t ∷ ts) = omega (arith, length-drop n ts)

-- From a token on, the bracket that closes is found at that token or later, among the tokens.
pub skip_balanced-bounds :
    (tokens : List Token) (start : ℕ) (opener closer : Kind)
    → start < length tokens
    → (start ≤ skip_balanced tokens start opener closer)
      × (skip_balanced tokens start opener closer < length tokens)
unfolding skip_balanced
skip_balanced-bounds tokens start opener closer h =
    within _ (closing-IsBelow opener closer (pos 0) (drop start tokens))
  where
    within :
        (o : Option ℕ)
        → IsBelow (length (drop start tokens)) o
        → (start ≤ closed_at start (length tokens) o)
          × (closed_at start (length tokens) o < length tokens)
    within none b = (omega arith, omega arith)
    within (some n) b = let l = length-drop start tokens in (omega arith, omega arith)
