-- ===== src/RequireSend/Chain/Brackets.antt =====
-- skipBalanced finds the bracket that closes a balanced text.
use ores_lib_core.Base.{
  ℕ, suc, ◌+◌, ◌≡◌, refl, false, Option, none, some, List, [], ◌∷◌, ◌++◌, length, length-append,
  drop, nat_eq, ◌==◌, arith, ap, ◌∙◌,
}
use ores_lib_core.Js.{pos}
use ores_lib_core.RequireSend.Token.{Token, lparen, rparen, kind_eq, same_kind}
use ores_lib_core.RequireSend.Chain.{closing, one_more, skip_balanced, skip_parens}

-- Tokens whose round brackets match.
pub data IsBalanced : List Token → Type 0 where
  empty : IsBalanced []
  other :
      {t : Token} {ts : List Token}
      → (t.kind == lparen) ≡ false
      → (t.kind == rparen) ≡ false
      → IsBalanced ts
      → IsBalanced (t ∷ ts)
  nested :
      (l r : Token) (ts us : List Token)
      → l.kind ≡ lparen
      → IsBalanced ts
      → r.kind ≡ rparen
      → IsBalanced us
      → IsBalanced (l ∷ (ts ++ r ∷ us))

abbrev pub later : ℕ → Option ℕ → Option ℕ
later n none = none
later n (some k) = some (n + k)

later-one_more : (n : ℕ) (o : Option ℕ) → one_more (later n o) ≡ later (suc n) o
later-one_more n none = refl
later-one_more n (some k) = ap some (omega arith)

later-zero : (o : Option ℕ) → o ≡ later 0 o
later-zero none = refl
later-zero (some k) = ap some (omega arith)

later-nested :
    (m n k : ℕ) (o : Option ℕ)
    → k ≡ m + suc n
    → one_more (later m (one_more (later n o))) ≡ later (suc k) o
later-nested m n k none e = refl
later-nested m n k (some i) e = ap some (omega arith)

append_assoc : (ts us vs : List Token) → (ts ++ us) ++ vs ≡ ts ++ (us ++ vs)
append_assoc [] us vs = refl
append_assoc (t ∷ ts) us vs = ap (◌∷◌ t) (append_assoc ts us vs)

abbrev seek : ℕ → List Token → Option ℕ
seek d ts = closing lparen rparen (pos d) ts

seek-other :
    (d : ℕ) (t : Token) (ts : List Token)
    → (t.kind == lparen) ≡ false
    → (t.kind == rparen) ≡ false
    → seek d (t ∷ ts) ≡ one_more (seek d ts)
unfolding closing
seek-other d t ts l r = rw l (rw r refl)

seek-lparen :
    (d : ℕ) (t : Token) (ts : List Token)
    → t.kind ≡ lparen
    → seek d (t ∷ ts) ≡ one_more (seek (suc d) ts)
unfolding closing same_kind
seek-lparen d t ts e = rw e refl

seek-rparen :
    (d : ℕ) (t : Token) (ts : List Token)
    → t.kind ≡ rparen
    → seek (suc (suc d)) (t ∷ ts) ≡ one_more (seek (suc d) ts)
unfolding closing same_kind
seek-rparen d t ts e = rw e refl

seek-closed : (t : Token) (ts : List Token) → t.kind ≡ rparen → seek 1 (t ∷ ts) ≡ some 0
unfolding closing same_kind
seek-closed t ts e = rw e refl

-- Inside a bracket, balanced tokens are passed over.
seek-IsBalanced :
    {ts : List Token} (d : ℕ) (rest : List Token)
    → IsBalanced ts
    → seek (suc d) (ts ++ rest) ≡ later (length ts) (seek (suc d) rest)
seek-IsBalanced d rest empty = later-zero (seek (suc d) rest)
seek-IsBalanced d rest (other {t} {ts} l r b) =
    seek-other (suc d) t (ts ++ rest) l r
    ∙ ap one_more (seek-IsBalanced d rest b)
    ∙ later-one_more (length ts) (seek (suc d) rest)
seek-IsBalanced d rest (nested l r ts us o b c k) =
    let inner : seek (suc (suc d)) ((ts ++ r ∷ us) ++ rest)
        ≡ later (length ts) (one_more (later (length us) (seek (suc d) rest))) =
      ap (seek (suc (suc d))) (append_assoc ts (r ∷ us) rest)
      ∙ seek-IsBalanced (suc d) (r ∷ (us ++ rest)) b
      ∙ ap (later (length ts))
          (seek-rparen d r (us ++ rest) c ∙ ap one_more (seek-IsBalanced d rest k)) in
    seek-lparen (suc d) l ((ts ++ r ∷ us) ++ rest) o
    ∙ ap one_more inner
    ∙ later-nested (length ts) (length us) _ _ (length-append ts (r ∷ us))

drop-length : (pre rest : List Token) → drop (length pre) (pre ++ rest) ≡ rest
drop-length [] rest = refl
drop-length (t ∷ pre) rest = drop-length pre rest

-- From an opening bracket before balanced tokens and a closing one, the walk goes to that closing
-- one, whatever stands before and after them.
pub skip_parens-IsBalanced :
    (pre ts rest : List Token) (l r : Token)
    → l.kind ≡ lparen
    → IsBalanced ts
    → r.kind ≡ rparen
    → skip_parens (pre ++ l ∷ (ts ++ r ∷ rest)) (length pre) ≡ length pre + suc (length ts)
unfolding skip_balanced
skip_parens-IsBalanced pre ts rest l r o b c =
    let found : seek 0 (l ∷ (ts ++ r ∷ rest)) ≡ some (suc (length ts + 0)) =
      seek-lparen 0 l (ts ++ r ∷ rest) o
      ∙ ap one_more
          (seek-IsBalanced 0 (r ∷ rest) b ∙ ap (later (length ts)) (seek-closed r rest c)) in
    rw (drop-length pre (l ∷ (ts ++ r ∷ rest))) (rw found (omega arith))
