-- ===== src/RequireSend/Token/Reading.antt =====
-- tokenize: each of its inner loops reads on through the source, character by character.
use ores_lib_core.Base.{
  ℕ, ◌+◌, ◌∙◌, ap, refl, ◌++◌, includes, if◌then◌else◌, ◌≤◌, ◌≡◌, inl, inr, ◌&&◌, not, true, [],
  ◌∷◌, Text, length, drop, nat_eq, ◌==◌, arith, Bool-cases, eq_iff, and_iff,
}
use ores_lib_core.RequireSend.Token.{
  Pos, bump, head_is, skip_line, skip_block, skip_string, take_ident, is_ident_part,
}

-- Reading on, character by character: from a rest of the source at a position to a later one.
pub data Eats : Text → Pos → Text → Pos → Type 0 where
  here : {s : Text} {p : Pos} → Eats s p s p
  next : {c : ℕ} {s r : Text} {p q : Pos} → Eats s (bump c p) r q → Eats (c ∷ s) p r q

pub Eats-trans : {s r u : Text} {p q v : Pos} → Eats s p r q → Eats r q u v → Eats s p u v
Eats-trans here f = f
Eats-trans (next e) f = next (Eats-trans e f)

pub Eats-length : {s r : Text} {p q : Pos} → Eats s p r q → length r ≤ length s
Eats-length here = omega arith
Eats-length (next e) = let h = Eats-length e in omega arith

-- The head that a test has found is read.
head-Eats :
    (c d : ℕ) (s : Text) (p : Pos)
    → head_is d s ≡ true
    → Eats (c ∷ s) p (drop 1 s) (bump d (bump c p))
head-Eats c d [] p h = absurd (ground arith)
head-Eats c d (e ∷ s) p h = rw ((eq_iff e d).0 h) (next (next here))

pub skip_line-Eats : (s : Text) (p : Pos) → Eats s p (skip_line s p).0 (skip_line s p).1
unfolding skip_line
skip_line-Eats [] p = here
skip_line-Eats (c ∷ s) p = elim (Bool-cases (c == b'\n')) [
  | inl t ↦ rw t here
  | inr f ↦ rw f (next (skip_line-Eats s (bump c p)))
]

pub skip_block-Eats : (s : Text) (p : Pos) → Eats s p (skip_block s p).0 (skip_block s p).1
unfolding skip_block
skip_block-Eats [] p = here
skip_block-Eats (c ∷ s) p = elim (Bool-cases (c == b'*' && head_is b'/' s)) [
  | inl t ↦
      let (e, h) = (and_iff (c == b'*') (head_is b'/' s)).0 t in
      rw t (rw ((eq_iff c b'*').0 e) (head-Eats _ b'/' s p h))
  | inr f ↦ rw f (next (skip_block-Eats s (bump c p)))
]

pub skip_string-Eats :
    (q : ℕ) (s : Text) (p : Pos) → Eats s p (skip_string q s p).0 (skip_string q s p).1
unfolding skip_string
skip_string-Eats q [] p = here
skip_string-Eats q (c ∷ []) p = elim (Bool-cases (c == q)) [
  | inl t ↦ rw t (rw ((eq_iff c q).0 t) (next here))
  | inr f ↦ rw f (elim (Bool-cases (c == b'\n' && not (q == b'`'))) [
    | inl t ↦ rw t here
    | inr g ↦ rw g (next here)
  ])
]
skip_string-Eats q (c ∷ d ∷ s) p = elim (Bool-cases (c == q)) [
  | inl t ↦ rw t (rw ((eq_iff c q).0 t) (next here))
  | inr f ↦ rw f (elim (Bool-cases (c == b'\\')) [
    | inl t ↦ rw t (next (next (skip_string-Eats q s (bump d (bump c p)))))
    | inr g ↦ rw g (elim (Bool-cases (c == b'\n' && not (q == b'`'))) [
      | inl t ↦ rw t here
      | inr k ↦ rw k (next (skip_string-Eats q (d ∷ s) (bump c p)))
    ])
  ])
]

pub take_ident-Eats : (s : Text) (p : Pos) → Eats s p (take_ident s p).1 (take_ident s p).2
unfolding take_ident
take_ident-Eats [] p = here
take_ident-Eats (c ∷ s) p = elim (Bool-cases (is_ident_part c)) [
  | inl t ↦ rw t (next (take_ident-Eats s (bump c p)))
  | inr f ↦ rw f here
]

-- The number of line feeds
unfoldable pub newlines : Text → ℕ
newlines [] = 0
newlines (c ∷ s) = (if c == b'\n' then 1 else 0) + newlines s

-- What stands behind the last line feed, or everything if there is none
unfoldable pub last_line : Text → Text
last_line [] = []
last_line (c ∷ s) =
    let later = last_line s in if includes s b'\n' then later else if c == b'\n' then s else c ∷ s

-- The column after a text that is read from a column
abbrev pub column : ℕ → Text → ℕ
column col s = if includes s b'\n' then 1 + length (last_line s) else col + length s

bump-column : (c : ℕ) (s : Text) (p : Pos) → column (bump c p).col s ≡ column p.col (c ∷ s)
unfolding bump last_line includes
bump-column c s p = ground arith

bump-newlines :
    (c : ℕ) (s : Text) (p : Pos) → (bump c p).line + newlines s ≡ p.line + newlines (c ∷ s)
unfolding bump newlines
bump-newlines c s p = ground arith

pub Eats-before :
    {s r : Text} {p q : Pos}
    → Eats s p r q
    → (before : Text) × (s ≡ before ++ r)
      × (q.line ≡ p.line + newlines before)
      × (q.col ≡ column p.col before)
unfolding newlines includes
Eats-before here = ([], refl, omega arith, omega arith)
Eats-before {p = p} (next {c} e) =
    let (before, split, line, col) = Eats-before e in
    (
      c ∷ before,
      ap (λ t. c ∷ t) split,
      line ∙ bump-newlines c before p,
      col ∙ bump-column c before p,
    )

pub column_start : (s : Text) → column 1 s ≡ 1 + length (last_line s)
unfolding last_line includes
column_start [] = refl
column_start (c ∷ s) = ground arith
