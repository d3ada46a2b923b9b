-- ===== src/RequireSend/Token/Laws.antt =====
-- tokenize: the loop reads to the end of the source, and every token stands where it says.
use ores_lib_core.Base.{
  ℕ, zero, suc, ◌≤◌, ◌≡◌, refl, inl, inr, ◌&&◌, ◌||◌, true, List, [], Option, none, some, ◌∷◌, Text,
  length, drop, nat_eq, ◌==◌, All, All-map, arith, Bool-cases, eq_iff, and_iff, sym, starts_with,
  eq_refl, if-elim, ◌++◌, ◌+◌, ◌∙◌,
}
use ores_lib_core.Redaction.{is_space}
use ores_lib_core.RequireSend.Token.{
  Kind, Pos, Token, start, quiet, pushing, ident_token, bump, head_is, skip_line, skip_block,
  skip_string, take_ident, lex_one, lex, tokenize, append_tokens, is_ident_start, is_ident_part,
  token_at, single_token, singles, pipe, arrow, string,
}
use ores_lib_core.RequireSend.Token.Reading.{
  Eats, here, next, Eats-trans, Eats-length, skip_line-Eats, skip_block-Eats, skip_string-Eats,
  take_ident-Eats, newlines, last_line, column_start, Eats-before,
}

-- The loop without fuel: round after round until the source is used up.
pub data Lexes : Text → Pos → List Token → Type 0 where
  done : (p : Pos) → Lexes [] p []
  round :
      (c : ℕ) (s : Text) (p : Pos) (ts : List Token)
      → Lexes (lex_one c s p).1 (lex_one c s p).2 ts
      → Lexes (c ∷ s) p (append_tokens (lex_one c s p).0 ts)

-- A token read at `p`, where the source goes on with `s`: its position is `p`, its value a prefix.
abbrev pub IsReadAt : Text → Pos → Token → Type 0
IsReadAt s p t = (t.line ≡ p.line) × (t.col ≡ p.col) × (starts_with s t.value ≡ true)

-- What a round at `c` before `s` leaves: it has read `c`, and its token stands there.
abbrev pub IsRound : ℕ → Text → Pos → List Token × Text × Pos → Type 0
IsRound c s p (tokens, rest, q) =
    Eats (c ∷ s) p rest q × (length rest ≤ length s) × All (IsReadAt (c ∷ s) p) tokens

quiet-IsRound :
    (c : ℕ) (s : Text) (p : Pos) (after : Text × Pos)
    → Eats s (bump c p) after.0 after.1
    → IsRound c s p (quiet after)
quiet-IsRound c s p after e = (next e, Eats-length e, tt)

token-IsRound :
    (c : ℕ) (s : Text) (p : Pos) (kind : Kind) (value : Text) (after : Text × Pos)
    → starts_with (c ∷ s) value ≡ true
    → Eats s (bump c p) after.0 after.1
    → IsRound c s p (pushing (token_at p kind value) after)
token-IsRound c s p kind value after h e = (next e, Eats-length e, ((refl, refl, h), tt))

-- The head of the rest, when the test has found it.
head_two : (c d : ℕ) (s : Text) → head_is d s ≡ true → starts_with (c ∷ s) (c ∷ d ∷ []) ≡ true
unfolding starts_with
head_two c d [] h = absurd (ground arith)
head_two c d (e ∷ s) h = rw ((eq_iff e d).0 h) (ground (arith, eq_refl c, eq_refl d))

head_rest : (d : ℕ) (s : Text) (p : Pos) → head_is d s ≡ true → Eats s p (drop 1 s) (bump d p)
head_rest d [] p h = absurd (ground arith)
head_rest d (e ∷ s) p h = rw ((eq_iff e d).0 h) (next here)

take_ident-prefix : (s : Text) (p : Pos) → starts_with s (take_ident s p).0 ≡ true
unfolding take_ident starts_with
take_ident-prefix [] p = refl
take_ident-prefix (c ∷ s) p = elim (Bool-cases (is_ident_part c)) [
  | inl t ↦ rw t (ground (arith, eq_refl c, take_ident-prefix s (bump c p)))
  | inr f ↦ rw f refl
]

ident-IsRound :
    (c : ℕ) (s : Text) (p : Pos)
    → is_ident_start c ≡ true
    → IsRound c s p (ident_token p (take_ident (c ∷ s) p))
unfolding take_ident starts_with
ident-IsRound c s p h =
    let part : is_ident_part c ≡ true = ground arith in
    rw part (
      next (take_ident-Eats s (bump c p)),
      Eats-length (take_ident-Eats s (bump c p)),
      ((refl, refl, ground (arith, eq_refl c, take_ident-prefix s (bump c p))), tt),
    )

single-IsRound :
    (c : ℕ) (s : Text) (p : Pos) (k : Option Kind) → IsRound c s p (single_token p c k, s, bump c p)
unfolding starts_with
single-IsRound c s p none = (next here, omega arith, tt)
single-IsRound c s p (some kind) =
    (next here, omega arith, ((refl, refl, ground (arith, eq_refl c)), tt))

skip_line-IsRound :
    (c : ℕ) (s : Text) (p : Pos) → c ≡ b'/' → IsRound c s p (quiet (skip_line (c ∷ s) p))
unfolding skip_line
skip_line-IsRound c s p e =
    rw e (quiet-IsRound b'/' s p (skip_line s (bump b'/' p)) (skip_line-Eats _ _))

skip_block-IsRound :
    (c : ℕ) (s : Text) (p : Pos)
    → (c == b'/' && head_is b'*' s) ≡ true
    → IsRound c s p (quiet (skip_block (drop 1 s) (bump b'*' (bump b'/' p))))
skip_block-IsRound c s p h =
    let (e, k) = (and_iff (c == b'/') (head_is b'*' s)).0 h in
    rw ((eq_iff c b'/').0 e) (
      quiet-IsRound b'/' s p (skip_block (drop 1 s) (bump b'*' (bump b'/' p)))
        (Eats-trans (head_rest b'*' s (bump b'/' p) k) (skip_block-Eats _ _)))

pair-IsRound :
    (c d b : ℕ) (s : Text) (p : Pos) (kind : Kind)
    → (c == b && head_is d s) ≡ true
    → IsRound c s p (pushing (token_at p kind (c ∷ d ∷ [])) (drop 1 s, bump d (bump b p)))
pair-IsRound c d b s p kind h =
    let (e, k) = (and_iff (c == b) (head_is d s)).0 h in
    rw (sym ((eq_iff c b).0 e)) (
      token-IsRound c s p kind (c ∷ d ∷ []) (drop 1 s, bump d (bump c p)) (head_two c d s k)
        (head_rest d s (bump c p) k))

-- Every branch of the loop is such a round.
pub lex_one-IsRound : (c : ℕ) (s : Text) (p : Pos) → IsRound c s p (lex_one c s p)
unfolding lex_one starts_with
lex_one-IsRound c s p =
    if-elim (IsRound c s p) (c == b'/' && head_is b'/' s) _ _
      (λ h. skip_line-IsRound c s p (ground arith))
      λ _. if-elim (IsRound c s p) (c == b'/' && head_is b'*' s) _ _ (skip_block-IsRound c s p) λ _.
        if-elim (IsRound c s p) (c == b'"' || c == b'\'' || c == b'`') _ _
          (λ h.
            token-IsRound c s p string [] (skip_string c s (bump c p)) refl
              (skip_string-Eats _ _ _))
          λ _.
            if-elim (IsRound c s p) (is_space c) _ _ (λ h. quiet-IsRound c s p _ here)
              λ _.
                if-elim (IsRound c s p) (c == b'|' && head_is b'>' s) _ _
                  (pair-IsRound c b'>' b'|' s p pipe)
                  λ _.
                    if-elim (IsRound c s p) (c == b'=' && head_is b'>' s) _ _
                      (pair-IsRound c b'>' b'=' s p arrow)
                      λ _.
                        if-elim (IsRound c s p) (is_ident_start c) _ _ (λ h. ident-IsRound c s p h)
                          λ _. single-IsRound c s p (singles c)

append_tokens-All :
    (P : Token → Type 0) (ts rest : List Token)
    → All P ts
    → All P rest
    → All P (append_tokens ts rest)
append_tokens-All P [] rest h k = k
append_tokens-All P (t ∷ ts) rest (p, h) k = (p, append_tokens-All P ts rest h k)

-- Reading gets to the token's position, and there its value is what the source goes on with.
abbrev IsReached : Text → Pos → Token → Type 0
IsReached s p t = (r : Text) × (q : Pos) × Eats s p r q × IsReadAt r q t

lex-IsReached : (fuel : ℕ) (s : Text) (p : Pos) → All (IsReached s p) (lex fuel s p)
unfolding lex
lex-IsReached fuel [] p = tt
lex-IsReached zero (c ∷ s) p = tt
lex-IsReached (suc fuel) (c ∷ s) p =
    let (e, l, here_read) = lex_one-IsRound c s p in
    let later = lex-IsReached fuel (lex_one c s p).1 (lex_one c s p).2 in
    append_tokens-All (IsReached (c ∷ s) p) (lex_one c s p).0 _
      (All-map (lex_one c s p).0 here_read λ t h. (c ∷ s, p, here, h))
      (All-map _ later λ t h. (h.0, h.1, Eats-trans e h.2, h.3))

lex-Lexes : (fuel : ℕ) (s : Text) (p : Pos) → length s ≤ fuel → Lexes s p (lex fuel s p)
unfolding lex
lex-Lexes fuel [] p h = done p
lex-Lexes zero (c ∷ s) p h = absurd (omega arith)
lex-Lexes (suc fuel) (c ∷ s) p h =
    let (e, l, r) = lex_one-IsRound c s p in
    round c s p _ (lex-Lexes fuel (lex_one c s p).1 (lex_one c s p).2 (omega arith))

-- The tokenizer reads any source to its end: its tokens are those of the loop run without fuel.
pub tokenize-Lexes : (source : Text) → Lexes source start (tokenize source)
unfolding tokenize
tokenize-Lexes source = lex-Lexes (length source) source start (omega arith)

-- A token is placed by the part of the source before it: its line is one more than the line feeds
-- there, its column one more than the characters on its line, and its value follows.
abbrev pub IsPlaced : Text → Token → Type 0
IsPlaced source t =
    (before rest : Text) × (source ≡ before ++ rest)
    × (t.line ≡ 1 + newlines before)
    × (t.col ≡ 1 + length (last_line before))
    × (starts_with rest t.value ≡ true)

-- Every token stands in the source at the line and column that it names, counted from the line
-- feeds before it, with its value there.
pub tokenize-IsPlaced : (source : Text) → All (IsPlaced source) (tokenize source)
unfolding tokenize
tokenize-IsPlaced source = All-map _ (lex-IsReached (length source) source start) λ t h.
    let (before, split, line, col) = Eats-before h.2 in
    (before, h.0, split, h.3.0 ∙ line, h.3.1 ∙ col ∙ column_start before, h.3.2)
