-- ===== src/RequireSend/Token.antt =====
-- require-send.mjs: tokenize. The rest of the source stands for the index into it.
pub mod Reading
pub mod Laws
pub mod RoundTrip
use ores_lib_core.Base.{
  ℕ, zero, suc, ◌+◌, ◌≡◌, refl, sym, ap, ◌∙◌, ◌&&◌, ◌||◌, not, Bool, true, false, Option, none,
  some, List, [], ◌∷◌, Text, text, StrictEq, nat_eq, list_eq, ◌==◌, nat_beq, nat_beq_sound,
  nat_beq_refl, is_lower, is_upper, is_digit, drop, length, if◌then◌else◌,
}
use ores_lib_core.Redaction.{is_space}

pub data Kind : Type 0 where
  string : Kind
  pipe : Kind
  arrow : Kind
  ident : Kind
  dot : Kind
  lparen : Kind
  rparen : Kind
  lbracket : Kind
  rbracket : Kind
  lbrace : Kind
  rbrace : Kind
  semi : Kind
  comma : Kind
  eq : Kind

abbrev ordinal : Kind → ℕ
ordinal string = 0
ordinal pipe = 1
ordinal arrow = 2
ordinal ident = 3
ordinal dot = 4
ordinal lparen = 5
ordinal rparen = 6
ordinal lbracket = 7
ordinal rbracket = 8
ordinal lbrace = 9
ordinal rbrace = 10
ordinal semi = 11
ordinal comma = 12
ordinal eq = 13

unfoldable pub same_kind : Kind → Kind → Bool
same_kind a b = nat_beq (ordinal a) (ordinal b)

kinds : List Kind
kinds =
    string ∷ pipe ∷ arrow ∷ ident ∷ dot ∷ lparen ∷ rparen ∷ lbracket ∷ rbracket ∷ lbrace ∷ rbrace
    ∷ semi ∷ comma ∷ eq ∷ []

at_ordinal : ℕ → List Kind → Kind
at_ordinal n [] = eq
at_ordinal zero (k ∷ ks) = k
at_ordinal (suc n) (k ∷ ks) = at_ordinal n ks

at_ordinal-ordinal : (k : Kind) → at_ordinal (ordinal k) kinds ≡ k
unfolding at_ordinal kinds
at_ordinal-ordinal string = refl
at_ordinal-ordinal pipe = refl
at_ordinal-ordinal arrow = refl
at_ordinal-ordinal ident = refl
at_ordinal-ordinal dot = refl
at_ordinal-ordinal lparen = refl
at_ordinal-ordinal rparen = refl
at_ordinal-ordinal lbracket = refl
at_ordinal-ordinal rbracket = refl
at_ordinal-ordinal lbrace = refl
at_ordinal-ordinal rbrace = refl
at_ordinal-ordinal semi = refl
at_ordinal-ordinal comma = refl
at_ordinal-ordinal eq = refl

pub same_kind_sound : (a b : Kind) → same_kind a b ≡ true → a ≡ b
unfolding same_kind
same_kind_sound a b h =
    sym (at_ordinal-ordinal a)
    ∙ ap (λ n. at_ordinal n kinds) (nat_beq_sound (ordinal a) (ordinal b) h)
    ∙ at_ordinal-ordinal b

pub same_kind_refl : (k : Kind) → same_kind k k ≡ true
unfolding same_kind
same_kind_refl k = nat_beq_refl (ordinal k)

instance abbrev pub kind_eq : StrictEq Kind
kind_eq = record { identical = same_kind; sound = same_kind_sound; reflexive = same_kind_refl }

pub record Pos : Type 0 where
  pub line : ℕ
  pub col : ℕ

pub record Token : Type 0 where
  pub kind : Kind
  pub value : Text
  pub line : ℕ
  pub col : ℕ

-- push(type, value, startLine, startCol)
abbrev pub token_at : Pos → Kind → Text → Token
token_at p kind value = record { kind = kind; value = value; line = p.line; col = p.col }

unfoldable pub bump : ℕ → Pos → Pos
bump ch p =
    if ch == b'\n'
    then record { line = p.line + 1; col = 1 }
    else record { line = p.line; col = p.col + 1 }

abbrev pub head_is : ℕ → Text → Bool
head_is c [] = false
head_is c (d ∷ s) = d == c

-- `// …` up to the end of the line
unfoldable pub skip_line : Text → Pos → Text × Pos
skip_line [] p = ([], p)
skip_line (c ∷ s) p = let rest = skip_line s (bump c p) in if c == b'\n' then (c ∷ s, p) else rest

-- `/* … */` after its opening
unfoldable pub skip_block : Text → Pos → Text × Pos
skip_block [] p = ([], p)
skip_block (c ∷ s) p =
    let rest = skip_block s (bump c p) in
    if c == b'*' && head_is b'/' s then (drop 1 s, bump b'/' (bump b'*' p)) else rest

-- A quoted text after its opening quote.
unfoldable pub skip_string : ℕ → Text → Pos → Text × Pos
skip_string q [] p = ([], p)
skip_string q (c ∷ []) p =
    if c == q
    then ([], bump q p)
    else if c == b'\n' && not (q == b'`')
    then (c ∷ [], p)
    else ([], bump c p)
skip_string q (c ∷ d ∷ s) p =
    let escaped = skip_string q s (bump d (bump c p)) in
    let rest = skip_string q (d ∷ s) (bump c p) in
    if c == q
    then (d ∷ s, bump q p)
    else if c == b'\\'
    then escaped
    else if c == b'\n' && not (q == b'`')
    then (c ∷ d ∷ s, p)
    else rest

abbrev pub is_ident_start : ℕ → Bool
is_ident_start c = is_upper c || is_lower c || c == b'_'

abbrev pub is_ident_part : ℕ → Bool
is_ident_part c = is_ident_start c || is_digit c

-- The characters of an identifier, and what follows them.
unfoldable pub take_ident : Text → Pos → Text × Text × Pos
take_ident [] p = ([], [], p)
take_ident (c ∷ s) p =
    let (value, rest, q) = take_ident s (bump c p) in
    if is_ident_part c then (c ∷ value, rest, q) else ([], c ∷ s, p)

unfoldable pub singles : ℕ → Option Kind
singles c =
    if c == b'.'
    then some dot
    else if c == b'('
    then some lparen
    else if c == b')'
    then some rparen
    else if c == b'['
    then some lbracket
    else if c == b']'
    then some rbracket
    else if c == b'{'
    then some lbrace
    else if c == b'}'
    then some rbrace
    else if c == b';'
    then some semi
    else if c == b','
    then some comma
    else if c == b'='
    then some eq
    else none

abbrev pub single_token : Pos → ℕ → Option Kind → List Token
single_token p c none = []
single_token p c (some kind) = token_at p kind (c ∷ []) ∷ []

abbrev pub pushing : Token → Text × Pos → List Token × Text × Pos
pushing token after = (token ∷ [], after.0, after.1)

abbrev pub quiet : Text × Pos → List Token × Text × Pos
quiet after = ([], after.0, after.1)

abbrev pub ident_token : Pos → Text × Text × Pos → List Token × Text × Pos
ident_token p (value, rest, q) = (token_at p ident value ∷ [], rest, q)

-- One round of the loop, at the character `c` before `s`: the tokens pushed, and where it goes on.
unfoldable pub lex_one : ℕ → Text → Pos → List Token × Text × Pos
lex_one c s p =
    if c == b'/' && head_is b'/' s
    then quiet (skip_line (c ∷ s) p)
    else if c == b'/' && head_is b'*' s
    then quiet (skip_block (drop 1 s) (bump b'*' (bump b'/' p)))
    else if c == b'"' || c == b'\'' || c == b'`'
    then pushing (token_at p string []) (skip_string c s (bump c p))
    else if is_space c
    then quiet (s, bump c p)
    else if c == b'|' && head_is b'>' s
    then pushing (token_at p pipe (c ∷ b'>' ∷ [])) (drop 1 s, bump b'>' (bump b'|' p))
    else if c == b'=' && head_is b'>' s
    then pushing (token_at p arrow (c ∷ b'>' ∷ [])) (drop 1 s, bump b'>' (bump b'=' p))
    else if is_ident_start c
    then ident_token p (take_ident (c ∷ s) p)
    else (single_token p c (singles c), s, bump c p)

abbrev pub append_tokens : List Token → List Token → List Token
append_tokens [] rest = rest
append_tokens (t ∷ ts) rest = t ∷ append_tokens ts rest

-- The loop; `Laws` shows that the length of the source is fuel enough.
unfoldable pub lex : ℕ → Text → Pos → List Token
lex fuel [] p = []
lex zero (c ∷ s) p = []
lex (suc fuel) (c ∷ s) p =
    let (tokens, rest, q) = lex_one c s p in append_tokens tokens (lex fuel rest q)

abbrev pub start : Pos
start = record { line = 1; col = 1 }

unfoldable pub tokenize : Text → List Token
tokenize source = lex (length source) source start
