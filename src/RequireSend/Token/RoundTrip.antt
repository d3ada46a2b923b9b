-- ===== src/RequireSend/Token/RoundTrip.antt =====
-- tokenize undoes a printer that writes the tokens with a space after each.
use ores_lib_core.Base.{
  ℕ, zero, suc, ◌≤◌, ◌≡◌, refl, ◌||◌, true, false, List, [], ◌∷◌, ◌++◌, map, Text, length,
  length-append, nat_eq, ◌==◌, every, All, arith, ap, ◌∙◌,
}
use ores_lib_core.Redaction.{is_space}
use ores_lib_core.RequireSend.Token.{
  Kind, Pos, Token, start, bump, skip_string, take_ident, lex_one, lex, tokenize, singles,
  ident_token, is_ident_start, is_ident_part, string, pipe, arrow, ident, dot, lparen, rparen,
  lbracket, rbracket, lbrace, rbrace, semi, comma, eq,
}

-- A token without its position.
abbrev pub Word : Type 0
Word = Kind × Text

abbrev pub word_of : Token → Word
word_of t = (t.kind, t.value)

-- How the tokens with a fixed value are written.
abbrev pub sign : Kind → Text
sign string = []
sign pipe = b'|' ∷ b'>' ∷ []
sign arrow = b'=' ∷ b'>' ∷ []
sign ident = []
sign dot = b'.' ∷ []
sign lparen = b'(' ∷ []
sign rparen = b')' ∷ []
sign lbracket = b'[' ∷ []
sign rbracket = b']' ∷ []
sign lbrace = b'{' ∷ []
sign rbrace = b'}' ∷ []
sign semi = b';' ∷ []
sign comma = b',' ∷ []
sign eq = b'=' ∷ []

abbrev pub IsName : Text → Type 0
IsName [] = ⊥
IsName (c ∷ s) = (is_ident_start c ≡ true) × (every is_ident_part s ≡ true)

-- The values that the tokenizer gives to tokens of a kind.
abbrev pub IsWord : Word → Type 0
IsWord (ident, value) = IsName value
IsWord (kind, value) = value ≡ sign kind

-- Every string is written as an empty one.
abbrev pub written : Word → Text
written (string, value) = b'"' ∷ b'"' ∷ []
written (kind, value) = value

unfoldable pub render : List Word → Text
render [] = []
render (w ∷ ws) = written w ++ b' ' ∷ render ws

-- Where the loop stands after the word.
abbrev Rereads : ℕ → Text → Pos → Word → Type 0
Rereads fuel more p w =
    (q : Pos) × (map word_of (lex (suc fuel) (written w ++ b' ' ∷ more) p)
      ≡ w ∷ map word_of (lex fuel (b' ' ∷ more) q))

take_ident-space :
    (s more : Text) (p : Pos)
    → every is_ident_part s ≡ true
    → ((take_ident (s ++ b' ' ∷ more) p).0 ≡ s)
      × ((take_ident (s ++ b' ' ∷ more) p).1 ≡ b' ' ∷ more)
unfolding take_ident
take_ident-space [] more p h = (refl, refl)
take_ident-space (c ∷ s) more p h = ground (arith, take_ident-space s more (bump c p))

-- No test of the loop before that for a name holds of its first character.
lex_one-name :
    (c : ℕ) (s : Text) (p : Pos)
    → is_ident_start c ≡ true
    → lex_one c s p ≡ ident_token p (take_ident (c ∷ s) p)
unfolding lex_one
lex_one-name c s p h =
    let slash : (c == b'/') ≡ false = ground arith in
    let quote : (c == b'"' || c == b'\'' || c == b'`') ≡ false = ground arith in
    let space : is_space c ≡ false = ground arith in
    let bar : (c == b'|') ≡ false = ground arith in
    let equals : (c == b'=') ≡ false = ground arith in
    rw slash (rw quote (rw space (rw bar (rw equals (rw h refl)))))

lex-name :
    (c : ℕ) (s : Text) (fuel : ℕ) (more : Text) (p : Pos)
    → is_ident_start c ≡ true
    → every is_ident_part s ≡ true
    → Rereads fuel more p (ident, c ∷ s)
unfolding lex take_ident
lex-name c s fuel more p h k =
    let part : is_ident_part c ≡ true = ground arith in
    let (value, rest) = take_ident-space s more (bump c p) k in
    let after = take_ident (s ++ b' ' ∷ more) (bump c p) in
    rw (lex_one-name c (s ++ b' ' ∷ more) p h) (rw part (rw value (rw rest (after.2, refl))))

lex-sign :
    (kind : Kind) (value : Text) (fuel : ℕ) (more : Text) (p : Pos)
    → IsWord (kind, value)
    → Rereads fuel more p (kind, value)
unfolding lex lex_one skip_string singles
lex-sign string value fuel more p h = rw h (bump b'"' (bump b'"' p), refl)
lex-sign pipe value fuel more p h = rw h (bump b'>' (bump b'|' p), refl)
lex-sign arrow value fuel more p h = rw h (bump b'>' (bump b'=' p), refl)
lex-sign ident [] fuel more p h = absurd h
lex-sign ident (c ∷ s) fuel more p (h, k) = lex-name c s fuel more p h k
lex-sign dot value fuel more p h = rw h (bump b'.' p, refl)
lex-sign lparen value fuel more p h = rw h (bump b'(' p, refl)
lex-sign rparen value fuel more p h = rw h (bump b')' p, refl)
lex-sign lbracket value fuel more p h = rw h (bump b'[' p, refl)
lex-sign rbracket value fuel more p h = rw h (bump b']' p, refl)
lex-sign lbrace value fuel more p h = rw h (bump b'{' p, refl)
lex-sign rbrace value fuel more p h = rw h (bump b'}' p, refl)
lex-sign semi value fuel more p h = rw h (bump b';' p, refl)
lex-sign comma value fuel more p h = rw h (bump b',' p, refl)
lex-sign eq value fuel more p h = rw h (bump b'=' p, refl)

length-written :
    (kind : Kind) (value : Text) → IsWord (kind, value) → 1 ≤ length (written (kind, value))
length-written string value h = omega arith
length-written ident [] h = absurd h
length-written ident (c ∷ s) h = omega arith
length-written pipe value h = rw h (omega arith)
length-written arrow value h = rw h (omega arith)
length-written dot value h = rw h (omega arith)
length-written lparen value h = rw h (omega arith)
length-written rparen value h = rw h (omega arith)
length-written lbracket value h = rw h (omega arith)
length-written rbracket value h = rw h (omega arith)
length-written lbrace value h = rw h (omega arith)
length-written rbrace value h = rw h (omega arith)
length-written semi value h = rw h (omega arith)
length-written comma value h = rw h (omega arith)
length-written eq value h = rw h (omega arith)

-- A space is a round of its own.
lex-render :
    (ws : List Word) (fuel : ℕ) (p : Pos)
    → All IsWord ws
    → length (render ws) ≤ fuel
    → map word_of (lex fuel (render ws) p) ≡ ws
unfolding lex render lex_one
lex-render [] fuel p h l = refl
lex-render ((kind, value) ∷ ws) zero p (w, h) l =
    let a = length-append (written (kind, value)) (b' ' ∷ render ws) in absurd (omega arith)
lex-render ((kind, value) ∷ ws) (suc zero) p (w, h) l =
    let a = length-append (written (kind, value)) (b' ' ∷ render ws) in
    let b = length-written kind value w in absurd (omega arith)
lex-render ((kind, value) ∷ ws) (suc (suc fuel)) p (w, h) l =
    let (q, e) = lex-sign kind value (suc fuel) (render ws) p w in
    let a = length-append (written (kind, value)) (b' ' ∷ render ws) in
    let b = length-written kind value w in
    e ∙ ap (◌∷◌ (kind, value)) (lex-render ws fuel (bump b' ' q) h (omega arith))

-- Tokens written out in any order, with the values that their kinds have, are read back as they
-- were.
pub tokenize-render : (ws : List Word) → All IsWord ws → map word_of (tokenize (render ws)) ≡ ws
unfolding tokenize
tokenize-render ws h = lex-render ws (length (render ws)) start h (omega arith)
