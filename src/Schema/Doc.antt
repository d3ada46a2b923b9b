-- ===== src/Schema/Doc.antt =====
-- `JSON.stringify` as naming.js, validate.js and emit.js use it: on strings, numbers, arrays and
-- objects that the code has built itself, without indentation or with two spaces.
use ores_lib_core.Base.{
  ℕ, zero, suc, ◌+◌, ◌-◌, ◌/◌, ◌^◌, ◌%◌, Bool, true, false, not, ◌&&◌, ◌||◌, List, [], ◌∷◌, ◌++◌,
  map, Text, text, decimal, nat_eq, ◌==◌, leb, ltb, if◌then◌else◌,
}

mutual
  pub data Doc : Type 0 where
    bool : Bool → Doc
    nat neg : ℕ → Doc
    str : Text → Doc
    array : Docs → Doc
    object : Members → Doc

  pub data Docs : Type 0 where
    nil : Docs
    cons : Doc → Docs → Docs

  pub data Members : Type 0 where
    empty : Members
    member : Text → Doc → Members → Members

unfoldable pub docs : List Doc → Docs
docs [] = nil
docs (d ∷ ds) = cons d (docs ds)

-- A list of strings as a JSON array
abbrev pub texts : List Text → Doc
texts ss = array (docs (map str ss))

unfoldable pub members : List (Text × Doc) → Members
members [] = empty
members ((k, d) ∷ r) = member k d (members r)

abbrev pub hex_digit : ℕ → ℕ
hex_digit n = if ltb n 10 then b'0' + n else b'a' + (n - 10)

-- The `w` lowest hexadecimal digits of a number
unfoldable pub hex_low : ℕ → ℕ → Text
hex_low zero n = []
hex_low (suc w) n = hex_low w (n / 16) ++ hex_digit (n % 16) ∷ []

-- All of its digits but leading zeros; a fuel of the number itself is enough.
unfoldable pub hex_digits : ℕ → ℕ → Text
hex_digits fuel zero = []
hex_digits zero (suc n) = []
hex_digits (suc fuel) (suc n) = hex_digits fuel (suc n / 16) ++ hex_digit (suc n % 16) ∷ []

-- toString(16).padStart(w, "0"): the digits beyond the `w` lowest are kept.
unfoldable pub hex_padded : ℕ → ℕ → Text
unfolding hex_low hex_digits
hex_padded w n = hex_digits (n / 16 ^ w) (n / 16 ^ w) ++ hex_low w n

abbrev pub is_high : ℕ → Bool
is_high c = leb 0xd800 c && leb c 0xdbff

abbrev pub is_low : ℕ → Bool
is_low c = leb 0xdc00 c && leb c 0xdfff

abbrev pub low_next : Text → Bool
low_next [] = false
low_next (c ∷ s) = is_low c

unfoldable pub unicode_escape : ℕ → Text
unfolding hex_padded
unicode_escape c = text "\\u" ++ hex_padded 4 c

-- A code unit in quotes; `lone` says that it is a surrogate without its other half.
unfoldable pub escape_unit : Bool → ℕ → Text
escape_unit lone c =
    if c == b'"' || c == b'\\'
    then b'\\' ∷ c ∷ []
    else if c == 8
    then text "\\b"
    else if c == 9
    then text "\\t"
    else if c == 10
    then text "\\n"
    else if c == 12
    then text "\\f"
    else if c == 13
    then text "\\r"
    else if ltb c 32 || lone
    then unicode_escape c
    else c ∷ []

unfoldable pub escape_from : Bool → Text → Text
unfolding escape_unit
escape_from after_high [] = []
escape_from after_high (c ∷ s) =
    escape_unit ((is_high c && not (low_next s)) || (is_low c && not after_high)) c
    ++ escape_from (is_high c) s

unfoldable pub quoted : Text → Text
unfolding escape_from
quoted s = b'"' ∷ escape_from false s ++ b'"' ∷ []

abbrev pub bool_text : Bool → Text
bool_text true = text "true"
bool_text false = text "false"

abbrev pub spaces : ℕ → Text
spaces zero = []
spaces (suc n) = 32 ∷ 32 ∷ spaces n

-- What stands in front of an element, a member and a closing bracket.
abbrev pub new_line : Bool → ℕ → Text
new_line true depth = 10 ∷ spaces depth
new_line false depth = []

abbrev pub colon : Bool → Text
colon true = text ": "
colon false = text ":"

unfoldable mutual
  pub print : Bool → ℕ → Doc → Text
  print pretty depth (bool b) = bool_text b
  print pretty depth (nat n) = decimal n
  print pretty depth (neg n) = b'-' ∷ decimal n
  print pretty depth (str s) = quoted s
  print pretty depth (array nil) = text "[]"
  print pretty depth (array (cons d ds)) =
      text "["
      ++ new_line pretty (suc depth)
      ++ print pretty (suc depth) d
      ++ print_rest pretty (suc depth) ds
      ++ new_line pretty depth
      ++ text "]"
  print pretty depth (object empty) = text "{}"
  print pretty depth (object (member k d r)) =
      text "{"
      ++ new_line pretty (suc depth)
      ++ quoted k
      ++ colon pretty
      ++ print pretty (suc depth) d
      ++ print_members pretty (suc depth) r
      ++ new_line pretty depth
      ++ text "}"

  pub print_rest : Bool → ℕ → Docs → Text
  print_rest pretty depth nil = []
  print_rest pretty depth (cons d ds) =
      b',' ∷ new_line pretty depth ++ print pretty depth d ++ print_rest pretty depth ds

  pub print_members : Bool → ℕ → Members → Text
  print_members pretty depth empty = []
  print_members pretty depth (member k d r) =
      b',' ∷ new_line pretty depth
      ++ quoted k
      ++ colon pretty
      ++ print pretty depth d
      ++ print_members pretty depth r

-- JSON.stringify(value)
unfoldable pub stringify : Doc → Text
unfolding print
stringify d = print false 0 d

-- JSON.stringify(value, null, 2)
unfoldable pub stringify_indented : Doc → Text
unfolding print
stringify_indented d = print true 0 d
