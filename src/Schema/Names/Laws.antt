-- ===== src/Schema/Names/Laws.antt =====
-- naming.js: the names of constraints are SQL names.
use Prim.Native.Nat.{bit_xor}
use ores_lib_core.Base.{
  ℕ, zero, suc, ◌+◌, ◌*◌, ◌^◌, ◌/◌, List, ap, ◌%◌, ◌<◌, ◌≤◌, ◌≡◌, refl, and_iff, le→leb, Bool, true,
  ◌||◌, [], ◌∷◌, ◌++◌, Text, text, every, length, length-append, is_lower, is_digit, nat_eq, ◌==◌,
  arith,
}
use ores_lib_core.Schema.Doc.{
  Doc, str, array, docs, stringify, hex_padded, hex_low, hex_digits, hex_digit,
}
use ores_lib_core.Schema.Names.{constraint_name, constraint_hash, fnv1a, code_points}
use ores_lib_core.Schema.Shape.{identifier, sql_name}

abbrev is_sql_unit : ℕ → Bool
is_sql_unit c = is_lower c || is_digit c || c == b'_'

every-append :
    (p : ℕ → Bool) (s t : Text) → every p s ≡ true → every p t ≡ true → every p (s ++ t) ≡ true
every-append p [] t h k = k
every-append p (c ∷ s) t h k = ground (arith, every-append p s t)

hex_digit-is_sql_unit : (n : ℕ) → n < 16 → is_sql_unit (hex_digit n) ≡ true
hex_digit-is_sql_unit n h = ground arith

every-hex_low : (w n : ℕ) → every is_sql_unit (hex_low w n) ≡ true
unfolding hex_low
every-hex_low zero n = refl
every-hex_low (suc w) n =
    every-append is_sql_unit (hex_low w (n / 16)) (hex_digit (n % 16) ∷ [])
      (every-hex_low w (n / 16)) (ground (arith, hex_digit-is_sql_unit (n % 16) (omega arith)))

length-hex_low : (w n : ℕ) → length (hex_low w n) ≡ w
unfolding hex_low
length-hex_low zero n = refl
length-hex_low (suc w) n =
    omega (
      arith,
      length-append (hex_low w (n / 16)) (hex_digit (n % 16) ∷ []),
      length-hex_low w (n / 16),
    )

-- A number of 64 bits has no digit beyond the sixteenth.
hex_padded-hex_low : (n : ℕ) → n < 2 ^ 64 → hex_padded 16 n ≡ hex_low 16 n
unfolding hex_padded hex_digits
hex_padded-hex_low n h =
    let none : n / 16 ^ 16 ≡ 0 = omega arith in ap (λ d. hex_digits d d ++ hex_low 16 n) none

fnv1a_lt : (hash : ℕ) (s : List ℕ) → hash < 2 ^ 64 → fnv1a hash s < 2 ^ 64
unfolding fnv1a
fnv1a_lt hash [] h = h
fnv1a_lt hash (c ∷ s) h =
    fnv1a_lt (bit_xor hash c * 0x100000001b3 % 2 ^ 64) s (wrap_lt (bit_xor hash c * 0x100000001b3))
  where
    wrap_lt : (n : ℕ) → n % 2 ^ 64 < 2 ^ 64
    wrap_lt n = omega arith

constraint_hash_lt :
    (schema table kind : Text) (identity : Doc)
    → constraint_hash schema table kind identity < 2 ^ 64
unfolding constraint_hash
constraint_hash_lt schema table kind identity =
    fnv1a_lt 0xcbf29ce484222325
      (code_points (
        stringify (
          array (
            docs (
              str (text "ores.schema-ir.v1")
              ∷ str schema
              ∷ str table
              ∷ str kind
              ∷ identity
              ∷ [])))))
      (omega arith)

-- A name of the form that `constraintName` returns, for any sixteen characters behind the kind.
prefixed-sql_name :
    (kind digits : Text)
    → every is_sql_unit kind ≡ true
    → length kind ≤ 38
    → every is_sql_unit digits ≡ true
    → length digits ≡ 16
    → (sql_name (text "ores_ir_" ++ kind ++ text "_" ++ digits) ≡ true)
      × (length (text "ores_ir_" ++ kind ++ text "_" ++ digits) ≡ 25 + length kind)
unfolding identifier text
prefixed-sql_name kind digits units short hex sixteen =
    let head = text "res_ir_" ++ kind in
    let body = head ++ text "_" ++ digits in
    let fine =
      every-append is_sql_unit (head ++ text "_") digits
        (every-append is_sql_unit head (text "_")
          (every-append is_sql_unit (text "res_ir_") kind refl units) refl)
        hex in
    let size : length body ≡ 24 + length kind = omega (
      arith,
      length-append (head ++ text "_") digits,
      length-append head (text "_"),
      length-append (text "res_ir_") kind,
    ) in
    ((and_iff _ _).1 (fine, le→leb (length body) 62 (omega (arith, size))), omega (arith, size))

-- For a kind of at most 38 characters of SQL names, such as pk, uk and fk, the name of a constraint
-- matches the pattern of SQL names whatever the schema, the table and the identity are, and it has
-- 25 characters more than the kind.
pub constraint_name-sql_name :
    (schema table kind : Text) (identity : Doc)
    → every is_sql_unit kind ≡ true
    → length kind ≤ 38
    → (sql_name (constraint_name schema table kind identity) ≡ true)
      × (length (constraint_name schema table kind identity) ≡ 25 + length kind)
unfolding constraint_name
constraint_name-sql_name schema table kind identity units short =
    let hash = constraint_hash schema table kind identity in
    rw (hex_padded-hex_low hash (constraint_hash_lt schema table kind identity)) (
      prefixed-sql_name kind (hex_low 16 hash) units short (every-hex_low 16 hash)
        (length-hex_low 16 hash))
