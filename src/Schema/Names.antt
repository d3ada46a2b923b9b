-- ===== src/Schema/Names.antt =====
-- naming.js.
pub mod Laws
use Prim.Native.Nat.{bit_xor}
use ores_lib_core.Base.{
  ℕ, ◌+◌, ◌-◌, ◌*◌, ◌%◌, ◌^◌, ◌&&◌, List, [], ◌∷◌, ◌++◌, Text, text, if◌then◌else◌,
}
use ores_lib_core.Schema.Ir.{Storage, ForeignKey}
use ores_lib_core.Schema.Doc.{Doc, str, array, docs, texts, hex_padded, is_high, is_low, stringify}

abbrev pub code_point : ℕ → ℕ → ℕ
code_point high low = 0x10000 + (high - 0xd800) * 0x400 + (low - 0xdc00)

-- The characters that `for (const character of source)` visits.
unfoldable pub code_points : Text → List ℕ
code_points [] = []
code_points (c ∷ []) = c ∷ []
code_points (c ∷ d ∷ s) =
    let pair = code_points s in
    let single = code_points (d ∷ s) in
    if is_high c && is_low d then code_point c d ∷ pair else c ∷ single

-- The loop of the hash; BigInt.asUintN(64, n) is n % 2 ^ 64.
unfoldable pub fnv1a : ℕ → List ℕ → ℕ
fnv1a hash [] = hash
fnv1a hash (c ∷ s) = fnv1a (bit_xor hash c * 0x100000001b3 % 2 ^ 64) s

-- The hash of constraintName(storage, kind, identity), for the storage's schema and table.
unfoldable pub constraint_hash : Text → Text → Text → Doc → ℕ
unfolding code_points fnv1a stringify docs
constraint_hash schema table kind identity =
    let source = stringify (
      array (
        docs
          (str (text "ores.schema-ir.v1") ∷ str schema ∷ str table ∷ str kind ∷ identity ∷ []))) in
    fnv1a 0xcbf29ce484222325 (code_points source)

unfoldable pub constraint_name : Text → Text → Text → Doc → Text
unfolding constraint_hash hex_padded
constraint_name schema table kind identity =
    text "ores_ir_"
    ++ kind
    ++ text "_"
    ++ hex_padded 16 (constraint_hash schema table kind identity)

-- foreignIdentity(key, target)
unfoldable pub foreign_identity : ForeignKey → Storage → Doc
unfolding docs
foreign_identity key target =
    array (
      docs (texts key.fields ∷ str target.schema ∷ str target.table ∷ texts key.target_fields ∷ []))
