-- ===== src/SchemaIr/Compile/Laws.antt =====
-- schema-ir/index.js: what a compilation returns.
use ores_lib_core.Base.{◌⊎◌, [], ◌∷◌, ◌≡◌, map, Text, NoDup, nat_eq, list_eq}
use ores_lib_core.Js.{Heap, Value}
use ores_lib_core.Schema.Log.{Diagnostic}
use ores_lib_core.SchemaIr.{returned, thrown, unfollowed, Ir}
use ores_lib_core.SchemaIr.Normalize.{normalize_schema_ir}
use ores_lib_core.SchemaIr.Normalize.Spec.{IsNormal}
use ores_lib_core.SchemaIr.Emit.{emit_sql, relation_names}
use ores_lib_core.SchemaIr.Emit.Laws.{HasTables}
use ores_lib_core.SchemaIr.Compile.{
  path_of, Artifacts, Compiled, ok, failed, unfollowed_input, artifacts,
}

-- The files of a normal document whose relation names are distinct; the script of SQL among them has
-- the statement of the table of each entity.
abbrev pub IsOutput : (Text → Text) → Heap → Value → Artifacts → Type 0
IsOutput sha256 heap input a =
    (ir : Ir) × (sql : Text) × (normalize_schema_ir heap input ≡ returned ir)
    × IsNormal ir
    × NoDup (relation_names sha256 ir)
    × HasTables sha256 ir sql
    × (a ≡ artifacts sha256 ir sql)
    × NoDup (map path_of a.files)

-- A failure is that of the normalization, or that of the names in the SQL of a normal document.
abbrev pub IsFailure : (Text → Text) → Heap → Value → Diagnostic → Type 0
IsFailure sha256 heap input d =
    (normalize_schema_ir heap input ≡ thrown d)
    ⊎ ((ir : Ir) × (normalize_schema_ir heap input ≡ returned ir) × (emit_sql sha256 ir ≡ thrown d))

-- An input that is not followed is not followed by the normalization.
abbrev pub IsCompiled : (Text → Text) → Heap → Value → Compiled → Type 0
IsCompiled sha256 heap input (ok a) = IsOutput sha256 heap input a
IsCompiled sha256 heap input (failed ds) =
    (d : Diagnostic) × (ds ≡ d ∷ []) × IsFailure sha256 heap input d
IsCompiled sha256 heap input unfollowed_input = normalize_schema_ir heap input ≡ unfollowed
