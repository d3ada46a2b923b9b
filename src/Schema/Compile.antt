-- ===== src/Schema/Compile.antt =====
-- index.js: `compileSchema`.
pub mod Laws
pub mod Bounds
use ores_lib_core.Base.{List, Text}
use ores_lib_core.Js.{Heap, Value}
use ores_lib_core.Schema.Log.{Diagnostic}
use ores_lib_core.Schema.Validate.{Validation, valid, invalid, validate}
use ores_lib_core.Schema.Emit.{emit_json_schema, emit_typescript}
use ores_lib_core.Schema.Postgres.{emit_postgres}

pub record Artifacts : Type 0 where
  pub json_schema : Text
  pub typescript : Text
  pub postgres : Text

-- The two results, `ok: false` with a first diagnostic and those behind it.
pub data Compiled : Type 0 where
  compiled : Artifacts → Compiled
  rejected : Diagnostic → List Diagnostic → Compiled

abbrev pub compile_valid : Validation → Compiled
compile_valid (invalid d ds) = rejected d ds
compile_valid (valid ir) = compiled record {
  json_schema = emit_json_schema ir;
  typescript = emit_typescript ir;
  postgres = emit_postgres ir;
}

unfoldable pub compile_schema : Heap → Value → Compiled
unfolding validate
compile_schema heap input = compile_valid (validate heap input)
