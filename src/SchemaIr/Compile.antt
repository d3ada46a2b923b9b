-- ===== src/SchemaIr/Compile.antt =====
-- schema-ir/index.js: compileSchemaIr.
pub mod Paths
pub mod Laws
use ores_lib_core.Base.{ℕ, List, [], ◌∷◌, ◌++◌, map, Text, text, sort_by}
use ores_lib_core.Js.{Heap, Value}
use ores_lib_core.Schema.Doc.{Doc, str, array, object, docs, members}
use ores_lib_core.Schema.Log.{Diagnostic}
use ores_lib_core.SchemaIr.{Outcome, returned, thrown, unfollowed, ◌>>=◌, Ir, Entity, ir_version}
use ores_lib_core.SchemaIr.Normalize.{normalize_schema_ir}
use ores_lib_core.SchemaIr.Emit.{json, ir_doc, emit_sql}
use ores_lib_core.SchemaIr.Types.{
  emit_json_schema, emit_type_script, emit_rust, emit_dart, emit_cue,
}

-- A path and a content
abbrev pub File : Type 0
File = Text × Text

abbrev pub path_of : File → Text
path_of (path, content) = path

pub record Artifacts : Type 0 where
  pub ir_sha256 : Text
  pub files : List File

pub data Compiled : Type 0 where
  ok : Artifacts → Compiled
  failed : List Diagnostic → Compiled
  unfollowed_input : Compiled

unfoldable pub schema_file : Ir → Entity → File
schema_file ir entity =
    (text "json-schema/" ++ entity.name ++ text ".schema.json", emit_json_schema ir entity)

-- The entries, in the order of their paths
unfoldable pub entries : Ir → Text → List File
entries ir sql = sort_by path_of (
    (text "schema-ir.json", json (ir_doc ir))
    ∷ (text "postgres/desired.sql", sql)
    ∷ (text "typescript/models.ts", emit_type_script ir)
    ∷ (text "rust/models.rs", emit_rust ir)
    ∷ (text "dart/models.dart", emit_dart ir)
    ∷ (text "cue/models.cue", emit_cue ir)
    ∷ map (schema_file ir) ir.entities)

module _ (sha256 : Text → Text) where
  unfoldable pub artifact_doc : File → Doc
  artifact_doc (path, content) =
      object (members ((text "path", str path) ∷ (text "sha256", str (sha256 content)) ∷ []))

  unfoldable pub manifest : Text → List File → Text
  manifest ir_sha256 files = json (
      object (
        members (
          (text "generator", str (text "ores.schema-compiler.v1"))
          ∷ (text "schemaVersion", str ir_version)
          ∷ (
            text "canonicalization",
            str (text "sorted-object-keys-and-normalized-ir-v1-not-rfc8785"),
          )
          ∷ (text "irSha256", str ir_sha256)
          ∷ (text "artifacts", array (docs (map artifact_doc files)))
          ∷ [])))

  unfoldable pub artifacts : Ir → Text → Artifacts
  artifacts ir sql =
      let hash = sha256 (json (ir_doc ir)) in
      let files = entries ir sql in
      record { ir_sha256 = hash; files = files ++ (text "manifest.json", manifest hash files) ∷ [] }

  abbrev pub conclude : Outcome Artifacts → Compiled
  conclude (returned a) = ok a
  conclude (thrown d) = failed (d ∷ [])
  conclude unfollowed = unfollowed_input

  unfoldable pub compile_schema_ir : Heap → Value → Compiled
  compile_schema_ir heap input =
      conclude do
        ir ← normalize_schema_ir heap input
        sql ← emit_sql sha256 ir
        returned (artifacts ir sql)
