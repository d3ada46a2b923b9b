-- ===== src/Schema/Compile/Laws.antt =====
-- index.js, validate.js: what a schema that compiles has passed, and what comes out.
use ores_lib_core.Base.{ℕ, ◌≡◌, refl, sym, ap, subst, some, List, [], ◌∷◌, All}
use ores_lib_core.Js.{Heap, Value}
use ores_lib_core.Schema.Json.{Json}
use ores_lib_core.Schema.Snapshot.{Visit, visited, failed, snapshot_json}
use ores_lib_core.Schema.Log.{Log}
use ores_lib_core.Schema.Ir.{Model, read_document}
use ores_lib_core.Schema.Shape.Storage.{check_document}
use ores_lib_core.Schema.Shape.Stored.{IsModelShape, check_document_quiet}
use ores_lib_core.Schema.Relations.{check_relations}
use ores_lib_core.Schema.Relations.Spec.{IsWellFormed}
use ores_lib_core.Schema.Relations.WellFormed.{check_relations-IsWellFormed}
use ores_lib_core.Schema.Validate.{
  Validation, valid, invalid, diagnose, conclude, if_empty, validate_snapshot, validate,
}
use ores_lib_core.Schema.Emit.{emit_json_schema, emit_typescript}
use ores_lib_core.Schema.Postgres.{emit_postgres}
use ores_lib_core.Schema.Compile.{
  Artifacts, Compiled, compiled, rejected, compile_valid, compile_schema,
}

if_empty_quiet :
    (log : Log) (next : Log → Log) → if_empty log next ≡ [] → (log ≡ []) × (next [] ≡ [])
if_empty_quiet [] next h = (refl, h)
if_empty_quiet (d ∷ ds) next h = cc

-- A document whose models are named by identifiers and fit together.
abbrev pub IsAccepted : List Model → Type 0
IsAccepted ir = All IsModelShape ir × IsWellFormed ir

diagnose-IsAccepted : (value : Json) → diagnose value ≡ [] → IsAccepted (read_document (some value))
unfolding diagnose
diagnose-IsAccepted value h =
    let ir = read_document (some value) in
    let (related, _) =
      if_empty_quiet (if_empty (check_document (some value) []) (check_relations ir)) _ h in
    let (shaped, k) =
      if_empty_quiet (check_document (some value) []) (check_relations ir) related in
    (check_document_quiet (some value) shaped, check_relations-IsWellFormed ir k)

-- The models are those of an accepted document that the input reads as.
abbrev pub IsReadFrom : Visit Json → List Model → Type 0
IsReadFrom v ir =
    (value : Json) × (nodes : ℕ) × (v ≡ visited value nodes)
    × (ir ≡ read_document (some value))
    × (diagnose value ≡ [])

conclude-cases :
    (value : Json) (log : Log) (ir : List Model)
    → conclude value log ≡ valid ir
    → (log ≡ []) × (ir ≡ read_document (some value))
conclude-cases value [] ir h = (refl, sym (ap models_of h))
  where
    models_of : Validation → List Model
    models_of (valid ir) = ir
    models_of (invalid d ds) = []
conclude-cases value (d ∷ ds) ir h = cc

validate_snapshot-IsReadFrom :
    (v : Visit Json) (ir : List Model) → validate_snapshot v ≡ valid ir → IsReadFrom v ir
unfolding validate_snapshot
validate_snapshot-IsReadFrom (visited value nodes) ir h =
    let (quiet, models) = conclude-cases value (diagnose value) ir h in
    (value, nodes, refl, models, quiet)
validate_snapshot-IsReadFrom (failed e) ir h = cc

compile_valid-cases :
    (v : Validation) (a : Artifacts)
    → compile_valid v ≡ compiled a
    → (ir : List Model) × (v ≡ valid ir)
      × (a.json_schema ≡ emit_json_schema ir)
      × (a.typescript ≡ emit_typescript ir)
      × (a.postgres ≡ emit_postgres ir)
compile_valid-cases (invalid d ds) a h = cc
compile_valid-cases (valid ir) a h =
    let e = ap artifacts_of h in
    (
      ir,
      refl,
      sym (ap (λ a. a.json_schema) e),
      sym (ap (λ a. a.typescript) e),
      sym (ap (λ a. a.postgres) e),
    )
  where
    artifacts_of : Compiled → Artifacts
    artifacts_of (compiled a) = a
    artifacts_of (rejected d ds) = a

-- An input compiles only if it reads as a document without diagnostics. The names in that document
-- match the patterns of their kinds and it is well-formed: model names, tables, columns and keys are
-- unique, the columns map the required fields one to one, and each foreign key refers to a key of a
-- stored model with fields of the same types. The three artifacts are then those of its models.
pub compile_schema-IsAccepted :
    (heap : Heap) (input : Value) (a : Artifacts)
    → compile_schema heap input ≡ compiled a
    → (ir : List Model) × IsReadFrom (snapshot_json heap input) ir
      × All IsModelShape ir
      × IsWellFormed ir
      × (a.json_schema ≡ emit_json_schema ir)
      × (a.typescript ≡ emit_typescript ir)
      × (a.postgres ≡ emit_postgres ir)
unfolding compile_schema validate
compile_schema-IsAccepted heap input a h =
    let (ir, e, schema, types, sql) = compile_valid-cases (validate heap input) a h in
    let from = validate_snapshot-IsReadFrom (snapshot_json heap input) ir e in
    let (shaped, formed) = subst IsAccepted (sym from.3) (diagnose-IsAccepted from.0 from.4) in
    (ir, from, shaped, formed, schema, types, sql)
