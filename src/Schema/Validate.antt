-- ===== src/Schema/Validate.antt =====
-- validate.js: `validate`.
use ores_lib_core.Base.{some, List, [], ◌∷◌, Text, text}
use ores_lib_core.Js.{Heap, Value}
use ores_lib_core.Schema.Json.{Json}
use ores_lib_core.Schema.Snapshot.{
  InputError, input_limit, input_not_json, Visit, visited, failed, snapshot_json,
}
use ores_lib_core.Schema.Log.{Diagnostic, Log}
use ores_lib_core.Schema.Shape.Storage.{check_document}
use ores_lib_core.Schema.Ir.{Model, read_document}
use ores_lib_core.Schema.Relations.{check_relations}
use ores_lib_core.Schema.Collisions.{check_collisions}

-- if (diagnostics.length === 0), the next checks
abbrev pub if_empty : Log → (Log → Log) → Log
if_empty [] next = next []
if_empty (d ∷ ds) next = d ∷ ds

-- The three groups of checks, each behind a test that the one before found nothing.
unfoldable pub diagnose : Json → Log
unfolding check_document read_document check_relations check_collisions
diagnose value =
    if_empty
      (if_empty (check_document (some value) []) (check_relations (read_document (some value))))
      (check_collisions (read_document (some value)))

abbrev pub input_code : InputError → Text
input_code input_limit = text "INPUT_LIMIT"
input_code input_not_json = text "INPUT_NOT_JSON"

abbrev pub input_diagnostic : InputError → Diagnostic
input_diagnostic e = record {
  code = input_code e;
  path = text "$";
  message =
      text "Expected a bounded JSON data document without cycles, accessors, or executable values.";
}

-- `{ value, diagnostics }`, where the value is present if there are no diagnostics.
pub data Validation : Type 0 where
  valid : List Model → Validation
  invalid : Diagnostic → Log → Validation

abbrev pub conclude : Json → Log → Validation
conclude value [] = valid (read_document (some value))
conclude value (d ∷ ds) = invalid d ds

unfoldable pub validate_snapshot : Visit Json → Validation
unfolding diagnose
validate_snapshot (visited value nodes) = conclude value (diagnose value)
validate_snapshot (failed e) = invalid (input_diagnostic e) []

unfoldable pub validate : Heap → Value → Validation
unfolding snapshot_json validate_snapshot
validate heap input = validate_snapshot (snapshot_json heap input)
