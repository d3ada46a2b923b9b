-- ===== src/Tests/Schema.antt =====
-- langs/typescript/src/schema-compiler at concrete inputs.
use ores_lib_core.Base.{
  zero, suc, text_leb, map, filter, ◌==◌, nat_eq, list_eq, [], ◌∷◌, includes, list_beq, decimal,
  sort, sort_by, join, distinct, starts_with, ◌≤◌, ◌≡◌, refl, ap, true, arith, List, Text, text,
  length, All,
}
use ores_lib_core.Js.{num, int, pos, entries_of, items_from, get_own, Heap, ref, own_props}
use ores_lib_core.Schema.Compile.{rejected, compile_valid, Artifacts, compiled, compile_schema}
use ores_lib_core.Schema.Ir.{Model, read_text, map_get}
use ores_lib_core.Schema.Snapshot.{visited, failed, input_not_json, snapshot_json, to_number}
use ores_lib_core.Schema.Snapshot.Laws.{node_count, levels, snapshot_json-bounds}
use ores_lib_core.Schema.Names.Laws.{constraint_name-sql_name}
use ores_lib_core.Schema.Json.{
  Json, nil, cons, empty, field, keys_of, prop, elements, items_size, has_item,
}
use ores_lib_core.Schema.Log.{each_from, each_with, error}
use ores_lib_core.Schema.Shape.{sql_name, identifier, is_boolean}
use ores_lib_core.Schema.Doc.{texts, print, quoted, stringify, docs}
use ores_lib_core.Schema.Relations.{check_stored_model, check_target}
use ores_lib_core.Schema.Collisions.{check_stored_names}
use ores_lib_core.Schema.Names.{constraint_name}
use ores_lib_core.Schema.Validate.{input_diagnostic, validate_snapshot, valid, validate}
use ores_lib_core.Tests.Directory.{directory}
use ores_lib_core.Schema.Emit.{emit_json_schema, emit_typescript}
use ores_lib_core.Schema.Postgres.{
  emit_postgres, stored_models, create_table, primary_row, unique_row, columns,
}
use ores_lib_core.Schema.Compile.Bounds.{compile_schema-bounds}
use ores_lib_core.Schema.Compile.Laws.{IsReadFrom, compile_schema-IsAccepted}
use ores_lib_core.Schema.Shape.Stored.{IsModelShape}
use ores_lib_core.Schema.Relations.Spec.{IsWellFormed}
use ores_lib_core.Tests.TeamDirectory.{own, object_of, array_of, team_directory}
use ores_lib_core.Tests.Expected.{expected_types, expected_table}

emits_types : emit_typescript directory ≡ expected_types
unfolding emit_typescript text text_leb sort_by join quoted
emits_types = refl

-- The table of organizations, as the emitter writes it.
organizations : List Text
organizations =
    map create_table (filter (λ (m, s). s.table == text "organizations") (stored_models directory))

creates_table : organizations ≡ expected_table ∷ []
unfolding organizations stored_models create_table text text_leb list_beq sort_by join quoted print
    docs decimal map_get constraint_name stringify primary_row unique_row columns
creates_table = refl

validates : validate team_directory (ref 0) ≡ valid directory
unfolding validate text includes list_beq own_props entries_of to_number items_from get_own decimal
    keys_of prop elements each_from each_with identifier items_size has_item sort sort_by join
    distinct starts_with check_stored_model is_boolean read_text print error map_get check_target
    check_stored_names constraint_name quoted
validates = refl

abbrev artifacts : Artifacts
artifacts = record {
  json_schema = emit_json_schema directory;
  typescript = emit_typescript directory;
  postgres = emit_postgres directory;
}

compiles : compile_schema team_directory (ref 0) ≡ compiled artifacts
unfolding compile_schema
compiles = ap compile_valid validates

compile_schema-IsAccepted_example :
    (ir : List Model) × IsReadFrom (snapshot_json team_directory (ref 0)) ir
    × All IsModelShape ir
    × IsWellFormed ir
    × (artifacts.json_schema ≡ emit_json_schema ir)
    × (artifacts.typescript ≡ emit_typescript ir)
    × (artifacts.postgres ≡ emit_postgres ir)
compile_schema-IsAccepted_example =
    compile_schema-IsAccepted team_directory (ref 0) artifacts compiles

-- A document of two levels: an object with an array of one number.
abbrev small_heap : Heap
small_heap zero = object_of (own "version" (ref 1) ∷ [])
small_heap (suc i) = array_of 1 (own "0" (num (int (pos 7))) ∷ [])

abbrev small : Json
small = Json.object (field (text "version") (Json.array (cons (Json.num (int (pos 7))) nil)) empty)

snapshot_small : snapshot_json small_heap (ref 0) ≡ visited small 3
unfolding snapshot_json own_props text entries_of list_beq items_from get_own decimal includes
    to_number
snapshot_small = refl

snapshot_json-bounds_example :
    (3 ≡ node_count small) × (node_count small ≤ 200000) × (levels small ≤ 17)
snapshot_json-bounds_example = snapshot_json-bounds small_heap (ref 0) small 3 snapshot_small

-- An array that holds itself is rejected.
abbrev loop_heap : Heap
loop_heap _ = array_of 1 (own "0" (ref 0) ∷ [])

rejects_loop : snapshot_json loop_heap (ref 0) ≡ failed input_not_json
unfolding snapshot_json own_props text entries_of list_beq items_from get_own decimal includes
    to_number
rejects_loop = refl

constraint_name-sql_name_example :
    (sql_name (constraint_name (text "app") (text "t") (text "pk") (texts (text "id" ∷ []))) ≡ true)
    × (length (constraint_name (text "app") (text "t") (text "pk") (texts (text "id" ∷ []))) ≡ 27)
unfolding text
constraint_name-sql_name_example =
    constraint_name-sql_name (text "app") (text "t") (text "pk") (texts (text "id" ∷ [])) refl
      (omega arith)

refuses_loop : compile_schema loop_heap (ref 0) ≡ rejected (input_diagnostic input_not_json) []
unfolding compile_schema validate validate_snapshot
refuses_loop = ap (λ v. compile_valid (validate_snapshot v)) rejects_loop

compile_schema-bounds_example : length (input_diagnostic input_not_json ∷ []) ≤ 100
compile_schema-bounds_example =
    compile_schema-bounds loop_heap (ref 0) (input_diagnostic input_not_json) [] refuses_loop
