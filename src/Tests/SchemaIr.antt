-- ===== src/Tests/SchemaIr.antt =====
-- langs/typescript/src/schema-ir at concrete inputs.
use ores_lib_core.Base.{
  ◌+◌, ◌≤◌, ◌≡◌, refl, true, false, none, List, [], ◌∷◌, text, split, split_from, includes,
  list_beq, starts_with, sort_by, sort, decimal, text_leb, distinct, nat_eq, list_eq, get_elem?,
}
use ores_lib_core.Js.{Heap, null, bool, str, ref, Object, own_props}
use ores_lib_core.Tests.TeamDirectory.{own, object_of, array_of, or_empty}
use ores_lib_core.Redaction.{to_lower_case, lower_unit}
use ores_lib_core.Schema.Json.{Json, Fields, keys_of, prop, to_list, field_value}
use ores_lib_core.Schema.Doc.{
  docs, escape_from, escape_unit, hex_padded, members, print, quoted, stringify, unicode_escape,
}
use ores_lib_core.Schema.Shape.{identifier}
use ores_lib_core.Schema.Snapshot.{own_entries}
use ores_lib_core.Schema.Snapshot.Laws.{node_count, levels}
use ores_lib_core.Schema.Ir.{uuid}
use ores_lib_core.SchemaIr.{
  returned, thrown, unfollowed, ◌>>=◌, ◌>>◌, fail, fail_if, Field, Entity, Ir, ir_version,
  reserved_fields, reserved_models, system_columns,
}
use ores_lib_core.SchemaIr.Input.{
  is_indexed, read_input, json_value, walk_value, walk_object, walk_entries, walk_entry,
  pointer_key, read_items, read_fields, invalid_json, over_limit,
}
use ores_lib_core.SchemaIr.Input.Laws.{read_input-bounds}
use ores_lib_core.SchemaIr.Check.{
  check_record, check_list, invalid_array, check_name, int_leb, check_integer, check_unique,
  check_type, check_booleans, check_constraint, check_length, check_limit, check_field, check_tuple,
  each_from,
}
use ores_lib_core.SchemaIr.Check.Entity.{
  field_named, check_action, check_references, check_foreign, foreign_identity, foreign_text,
  check_entity,
}
use ores_lib_core.SchemaIr.Normalize.{
  any_type_differs, check_target_fields, check_match, entity_named, check_foreign_keys,
  check_entities, normalize_document, normalize_schema_ir,
}
use ores_lib_core.SchemaIr.Normalize.Spec.{IsNormal}
use ores_lib_core.SchemaIr.Normalize.Laws.{normalize_schema_ir-IsNormal}

-- A document with one entity of one field
abbrev objects : List Object
objects =
    object_of (
      own "schemaVersion" (str ir_version)
      ∷ own "databaseSchema" (str (text "app"))
      ∷ own "entities" (ref 1)
      ∷ [])
    ∷ array_of 1 (own "0" (ref 2) ∷ [])
    ∷ object_of (
        own "name" (str (text "User"))
        ∷ own "table" (str (text "users"))
        ∷ own "fields" (ref 3)
        ∷ own "primaryKey" (ref 4)
        ∷ [])
    ∷ array_of 1 (own "0" (ref 5) ∷ [])
    ∷ array_of 1 (own "0" (str (text "id")) ∷ [])
    ∷ object_of (
        own "name" (str (text "id"))
        ∷ own "column" (str (text "id"))
        ∷ own "type" (str (text "uuid"))
        ∷ own "required" (bool true)
        ∷ own "nullable" (bool false)
        ∷ [])
    ∷ []

abbrev one_entity : Heap
one_entity i = or_empty (get_elem? objects i)

abbrev id_field : Field
id_field = record {
  name = text "id";
  column = text "id";
  type = uuid;
  required = true;
  nullable = false;
  min_length = none;
  max_length = none;
  minimum = none;
  maximum = none;
}

abbrev user : Entity
user = record {
  name = text "User";
  table = text "users";
  fields = id_field ∷ [];
  primary_key = text "id" ∷ [];
  unique_keys = [];
  indexes = [];
  foreign_keys = [];
}

abbrev user_ir : Ir
user_ir = record { schema_version = ir_version; database_schema = text "app"; entities = user ∷ [] }

one_entity_ir : normalize_schema_ir one_entity (ref 0) ≡ returned user_ir
unfolding normalize_schema_ir normalize_document ◌>>=◌ read_input json_value walk_value walk_object
    ◌>>◌ fail_if includes walk_entries own_entries own_props walk_entry list_beq text check_record
    keys_of read_fields distinct sort sort_by decimal split split_from starts_with text_leb
    lower_unit to_lower_case docs escape_from escape_unit hex_padded members print quoted stringify
    unicode_escape field_value prop to_list identifier check_action check_entity check_foreign
    check_references field_named foreign_identity foreign_text check_booleans check_constraint
    check_field check_integer check_length check_limit check_list check_name check_tuple check_type
    check_unique each_from int_leb invalid_array invalid_json over_limit pointer_key read_items
    any_type_differs check_entities check_foreign_keys check_match check_target_fields entity_named
    fail reserved_fields reserved_models system_columns is_indexed
one_entity_ir = refl

normalize_schema_ir-IsNormal_example : IsNormal user_ir
normalize_schema_ir-IsNormal_example =
    normalize_schema_ir-IsNormal one_entity (ref 0) user_ir one_entity_ir

-- A cycle is refused.
abbrev cyclic : Heap
cyclic i = object_of (own "a/b" (ref i) ∷ [])

cyclic_refused :
    read_input cyclic (ref 0)
    ≡ thrown (record {
      code = text "INVALID_JSON";
      path = text "/a~1b";
      message = text "Cyclic input is not JSON.";
    })
unfolding ◌>>=◌ read_input json_value walk_value walk_object ◌>>◌ fail_if includes walk_entries
    own_entries own_props walk_entry list_beq text check_record keys_of pointer_key invalid_json
    fail
cyclic_refused = refl

-- A key of 2^32 - 1 is no index, but is counted as an element: the hole at 1 is not noticed.
abbrev with_hole : Heap
with_hole i = array_of 2 (own "0" null ∷ own "4294967295" null ∷ [])

hole_unfollowed : read_input with_hole (ref 0) ≡ unfollowed
unfolding ◌>>=◌ read_input json_value walk_value walk_object ◌>>◌ fail_if includes walk_entries
    own_entries own_props walk_entry list_beq text decimal is_indexed pointer_key invalid_json fail
hole_unfollowed = refl

abbrev small : Heap
small i = object_of (own "a" (str []) ∷ [])

abbrev small_document : Json
small_document = Json.object (Fields.field (text "a") (Json.str []) Fields.empty)

small_read : read_input small (ref 0) ≡ returned (small_document, 99998)
unfolding ◌>>=◌ read_input json_value walk_value walk_object ◌>>◌ fail_if includes walk_entries
    own_entries own_props walk_entry list_beq text check_record keys_of pointer_key read_fields
small_read = refl

read_input-bounds_example :
    (node_count small_document + 99998 ≡ 100000) × (levels small_document ≤ 21)
read_input-bounds_example = read_input-bounds small (ref 0) small_document 99998 small_read
