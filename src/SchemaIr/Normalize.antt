-- ===== src/SchemaIr/Normalize.antt =====
-- schema-ir/validate.js: normalizeSchemaIr and validateSchemaIr.
pub mod Spec
pub mod Laws
use ores_lib_core.Base.{
  ℕ, zero, suc, Bool, true, false, not, ◌&&◌, ◌||◌, Option, none, some, List, [], ◌∷◌, ◌++◌, map,
  Text, text, length, any, find, sort_by, starts_with, nat_eq, list_eq, ◌==◌, if◌then◌else◌,
}
use ores_lib_core.Js.{Heap, Value}
use ores_lib_core.Redaction.{to_lower_case}
use ores_lib_core.Schema.Json.{Json, str}
use ores_lib_core.Schema.Ir.{Scalar, string, boolean, int32, uuid}
use ores_lib_core.Schema.Log.{Diagnostic}
use ores_lib_core.SchemaIr.{
  Outcome, returned, thrown, unfollowed, ◌>>=◌, ◌>>◌, fail, fail_if, Field, Entity, References,
  ForeignKey, DeleteAction, no_action, restrict, cascade, set_null, Ir, ir_version,
}
use ores_lib_core.SchemaIr.Input.{Read, read_input}
use ores_lib_core.SchemaIr.Check.{
  at, at_item, own, is_identifier, check_record, check_list, check_name, check_unique, is_known,
  each,
}
use ores_lib_core.SchemaIr.Check.Entity.{field_named, names_of, key_text, check_entity}

abbrev pub scalar_index : Scalar → ℕ
scalar_index string = 0
scalar_index boolean = 1
scalar_index int32 = 2
scalar_index uuid = 3

-- localFields.get(key).type !== targetFields.get(other).type; both fields exist.
abbrev pub types_differ : Option Field → Option Field → Bool
types_differ (some field) (some target) = not (scalar_index field.type == scalar_index target.type)
types_differ _ _ = true

-- The callback of `some`, over the local fields and the k-th target fields.
unfoldable pub any_type_differs : List Field → List Field → List Text → List Text → Bool
any_type_differs fields targets [] others = false
any_type_differs fields targets (key ∷ keys) [] = true
any_type_differs fields targets (key ∷ keys) (other ∷ others) =
    types_differ (field_named fields key) (field_named targets other)
    || any_type_differs fields targets keys others

abbrev pub not_nullable : Option Field → Bool
not_nullable none = true
not_nullable (some field) = not field.nullable

abbrev pub is_set_null : DeleteAction → Bool
is_set_null set_null = true
is_set_null _ = false

-- tuple(fk.references.fields, targetFields, path): the list was checked before.
unfoldable pub check_target_fields : List Text → List Field → Text → Outcome (Unit {0})
check_target_fields keys targets path = do
  fail_if (any (λ key. not (is_known (names_of targets) (str key))) keys) (text "INVALID_REFERENCE")
      path (text "Key references an unknown field.")
  check_unique keys path

-- A foreign key of `entity` against its target.
unfoldable pub check_match : Entity → ForeignKey → Text → Option Entity → Outcome (Unit {0})
check_match entity key path none =
    fail (text "INVALID_REFERENCE") path (text "Foreign-key target entity does not exist.")
check_match entity key path (some target) = do
  check_target_fields key.references.fields target.fields
      (at (at path (text "references")) (text "fields"))
  fail_if
      (not (
        any (λ declared. key_text declared == key_text key.references.fields)
          (target.primary_key ∷ target.unique_keys)))
      (text "INVALID_REFERENCE") path
      (text "Foreign-key target must be an explicitly declared, ordered unique key.")
  fail_if (any_type_differs entity.fields target.fields key.fields key.references.fields)
      (text "INVALID_REFERENCE") path (text "Foreign-key scalar types must match.")
  fail_if
      (is_set_null key.on_delete
        && any (λ local. not_nullable (field_named entity.fields local)) key.fields)
      (text "INVALID_REFERENCE") path
      (text "SET NULL requires every local foreign-key field to be nullable.")

-- byName.get(entity)
unfoldable pub entity_named : List Entity → Text → Option Entity
entity_named entities name = find (λ entity. entity.name == name) entities

unfoldable pub check_foreign_keys :
    List Entity → Entity → Text → ℕ → List ForeignKey → Outcome (Unit {0})
check_foreign_keys entities entity path j [] = returned tt
check_foreign_keys entities entity path j (key ∷ keys) = do
  check_match entity key (at_item path j) (entity_named entities key.references.entity)
  check_foreign_keys entities entity path (suc j) keys

unfoldable pub check_entities : List Entity → ℕ → List Entity → Outcome (Unit {0})
check_entities entities i [] = returned tt
check_entities entities i (entity ∷ rest) = do
  check_foreign_keys entities entity (at (at_item (text "/entities") i) (text "foreignKeys")) 0
      entity.foreign_keys
  check_entities entities (suc i) rest

abbrev pub is_version : Option Json → Bool
is_version (some (str s)) = s == ir_version
is_version _ = false

-- normalizeSchemaIr, on the document that jsonValue has read
unfoldable pub normalize_document : Json → Outcome Ir
normalize_document input = do
  check_record (some input) (text "schemaVersion" ∷ text "databaseSchema" ∷ text "entities" ∷ []) []
      []
  fail_if (not (is_version (own input "schemaVersion"))) (text "UNSUPPORTED_VERSION")
      (text "/schemaVersion") (text "Only ores.schema-ir.v1 is supported.")
  schema ← check_name (own input "databaseSchema") is_identifier (text "/databaseSchema") []
  fail_if (starts_with schema (text "pg_") || schema == text "information_schema")
      (text "INVALID_IDENTIFIER") (text "/databaseSchema")
      (text "System schemas are not supported.")
  items ← check_list (own input "entities") (text "/entities") 1 64
  entities ← each check_entity (text "/entities") items
  check_unique (map (λ entity. to_lower_case entity.name) entities) (text "/entities")
  check_unique (map (λ entity. entity.table) entities) (text "/entities")
  check_entities entities 0 entities
  returned (record {
    schema_version = ir_version;
    database_schema = schema;
    entities = sort_by (λ entity. entity.name) entities;
  })

unfoldable pub normalize_schema_ir : Heap → Value → Outcome Ir
normalize_schema_ir heap input =
    read_input heap input >>= λ (document, left). normalize_document document

abbrev pub diagnostics_of : {A : Type 0} → Outcome A → Option (List Diagnostic)
diagnostics_of (returned a) = some []
diagnostics_of (thrown d) = some (d ∷ [])
diagnostics_of unfollowed = none

unfoldable pub validate_schema_ir : Heap → Value → Option (List Diagnostic)
validate_schema_ir heap input = diagnostics_of (normalize_schema_ir heap input)
