-- ===== src/Schema/Relations.antt =====
-- validate.js: the second part of `validate`, the relational checks of a document whose shapes are
-- known. A Set that only answers `has` is the list of its members.
pub mod Spec
pub mod WellFormed
pub mod Bounds
pub mod Laws
use ores_lib_core.Base.{
  ℕ, Bool, true, false, not, ◌&&◌, ◌||◌, Option, none, some, List, [], ◌∷◌, ◌++◌, map, Text, text,
  any, length, includes, set_size, sort, join, starts_with, nat_eq, list_eq, ◌==◌,
}
use ores_lib_core.Schema.Log.{Log, error, error_if, each, each_with}
use ores_lib_core.Schema.Shape.{at_key, at_index}
use ores_lib_core.Schema.Ir.{
  Scalar, string, boolean, int32, uuid, DeleteAction, set_null, Field, ForeignKey, Storage, Model,
  field_get, model_get,
}
use ores_lib_core.Schema.Doc.{str, array, docs, texts, stringify}

abbrev pub has_field : List Field → Text → Bool
has_field fields f = includes (map (λ field. field.name) fields) f

-- field.nullable, where there is one
abbrev pub is_nullable : Option Field → Bool
is_nullable none = false
is_nullable (some field) = field.nullable

abbrev pub same_scalar : Scalar → Scalar → Bool
same_scalar string string = true
same_scalar boolean boolean = true
same_scalar int32 int32 = true
same_scalar uuid uuid = true
same_scalar _ _ = false

abbrev pub is_set_null : DeleteAction → Bool
is_set_null set_null = true
is_set_null _ = false

unfoldable pub system_columns : List Text
system_columns =
    text "tableoid" ∷ text "xmin" ∷ text "cmin" ∷ text "xmax" ∷ text "cmax" ∷ text "ctid" ∷ []

abbrev pub reserved_schema : Text → Bool
reserved_schema schema = starts_with schema (text "pg_") || schema == text "information_schema"

-- `${sql.schema}.${sql.table}`
abbrev pub table_of : Storage → Text
table_of sql = sql.schema ++ text "." ++ sql.table

abbrev pub table_list : Option Storage → List Text
table_list none = []
table_list (some sql) = table_of sql ∷ []

-- The tables of the stored models
unfoldable pub tables_of : List Model → List Text
tables_of [] = []
tables_of (model ∷ models) = table_list model.storage ++ tables_of models

-- The primary key and the unique keys
abbrev pub keys_of : Storage → List (List Text)
keys_of sql = sql.primary_key ∷ sql.unique_keys

abbrev pub key_signature : List Text → Text
key_signature key = join (0 ∷ []) (sort key)

abbrev pub has_repeats : List Text → Bool
has_repeats xs = not (set_size xs == length xs)

-- The checks of the columns of a stored model.
unfoldable pub check_mapping : Model → Storage → Text → Log → Log
unfolding system_columns
check_mapping model sql path log =
    let mapped = map (λ column. column.field) sql.columns in
    let names = map (λ column. column.name) sql.columns in
    let fields = map (λ field. field.name) model.fields in
    let columns_path = at_key path (text "storage.columns") in
    let log =
      error_if (has_repeats mapped || has_repeats names) (text "DUPLICATE_COLUMN") columns_path
        (text "Column names and mapped fields must both be unique.") log in
    let log =
      error_if (any (includes system_columns) names) (text "RESERVED_COLUMN") columns_path
        (text "PostgreSQL system column names cannot be user columns.") log in
    let log =
      error_if
        (not (set_size mapped == set_size fields)
          || any (λ f. not (includes fields f)) mapped
          || any (λ f. not (includes mapped f)) fields)
        (text "INCOMPLETE_MAPPING") columns_path
        (text "Storage must explicitly map every field exactly once, without extra fields.") log in
    error_if (any (λ field. not field.required) model.fields) (text "LOSSY_PRESENCE")
      (at_key path (text "storage"))
      (text
        "Stored row fields must be required. Model optional patch/input fields separately; SQL NULL cannot preserve absence.")
      log

-- The checks of the primary key and of the unique keys.
unfoldable pub check_keys : Model → Storage → Text → Log → Log
check_keys model sql path log =
    let storage_path = at_key path (text "storage") in
    let log =
      error_if (has_repeats (map key_signature (keys_of sql))) (text "DUPLICATE_KEY") storage_path
        (text "Primary and unique keys must not duplicate the same field set.") log in
    let log =
      each
        (λ i key.
          error_if (any (λ f. not (has_field model.fields f)) key) (text "UNKNOWN_KEY_FIELD")
            storage_path
            (text "All primary and unique key fields must resolve within the owning model."))
        (keys_of sql) log in
    error_if (any (λ f. is_nullable (field_get model.fields f)) sql.primary_key)
      (text "NULLABLE_PRIMARY_KEY") (at_key path (text "storage.primaryKey"))
      (text "Primary-key fields must be non-nullable.") log

-- fields.get(f).type !== targetFields.get(g).type; the fields exist where this is asked.
abbrev pub types_differ : Option Field → Option Field → Bool
types_differ (some a) (some b) = not (same_scalar a.type b.type)
types_differ _ _ = true

unfoldable pub any_type_differs : List Field → List Field → List Text → List Text → Bool
any_type_differs fields targets (f ∷ fs) (g ∷ gs) =
    types_differ (field_get fields f) (field_get targets g) || any_type_differs fields targets fs gs
any_type_differs fields targets _ _ = false

-- The key has the fields of the primary key or of a unique key, in their order.
abbrev pub is_candidate : Storage → List Text → Bool
is_candidate sql fields = any (λ candidate. candidate == fields) (keys_of sql)

abbrev pub invalid_fields : List Field → List Field → ForeignKey → Bool
invalid_fields fields targets key =
    not (length key.fields == length key.target_fields)
    || any (λ f. not (has_field fields f)) key.fields
    || any (λ f. not (has_field targets f)) key.target_fields

-- The checks behind the two early returns.
unfoldable pub check_match : List Field → List Field → Storage → ForeignKey → Text → Log → Log
unfolding any_type_differs
check_match fields targets sql key here log =
    let log =
      error_if (not (is_candidate sql key.target_fields)) (text "NON_UNIQUE_REFERENCE")
        (at_key here (text "references"))
        (text "The ordered referenced fields must match a declared primary or unique key.") log in
    let log =
      error_if (any_type_differs fields targets key.fields key.target_fields)
        (text "FOREIGN_KEY_TYPE_MISMATCH") here
        (text "Foreign-key scalar types must match exactly.") log in
    error_if
      (is_set_null key.on_delete && any (λ f. not (is_nullable (field_get fields f))) key.fields)
      (text "INVALID_SET_NULL") here
      (text "SET NULL requires every referencing field to be nullable.") log

-- if (test) { error(…); return; } the rest
abbrev pub error_or : Bool → Text → Text → Text → (Log → Log) → Log → Log
error_or true code path message rest log = error_if true code path message log
error_or false code path message rest log = rest log

abbrev pub unknown : Text → Log → Log
unknown here log =
    error (text "UNKNOWN_REFERENCE") (at_key here (text "references"))
      (text "Foreign keys must target a stored model in the same document.") log

-- target.storage, with its model
unfoldable pub check_target :
    List Field → List Field → Option Storage → ForeignKey → Text → Log → Log
unfolding check_match
check_target fields targets none key here log = unknown here log
check_target fields targets (some sql) key here log =
    error_or (invalid_fields fields targets key) (text "INVALID_FOREIGN_KEY") here
      (text "Foreign-key field lists must resolve and have equal arity.")
      (check_match fields targets sql key here) log

unfoldable pub check_reference : List Field → Option Model → ForeignKey → Text → Log → Log
check_reference fields (some target) key here log =
    check_target fields target.fields target.storage key here log
check_reference fields none key here log = unknown here log

unfoldable pub foreign_signature : ForeignKey → Text
foreign_signature key =
    stringify (array (docs (texts key.fields ∷ str key.model ∷ texts key.target_fields ∷ [])))

unfoldable pub check_foreign :
    List Model → List Field → Text → ℕ → ForeignKey → List Text → Log → List Text × Log
unfolding check_reference foreign_signature
check_foreign models fields path i key seen log =
    let here = at_index (at_key path (text "storage.foreignKeys")) i in
    let signature = foreign_signature key in
    let log =
      error_if (includes seen signature) (text "DUPLICATE_FOREIGN_KEY") here
        (text "A relationship must have exactly one delete policy.") log in
    (signature ∷ seen, check_reference fields (model_get models key.model) key here log)

unfoldable pub check_stored_model :
    List Model → Model → Text → Option Storage → List Text → Log → List Text × Log
unfolding check_mapping check_keys check_foreign
check_stored_model models model path none tables log = (tables, log)
check_stored_model models model path (some sql) tables log =
    let log =
      error_if (reserved_schema sql.schema) (text "RESERVED_SCHEMA")
        (at_key path (text "storage.schema"))
        (text "System schema names cannot be compiler targets.") log in
    let log =
      error_if (includes tables (table_of sql)) (text "DUPLICATE_TABLE")
        (at_key path (text "storage"))
        (text "Each qualified table must have exactly one owning model.") log in
    let log = check_mapping model sql path log in
    let log = check_keys model sql path log in
    let (seen, log) =
      each_with 0 (check_foreign models model.fields path) sql.foreign_keys [] log in
    (table_of sql ∷ tables, log)

unfoldable pub check_related : List Model → ℕ → Model → List Text → Log → List Text × Log
check_related models i model tables log =
    let path = at_index (text "$.models") i in
    let log =
      error_if (has_repeats (map (λ field. field.name) model.fields)) (text "DUPLICATE_FIELD")
        (at_key path (text "fields")) (text "Field names must be unique within a model.") log in
    check_stored_model models model path model.storage tables log

unfoldable pub check_relations : List Model → Log → Log
unfolding check_related
check_relations models log =
    let log =
      error_if (has_repeats (map (λ model. model.name) models)) (text "DUPLICATE_MODEL")
        (text "$.models") (text "Model names must be unique.") log in
    (each_with 0 (check_related models) models [] log).1
