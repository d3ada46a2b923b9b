-- ===== src/Schema/Postgres.antt =====
-- emit.js: `emitPostgres`.
use ores_lib_core.Base.{
  ℕ, not, Option, none, some, List, [], ◌∷◌, ◌++◌, map, Text, text, filter, distinct, join, sort,
  sort_by, decimal, nat_eq, list_eq, ◌==◌, if◌then◌else◌,
}
use ores_lib_core.Schema.Ir.{
  Scalar, string, boolean, int32, uuid, DeleteAction, restrict, cascade, set_null, Field, Column,
  ForeignKey, Storage, Model, map_get, field_get, model_get,
}
use ores_lib_core.Schema.Doc.{str, array, docs, texts, stringify}
use ores_lib_core.Schema.Collisions.{name_of, foreign_name, target_storage}

-- quote(identifier), for an identifier without quotes
abbrev pub quote : Text → Text
quote identifier = text "\"" ++ identifier ++ text "\""

abbrev pub qualified : Storage → Text
qualified storage = quote storage.schema ++ text "." ++ quote storage.table

abbrev pub sql_type : Scalar → Text
sql_type string = text "pg_catalog.text"
sql_type boolean = text "pg_catalog.bool"
sql_type int32 = text "pg_catalog.int4"
sql_type uuid = text "pg_catalog.uuid"

abbrev pub action_text : DeleteAction → Text
action_text restrict = text "RESTRICT"
action_text cascade = text "CASCADE"
action_text set_null = text "SET NULL"

-- The value of onDelete in the document
abbrev pub action_name : DeleteAction → Text
action_name restrict = text "restrict"
action_name cascade = text "cascade"
action_name set_null = text "setNull"

-- mapping.get(field); every field of a key is mapped.
abbrev pub column_name : Option Column → Text
column_name none = text "undefined"
column_name (some column) = column.name

unfoldable pub columns : Storage → List Text → Text
columns storage fields =
    join (text ", ")
      (map (λ f. quote (column_name (map_get (λ column. column.field) storage.columns f))) fields)

abbrev pub length_check : Text → Text → Option ℕ → List Text
length_check column operator none = []
length_check column operator (some n) =
    (text "CHECK (pg_catalog.char_length("
      ++ quote column
      ++ text ") "
      ++ operator
      ++ text " "
      ++ decimal n
      ++ text ")")
    ∷ []

abbrev pub column_checks : Text → Field → List Text
column_checks column field =
    length_check column (text ">=") field.min_length
    ++ length_check column (text "<=") field.max_length

abbrev pub suffix_of : List Text → Text
suffix_of [] = []
suffix_of (c ∷ cs) = text " " ++ join (text " ") (c ∷ cs)

-- The line of a column; fields.get(column.field) exists.
abbrev pub column_row : Column → Option Field → Text
column_row column none = []
column_row column (some field) =
    text "  "
    ++ quote column.name
    ++ text " "
    ++ sql_type field.type
    ++ (if field.nullable then [] else text " NOT NULL")
    ++ suffix_of (column_checks column.name field)

unfoldable pub primary_row : Storage → Text
unfolding columns
primary_row storage =
    text "  CONSTRAINT "
    ++ quote (name_of storage (text "pk") (texts storage.primary_key))
    ++ text " PRIMARY KEY ("
    ++ columns storage storage.primary_key
    ++ text ")"

unfoldable pub unique_row : Storage → List Text → Text
unfolding columns
unique_row storage key =
    text "  CONSTRAINT "
    ++ quote (name_of storage (text "uk") (texts key))
    ++ text " UNIQUE ("
    ++ columns storage key
    ++ text ")"

unfoldable pub create_table : Model × Storage → Text
create_table (model, storage) =
    let rows =
      map (λ column. column_row column (field_get model.fields column.field))
        (sort_by (λ column. column.name) storage.columns) in
    let uniques =
      map (unique_row storage) (sort_by (λ key. join (0 ∷ []) key) storage.unique_keys) in
    text "CREATE TABLE "
    ++ qualified storage
    ++ text " (\n"
    ++ join (text ",\n") (rows ++ primary_row storage ∷ uniques)
    ++ text "\n);"

unfoldable pub foreign_order : ForeignKey → Text
foreign_order key = stringify (
    array (
      docs (
        texts key.fields
        ∷ str key.model
        ∷ texts key.target_fields
        ∷ str (action_name key.on_delete)
        ∷ [])))

-- The statement of a foreign key; its target is stored.
unfoldable pub add_foreign_key : Storage → ForeignKey → Option Storage → Text
unfolding columns
add_foreign_key storage key none = []
add_foreign_key storage key (some target) =
    text "ALTER TABLE "
    ++ qualified storage
    ++ text " ADD CONSTRAINT "
    ++ quote (foreign_name storage key (some target))
    ++ text " FOREIGN KEY ("
    ++ columns storage key.fields
    ++ text ") REFERENCES "
    ++ qualified target
    ++ text " ("
    ++ columns target key.target_fields
    ++ text ") MATCH SIMPLE ON DELETE "
    ++ action_text key.on_delete
    ++ text " ON UPDATE NO ACTION;"

unfoldable pub foreign_statements : List Model → Model × Storage → List Text
unfolding foreign_order
foreign_statements models (model, storage) =
    map (λ key. add_foreign_key storage key (target_storage (model_get models key.model)))
      (sort_by foreign_order storage.foreign_keys)

abbrev pub with_storage : Model → Option Storage → List (Model × Storage)
with_storage model none = []
with_storage model (some storage) = (model, storage) ∷ []

-- ir.models.filter((model) => model.storage)
unfoldable pub stored_models : List Model → List (Model × Storage)
stored_models [] = []
stored_models (model ∷ models) = with_storage model model.storage ++ stored_models models

unfoldable pub flatten : {A : Type 0} → List (List A) → List A
flatten [] = []
flatten (xs ∷ xss) = xs ++ flatten xss

unfoldable pub heading : List Text
heading =
    text "-- Generated desired-state SQL from ores.schema-ir.v1; NOT a migration plan."
    ∷ text
        "-- Apply only to a disposable desired-state database; use DPM diff/verify and reviewed migrator jobs for real targets."
    ∷ []

unfoldable pub statements : List Model → List (Model × Storage) → Text
unfolding heading create_table foreign_statements flatten
statements models [] = join (text "\n") heading ++ text "\n-- No persisted models.\n"
statements models (s ∷ ss) =
    let schemas = sort (distinct (map (λ (model, storage). storage.schema) (s ∷ ss))) in
    let created =
      map (λ schema. text "CREATE SCHEMA " ++ quote schema ++ text ";")
        (filter (λ schema. not (schema == text "public")) schemas) in
    join (text "\n\n") (
      heading
      ++ created
      ++ map create_table (s ∷ ss)
      ++ flatten (map (foreign_statements models) (s ∷ ss)))
    ++ text "\n"

unfoldable pub emit_postgres : List Model → Text
unfolding stored_models
emit_postgres ir =
    statements ir (sort_by (λ (model, storage). qualified storage) (stored_models ir))
