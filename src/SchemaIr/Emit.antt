-- ===== src/SchemaIr/Emit.antt =====
-- schema-ir/index.js: the canonical JSON, the generated names and emitSql. The digest of a text,
-- createHash("sha256") of node:crypto, is the parameter `sha256`.
pub mod Laws
use ores_lib_core.Base.{
  ℕ, zero, suc, not, Option, none, some, List, [], ◌∷◌, ◌++◌, map, Text, text, length, set_size,
  join, sort_by, decimal, nat_eq, list_eq, ◌==◌, if◌then◌else◌,
}
use ores_lib_core.Js.{ℤ, pos, negsuc}
use ores_lib_core.Schema.Ir.{Scalar, string, boolean, int32, uuid}
use ores_lib_core.Schema.Doc.{
  Doc, Docs, Members, bool, nat, neg, str, array, object, nil, cons, empty, member, docs, members,
  texts, stringify, stringify_indented,
}
use ores_lib_core.SchemaIr.{
  Outcome, returned, ◌>>◌, fail_if, Field, ForeignKey, Entity, Ir, DeleteAction, no_action,
  restrict, cascade, set_null,
}
use ores_lib_core.SchemaIr.Check.Entity.{field_named, foreign_doc}
use ores_lib_core.SchemaIr.Normalize.{entity_named}

abbrev pub key_of : Text × Doc → Text
key_of (k, d) = k

-- canonical(value): the keys of every object in order
unfoldable mutual
  pub canonical : Doc → Doc
  canonical (array ds) = array (canonical_items ds)
  canonical (object ms) = object (members (sort_by key_of (canonical_entries ms)))
  canonical d = d

  pub canonical_items : Docs → Docs
  canonical_items nil = nil
  canonical_items (cons d ds) = cons (canonical d) (canonical_items ds)

  pub canonical_entries : Members → List (Text × Doc)
  canonical_entries empty = []
  canonical_entries (member k d r) = (k, canonical d) ∷ canonical_entries r

-- json(value)
unfoldable pub json : Doc → Text
json d = stringify_indented (canonical d) ++ text "\n"

abbrev pub int_doc : ℤ → Doc
int_doc (pos n) = nat n
int_doc (negsuc n) = neg (suc n)

-- `${z}`
abbrev pub int_text : ℤ → Text
int_text (pos n) = decimal n
int_text (negsuc n) = b'-' ∷ decimal (suc n)

abbrev pub scalar_name : Scalar → Text
scalar_name string = text "string"
scalar_name uuid = text "uuid"
scalar_name int32 = text "int32"
scalar_name boolean = text "boolean"

-- A property that may be absent
abbrev pub optional : Text → Option ℤ → List (Text × Doc)
optional key none = []
optional key (some z) = (key, int_doc z) ∷ []

unfoldable pub field_doc : Field → Doc
field_doc field = object (
    members (
      (text "name", str field.name)
        ∷ (text "column", str field.column)
        ∷ (text "type", str (scalar_name field.type))
        ∷ (text "required", bool field.required)
        ∷ (text "nullable", bool field.nullable)
        ∷ optional (text "minLength") field.min_length
      ++ optional (text "maxLength") field.max_length
      ++ optional (text "minimum") field.minimum
      ++ optional (text "maximum") field.maximum))

unfoldable pub entity_doc : Entity → Doc
entity_doc entity = object (
    members (
      (text "name", str entity.name)
      ∷ (text "table", str entity.table)
      ∷ (text "fields", array (docs (map field_doc entity.fields)))
      ∷ (text "primaryKey", texts entity.primary_key)
      ∷ (text "uniqueKeys", array (docs (map texts entity.unique_keys)))
      ∷ (text "indexes", array (docs (map texts entity.indexes)))
      ∷ (text "foreignKeys", array (docs (map foreign_doc entity.foreign_keys)))
      ∷ []))

-- The normalized document as a value
unfoldable pub ir_doc : Ir → Doc
ir_doc ir = object (
    members (
      (text "schemaVersion", str ir.schema_version)
      ∷ (text "databaseSchema", str ir.database_schema)
      ∷ (text "entities", array (docs (map entity_doc ir.entities)))
      ∷ []))

abbrev pub quote : Text → Text
quote value = text "\"" ++ value ++ text "\""

unfoldable pub sql_name : Ir → Entity → Text
sql_name ir entity = quote ir.database_schema ++ text "." ++ quote entity.table

-- entity.fields.find(…).column; the field of a key exists.
abbrev pub column_of : Option Field → Text
column_of none = []
column_of (some field) = field.column

unfoldable pub columns : Entity → List Text → Text
columns entity names =
    join (text ", ") (map (λ name. quote (column_of (field_named entity.fields name))) names)

abbrev pub sql_scalar : Scalar → Text
sql_scalar string = text "TEXT"
sql_scalar uuid = text "UUID"
sql_scalar int32 = text "INTEGER"
sql_scalar boolean = text "BOOLEAN"

abbrev pub delete_action : DeleteAction → Text
delete_action no_action = text "NO ACTION"
delete_action restrict = text "RESTRICT"
delete_action cascade = text "CASCADE"
delete_action set_null = text "SET NULL"

unfoldable pub take : ℕ → Text → Text
take zero s = []
take (suc n) [] = []
take (suc n) (c ∷ s) = c ∷ take n s

unfoldable pub flatten : {A : Type 0} → List (List A) → List A
flatten [] = []
flatten (xs ∷ xss) = xs ++ flatten xss

abbrev pub constraint_text : Text → Option ℤ → List Text
constraint_text start none = []
constraint_text start (some z) = (start ++ int_text z) ∷ []

abbrev pub check_clause : List Text → Text
check_clause [] = []
check_clause (c ∷ cs) = text " CHECK (" ++ join (text " AND ") (c ∷ cs) ++ text ")"

unfoldable pub column_declaration : Field → Text
column_declaration field =
    let name = quote field.column in
    text "  "
    ++ name
    ++ text " "
    ++ sql_scalar field.type
    ++ (if field.nullable then [] else text " NOT NULL")
    ++ check_clause (
        constraint_text (text "char_length(" ++ name ++ text ") >= ") field.min_length
        ++ constraint_text (text "char_length(" ++ name ++ text ") <= ") field.max_length
        ++ constraint_text (name ++ text " >= ") field.minimum
        ++ constraint_text (name ++ text " <= ") field.maximum)

module _ (sha256 : Text → Text) where
  unfoldable pub generated_name : Text → Text → Doc → Text
  generated_name kind table detail =
      text "ores_"
      ++ kind
      ++ text "_"
      ++ take 24 (sha256 (stringify (array (docs (str table ∷ detail ∷ [])))))

  abbrev pub key_name : Text → Entity → List Text → Text
  key_name kind entity key = generated_name kind entity.table (texts key)

  abbrev pub constraint_names : Entity → List Text
  constraint_names entity =
      key_name (text "pk") entity entity.primary_key
      ∷ map (key_name (text "uq") entity) entity.unique_keys

  unfoldable pub generated_relation_names : Ir → List Text
  generated_relation_names ir =
      flatten (map constraint_names ir.entities)
      ++ flatten (map (λ entity. map (key_name (text "idx") entity) entity.indexes) ir.entities)

  abbrev pub relation_names : Ir → List Text
  relation_names ir = map (λ entity. entity.table) ir.entities ++ generated_relation_names ir

  unfoldable pub assert_no_relation_collision : Ir → Outcome (Unit {0})
  assert_no_relation_collision ir =
      fail_if (not (set_size (relation_names ir) == length (relation_names ir)))
        (text "NAME_COLLISION") (text "/entities")
        (text "Generated relation name collides with a declared relation.")

  abbrev pub unique_row : Entity → List Text → Text
  unique_row entity key =
      text "  CONSTRAINT "
      ++ quote (key_name (text "uq") entity key)
      ++ text " UNIQUE ("
      ++ columns entity key
      ++ text ")"

  unfoldable pub create_table : Ir → Entity → Text
  create_table ir entity =
      text "CREATE TABLE "
      ++ sql_name ir entity
      ++ text " (\n"
      ++ join (text ",\n") (
          map column_declaration entity.fields
          ++ (text "  CONSTRAINT "
              ++ quote (key_name (text "pk") entity entity.primary_key)
              ++ text " PRIMARY KEY ("
              ++ columns entity entity.primary_key
              ++ text ")")
            ∷ map (unique_row entity) entity.unique_keys)
      ++ text "\n);"

  -- The target of a foreign key exists.
  abbrev pub add_reference : Ir → Entity → ForeignKey → Option Entity → Text
  add_reference ir entity key none = []
  add_reference ir entity key (some target) =
      text "ALTER TABLE "
      ++ sql_name ir entity
      ++ text " ADD CONSTRAINT "
      ++ quote (generated_name (text "fk") entity.table (foreign_doc key))
      ++ text " FOREIGN KEY ("
      ++ columns entity key.fields
      ++ text ") REFERENCES "
      ++ sql_name ir target
      ++ text " ("
      ++ columns target key.references.fields
      ++ text ") MATCH SIMPLE ON UPDATE NO ACTION ON DELETE "
      ++ delete_action key.on_delete
      ++ text ";"

  unfoldable pub references : Ir → Entity → List Text
  references ir entity =
      map (λ key. add_reference ir entity key (entity_named ir.entities key.references.entity))
        entity.foreign_keys

  unfoldable pub create_indexes : Ir → Entity → List Text
  create_indexes ir entity =
      map
        (λ key.
          text "CREATE INDEX "
          ++ quote (key_name (text "idx") entity key)
          ++ text " ON "
          ++ sql_name ir entity
          ++ text " ("
          ++ columns entity key
          ++ text ");")
        entity.indexes

  unfoldable pub emit_sql : Ir → Outcome Text
  emit_sql ir =
      assert_no_relation_collision ir
      >> returned (
          join (text "\n") (
            text "-- Generated desired state, NOT an executable migration plan."
            ∷ text
                "-- Schema provisioning, RLS, grants, triggers, defaults and backfills remain external."
            ∷ text "-- No CREATE/ALTER/DROP is executed by this compiler."
            ∷ []
            ∷ join (text "\n\n") (
                map (create_table ir) ir.entities
                ++ flatten (map (references ir) ir.entities)
                ++ flatten (map (create_indexes ir) ir.entities))
            ∷ []
            ∷ []))
