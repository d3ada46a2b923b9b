-- ===== src/SchemaIr/Types.antt =====
-- schema-ir/index.js: emitJsonSchema, emitTypeScript, emitRust, emitDart and emitCue.
use ores_lib_core.Base.{
  Bool, true, false, not, ◌||◌, Option, none, some, List, [], ◌∷◌, ◌++◌, map, Text, text, any,
  filter, join, nat_eq, list_eq, ◌==◌, if◌then◌else◌,
}
use ores_lib_core.Js.{ℤ}
use ores_lib_core.Schema.Ir.{Scalar, string, boolean, int32, uuid}
use ores_lib_core.Schema.Json.{is_some}
use ores_lib_core.Schema.Doc.{Doc, bool, nat, str, object, members, texts, quoted}
use ores_lib_core.SchemaIr.{Field, Entity, Ir}
use ores_lib_core.SchemaIr.Check.{or_else, int32_min, int32_max}
use ores_lib_core.SchemaIr.Emit.{json, int_doc, int_text, optional}

unfoldable pub uuid_pattern : Text
uuid_pattern = text "^[0-9a-fA-F]{8}-[0-9a-fA-F]{4}-[0-9a-fA-F]{4}-[0-9a-fA-F]{4}-[0-9a-fA-F]{12}$"

unfoldable pub set_member : Text → Doc → List (Text × Doc) → List (Text × Doc)
set_member key d [] = (key, d) ∷ []
set_member key d ((k, e) ∷ rest) =
    let later = set_member key d rest in if k == key then (k, d) ∷ rest else (k, e) ∷ later

-- { ...first, ...second }: later spreads win.
unfoldable pub spread : List (Text × Doc) → List (Text × Doc) → List (Text × Doc)
spread first [] = first
spread first ((k, d) ∷ second) = spread (set_member k d first) second

abbrev pub schema_type : Scalar → Text
schema_type int32 = text "integer"
schema_type boolean = text "boolean"
schema_type _ = text "string"

abbrev pub type_members : Field → Scalar → List (Text × Doc)
type_members field uuid =
    (text "format", str (text "uuid"))
    ∷ (text "pattern", str uuid_pattern)
    ∷ (text "minLength", nat 36)
    ∷ (text "maxLength", nat 36)
    ∷ []
type_members field string = (text "pattern", str (text "^[^\\u0000]*$")) ∷ []
type_members field int32 =
    (text "minimum", int_doc (or_else int32_min field.minimum))
    ∷ (text "maximum", int_doc (or_else int32_max field.maximum))
    ∷ []
type_members field boolean = []

-- propertySchema(field)
unfoldable pub property_schema : Field → Doc
property_schema field =
    let scalar = schema_type field.type in
    let typed =
      (text "type", if field.nullable then texts (scalar ∷ text "null" ∷ []) else str scalar)
      ∷ type_members field field.type in
    object (
      members (
        spread typed (
          optional (text "minLength") field.min_length
          ++ optional (text "maxLength") field.max_length)))

unfoldable pub emit_json_schema : Ir → Entity → Text
emit_json_schema ir entity = json (
    object (
      members (
        (text "$schema", str (text "https://json-schema.org/draft/2020-12/schema"))
        ∷ (
          text "$id",
          str (text "urn:ores:schema-ir:v1:" ++ ir.database_schema ++ text ":" ++ entity.name),
        )
        ∷ (text "title", str entity.name)
        ∷ (text "type", str (text "object"))
        ∷ (text "additionalProperties", bool false)
        ∷ (
          text "properties",
          object (members (map (λ field. (field.name, property_schema field)) entity.fields)),
        )
        ∷ (
          text "required",
          texts (map (λ field. field.name) (filter (λ field. field.required) entity.fields)),
        )
        ∷ [])))

abbrev pub ts_type : Scalar → Text
ts_type int32 = text "number"
ts_type boolean = text "boolean"
ts_type _ = text "string"

unfoldable pub ts_field : Field → Text
ts_field field =
    text "  readonly "
    ++ field.name
    ++ (if field.required then [] else text "?")
    ++ text ": "
    ++ ts_type field.type
    ++ (if field.nullable then text " | null" else [])
    ++ text ";"

unfoldable pub emit_type_script : Ir → Text
emit_type_script ir = join (text "\n\n") (
    text "// Generated types only. Validate boundary data with the emitted schema."
      ∷ text "// Enable strictNullChecks and exactOptionalPropertyTypes."
      ∷ []
      ∷ map
          (λ entity.
            text "export interface "
            ++ entity.name
            ++ text " {\n"
            ++ join (text "\n") (map ts_field entity.fields)
            ++ text "\n}")
          ir.entities
    ++ [] ∷ [])

-- ir.entities.some((entity) => entity.fields.some((field) => !field.required))
unfoldable pub has_optional : Ir → Bool
has_optional ir = any (λ entity. any (λ field. not field.required) entity.fields) ir.entities

abbrev pub helper_if : Bool → Text → List Text
helper_if true helper = helper ∷ []
helper_if false helper = []

-- field.required ? scalar : `SchemaOptional<${scalar}>`
abbrev pub presence : Bool → Text → Text
presence true scalar = scalar
presence false scalar = text "SchemaOptional<" ++ scalar ++ text ">"

abbrev pub rust_type : Scalar → Text
rust_type int32 = text "i32"
rust_type boolean = text "bool"
rust_type _ = text "std::string::String"

abbrev pub rust_field_type : Field → Text
rust_field_type field = presence field.required (
    if field.nullable
    then text "std::option::Option<" ++ rust_type field.type ++ text ">"
    else rust_type field.type)

unfoldable pub rust_struct : Entity → Text
rust_struct entity =
    text "#[derive(Debug, Clone, PartialEq, Eq)]\n#[allow(non_snake_case)]\npub struct "
    ++ entity.name
    ++ text " {\n"
    ++ join (text "\n") (
        map
          (λ field.
            text "    pub r#" ++ field.name ++ text ": " ++ rust_field_type field ++ text ",")
          entity.fields)
    ++ text "\n}"

unfoldable pub emit_rust : Ir → Text
emit_rust ir = join (text "\n\n") (
    text "// Generated owned types only; no serde or runtime validation is implied."
      ∷ helper_if (has_optional ir) (
          text
            "#[derive(Debug, Clone, PartialEq, Eq)]\npub enum SchemaOptional<T> { Missing, Present(T) }")
    ++ map rust_struct ir.entities
    ++ [] ∷ [])

abbrev pub dart_type : Scalar → Text
dart_type int32 = text "int"
dart_type boolean = text "bool"
dart_type _ = text "String"

abbrev pub dart_field_type : Field → Text
dart_field_type field =
    presence field.required (dart_type field.type ++ (if field.nullable then text "?" else []))

abbrev pub dart_argument : Field → Text
dart_argument field =
    if field.required
    then text "    required this." ++ field.name ++ text ","
    else text "    this." ++ field.name ++ text " = const SchemaMissing(),"

unfoldable pub dart_class : Entity → Text
dart_class entity =
    text "final class "
    ++ entity.name
    ++ text " {\n"
    ++ join (text "\n") (
        map
          (λ field. text "  final " ++ dart_field_type field ++ text " " ++ field.name ++ text ";")
          entity.fields)
    ++ text "\n  const "
    ++ entity.name
    ++ text "({\n"
    ++ join (text "\n") (map dart_argument entity.fields)
    ++ text "\n  });\n}"

unfoldable pub dart_helper : Text
dart_helper =
    text
      "sealed class SchemaOptional<T> { const SchemaOptional(); }\nfinal class SchemaMissing<T> extends SchemaOptional<T> { const SchemaMissing(); }\nfinal class SchemaPresent<T> extends SchemaOptional<T> {\n  final T value;\n  const SchemaPresent(this.value);\n}"

unfoldable pub emit_dart : Ir → Text
emit_dart ir = join (text "\n\n") (
    text "// Generated Dart 3 immutable types only; validate JSON before constructing."
      ∷ helper_if (has_optional ir) dart_helper
    ++ map dart_class ir.entities
    ++ [] ∷ [])

abbrev pub cue_base : Field → Scalar → List Text
cue_base field boolean = text "bool" ∷ []
cue_base field int32 =
    text "int"
    ∷ (text ">=" ++ int_text (or_else int32_min field.minimum))
    ∷ (text "<=" ++ int_text (or_else int32_max field.maximum))
    ∷ []
cue_base field uuid = text "string" ∷ (text "=~" ++ quoted uuid_pattern) ∷ []
cue_base field string = text "string" ∷ text "!~\"\\\\x00\"" ∷ []

abbrev pub cue_runes : Text → Option ℤ → List Text
cue_runes function none = []
cue_runes function (some z) = (function ++ text "(" ++ int_text z ++ text ")") ∷ []

unfoldable pub cue_constraint : Field → Text
cue_constraint field =
    let value = join (text " & ") (
      cue_base field field.type
      ++ cue_runes (text "strings.MinRunes") field.min_length
      ++ cue_runes (text "strings.MaxRunes") field.max_length) in
    if field.nullable then text "null | (" ++ value ++ text ")" else value

abbrev pub uses_strings : Ir → Bool
uses_strings ir =
    any
      (λ entity. any (λ field. is_some field.min_length || is_some field.max_length) entity.fields)
      ir.entities

unfoldable pub cue_definition : Entity → Text
cue_definition entity =
    text "#"
    ++ entity.name
    ++ text ": {\n"
    ++ join (text "\n") (
        map
          (λ field.
            text "  "
            ++ quoted field.name
            ++ (if field.required then text "!" else text "?")
            ++ text ": "
            ++ cue_constraint field)
          entity.fields)
    ++ text "\n}"

unfoldable pub emit_cue : Ir → Text
emit_cue ir = join (text "\n\n") (
    text "// Generated structural constraints. Relational integrity remains in PostgreSQL."
      ∷ text "package models"
      ∷ helper_if (uses_strings ir) (text "import \"strings\"")
    ++ map cue_definition ir.entities
    ++ [] ∷ [])
