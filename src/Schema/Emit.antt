-- ===== src/Schema/Emit.antt =====
-- emit.js: the helpers, `emitJsonSchema` and `emitTypescript`.
pub mod Order
use ores_lib_core.Base.{
  ℕ, false, Option, none, some, List, [], ◌∷◌, ◌++◌, map, Text, text, filter, join, sort_by,
  if◌then◌else◌,
}
use ores_lib_core.Schema.Ir.{Scalar, string, boolean, int32, uuid, Field, Model}
use ores_lib_core.Schema.Doc.{
  Doc, bool, nat, neg, str, array, object, docs, texts, members, quoted, stringify_indented,
}

-- sortBy(models, (model) => model.name) and sortBy(fields, (field) => field.name)
unfoldable pub by_name : List Model → List Model
by_name models = sort_by (λ model. model.name) models

unfoldable pub fields_by_name : List Field → List Field
fields_by_name fields = sort_by (λ field. field.name) fields

abbrev pub scalar_schema : Scalar → Text
scalar_schema int32 = text "integer"
scalar_schema boolean = text "boolean"
scalar_schema _ = text "string"

abbrev pub ts_type : Scalar → Text
ts_type string = text "string"
ts_type boolean = text "boolean"
ts_type int32 = text "number"
ts_type uuid = text "string"

unfoldable pub uuid_pattern : Text
uuid_pattern = text "^[0-9a-f]{8}-[0-9a-f]{4}-[0-9a-f]{4}-[0-9a-f]{4}-[0-9a-f]{12}(?![\\s\\S])"

abbrev pub type_members : Scalar → List (Text × Doc)
type_members int32 = (text "minimum", neg 2147483648) ∷ (text "maximum", nat 2147483647) ∷ []
type_members uuid = (text "format", str (text "uuid")) ∷ (text "pattern", str uuid_pattern) ∷ []
type_members _ = []

abbrev pub length_member : Text → Option ℕ → List (Text × Doc)
length_member key none = []
length_member key (some n) = (key, nat n) ∷ []

-- propertySchema(field)
unfoldable pub property_schema : Field → Doc
unfolding uuid_pattern
property_schema field =
    let scalar = scalar_schema field.type in
    object (
      members (
        (text "type", if field.nullable then texts (scalar ∷ text "null" ∷ []) else str scalar)
          ∷ type_members field.type
        ++ length_member (text "minLength") field.min_length
        ++ length_member (text "maxLength") field.max_length))

-- The entry of a model in $defs.
unfoldable pub definition : Model → Text × Doc
unfolding property_schema fields_by_name
definition model =
    let fields = fields_by_name model.fields in
    (
      model.name,
      object (
          members (
            (text "type", str (text "object"))
            ∷ (text "additionalProperties", bool false)
            ∷ (
              text "properties",
              object (members (map (λ field. (field.name, property_schema field)) fields)),
            )
            ∷ (
              text "required",
              texts (map (λ field. field.name) (filter (λ field. field.required) fields)),
            )
            ∷ [])),
    )

unfoldable pub emit_json_schema : List Model → Text
unfolding by_name definition
emit_json_schema ir =
    let models = by_name ir in
    stringify_indented (
      object (
        members (
          (text "$schema", str (text "https://json-schema.org/draft/2020-12/schema"))
          ∷ (
            text "$comment",
            str (
                text
                  "Generated from ores.schema-ir.v1. Root accepts any declared model; select a $defs entry to require a particular model. Cross-row SQL constraints are not JSON instance validation."),
          )
          ∷ (
            text "anyOf",
            array (
                docs (
                  map
                    (λ model.
                      object (members ((text "$ref", str (text "#/$defs/" ++ model.name)) ∷ [])))
                    models)),
          )
          ∷ (text "$defs", object (members (map definition models)))
          ∷ [])))
    ++ text "\n"

-- The line of a field in an interface.
unfoldable pub typescript_field : Field → Text
typescript_field field =
    text "  readonly "
    ++ quoted field.name
    ++ (if field.required then [] else text "?")
    ++ text ": "
    ++ ts_type field.type
    ++ (if field.nullable then text " | null" else [])
    ++ text ";"

unfoldable pub typescript_model : Model → Text
unfolding typescript_field fields_by_name
typescript_model model =
    text "export interface "
    ++ model.name
    ++ text " {\n"
    ++ join (text "\n") (map typescript_field (fields_by_name model.fields))
    ++ text "\n}"

unfoldable pub emit_typescript : List Model → Text
unfolding by_name typescript_model
emit_typescript ir = join (text "\n") (
    text "// Generated from ores.schema-ir.v1; do not edit."
    ∷ text
        "// These are shape declarations, not runtime validators (UUID/length/int32 constraints remain in JSON Schema)."
    ∷ text "// Enable strictNullChecks and exactOptionalPropertyTypes in consumers."
    ∷ []
    ∷ join (text "\n\n") (map typescript_model (by_name ir))
    ∷ []
    ∷ [])
