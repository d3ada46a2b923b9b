-- ===== src/SchemaIr/Check/Entity.antt =====
-- schema-ir/validate.js: entity.
pub mod Laws
use ores_lib_core.Base.{
  ℕ, zero, suc, Bool, true, false, not, ◌&&◌, ◌||◌, Option, none, some, List, [], ◌∷◌, ◌++◌, map,
  Text, text, length, includes, any, find, sort, sort_by, nat_eq, list_eq, ◌==◌, if◌then◌else◌,
}
use ores_lib_core.Schema.Json.{Json, str, array, nil, to_list}
use ores_lib_core.Schema.Doc.{Doc, array, object, docs, members, texts, stringify, str}
use ores_lib_core.SchemaIr.{
  Outcome, returned, ◌>>=◌, ◌>>◌, fail, fail_if, Field, Entity, References, ForeignKey,
  DeleteAction, no_action, restrict, cascade, set_null, reserved_fields, reserved_models,
}
use ores_lib_core.SchemaIr.Check.{
  at, at_item, own, is_identifier, is_field_name, is_model_name, check_record, check_list,
  check_name, check_unique, check_field, check_tuple, each,
}

-- byName.get(key)
unfoldable pub field_named : List Field → Text → Option Field
field_named fields key = find (λ field. field.name == key) fields

abbrev pub names_of : List Field → List Text
names_of fields = map (λ field. field.name) fields

abbrev pub is_optional : Option Field → Bool
is_optional none = true
is_optional (some field) = field.nullable || not field.required

-- JSON.stringify(key)
abbrev pub key_text : List Text → Text
key_text key = stringify (texts key)

abbrev pub action_of : Option Json → Option DeleteAction
action_of none = some no_action
action_of (some (str s)) =
    if s == text "noAction"
    then some no_action
    else if s == text "restrict"
    then some restrict
    else if s == text "cascade"
    then some cascade
    else if s == text "setNull"
    then some set_null
    else none
action_of (some j) = none

abbrev pub known_action : Option DeleteAction → Text → Outcome DeleteAction
known_action (some action) path = returned action
known_action none path =
    fail (text "UNKNOWN_PROPERTY") path (text "Unsupported delete policy is not silently ignored.")

-- The test of DELETE_ACTIONS, and `?? "noAction"`
unfoldable pub check_action : Option Json → Text → Outcome DeleteAction
check_action item path = known_action (action_of item) path

abbrev pub check_target_field : Text → Json → Text → Outcome Text
check_target_field path j here = check_name (some j) is_field_name path reserved_fields

-- fk.references: the entity, and the fields of its key
unfoldable pub check_references : Option Json → Text → Outcome References
check_references none path = fail (text "INVALID_TYPE") path (text "Expected an object.")
check_references (some value) path = do
  check_record (some value) (text "entity" ∷ text "fields" ∷ []) [] path
  entity ← check_name (own value "entity") is_model_name (at path (text "entity")) reserved_models
  items ← check_list (own value "fields") (at path (text "fields")) 1 16
  fields ← each (check_target_field (at path (text "fields"))) path items
  check_unique fields (at path (text "fields"))
  returned (record { entity = entity; fields = fields })

-- The callback on a foreign key.
unfoldable pub check_foreign : List Text → Json → Text → Outcome ForeignKey
check_foreign fields value path = do
  check_record (some value) (text "fields" ∷ text "references" ∷ []) (text "onDelete" ∷ []) path
  references ← check_references (own value "references") (at path (text "references"))
  action ← check_action (own value "onDelete") (at path (text "onDelete"))
  local ← check_tuple (own value "fields") fields (at path (text "fields"))
  fail_if (not (length local == length references.fields)) (text "INVALID_REFERENCE") path
      (text "Foreign-key arities must match.")
  returned (record { fields = local; references = references; on_delete = action })

-- Object.hasOwn(value, key) ? value[key] : []
abbrev pub or_empty : Option Json → Option Json
or_empty none = some (array nil)
or_empty (some j) = some j

abbrev pub check_key : List Text → Json → Text → Outcome (List Text)
check_key fields value path = check_tuple (some value) fields path

abbrev pub references_doc : References → Doc
references_doc references = object (
    members
      ((text "entity", str references.entity) ∷ (text "fields", texts references.fields) ∷ []))

abbrev pub action_name : DeleteAction → Text
action_name no_action = text "noAction"
action_name restrict = text "restrict"
action_name cascade = text "cascade"
action_name set_null = text "setNull"

-- JSON.stringify([fk.fields, fk.references])
unfoldable pub foreign_identity : ForeignKey → Text
foreign_identity key =
    stringify (array (docs (texts key.fields ∷ references_doc key.references ∷ [])))

abbrev pub foreign_doc : ForeignKey → Doc
foreign_doc key = object (
    members (
      (text "fields", texts key.fields)
      ∷ (text "references", references_doc key.references)
      ∷ (text "onDelete", str (action_name key.on_delete))
      ∷ []))

-- JSON.stringify(fk)
unfoldable pub foreign_text : ForeignKey → Text
foreign_text key = stringify (foreign_doc key)

abbrev pub entity_optional : List Text
entity_optional = text "uniqueKeys" ∷ text "indexes" ∷ text "foreignKeys" ∷ []

-- entity(value, path)
unfoldable pub check_entity : Json → Text → Outcome Entity
check_entity value path = do
  check_record (some value) (text "name" ∷ text "table" ∷ text "fields" ∷ text "primaryKey" ∷ [])
      entity_optional path
  name ← check_name (own value "name") is_model_name (at path (text "name")) reserved_models
  table ← check_name (own value "table") is_identifier (at path (text "table")) []
  items ← check_list (own value "fields") (at path (text "fields")) 1 256
  fields ← each check_field (at path (text "fields")) items
  check_unique (names_of fields) (at path (text "fields"))
  check_unique (map (λ field. field.column) fields) (at path (text "fields"))
  primary_key ← check_tuple (own value "primaryKey") (names_of fields) (at path (text "primaryKey"))
  fail_if (any (λ key. is_optional (field_named fields key)) primary_key)
      (text "INVALID_PRIMARY_KEY") (at path (text "primaryKey"))
      (text "Primary-key fields must be required and non-nullable.")
  unique_items ← check_list (or_empty (own value "uniqueKeys")) (at path (text "uniqueKeys")) 0 64
  unique_keys ← each (check_key (names_of fields)) (at path (text "uniqueKeys")) unique_items
  index_items ← check_list (or_empty (own value "indexes")) (at path (text "indexes")) 0 64
  indexes ← each (check_key (names_of fields)) (at path (text "indexes")) index_items
  check_unique (map (λ key. key_text (sort key)) (primary_key ∷ unique_keys))
      (at path (text "uniqueKeys"))
  check_unique (map key_text indexes) (at path (text "indexes"))
  foreign_items ←
      check_list (or_empty (own value "foreignKeys")) (at path (text "foreignKeys")) 0 64
  foreign_keys ← each (check_foreign (names_of fields)) (at path (text "foreignKeys")) foreign_items
  check_unique (map foreign_identity foreign_keys) (at path (text "foreignKeys"))
  returned (record {
    name = name;
    table = table;
    fields = sort_by (λ field. field.name) fields;
    primary_key = primary_key;
    unique_keys = sort_by key_text unique_keys;
    indexes = sort_by key_text indexes;
    foreign_keys = sort_by foreign_text foreign_keys;
  })
