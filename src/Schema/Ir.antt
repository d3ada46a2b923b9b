-- ===== src/Schema/Ir.antt =====
-- validate.js, emit.js: the document behind the shape checks, as records. The reading functions are
-- total; where the shape checks fail, the code does not read, and what they return is of no account.
use ores_lib_core.Base.{
  ℕ, Bool, false, Option, none, some, List, [], ◌∷◌, map, Text, text, nat_eq, list_eq, ◌==◌,
  if◌then◌else◌,
}
use ores_lib_core.Js.{int, pos}
use ores_lib_core.Schema.Json.{Json, bool, num, str, prop, elements}

pub data Scalar : Type 0 where
  string boolean int32 uuid : Scalar

pub data DeleteAction : Type 0 where
  restrict cascade set_null : DeleteAction

pub record Field : Type 0 where
  pub name : Text
  pub type : Scalar
  pub required : Bool
  pub nullable : Bool
  pub min_length : Option ℕ
  pub max_length : Option ℕ

pub record Column : Type 0 where
  pub field : Text
  pub name : Text

pub record ForeignKey : Type 0 where
  pub fields : List Text
  pub model : Text
  pub target_fields : List Text
  pub on_delete : DeleteAction

pub record Storage : Type 0 where
  pub schema : Text
  pub table : Text
  pub columns : List Column
  pub primary_key : List Text
  pub unique_keys : List (List Text)
  pub foreign_keys : List ForeignKey

pub record Model : Type 0 where
  pub name : Text
  pub fields : List Field
  pub storage : Option Storage

unfoldable pub read_text : Option Json → Text
read_text (some (str s)) = s
read_text _ = []

unfoldable pub read_texts : Option Json → List Text
unfolding read_text
read_texts item = map read_text (elements item)

unfoldable pub read_bool : Option Json → Bool
read_bool (some (bool b)) = b
read_bool _ = false

unfoldable pub read_length : Option Json → Option ℕ
read_length (some (num (int (pos n)))) = some n
read_length _ = none

unfoldable pub read_scalar : Option Json → Scalar
unfolding read_text
read_scalar item =
    if read_text item == text "boolean"
    then boolean
    else if read_text item == text "int32"
    then int32
    else if read_text item == text "uuid"
    then uuid
    else string

unfoldable pub read_action : Option Json → DeleteAction
unfolding read_text
read_action item =
    if read_text item == text "cascade"
    then cascade
    else if read_text item == text "setNull"
    then set_null
    else restrict

unfoldable pub read_field : Option Json → Field
unfolding read_text read_scalar read_bool read_length
read_field item = record {
  name = read_text (prop item (text "name"));
  type = read_scalar (prop item (text "type"));
  required = read_bool (prop item (text "required"));
  nullable = read_bool (prop item (text "nullable"));
  min_length = read_length (prop item (text "minLength"));
  max_length = read_length (prop item (text "maxLength"));
}

unfoldable pub read_column : Option Json → Column
unfolding read_text
read_column item = record {
  field = read_text (prop item (text "field"));
  name = read_text (prop item (text "name"));
}

unfoldable pub read_foreign_key : Option Json → ForeignKey
unfolding read_text read_texts read_action
read_foreign_key item = record {
  fields = read_texts (prop item (text "fields"));
  model = read_text (prop (prop item (text "references")) (text "model"));
  target_fields = read_texts (prop (prop item (text "references")) (text "fields"));
  on_delete = read_action (prop item (text "onDelete"));
}

unfoldable pub read_storage : Option Json → Option Storage
unfolding read_text read_texts read_column read_foreign_key
read_storage none = none
read_storage (some j) = some record {
  schema = read_text (prop (some j) (text "schema"));
  table = read_text (prop (some j) (text "table"));
  columns = map read_column (elements (prop (some j) (text "columns")));
  primary_key = read_texts (prop (some j) (text "primaryKey"));
  unique_keys = map read_texts (elements (prop (some j) (text "uniqueKeys")));
  foreign_keys = map read_foreign_key (elements (prop (some j) (text "foreignKeys")));
}

unfoldable pub read_model : Option Json → Model
unfolding read_text read_field read_storage
read_model item = record {
  name = read_text (prop item (text "name"));
  fields = map read_field (elements (prop item (text "fields")));
  storage = read_storage (prop item (text "storage"));
}

unfoldable pub read_document : Option Json → List Model
unfolding read_model
read_document value = map read_model (elements (prop value (text "models")))

abbrev pub or_earlier : {A : Type 0} → Option A → Option A → Option A
or_earlier (some later) earlier = some later
or_earlier none earlier = earlier

-- new Map(xs.map((x) => [key(x), x])).get(k): the last of the entries with the key
unfoldable pub map_get : {A : Type 0} → (A → Text) → List A → Text → Option A
map_get key [] k = none
map_get key (x ∷ xs) k = or_earlier (map_get key xs k) (if key x == k then some x else none)

-- fields.get(f)
abbrev pub field_get : List Field → Text → Option Field
field_get fields f = map_get (λ field. field.name) fields f

abbrev pub model_get : List Model → Text → Option Model
model_get models m = map_get (λ model. model.name) models m
