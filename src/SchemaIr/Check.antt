-- ===== src/SchemaIr/Check.antt =====
-- schema-ir/validate.js: the checks of one value, of a field, of a key and of an entity.
pub mod Laws
pub mod Entity
use Prim.Native.String.{String}
use ores_lib_core.Base.{
  ℕ, zero, suc, Bool, true, false, not, ◌&&◌, ◌||◌, Option, none, some, List, [], ◌∷◌, ◌++◌, map,
  Text, text, length, includes, any, set_size, decimal, nat_eq, list_eq, ◌==◌, ltb, leb, is_lower,
  is_upper, is_digit, if◌then◌else◌,
}
use ores_lib_core.Js.{ℤ, pos, negsuc, Num, int, neg_zero}
use ores_lib_core.Schema.Ir.{Scalar, string, boolean, int32, uuid}
use ores_lib_core.Schema.Json.{Json, bool, num, str, array, object, keys_of, prop, is_some, to_list}
use ores_lib_core.Schema.Shape.{identifier, is_letter}
use ores_lib_core.SchemaIr.{
  Outcome, returned, ◌>>=◌, ◌>>◌, fail, fail_if, Field, reserved_fields, system_columns,
}

-- `${path}/key` and `${path}/${i}`
abbrev pub at : Text → Text → Text
at path key = path ++ b'/' ∷ key

abbrev pub at_item : Text → ℕ → Text
at_item path i = at path (decimal i)

-- IDENTIFIER, FIELD and MODEL
abbrev pub is_identifier : Text → Bool
is_identifier s = identifier is_lower (λ c. is_lower c || is_digit c || c == b'_') s

abbrev pub is_field_name : Text → Bool
is_field_name s = identifier is_lower (λ c. is_letter c || is_digit c) s

abbrev pub is_model_name : Text → Bool
is_model_name s = identifier is_upper (λ c. is_letter c || is_digit c) s

-- record(value, required, optional, path)
unfoldable pub check_record : Option Json → List Text → List Text → Text → Outcome (Unit {0})
check_record (some (object fs)) required optional path = do
  fail_if (any (λ key. not (includes (keys_of fs) key)) required) (text "MISSING_PROPERTY") path
      (text "A required IR property is absent.")
  fail_if (any (λ key. not (includes (required ++ optional) key)) (keys_of fs))
      (text "UNKNOWN_PROPERTY") path (text "Unsupported metadata is not silently ignored.")
check_record item required optional path =
    fail (text "INVALID_TYPE") path (text "Expected an object.")

unfoldable pub invalid_array : {A : Type 0} → Text → ℕ → ℕ → Outcome A
invalid_array path minimum maximum =
    fail (text "INVALID_ARRAY") path
      (text "Expected " ++ decimal minimum ++ text ".." ++ decimal maximum ++ text " entries.")

-- list(value, path, minimum, maximum)
unfoldable pub check_list : Option Json → Text → ℕ → ℕ → Outcome (List Json)
check_list (some (array js)) path minimum maximum =
    if ltb (length (to_list js)) minimum || ltb maximum (length (to_list js))
    then invalid_array path minimum maximum
    else returned (to_list js)
check_list item path minimum maximum = invalid_array path minimum maximum

-- name(value, pattern, path, reserved)
unfoldable pub check_name : Option Json → (Text → Bool) → Text → List Text → Outcome Text
check_name (some (str s)) pattern path reserved =
    if not (pattern s) || includes reserved s
    then fail (text "INVALID_IDENTIFIER") path
        (text "Expected a bounded, portable, non-reserved identifier.")
    else returned s
check_name item pattern path reserved =
    fail (text "INVALID_IDENTIFIER") path
      (text "Expected a bounded, portable, non-reserved identifier.")

unfoldable pub int_leb : ℤ → ℤ → Bool
int_leb (pos m) (pos n) = leb m n
int_leb (negsuc m) (pos n) = true
int_leb (pos m) (negsuc n) = false
int_leb (negsuc m) (negsuc n) = leb n m

abbrev pub integer_of : Num → Option ℤ
integer_of (int z) = some z
integer_of neg_zero = some (pos 0)
integer_of _ = none

abbrev pub in_range : ℤ → ℤ → Option ℤ → Text → Outcome ℤ
in_range minimum maximum (some z) path =
    if int_leb minimum z && int_leb z maximum
    then returned z
    else fail (text "INVALID_RANGE") path
        (text "Integer constraint is outside the supported bounds.")
in_range minimum maximum none path =
    fail (text "INVALID_RANGE") path (text "Integer constraint is outside the supported bounds.")

-- integer(value, minimum, maximum, path)
unfoldable pub check_integer : Json → ℤ → ℤ → Text → Outcome ℤ
check_integer (num n) minimum maximum path = in_range minimum maximum (integer_of n) path
check_integer j minimum maximum path = in_range minimum maximum none path

-- unique(values, path), for strings
unfoldable pub check_unique : List Text → Text → Outcome (Unit {0})
check_unique values path =
    fail_if (not (set_size values == length values)) (text "DUPLICATE") path
      (text "Duplicate names or declarations are not allowed.")

abbrev pub scalar_of : Option Json → Option Scalar
scalar_of (some (str s)) =
    if s == text "string"
    then some string
    else if s == text "uuid"
    then some uuid
    else if s == text "int32"
    then some int32
    else if s == text "boolean"
    then some boolean
    else none
scalar_of _ = none

-- The test of TYPES
unfoldable pub check_type : Option Json → Text → Outcome Scalar
check_type item path = known (scalar_of item)
  where
    known : Option Scalar → Outcome Scalar
    known (some scalar) = returned scalar
    known none =
        fail (text "UNSUPPORTED_TYPE") path
          (text "Supported scalars are string, uuid, int32, and boolean.")

unfoldable pub check_booleans : Option Json → Option Json → Text → Outcome (Bool × Bool)
check_booleans (some (bool required)) (some (bool nullable)) path = returned (required, nullable)
check_booleans required nullable path =
    fail (text "INVALID_TYPE") path (text "Presence and nullability must be explicit booleans.")

abbrev pub is_string : Scalar → Bool
is_string string = true
is_string _ = false

abbrev pub is_int32 : Scalar → Bool
is_int32 int32 = true
is_int32 _ = false

-- The body of both loops over constraints: the value of the key, if the field has it.
unfoldable pub check_constraint : Option Json → Bool → Text → ℤ → ℤ → Text → Outcome (Option ℤ)
check_constraint none applies message minimum maximum path = returned none
check_constraint (some j) applies message minimum maximum path = do
  fail_if (not applies) (text "INVALID_CONSTRAINT") path message
  z ← check_integer j minimum maximum path
  returned (some z)

abbrev pub max_length_limit : ℤ
max_length_limit = pos 1000000

abbrev pub int32_min : ℤ
int32_min = negsuc 2147483647

abbrev pub int32_max : ℤ
int32_max = pos 2147483647

-- value ?? fallback
abbrev pub or_else : ℤ → Option ℤ → ℤ
or_else fallback none = fallback
or_else fallback (some z) = z

unfoldable pub check_length : Option Json → Scalar → Text → Outcome (Option ℤ)
check_length item type path =
    check_constraint item (is_string type) (text "Length constraints apply only to strings.")
      (pos 0) max_length_limit path

unfoldable pub check_limit : Option Json → Scalar → Text → Outcome (Option ℤ)
check_limit item type path =
    check_constraint item (is_int32 type) (text "Range constraints apply only to int32.") int32_min
      int32_max path

-- A lower bound over an upper one
abbrev pub is_reversed : Option ℤ → Option ℤ → ℤ → ℤ → Bool
is_reversed low high least most = not (int_leb (or_else least low) (or_else most high))

abbrev pub required_keys : List Text
required_keys = text "name" ∷ text "column" ∷ text "type" ∷ text "required" ∷ text "nullable" ∷ []

abbrev pub optional_keys : List Text
optional_keys = text "minLength" ∷ text "maxLength" ∷ text "minimum" ∷ text "maximum" ∷ []

abbrev pub own : Json → String → Option Json
own value key = prop (some value) (text key)

-- field(value, path)
unfoldable pub check_field : Json → Text → Outcome Field
check_field value path = do
  check_record (some value) required_keys optional_keys path
  name ← check_name (own value "name") is_field_name (at path (text "name")) reserved_fields
  column ← check_name (own value "column") is_identifier (at path (text "column")) system_columns
  type ← check_type (own value "type") (at path (text "type"))
  (required, nullable) ← check_booleans (own value "required") (own value "nullable") path
  min_length ← check_length (own value "minLength") type (at path (text "minLength"))
  max_length ← check_length (own value "maxLength") type (at path (text "maxLength"))
  minimum ← check_limit (own value "minimum") type (at path (text "minimum"))
  maximum ← check_limit (own value "maximum") type (at path (text "maximum"))
  fail_if
      (is_reversed min_length max_length (pos 0) max_length_limit
        || is_reversed minimum maximum int32_min int32_max)
      (text "INVALID_RANGE") path (text "Minimum cannot exceed maximum.")
  returned (record {
    name = name;
    column = column;
    type = type;
    required = required;
    nullable = nullable;
    min_length = min_length;
    max_length = max_length;
    minimum = minimum;
    maximum = maximum;
  })

abbrev pub is_known : List Text → Json → Bool
is_known names (str s) = includes names s
is_known names j = false

abbrev pub string_of : Json → Text
string_of (str s) = s
string_of j = []

-- tuple(value, fields, path); every element is a string when it returns.
unfoldable pub check_tuple : Option Json → List Text → Text → Outcome (List Text)
check_tuple value fields path = do
  items ← check_list value path 1 16
  fail_if (any (λ key. not (is_known fields key)) items) (text "INVALID_REFERENCE") path
      (text "Key references an unknown field.")
  check_unique (map string_of items) path
  returned (map string_of items)

-- list.map((item, i) => check(item, `${path}/${i}`))
unfoldable pub each_from :
    {A : Type 0} → (Json → Text → Outcome A) → Text → ℕ → List Json → Outcome (List A)
each_from check path i [] = returned []
each_from check path i (j ∷ js) = do
  a ← check j (at_item path i)
  rest ← each_from check path (suc i) js
  returned (a ∷ rest)

abbrev pub each : {A : Type 0} → (Json → Text → Outcome A) → Text → List Json → Outcome (List A)
each check path js = each_from check path 0 js
