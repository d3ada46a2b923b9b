-- ===== src/Schema/Shape.antt =====
-- validate.js: the helpers `record`, `array`, `name` and `fieldList`, and the checks of shapes.
pub mod Storage
pub mod Laws
pub mod Stored
pub mod Bounds
use ores_lib_core.Base.{
  ℕ, Bool, true, false, not, ◌&&◌, ◌||◌, Option, none, some, List, [], ◌∷◌, ◌++◌, Text, text, every,
  any, length, includes, decimal, nat_eq, list_eq, ◌==◌, leb, ltb, is_lower, is_upper, is_digit,
  if◌then◌else◌,
}
use ores_lib_core.Js.{Num, int, ℤ, pos, negsuc}
use ores_lib_core.Schema.Json.{
  Json, bool, num, str, array, object, keys_of, prop, is_some, elements, items_size,
}
use ores_lib_core.Schema.Log.{Log, error, error_if, if_passed, each}

-- A pattern /^[head][tail]{0,62}(?![\s\S])/
unfoldable pub identifier : (ℕ → Bool) → (ℕ → Bool) → Text → Bool
identifier head tail [] = false
identifier head tail (c ∷ s) = head c && (every tail s && leb (length s) 62)

abbrev pub is_letter : ℕ → Bool
is_letter c = is_upper c || is_lower c

abbrev pub model_name : Text → Bool
model_name s = identifier is_upper (λ c. is_letter c || is_digit c) s

abbrev pub field_name : Text → Bool
field_name s = identifier is_lower (λ c. is_letter c || is_digit c || c == b'_') s

abbrev pub sql_name : Text → Bool
sql_name s = identifier is_lower (λ c. is_lower c || is_digit c || c == b'_') s

-- `${path}.key` and `${path}[index]`
abbrev pub at_key : Text → Text → Text
at_key path key = path ++ text "." ++ key

abbrev pub at_index : Text → ℕ → Text
at_index path i = path ++ text "[" ++ decimal i ++ text "]"

-- `return error(…)` and `return true`
abbrev pub fails : Text → Text → Text → Log → Bool × Log
fails code path message log = (false, error code path message log)

unfoldable pub check_record : Option Json → List Text → List Text → Text → Log → Bool × Log
check_record (some (object fs)) required optional path log =
    if any (λ key. not (includes (required ++ optional) key)) (keys_of fs)
    then fails (text "UNKNOWN_PROPERTY") path (text "Unknown properties are not supported.") log
    else if any (λ key. not (includes (keys_of fs) key)) required
    then fails (text "MISSING_PROPERTY") path (text "Missing required properties.") log
    else (true, log)
check_record item required optional path log =
    fails (text "INVALID_SHAPE") path (text "Expected an object.") log

abbrev pub is_array : Option Json → Bool
is_array (some (array js)) = true
is_array _ = false

unfoldable pub check_array : Option Json → ℕ → ℕ → Text → Log → Bool × Log
check_array item min max path log =
    if not (is_array item) || ltb (length (elements item)) min || ltb max (length (elements item))
    then fails (text "INVALID_ARRAY") path
        (text "Expected an array with "
          ++ decimal min
          ++ text " to "
          ++ decimal max
          ++ text " entries.")
        log
    else (true, log)

abbrev pub matches : (Text → Bool) → Option Json → Bool
matches pattern (some (str s)) = pattern s
matches pattern _ = false

unfoldable pub check_name : Option Json → (Text → Bool) → Text → Log → Log
check_name item pattern path log =
    error_if (not (matches pattern item)) (text "INVALID_IDENTIFIER") path
      (text "Expected a portable ASCII identifier of at most 63 characters.") log

unfoldable pub check_field_list : Option Json → Text → Log → Log
check_field_list item path log = if_passed (check_array item 1 128 path log) (λ log.
    error_if (not (items_size (elements item) == length (elements item)))
      (text "DUPLICATE_KEY_FIELD") path (text "A key cannot repeat a field.")
      (each (λ i field. check_name field field_name (at_index path i)) (elements item) log))

unfoldable pub is_boolean : Option Json → Bool
is_boolean (some (bool b)) = true
is_boolean _ = false

abbrev pub is_text : Option Json → Text → Bool
is_text (some (str s)) t = s == t
is_text _ t = false

-- Number.isInteger(item) && item >= 0 && item <= 1048576
unfoldable pub is_length : Option Json → Bool
is_length (some (num (int (pos n)))) = leb n 1048576
is_length _ = false

unfoldable pub int_ltb : ℤ → ℤ → Bool
int_ltb (pos m) (pos n) = ltb m n
int_ltb (pos m) (negsuc n) = false
int_ltb (negsuc m) (pos n) = true
int_ltb (negsuc m) (negsuc n) = ltb n m

-- Both are integers, and the first is greater.
unfoldable pub contradictory : Option Json → Option Json → Bool
unfolding int_ltb
contradictory (some (num (int m))) (some (num (int n))) = int_ltb n m
contradictory _ _ = false

unfoldable pub scalar_names : List Text
scalar_names = text "string" ∷ text "boolean" ∷ text "int32" ∷ text "uuid" ∷ []

-- SCALARS.has(item)
abbrev pub is_one_of : List Text → Option Json → Bool
is_one_of names (some (str s)) = includes names s
is_one_of names _ = false

unfoldable pub check_boolean : Option Json → Text → Text → Log → Log
check_boolean field key here log =
    error_if (not (is_boolean (prop field key))) (text "INVALID_BOOLEAN") (at_key here key)
      (text "Presence and nullability must be explicit booleans.") log

unfoldable pub check_length : Option Json → Text → Text → Log → Log
check_length field key here log =
    error_if
      (is_some (prop field key)
        && (not (is_text (prop field (text "type")) (text "string"))
            || not (is_length (prop field key))))
      (text "INVALID_LENGTH") (at_key here key)
      (text "String lengths must be integers from 0 to 1048576 and apply only to string fields.")
      log

unfoldable pub check_field : Option Json → Text → Log → Log
unfolding check_record check_name scalar_names is_boolean is_length contradictory check_boolean
    check_length
check_field field here log =
    if_passed
      (check_record field (text "name" ∷ text "type" ∷ text "required" ∷ text "nullable" ∷ [])
        (text "minLength" ∷ text "maxLength" ∷ []) here log)
      (λ log.
        let log =
          check_name (prop field (text "name")) field_name (at_key here (text "name")) log in
        let log =
          error_if (not (is_one_of scalar_names (prop field (text "type"))))
            (text "UNSUPPORTED_TYPE") (at_key here (text "type"))
            (text "Unsupported scalar; no implicit coercion or fallback exists.") log in
        let log = check_boolean field (text "required") here log in
        let log = check_boolean field (text "nullable") here log in
        let log = check_length field (text "minLength") here log in
        let log = check_length field (text "maxLength") here log in
        error_if (contradictory (prop field (text "minLength")) (prop field (text "maxLength")))
          (text "CONTRADICTORY_LENGTH") here
          (text "Minimum string length exceeds maximum string length.") log)
