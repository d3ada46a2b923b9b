-- ===== src/SchemaIr.antt =====
-- langs/typescript/src/schema-ir: the v1 IR. This file: the error that is thrown, the records of a
-- normalized document, and its tables of names; the modules below model validate.js and index.js.
pub mod Ensures
pub mod Input
pub mod Check
pub mod Normalize
pub mod Emit
pub mod Types
pub mod Compile
use ores_lib_core.Base.{ℕ, Bool, true, false, Option, none, some, List, [], ◌∷◌, Text, text, split}
use ores_lib_core.Js.{ℤ}
use ores_lib_core.Schema.Log.{Diagnostic}
use ores_lib_core.Schema.Ir.{Scalar}

-- A result, or the diagnostic of the IrValidationError that is thrown. `unfollowed` is an input with
-- an array that jsonValue accepts though it has a hole, since it counts a key of 2^32 - 1 or more as
-- an element; what the code does with the `undefined` at the hole is not modelled.
pub data Outcome (A : Type 0) : Type 0 where
  returned : A → Outcome A
  thrown : Diagnostic → Outcome A
  unfollowed : Outcome A

infixl 5 ◌>>=◌ ◌>>◌
unfoldable pub ◌>>=◌ : {A B : Type 0} → Outcome A → (A → Outcome B) → Outcome B
returned a >>= f = f a
thrown d >>= f = thrown d
unfollowed >>= f = unfollowed

unfoldable pub ◌>>◌ : {B : Type 0} → Outcome (Unit {0}) → Outcome B → Outcome B
returned u >> k = k
thrown d >> k = thrown d
unfollowed >> k = unfollowed

unfoldable pub fail : {A : Type 0} → Text → Text → Text → Outcome A
fail code path message = thrown (record { code = code; path = path; message = message })

-- if (test) fail(code, path, message)
unfoldable pub fail_if : Bool → Text → Text → Text → Outcome (Unit {0})
fail_if true code path message = fail code path message
fail_if false code path message = returned tt

pub data DeleteAction : Type 0 where
  no_action restrict cascade set_null : DeleteAction

pub record Field : Type 0 where
  pub name : Text
  pub column : Text
  pub type : Scalar
  pub required : Bool
  pub nullable : Bool
  pub min_length : Option ℤ
  pub max_length : Option ℤ
  pub minimum : Option ℤ
  pub maximum : Option ℤ

pub record References : Type 0 where
  pub entity : Text
  pub fields : List Text

pub record ForeignKey : Type 0 where
  pub fields : List Text
  pub references : References
  pub on_delete : DeleteAction

pub record Entity : Type 0 where
  pub name : Text
  pub table : Text
  pub fields : List Field
  pub primary_key : List Text
  pub unique_keys : List (List Text)
  pub indexes : List (List Text)
  pub foreign_keys : List ForeignKey

pub record Ir : Type 0 where
  pub schema_version : Text
  pub database_schema : Text
  pub entities : List Entity

-- IR_VERSION
abbrev pub ir_version : Text
ir_version = text "ores.schema-ir.v1"

-- RESERVED_FIELDS
unfoldable pub reserved_fields : List Text
reserved_fields = split b' ' (
    text
      "abstract as assert async await base break case catch class const continue covariant crate debugger default deferred do dynamic else enum export extends extension external factory false final finally fn for function get if implements import in interface is late let library macro match mixin mod move mut native new null of on operator override part priv pub rethrow return self set static struct super switch sync this throw trait true try type typedef typeof union unsafe use var virtual void where while with yield hashCode runtimeType toString noSuchMethod constructor prototype then")

-- RESERVED_MODELS
unfoldable pub reserved_models : List Text
reserved_models =
    text "SchemaOptional"
    ∷ text "SchemaMissing"
    ∷ text "SchemaPresent"
    ∷ text "String"
    ∷ text "Object"
    ∷ text "Null"
    ∷ text "Never"
    ∷ text "Type"
    ∷ text "Function"
    ∷ text "List"
    ∷ text "Map"
    ∷ text "Set"
    ∷ text "Symbol"
    ∷ text "Future"
    ∷ text "Stream"
    ∷ text "DateTime"
    ∷ text "Self"
    ∷ []

-- SYSTEM_COLUMNS
unfoldable pub system_columns : List Text
system_columns =
    text "tableoid" ∷ text "xmin" ∷ text "cmin" ∷ text "xmax" ∷ text "cmax" ∷ text "ctid" ∷ []
