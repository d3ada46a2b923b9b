-- ===== src/Schema/Relations/Spec.antt =====
-- validate.js: what a document has to be so that its schema can be emitted, without the order of the
-- checks and the Sets and Maps that they build.
use ores_lib_core.Base.{
  ◌≡◌, true, false, Option, none, some, List, ◌∷◌, map, Text, length, includes, All, In, NoDup,
  nat_eq, list_eq,
}
use ores_lib_core.Schema.Ir.{Field, ForeignKey, Storage, Model}
use ores_lib_core.Schema.Relations.{
  reserved_schema, system_columns, key_signature, keys_of, tables_of,
}

abbrev pub field_names : List Field → List Text
field_names fields = map (λ field. field.name) fields

-- The fields of a foreign key and those that they refer to, pair by pair: both exist and are of one
-- scalar type.
abbrev pub SameTypes : List Field → List Field → List Text → List Text → Type 0
SameTypes fields targets (f ∷ fs) (g ∷ gs) =
    ((a : Field) × (b : Field) × In a fields
      × (a.name ≡ f)
      × In b targets
      × (b.name ≡ g)
      × (a.type ≡ b.type))
    × SameTypes fields targets fs gs
SameTypes fields targets _ _ = Unit

-- A foreign key refers to a key of a stored model of the document.
abbrev pub IsReferenced : List Model → List Field → ForeignKey → Type 0
IsReferenced models fields key =
    (target : Model) × (sql : Storage) × In target models
    × (target.name ≡ key.model)
    × (target.storage ≡ some sql)
    × In key.target_fields (keys_of sql)
    × (length key.fields ≡ length key.target_fields)
    × SameTypes fields target.fields key.fields key.target_fields

-- The columns map the fields one to one, under names that PostgreSQL does not use itself.
abbrev pub IsMapped : Model → Storage → Type 0
IsMapped model sql =
    NoDup (map (λ column. column.field) sql.columns)
    × NoDup (map (λ column. column.name) sql.columns)
    × All (λ column. includes system_columns column ≡ false)
        (map (λ column. column.name) sql.columns)
    × All (λ f. In f (field_names model.fields)) (map (λ column. column.field) sql.columns)
    × All (λ f. In f (map (λ column. column.field) sql.columns)) (field_names model.fields)
    × All (λ field. field.required ≡ true) model.fields

abbrev pub IsKeyed : Model → Storage → Type 0
IsKeyed model sql =
    NoDup (map key_signature (keys_of sql))
    × All (λ key. All (λ f. In f (field_names model.fields)) key) (keys_of sql)

abbrev pub IsStored : List Model → Model → Option Storage → Type 0
IsStored models model none = Unit
IsStored models model (some sql) =
    (reserved_schema sql.schema ≡ false)
    × IsMapped model sql
    × IsKeyed model sql
    × All (IsReferenced models model.fields) sql.foreign_keys

abbrev pub IsRelated : List Model → Model → Type 0
IsRelated models model = NoDup (field_names model.fields) × IsStored models model model.storage

-- A well-formed document.
abbrev pub IsWellFormed : List Model → Type 0
IsWellFormed models =
    NoDup (map (λ model. model.name) models)
    × NoDup (tables_of models)
    × All (IsRelated models) models
