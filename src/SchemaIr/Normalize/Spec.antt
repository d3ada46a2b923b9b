-- ===== src/SchemaIr/Normalize/Spec.antt =====
-- schema-ir/validate.js: what a normalized document is.
use ores_lib_core.Base.{
  ◌≡◌, true, false, List, [], ◌∷◌, map, Text, length, sort, IsSorted, All, In, NoDup,
}
use ores_lib_core.Redaction.{to_lower_case}
use ores_lib_core.SchemaIr.{Field, ForeignKey, Entity, Ir, set_null, reserved_models}
use ores_lib_core.SchemaIr.Check.{is_identifier, is_model_name}
use ores_lib_core.SchemaIr.Check.Laws.{IsNamed, IsField, IsKey}
use ores_lib_core.SchemaIr.Check.Entity.{names_of, key_text, foreign_identity}

-- The fields of a primary key are required and not nullable.
abbrev pub IsFirm : List Text → Field → Type 0
IsFirm key field = In field.name key → (field.required ≡ true) × (field.nullable ≡ false)

-- A foreign key of an entity with these fields: the key itself, and as many target fields
abbrev pub IsForeign : List Text → ForeignKey → Type 0
IsForeign names key =
    IsKey names key.fields
    × IsNamed is_model_name reserved_models key.references.entity
    × NoDup key.references.fields
    × (length key.fields ≡ length key.references.fields)

pub record IsEntity (entity : Entity) : Type 0 where
  pub named : IsNamed is_model_name reserved_models entity.name
  pub table : IsNamed is_identifier [] entity.table
  pub fields : All IsField entity.fields
  pub names : NoDup (names_of entity.fields)
  pub columns : NoDup (map (λ field. field.column) entity.fields)
  pub primary : IsKey (names_of entity.fields) entity.primary_key
  pub firm : All (IsFirm entity.primary_key) entity.fields
  pub uniques : All (IsKey (names_of entity.fields)) entity.unique_keys
  pub indexed : All (IsKey (names_of entity.fields)) entity.indexes
  pub keys : NoDup (map (λ key. key_text (sort key)) (entity.primary_key ∷ entity.unique_keys))
  pub foreign : All (IsForeign (names_of entity.fields)) entity.foreign_keys
  pub identities : NoDup (map foreign_identity entity.foreign_keys)
  pub sorted : IsSorted (λ field. field.name) entity.fields

-- The fields of two keys, one by one, are fields with one type.
abbrev pub SameTypes : List Field → List Field → List Text → List Text → Type 0
SameTypes fields targets [] others = Unit
SameTypes fields targets (key ∷ keys) [] = ⊥
SameTypes fields targets (key ∷ keys) (other ∷ others) =
    ((f : Field) × (g : Field) × In f fields
      × In g targets
      × (f.name ≡ key)
      × (g.name ≡ other)
      × (f.type ≡ g.type))
    × SameTypes fields targets keys others

abbrev pub IsNullable : List Field → Text → Type 0
IsNullable fields key = (f : Field) × In f fields × (f.name ≡ key) × (f.nullable ≡ true)

-- The target of a foreign key is an entity that declares its fields as a key.
abbrev pub IsResolved : List Entity → Entity → ForeignKey → Type 0
IsResolved entities entity key =
    (target : Entity) × In target entities
    × (target.name ≡ key.references.entity)
    × IsKey (names_of target.fields) key.references.fields
    × In (key_text key.references.fields) (map key_text (target.primary_key ∷ target.unique_keys))
    × SameTypes entity.fields target.fields key.fields key.references.fields
    × (key.on_delete ≡ set_null → All (IsNullable entity.fields) key.fields)

abbrev pub IsRelated : List Entity → Entity → Type 0
IsRelated entities entity = All (IsResolved entities entity) entity.foreign_keys

pub record IsNormal (ir : Ir) : Type 0 where
  pub schema : IsNamed is_identifier [] ir.database_schema
  pub entities : All IsEntity ir.entities
  pub related : All (IsRelated ir.entities) ir.entities
  pub names : NoDup (map (λ entity. to_lower_case entity.name) ir.entities)
  pub tables : NoDup (map (λ entity. entity.table) ir.entities)
  pub sorted : IsSorted (λ entity. entity.name) ir.entities
