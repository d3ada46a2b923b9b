-- ===== src/Schema/Collisions.antt =====
-- validate.js: the last part of `validate`, the collisions of generated names.
use ores_lib_core.Base.{
  ℕ, Option, none, some, List, [], ◌∷◌, ◌++◌, map, Text, text, includes, nat_eq, list_eq,
}
use ores_lib_core.Schema.Log.{Log, error_if, each_with}
use ores_lib_core.Schema.Shape.{at_key, at_index}
use ores_lib_core.Schema.Ir.{ForeignKey, Storage, Model, model_get}
use ores_lib_core.Schema.Doc.{Doc, texts}
use ores_lib_core.Schema.Names.{constraint_name, foreign_identity}
use ores_lib_core.Schema.Relations.{tables_of, has_repeats}

abbrev pub name_of : Storage → Text → Doc → Text
name_of sql kind identity = constraint_name sql.schema sql.table kind identity

-- The names of the primary key and of the unique keys.
unfoldable pub index_names : Storage → List Text
index_names sql =
    name_of sql (text "pk") (texts sql.primary_key)
    ∷ map (λ key. name_of sql (text "uk") (texts key)) sql.unique_keys

abbrev pub target_storage : Option Model → Option Storage
target_storage none = none
target_storage (some model) = model.storage

-- A target without storage has failed the relational checks.
abbrev pub foreign_name : Storage → ForeignKey → Option Storage → Text
foreign_name sql key none = []
foreign_name sql key (some target) = name_of sql (text "fk") (foreign_identity key target)

unfoldable pub foreign_names : List Model → Storage → List Text
foreign_names models sql =
    map (λ key. foreign_name sql key (target_storage (model_get models key.model))) sql.foreign_keys

unfoldable pub check_index_name : Storage → Text → ℕ → Text → List Text → Log → List Text × Log
check_index_name sql path i name relations log =
    let qualified = sql.schema ++ text "." ++ name in
    (
      qualified ∷ relations,
      error_if (includes relations qualified) (text "SQL_NAME_COLLISION") path
          (text "Generated index names collide with another relation; no SQL can be emitted.") log,
    )

unfoldable pub check_stored_names :
    List Model → Text → Option Storage → List Text → Log → List Text × Log
unfolding index_names foreign_names check_index_name
check_stored_names models path none relations log = (relations, log)
check_stored_names models path (some sql) relations log =
    each_with 0 (check_index_name sql path) (index_names sql) relations (
      error_if (has_repeats (index_names sql ++ foreign_names models sql))
        (text "SQL_NAME_COLLISION") path
        (text "Generated constraint names collide; no SQL can be emitted.") log)

unfoldable pub check_names : List Model → ℕ → Model → List Text → Log → List Text × Log
check_names models i model relations log =
    check_stored_names models (at_key (at_index (text "$.models") i) (text "storage")) model.storage
      relations log

unfoldable pub check_collisions : List Model → Log → Log
unfolding check_names tables_of
check_collisions models log = (each_with 0 (check_names models) models (tables_of models) log).1
