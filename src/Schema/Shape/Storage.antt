-- ===== src/Schema/Shape/Storage.antt =====
-- validate.js: `storage`, the check of a model and the first part of `validate`.
use ores_lib_core.Base.{not, Option, none, some, List, [], ◌∷◌, Text, text}
use ores_lib_core.Schema.Json.{Json, prop, elements}
use ores_lib_core.Schema.Log.{Log, error_if, if_passed, each}
use ores_lib_core.Schema.Shape.{
  model_name, field_name, sql_name, at_key, at_index, check_record, check_array, check_name,
  check_field_list, check_field, is_one_of, is_text,
}

unfoldable pub check_column : Option Json → Text → Log → Log
unfolding check_record check_name
check_column column here log =
    if_passed (check_record column (text "field" ∷ text "name" ∷ []) [] here log) (λ log.
      check_name (prop column (text "name")) sql_name (at_key here (text "name"))
        (check_name (prop column (text "field")) field_name (at_key here (text "field")) log))

unfoldable pub delete_actions : List Text
delete_actions = text "restrict" ∷ text "cascade" ∷ text "setNull" ∷ []

unfoldable pub check_references : Option Json → Text → Log → Log
unfolding check_record check_name check_field_list
check_references references here log =
    if_passed (check_record references (text "model" ∷ text "fields" ∷ []) [] here log) (λ log.
      check_field_list (prop references (text "fields")) (at_key here (text "fields"))
        (check_name (prop references (text "model")) model_name (at_key here (text "model")) log))

unfoldable pub check_foreign_key : Option Json → Text → Log → Log
unfolding check_record check_field_list check_references delete_actions
check_foreign_key key here log =
    if_passed
      (check_record key (text "fields" ∷ text "references" ∷ text "onDelete" ∷ []) [] here log)
      (λ log.
        let log = check_field_list (prop key (text "fields")) (at_key here (text "fields")) log in
        let log =
          check_references (prop key (text "references")) (at_key here (text "references")) log in
        error_if (not (is_one_of delete_actions (prop key (text "onDelete"))))
          (text "UNSUPPORTED_DELETE_ACTION") (at_key here (text "onDelete"))
          (text "Unsupported foreign-key delete action.") log)

unfoldable pub check_storage : Option Json → Text → Log → Log
unfolding check_record check_name check_array check_column check_field_list check_foreign_key
check_storage item path log =
    if_passed
      (check_record item
        (text "schema"
          ∷ text "table"
          ∷ text "columns"
          ∷ text "primaryKey"
          ∷ text "uniqueKeys"
          ∷ text "foreignKeys"
          ∷ [])
        [] path log)
      (λ log.
        let columns = prop item (text "columns") in
        let unique_keys = prop item (text "uniqueKeys") in
        let foreign_keys = prop item (text "foreignKeys") in
        let columns_path = at_key path (text "columns") in
        let unique_path = at_key path (text "uniqueKeys") in
        let foreign_path = at_key path (text "foreignKeys") in
        let log =
          check_name (prop item (text "schema")) sql_name (at_key path (text "schema")) log in
        let log = check_name (prop item (text "table")) sql_name (at_key path (text "table")) log in
        let log =
          if_passed (check_array columns 1 128 columns_path log)
            (each (λ i column. check_column column (at_index columns_path i)) (elements columns)) in
        let log =
          check_field_list (prop item (text "primaryKey")) (at_key path (text "primaryKey")) log in
        let log =
          if_passed (check_array unique_keys 0 64 unique_path log) (
            each (λ i key. check_field_list key (at_index unique_path i)) (elements unique_keys)) in
        if_passed (check_array foreign_keys 0 64 foreign_path log)
          (each (λ i key. check_foreign_key key (at_index foreign_path i)) (elements foreign_keys)))

-- if (Object.hasOwn(model, "storage")) storage(…)
abbrev pub check_stored : Option Json → Text → Log → Log
check_stored none path log = log
check_stored (some j) path log = check_storage (some j) path log

unfoldable pub check_model : Option Json → Text → Log → Log
unfolding check_record check_name check_array check_field check_storage
check_model model path log =
    if_passed (check_record model (text "name" ∷ text "fields" ∷ []) (text "storage" ∷ []) path log)
      (λ log.
        let fields = prop model (text "fields") in
        let fields_path = at_key path (text "fields") in
        let log =
          check_name (prop model (text "name")) model_name (at_key path (text "name")) log in
        let log =
          if_passed (check_array fields 1 128 fields_path log)
            (each (λ i field. check_field field (at_index fields_path i)) (elements fields)) in
        check_stored (prop model (text "storage")) (at_key path (text "storage")) log)

-- The part of `validate` up to the first test of the diagnostics.
unfoldable pub check_document : Option Json → Log → Log
unfolding check_record check_array check_model
check_document value log =
    if_passed (check_record value (text "version" ∷ text "models" ∷ []) [] (text "$") log) (λ log.
      let models = prop value (text "models") in
      let log =
        error_if (not (is_text (prop value (text "version")) (text "ores.schema-ir.v1")))
          (text "UNSUPPORTED_VERSION") (text "$.version")
          (text "Expected ores.schema-ir.v1; version fallback is prohibited.") log in
      if_passed (check_array models 1 64 (text "$.models") log)
        (each (λ i model. check_model model (at_index (text "$.models") i)) (elements models)))
