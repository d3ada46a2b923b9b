-- ===== src/Schema/Relations/Bounds.antt =====
-- validate.js: the relational checks and the checks of names keep at most a hundred diagnostics.
use ores_lib_core.Base.{ℕ, true, false, Bool, Option, none, some, List, Text}
use ores_lib_core.Schema.Log.{Log}
use ores_lib_core.Schema.Log.Bounds.{
  IsBounded, error-IsBounded, error_if-IsBounded, each_from-IsBounded, each_with-IsBounded,
}
use ores_lib_core.Schema.Ir.{Field, ForeignKey, Storage, Model}
use ores_lib_core.Schema.Collisions.{
  check_index_name, check_stored_names, check_names, check_collisions,
}
use ores_lib_core.Schema.Relations.{
  invalid_fields, error_or, check_match, check_target, check_reference, check_foreign,
  check_mapping, check_keys, check_stored_model, check_related, check_relations,
}

error_or-IsBounded :
    (b : Bool) (code path message : Text) (rest : Log → Log) (log : Log)
    → (IsBounded log → IsBounded (rest log))
    → IsBounded log
    → IsBounded (error_or b code path message rest log)
error_or-IsBounded true code path message rest log f h = error-IsBounded code path message log h
error_or-IsBounded false code path message rest log f h = f h

check_match-IsBounded :
    (fields targets : List Field) (sql : Storage) (key : ForeignKey) (here : Text) (log : Log)
    → IsBounded log
    → IsBounded (check_match fields targets sql key here log)
unfolding check_match
check_match-IsBounded fields targets sql key here log h = search error_if-IsBounded

check_target-IsBounded :
    (fields targets : List Field) (storage : Option Storage) (key : ForeignKey) (here : Text)
    (log : Log)
    → IsBounded log
    → IsBounded (check_target fields targets storage key here log)
unfolding check_target
check_target-IsBounded fields targets none key here log h = error-IsBounded _ _ _ log h
check_target-IsBounded fields targets (some sql) key here log h =
    error_or-IsBounded (invalid_fields fields targets key) _ _ _
      (check_match fields targets sql key here) log
      (check_match-IsBounded fields targets sql key here log) h

check_reference-IsBounded :
    (fields : List Field) (target : Option Model) (key : ForeignKey) (here : Text) (log : Log)
    → IsBounded log
    → IsBounded (check_reference fields target key here log)
unfolding check_reference
check_reference-IsBounded fields (some target) key here log h =
    check_target-IsBounded fields target.fields target.storage key here log h
check_reference-IsBounded fields none key here log h = error-IsBounded _ _ _ log h

check_foreign-IsBounded :
    (models : List Model) (fields : List Field) (path : Text) (i : ℕ) (key : ForeignKey)
    (seen : List Text) (log : Log)
    → IsBounded log
    → IsBounded (check_foreign models fields path i key seen log).1
unfolding check_foreign
check_foreign-IsBounded models fields path i key seen log h =
    search (check_reference-IsBounded, error_if-IsBounded)

check_mapping-IsBounded :
    (model : Model) (sql : Storage) (path : Text) (log : Log)
    → IsBounded log
    → IsBounded (check_mapping model sql path log)
unfolding check_mapping
check_mapping-IsBounded model sql path log h = search error_if-IsBounded

check_keys-IsBounded :
    (model : Model) (sql : Storage) (path : Text) (log : Log)
    → IsBounded log
    → IsBounded (check_keys model sql path log)
unfolding check_keys
check_keys-IsBounded model sql path log h = search (error_if-IsBounded, each_from-IsBounded)

check_stored_model-IsBounded :
    (models : List Model) (model : Model) (path : Text) (storage : Option Storage)
    (tables : List Text) (log : Log)
    → IsBounded log
    → IsBounded (check_stored_model models model path storage tables log).1
unfolding check_stored_model
check_stored_model-IsBounded models model path none tables log h = h
check_stored_model-IsBounded models model path (some sql) tables log h = search (
  each_with-IsBounded, check_foreign-IsBounded, check_keys-IsBounded, check_mapping-IsBounded,
  error_if-IsBounded,
)

check_related-IsBounded :
    (models : List Model) (i : ℕ) (model : Model) (tables : List Text) (log : Log)
    → IsBounded log
    → IsBounded (check_related models i model tables log).1
unfolding check_related
check_related-IsBounded models i model tables log h =
    search (check_stored_model-IsBounded, error_if-IsBounded)

pub check_relations-IsBounded :
    (models : List Model) (log : Log) → IsBounded log → IsBounded (check_relations models log)
unfolding check_relations
check_relations-IsBounded models log h =
    search (each_with-IsBounded, check_related-IsBounded, error_if-IsBounded)

check_index_name-IsBounded :
    (sql : Storage) (path : Text) (i : ℕ) (name : Text) (relations : List Text) (log : Log)
    → IsBounded log
    → IsBounded (check_index_name sql path i name relations log).1
unfolding check_index_name
check_index_name-IsBounded sql path i name relations log h = search error_if-IsBounded

check_stored_names-IsBounded :
    (models : List Model) (path : Text) (storage : Option Storage) (relations : List Text)
    (log : Log)
    → IsBounded log
    → IsBounded (check_stored_names models path storage relations log).1
unfolding check_stored_names
check_stored_names-IsBounded models path none relations log h = h
check_stored_names-IsBounded models path (some sql) relations log h =
    search (each_with-IsBounded, error_if-IsBounded)

check_names-IsBounded :
    (models : List Model) (i : ℕ) (model : Model) (relations : List Text) (log : Log)
    → IsBounded log
    → IsBounded (check_names models i model relations log).1
unfolding check_names
check_names-IsBounded models i model relations log h = search check_stored_names-IsBounded

pub check_collisions-IsBounded :
    (models : List Model) (log : Log) → IsBounded log → IsBounded (check_collisions models log)
unfolding check_collisions
check_collisions-IsBounded models log h = search (each_with-IsBounded, check_names-IsBounded)
