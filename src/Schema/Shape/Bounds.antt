-- ===== src/Schema/Shape/Bounds.antt =====
-- validate.js: the checks of shapes keep at most a hundred diagnostics.
use ores_lib_core.Base.{
  ℕ, Bool, not, ◌||◌, inl, inr, Option, none, some, List, ◌++◌, Text, any, length, includes, ltb,
  nat_eq, list_eq, Bool-cases,
}
use ores_lib_core.Schema.Json.{Json, null, bool, num, str, array, object, keys_of, elements}
use ores_lib_core.Schema.Log.{Log}
use ores_lib_core.Schema.Log.Bounds.{
  IsBounded, error-IsBounded, error_if-IsBounded, if_passed-IsBounded, each_from-IsBounded,
}
use ores_lib_core.Schema.Shape.{
  check_record, check_array, check_name, check_field_list, check_boolean, check_length, check_field,
  is_array,
}
use ores_lib_core.Schema.Shape.Storage.{
  check_column, check_references, check_foreign_key, check_storage, check_stored, check_model,
  check_document,
}

check_record-IsBounded :
    (item : Option Json) (required optional : List Text) (path : Text) (log : Log)
    → IsBounded log
    → IsBounded (check_record item required optional path log).1
unfolding check_record
check_record-IsBounded none required optional path log h = error-IsBounded _ _ _ log h
check_record-IsBounded (some null) required optional path log h = error-IsBounded _ _ _ log h
check_record-IsBounded (some (bool b)) required optional path log h = error-IsBounded _ _ _ log h
check_record-IsBounded (some (num n)) required optional path log h = error-IsBounded _ _ _ log h
check_record-IsBounded (some (str s)) required optional path log h = error-IsBounded _ _ _ log h
check_record-IsBounded (some (array js)) required optional path log h = error-IsBounded _ _ _ log h
check_record-IsBounded (some (object fs)) required optional path log h =
    elim (Bool-cases (any (λ key. not (includes (required ++ optional) key)) (keys_of fs))) [
      | inl t ↦ rw t (error-IsBounded _ _ _ log h)
      | inr f ↦ rw f (elim (Bool-cases (any (λ key. not (includes (keys_of fs) key)) required)) [
        | inl t ↦ rw t (error-IsBounded _ _ _ log h)
        | inr f ↦ rw f h
      ])
    ]

check_array-IsBounded :
    (item : Option Json) (min max : ℕ) (path : Text) (log : Log)
    → IsBounded log
    → IsBounded (check_array item min max path log).1
unfolding check_array
check_array-IsBounded item min max path log h =
    let bad =
      not (is_array item) || ltb (length (elements item)) min || ltb max (length (elements item)) in
    elim (Bool-cases bad) [ inl t ↦ rw t (error-IsBounded _ _ _ log h) | inr f ↦ rw f h ]

check_name-IsBounded :
    (item : Option Json) (pattern : Text → Bool) (path : Text) (log : Log)
    → IsBounded log
    → IsBounded (check_name item pattern path log)
unfolding check_name
check_name-IsBounded item pattern path log h = search error_if-IsBounded

check_field_list-IsBounded :
    (item : Option Json) (path : Text) (log : Log)
    → IsBounded log
    → IsBounded (check_field_list item path log)
unfolding check_field_list
check_field_list-IsBounded item path log h = search (
  if_passed-IsBounded, check_array-IsBounded, error_if-IsBounded, each_from-IsBounded,
  check_name-IsBounded,
)

check_field-IsBounded :
    (item : Option Json) (path : Text) (log : Log)
    → IsBounded log
    → IsBounded (check_field item path log)
unfolding check_field check_boolean check_length
check_field-IsBounded item path log h =
    search (if_passed-IsBounded, check_record-IsBounded, error_if-IsBounded) depth 14

check_column-IsBounded :
    (item : Option Json) (path : Text) (log : Log)
    → IsBounded log
    → IsBounded (check_column item path log)
unfolding check_column
check_column-IsBounded item path log h =
    search (if_passed-IsBounded, check_record-IsBounded, check_name-IsBounded)

check_references-IsBounded :
    (item : Option Json) (path : Text) (log : Log)
    → IsBounded log
    → IsBounded (check_references item path log)
unfolding check_references
check_references-IsBounded item path log h =
    search (
      if_passed-IsBounded, check_record-IsBounded, check_name-IsBounded, check_field_list-IsBounded,
    )

check_foreign_key-IsBounded :
    (item : Option Json) (path : Text) (log : Log)
    → IsBounded log
    → IsBounded (check_foreign_key item path log)
unfolding check_foreign_key
check_foreign_key-IsBounded item path log h = search (
  if_passed-IsBounded, check_record-IsBounded, error_if-IsBounded, check_references-IsBounded,
  check_field_list-IsBounded,
)

check_storage-IsBounded :
    (item : Option Json) (path : Text) (log : Log)
    → IsBounded log
    → IsBounded (check_storage item path log)
unfolding check_storage
check_storage-IsBounded item path log h =
    search
      (
        if_passed-IsBounded, check_record-IsBounded, check_array-IsBounded, check_name-IsBounded,
        each_from-IsBounded, check_column-IsBounded, check_foreign_key-IsBounded,
        check_field_list-IsBounded,
      )
      depth 14

check_stored-IsBounded :
    (item : Option Json) (path : Text) (log : Log)
    → IsBounded log
    → IsBounded (check_stored item path log)
check_stored-IsBounded none path log h = h
check_stored-IsBounded (some j) path log h = check_storage-IsBounded (some j) path log h

check_model-IsBounded :
    (item : Option Json) (path : Text) (log : Log)
    → IsBounded log
    → IsBounded (check_model item path log)
unfolding check_model
check_model-IsBounded item path log h = search (
  if_passed-IsBounded, check_record-IsBounded, check_array-IsBounded, check_name-IsBounded,
  each_from-IsBounded, check_field-IsBounded, check_stored-IsBounded,
)

pub check_document-IsBounded :
    (value : Option Json) (log : Log) → IsBounded log → IsBounded (check_document value log)
unfolding check_document
check_document-IsBounded value log h = search (
  if_passed-IsBounded, check_record-IsBounded, check_array-IsBounded, error_if-IsBounded,
  each_from-IsBounded, check_model-IsBounded,
)
