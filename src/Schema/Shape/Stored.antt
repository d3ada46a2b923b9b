-- ===== src/Schema/Shape/Stored.antt =====
-- validate.js: the identifiers and lengths of a document that the shape checks accept.
use ores_lib_core.Base.{
  ℕ, ◌≤◌, ◌≡◌, refl, sym, subst, true, false, ◌⊎◌, inl, inr, Option, none, some, [], map, Text,
  text, All, arith,
}
use ores_lib_core.Js.{int, neg_zero, fraction, non_finite, pos, negsuc}
use ores_lib_core.Schema.Json.{Json, null, bool, num, str, array, object, prop, elements}
use ores_lib_core.Schema.Log.{Log, each_from, if_passed}
use ores_lib_core.Schema.Log.Laws.{error_if_quiet, if_passed_quiet, each_from_quiet}
use ores_lib_core.Schema.Shape.{
  model_name, field_name, sql_name, check_array, check_field, contradictory,
}
use ores_lib_core.Schema.Shape.Storage.{
  check_column, check_references, check_foreign_key, check_storage, check_stored, check_model,
  check_document,
}
use ores_lib_core.Schema.Shape.Laws.{
  All-read, check_record-Gates, check_array-Gates, check_name_quiet, check_boolean_quiet,
  check_length_quiet, IsKey, check_field_list_quiet,
}
use ores_lib_core.Schema.Ir.{
  Field, Column, ForeignKey, Storage, Model, read_text, read_texts, read_length, read_field,
  read_column, read_foreign_key, read_storage, read_model, read_document,
}

-- Lengths with the least one first.
abbrev pub IsOrdered : Option ℕ → Option ℕ → Type 0
IsOrdered (some m) (some n) = m ≤ n
IsOrdered _ _ = Unit

read_length-cases :
    (item : Option Json) → (read_length item ≡ none) ⊎ ((n : ℕ) × (item ≡ some (num (int (pos n)))))
unfolding read_length
read_length-cases none = inl refl
read_length-cases (some null) = inl refl
read_length-cases (some (bool b)) = inl refl
read_length-cases (some (str s)) = inl refl
read_length-cases (some (array js)) = inl refl
read_length-cases (some (object fs)) = inl refl
read_length-cases (some (num neg_zero)) = inl refl
read_length-cases (some (num (fraction n))) = inl refl
read_length-cases (some (num (non_finite n))) = inl refl
read_length-cases (some (num (int (pos n)))) = inr (n, refl)
read_length-cases (some (num (int (negsuc n)))) = inl refl

unordered_none : (o : Option ℕ) → IsOrdered o none
unordered_none none = tt
unordered_none (some n) = tt

contradictory-IsOrdered :
    (a b : Option Json) → contradictory a b ≡ false → IsOrdered (read_length a) (read_length b)
unfolding contradictory read_length
contradictory-IsOrdered a b h = elim (read_length-cases a) [
  | inl e ↦ rw e tt
  | inr (m, e) ↦ elim (read_length-cases b) [
    | inl f ↦ rw f (unordered_none (read_length a))
    | inr (n, f) ↦
        subst (λ x. IsOrdered (read_length x) (read_length b)) (sym e)
          (subst (λ y. IsOrdered (some m) (read_length y)) (sym f)
            (ground (
              arith,
              subst (λ x. contradictory x (some (num (int (pos n)))) ≡ false) e
                  (subst (λ y. contradictory a y ≡ false) f h),
            )))
  ]
]

-- What the emitters rely on: the names are identifiers of their kind, and the keys lists of fields.
abbrev pub IsFieldShape : Field → Type 0
IsFieldShape f = (field_name f.name ≡ true) × IsOrdered f.min_length f.max_length

abbrev pub IsColumnShape : Column → Type 0
IsColumnShape c = (field_name c.field ≡ true) × (sql_name c.name ≡ true)

abbrev pub IsForeignShape : ForeignKey → Type 0
IsForeignShape k = IsKey k.fields × (model_name k.model ≡ true) × IsKey k.target_fields

abbrev pub IsStorageShape : Option Storage → Type 0
IsStorageShape none = Unit
IsStorageShape (some s) =
    (sql_name s.schema ≡ true)
    × (sql_name s.table ≡ true)
    × All IsColumnShape s.columns
    × IsKey s.primary_key
    × All IsKey s.unique_keys
    × All IsForeignShape s.foreign_keys

abbrev pub IsModelShape : Model → Type 0
IsModelShape m = (model_name m.name ≡ true) × All IsFieldShape m.fields × IsStorageShape m.storage

check_field_quiet :
    (item : Option Json) (path : Text) (log : Log)
    → check_field item path log ≡ []
    → IsFieldShape (read_field item) × (log ≡ [])
unfolding check_field read_field
check_field_quiet item path log h =
    let (_, a) = if_passed_quiet _ _ log (check_record-Gates item _ _ path) h in
    let (ordered, b) = error_if_quiet _ _ _ _ _ a in
    let c = check_length_quiet _ _ _ _ b in
    let d = check_length_quiet _ _ _ _ c in
    let e = check_boolean_quiet _ _ _ _ d in
    let f = check_boolean_quiet _ _ _ _ e in
    let (_, g) = error_if_quiet _ _ _ _ _ f in
    let (named, k) = check_name_quiet _ field_name _ _ g in
    ((named, contradictory-IsOrdered _ _ ordered), k)

check_column_quiet :
    (item : Option Json) (path : Text) (log : Log)
    → check_column item path log ≡ []
    → IsColumnShape (read_column item) × (log ≡ [])
unfolding check_column read_column
check_column_quiet item path log h =
    let (_, a) = if_passed_quiet _ _ log (check_record-Gates item _ _ path) h in
    let (name, b) = check_name_quiet _ sql_name _ _ a in
    let (field, c) = check_name_quiet _ field_name _ _ b in ((field, name), c)

check_references_quiet :
    (item : Option Json) (path : Text) (log : Log)
    → check_references item path log ≡ []
    → (model_name (read_text (prop item (text "model"))) ≡ true)
      × IsKey (read_texts (prop item (text "fields")))
      × (log ≡ [])
unfolding check_references
check_references_quiet item path log h =
    let (_, a) = if_passed_quiet _ _ log (check_record-Gates item _ _ path) h in
    let (fields, b) = check_field_list_quiet _ _ _ a in
    let (model, c) = check_name_quiet _ model_name _ _ b in (model, fields, c)

check_foreign_key_quiet :
    (item : Option Json) (path : Text) (log : Log)
    → check_foreign_key item path log ≡ []
    → IsForeignShape (read_foreign_key item) × (log ≡ [])
unfolding check_foreign_key read_foreign_key
check_foreign_key_quiet item path log h =
    let (_, a) = if_passed_quiet _ _ log (check_record-Gates item _ _ path) h in
    let (_, b) = error_if_quiet _ _ _ _ _ a in
    let (model, targets, c) = check_references_quiet _ _ _ b in
    let (fields, d) = check_field_list_quiet _ _ _ c in ((fields, model, targets), d)

-- An array behind its check: what each element ensures holds of all that are read.
array_quiet :
    {B : Type 0} (item : Option Json) (min max : ℕ) (path : Text)
    (check : ℕ → Option Json → Log → Log) (read : Option Json → B) (P : B → Type 0) (log : Log)
    → ((i : ℕ) (x : Option Json) (log : Log) → check i x log ≡ [] → P (read x) × (log ≡ []))
    → if_passed (check_array item min max path log) (each_from 0 check (elements item)) ≡ []
    → All P (map read (elements item)) × (log ≡ [])
array_quiet item min max path check read P log quiet h =
    let (_, a) =
      if_passed_quiet (check_array item min max path) (each_from 0 check (elements item)) log
        (check_array-Gates item min max path) h in
    let (all, b) = each_from_quiet (λ x. P (read x)) check 0 (elements item) log quiet a in
    (All-read read P (elements item) all, b)

check_stored_quiet :
    (item : Option Json) (path : Text) (log : Log)
    → check_stored item path log ≡ []
    → IsStorageShape (read_storage item) × (log ≡ [])
unfolding check_storage read_storage
check_stored_quiet none path log h = (tt, h)
check_stored_quiet (some j) path log h =
    let (_, a) = if_passed_quiet _ _ log (check_record-Gates (some j) _ _ path) h in
    let (foreign, b) =
      array_quiet _ 0 64 _ _ read_foreign_key IsForeignShape _
        (λ i x log h. check_foreign_key_quiet x _ log h) a in
    let (unique, c) =
      array_quiet _ 0 64 _ _ read_texts IsKey _ (λ i x log h. check_field_list_quiet x _ log h) b in
    let (primary, d) = check_field_list_quiet _ _ _ c in
    let (columns, e) =
      array_quiet _ 1 128 _ _ read_column IsColumnShape _
        (λ i x log h. check_column_quiet x _ log h) d in
    let (table, f) = check_name_quiet _ sql_name _ _ e in
    let (schema, g) = check_name_quiet _ sql_name _ _ f in
    ((schema, table, columns, primary, unique, foreign), g)

check_model_quiet :
    (item : Option Json) (path : Text) (log : Log)
    → check_model item path log ≡ []
    → IsModelShape (read_model item) × (log ≡ [])
unfolding check_model read_model
check_model_quiet item path log h =
    let (_, a) = if_passed_quiet _ _ log (check_record-Gates item _ _ path) h in
    let (storage, b) = check_stored_quiet _ _ _ a in
    let (fields, c) =
      array_quiet _ 1 128 _ _ read_field IsFieldShape _ (λ i x log h. check_field_quiet x _ log h)
        b in
    let (name, d) = check_name_quiet _ model_name _ _ c in ((name, fields, storage), d)

pub check_document_quiet :
    (value : Option Json) → check_document value [] ≡ [] → All IsModelShape (read_document value)
unfolding check_document read_document
check_document_quiet value h =
    let (_, a) = if_passed_quiet _ _ [] (check_record-Gates value _ _ (text "$")) h in
    let (models, b) =
      array_quiet _ 1 64 _ _ read_model IsModelShape _ (λ i x log h. check_model_quiet x _ log h)
        a in
    models
