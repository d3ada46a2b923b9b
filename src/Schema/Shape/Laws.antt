-- ===== src/Schema/Shape/Laws.antt =====
-- validate.js: what the helpers and the checks of fields ensure when they leave no diagnostic.
use ores_lib_core.Base.{
  ℕ, ◌≤◌, ◌≡◌, refl, Bool, true, false, not, ◌||◌, inl, inr, Option, none, some, List, [], ◌∷◌,
  ◌++◌, map, Text, any, length, includes, nat_eq, list_eq, ◌==◌, ltb, length-map, All, arith,
  Bool-cases,
}
use ores_lib_core.Schema.Json.{
  Json, null, bool, num, str, array, object, keys_of, prop, elements, items_size,
}
use ores_lib_core.Schema.Log.{Log}
use ores_lib_core.Schema.Log.Laws.{
  Gates, error_adds, error_if_quiet, if_passed_quiet, each_from_quiet,
}
use ores_lib_core.Schema.Shape.{
  check_record, check_array, check_name, check_field_list, check_boolean, check_length, is_boolean,
  field_name, is_array, matches, at_index,
}
use ores_lib_core.Schema.Ir.{read_text, read_texts}

pub All-read :
    {A B : Type 0} (read : A → B) (P : B → Type 0) (xs : List A)
    → All (λ x. P (read x)) xs
    → All P (map read xs)
All-read read P [] h = tt
All-read read P (x ∷ xs) (p, h) = (p, All-read read P xs h)

pub check_record-Gates :
    (item : Option Json) (required optional : List Text) (path : Text)
    → Gates (check_record item required optional path) (Unit {0})
unfolding check_record
check_record-Gates none required optional path log = inr (_, refl, error_adds _ _ _ log)
check_record-Gates (some null) required optional path log = inr (_, refl, error_adds _ _ _ log)
check_record-Gates (some (bool b)) required optional path log = inr (_, refl, error_adds _ _ _ log)
check_record-Gates (some (num n)) required optional path log = inr (_, refl, error_adds _ _ _ log)
check_record-Gates (some (str s)) required optional path log = inr (_, refl, error_adds _ _ _ log)
check_record-Gates (some (array js)) required optional path log =
    inr (_, refl, error_adds _ _ _ log)
check_record-Gates (some (object fs)) required optional path log =
    elim (Bool-cases (any (λ key. not (includes (required ++ optional) key)) (keys_of fs))) [
      | inl t ↦ rw t (inr (_, refl, error_adds _ _ _ log))
      | inr f ↦ rw f (elim (Bool-cases (any (λ key. not (includes (keys_of fs) key)) required)) [
        | inl t ↦ rw t (inr (_, refl, error_adds _ _ _ log))
        | inr f ↦ rw f (inl (refl, tt))
      ])
    ]

pub check_array-Gates :
    (item : Option Json) (min max : ℕ) (path : Text)
    → Gates
        (check_array item min max path)
        ((min ≤ length (elements item)) × (length (elements item) ≤ max))
unfolding check_array
check_array-Gates item min max path log =
    let bad =
      not (is_array item) || ltb (length (elements item)) min || ltb max (length (elements item)) in
    elim (Bool-cases bad) [
      | inl t ↦ rw t (inr (_, refl, error_adds _ _ _ log))
      | inr f ↦ rw f (inl (refl, ground arith))
    ]

matched :
    (pattern : Text → Bool) (item : Option Json)
    → not (matches pattern item) ≡ false
    → pattern (read_text item) ≡ true
unfolding read_text
matched pattern (some (str s)) h = ground arith
matched pattern (some null) h = cc
matched pattern (some (bool b)) h = cc
matched pattern (some (num n)) h = cc
matched pattern (some (array js)) h = cc
matched pattern (some (object fs)) h = cc
matched pattern none h = cc

pub check_name_quiet :
    (item : Option Json) (pattern : Text → Bool) (path : Text) (log : Log)
    → check_name item pattern path log ≡ []
    → (pattern (read_text item) ≡ true) × (log ≡ [])
unfolding check_name
check_name_quiet item pattern path log h =
    let (passed, k) = error_if_quiet (not (matches pattern item)) _ _ _ log h in
    (matched pattern item passed, k)

-- A key as the shape checks leave it: 1 to 128 names of fields.
abbrev pub IsKey : List Text → Type 0
IsKey key = All (λ f. field_name f ≡ true) key × (1 ≤ length key) × (length key ≤ 128)

pub check_field_list_quiet :
    (item : Option Json) (path : Text) (log : Log)
    → check_field_list item path log ≡ []
    → IsKey (read_texts item) × (log ≡ [])
unfolding check_field_list read_texts
check_field_list_quiet item path log h =
    let ((low, high), k) =
      if_passed_quiet (check_array item 1 128 path) _ log (check_array-Gates item 1 128 path) h in
    let (_, l) =
      error_if_quiet (not (items_size (elements item) == length (elements item))) _ _ _ _ k in
    let (names, m) =
      each_from_quiet (λ x. field_name (read_text x) ≡ true) _ 0 (elements item) log
        (λ i x log h. check_name_quiet x field_name (at_index path i) log h) l in
    let size = length-map read_text (elements item) in
    (
      (
        All-read read_text (λ f. field_name f ≡ true) (elements item) names,
        omega (arith, size),
        omega (arith, size),
      ),
      m,
    )

pub check_boolean_quiet :
    (item : Option Json) (key here : Text) (log : Log)
    → check_boolean item key here log ≡ []
    → log ≡ []
unfolding check_boolean
check_boolean_quiet item key here log h =
    (error_if_quiet (not (is_boolean (prop item key))) _ _ _ log h).1

pub check_length_quiet :
    (item : Option Json) (key here : Text) (log : Log)
    → check_length item key here log ≡ []
    → log ≡ []
unfolding check_length
check_length_quiet item key here log h = (error_if_quiet _ _ _ _ log h).1
