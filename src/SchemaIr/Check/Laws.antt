-- ===== src/SchemaIr/Check/Laws.antt =====
-- schema-ir/validate.js: what each check of a value ensures.
use ores_lib_core.Base.{
  ℕ, suc, ◌≡◌, Bool, true, false, not, ◌||◌, Option, none, some, List, [], ◌∷◌, map, Text, length,
  includes, any, set_size, set_size_full, NoDup, All, In, arith, nat_eq, list_eq, ◌==◌, eq_iff,
  if-elim, includes_iff,
}
use ores_lib_core.Schema.Json.{Json, str, array, object}
use ores_lib_core.SchemaIr.{Outcome, Field, reserved_fields, system_columns}
use ores_lib_core.SchemaIr.Ensures.{
  Ensures, returned-Ensures, fail-Ensures, bind-Ensures, any-Ensures, then-Ensures, with-Ensures,
  Ensures-mono, fail_if-Ensures,
}
use ores_lib_core.SchemaIr.Check.{
  is_identifier, is_field_name, check_name, check_unique, check_field, check_tuple, is_known,
  string_of, each_from,
}

-- A name of a pattern that is not reserved
abbrev pub IsNamed : (Text → Bool) → List Text → Text → Type 0
IsNamed pattern reserved s = (pattern s ≡ true) × (includes reserved s ≡ false)

pub check_name-IsNamed :
    (item : Option Json) (pattern : Text → Bool) (path : Text) (reserved : List Text)
    → Ensures (IsNamed pattern reserved) (check_name item pattern path reserved)
unfolding check_name
check_name-IsNamed (some (str s)) pattern path reserved =
    if-elim (Ensures (IsNamed pattern reserved)) (not (pattern s) || includes reserved s) _ _
      (λ _. fail-Ensures _ _ _ _) λ h. returned-Ensures _ s (ground arith, ground arith)
check_name-IsNamed none pattern path reserved = fail-Ensures _ _ _ _
check_name-IsNamed (some Json.null) pattern path reserved = fail-Ensures _ _ _ _
check_name-IsNamed (some (Json.bool b)) pattern path reserved = fail-Ensures _ _ _ _
check_name-IsNamed (some (Json.num n)) pattern path reserved = fail-Ensures _ _ _ _
check_name-IsNamed (some (array js)) pattern path reserved = fail-Ensures _ _ _ _
check_name-IsNamed (some (object fs)) pattern path reserved = fail-Ensures _ _ _ _

unique_test : (values : List Text) → not (set_size values == length values) ≡ false → NoDup values
unique_test values h =
    set_size_full values ((eq_iff (set_size values) (length values)).0 (ground arith))

pub check_unique-NoDup :
    (values : List Text) (path : Text) → Ensures (λ u. NoDup values) (check_unique values path)
unfolding check_unique Ensures
check_unique-NoDup values path =
    Ensures-mono (λ u. not (set_size values == length values) ≡ false) (λ u. NoDup values) _
      (fail_if-Ensures _ _ _ _) λ u h. unique_test values h

-- A field with valid names
abbrev pub IsField : Field → Type 0
IsField field =
    IsNamed is_field_name reserved_fields field.name
    × IsNamed is_identifier system_columns field.column

pub check_field-IsField : (value : Json) (path : Text) → Ensures IsField (check_field value path)
unfolding check_field
check_field-IsField value path = then-Ensures _ _ _ (
    bind-Ensures _ _ _ _ (check_name-IsNamed _ _ _ _) λ name n.
      bind-Ensures _ _ _ _ (check_name-IsNamed _ _ _ _) λ column c. any-Ensures _ _ _ λ type.
        any-Ensures _ _ _ λ b. any-Ensures _ _ _ λ min_length. any-Ensures _ _ _ λ max_length.
          any-Ensures _ _ _ λ minimum.
            any-Ensures _ _ _ λ maximum. then-Ensures _ _ _ (returned-Ensures _ _ (n, c)))

-- A key of fields: without repetition, and of names that there are
abbrev pub IsKey : List Text → List Text → Type 0
IsKey names key = NoDup key × All (λ k. In k names) key

known_keys :
    (names : List Text) (items : List Json)
    → any (λ key. not (is_known names key)) items ≡ false
    → All (λ k. In k names) (map string_of items)
known_keys names [] h = tt
known_keys names (str s ∷ items) h =
    ((includes_iff names s).0 (ground arith), known_keys names items (ground arith))
known_keys names (Json.null ∷ items) h = absurd (ground arith)
known_keys names (Json.bool b ∷ items) h = absurd (ground arith)
known_keys names (Json.num n ∷ items) h = absurd (ground arith)
known_keys names (array js ∷ items) h = absurd (ground arith)
known_keys names (object fs ∷ items) h = absurd (ground arith)

pub check_tuple-IsKey :
    (value : Option Json) (names : List Text) (path : Text)
    → Ensures (IsKey names) (check_tuple value names path)
unfolding check_tuple
check_tuple-IsKey value names path = any-Ensures _ _ _ λ items.
    with-Ensures _ _ _ _ (fail_if-Ensures _ _ _ _) λ known.
      with-Ensures _ _ _ _ (check_unique-NoDup _ _)
        λ nodup. returned-Ensures _ _ (nodup, known_keys names items known)

pub each_from-All :
    {A : Type 0} (Q : A → Type 0) (check : Json → Text → Outcome A) (path : Text) (i : ℕ)
    (js : List Json)
    → ((j : Json) (at : Text) → Ensures Q (check j at))
    → Ensures (All Q) (each_from check path i js)
unfolding each_from
each_from-All Q check path i [] h = returned-Ensures _ _ tt
each_from-All Q check path i (j ∷ js) h = bind-Ensures _ _ _ _ (h j _) λ a p.
    bind-Ensures _ _ _ _ (each_from-All Q check path (suc i) js h)
      λ rest q. returned-Ensures _ _ (p, q)
