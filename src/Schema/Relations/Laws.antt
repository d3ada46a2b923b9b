-- ===== src/Schema/Relations/Laws.antt =====
-- validate.js: what the checks of foreign keys ensure when they leave no diagnostic.
use ores_lib_core.Base.{
  ◌≡◌, refl, subst, Bool, true, false, not, ◌||◌, inl, inr, Option, none, some, List, [], ◌∷◌, Text,
  any, length, includes, includes_iff, set_size_full, All, In, NoDup, nat_eq, list_eq, ◌==◌, eq_iff,
  arith, Option-cases,
}
use ores_lib_core.Schema.Log.{Log}
use ores_lib_core.Schema.Log.Laws.{error_adds, error_if_quiet}
use ores_lib_core.Schema.Ir.{
  Scalar, string, boolean, int32, uuid, Field, ForeignKey, Storage, Model, map_get, field_get,
  model_get,
}
use ores_lib_core.Schema.Relations.{
  same_scalar, has_repeats, keys_of, types_differ, any_type_differs, is_candidate, invalid_fields,
  check_match, check_target, error_or, check_reference,
}
use ores_lib_core.Schema.Relations.Spec.{SameTypes, IsReferenced}

map_get-cases :
    {A : Type 0} (key : A → Text) (xs : List A) (k : Text) (x : A)
    → map_get key xs k ≡ some x
    → In x xs × (key x ≡ k)
unfolding map_get
map_get-cases key [] k x h = cc
map_get-cases key (y ∷ ys) k x h = ground (arith, map_get-cases key ys k x, eq_iff (key y) k)

same_scalar_sound : (a b : Scalar) → not (same_scalar a b) ≡ false → a ≡ b
same_scalar_sound string string h = refl
same_scalar_sound boolean boolean h = refl
same_scalar_sound int32 int32 h = refl
same_scalar_sound uuid uuid h = refl
same_scalar_sound a b h = cc

pub All-any :
    {A : Type 0} (p : A → Bool) (P : A → Type 0) (xs : List A)
    → ((x : A) → p x ≡ false → P x)
    → any p xs ≡ false
    → All P xs
All-any p P [] f h = tt
All-any p P (x ∷ xs) f h = (f x (ground arith), All-any p P xs f (ground arith))

pub or_false : (p q : Bool) → p || q ≡ false → (p ≡ false) × (q ≡ false)
or_false p q h = ground arith

pub unrepeated : (xs : List Text) → has_repeats xs ≡ false → NoDup xs
unrepeated xs h = set_size_full xs ((eq_iff _ _).0 (ground arith))

pub included : (xs : List Text) (x : Text) → not (includes xs x) ≡ false → In x xs
included xs x h = (includes_iff xs x).0 (ground arith)

types_differ-cases :
    (o p : Option Field)
    → types_differ o p ≡ false
    → (a : Field) × (b : Field) × (o ≡ some a) × (p ≡ some b) × (a.type ≡ b.type)
types_differ-cases (some a) (some b) h = (a, b, refl, refl, same_scalar_sound a.type b.type h)
types_differ-cases (some a) none h = cc
types_differ-cases none p h = cc

SameTypes-any_type_differs :
    (fields targets : List Field) (fs gs : List Text)
    → any_type_differs fields targets fs gs ≡ false
    → SameTypes fields targets fs gs
unfolding any_type_differs
SameTypes-any_type_differs fields targets [] gs h = tt
SameTypes-any_type_differs fields targets (f ∷ fs) [] h = tt
SameTypes-any_type_differs fields targets (f ∷ fs) (g ∷ gs) h =
    let (here, there) = or_false (types_differ (field_get fields f) (field_get targets g)) _ h in
    let (a, b, e, d, t) = types_differ-cases (field_get fields f) (field_get targets g) here in
    let (i, m) = map_get-cases (λ field. field.name) fields f a e in
    let (j, n) = map_get-cases (λ field. field.name) targets g b d in
    ((a, b, i, m, j, n, t), SameTypes-any_type_differs fields targets fs gs there)

is_candidate-In :
    (sql : Storage) (fields : List Text)
    → not (is_candidate sql fields) ≡ false
    → In fields (keys_of sql)
is_candidate-In sql fields h = found (keys_of sql) (ground arith)
  where
    found : (keys : List (List Text)) → any (λ key. key == fields) keys ≡ true → In fields keys
    found [] h = cc
    found (key ∷ keys) h = ground (arith, eq_iff key fields, found keys)

error_or_quiet :
    (b : Bool) (code path message : Text) (rest : Log → Log) (log : Log)
    → error_or b code path message rest log ≡ []
    → (b ≡ false) × (rest log ≡ [])
error_or_quiet true code path message rest log h = absurd (error_adds code path message log h)
error_or_quiet false code path message rest log h = (refl, h)

check_match_quiet :
    (fields targets : List Field) (sql : Storage) (key : ForeignKey) (here : Text) (log : Log)
    → check_match fields targets sql key here log ≡ []
    → In key.target_fields (keys_of sql)
      × SameTypes fields targets key.fields key.target_fields
      × (log ≡ [])
unfolding check_match
check_match_quiet fields targets sql key here log h =
    let (_, l) = error_if_quiet _ _ _ _ _ h in
    let (types, m) = error_if_quiet _ _ _ _ _ l in
    let (candidate, n) = error_if_quiet _ _ _ _ _ m in
    (
      is_candidate-In sql key.target_fields candidate,
      SameTypes-any_type_differs fields targets key.fields key.target_fields types,
      n,
    )

same_arity :
    (fields targets : List Field) (key : ForeignKey)
    → invalid_fields fields targets key ≡ false
    → length key.fields ≡ length key.target_fields
same_arity fields targets key h = ground arith

check_target_quiet :
    (fields : List Field) (target : Model) (storage : Option Storage) (key : ForeignKey)
    (here : Text) (log : Log)
    → check_target fields target.fields storage key here log ≡ []
    → ((sql : Storage) × (storage ≡ some sql)
        × In key.target_fields (keys_of sql)
        × (length key.fields ≡ length key.target_fields)
        × SameTypes fields target.fields key.fields key.target_fields)
      × (log ≡ [])
unfolding check_target
check_target_quiet fields target none key here log h = absurd (error_adds _ _ _ log h)
check_target_quiet fields target (some sql) key here log h =
    let (valid, k) =
      error_or_quiet (invalid_fields fields target.fields key) _ _ _
        (check_match fields target.fields sql key here) log h in
    let (candidate, types, n) = check_match_quiet fields target.fields sql key here log k in
    ((sql, refl, candidate, same_arity fields target.fields key valid, types), n)

pub check_reference_quiet :
    (models : List Model) (fields : List Field) (key : ForeignKey) (here : Text) (log : Log)
    → check_reference fields (model_get models key.model) key here log ≡ []
    → IsReferenced models fields key × (log ≡ [])
unfolding check_reference
check_reference_quiet models fields key here log h =
    elim (Option-cases (model_get models key.model)) [
      | inl e ↦
          absurd
            (error_adds _ _ _ log (subst (λ o. check_reference fields o key here log ≡ []) e h))
      | inr (target, e) ↦
          let (i, m) = map_get-cases (λ model. model.name) models key.model target e in
          let ((sql, s, candidate, arity, types), n) =
            check_target_quiet fields target target.storage key here log
              (subst (λ o. check_reference fields o key here log ≡ []) e h) in
          ((target, sql, i, m, s, candidate, arity, types), n)
    ]
