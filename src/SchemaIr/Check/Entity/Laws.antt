-- ===== src/SchemaIr/Check/Entity/Laws.antt =====
-- schema-ir/validate.js: what entity ensures.
use ores_lib_core.Base.{
  ◌≡◌, refl, sym, subst, inl, inr, false, Option, none, some, List, [], ◌∷◌, map, Text, length, any,
  In, In-map, In-map_inv, NoDup, All, All-map, All-sort_by, All-of_In, NoDup-map-sort_by,
  In-sort_by, sort_by, sort_by-IsSorted, sort, arith, nat_eq, list_eq, ◌==◌, eq_iff, eq_refl,
  Bool-cases, any-eq-false,
}
use ores_lib_core.Schema.Json.{Json}
use ores_lib_core.SchemaIr.{Field, ForeignKey, reserved_models}
use ores_lib_core.SchemaIr.Ensures.{
  Ensures, returned-Ensures, fail-Ensures, bind-Ensures, any-Ensures, then-Ensures, with-Ensures,
  fail_if-Ensures,
}
use ores_lib_core.SchemaIr.Check.{check_field, is_model_name}
use ores_lib_core.SchemaIr.Check.Laws.{
  IsNamed, IsField, IsKey, check_name-IsNamed, check_unique-NoDup, check_field-IsField,
  check_tuple-IsKey, each_from-All,
}
use ores_lib_core.SchemaIr.Check.Entity.{
  field_named, names_of, is_optional, key_text, check_references, check_foreign, check_key,
  foreign_identity, foreign_text, check_entity,
}
use ores_lib_core.SchemaIr.Normalize.Spec.{IsFirm, IsForeign, IsEntity}

-- The field of a name, among fields with distinct names.
field_named_self :
    (fields : List Field) (f : Field)
    → NoDup (names_of fields)
    → In f fields
    → field_named fields f.name ≡ some f
unfolding field_named
field_named_self [] f n i = absurd i
field_named_self (g ∷ fields) f (h, n) (inl e) = rw e (rw (eq_refl g.name) refl)
field_named_self (g ∷ fields) f (h, n) (inr i) = elim (Bool-cases (g.name == f.name)) [
  | inl t ↦ absurd (
      h (
        subst (λ k. In k (names_of fields)) (sym ((eq_iff g.name f.name).0 t))
          (In-map (λ g. g.name) f fields i)))
  | inr e ↦ rw e (field_named_self fields f n i)
]

pub names-sort :
    (fields : List Field) (k : Text)
    → In k (names_of fields)
    → In k (names_of (sort_by (λ field. field.name) fields))
names-sort fields k i =
    let (f, j, e) = In-map_inv (λ field. field.name) k fields i in
    subst (λ n. In n (names_of (sort_by (λ field. field.name) fields))) (sym e)
      (In-map (λ field. field.name) f _ ((In-sort_by (λ field. field.name) f fields).1 j))

IsFirm-of_test :
    (fields : List Field) (key : List Text)
    → NoDup (names_of fields)
    → any (λ k. is_optional (field_named fields k)) key ≡ false
    → All (IsFirm key) fields
IsFirm-of_test fields key n h =
    All-of_In (λ field. field.name) fields
      λ f i k.
        let test : is_optional (field_named fields f.name) ≡ false =
          any-eq-false (λ k. is_optional (field_named fields k)) f.name key h k in
        let found : is_optional (some f) ≡ false =
          subst (λ o. is_optional o ≡ false) (field_named_self fields f n i) test in
        ground arith

check_references-Ensures :
    (item : Option Json) (path : Text)
    → Ensures
        (λ r. IsNamed is_model_name reserved_models r.entity × NoDup r.fields)
        (check_references item path)
unfolding check_references
check_references-Ensures none path = fail-Ensures _ _ _ _
check_references-Ensures (some value) path = then-Ensures _ _ _ (
    bind-Ensures _ _ _ _ (check_name-IsNamed _ _ _ _) λ entity n. any-Ensures _ _ _ λ items.
      any-Ensures _ _ _ λ fields.
        with-Ensures _ _ _ _ (check_unique-NoDup _ _) λ nodup. returned-Ensures _ _ (n, nodup))

check_foreign-IsForeign :
    (names : List Text) (value : Json) (path : Text)
    → Ensures (IsForeign names) (check_foreign names value path)
unfolding check_foreign
check_foreign-IsForeign names value path = then-Ensures _ _ _ (
    bind-Ensures _ _ _ _ (check_references-Ensures _ _) λ references r. any-Ensures _ _ _ λ action.
      bind-Ensures _ _ _ _ (check_tuple-IsKey _ names _) λ local k.
        with-Ensures _ _ _ _ (fail_if-Ensures _ _ _ _) λ same.
          returned-Ensures _ _
            (k, r.0, r.1, (eq_iff (length local) (length references.fields)).0 (ground arith)))

sort-IsKey :
    (fields : List Field) (key : List Text)
    → IsKey (names_of fields) key
    → IsKey (names_of (sort_by (λ field. field.name) fields)) key
sort-IsKey fields key (n, h) = (n, All-map key h (names-sort fields))

sort-IsForeign :
    (fields : List Field) (key : ForeignKey)
    → IsForeign (names_of fields) key
    → IsForeign (names_of (sort_by (λ field. field.name) fields)) key
sort-IsForeign fields key (k, a, b, c) = (sort-IsKey fields key.fields k, a, b, c)

sort-keys :
    (primary : List Text) (keys : List (List Text)) (f : List Text → Text)
    → NoDup (map f (primary ∷ keys))
    → NoDup (map f (primary ∷ sort_by key_text keys))
sort-keys primary keys f (h, n) = (
  λ i.
      (let (key, j, e) = In-map_inv f (f primary) (sort_by key_text keys) i in
        h (
          subst (λ t. In t (map f keys)) (sym e)
            (In-map f key keys ((In-sort_by key_text key keys).0 j)))),
  NoDup-map-sort_by key_text f keys n,
)

-- An entity that is returned is well-formed.
pub check_entity-IsEntity :
    (value : Json) (path : Text) → Ensures IsEntity (check_entity value path)
unfolding check_entity
check_entity-IsEntity value path = then-Ensures _ _ _ (
    bind-Ensures _ _ _ _ (check_name-IsNamed _ _ _ _) λ name named.
      bind-Ensures _ _ _ _ (check_name-IsNamed _ _ _ _) λ table tabled. any-Ensures _ _ _ λ items.
        bind-Ensures _ _ _ _ (each_from-All IsField check_field _ _ items check_field-IsField)
          λ fields f. with-Ensures _ _ _ _ (check_unique-NoDup _ _) λ names.
            with-Ensures _ _ _ _ (check_unique-NoDup _ _) λ columns.
              bind-Ensures _ _ _ _ (check_tuple-IsKey _ (names_of fields) _) λ primary p.
                with-Ensures _ _ _ _ (fail_if-Ensures _ _ _ _) λ firm.
                  any-Ensures _ _ _ λ unique_items.
                    bind-Ensures _ _ _ _
                      (each_from-All (IsKey (names_of fields)) (check_key (names_of fields)) _ _
                        unique_items (λ j at. check_tuple-IsKey (some j) (names_of fields) at))
                      λ uniques u. any-Ensures _ _ _ λ index_items.
                        bind-Ensures _ _ _ _
                          (each_from-All (IsKey (names_of fields)) (check_key (names_of fields)) _ _
                            index_items (λ j at. check_tuple-IsKey (some j) (names_of fields) at))
                          λ indexes x. with-Ensures _ _ _ _ (check_unique-NoDup _ _) λ keys.
                            then-Ensures _ _ _ (
                              any-Ensures _ _ _ λ foreign_items.
                                bind-Ensures _ _ _ _
                                  (each_from-All (IsForeign (names_of fields))
                                    (check_foreign (names_of fields)) _ _ foreign_items
                                    (check_foreign-IsForeign (names_of fields)))
                                  λ foreign g.
                                    with-Ensures _ _ _ _ (check_unique-NoDup _ _) λ identities.
                                      returned-Ensures _ _ (record {
                                        named = named;
                                        table = tabled;
                                        fields = All-sort_by (λ field. field.name) IsField fields f;
                                        names =
                                            NoDup-map-sort_by (λ field. field.name)
                                              (λ field. field.name) fields names;
                                        columns =
                                            NoDup-map-sort_by (λ field. field.name)
                                              (λ field. field.column) fields columns;
                                        primary = sort-IsKey fields primary p;
                                        firm =
                                            All-sort_by (λ field. field.name) (IsFirm primary)
                                              fields (IsFirm-of_test fields primary names firm);
                                        uniques =
                                            All-sort_by key_text _ uniques
                                              (All-map uniques u (sort-IsKey fields));
                                        indexed =
                                            All-sort_by key_text _ indexes
                                              (All-map indexes x (sort-IsKey fields));
                                        keys =
                                            sort-keys primary uniques (λ key. key_text (sort key))
                                              keys;
                                        foreign =
                                            All-sort_by foreign_text _ foreign
                                              (All-map foreign g (sort-IsForeign fields));
                                        identities =
                                            NoDup-map-sort_by foreign_text foreign_identity foreign
                                              identities;
                                        sorted = sort_by-IsSorted (λ field. field.name) fields;
                                      })))
