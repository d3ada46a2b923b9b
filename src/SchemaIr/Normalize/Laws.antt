-- ===== src/SchemaIr/Normalize/Laws.antt =====
-- schema-ir/validate.js: a document that normalizeSchemaIr returns is normal.
use ores_lib_core.Base.{
  ℕ, suc, ◌≡◌, refl, sym, subst, ap, ◌∙◌, inl, inr, Bool, true, false, not, ◌&&◌, ◌||◌, Option,
  none, some, List, [], ◌∷◌, map, Text, includes, includes_iff, any, find-eq-some, In, All, All-map,
  All-sort_by, NoDup-map-sort_by, In-sort_by, sort_by, sort_by-IsSorted, arith, nat_eq, list_eq,
  ◌==◌, eq_iff, Bool-cases, if◌then◌else◌,
}
use ores_lib_core.Js.{Heap, Value}
use ores_lib_core.Redaction.{to_lower_case}
use ores_lib_core.Schema.Json.{Json, str}
use ores_lib_core.Schema.Ir.{Scalar, string, boolean, int32, uuid}
use ores_lib_core.SchemaIr.{returned, Field, ForeignKey, Entity, Ir, set_null}
use ores_lib_core.SchemaIr.Ensures.{
  Ensures, returned-Ensures, fail-Ensures, bind-Ensures, any-Ensures, then-Ensures, with-Ensures,
  Ensures-mono, fail_if-Ensures, Ensures-returned,
}
use ores_lib_core.SchemaIr.Check.{is_known}
use ores_lib_core.SchemaIr.Check.Laws.{IsKey, check_name-IsNamed, check_unique-NoDup, each_from-All}
use ores_lib_core.SchemaIr.Check.Entity.{field_named, names_of, key_text, check_entity}
use ores_lib_core.SchemaIr.Check.Entity.Laws.{check_entity-IsEntity}
use ores_lib_core.SchemaIr.Normalize.{
  scalar_index, types_differ, any_type_differs, not_nullable, is_set_null, check_target_fields,
  check_match, entity_named, check_foreign_keys, check_entities, normalize_document,
  normalize_schema_ir,
}
use ores_lib_core.SchemaIr.Normalize.Spec.{
  IsEntity, SameTypes, IsNullable, IsResolved, IsRelated, IsNormal,
}

scalar_at : ℕ → Scalar
scalar_at n = if n == 0 then string else if n == 1 then boolean else if n == 2 then int32 else uuid

scalar_at-index : (s : Scalar) → scalar_at (scalar_index s) ≡ s
unfolding scalar_at
scalar_at-index string = refl
scalar_at-index boolean = refl
scalar_at-index int32 = refl
scalar_at-index uuid = refl

same_scalar : (s t : Scalar) → not (scalar_index s == scalar_index t) ≡ false → s ≡ t
same_scalar s t h =
    sym (scalar_at-index s)
    ∙ ap scalar_at ((eq_iff (scalar_index s) (scalar_index t)).0 (ground arith))
    ∙ scalar_at-index t

not-eq-false : (b : Bool) → not b ≡ false → b ≡ true
not-eq-false b h = ground arith

or_true : (p q : Bool) → p ≡ false → p || q ≡ true → q ≡ true
or_true p q f h = ground arith

or_false : (p q : Bool) → p || q ≡ false → (p ≡ false) × (q ≡ false)
or_false p q h = ground arith

-- A field that is found
found_field :
    (fields : List Field) (k : Text) (f : Field)
    → field_named fields k ≡ some f
    → In f fields × (f.name ≡ k)
unfolding field_named
found_field fields k f e =
    let (i, t) = find-eq-some (λ field. field.name == k) f fields e in (i, (eq_iff f.name k).0 t)

any_type_differs-SameTypes :
    (fields targets : List Field) (keys others : List Text)
    → any_type_differs fields targets keys others ≡ false
    → SameTypes fields targets keys others
unfolding any_type_differs
any_type_differs-SameTypes fields targets [] others h = tt
any_type_differs-SameTypes fields targets (key ∷ keys) [] h = cc h
any_type_differs-SameTypes fields targets (key ∷ keys) (other ∷ others) h =
    let (here, rest) =
      or_false (types_differ (field_named fields key) (field_named targets other)) _ h in
    (
      paired (field_named fields key) (field_named targets other) here refl refl,
      any_type_differs-SameTypes fields targets keys others rest,
    )
  where
    paired :
        (a b : Option Field)
        → types_differ a b ≡ false
        → field_named fields key ≡ a
        → field_named targets other ≡ b
        → (f : Field) × (g : Field) × In f fields
          × In g targets
          × (f.name ≡ key)
          × (g.name ≡ other)
          × (f.type ≡ g.type)
    paired none b t d e = cc t
    paired (some f) none t d e = cc t
    paired (some f) (some g) t d e =
        let (i, m) = found_field fields key f d in
        let (j, n) = found_field targets other g e in
        (f, g, i, j, m, n, same_scalar f.type g.type t)

IsNullable-found :
    (fields : List Field) (keys : List Text)
    → any (λ local. not_nullable (field_named fields local)) keys ≡ false
    → All (IsNullable fields) keys
IsNullable-found fields [] h = tt
IsNullable-found fields (key ∷ keys) h =
    let (here, rest) = or_false (not_nullable (field_named fields key)) _ h in
    (found (field_named fields key) here refl, IsNullable-found fields keys rest)
  where
    found :
        (a : Option Field)
        → not_nullable a ≡ false
        → field_named fields key ≡ a
        → IsNullable fields key
    found none t e = cc t
    found (some f) t e = let (i, m) = found_field fields key f e in (f, i, m, ground arith)

known_names :
    (names keys : List Text)
    → any (λ key. not (is_known names (str key))) keys ≡ false
    → All (λ k. In k names) keys
known_names names [] h = tt
known_names names (key ∷ keys) h =
    let (here, rest) = or_false (not (includes names key)) _ h in
    ((includes_iff names key).0 (ground arith), known_names names keys rest)

-- A key with the text of a declared one
declared_In :
    (t : Text) (keys : List (List Text))
    → any (λ declared. key_text declared == t) keys ≡ true
    → In t (map key_text keys)
declared_In t [] h = cc h
declared_In t (key ∷ keys) h = elim (Bool-cases (key_text key == t)) [
  | inl e ↦ inl (sym ((eq_iff (key_text key) t).0 e))
  | inr f ↦ inr (declared_In t keys (or_true _ _ f h))
]

check_target_fields-IsKey :
    (keys : List Text) (targets : List Field) (path : Text)
    → Ensures (λ u. IsKey (names_of targets) keys) (check_target_fields keys targets path)
unfolding check_target_fields
check_target_fields-IsKey keys targets path =
    with-Ensures _ _ _ _ (fail_if-Ensures _ _ _ _) λ known.
      Ensures-mono _ _ _ (check_unique-NoDup _ _)
        λ u nodup. (nodup, known_names (names_of targets) keys known)

set_null-IsNullable :
    (entity : Entity) (key : ForeignKey)
    → (is_set_null key.on_delete
        && any (λ local. not_nullable (field_named entity.fields local)) key.fields)
      ≡ false
    → key.on_delete ≡ set_null
    → All (IsNullable entity.fields) key.fields
set_null-IsNullable entity key h e = IsNullable-found entity.fields key.fields (
    subst
      (λ a.
        (is_set_null a && any (λ local. not_nullable (field_named entity.fields local)) key.fields)
        ≡ false)
      e h)

check_match-IsResolved :
    (entities : List Entity) (entity : Entity) (key : ForeignKey) (path : Text)
    (found : Option Entity)
    → entity_named entities key.references.entity ≡ found
    → Ensures (λ u. IsResolved entities entity key) (check_match entity key path found)
unfolding check_match entity_named
check_match-IsResolved entities entity key path none e = fail-Ensures _ _ _ _
check_match-IsResolved entities entity key path (some target) e =
    let (i, n) = find-eq-some (λ entity. entity.name == key.references.entity) target entities e in
    with-Ensures _ _ _ _ (check_target_fields-IsKey _ _ _) λ k.
      with-Ensures _ _ _ _ (fail_if-Ensures _ _ _ _) λ declared.
        with-Ensures _ _ _ _ (fail_if-Ensures _ _ _ _) λ types.
          Ensures-mono _ _ _ (fail_if-Ensures _ _ _ _) λ u null. (
            target,
            i,
            (eq_iff target.name key.references.entity).0 n,
            k,
            declared_In (key_text key.references.fields) (target.primary_key ∷ target.unique_keys)
                (not-eq-false _ declared),
            any_type_differs-SameTypes entity.fields target.fields key.fields key.references.fields
                types,
            set_null-IsNullable entity key null,
          )

check_foreign_keys-All :
    (entities : List Entity) (entity : Entity) (path : Text) (j : ℕ) (keys : List ForeignKey)
    → Ensures
        (λ u. All (IsResolved entities entity) keys)
        (check_foreign_keys entities entity path j keys)
unfolding check_foreign_keys
check_foreign_keys-All entities entity path j [] = returned-Ensures _ _ tt
check_foreign_keys-All entities entity path j (key ∷ keys) =
    with-Ensures _ _ _ _ (check_match-IsResolved entities entity key _ _ refl) λ r.
      Ensures-mono _ _ _ (check_foreign_keys-All entities entity path (suc j) keys) λ u rs. (r, rs)

check_entities-All :
    (entities : List Entity) (i : ℕ) (rest : List Entity)
    → Ensures (λ u. All (IsRelated entities) rest) (check_entities entities i rest)
unfolding check_entities
check_entities-All entities i [] = returned-Ensures _ _ tt
check_entities-All entities i (entity ∷ rest) =
    with-Ensures _ _ _ _ (check_foreign_keys-All entities entity _ 0 entity.foreign_keys)
      λ r. Ensures-mono _ _ _ (check_entities-All entities (suc i) rest) λ u rs. (r, rs)

-- The relations do not depend on the order of the entities.
sort-IsResolved :
    (entities : List Entity) (entity : Entity) (key : ForeignKey)
    → IsResolved entities entity key
    → IsResolved (sort_by (λ entity. entity.name) entities) entity key
sort-IsResolved entities entity key (target, i, n, k, d, t, s) =
    (target, (In-sort_by (λ entity. entity.name) target entities).1 i, n, k, d, t, s)

sort-IsRelated :
    (entities : List Entity) (entity : Entity)
    → IsRelated entities entity
    → IsRelated (sort_by (λ entity. entity.name) entities) entity
sort-IsRelated entities entity h = All-map entity.foreign_keys h (sort-IsResolved entities entity)

normalize_document-IsNormal : (input : Json) → Ensures IsNormal (normalize_document input)
unfolding normalize_document
normalize_document-IsNormal input = then-Ensures _ _ _ (
    then-Ensures _ _ _ (
      bind-Ensures _ _ _ _ (check_name-IsNamed _ _ _ _) λ schema s. then-Ensures _ _ _ (
        any-Ensures _ _ _ λ items.
          bind-Ensures _ _ _ _ (each_from-All IsEntity check_entity _ _ items check_entity-IsEntity)
            λ entities e. with-Ensures _ _ _ _ (check_unique-NoDup _ _) λ names.
              with-Ensures _ _ _ _ (check_unique-NoDup _ _) λ tables.
                with-Ensures _ _ _ _ (check_entities-All entities 0 entities) λ related.
                  returned-Ensures _ _ (record {
                    schema = s;
                    entities = All-sort_by (λ entity. entity.name) IsEntity entities e;
                    related =
                        All-sort_by (λ entity. entity.name) _ entities
                          (All-map entities related (sort-IsRelated entities));
                    names =
                        NoDup-map-sort_by (λ entity. entity.name)
                          (λ entity. to_lower_case entity.name) entities names;
                    tables =
                        NoDup-map-sort_by (λ entity. entity.name) (λ entity. entity.table) entities
                          tables;
                    sorted = sort_by-IsSorted (λ entity. entity.name) entities;
                  }))))

-- Whatever the normalization of an input returns, where it is followed, is a normal document: its names are valid and
-- distinct, its keys are of its fields, its foreign keys resolve to declared keys of the same types,
-- and entities and fields are in order.
pub normalize_schema_ir-IsNormal :
    (heap : Heap) (input : Value) (ir : Ir)
    → normalize_schema_ir heap input ≡ returned ir
    → IsNormal ir
unfolding normalize_schema_ir
normalize_schema_ir-IsNormal heap input ir h =
    Ensures-returned IsNormal _ ir (any-Ensures _ _ _ λ r. normalize_document-IsNormal r.0) h
