-- ===== src/Schema/Relations/WellFormed.antt =====
-- validate.js: the relational checks accept well-formed documents alone.
use ores_lib_core.Base.{
  ℕ, suc, ◌≡◌, refl, subst, false, inl, inr, Option, none, some, List, [], ◌∷◌, ◌++◌, map, Text,
  includes, All, In, NoDup, nat_eq, list_eq, eq_refl, arith,
}
use ores_lib_core.Schema.Log.{Log, each_with}
use ores_lib_core.Schema.Log.Laws.{error_if_quiet, each_from_quiet, each_with_quiet}
use ores_lib_core.Schema.Ir.{Field, ForeignKey, Storage, Model}
use ores_lib_core.Schema.Relations.{
  keys_of, check_foreign, check_mapping, check_keys, check_stored_model, check_related,
  check_relations, table_of, table_list, tables_of,
}
use ores_lib_core.Schema.Relations.Laws.{
  All-any, unrepeated, included, or_false, check_reference_quiet,
}
use ores_lib_core.Schema.Relations.Spec.{
  field_names, IsReferenced, IsMapped, IsKeyed, IsStored, IsRelated, IsWellFormed,
}

check_mapping_quiet :
    (model : Model) (sql : Storage) (path : Text) (log : Log)
    → check_mapping model sql path log ≡ []
    → IsMapped model sql × (log ≡ [])
unfolding check_mapping
check_mapping_quiet model sql path log h =
    let mapped = map (λ column. column.field) sql.columns in
    let (required, a) = error_if_quiet _ _ _ _ _ h in
    let (complete, b) = error_if_quiet _ _ _ _ _ a in
    let (free, c) = error_if_quiet _ _ _ _ _ b in
    let (unique, d) = error_if_quiet _ _ _ _ _ c in
    let (partial, covered) = or_false _ _ complete in
    let (sized, known) = or_false _ _ partial in
    let (fields, names) = or_false _ _ unique in
    (
      (
        unrepeated mapped fields,
        unrepeated _ names,
        All-any _ _ _ (λ c e. e) free,
        All-any _ _ mapped (λ f. included (field_names model.fields) f) known,
        All-any _ _ _ (λ f. included mapped f) covered,
        All-any _ _ _ (λ field e. ground arith) required,
      ),
      d,
    )

check_keys_quiet :
    (model : Model) (sql : Storage) (path : Text) (log : Log)
    → check_keys model sql path log ≡ []
    → IsKeyed model sql × (log ≡ [])
unfolding check_keys
check_keys_quiet model sql path log h =
    let (_, a) = error_if_quiet _ _ _ _ _ h in
    let (known, b) =
      each_from_quiet (λ key. All (λ f. In f (field_names model.fields)) key) _ 0 (keys_of sql) _
        (λ i key log h.
          let (e, k) = error_if_quiet _ _ _ _ log h in
          (All-any _ _ key (λ f. included (field_names model.fields) f) e, k))
        a in
    let (unique, c) = error_if_quiet _ _ _ _ _ b in ((unrepeated _ unique, known), c)

check_foreign_quiet :
    (models : List Model) (fields : List Field) (path : Text) (i : ℕ) (key : ForeignKey)
    (seen : List Text) (log : Log)
    → (check_foreign models fields path i key seen log).1 ≡ []
    → IsReferenced models fields key × (log ≡ [])
unfolding check_foreign
check_foreign_quiet models fields path i key seen log h =
    let (referenced, a) = check_reference_quiet models fields key _ _ h in
    let (_, b) = error_if_quiet _ _ _ _ log a in (referenced, b)

-- The set of tables behind a model.
abbrev tables_after : Option Storage → List Text → List Text
tables_after none tables = tables
tables_after (some sql) tables = table_of sql ∷ tables

abbrev IsNew : List Text → Option Storage → Type 0
IsNew tables none = Unit
IsNew tables (some sql) = includes tables (table_of sql) ≡ false

check_stored_model-tables :
    (models : List Model) (model : Model) (path : Text) (storage : Option Storage)
    (tables : List Text) (log : Log)
    → (check_stored_model models model path storage tables log).0 ≡ tables_after storage tables
unfolding check_stored_model
check_stored_model-tables models model path none tables log = refl
check_stored_model-tables models model path (some sql) tables log = refl

check_stored_model_quiet :
    (models : List Model) (model : Model) (path : Text) (storage : Option Storage)
    (tables : List Text) (log : Log)
    → (check_stored_model models model path storage tables log).1 ≡ []
    → IsStored models model storage × IsNew tables storage × (log ≡ [])
unfolding check_stored_model
check_stored_model_quiet models model path none tables log h = (tt, tt, h)
check_stored_model_quiet models model path (some sql) tables log h =
    let (foreign, a) =
      each_with_quiet (IsReferenced models model.fields) (check_foreign models model.fields path) 0
        sql.foreign_keys [] _
        (λ i key seen log h. check_foreign_quiet models model.fields path i key seen log h) h in
    let (keyed, b) = check_keys_quiet model sql path _ a in
    let (mapped, c) = check_mapping_quiet model sql path _ b in
    let (new, d) = error_if_quiet _ _ _ _ _ c in
    let (free, e) = error_if_quiet _ _ _ _ _ d in ((free, mapped, keyed, foreign), new, e)

check_related_quiet :
    (models : List Model) (i : ℕ) (model : Model) (tables : List Text) (log : Log)
    → (check_related models i model tables log).1 ≡ []
    → IsRelated models model × IsNew tables model.storage × (log ≡ [])
unfolding check_related
check_related_quiet models i model tables log h =
    let (stored, new, a) = check_stored_model_quiet models model _ model.storage tables _ h in
    let (fields, b) = error_if_quiet _ _ _ _ log a in
    ((unrepeated (field_names model.fields) fields, stored), new, b)

check_related-tables :
    (models : List Model) (i : ℕ) (model : Model) (tables : List Text) (log : Log)
    → (check_related models i model tables log).0 ≡ tables_after model.storage tables
unfolding check_related
check_related-tables models i model tables log =
    check_stored_model-tables models model _ model.storage tables _

-- No table behind a position of the loop was seen before it.
abbrev AreNew : List Text → List Text → Type 0
AreNew seen tables = NoDup tables × ((t : Text) → In t tables → includes seen t ≡ false)

tables_after-AreNew :
    (storage : Option Storage) (seen rest : List Text)
    → IsNew seen storage
    → AreNew (tables_after storage seen) rest
    → AreNew seen (table_list storage ++ rest)
unfolding includes
tables_after-AreNew none seen rest new later = later
tables_after-AreNew (some sql) seen rest new (distinct, unseen) = (
  (λ i. ground (arith, unseen (table_of sql) i, eq_refl (table_of sql)), distinct),
  λ t i. elim i [ inl e ↦ rw e new | inr j ↦ ground (arith, unseen t j) ],
)

tables_of-AreNew :
    (models : List Model) (i : ℕ) (rest : List Model) (seen : List Text) (log : Log)
    → (each_with i (check_related models) rest seen log).1 ≡ []
    → AreNew seen (tables_of rest)
unfolding each_with tables_of
tables_of-AreNew models i [] seen log h = (tt, λ t i. absurd i)
tables_of-AreNew models i (model ∷ rest) seen log h =
    let step = check_related models i model seen log in
    let later = tables_of-AreNew models (suc i) rest step.0 step.1 h in
    let (_, k) =
      each_with_quiet (λ m. Unit {0}) (check_related models) (suc i) rest step.0 step.1
        (λ i m s log h. (tt, (check_related_quiet models i m s log h).2)) h in
    let (_, new, _) = check_related_quiet models i model seen log k in
    tables_after-AreNew model.storage seen (tables_of rest) new
      (subst (λ s. AreNew s (tables_of rest)) (check_related-tables models i model seen log) later)

pub check_relations-IsWellFormed :
    (models : List Model) → check_relations models [] ≡ [] → IsWellFormed models
unfolding check_relations
check_relations-IsWellFormed models h =
    let (related, a) =
      each_with_quiet (IsRelated models) (check_related models) 0 models [] _
        (λ i m s log h. let (r, _, k) = check_related_quiet models i m s log h in (r, k)) h in
    let (names, _) = error_if_quiet _ _ _ _ [] a in
    (unrepeated _ names, (tables_of-AreNew models 0 models [] _ h).0, related)
