-- ===== src/SchemaIr/Emit/Laws.antt =====
-- schema-ir/index.js: what the script of emitSql has.
use mathlib.Core.List.{append_assoc, append-nil}
use ores_lib_core.Base.{
  ◌≡◌, refl, sym, ap, ◌∙◌, inl, inr, Bool, true, false, List, [], ◌∷◌, ◌++◌, map, Text, text, join,
  In, In-append, In-map, NoDup, set_size, set_size_full, arith, nat_eq, list_eq, eq_iff,
}
use ores_lib_core.SchemaIr.{Outcome, returned, thrown, unfollowed, ◌>>◌, fail, fail_if, Ir, Entity}
use ores_lib_core.SchemaIr.Emit.{
  emit_sql, relation_names, assert_no_relation_collision, create_table, references, create_indexes,
  flatten,
}

-- The part stands somewhere in the whole.
abbrev pub Stands : Text → Text → Type 0
Stands part whole = (before after : Text) × (whole ≡ before ++ part ++ after)

Stands-trans : (a b c : Text) → Stands a b → Stands b c → Stands a c
Stands-trans a b c (p, q, e) (r, s, f) = (r ++ p, q ++ s, f ∙ simp (e, append_assoc))

join-Stands : (sep x : Text) (xs : List Text) → In x xs → Stands x (join sep xs)
unfolding join
join-Stands sep x [] i = absurd i
join-Stands sep x (y ∷ []) (inl e) = ([], [], sym e ∙ sym (append-nil x))
join-Stands sep x (y ∷ []) (inr i) = absurd i
join-Stands sep x (y ∷ z ∷ xs) (inl e) =
    ([], sep ++ join sep (z ∷ xs), ap (λ t. t ++ (sep ++ join sep (z ∷ xs))) (sym e))
join-Stands sep x (y ∷ z ∷ xs) (inr i) =
    let (p, q, e) = join-Stands sep x (z ∷ xs) i in (y ++ sep ++ p, q, simp (e, append_assoc))

fifth-Stands : (a b c d x e : Text) → Stands x (join (text "\n") (a ∷ b ∷ c ∷ d ∷ x ∷ e ∷ []))
fifth-Stands a b c d x e = join-Stands (text "\n") x _ (inr (inr (inr (inr (inl refl)))))

module _ (sha256 : Text → Text) where
  -- The script has the statement of the table of each entity.
  abbrev pub HasTables : Ir → Text → Type 0
  HasTables ir sql =
      (entity : Entity) → In entity ir.entities → Stands (create_table sha256 ir entity) sql

  -- The script of emitSql, unless a name collides; emitSql is always followed.
  abbrev pub IsSql : Ir → Outcome Text → Type 0
  IsSql ir (returned sql) = NoDup (relation_names sha256 ir) × HasTables ir sql
  IsSql ir (thrown d) = Unit
  IsSql ir unfollowed = ⊥

  fail_if-IsSql :
      (ir : Ir) (b : Bool) (code path message : Text) (k : Outcome Text)
      → (b ≡ false → IsSql ir k)
      → IsSql ir (fail_if b code path message >> k)
  unfolding fail_if fail ◌>>◌
  fail_if-IsSql ir true code path message k h = tt
  fail_if-IsSql ir false code path message k h = h refl

  statements-HasTables :
      (ir : Ir) (entity : Entity) (keys indexes : List Text) (start : Text)
      → In entity ir.entities
      → Stands
          (create_table sha256 ir entity)
          (join start (map (create_table sha256 ir) ir.entities ++ keys ++ indexes))
  statements-HasTables ir entity keys indexes start i =
      join-Stands start (create_table sha256 ir entity) _ (
        (In-append _ (map (create_table sha256 ir) ir.entities ++ keys) indexes).1 (
          inl (
            (In-append _ (map (create_table sha256 ir) ir.entities) keys).1
              (inl (In-map (create_table sha256 ir) entity ir.entities i)))))

  pub emit_sql-IsSql : (ir : Ir) → IsSql ir (emit_sql sha256 ir)
  unfolding emit_sql assert_no_relation_collision
  emit_sql-IsSql ir = fail_if-IsSql ir _ _ _ _ _ λ test. (
    set_size_full (relation_names sha256 ir)
        ((eq_iff (set_size (relation_names sha256 ir)) _).0 (ground arith)),
    λ entity i.
        Stands-trans _ _ _
          (statements-HasTables ir entity (flatten (map (references sha256 ir) ir.entities))
            (flatten (map (create_indexes sha256 ir) ir.entities)) (text "\n\n") i)
          (fifth-Stands _ _ _ _ _ _),
  )
