-- ===== src/Retry/Records.antt =====
-- Which values `record` accepts, stated property by property.
use ores_lib_core.Base.{
  ℕ, ◌≡◌, ◌≢◌, refl, ap, sym, subst, true, false, ◌||◌, ◌↔◌, ◌⊎◌, inl, inr, List, [], ◌∷◌, Text,
  every, every_iff, includes, includes_iff, In, All, nat_eq, list_eq, ◌==◌, eq_iff, arith,
  Bool-cases,
}
use ores_lib_core.Js.{
  Heap, Value, ref, Key, name, sym_key, Slot, data_slot, accessor, own_props, has_own,
  is_plain_proto, is_callable,
}
use ores_lib_core.Retry.{admits, is_record}

-- An own property that a record may have: an enumerable data property under a listed name.
pub record IsInert (required optional : List Text) (p : Key × Slot) : Type 0 where
  pub key : Text
  pub value : Value
  pub named : p ≡ (name key, data_slot value true)
  pub listed : In key required ⊎ In key optional

-- An own property under a name.
abbrev pub Has : List (Key × Slot) → Text → Type 0
Has props k = (s : Slot) × In (name k, s) props

-- A plain object, made by a literal or without a prototype, that has every required property and
-- no property but inert ones.
pub record IsRecord (heap : Heap) (v : Value) (required optional : List Text) : Type 0 where
  pub at : ℕ
  pub reference : v ≡ ref at
  pub object_class : is_callable (heap at).class ≡ false
  pub prototype : is_plain_proto (heap at).proto ≡ true
  pub complete : All (Has (own_props (heap at))) required
  pub inert : All (IsInert required optional) (own_props (heap at))

key_name : Text → Key → Text
key_name d (name k) = k
key_name d (sym_key n) = d

name_injective : {j k : Text} → name j ≡ name k → j ≡ k
unfolding key_name
name_injective {j} e = ap (key_name j) e

name-ne-sym_key : {k : Text} {n : ℕ} → name k ≢ sym_key n
name-ne-sym_key e = cc

has_own_iff : (props : List (Key × Slot)) (k : Text) → (has_own props k ≡ true) ↔ Has props k
unfolding has_own
has_own_iff [] k = ((λ h. cc), (λ (s, i). absurd i))
has_own_iff ((name j, t) ∷ props) k =
    let (to, from) = has_own_iff props k in
    elim (Bool-cases (j == k)) [
      | inl same ↦
          rw same ((λ h. (t, inl (ap (λ x. (name x, t)) (sym ((eq_iff j k).0 same))))), (λ h. refl))
      | inr other ↦ rw other (
        (λ h. let (s, i) = to h in (s, inr i)),
        (λ (s, i). elim i [
          | inl e ↦ cc (other, (eq_iff j k).1 (sym (name_injective (ap (λ q. q.0) e))))
          | inr i' ↦ from (s, i')
        ]),
      )
    ]
has_own_iff ((sym_key n, t) ∷ props) k =
    let (to, from) = has_own_iff props k in
    (
      (λ h. let (s, i) = to h in (s, inr i)),
      (λ (s, i). elim i [
        | inl e ↦ absurd (name-ne-sym_key (ap (λ q. q.0) e))
        | inr i' ↦ from (s, i')
      ]),
    )

admits_name :
    (required optional : List Text) (k : Text)
    → (includes required k || includes optional k ≡ true) ↔ (In k required ⊎ In k optional)
admits_name required optional k = ground (arith, includes_iff required k, includes_iff optional k)

admits-IsInert :
    (required optional : List Text) (p : Key × Slot)
    → admits required optional p ≡ true
    → IsInert required optional p
admits-IsInert required optional (name k, data_slot v true) h = record {
  key = k;
  value = v;
  named = refl;
  listed = (admits_name required optional k).0 (ground arith);
}
admits-IsInert required optional (name k, data_slot v false) h = absurd (ground arith)
admits-IsInert required optional (name k, accessor e) h = cc
admits-IsInert required optional (sym_key n, s) h = cc

admits_iff :
    (required optional : List Text) (p : Key × Slot)
    → (admits required optional p ≡ true) ↔ IsInert required optional p
admits_iff required optional p = (
  admits-IsInert required optional p,
  (λ i.
      subst (λ q. admits required optional q ≡ true) (sym i.named)
        (rw ((admits_name required optional i.key).1 i.listed))),
)

module _ (heap : Heap) (required optional : List Text) where
  complete_iff :
      (i : ℕ)
      → (every (λ key. has_own (own_props (heap i)) key) required ≡ true)
        ↔ All (Has (own_props (heap i))) required
  complete_iff i =
      every_iff _ (Has (own_props (heap i))) required (has_own_iff (own_props (heap i)))

  IsInert-iff :
      (i : ℕ)
      → (every (admits required optional) (own_props (heap i)) ≡ true)
        ↔ All (IsInert required optional) (own_props (heap i))
  IsInert-iff i =
      every_iff (admits required optional) (IsInert required optional) (own_props (heap i))
        (admits_iff required optional)

  is_record-IsRecord :
      (v : Value) → is_record heap v required optional ≡ true → IsRecord heap v required optional
  unfolding is_record
  is_record-IsRecord (ref i) h = record {
    at = i;
    reference = refl;
    object_class = ground arith;
    prototype = ground arith;
    complete = (complete_iff i).0 (ground arith);
    inert = (IsInert-iff i).0 (ground arith);
  }
  is_record-IsRecord v h = cc

  IsRecord-is_record :
      (v : Value) → IsRecord heap v required optional → is_record heap v required optional ≡ true
  unfolding is_record
  IsRecord-is_record v r =
      subst (λ w. is_record heap w required optional ≡ true) (sym r.reference)
        (ground (arith, (complete_iff r.at).1 r.complete, (IsInert-iff r.at).1 r.inert))

  -- `record` accepts exactly the plain objects whose own properties are all inert and complete.
  pub is_record_iff :
      (v : Value) → (is_record heap v required optional ≡ true) ↔ IsRecord heap v required optional
  is_record_iff v = (is_record-IsRecord v, IsRecord-is_record v)
