-- ===== src/SchemaIr/Input/Laws.antt =====
-- schema-ir/validate.js: the bounds that jsonValue keeps.
use Prim.Native.Nat.{max}
use ores_lib_core.Base.{
  ℕ, zero, suc, ◌+◌, ◌≤◌, ◌≡◌, refl, Bool, true, false, not, ◌&&◌, List, [], ◌∷◌, Text, arith,
  if-elim, nat_eq,
}
use ores_lib_core.Js.{
  Heap, Value, undefined, null, bool, num, str, symbol, bigint, ref, int, neg_zero, fraction,
  non_finite, Key, Slot, name, sym_key, data_slot, accessor, Object, Class, plain, array, callable,
  is_callable,
}
use ores_lib_core.Schema.Json.{Json}
use ores_lib_core.Schema.Snapshot.{is_index, own_entries}
use ores_lib_core.Schema.Snapshot.Laws.{
  node_count, items_count, fields_count, levels, items_levels, fields_levels,
}
use ores_lib_core.SchemaIr.{returned}
use ores_lib_core.SchemaIr.Ensures.{
  Ensures, returned-Ensures, fail-Ensures, bind-Ensures, then-Ensures, Ensures-returned,
}
use ores_lib_core.SchemaIr.Input.{
  Child, read_items, read_fields, invalid_json, over_limit, walk_entry, walk_entries, document,
  walk_object, walk_value, json_value, read_input,
}

abbrev count : List (Text × Json) → ℕ
count [] = 0
count ((k, j) ∷ es) = node_count j + count es

abbrev height : List (Text × Json) → ℕ
height [] = 0
height ((k, j) ∷ es) = max (levels j) (height es)

-- What a walk from a budget keeps: each node takes one from it, and the levels are bounded.
abbrev IsCounted : ℕ → ℕ → Json × ℕ → Type 0
IsCounted left budget (j, after) = (node_count j + after ≡ budget) × (levels j ≤ left)

abbrev IsCountedList : ℕ → ℕ → List (Text × Json) × ℕ → Type 0
IsCountedList left budget (es, after) = (count es + after ≡ budget) × (height es ≤ left)

items-count : (es : List (Text × Json)) → items_count (read_items es) ≡ count es
unfolding items_count read_items
items-count [] = refl
items-count ((k, j) ∷ es) = omega (arith, items-count es)

fields-count : (es : List (Text × Json)) → fields_count (read_fields es) ≡ count es
unfolding fields_count read_fields
fields-count [] = refl
fields-count ((k, j) ∷ es) = omega (arith, fields-count es)

items-height : (es : List (Text × Json)) → items_levels (read_items es) ≡ height es
unfolding items_levels read_items
items-height [] = refl
items-height ((k, j) ∷ es) = omega (arith, items-height es)

fields-height : (es : List (Text × Json)) → fields_levels (read_fields es) ≡ height es
unfolding fields_levels read_fields
fields-height [] = refl
fields-height ((k, j) ∷ es) = omega (arith, fields-height es)

document-IsCounted :
    (class : Class) (left remaining after : ℕ) (es : List (Text × Json))
    → IsCountedList left remaining (es, after)
    → IsCounted (suc left) (suc remaining) (document class es, after)
unfolding node_count levels
document-IsCounted array left remaining after es (c, l) =
    (omega (arith, items-count es), omega (arith, items-height es))
document-IsCounted plain left remaining after es (c, l) =
    (omega (arith, fields-count es), omega (arith, fields-height es))
document-IsCounted callable left remaining after es (c, l) =
    (omega (arith, fields-count es), omega (arith, fields-height es))

module _ (left : ℕ) (child : Child)
    (counts : (at : Text) (v : Value) (budget : ℕ)
      → Ensures (IsCounted left budget) (child at v budget)) where
  walk_entry-counts :
      (in_array : Bool) (path : Text) (p : Key × Slot) (budget : ℕ)
      → Ensures
          (λ ((k, j), after). IsCounted left budget (j, after))
          (walk_entry child in_array path p budget)
  unfolding walk_entry invalid_json
  walk_entry-counts in_array path (name k, data_slot v true) budget =
      if-elim (Ensures (λ ((k, j), after). IsCounted left budget (j, after)))
        (in_array && not (is_index k)) _ _ (λ _. fail-Ensures _ _ _ _)
        λ _. bind-Ensures _ _ _ _ (counts _ v budget) λ (j, after) c. returned-Ensures _ _ c
  walk_entry-counts in_array path (name k, data_slot v false) budget = fail-Ensures _ _ _ _
  walk_entry-counts in_array path (name k, accessor e) budget = fail-Ensures _ _ _ _
  walk_entry-counts in_array path (sym_key n, s) budget = fail-Ensures _ _ _ _

  walk_entries-counts :
      (in_array : Bool) (path : Text) (ps : List (Key × Slot)) (budget : ℕ)
      → Ensures (IsCountedList left budget) (walk_entries child in_array path ps budget)
  unfolding walk_entries
  walk_entries-counts in_array path [] budget = returned-Ensures _ _ (omega arith, omega arith)
  walk_entries-counts in_array path (p ∷ ps) budget =
      bind-Ensures _ _ _ _ (walk_entry-counts in_array path p budget) λ ((k, j), after) c.
        bind-Ensures _ _ _ _ (walk_entries-counts in_array path ps after)
          λ (es, last) d. returned-Ensures _ _ (omega arith, omega arith)

  walk_object-counts :
      (ancestors : List ℕ) (i : ℕ) (path : Text) (o : Object) (remaining : ℕ)
      → Ensures
          (IsCounted (suc left) (suc remaining))
          (walk_object child ancestors i path o remaining)
  unfolding walk_object
  walk_object-counts ancestors i path o remaining = then-Ensures _ _ _ (
      then-Ensures _ _ _ (
        then-Ensures _ _ _ (
          bind-Ensures _ _ _ _ (walk_entries-counts _ path (own_entries o) remaining)
            λ (es, after) c. then-Ensures _ _ _ (
              then-Ensures _ _ _
                (returned-Ensures _ _ (document-IsCounted o.class left remaining after es c))))))

one_node :
    (j : Json) (left n : ℕ) → node_count j ≡ 1 → levels j ≡ 1 → IsCounted (suc left) (suc n) (j, n)
one_node j left n c l = (omega arith, omega arith)

walk_value-counts :
    (heap : Heap) (left : ℕ) (child : ℕ → Child) (ancestors : List ℕ) (path : Text) (v : Value)
    (remaining : ℕ)
    → ((i : ℕ) (at : Text) (w : Value) (budget : ℕ)
        → Ensures (IsCounted left budget) (child i at w budget))
    → Ensures
        (IsCounted (suc left) (suc remaining))
        (walk_value heap child ancestors path v remaining)
unfolding walk_value invalid_json node_count levels
walk_value-counts heap left child ancestors path null n h =
    returned-Ensures _ _ (one_node Json.null left n refl refl)
walk_value-counts heap left child ancestors path (str s) n h =
    returned-Ensures _ _ (one_node (Json.str s) left n refl refl)
walk_value-counts heap left child ancestors path (bool b) n h =
    returned-Ensures _ _ (one_node (Json.bool b) left n refl refl)
walk_value-counts heap left child ancestors path (num (int z)) n h =
    returned-Ensures _ _ (one_node (Json.num (int z)) left n refl refl)
walk_value-counts heap left child ancestors path (num neg_zero) n h =
    returned-Ensures _ _ (one_node (Json.num neg_zero) left n refl refl)
walk_value-counts heap left child ancestors path (num (fraction k)) n h =
    returned-Ensures _ _ (one_node (Json.num (fraction k)) left n refl refl)
walk_value-counts heap left child ancestors path (num (non_finite k)) n h = fail-Ensures _ _ _ _
walk_value-counts heap left child ancestors path (ref i) n h =
    if-elim (Ensures (IsCounted (suc left) (suc n))) (is_callable (heap i).class) _ _
      (λ _. fail-Ensures _ _ _ _)
      λ _. walk_object-counts left (child i) (h i) ancestors i path (heap i) n
walk_value-counts heap left child ancestors path undefined n h = fail-Ensures _ _ _ _
walk_value-counts heap left child ancestors path (symbol k) n h = fail-Ensures _ _ _ _
walk_value-counts heap left child ancestors path (bigint k) n h = fail-Ensures _ _ _ _

json_value-counts :
    (heap : Heap) (left : ℕ) (ancestors : List ℕ) (path : Text) (v : Value) (budget : ℕ)
    → Ensures (IsCounted left budget) (json_value heap left ancestors path v budget)
unfolding json_value over_limit
json_value-counts heap zero ancestors path v budget = fail-Ensures _ _ _ _
json_value-counts heap (suc left) ancestors path v zero = fail-Ensures _ _ _ _
json_value-counts heap (suc left) ancestors path v (suc remaining) =
    walk_value-counts heap left _ ancestors path v remaining
      λ i at w budget. json_value-counts heap left (i ∷ ancestors) at w budget

-- The walk over any input, cyclic ones included, that returns a document has read as many nodes as it
-- has taken from the budget of 100000, on at most 21 levels.
pub read_input-bounds :
    (heap : Heap) (input : Value) (document : Json) (left : ℕ)
    → read_input heap input ≡ returned (document, left)
    → (node_count document + left ≡ 100000) × (levels document ≤ 21)
unfolding read_input
read_input-bounds heap input document left h =
    Ensures-returned (IsCounted 21 100000) _ (document, left)
      (json_value-counts heap 21 [] [] input 100000) h
