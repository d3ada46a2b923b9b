-- ===== src/Schema/Snapshot/Laws.antt =====
-- validate.js: the bounds of a snapshot.
use ores_lib_core.Base.{
  ℕ, zero, suc, ◌+◌, ◌≤◌, ◌≡◌, refl, subst, true, false, ◌⊎◌, inl, inr, Bool, ◌||◌, List, [], ◌∷◌,
  Text, includes, ltb, arith, Bool-cases, nat_eq, list_eq,
}
use Prim.Native.Nat.{max}
use ores_lib_core.Js.{
  Heap, Value, undefined, null, bool, num, str, symbol, bigint, ref, int, neg_zero, fraction,
  non_finite, Object, Class, plain, callable, is_callable, own_props, items_from, entries_of,
}
use ores_lib_core.Schema.Json.{Json, Items, nil, cons, Fields, empty, field}
use ores_lib_core.Schema.Snapshot.{
  InputError, Visit, visited, failed, Visits, and_then, throw_if, visit_num, visit_items,
  visit_fields, visit_content, check_object, is_exotic, is_too_long, has_accessors, is_sparse,
  own_entries, visit_object, visit_value, visit, snapshot_json, input_limit, input_not_json,
}

-- The number of nodes of a document, and the number of levels.
unfoldable mutual
  pub node_count : Json → ℕ
  node_count (Json.array js) = suc (items_count js)
  node_count (Json.object fs) = suc (fields_count fs)
  node_count _ = 1

  pub items_count : Items → ℕ
  items_count nil = 0
  items_count (cons j js) = node_count j + items_count js

  pub fields_count : Fields → ℕ
  fields_count empty = 0
  fields_count (field k j fs) = node_count j + fields_count fs

unfoldable mutual
  pub levels : Json → ℕ
  levels (Json.array js) = suc (items_levels js)
  levels (Json.object fs) = suc (fields_levels fs)
  levels _ = 1

  pub items_levels : Items → ℕ
  items_levels nil = 0
  items_levels (cons j js) = max (levels j) (items_levels js)

  pub fields_levels : Fields → ℕ
  fields_levels empty = 0
  fields_levels (field k j fs) = max (levels j) (fields_levels fs)

-- What a step of the visit keeps, from `nodes` on: the count and the limits.
abbrev Counted : {A : Type 0} → (A → ℕ) → (A → ℕ) → ℕ → ℕ → Visit A → Type 0
Counted size height left nodes (visited a after) =
    (after ≡ nodes + size a) × (nodes ≤ 200000 → after ≤ 200000) × (height a ≤ left)
Counted size height left nodes (failed e) = Unit

abbrev Counts : ℕ → (Value → Visits Json) → Type 0
Counts left child = (v : Value) (nodes : ℕ) → Counted node_count levels left nodes (child v nodes)

-- A child, then the rest of its siblings.
module _ {B : Type 0} (size height : B → ℕ) (put : Json → B → B) (left : ℕ)
    (sizes : (j : Json) (b : B) → size (put j b) ≡ node_count j + size b)
    (heights : (j : Json) (b : B) → height (put j b) ≡ max (levels j) (height b)) where
  put-Counted :
      (j : Json) (nodes after : ℕ) (rest : Visit B)
      → Counted node_count levels left nodes (visited j after)
      → Counted size height left after rest
      → Counted size height left nodes (and_then rest (λ b nodes. visited (put j b) nodes))
  put-Counted j nodes after (visited b last) (c, d, e) (f, g, h) =
      (omega (arith, sizes j b), λ l. g (d l), omega (arith, heights j b))
  put-Counted j nodes after (failed e) p q = tt

  chain-Counted :
      (r : Visit Json) (rest : Visits B) (nodes : ℕ)
      → Counted node_count levels left nodes r
      → ((n : ℕ) → Counted size height left n (rest n))
      → Counted size height left nodes
          (and_then r (λ j n. and_then (rest n) (λ b nodes. visited (put j b) nodes)))
  chain-Counted (visited j after) rest nodes p q =
      put-Counted j nodes after (rest after) p (q after)
  chain-Counted (failed e) rest nodes p q = tt

visit_items-Counted :
    (left : ℕ) (child : Value → Visits Json) (vs : List Value) (nodes : ℕ)
    → Counts left child
    → Counted items_count items_levels left nodes (visit_items child vs nodes)
unfolding visit_items items_count items_levels
visit_items-Counted left child [] nodes counts = (omega arith, λ h. h, omega arith)
visit_items-Counted left child (v ∷ vs) nodes counts =
    chain-Counted items_count items_levels cons left (λ j js. refl) (λ j js. refl) (child v nodes)
      (visit_items child vs) nodes (counts v nodes)
      (λ n. visit_items-Counted left child vs n counts)

visit_fields-Counted :
    (left : ℕ) (child : Value → Visits Json) (vs : List (Text × Value)) (nodes : ℕ)
    → Counts left child
    → Counted fields_count fields_levels left nodes (visit_fields child vs nodes)
unfolding visit_fields fields_count fields_levels
visit_fields-Counted left child [] nodes counts = (omega arith, λ h. h, omega arith)
visit_fields-Counted left child ((k, v) ∷ vs) nodes counts =
    chain-Counted fields_count fields_levels (field k) left (λ j fs. refl) (λ j fs. refl)
      (child v nodes) (visit_fields child vs) nodes (counts v nodes)
      (λ n. visit_fields-Counted left child vs n counts)

-- An object, counted itself before its content.
wrap-Counted :
    {B : Type 0} (size height : B → ℕ) (wrap : B → Json) (left nodes : ℕ) (r : Visit B)
    → ((b : B) → (node_count (wrap b) ≡ suc (size b)) × (levels (wrap b) ≡ suc (height b)))
    → Counted size height left (suc nodes) r
    → suc nodes ≤ 200000
    → Counted node_count levels (suc left) nodes (and_then r (λ b n. visited (wrap b) n))
wrap-Counted size height wrap left nodes (visited b after) wraps (c, d, e) low =
    let (f, g) = wraps b in (omega arith, λ h. d low, omega arith)
wrap-Counted size height wrap left nodes (failed e) wraps p low = tt

visit_content-Counted :
    (left : ℕ) (child : Value → Visits Json) (class : Class) (o : Object) (nodes : ℕ)
    → Counts left child
    → suc nodes ≤ 200000
    → Counted node_count levels (suc left) nodes (visit_content child class o (suc nodes))
unfolding node_count levels
visit_content-Counted left child Class.array o nodes counts low =
    wrap-Counted items_count items_levels Json.array left nodes _ (λ js. (refl, refl))
      (visit_items-Counted left child (items_from (own_props o) 0 o.size) (suc nodes) counts) low
visit_content-Counted left child plain o nodes counts low =
    wrap-Counted fields_count fields_levels Json.object left nodes _ (λ fs. (refl, refl))
      (visit_fields-Counted left child (entries_of (own_entries o)) (suc nodes) counts) low
visit_content-Counted left child callable o nodes counts low =
    wrap-Counted fields_count fields_levels Json.object left nodes _ (λ fs. (refl, refl))
      (visit_fields-Counted left child (entries_of (own_entries o)) (suc nodes) counts) low

-- A test that either goes on with the count that it was given or throws.
abbrev IsGuard : Visits (Unit {0}) → Type 0
IsGuard m = (n : ℕ) → (m n ≡ visited tt n) ⊎ ((e : InputError) × (m n ≡ failed e))

throw_if-IsGuard : (b : Bool) (e : InputError) → IsGuard (throw_if b e)
throw_if-IsGuard true e n = inr (e, refl)
throw_if-IsGuard false e n = inl refl

both-IsGuard :
    (b : Bool) (e : InputError) (m : Visits (Unit {0}))
    → IsGuard m
    → IsGuard (λ n. and_then (throw_if b e n) (λ _. m))
both-IsGuard true e m h n = inr (e, refl)
both-IsGuard false e m h n = h n

check_object-IsGuard : (o : Object) → IsGuard (check_object o)
unfolding check_object
check_object-IsGuard o = both-IsGuard (is_exotic o) input_not_json _ (
    both-IsGuard (is_too_long o) input_limit _ (
      both-IsGuard (has_accessors o) input_not_json _
        (throw_if-IsGuard (is_sparse o) input_not_json)))

guarded-Counted :
    (r : Visit (Unit {0})) (left nodes at : ℕ) (rest : Visits Json)
    → (r ≡ visited tt at) ⊎ ((e : InputError) × (r ≡ failed e))
    → Counted node_count levels left nodes (rest at)
    → Counted node_count levels left nodes (and_then r (λ _. rest))
guarded-Counted r left nodes at rest (inl e) h = rw e h
guarded-Counted r left nodes at rest (inr (x, e)) h = rw e tt

visit_object-Counted :
    (left : ℕ) (child : Value → Visits Json) (o : Object) (nodes : ℕ)
    → Counts left child
    → suc nodes ≤ 200000
    → Counted node_count levels (suc left) nodes (visit_object child o (suc nodes))
unfolding visit_object
visit_object-Counted left child o nodes counts low =
    guarded-Counted (check_object o (suc nodes)) (suc left) nodes (suc nodes)
      (visit_content child o.class o) (check_object-IsGuard o (suc nodes))
      (visit_content-Counted left child o.class o nodes counts low)

visit_value-Counted :
    (left : ℕ) (heap : Heap) (child : ℕ → Value → Visits Json) (ancestors : List ℕ) (v : Value)
    (nodes : ℕ)
    → ((i : ℕ) → Counts left (child i))
    → suc nodes ≤ 200000
    → Counted node_count levels (suc left) nodes (visit_value heap child ancestors v (suc nodes))
unfolding visit_value visit_num node_count levels
visit_value-Counted left heap child ancestors null nodes counts low =
    (omega arith, λ h. low, omega arith)
visit_value-Counted left heap child ancestors (bool b) nodes counts low =
    (omega arith, λ h. low, omega arith)
visit_value-Counted left heap child ancestors (str s) nodes counts low =
    (omega arith, λ h. low, omega arith)
visit_value-Counted left heap child ancestors (num (int z)) nodes counts low =
    (omega arith, λ h. low, omega arith)
visit_value-Counted left heap child ancestors (num neg_zero) nodes counts low =
    (omega arith, λ h. low, omega arith)
visit_value-Counted left heap child ancestors (num (fraction n)) nodes counts low =
    (omega arith, λ h. low, omega arith)
visit_value-Counted left heap child ancestors (num (non_finite n)) nodes counts low = tt
visit_value-Counted left heap child ancestors undefined nodes counts low = tt
visit_value-Counted left heap child ancestors (symbol n) nodes counts low = tt
visit_value-Counted left heap child ancestors (bigint n) nodes counts low = tt
visit_value-Counted left heap child ancestors (ref i) nodes counts low =
    guarded-Counted _ (suc left) nodes (suc nodes) (visit_object (child i) (heap i))
      (throw_if-IsGuard (is_callable (heap i).class || includes ancestors i) input_not_json
        (suc nodes))
      (visit_object-Counted left (child i) (heap i) nodes (counts i) low)

visit-Counted :
    (heap : Heap) (left : ℕ) (ancestors : List ℕ) → Counts left (visit heap left ancestors)
unfolding visit
visit-Counted heap zero ancestors v nodes = tt
visit-Counted heap (suc left) ancestors v nodes = elim (Bool-cases (ltb 200000 (suc nodes))) [
  | inl t ↦ rw t tt
  | inr f ↦ rw f (
      visit_value-Counted left heap (λ i w. visit heap left (i ∷ ancestors) w) ancestors v nodes
        (λ i. visit-Counted heap left (i ∷ ancestors)) (ground arith))
]

-- Of a heap of any shape, cycles included, a snapshot has at most 200000 nodes, which is what its
-- counter counts, and at most 17 levels.
pub snapshot_json-bounds :
    (heap : Heap) (input : Value) (j : Json) (nodes : ℕ)
    → snapshot_json heap input ≡ visited j nodes
    → (nodes ≡ node_count j) × (node_count j ≤ 200000) × (levels j ≤ 17)
unfolding snapshot_json
snapshot_json-bounds heap input j nodes h =
    let (count, limit, height) =
      subst (Counted node_count levels 17 0) h (visit-Counted heap 17 [] input 0) in
    let low = limit (omega arith) in (omega arith, omega arith, height)
