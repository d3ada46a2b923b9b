-- ===== src/SchemaIr/Input.antt =====
-- schema-ir/validate.js: jsonValue, on a heap of JavaScript objects. Besides the budget that is left
-- it returns the document that it has read, which the rest of the validation reads. The depth is a
-- number that goes down to 0 where the code's goes up to 21.
pub mod Laws
use ores_lib_core.Base.{
  ℕ, zero, suc, decimal, Bool, true, false, not, ◌&&◌, ◌||◌, List, [], ◌∷◌, ◌++◌, Text, text,
  length, includes, nat_eq, list_eq, ◌==◌, ltb, if◌then◌else◌,
}
use ores_lib_core.Js.{
  Heap, Value, null, bool, num, str, ref, Num, non_finite, Key, name, sym_key, Slot, data_slot,
  accessor, Object, Class, own_props, is_callable, is_plain_proto,
}
use ores_lib_core.Schema.Json.{Json, Items, nil, cons, Fields, empty, field}
use ores_lib_core.Schema.Snapshot.{is_array, is_array_proto, is_index, own_entries}
use ores_lib_core.SchemaIr.{Outcome, returned, unfollowed, ◌>>=◌, ◌>>◌, fail, fail_if}

-- A result of the walk: what was read, and the budget left.
abbrev pub Read : Type 0 → Type 0
Read A = Outcome (A × ℕ)

-- .replace(/~/g, "~0").replace(/\//g, "~1")
unfoldable pub pointer_key : Text → Text
pointer_key [] = []
pointer_key (c ∷ s) =
    (if c == b'~' then text "~0" else if c == b'/' then text "~1" else c ∷ []) ++ pointer_key s

unfoldable pub read_items : List (Text × Json) → Items
read_items [] = nil
read_items ((k, j) ∷ r) = cons j (read_items r)

unfoldable pub read_fields : List (Text × Json) → Fields
read_fields [] = empty
read_fields ((k, j) ∷ r) = field k j (read_fields r)

unfoldable pub invalid_json : {A : Type 0} → Text → Text → Outcome A
invalid_json path message = fail (text "INVALID_JSON") path message

unfoldable pub over_limit : {A : Type 0} → Text → Text → Outcome A
over_limit path message = fail (text "RESOURCE_LIMIT") path message

abbrev pub Child : Type 0
Child = Text → Value → ℕ → Read Json

-- The callback of reduce on one property.
unfoldable pub walk_entry : Child → Bool → Text → Key × Slot → ℕ → Read (Text × Json)
walk_entry child in_array path (name k, data_slot v true) left =
    if in_array && not (is_index k)
    then invalid_json path (text "Arrays cannot carry named properties.")
    else child (path ++ b'/' ∷ pointer_key k) v left >>= λ (j, after). returned ((k, j), after)
walk_entry child in_array path p left =
    invalid_json path (text "Only enumerable data properties are accepted.")

unfoldable pub walk_entries :
    Child → Bool → Text → List (Key × Slot) → ℕ → Read (List (Text × Json))
walk_entries child in_array path [] left = returned ([], left)
walk_entries child in_array path (p ∷ ps) left =
    walk_entry child in_array path p left >>= λ (e, after).
    walk_entries child in_array path ps after >>= λ (es, last). returned (e ∷ es, last)

-- The keys are the indices from `i`, in the order in which a JavaScript object lists them.
unfoldable pub is_indexed : ℕ → List (Text × Json) → Bool
is_indexed i [] = true
is_indexed i ((k, j) ∷ es) = k == decimal i && is_indexed (suc i) es

-- Goes on unless the entries of an array leave out an index.
abbrev pub follow_if : Bool → Outcome (Unit {0})
follow_if true = returned tt
follow_if false = unfollowed

-- What was read; the entries of an array are its elements, since `follow_if` comes first.
abbrev pub document : Class → List (Text × Json) → Json
document Class.array es = Json.array (read_items es)
document _ es = Json.object (read_fields es)

-- The prototype is not the ordinary one.
abbrev pub is_exotic : Object → Bool
is_exotic o =
    (is_array o.class && not (is_array_proto o.proto))
    || (not (is_array o.class) && not (is_plain_proto o.proto))

unfoldable pub walk_object : Child → List ℕ → ℕ → Text → Object → ℕ → Read Json
walk_object child ancestors i path o remaining = do
  fail_if (is_exotic o) (text "INVALID_JSON") path (text "Expected a plain JSON object.")
  fail_if (includes ancestors i) (text "INVALID_JSON") path (text "Cyclic input is not JSON.")
  fail_if (is_array o.class && ltb 10000 o.size) (text "RESOURCE_LIMIT") path
      (text "Array exceeds the input limit.")
  (es, after) ← walk_entries child (is_array o.class) path (own_entries o) remaining
  fail_if (is_array o.class && not (length es == o.size)) (text "INVALID_JSON") path
      (text "Sparse arrays are not JSON.")
  follow_if (not (is_array o.class) || is_indexed 0 es)
  returned (document o.class es, after)

-- A value that is counted already.
unfoldable pub walk_value : Heap → (ℕ → Child) → List ℕ → Text → Value → ℕ → Read Json
walk_value heap child ancestors path null left = returned (Json.null, left)
walk_value heap child ancestors path (str s) left = returned (Json.str s, left)
walk_value heap child ancestors path (bool b) left = returned (Json.bool b, left)
walk_value heap child ancestors path (num (non_finite n)) left =
    invalid_json path (text "Expected a finite JSON value.")
walk_value heap child ancestors path (num n) left = returned (Json.num n, left)
walk_value heap child ancestors path (ref i) left =
    if is_callable (heap i).class
    then invalid_json path (text "Expected a finite JSON value.")
    else walk_object (child i) ancestors i path (heap i) left
walk_value heap child ancestors path _ left =
    invalid_json path (text "Expected a finite JSON value.")

unfoldable pub json_value : Heap → ℕ → List ℕ → Text → Value → ℕ → Read Json
json_value heap zero ancestors path v budget =
    over_limit path (text "IR exceeds the depth or node limit.")
json_value heap (suc left) ancestors path v zero =
    over_limit path (text "IR exceeds the depth or node limit.")
json_value heap (suc left) ancestors path v (suc remaining) =
    walk_value heap (λ i at w. json_value heap left (i ∷ ancestors) at w) ancestors path v remaining

-- jsonValue(input, "")
unfoldable pub read_input : Heap → Value → Read Json
read_input heap input = json_value heap 21 [] [] input 100000
