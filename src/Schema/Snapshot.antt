-- ===== src/Schema/Snapshot.antt =====
-- validate.js: `snapshotJson`, on a heap of JavaScript objects. The depth of the recursion is a
-- number that goes down to 0 where the code's `depth` goes up to 17.
pub mod Laws
use ores_lib_core.Base.{
  ℕ, zero, suc, ◌+◌, ◌*◌, ◌-◌, Bool, true, false, not, ◌&&◌, ◌||◌, List, [], ◌∷◌, Text, text, every,
  any, filter, length, includes, nat_eq, list_eq, ◌==◌, leb, ltb, is_digit,
}
use ores_lib_core.Js.{
  Heap, Value, null, bool, num, str, ref, Num, int, neg_zero, fraction, non_finite, pos, Key, name,
  sym_key, Slot, data_slot, accessor, Object, Class, Proto, array_proto, own_props, items_from,
  is_callable, is_plain_proto, entries_of,
}
use ores_lib_core.Schema.Json.{Json, Items, nil, cons, Fields, empty, field}

pub data InputError : Type 0 where
  input_limit input_not_json : InputError

-- A result with the count of nodes, or the InputError that is thrown.
pub data Visit (A : Type 0) : Type 0 where
  visited : A → ℕ → Visit A
  failed : InputError → Visit A

abbrev pub Visits : Type 0 → Type 0
Visits A = ℕ → Visit A

abbrev pub and_then : {A B : Type 0} → Visit A → (A → Visits B) → Visit B
and_then (visited a nodes) f = f a nodes
and_then (failed e) f = failed e

infixl 5 ◌>>=◌ ◌>>◌
abbrev pub ◌>>=◌ : {A B : Type 0} → Visits A → (A → Visits B) → Visits B
(m >>= f) nodes = and_then (m nodes) f

abbrev pub ◌>>◌ : {B : Type 0} → Visits (Unit {0}) → Visits B → Visits B
m >> k = m >>= λ _. k

abbrev pub throw_if : Bool → InputError → Visits (Unit {0})
throw_if true e nodes = failed e
throw_if false e nodes = visited tt nodes

-- Number.isFinite, with -0 made 0
unfoldable pub visit_num : Num → Visits Json
visit_num (int z) nodes = visited (Json.num (int z)) nodes
visit_num neg_zero nodes = visited (Json.num (int (pos 0))) nodes
visit_num (fraction n) nodes = visited (Json.num (fraction n)) nodes
visit_num (non_finite n) nodes = failed input_not_json

unfoldable pub visit_items : (Value → Visits Json) → List Value → Visits Items
visit_items child [] nodes = visited nil nodes
visit_items child (v ∷ vs) nodes =
    and_then (child v nodes) (λ j. visit_items child vs >>= λ js nodes. visited (cons j js) nodes)

unfoldable pub visit_fields : (Value → Visits Json) → List (Text × Value) → Visits Fields
visit_fields child [] nodes = visited empty nodes
visit_fields child ((k, v) ∷ r) nodes =
    and_then (child v nodes)
      (λ j. visit_fields child r >>= λ fs nodes. visited (field k j fs) nodes)

abbrev pub is_array : Class → Bool
is_array Class.array = true
is_array _ = false

abbrev pub is_array_proto : Proto → Bool
is_array_proto array_proto = true
is_array_proto _ = false

abbrev pub is_symbol : Key × Slot → Bool
is_symbol (sym_key n, s) = true
is_symbol (name k, s) = false

abbrev pub is_length : Key × Slot → Bool
is_length (name k, s) = k == text "length"
is_length (sym_key n, s) = false

-- "value" in descriptor && descriptor.enumerable
abbrev pub is_data : Key × Slot → Bool
is_data (k, data_slot v enumerable) = enumerable
is_data (k, accessor enumerable) = false

-- Number(key), for digits
unfoldable pub to_number : ℕ → Text → ℕ
to_number acc [] = acc
to_number acc (c ∷ s) = to_number (acc * 10 + (c - b'0')) s

-- /^(0|[1-9][0-9]*)$/
abbrev pub is_index : Text → Bool
is_index [] = false
is_index (c ∷ s) = (c == b'0' && s == []) || (leb b'1' c && leb c b'9' && every is_digit s)

abbrev pub is_element : ℕ → Key × Slot → Bool
is_element size (name k, s) = is_index k && ltb (to_number 0 k) size
is_element size (sym_key n, s) = false

-- The descriptors that are visited: the `length` of an array is not.
unfoldable pub own_entries : Object → List (Key × Slot)
own_entries o = filter (λ p. not (is_array o.class && is_length p)) (own_props o)

-- The prototype is not the ordinary one, or there is a symbol among the keys.
abbrev pub is_exotic : Object → Bool
is_exotic o =
    (is_array o.class && not (is_array_proto o.proto))
    || (not (is_array o.class) && not (is_plain_proto o.proto))
    || any is_symbol (own_props o)

abbrev pub is_too_long : Object → Bool
is_too_long o = is_array o.class && ltb 16384 o.size

abbrev pub has_accessors : Object → Bool
has_accessors o = any (λ p. not (is_data p)) (own_entries o)

-- An array with holes or with other properties than its elements.
abbrev pub is_sparse : Object → Bool
is_sparse o =
    is_array o.class
    && (not (length (own_entries o) == o.size)
        || any (λ p. not (is_element o.size p)) (own_entries o))

unfoldable pub check_object : Object → Visits (Unit {0})
unfolding own_entries
check_object o = do
  throw_if (is_exotic o) input_not_json
  throw_if (is_too_long o) input_limit
  throw_if (has_accessors o) input_not_json
  throw_if (is_sparse o) input_not_json

abbrev pub visit_content : (Value → Visits Json) → Class → Object → Visits Json
visit_content child Class.array o =
    visit_items child (items_from (own_props o) 0 o.size) >>= λ js nodes.
    visited (Json.array js) nodes
visit_content child _ o =
    visit_fields child (entries_of (own_entries o)) >>= λ fs nodes. visited (Json.object fs) nodes

unfoldable pub visit_object : (Value → Visits Json) → Object → Visits Json
unfolding check_object visit_items visit_fields
visit_object child o = do check_object o; visit_content child o.class o

-- What `visit` does with a value that is counted already; `child` visits the values in an object.
unfoldable pub visit_value : Heap → (ℕ → Value → Visits Json) → List ℕ → Value → Visits Json
unfolding visit_num visit_object
visit_value heap child ancestors null nodes = visited Json.null nodes
visit_value heap child ancestors (bool b) nodes = visited (Json.bool b) nodes
visit_value heap child ancestors (str s) nodes = visited (Json.str s) nodes
visit_value heap child ancestors (num n) nodes = visit_num n nodes
visit_value heap child ancestors (ref i) nodes =
    and_then (throw_if (is_callable (heap i).class || includes ancestors i) input_not_json nodes)
      (λ _. visit_object (child i) (heap i))
visit_value heap child ancestors _ nodes = failed input_not_json

unfoldable pub visit : Heap → ℕ → List ℕ → Value → Visits Json
unfolding visit_value
visit heap zero ancestors v nodes = failed input_limit
visit heap (suc left) ancestors v nodes =
    and_then (throw_if (ltb 200000 (suc nodes)) input_limit (suc nodes))
      (λ _. visit_value heap (λ i w. visit heap left (i ∷ ancestors) w) ancestors v)

unfoldable pub snapshot_json : Heap → Value → Visit Json
unfolding visit
snapshot_json heap input = visit heap 17 [] input 0
