-- ===== src/Js.antt =====
-- JavaScript values as the boundary functions meet them: primitives, and references into a heap of
-- objects with their own property descriptors. A heap may hold cycles. Proxies are not modelled:
-- reading a descriptor runs no code.
use ores_lib_core.Base.{
  ℕ, zero, suc, decimal, Bool, true, false, Option, none, some, List, [], ◌∷◌, ◌++◌, Text, text,
  leb, ◌==◌, nat_eq, list_eq, if◌then◌else◌, ◌≡◌, ap, ◌&&◌, ◌||◌,
}

-- `negsuc n` is -(n + 1).
pub data ℤ : Type 0 where
  pos : ℕ → ℤ
  negsuc : ℕ → ℤ

-- A number: an integral value other than -0, the value -0, a finite fraction and a value that is
-- not finite (NaN and the infinities); the last two carry an index that tells them apart.
pub data Num : Type 0 where
  int : ℤ → Num
  neg_zero : Num
  fraction non_finite : ℕ → Num

pub data Value : Type 0 where
  undefined null : Value
  bool : Bool → Value
  num : Num → Value
  str : Text → Value
  symbol bigint : ℕ → Value
  ref : ℕ → Value

pub data Key : Type 0 where
  name : Text → Key
  sym_key : ℕ → Key

-- An own property: its value, or an accessor; then whether it is enumerable.
pub data Slot : Type 0 where
  data_slot : Value → Bool → Slot
  accessor : Bool → Slot

pub data Proto : Type 0 where
  null_proto object_proto array_proto other_proto : Proto

pub data Class : Type 0 where
  plain array callable : Class

-- `size` is the `length` of an array; `props` are the other own properties.
pub record Object : Type 0 where
  pub class : Class
  pub proto : Proto
  pub size : ℕ
  pub props : List (Key × Slot)

abbrev pub Heap : Type 0
Heap = ℕ → Object

-- Number.isSafeInteger and the two comparisons, min <= value <= max, on numbers from 0.
abbrev pub max_safe : ℕ
max_safe = 9007199254740991

unfoldable pub bounded : Value → ℕ → ℕ → Bool
bounded (num (int (pos n))) min max = leb n max_safe && (leb min n && leb n max)
bounded (num neg_zero) zero max = true
bounded _ min max = false

text_of : Text → Value → Text
text_of d (str s) = s
text_of d v = d

pub str_injective : {s t : Text} → str s ≡ str t → s ≡ t
unfolding text_of
str_injective {s} e = ap (text_of s) e

-- Object.getOwnPropertyDescriptors: the `length` of an array is an own property too.
abbrev pub with_length : Class → ℕ → List (Key × Slot) → List (Key × Slot)
with_length array n ps = ps ++ (name (text "length"), data_slot (num (int (pos n))) false) ∷ []
with_length _ n ps = ps

unfoldable pub own_props : Object → List (Key × Slot)
own_props o = with_length o.class o.size o.props

-- Object.hasOwn for a string key
unfoldable pub has_own : List (Key × Slot) → Text → Bool
has_own [] k = false
has_own ((name j, s) ∷ ps) k = j == k || has_own ps k
has_own ((sym_key n, s) ∷ ps) k = has_own ps k

-- The value of an own data property; no property of a prototype is read by the code modelled here.
abbrev pub slot_value : Slot → Value
slot_value (data_slot v e) = v
slot_value (accessor e) = undefined

unfoldable pub get_own : List (Key × Slot) → Text → Value
get_own [] k = undefined
get_own ((name j, s) ∷ ps) k = if j == k then slot_value s else get_own ps k
get_own ((sym_key n, s) ∷ ps) k = get_own ps k

-- `value.key` on an object
unfoldable pub get : Heap → Value → Text → Value
unfolding get_own own_props
get heap (ref i) k = get_own (own_props (heap i)) k
get heap _ k = undefined

-- Object.prototype or null
abbrev pub is_plain_proto : Proto → Bool
is_plain_proto object_proto = true
is_plain_proto null_proto = true
is_plain_proto _ = false

-- typeof value === 'object', for a reference
abbrev pub is_callable : Class → Bool
is_callable callable = true
is_callable _ = false

unfoldable pub int_same : ℤ → ℤ → Bool
int_same (pos m) (pos n) = m == n
int_same (negsuc m) (negsuc n) = m == n
int_same _ _ = false

unfoldable pub num_same : Num → Num → Bool
num_same (int a) (int b) = int_same a b
num_same (int a) neg_zero = int_same a (pos 0)
num_same neg_zero (int b) = int_same (pos 0) b
num_same neg_zero neg_zero = true
num_same (fraction m) (fraction n) = m == n
num_same (non_finite m) (non_finite n) = m == n
num_same _ _ = false

unfoldable pub bool_same : Bool → Bool → Bool
bool_same true b = b
bool_same false true = false
bool_same false false = true

-- SameValueZero, by which `includes` and `Set` compare.
unfoldable pub same : Value → Value → Bool
unfolding int_same num_same bool_same
same undefined undefined = true
same null null = true
same (bool a) (bool b) = bool_same a b
same (num a) (num b) = num_same a b
same (str s) (str t) = s == t
same (symbol m) (symbol n) = m == n
same (bigint m) (bigint n) = m == n
same (ref m) (ref n) = m == n
same _ _ = false

-- xs.includes(v)
unfoldable pub includes_value : List Value → Value → Bool
includes_value [] v = false
includes_value (x ∷ xs) v = same x v || includes_value xs v

-- new Set(xs).size
unfoldable pub values_size : List Value → ℕ
values_size [] = 0
values_size (x ∷ xs) = if includes_value xs x then values_size xs else suc (values_size xs)

unfoldable pub items_from : List (Key × Slot) → ℕ → ℕ → List Value
items_from props i zero = []
items_from props i (suc left) = get_own props (decimal i) ∷ items_from props (suc i) left

-- Array.isArray(value), with the elements read from index 0 to `length`; a hole reads as undefined.
abbrev pub class_items : Class → Object → Option (List Value)
class_items array o = some (items_from o.props 0 o.size)
class_items _ o = none

-- The elements that are there, which `every` and `some` visit.
unfoldable pub present_from : List (Key × Slot) → ℕ → ℕ → List Value
present_from props i zero = []
present_from props i (suc left) =
    let rest = present_from props (suc i) left in
    if has_own props (decimal i) then get_own props (decimal i) ∷ rest else rest

abbrev pub class_present : Class → Object → Option (List Value)
class_present array o = some (present_from o.props 0 o.size)
class_present _ o = none

unfoldable pub array_present : Heap → Value → Option (List Value)
unfolding present_from
array_present heap (ref i) = class_present (heap i).class (heap i)
array_present heap _ = none

unfoldable pub array_items : Heap → Value → Option (List Value)
unfolding items_from
array_items heap (ref i) = class_items (heap i).class (heap i)
array_items heap _ = none

-- Object.entries: the own enumerable properties with string keys. A getter is taken to return
-- undefined.
abbrev pub entry_of : Key × Slot → List (Text × Value)
entry_of (name k, data_slot v true) = (k, v) ∷ []
entry_of (name k, accessor true) = (k, undefined) ∷ []
entry_of _ = []

unfoldable pub entries_of : List (Key × Slot) → List (Text × Value)
entries_of [] = []
entries_of (p ∷ ps) = entry_of p ++ entries_of ps

unfoldable pub entries : Heap → Value → List (Text × Value)
entries heap (ref i) = entries_of (own_props (heap i))
entries heap _ = []
