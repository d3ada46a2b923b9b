-- ===== src/Schema/Json.antt =====
-- validate.js: JSON documents, the value of `snapshotJson`. An absent property is `none`, for
-- undefined; the nodes of a document are fresh objects, so that no two of them are identical.
use ores_lib_core.Base.{
  ℕ, suc, Bool, true, false, ◌||◌, Option, none, some, List, [], ◌∷◌, map, Text, nat_eq, list_eq,
  ◌==◌, if◌then◌else◌,
}
use ores_lib_core.Js.{Num, num_same, bool_same}

mutual
  pub data Json : Type 0 where
    null : Json
    bool : Bool → Json
    num : Num → Json
    str : Text → Json
    array : Items → Json
    object : Fields → Json

  pub data Items : Type 0 where
    nil : Items
    cons : Json → Items → Items

  pub data Fields : Type 0 where
    empty : Fields
    field : Text → Json → Fields → Fields

unfoldable pub to_list : Items → List Json
to_list nil = []
to_list (cons j js) = j ∷ to_list js

unfoldable pub keys_of : Fields → List Text
keys_of empty = []
keys_of (field k j r) = k ∷ keys_of r

unfoldable pub field_value : Fields → Text → Option Json
field_value empty k = none
field_value (field j v r) k = let rest = field_value r k in if j == k then some v else rest

-- `item.key`
unfoldable pub prop : Option Json → Text → Option Json
unfolding field_value
prop (some (object fs)) k = field_value fs k
prop _ k = none

-- Object.hasOwn
abbrev pub is_some : {A : Type 0} → Option A → Bool
is_some none = false
is_some (some a) = true

-- The elements of an array, each an item; the code asks for them behind Array.isArray.
unfoldable pub elements : Option Json → List (Option Json)
unfolding to_list
elements (some (array js)) = map some (to_list js)
elements _ = []

-- SameValueZero, for a Set of items
unfoldable pub item_same : Option Json → Option Json → Bool
item_same none none = true
item_same (some null) (some null) = true
item_same (some (bool a)) (some (bool b)) = bool_same a b
item_same (some (num a)) (some (num b)) = num_same a b
item_same (some (str s)) (some (str t)) = s == t
item_same _ _ = false

unfoldable pub has_item : List (Option Json) → Option Json → Bool
has_item [] j = false
has_item (x ∷ xs) j = item_same x j || has_item xs j

-- new Set(item).size
unfoldable pub items_size : List (Option Json) → ℕ
items_size [] = 0
items_size (x ∷ xs) = if has_item xs x then items_size xs else suc (items_size xs)
