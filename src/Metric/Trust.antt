-- ===== src/Metric/Trust.antt =====
-- What a trusted contract fixes, and lists of JavaScript values that are lists of strings.
use mathlib.Core.Path.{ap₂}
use ores_lib_core.Base.{
  ◌≡◌, refl, sym, ap, subst, Bool, true, false, inl, inr, ◌⊎◌, ℕ, zero, suc, decimal, Option, none,
  some, List, [], ◌∷◌, ◌++◌, map, Text, text, every, every-In, any, In, nat_eq, list_eq, eq_iff,
  arith, Bool-cases, and_iff,
}
use ores_lib_core.Js.{
  Heap, Value, str_injective, str, same, includes_value, array_items, array_present, items_from,
  present_from, has_own, get_own, undefined, ref, Key, name, sym_key, Slot, Class, plain, array,
  callable, class_items, class_present, Object, get,
}
use ores_lib_core.Metric.Contract.{
  canonical, EnumName, layer, algorithm, outcome, source, principal_kind, failure_mode,
  retry_bucket, all_enums, enum_key, expected_values, required_decision, allowed_attribute_names,
  must_forbid, trace_only, checked_metrics, array_has_all, same_texts, array_is, required_exact,
  all_allowed, metric_checked, trusted_v1_contract,
}
use ores_lib_core.Metric.Labels.{Ids, id_ok, read_ids, items_or_nil}

pub same-str : (v : Value) (t : Text) → same v (str t) ≡ true → v ≡ str t
unfolding same
same-str (str s) t h = ap str ((eq_iff s t).0 h)
same-str v t h = cc

pub same_texts-map : (ts : List Text) (vs : List Value) → same_texts ts vs ≡ true → vs ≡ map str ts
unfolding same_texts
same_texts-map [] [] h = refl
same_texts-map [] (v ∷ vs) h = cc
same_texts-map (t ∷ ts) [] h = cc
same_texts-map (t ∷ ts) (v ∷ vs) h =
    let (here, rest) = (and_iff (same v (str t)) (same_texts ts vs)).0 h in
    ap₂ ◌∷◌ (same-str v t here) (same_texts-map ts vs rest)

pub str-same : (t : Text) (v : Value) → same (str t) v ≡ true → v ≡ str t
unfolding same
str-same t (str s) h = ap str (sym ((eq_iff t s).0 h))
str-same t v h = cc

pub includes-strs :
    (ts : List Text) (v : Value)
    → includes_value (map str ts) v ≡ true
    → (t : Text) × (v ≡ str t) × In t ts
unfolding includes_value
includes-strs [] v h = cc
includes-strs (t ∷ ts) v h = elim (Bool-cases (same (str t) v)) [
  | inl here ↦ (t, str-same t v here, inl refl)
  | inr other ↦ let (u, e, i) = includes-strs ts v (ground arith) in (u, e, inr i)
]

pub includes-append :
    (xs ys : List Value) (v : Value)
    → includes_value (xs ++ ys) v ≡ false
    → (includes_value xs v ≡ false) × (includes_value ys v ≡ false)
unfolding includes_value
includes-append [] ys v h = (refl, h)
includes-append (x ∷ xs) ys v h = ground (arith, includes-append xs ys v)

-- An array that has all of `names` has each of them.
pub has_all-In :
    (o : Option (List Value)) (names : List Text) (n : Text)
    → array_has_all o names ≡ true
    → In n names
    → includes_value (items_or_nil o) (str n) ≡ true
has_all-In none names n h i = cc
has_all-In (some xs) names n h i = every-In (λ m. includes_value xs (str m)) n names h i

pub all_enums-In : (e : EnumName) → In e all_enums
all_enums-In layer = inl refl
all_enums-In algorithm = inr (inl refl)
all_enums-In outcome = inr (inr (inl refl))
all_enums-In source = inr (inr (inr (inl refl)))
all_enums-In principal_kind = inr (inr (inr (inr (inl refl))))
all_enums-In failure_mode = inr (inr (inr (inr (inr (inl refl)))))
all_enums-In retry_bucket = inr (inr (inr (inr (inr (inr (inl refl))))))

-- The arrays of a contract, as the function reads them.
abbrev pub enum_items : Heap → Value → EnumName → Option (List Value)
enum_items heap contract e =
    array_items heap (get heap (get heap contract (text "enums")) (enum_key e))

abbrev pub forbidden_items : Heap → Value → List Value
forbidden_items heap contract =
    items_or_nil (array_items heap (get heap contract (text "forbiddenAttributes")))
    ++ items_or_nil (
        array_items heap (get heap (get heap contract (text "attributes")) (text "traceOrLogOnly")))

abbrev pub allowed_items : Heap → Value → Text → List Value
allowed_items heap contract key = items_or_nil (
    array_items heap
      (get heap (get heap (get heap contract (text "metrics")) key) (text "allowedAttributes")))

-- What a trusted contract gives.
pub record IsTrusted (heap : Heap) (contract : Value) : Type 0 where
  pub enums : (e : EnumName) → array_is (enum_items heap contract e) (expected_values e) ≡ true
  pub forbids :
      array_has_all (array_items heap (get heap contract (text "forbiddenAttributes"))) must_forbid
      ≡ true
  pub traces :
      array_has_all
        (array_items heap
          (get heap (get heap contract (text "attributes")) (text "traceOrLogOnly")))
        trace_only
      ≡ true
  pub required :
      required_exact (
        array_items heap
          (get heap (get heap contract (text "attributes")) (text "requiredDecision")))
      ≡ true
  pub metrics :
      every (metric_checked heap (get heap contract (text "metrics"))) checked_metrics ≡ true

pub IsTrusted-trusted_v1_contract :
    (heap : Heap) (contract : Value)
    → trusted_v1_contract heap contract ≡ true
    → IsTrusted heap contract
unfolding trusted_v1_contract
IsTrusted-trusted_v1_contract heap contract h = record {
  enums = λ e.
      every-In (λ x. array_is (enum_items heap contract x) (expected_values x)) e all_enums
        (ground arith) (all_enums-In e);
  forbids = ground arith;
  traces = ground arith;
  required = ground arith;
  metrics = ground arith;
}

pub array_is-map :
    (o : Option (List Value)) (ts : List Text) → array_is o ts ≡ true → items_or_nil o ≡ map str ts
array_is-map none ts h = cc
array_is-map (some vs) ts h = same_texts-map ts vs h

-- A value among ids that are fine is a string, or undefined where there is a hole.
abbrev pub IsId : Ids → Value → Type 0
IsId ids v =
    ((s : Text) × (v ≡ str s) × (canonical (str s) ≡ true)) ⊎ ((v ≡ undefined) × In none ids)

undefined-same : (v : Value) → same undefined v ≡ true → v ≡ undefined
unfolding same
undefined-same undefined h = refl
undefined-same v h = cc

canonical-IsId :
    (x v : Value)
    → canonical x ≡ true
    → same x v ≡ true
    → (s : Text) × (v ≡ str s) × (canonical (str s) ≡ true)
unfolding canonical
canonical-IsId (str s) v h k = (s, str-same s v k, h)
canonical-IsId x v h k = cc

later-IsId : (id : Option Value) (ids : Ids) (v : Value) → IsId ids v → IsId (id ∷ ids) v
later-IsId id ids v (inl s) = inl s
later-IsId id ids v (inr (e, i)) = inr (e, inr i)

pub ids-IsId :
    (ids : Ids) (v : Value)
    → every id_ok ids ≡ true
    → includes_value (read_ids ids) v ≡ true
    → IsId ids v
unfolding includes_value read_ids
ids-IsId [] v h i = cc
ids-IsId (none ∷ ids) v h i = elim (Bool-cases (same undefined v)) [
  | inl here ↦ inr (undefined-same v here, inl refl)
  | inr other ↦ later-IsId none ids v (ids-IsId ids v h (ground arith))
]
ids-IsId (some x ∷ ids) v h i = elim (Bool-cases (same x v)) [
  | inl here ↦ inl (canonical-IsId x v (ground arith) here)
  | inr other ↦ later-IsId (some x) ids v (ids-IsId ids v (ground arith) (ground arith))
]

pub every-str :
    (p : Value → Bool) (xs : List Value) (t : Text)
    → every p xs ≡ true
    → includes_value xs (str t) ≡ true
    → p (str t) ≡ true
unfolding includes_value
every-str p [] t h i = cc
every-str p (x ∷ xs) t h i = elim (Bool-cases (same x (str t))) [
  | inl here ↦ rw (← same-str x t here) (ground arith)
  | inr other ↦ every-str p xs t (ground arith) (ground arith)
]

pub any-str :
    (p : Value → Bool) (xs : List Value) (t : Text)
    → includes_value xs (str t) ≡ true
    → any p xs ≡ false
    → p (str t) ≡ false
unfolding includes_value
any-str p [] t i h = cc
any-str p (x ∷ xs) t i h = elim (Bool-cases (same x (str t))) [
  | inl here ↦ rw (← same-str x t here) (ground arith)
  | inr other ↦ any-str p xs t (ground arith) (ground arith)
]

pub exact-In :
    (o : Option (List Value)) (n : Text)
    → required_exact o ≡ true
    → In n required_decision
    → includes_value (items_or_nil o) (str n) ≡ true
exact-In none n h i = cc
exact-In (some xs) n h i =
    every-In (λ m. includes_value xs (str m)) n required_decision ((and_iff _ _).0 h).1 i

missing : (ps : List (Key × Slot)) (k : Text) → has_own ps k ≡ false → get_own ps k ≡ undefined
unfolding has_own get_own
missing [] k h = refl
missing ((name j, s) ∷ ps) k h = ground (arith, missing ps k)
missing ((sym_key n, s) ∷ ps) k h = missing ps k h

same-hole : (v : Value) (t : Text) → v ≡ undefined → same v (str t) ≡ false
unfolding same
same-hole v t e = subst (λ w. same w (str t) ≡ false) (sym e) refl

-- A string among the elements of an array is one that is there.
present-str :
    (props : List (Key × Slot)) (i left : ℕ) (t : Text)
    → includes_value (items_from props i left) (str t) ≡ true
    → includes_value (present_from props i left) (str t) ≡ true
unfolding includes_value items_from present_from
present-str props i zero t h = h
present-str props i (suc left) t h = elim (Bool-cases (has_own props (decimal i))) [
  | inl own ↦ rw own (ground (arith, present-str props (suc i) left t))
  | inr gone ↦ rw gone (
      present-str props (suc i) left t
        (ground (arith, same-hole (get_own props (decimal i)) t (missing props (decimal i) gone))))
]

array_present-str :
    (heap : Heap) (v : Value) (t : Text)
    → includes_value (items_or_nil (array_items heap v)) (str t) ≡ true
    → includes_value (items_or_nil (array_present heap v)) (str t) ≡ true
unfolding array_items array_present includes_value
array_present-str heap (ref i) t h = class_present-str (heap i).class (heap i) h
  where
    class_present-str :
        (class : Class) (o : Object)
        → includes_value (items_or_nil (class_items class o)) (str t) ≡ true
        → includes_value (items_or_nil (class_present class o)) (str t) ≡ true
    class_present-str array o h = present-str o.props 0 o.size t h
    class_present-str plain o h = cc
    class_present-str callable o h = cc
array_present-str heap v t h = cc

present_allowed-In :
    (o : Option (List Value)) (key : Text)
    → all_allowed o ≡ true
    → includes_value (items_or_nil o) (str key) ≡ true
    → In key allowed_attribute_names
present_allowed-In none key h i = cc
present_allowed-In (some xs) key h i =
    let (t, e, j) =
      includes-strs allowed_attribute_names (str key)
        (every-str (λ l. includes_value (map str allowed_attribute_names) l) xs key h i) in
    subst (λ k. In k allowed_attribute_names) (sym (str_injective e)) j

pub all_allowed-In :
    (heap : Heap) (v : Value) (key : Text)
    → all_allowed (array_present heap v) ≡ true
    → includes_value (items_or_nil (array_items heap v)) (str key) ≡ true
    → In key allowed_attribute_names
all_allowed-In heap v key h i =
    present_allowed-In (array_present heap v) key h (array_present-str heap v key i)
